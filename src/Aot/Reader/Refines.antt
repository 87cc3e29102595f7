-- ===== src/Aot/Reader/Refines.antt =====
-- The reader of artifacts as a consumer of a list of bytes.
use mathlib.Core.Path.{subst}
use wasmtiny.Base.{
  not, inl, inr, Bool-cases, ℕ, zero, suc, ◌+◌, ◌*◌, ◌^◌, ◌≤◌, ◌<◌, ◌≡◌, refl, sym, ◌∙◌, Bool, true,
  false, ◌&&◌, Option, none, some, List, [], ◌∷◌, length, take, drop, ltb, leb, ◌==◌, if◌then◌else◌,
  arith, length-take, length-drop, drop-add,
}
use native.Mathlib.Nat.{le-div_iff_mul-le}
use wasmtiny.Base.Utf8.{is_utf8}
use wasmtiny.Base.Bytes.{IsByte, AreBytes, from_le_bytes, from_le_bytes-lt}
use wasmtiny.Aot.Reader.{
  Outcome, ok, err, panic, Reader, Read, after, remaining, read_bytes, first_byte, read_u8,
  four_bytes, read_u32, bounded_bytes, read_len_bytes, checked_string, read_string, checked_count,
  read_count, inconsistent,
}

-- The position is in the artifact, which consists of bytes and fits into the address space.
pub record IsValid (r : Reader) : Type 0 where
  pub inside : r.pos ≤ length r.data_
  pub sized : length r.data_ < 2 ^ 64
  pub bytes : AreBytes r.data_

-- The bytes that are left.
abbrev pub rest : Reader → List ℕ
rest r = drop r.pos r.data_

-- The specification: what is read from a list of bytes, with the bytes behind it, or a refusal.
abbrev pub Parse : Type 0 → Type 0
Parse A = List ℕ → Option (A × List ℕ)

abbrev pub then_ : {A B : Type 0} → Option (A × List ℕ) → (A → Parse B) → Option (B × List ℕ)
then_ none next = none
then_ (some (a, bytes)) next = next a bytes

abbrev pub take_bytes : ℕ → Parse (List ℕ)
take_bytes n bytes = if ltb (length bytes) n then none else some (take n bytes, drop n bytes)

abbrev pub only_if : {A : Type 0} → Bool → A → Parse A
only_if b a bytes = if b then some (a, bytes) else none

abbrev pub byte_spec : Parse ℕ
byte_spec [] = none
byte_spec (b ∷ bytes) = some (b, bytes)

abbrev pub u32_spec : Parse ℕ
u32_spec bytes = then_ (take_bytes 4 bytes) λ four left. some (from_le_bytes four, left)

abbrev pub len_bytes_spec : ℕ → Parse (List ℕ)
len_bytes_spec max bytes =
    then_ (u32_spec bytes) λ len left. if leb len max then take_bytes len left else none

abbrev pub string_spec : ℕ → Parse (List ℕ)
string_spec max bytes = then_ (len_bytes_spec max bytes) λ text. only_if (is_utf8 text) text

-- As many items of the least size fit into what is left.
abbrev pub count_spec : ℕ → Parse ℕ
count_spec min_item_size bytes =
    then_ (u32_spec bytes)
      λ count left. only_if (leb (count * min_item_size) (length left)) count left

-- The result of a read and what it leaves are those of the specification; `P` holds of the result.
unfoldable pub Agrees :
    {A : Type 0} → (A → Type 0) → Outcome A × Reader → Option (A × List ℕ) → Type 0
Agrees P (ok a, r) (some (b, bytes)) = (a ≡ b) × (rest r ≡ bytes) × IsValid r × P a
Agrees P (err e, r) none = IsValid r
Agrees P _ _ = ⊥

AreBytes-take : (n : ℕ) (bs : List ℕ) → AreBytes bs → AreBytes (take n bs)
AreBytes-take zero bs h = tt
AreBytes-take (suc n) [] h = tt
AreBytes-take (suc n) (b ∷ bs) h = (h.0, AreBytes-take n bs h.1)

AreBytes-drop : (n : ℕ) (bs : List ℕ) → AreBytes bs → AreBytes (drop n bs)
AreBytes-drop zero bs h = h
AreBytes-drop (suc n) [] h = tt
AreBytes-drop (suc n) (b ∷ bs) h = AreBytes-drop n bs h.1

length-rest : (r : Reader) → length (rest r) ≡ remaining r
unfolding remaining
length-rest r = length-drop r.pos r.data_

module _ {A B : Type 0} (P : A → Type 0) (Q : B → Type 0) where
  after-Agrees :
      (out : Outcome A × Reader) (found : Option (A × List ℕ)) (f : A → Read B) (q : A → Parse B)
      → Agrees P out found
      → ((a : A) (r : Reader) → P a → IsValid r → Agrees Q (f a r) (q a (rest r)))
      → Agrees Q (after out f) (then_ found q)
  unfolding Agrees
  after-Agrees (ok a, r) (some (b, bytes)) f q (same, left, valid, p) k =
      subst (λ c. Agrees Q (f a r) (q c bytes)) same
        (subst (λ l. Agrees Q (f a r) (q a l)) left (k a r p valid))
  after-Agrees (ok a, r) none f q h k = elim h [ ]
  after-Agrees (err e, r) none f q h k = h
  after-Agrees (err e, r) (some found) f q h k = elim h [ ]
  after-Agrees (panic, r) none f q h k = elim h [ ]
  after-Agrees (panic, r) (some found) f q h k = elim h [ ]

weaken :
    {A : Type 0} (P Q : A → Type 0)
    → ((a : A) → P a → Q a)
    → (out : Outcome A × Reader) (found : Option (A × List ℕ)) → Agrees P out found
    → Agrees Q out found
unfolding Agrees
weaken P Q f (ok a, r) (some (b, bytes)) (same, left, v, p) = (same, left, v, f a p)
weaken P Q f (ok a, r) none h = elim h [ ]
weaken P Q f (err e, r) none h = h
weaken P Q f (err e, r) (some found) h = elim h [ ]
weaken P Q f (panic, r) none h = elim h [ ]
weaken P Q f (panic, r) (some found) h = elim h [ ]

-- What a slice of `n` bytes is.
abbrev pub Slice : ℕ → List ℕ → Type 0
Slice n bytes = (length bytes ≡ n) × AreBytes bytes

abbrev pub Fits : ℕ → Type 0
Fits count = count < 2 ^ 32

abbrev pub Any : {A : Type 0} → A → Type 0
Any a = Unit

read_bytes-Agrees :
    (n : ℕ) (r : Reader) → IsValid r → Agrees (Slice n) (read_bytes n r) (take_bytes n (rest r))
unfolding read_bytes Agrees remaining
read_bytes-Agrees n r v = elim (Bool-cases (ltb (length (rest r)) n)) [
  | inl short ↦
      let no : (ltb (r.pos + n) (2 ^ 64) && leb (r.pos + n) (length r.data_)) ≡ false =
        ground (arith, short, length-rest r, v.inside) in
      rw (no, short) v
  | inr long ↦
      let fits : r.pos + n ≤ length r.data_ = ground (arith, long, length-rest r, v.inside) in
      let yes : (ltb (r.pos + n) (2 ^ 64) && leb (r.pos + n) (length r.data_)) ≡ true =
        ground (arith, fits, v.sized) in
      rw (yes, long)
        (
          refl,
          drop-add r.pos n r.data_,
          record { inside = fits; sized = v.sized; bytes = v.bytes },
          (
            length-take n (rest r)
                ∙ (let within : n ≤ length (rest r) = ground (arith, long) in
                    omega (arith, within)),
            AreBytes-take n (rest r) (AreBytes-drop r.pos r.data_ v.bytes),
          ),
        )
]

-- A byte is a slice of one.
one_byte :
    (bytes : List ℕ)
    → then_ (take_bytes 1 bytes) (λ slice left. then_ (byte_spec slice) λ b _. some (b, left))
      ≡ byte_spec bytes
one_byte [] = refl
one_byte (b ∷ bytes) =
    let enough : ltb (suc (length bytes)) 1 ≡ false = ground arith in rw enough refl

first_byte-Agrees :
    (slice : List ℕ) (r : Reader)
    → Slice 1 slice
    → IsValid r
    → Agrees IsByte (first_byte slice r) (then_ (byte_spec slice) λ b _. some (b, rest r))
unfolding Agrees
first_byte-Agrees [] r one v = absurd (omega (arith, one.0))
first_byte-Agrees (b ∷ bytes) r one v = (refl, refl, v, one.1.0)

fits_four : (four : List ℕ) → Slice 4 four → from_le_bytes four < 2 ^ 32
fits_four four slice =
    subst (λ n. from_le_bytes four < 256 ^ n) slice.0 (from_le_bytes-lt four slice.1)

read_u8-Agrees : (r : Reader) → IsValid r → Agrees IsByte (read_u8 r) (byte_spec (rest r))
unfolding read_u8 Agrees
read_u8-Agrees r v = subst (Agrees IsByte (read_u8 r)) (one_byte (rest r)) (
    after-Agrees (Slice 1) IsByte (read_bytes 1 r) (take_bytes 1 (rest r)) first_byte
      (λ slice left. then_ (byte_spec slice) λ b _. some (b, left)) (read_bytes-Agrees 1 r v)
      (λ slice r' one v'. first_byte-Agrees slice r' one v'))

read_u32-Agrees : (r : Reader) → IsValid r → Agrees Fits (read_u32 r) (u32_spec (rest r))
unfolding read_u32 Agrees
read_u32-Agrees r v =
    after-Agrees (Slice 4) Fits (read_bytes 4 r) (take_bytes 4 (rest r)) four_bytes
      (λ four left. some (from_le_bytes four, left)) (read_bytes-Agrees 4 r v)
      (λ four r' slice v'.
        let yes : (length four == 4) ≡ true = ground (arith, slice.0) in
        rw yes (refl, refl, v', unfold from_le_bytes in fits_four four slice))

abbrev pub AtMost : ℕ → List ℕ → Type 0
AtMost max bytes = length bytes ≤ max

read_len_bytes-Agrees :
    (max : ℕ) (r : Reader)
    → IsValid r
    → Agrees (AtMost max) (read_len_bytes max r) (len_bytes_spec max (rest r))
unfolding read_len_bytes
read_len_bytes-Agrees max r v =
    after-Agrees Fits (AtMost max) (read_u32 r) (u32_spec (rest r)) (bounded_bytes max)
      (λ len left. if leb len max then take_bytes len left else none) (read_u32-Agrees r v)
      (λ len r' fits v'. elim (Bool-cases (ltb max len)) [
        | inl long ↦
            let no : leb len max ≡ false = ground (arith, long) in
            rw (long, no) (unfold Agrees in v')
        | inr short ↦
            let le : len ≤ max = ground (arith, short) in
            let yes : leb len max ≡ true = ground (arith, le) in
            rw (short, yes)
              (weaken (Slice len) (AtMost max) (λ bytes slice. omega (arith, slice.0, le))
                (read_bytes len r') (take_bytes len (rest r')) (read_bytes-Agrees len r' v'))
      ])

abbrev pub IsText : List ℕ → Type 0
IsText bytes = is_utf8 bytes ≡ true

read_string-Agrees :
    (max : ℕ) (r : Reader)
    → IsValid r
    → Agrees IsText (read_string max r) (string_spec max (rest r))
unfolding read_string
read_string-Agrees max r v =
    after-Agrees (AtMost max) IsText (read_len_bytes max r) (len_bytes_spec max (rest r))
      checked_string (λ text. only_if (is_utf8 text) text) (read_len_bytes-Agrees max r v)
      (λ text r' _ v'. elim (Bool-cases (is_utf8 text)) [
        | inl good ↦ rw good (unfold Agrees in (refl, refl, v', good))
        | inr other ↦ rw other (unfold Agrees in v')
      ])

-- The test by division is the bound on the items.
consistent_lem :
    (min_item_size count : ℕ) (r : Reader)
    → not (inconsistent min_item_size count r) ≡ leb (count * min_item_size) (length (rest r))
consistent_lem zero count r = ground (arith, length-rest r)
consistent_lem (suc k) count r =
    let iff = le-div_iff_mul-le {k = suc k} {x = count} {y = remaining r} (omega arith) in
    rw (length-rest r) (ground (arith, iff.0, iff.1))

read_count-Agrees :
    (min_item_size : ℕ) (r : Reader)
    → IsValid r
    → Agrees Fits (read_count min_item_size r) (count_spec min_item_size (rest r))
unfolding read_count
read_count-Agrees min_item_size r v =
    after-Agrees Fits Fits (read_u32 r) (u32_spec (rest r)) (checked_count min_item_size)
      (λ count left. only_if (leb (count * min_item_size) (length left)) count left)
      (read_u32-Agrees r v)
      (λ count r' fits v'. elim (Bool-cases (inconsistent min_item_size count r')) [
        | inl bad ↦ rw (sym (consistent_lem min_item_size count r'), bad) (unfold Agrees in v')
        | inr good ↦
            let small : ltb count (2 ^ 32) ≡ true = ground (arith, fits) in
            rw (sym (consistent_lem min_item_size count r'), good, small)
              (unfold Agrees in (refl, refl, v', fits))
      ])

-- Every operation of the reader is that operation on the list of the bytes that are left: it gives
-- the same result and leaves the same bytes, and it fails where too few bytes are left, a declared
-- length is above the bound, a string is not UTF-8, or a count of items of the least size exceeds
-- what is left. No operation panics, and the position stays in the artifact. (The position is in
-- the artifact, whose bytes are below 256 and fewer than `2 ^ 64`.)
pub reader_refines :
    (n : ℕ) (r : Reader)
    → IsValid r
    → Agrees (Slice n) (read_bytes n r) (take_bytes n (rest r))
      × Agrees IsByte (read_u8 r) (byte_spec (rest r))
      × Agrees Fits (read_u32 r) (u32_spec (rest r))
      × Agrees (AtMost n) (read_len_bytes n r) (len_bytes_spec n (rest r))
      × Agrees IsText (read_string n r) (string_spec n (rest r))
      × Agrees Fits (read_count n r) (count_spec n (rest r))
reader_refines n r v = (
  read_bytes-Agrees n r v,
  read_u8-Agrees r v,
  read_u32-Agrees r v,
  read_len_bytes-Agrees n r v,
  read_string-Agrees n r v,
  read_count-Agrees n r v,
)
