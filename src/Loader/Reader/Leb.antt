-- ===== src/Loader/Reader/Leb.antt =====
-- `read_uleb128` against an encoder of its own, and the totality of the LEB128 readers.
use wasmtiny.Base.{
  ℕ, zero, suc, ◌+◌, ◌*◌, ◌/◌, ◌%◌, ◌^◌, ◌≤◌, ◌<◌, ◌≡◌, inl, inr, ap, List, [], ◌∷◌, ◌++◌, length,
  arith, bit_or, bit_and, if◌then◌else◌, ltb, Bool-cases, ltb→lt,
}
use native.Mathlib.Nat.{pow-suc, mul-le-mul, mul-le-mul_right, pow-le-pow_right}
use native.Mathlib.Numerals.{towards_suc}
use wasmtiny.Base.Bits.{bit_or-shifted, bit_and-halves, bit_and-low_mask, bit_and-pow}
use wasmtiny.Loader.Reader.{BinaryReader, ok, uleb_loop, read_uleb128, shl}
use wasmtiny.Loader.Reader.Moves.{rest, advance, read_u8-cons}

-- The shortest unsigned LEB128 encoding, in at most `k` bytes.
abbrev pub uleb : ℕ → ℕ → List ℕ
uleb zero n = []
uleb (suc k) n = if ltb n 128 then n ∷ [] else (n % 128 + 128) ∷ uleb k (n / 128)

abbrev last_of : ℕ → ℕ → ℕ
last_of zero n = 0
last_of (suc k) n = if ltb n 128 then n else last_of k (n / 128)

pow_seven : (s : ℕ) → 2 ^ (s + 7) ≡ 128 * 2 ^ s
pow_seven s = simp towards_suc (omega arith)

pub low_bits : (b : ℕ) → bit_and b 0x7F ≡ b % 128
low_bits b = bit_and-low_mask 7 b

pub top_bit : (b : ℕ) → bit_and b 0x80 ≡ b / 128 % 2 * 128
top_bit b = bit_and-pow 7 b

shifted_byte-le : (byte shift : ℕ) → shift < 36 → byte % 128 * 2 ^ shift ≤ 127 * 2 ^ 35
shifted_byte-le byte shift h =
    mul-le-mul {n₁ = byte % 128} {n₂ = 127} (omega arith)
      (pow-le-pow_right {n = 2} (omega arith) {i = shift} {j = 35} (omega arith))

shifted_byte-le_width : (byte shift : ℕ) → byte % 128 * 2 ^ shift ≤ 127 * 2 ^ shift
shifted_byte-le_width byte shift =
    mul-le-mul_right {m = byte % 128} {n = 127} (2 ^ shift) (omega arith)

-- One byte adds its seven bits above the bits that are there.
add_group :
    (result byte shift : ℕ)
    → result < 2 ^ shift
    → shift < 36
    → bit_or result (shl 64 (bit_and byte 0x7F) shift) ≡ result + byte % 128 * 2 ^ shift
add_group result byte shift h s =
    ground (
      arith,
      low_bits byte,
      shifted_byte-le byte shift s,
      bit_or-shifted shift result (byte % 128) h,
    )

group_fits :
    (result byte shift : ℕ) → result < 2 ^ shift → result + byte % 128 * 2 ^ shift < 2 ^ (shift + 7)
group_fits result byte shift h = omega (arith, pow_seven shift, shifted_byte-le_width byte shift)

-- The round of the loop at a byte that ends it, and at one that does not.
module _ (fuel result shift count byte : ℕ) (r : BinaryReader) {bs : List ℕ}
    (left : rest r ≡ byte ∷ bs) (fits : result < 2 ^ shift) where
  pub uleb_loop-stop :
      byte < 128
      → shift < 36
      → uleb_loop (suc fuel) result shift count r
        ≡ (ok (result + byte * 2 ^ shift, count + 1, byte), advance r 1)
  unfolding uleb_loop
  uleb_loop-stop h s =
      let e : byte % 128 ≡ byte = omega arith in
      ground
        (arith, (read_u8-cons r left).0, top_bit byte, rw e at (add_group result byte shift fits s))

  pub uleb_loop-more :
      128 ≤ byte
      → byte < 256
      → shift + 7 ≤ 35
      → uleb_loop (suc fuel) result shift count r
        ≡ uleb_loop fuel (result + byte % 128 * 2 ^ shift) (shift + 7) (count + 1) (advance r 1)
  unfolding uleb_loop
  uleb_loop-more h u s =
      ground (
        arith,
        (read_u8-cons r left).0,
        top_bit byte,
        add_group result byte shift fits (omega arith),
      )

sum_back :
    (n result s : ℕ)
    → result + (n % 128 + 128) % 128 * 2 ^ s + n / 128 * 2 ^ (s + 7) ≡ result + n * 2 ^ s
sum_back n result s =
    let e : (n % 128 + 128) % 128 ≡ n % 128 = omega arith in
    rw e (
      omega (
        arith,
        ap (λ (q : ℕ). n / 128 * q) (pow_seven s),
        ap (λ (q : ℕ). q * 2 ^ s) (let d : n ≡ n % 128 + 128 * (n / 128) = omega arith in d),
      ))

more_digits : (k n : ℕ) → 128 ≤ n → n < 128 ^ suc k → 0 < k
more_digits zero n h b = absurd (omega arith)
more_digits (suc k) n h b = omega arith

loop_back :
    (k fuel shift result count n : ℕ) (r : BinaryReader) {tail : List ℕ}
    → k ≤ fuel
    → n < 128 ^ k
    → 0 < k
    → shift + 7 * k ≤ 35
    → result < 2 ^ shift
    → rest r ≡ uleb k n ++ tail
    → (uleb_loop fuel result shift count r ≡ (
      ok (result + n * 2 ^ shift, count + length (uleb k n), last_of k n),
      advance r (length (uleb k n)),
    ))
      × (rest (advance r (length (uleb k n))) ≡ tail)
loop_back zero fuel shift result count n r a b c d e h = absurd (omega arith)
loop_back (suc k) zero shift result count n r a b c d e h = absurd (omega arith)
loop_back (suc k) (suc fuel) shift result count n r {tail} a b c d e h =
    elim (Bool-cases (ltb n 128)) [
      | inl short ↦
          let left : rest r ≡ n ∷ tail = rw short at h in
          rw short (
            uleb_loop-stop fuel result shift count n r left e (ltb→lt n 128 short) (omega arith),
            (read_u8-cons r left).1,
          )
      | inr long ↦
          let left : rest r ≡ (n % 128 + 128) ∷ (uleb k (n / 128) ++ tail) = rw long at h in
          let big : 128 ≤ n = ground arith in
          let r' = advance r 1 in
          let ih =
            loop_back k fuel (shift + 7) (result + (n % 128 + 128) % 128 * 2 ^ shift) (count + 1)
              (n / 128) r' (omega arith) (omega (arith, pow-suc 128 k)) (more_digits k n big b)
              (omega arith) (group_fits result (n % 128 + 128) shift e) (read_u8-cons r left).1 in
          rw long (
            ground (
              arith,
              uleb_loop-more fuel result shift count (n % 128 + 128) r left e (omega arith)
                  (omega arith) (omega (arith, more_digits k n big b)),
              ih.0,
              sum_back n result shift,
            ),
            ground (arith, ih.1),
          )
    ]

pub high_nibble : (b : ℕ) → bit_and b 0xF0 ≡ b / 16 % 16 * 16
high_nibble b = omega (
  arith,
  bit_and-halves b 0xF0,
  bit_and-halves (b / 2) 0x78,
  bit_and-halves (b / 2 / 2) 0x3C,
  bit_and-halves (b / 2 / 2 / 2) 0x1E,
  bit_and-low_mask 4 (b / 2 / 2 / 2 / 2),
)

-- A fifth byte of an encoding has no bits above the 32nd.
last_of-small : (n : ℕ) → n < 2 ^ 32 → length (uleb 5 n) ≡ 5 → last_of 5 n < 16
last_of-small n h e = ground arith

-- Every `u32` is read back from its shortest encoding, whatever follows, and the reader stands
-- behind the encoding.
pub read_uleb128-uleb :
    (r : BinaryReader) (n : ℕ) {tail : List ℕ}
    → n < 2 ^ 32
    → rest r ≡ uleb 5 n ++ tail
    → (read_uleb128 r ≡ (ok n, advance r (length (uleb 5 n))))
      × (rest (advance r (length (uleb 5 n))) ≡ tail)
unfolding read_uleb128
read_uleb128-uleb r n h e =
    let l =
      loop_back 5 6 0 0 0 n r (omega arith) (omega arith) (omega arith) (omega arith) (omega arith)
        e in
    (ground (arith, l.0, high_nibble (last_of 5 n), last_of-small n h), l.1)
