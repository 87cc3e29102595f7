-- ===== src/Loader/Parser/Ends.antt =====
-- What it is for a reader of the parser to end, and how that composes.
use wasmtiny.Base.{
  ℕ, zero, suc, ◌+◌, ◌^◌, ◌≤◌, ◌<◌, ◌≡◌, refl, ap, ◌∙◌, Bool, true, false, Option, none, some, List,
  [], ◌∷◌, length, drop, length-take, if◌then◌else◌, arith, String,
}
use wasmtiny.Loader.Reader.{
  ◌>>=◌ as bind_read, BinaryReader, IoResult, Read, read_u8, read_bytes, read_uleb128, uleb_loop,
  uleb_checks, remaining,
}
use wasmtiny.Loader.Reader.Total.{Settled, leb_readers-Settled, read_u8-Settled}
use wasmtiny.Loader.Validator.ConstExpr.Total.{read_u8-advances}
use wasmtiny.Loader.Validator.{Checked, ok, err, panic, stuck}
use wasmtiny.Loader.Parser.{
  Parse, next, ◌>>=◌, pure, fail, from_io, io, byte, u32, bytes, many, vector, refusing,
}

-- In its bytes, of which no `u32` more overflow the address space.
pub record IsPlaced (r : BinaryReader) : Type 0 where
  pub inside : r.position ≤ length r.bytes
  pub sized : length r.bytes + 2 ^ 32 < 2 ^ 64

-- A result of which `P` holds, with the reader moved forward in its bytes, or an error.
unfoldable pub Ended :
    {A : Type 0} → (A → Type 0) → BinaryReader → Checked (A × BinaryReader) → Type 0
Ended P r (ok (a, r')) =
    (r'.bytes ≡ r.bytes) × (r.position ≤ r'.position) × (r'.position ≤ length r'.bytes) × P a
Ended P r (err e) = Unit
Ended P r panic = ⊥
Ended P r stuck = ⊥

pub record Ends {A : Type 0} (P : A → Type 0) (m : Parse A) : Type 0 where
  pub at : (r : BinaryReader) → IsPlaced r → Ended P r (m r)

abbrev pub Any : {A : Type 0} → A → Type 0
Any a = Unit

abbrev pub Fits : ℕ → Type 0
Fits n = n < 2 ^ 32

abbrev pub IsSmall : List ℕ → Type 0
IsSmall bs = length bs < 2 ^ 32

IsPlaced-IsPlaced :
    (r r' : BinaryReader)
    → IsPlaced r
    → r'.bytes ≡ r.bytes
    → r'.position ≤ length r'.bytes
    → IsPlaced r'
IsPlaced-IsPlaced r r' h same inside = record {
  inside = inside;
  sized = omega (arith, h.sized, ap (λ l. length l) same);
}

module _ {B : Type 0} (Q : B → Type 0) where
  -- What ends from a later place ends from an earlier one.
  forwarded :
      (out : Checked (B × BinaryReader)) (r r' : BinaryReader)
      → r'.bytes ≡ r.bytes
      → r.position ≤ r'.position
      → Ended Q r' out
      → Ended Q r out
  unfolding Ended
  forwarded (ok (b, s)) r r' same forward (bytes, moved, inside, q) =
      (bytes ∙ same, omega (arith, forward, moved), inside, q)
  forwarded (err e) r r' same forward x = tt
  forwarded panic r r' same forward x = x
  forwarded stuck r r' same forward x = x

module _ {A B : Type 0} (P : A → Type 0) (Q : B → Type 0) where
  -- What follows a result goes on from a place not before.
  pub next-Ended :
      (r : BinaryReader) (out : Checked (A × BinaryReader)) (f : A → Parse B)
      → IsPlaced r
      → Ended P r out
      → ((a : A) (r' : BinaryReader)
          → P a
          → IsPlaced r'
          → r'.bytes ≡ r.bytes
          → r.position ≤ r'.position
          → Ended Q r' (f a r'))
      → Ended Q r (next out f)
  unfolding Ended
  next-Ended r (ok (a, r')) f h (same, forward, inside, p) k =
      forwarded Q (f a r') r r' same forward
        (k a r' p (IsPlaced-IsPlaced r r' h same inside) same forward)
  next-Ended r (err e) f h s k = tt
  next-Ended r panic f h s k = s
  next-Ended r stuck f h s k = s

  pub bind-Ends :
      (m : Parse A) (f : A → Parse B) → Ends P m → ((a : A) → P a → Ends Q (f a)) → Ends Q (m >>= f)
  unfolding ◌>>=◌
  bind-Ends m f e k = record {
    at = λ r h. next-Ended r (m r) f h (e.at r h) (λ a r' p h' _ _. (k a p).at r' h');
  }

module _ {A : Type 0} where
  pub pure-Ends : (a : A) → Ends Any (pure a)
  unfolding pure Ended
  pure-Ends a = record { at = λ r h. (refl, omega arith, h.inside, tt) }

  pub fail-Ends : (message : String) → Ends {A = A} Any (fail message)
  unfolding fail Ended
  fail-Ends message = record { at = λ r h. tt }

  pub if-Ends : (b : Bool) (m n : Parse A) → Ends Any m → Ends Any n → Ends Any (if b then m else n)
  if-Ends true m n x y = x
  if-Ends false m n x y = y

  pub if-at :
      (b : Bool) (m n : Parse A) (r : BinaryReader)
      → Ended Any r (m r)
      → Ended Any r (n r)
      → Ended Any r ((if b then m else n) r)
  if-at true m n r x y = x
  if-at false m n r x y = y

  pub refusing-Ends : (message : String) (o : Option A) → Ends Any (refusing message o)
  refusing-Ends message none = fail-Ends message
  refusing-Ends message (some a) = pure-Ends a

  Settled-Ended :
      (P : A → Type 0) (r : BinaryReader) (out : IoResult A × BinaryReader)
      → Settled r out
      → ((a : A) → out.0 ≡ IoResult.ok a → P a)
      → Ended P r (from_io out)
  unfolding Ended
  Settled-Ended P r (IoResult.ok a, r') s k =
      (s.same_bytes, s.forward, omega (arith, s.inside, ap (λ l. length l) s.same_bytes), k a refl)
  Settled-Ended P r (IoResult.err e, r') s k = tt
  Settled-Ended P r (IoResult.panic, r') s k = absurd (s.no_panic refl)
  Settled-Ended P r (IoResult.stuck, r') s k = absurd (s.ended refl)

  pub io-Ends :
      (P : A → Type 0) (m : Read A)
      → ((r : BinaryReader) → IsPlaced r → Settled r (m r))
      → ((r : BinaryReader) (a : A) → (m r).0 ≡ IoResult.ok a → P a)
      → Ends P (io m)
  unfolding io
  io-Ends P m s k = record { at = λ r h. Settled-Ended P r (m r) (s r h) (k r) }

pub byte-Ends : Ends Any byte
byte-Ends = io-Ends Any read_u8 (λ r h. read_u8-Settled r h.inside) (λ r a e. tt)

-- `read_uleb128` refuses what does not fit.
checks-Fits :
    (out : IoResult (ℕ × ℕ × ℕ) × BinaryReader) (r : BinaryReader) (n : ℕ)
    → (bind_read (λ _. out) uleb_checks r).0 ≡ IoResult.ok n
    → Fits n
checks-Fits (IoResult.ok (result, count, last), r') r n e = ground (arith, e)
checks-Fits (IoResult.err x, r') r n e = absurd cc
checks-Fits (IoResult.panic, r') r n e = absurd cc
checks-Fits (IoResult.stuck, r') r n e = absurd cc

pub u32-Ends : Ends Fits u32
unfolding read_uleb128
u32-Ends =
    io-Ends Fits read_uleb128 (λ r h. (leb_readers-Settled r h.inside).0)
      (λ r n e. checks-Fits (uleb_loop 6 0 0 0 r) r n e)

pub read_bytes-Settled :
    (n : ℕ) (r : BinaryReader)
    → r.position ≤ length r.bytes
    → r.position + n < 2 ^ 64
    → Settled r (read_bytes n r)
unfolding read_bytes
read_bytes-Settled n r inside small = ground (arith, inside, small)

read_bytes-IsSmall :
    (n : ℕ) (r : BinaryReader) (slice : List ℕ)
    → Fits n
    → (read_bytes n r).0 ≡ IoResult.ok slice
    → IsSmall slice
unfolding read_bytes
read_bytes-IsSmall n r slice fits e =
    ground (arith, fits, e, length-take n (drop r.position r.bytes))

pub bytes-Ends : (n : ℕ) → Fits n → Ends IsSmall (bytes n)
bytes-Ends n fits =
    io-Ends IsSmall (read_bytes n)
      (λ r h. read_bytes-Settled n r h.inside (omega (arith, h.inside, h.sized, fits)))
      (λ r slice e. read_bytes-IsSmall n r slice fits e)

-- All that is left.
pub rest-Ends : Ends {A = List ℕ} Any (λ r. bytes (remaining r) r)
unfolding remaining io
rest-Ends = record {
  at = λ r h.
      Settled-Ended Any r (read_bytes (remaining r) r)
        (read_bytes-Settled (remaining r) r h.inside (omega (arith, h.inside, h.sized)))
        (λ slice e. tt);
}

pub many-Ends : {A : Type 0} (n : ℕ) (p : Parse A) → Ends Any p → Ends Any (many n p)
unfolding many
many-Ends zero p e = pure-Ends []
many-Ends (suc n) p e =
    bind-Ends Any Any p (λ a. many n p >>= λ rest. pure (a ∷ rest)) e
      (λ a _.
        bind-Ends Any Any (many n p) (λ rest. pure (a ∷ rest)) (many-Ends n p e)
          (λ rest _. pure-Ends (a ∷ rest)))

pub vector-Ends : {A : Type 0} (p : Parse A) → Ends Any p → Ends Any (vector p)
unfolding vector
vector-Ends p e =
    bind-Ends Fits Any u32 (λ count. many count p) u32-Ends (λ count _. many-Ends count p e)

module _ {A : Type 0} (f : ℕ → Parse A) (r : BinaryReader) (h : IsPlaced r)
    (k : (b : ℕ) (r' : BinaryReader)
      → IsPlaced r'
      → r'.bytes ≡ r.bytes
      → r.position < r'.position
      → Ended Any r' (f b r')) where
  byte_next :
      (out : IoResult ℕ) (r' : BinaryReader)
      → read_u8 r ≡ (out, r')
      → Settled r (out, r')
      → Ended Any r (next (from_io (out, r')) f)
  byte_next (IoResult.ok b) r' e s =
      let (same, place, lt) = read_u8-advances r r' b e in
      let inside : r'.position ≤ length r'.bytes =
        omega (arith, s.inside, ap (λ l. length l) same) in
      forwarded Any (f b r') r r' same (omega (arith, place))
        (k b r' (IsPlaced-IsPlaced r r' h same inside) same (omega (arith, place)))
  byte_next (IoResult.err x) r' e s = unfold Ended in tt
  byte_next IoResult.panic r' e s = absurd (s.no_panic refl)
  byte_next IoResult.stuck r' e s = absurd (s.ended refl)

  -- A byte is one step, so that a loop that starts with one comes to an end.
  pub byte_then : Ended Any r (next (byte r) f)
  unfolding io
  byte_then = byte_next (read_u8 r).0 (read_u8 r).1 refl (read_u8-Settled r h.inside)

pub u32_then :
    {A : Type 0} (f : ℕ → Parse A) → ((n : ℕ) → Fits n → Ends Any (f n)) → Ends Any (u32 >>= f)
u32_then f k = bind-Ends Fits Any u32 f u32-Ends k

pub bytes_then :
    {A : Type 0} (n : ℕ) (f : List ℕ → Parse A)
    → Fits n
    → ((bs : List ℕ) → IsSmall bs → Ends Any (f bs))
    → Ends Any (bytes n >>= f)
bytes_then n f fits k = bind-Ends IsSmall Any (bytes n) f (bytes-Ends n fits) k

pub Any-then :
    {A B : Type 0} (m : Parse A) (f : A → Parse B)
    → Ends Any m
    → ((a : A) → Ends Any (f a))
    → Ends Any (m >>= f)
Any-then m f e k = bind-Ends Any Any m f e (λ a _. k a)

pub ruleset ends_rules = (
  u32_then, bytes_then, Any-then, pure-Ends, fail-Ends, if-Ends, byte-Ends, vector-Ends,
  refusing-Ends,
)
