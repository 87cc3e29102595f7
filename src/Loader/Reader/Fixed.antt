-- ===== src/Loader/Reader/Fixed.antt =====
-- The fixed-width readers read little-endian numbers.
use wasmtiny.Base.{ℕ, ◌+◌, ◌*◌, ◌/◌, ◌%◌, ◌^◌, ◌<◌, ◌≡◌, List, [], ◌∷◌, ◌++◌, arith, bit_or}
use wasmtiny.Base.Bits.{bit_or-shifted}
use wasmtiny.Base.Bytes.{AreBytes, to_le_bytes}
use wasmtiny.Loader.Reader.{BinaryReader, ok, read_u16, read_u32, read_u64, shl}
use wasmtiny.Loader.Reader.Moves.{rest, advance, read_u8-cons}

-- Two bytes in front are read as a little-endian number.
read_u16-cons :
    (r : BinaryReader) {b0 b1 : ℕ} {bs : List ℕ}
    → rest r ≡ b0 ∷ b1 ∷ bs
    → AreBytes (b0 ∷ b1 ∷ [])
    → read_u16 r ≡ (ok (b0 + b1 * 2 ^ 8), advance r 2)
unfolding read_u16
read_u16-cons r {b0} {b1} h v =
    let s0 = read_u8-cons r h in
    let s1 = read_u8-cons (advance r 1) s0.1 in ground (arith, s0.0, s1.0, bit_or-shifted 8 b0 b1)

pub or_bytes :
    (b0 b1 b2 b3 : ℕ)
    → AreBytes (b0 ∷ b1 ∷ b2 ∷ b3 ∷ [])
    → bit_or (bit_or (bit_or b0 (shl 32 b1 8)) (shl 32 b2 16)) (shl 32 b3 24)
      ≡ b0 + b1 * 2 ^ 8 + b2 * 2 ^ 16 + b3 * 2 ^ 24
or_bytes b0 b1 b2 b3 v = ground (
  arith,
  bit_or-shifted 8 b0 b1,
  bit_or-shifted 16 (b0 + b1 * 2 ^ 8) b2,
  bit_or-shifted 24 (b0 + b1 * 2 ^ 8 + b2 * 2 ^ 16) b3,
)

-- Four bytes in front are read as a little-endian number, and the reader moves past them.
pub read_u32-cons :
    (r : BinaryReader) {b0 b1 b2 b3 : ℕ} {bs : List ℕ}
    → rest r ≡ b0 ∷ b1 ∷ b2 ∷ b3 ∷ bs
    → AreBytes (b0 ∷ b1 ∷ b2 ∷ b3 ∷ [])
    → (read_u32 r ≡ (ok (b0 + b1 * 2 ^ 8 + b2 * 2 ^ 16 + b3 * 2 ^ 24), advance r 4))
      × (rest (advance r 4) ≡ bs)
unfolding read_u32
read_u32-cons r {b0} {b1} {b2} {b3} h v =
    let s0 = read_u8-cons r h in
    let s1 = read_u8-cons (advance r 1) s0.1 in
    let s2 = read_u8-cons (advance (advance r 1) 1) s1.1 in
    let s3 = read_u8-cons (advance (advance (advance r 1) 1) 1) s2.1 in
    (ground (arith, s0.0, s1.0, s2.0, s3.0, or_bytes b0 b1 b2 b3 v), ground (arith, s3.1))

read_u32_back :
    (r : BinaryReader) (n : ℕ) {tail : List ℕ}
    → n < 2 ^ 32
    → rest r ≡ to_le_bytes 4 n ++ tail
    → (read_u32 r ≡ (ok n, advance r 4)) × (rest (advance r 4) ≡ tail)
unfolding to_le_bytes
read_u32_back r n p h =
    let s = read_u32-cons r h (omega arith) in
    let e : n % 256
          + n / 256 % 256 * 2 ^ 8
          + n / 256 / 256 % 256 * 2 ^ 16
          + n / 256 / 256 / 256 % 256 * 2 ^ 24
        ≡ n =
      omega arith in
    (ground (arith, s.0, e), s.1)

read_u64_back :
    (r : BinaryReader) (n : ℕ) {tail : List ℕ}
    → n < 2 ^ 64
    → rest r ≡ to_le_bytes 8 n ++ tail
    → (read_u64 r ≡ (ok n, advance r 8)) × (rest (advance r 8) ≡ tail)
unfolding read_u64 to_le_bytes
read_u64_back r n p h =
    let low = read_u32-cons r h (omega arith) in
    let high = read_u32-cons (advance r 4) low.1 (omega arith) in
    let lo : ℕ =
      n % 256
      + n / 256 % 256 * 2 ^ 8
      + n / 256 / 256 % 256 * 2 ^ 16
      + n / 256 / 256 / 256 % 256 * 2 ^ 24 in
    let m : ℕ = n / 256 / 256 / 256 / 256 in
    let hi : ℕ =
      m % 256
      + m / 256 % 256 * 2 ^ 8
      + m / 256 / 256 % 256 * 2 ^ 16
      + m / 256 / 256 / 256 % 256 * 2 ^ 24 in
    (ground (arith, low.0, high.0, bit_or-shifted 32 lo hi), ground (arith, high.1))

-- A `u32` or a `u64` in little-endian bytes is read back, whatever follows, and the reader stands
-- behind it.
pub read-to_le_bytes :
    (r : BinaryReader) (n : ℕ) {tail : List ℕ}
    → (n < 2 ^ 32
        → rest r ≡ to_le_bytes 4 n ++ tail
        → (read_u32 r ≡ (ok n, advance r 4)) × (rest (advance r 4) ≡ tail))
      × (n < 2 ^ 64
          → rest r ≡ to_le_bytes 8 n ++ tail
          → (read_u64 r ≡ (ok n, advance r 8)) × (rest (advance r 8) ≡ tail))
read-to_le_bytes r n = (λ p h. read_u32_back r n p h, λ p h. read_u64_back r n p h)
