-- ===== src/Loader/Reader/Overlong.antt =====
-- Encodings of more bits than the type has, which the LEB128 readers take.
use wasmtiny.Base.{ℕ, suc, ◌+◌, ◌*◌, ◌%◌, ◌^◌, ◌≤◌, ◌<◌, ◌≡◌, List, ◌∷◌, arith}
use native.Mathlib.Nat.{mul-le-mul, pow-le-pow_right}
use wasmtiny.Base.Bits.{bit_or-shifted}
use wasmtiny.Loader.Reader.{sleb_loop, read_sleb128, BinaryReader, ok, read_uleb128}
use wasmtiny.Loader.Reader.Moves.{rest, advance, read_u8-cons}
use wasmtiny.Loader.Reader.Leb.{uleb_loop-stop, uleb_loop-more, top_bit, low_bits}

-- Five continuing bytes and a zero byte: the bits of the five bytes, if the fifth has none above
-- the 32nd.
abbrev pub low_bits_of : ℕ → ℕ → ℕ → ℕ → ℕ → ℕ
low_bits_of b0 b1 b2 b3 b4 =
    b0 % 128 + b1 % 128 * 2 ^ 7 + b2 % 128 * 2 ^ 14 + b3 % 128 * 2 ^ 21 + b4 % 128 * 2 ^ 28

-- `read_uleb128` takes six bytes where the sixth is zero and the five before it continue: the
-- test of overlong encodings looks at encodings of five bytes alone. (A `u32` has at most five.)
pub read_uleb128_six_bytes :
    (r : BinaryReader) (b0 b1 b2 b3 b4 : ℕ) {tail : List ℕ}
    → (128 ≤ b0) × (b0 < 256)
    → (128 ≤ b1) × (b1 < 256)
    → (128 ≤ b2) × (b2 < 256)
    → (128 ≤ b3) × (b3 < 256)
    → (128 ≤ b4) × (b4 < 144)
    → rest r ≡ b0 ∷ b1 ∷ b2 ∷ b3 ∷ b4 ∷ 0 ∷ tail
    → read_uleb128 r ≡ (ok (low_bits_of b0 b1 b2 b3 b4), advance r 6)
unfolding read_uleb128
read_uleb128_six_bytes r b0 b1 b2 b3 b4 h0 h1 h2 h3 h4 e =
    let r1 = advance r 1 in
    let r2 = advance r1 1 in
    let r3 = advance r2 1 in
    let r4 = advance r3 1 in
    let r5 = advance r4 1 in
    let e1 = (read_u8-cons r e).1 in
    let e2 = (read_u8-cons r1 e1).1 in
    let e3 = (read_u8-cons r2 e2).1 in
    let e4 = (read_u8-cons r3 e3).1 in
    let e5 = (read_u8-cons r4 e4).1 in
    let s1 =
      uleb_loop-more 5 0 0 0 b0 r e (omega arith) (omega arith) (omega arith) (omega arith) in
    let s2 =
      uleb_loop-more 4 (0 + b0 % 128 * 2 ^ 0) 7 1 b1 r1 e1 (omega arith) (omega arith) (omega arith)
        (omega arith) in
    let s3 =
      uleb_loop-more 3 (0 + b0 % 128 * 2 ^ 0 + b1 % 128 * 2 ^ 7) 14 2 b2 r2 e2 (omega arith)
        (omega arith) (omega arith) (omega arith) in
    let s4 =
      uleb_loop-more 2 (0 + b0 % 128 * 2 ^ 0 + b1 % 128 * 2 ^ 7 + b2 % 128 * 2 ^ 14) 21 3 b3 r3 e3
        (omega arith) (omega arith) (omega arith) (omega arith) in
    let s5 =
      uleb_loop-more 1
        (0 + b0 % 128 * 2 ^ 0 + b1 % 128 * 2 ^ 7 + b2 % 128 * 2 ^ 14 + b3 % 128 * 2 ^ 21) 28 4 b4 r4
        e4 (omega arith) (omega arith) (omega arith) (omega arith) in
    let s6 =
      uleb_loop-stop 0
        (0
          + b0 % 128 * 2 ^ 0
          + b1 % 128 * 2 ^ 7
          + b2 % 128 * 2 ^ 14
          + b3 % 128 * 2 ^ 21
          + b4 % 128 * 2 ^ 28)
        35 5 0 r5 e5 (omega arith) (omega arith) (omega arith) in
    ground (arith, s1, s2, s3, s4, s5, s6)

module _ (result byte : ℕ) (r : BinaryReader) {bs : List ℕ} (left : rest r ≡ byte ∷ bs) where
  sleb_loop-more :
      (fuel shift : ℕ)
      → result < 2 ^ shift
      → shift ≤ 21
      → 128 ≤ byte
      → byte < 256
      → sleb_loop 32 32 (suc fuel) result shift r
        ≡ sleb_loop 32 32 fuel (result + byte % 128 * 2 ^ shift) (shift + 7) (advance r 1)
  unfolding sleb_loop
  sleb_loop-more fuel shift fits s h u = ground (
    arith,
    (read_u8-cons r left).0,
    top_bit byte,
    low_bits byte,
    mul-le-mul {n₁ = byte % 128} {n₂ = 127} (omega arith)
        (pow-le-pow_right {n = 2} (omega arith) {i = shift} {j = 21} s),
    bit_or-shifted shift result (byte % 128) fits,
  )

  sleb_loop-fifth :
      result < 2 ^ 28
      → byte < 128
      → sleb_loop 32 32 1 result 28 r ≡ (ok (result + byte % 16 * 2 ^ 28, 35, byte), advance r 1)
  unfolding sleb_loop
  sleb_loop-fifth fits h = ground (
    arith,
    (read_u8-cons r left).0,
    top_bit byte,
    low_bits byte,
    (let e : byte % 128 * 2 ^ 28 % 2 ^ 32 ≡ byte % 16 * 2 ^ 28 = omega arith in e),
    bit_or-shifted 28 result (byte % 16) fits,
  )

-- `read_sleb128` takes five bytes whatever the last one holds: of its seven bits the upper three,
-- which lie above the 32nd bit of the value, make no difference to the result.
pub read_sleb128_five_bytes :
    (r : BinaryReader) (b0 b1 b2 b3 b4 : ℕ) {tail : List ℕ}
    → (128 ≤ b0) × (b0 < 256)
    → (128 ≤ b1) × (b1 < 256)
    → (128 ≤ b2) × (b2 < 256)
    → (128 ≤ b3) × (b3 < 256)
    → b4 < 128
    → rest r ≡ b0 ∷ b1 ∷ b2 ∷ b3 ∷ b4 ∷ tail
    → read_sleb128 r ≡ (ok (low_bits_of b0 b1 b2 b3 (b4 % 16)), advance r 5)
unfolding read_sleb128
read_sleb128_five_bytes r b0 b1 b2 b3 b4 h0 h1 h2 h3 h4 e =
    let r1 = advance r 1 in
    let r2 = advance r1 1 in
    let r3 = advance r2 1 in
    let r4 = advance r3 1 in
    let e1 = (read_u8-cons r e).1 in
    let e2 = (read_u8-cons r1 e1).1 in
    let e3 = (read_u8-cons r2 e2).1 in
    let e4 = (read_u8-cons r3 e3).1 in
    let t1 : ℕ = 0 + b0 % 128 * 2 ^ 0 in
    let t2 : ℕ = t1 + b1 % 128 * 2 ^ 7 in
    let t3 : ℕ = t2 + b2 % 128 * 2 ^ 14 in
    let t4 : ℕ = t3 + b3 % 128 * 2 ^ 21 in
    let s1 = sleb_loop-more 0 b0 r e 4 0 (omega arith) (omega arith) (omega arith) (omega arith) in
    let s2 =
      sleb_loop-more t1 b1 r1 e1 3 7 (omega arith) (omega arith) (omega arith) (omega arith) in
    let s3 =
      sleb_loop-more t2 b2 r2 e2 2 14 (omega arith) (omega arith) (omega arith) (omega arith) in
    let s4 =
      sleb_loop-more t3 b3 r3 e3 1 21 (omega arith) (omega arith) (omega arith) (omega arith) in
    let s5 = sleb_loop-fifth t4 b4 r4 e4 (omega arith) h4 in ground (arith, s1, s2, s3, s4, s5)
