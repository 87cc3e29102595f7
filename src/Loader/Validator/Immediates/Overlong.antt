-- ===== src/Loader/Validator/Immediates/Overlong.antt =====
-- Unsigned immediates of five bytes.
use native.Mathlib.Nat.{mul-le-mul, pow-le-pow_right}
use wasmtiny.Base.{
  ℕ, suc, ◌+◌, ◌*◌, ◌%◌, ◌^◌, ◌≤◌, ◌<◌, ◌≡◌, ◌∙◌, List, ◌∷◌, drop, drop-eq-cons, arith, refl,
  bit_and, bit_or,
}
use wasmtiny.Base.Bits.{bit_or-shifted}
use wasmtiny.Loader.Reader.Leb.{top_bit, low_bits}
use wasmtiny.Loader.Reader.Overlong.{low_bits_of}
use wasmtiny.Loader.Validator.{Check, BodyState, ok, pure}
use wasmtiny.Loader.Validator.Keeps.{bind-ok}
use wasmtiny.Loader.Validator.Immediates.{
  advance, at_cursor, byte_or, uleb_next, uleb_loop, read_uleb,
}

module _ (code : List ℕ) (result byte : ℕ) (s : BodyState) {bs : List ℕ}
    (left : drop s.cursor code ≡ byte ∷ bs) where
  byte_here : byte_or "unexpected end of uleb immediate" code s ≡ ok (byte, advance 1 s)
  unfolding byte_or at_cursor
  byte_here = rw ((drop-eq-cons s.cursor code left).1) refl

  rest_here : drop (advance 1 s).cursor code ≡ bs
  rest_here = (drop-eq-cons s.cursor code left).2

  -- How a round goes on behind its byte.
  abbrev goes_on : ℕ → ℕ → ℕ → Check ℕ
  goes_on fuel shift b =
      let result' = bit_or result (bit_and b 0x7F * 2 ^ shift % 2 ^ 32) in
      uleb_next result' (shift + 7) b (uleb_loop code fuel result' (shift + 7))

  round :
      (fuel shift : ℕ)
      → uleb_loop code (suc fuel) result shift s ≡ goes_on fuel shift byte (advance 1 s)
  unfolding uleb_loop
  round fuel shift =
      bind-ok (byte_or "unexpected end of uleb immediate" code) (goes_on fuel shift) s byte
        (advance 1 s) byte_here

  uleb_loop-more :
      (fuel shift : ℕ)
      → result < 2 ^ shift
      → shift ≤ 21
      → 128 ≤ byte
      → byte < 256
      → uleb_loop code (suc fuel) result shift s
        ≡ uleb_loop code fuel (result + byte % 128 * 2 ^ shift) (shift + 7) (advance 1 s)
  uleb_loop-more fuel shift fits small h u =
      round fuel shift
      ∙ (unfold uleb_next pure in
          ground (
            arith,
            top_bit byte,
            low_bits byte,
            mul-le-mul {n₁ = byte % 128} {n₂ = 127} (omega arith)
                (pow-le-pow_right {n = 2} (omega arith) {i = shift} {j = 21} small),
            bit_or-shifted shift result (byte % 128) fits,
          ))

  uleb_loop-fifth :
      result < 2 ^ 28
      → byte < 128
      → uleb_loop code 1 result 28 s ≡ ok (result + byte % 16 * 2 ^ 28, advance 1 s)
  uleb_loop-fifth fits h =
      round 0 28
      ∙ (unfold uleb_next pure in
          ground (
            arith,
            top_bit byte,
            low_bits byte,
            (let e : byte % 128 * 2 ^ 28 % 2 ^ 32 ≡ byte % 16 * 2 ^ 28 = omega arith in e),
            bit_or-shifted 28 result (byte % 16) fits,
          ))

-- `read_uleb` takes five bytes whatever the last one holds: of its seven bits the upper three,
-- which lie above the 32nd bit of the value, make no difference to the result. (`read_uleb128`
-- refuses such an encoding.)
pub read_uleb_five_bytes :
    (code : List ℕ) (s : BodyState) (b0 b1 b2 b3 b4 : ℕ) {tail : List ℕ}
    → (128 ≤ b0) × (b0 < 256)
    → (128 ≤ b1) × (b1 < 256)
    → (128 ≤ b2) × (b2 < 256)
    → (128 ≤ b3) × (b3 < 256)
    → b4 < 128
    → drop s.cursor code ≡ b0 ∷ b1 ∷ b2 ∷ b3 ∷ b4 ∷ tail
    → read_uleb code s ≡ ok (low_bits_of b0 b1 b2 b3 (b4 % 16), advance 5 s)
unfolding read_uleb
read_uleb_five_bytes code s b0 b1 b2 b3 b4 h0 h1 h2 h3 h4 e =
    let s1 = advance 1 s in
    let s2 = advance 1 s1 in
    let s3 = advance 1 s2 in
    let s4 = advance 1 s3 in
    let e1 = rest_here code 0 b0 s e in
    let e2 = rest_here code 0 b1 s1 e1 in
    let e3 = rest_here code 0 b2 s2 e2 in
    let e4 = rest_here code 0 b3 s3 e3 in
    let t1 : ℕ = 0 + b0 % 128 * 2 ^ 0 in
    let t2 : ℕ = t1 + b1 % 128 * 2 ^ 7 in
    let t3 : ℕ = t2 + b2 % 128 * 2 ^ 14 in
    let t4 : ℕ = t3 + b3 % 128 * 2 ^ 21 in
    let r1 =
      uleb_loop-more code 0 b0 s e 4 0 (omega arith) (omega arith) (omega arith) (omega arith) in
    let r2 =
      uleb_loop-more code t1 b1 s1 e1 3 7 (omega arith) (omega arith) (omega arith) (omega arith) in
    let r3 =
      uleb_loop-more code t2 b2 s2 e2 2 14 (omega arith) (omega arith) (omega arith)
        (omega arith) in
    let r4 =
      uleb_loop-more code t3 b3 s3 e3 1 21 (omega arith) (omega arith) (omega arith)
        (omega arith) in
    let r5 = uleb_loop-fifth code t4 b4 s4 e4 (omega arith) h4 in ground (arith, r1, r2, r3, r4, r5)
