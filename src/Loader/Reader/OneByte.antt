-- ===== src/Loader/Reader/OneByte.antt =====
-- Signed integers of one byte.
use wasmtiny.Base.{ℕ, ◌+◌, ◌-◌, ◌*◌, ◌%◌, ◌^◌, ◌<◌, ◌≡◌, ltb, if◌then◌else◌, arith, bit_or}
use wasmtiny.Base.Bits.{bit_and-pow, bit_or-shifted, zero-bit_or}
use wasmtiny.Loader.Reader.{
  BinaryReader, read_u8, read_sleb128_i64, sleb_loop, sign_extend, ok, err, IoError, panic, stuck,
}
use wasmtiny.Loader.Reader.Leb.{low_bits, top_bit}

-- The value of a last byte below 0x80, on 64 bits.
abbrev pub one_byte : ℕ → ℕ
one_byte b = if ltb b 0x40 then b else b + (2 ^ 64 - 0x80)

loop_ends :
    (r r' : BinaryReader) (b : ℕ)
    → read_u8 r ≡ (ok b, r')
    → b < 128
    → sleb_loop 64 64 10 0 0 r ≡ (ok (b, 7, b), r')
unfolding sleb_loop
loop_ends r r' b e h =
    let same : bit_or 0 (b % 128 * 2 ^ 0 % 2 ^ 64) ≡ b =
      rw (let k : b % 128 * 2 ^ 0 % 2 ^ 64 ≡ b = omega (arith, h) in k) (zero-bit_or b) in
    ground (arith, e, h, top_bit b, low_bits b, same)

extended : (r : BinaryReader) (b : ℕ) → b < 128 → sign_extend 64 (b, 7, b) r ≡ (ok (one_byte b), r)
extended r b h =
    let high : bit_or b ((2 ^ 57 - 1) * 2 ^ 7) ≡ b + (2 ^ 57 - 1) * 2 ^ 7 =
      bit_or-shifted 7 b (2 ^ 57 - 1) h in
    ground (arith, h, bit_and-pow 6 b, high)

pub read_sleb128_i64-one_byte :
    (r r' : BinaryReader) (b : ℕ)
    → read_u8 r ≡ (ok b, r')
    → b < 128
    → read_sleb128_i64 r ≡ (ok (one_byte b), r')
unfolding read_sleb128_i64
read_sleb128_i64-one_byte r r' b e h = ground (arith, loop_ends r r' b e h, extended r' b h)

-- Where no byte can be read, no integer can.
pub read_sleb128_i64-err :
    (r r' : BinaryReader) (x : IoError) → read_u8 r ≡ (err x, r') → read_sleb128_i64 r ≡ (err x, r')
unfolding read_sleb128_i64 sleb_loop
read_sleb128_i64-err r r' x e = ground (arith, e)

pub read_sleb128_i64-panic :
    (r r' : BinaryReader) → read_u8 r ≡ (panic, r') → read_sleb128_i64 r ≡ (panic, r')
unfolding read_sleb128_i64 sleb_loop
read_sleb128_i64-panic r r' e = ground (arith, e)

pub read_sleb128_i64-stuck :
    (r r' : BinaryReader) → read_u8 r ≡ (stuck, r') → read_sleb128_i64 r ≡ (stuck, r')
unfolding read_sleb128_i64 sleb_loop
read_sleb128_i64-stuck r r' e = ground (arith, e)
