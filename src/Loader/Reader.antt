-- ===== src/Loader/Reader.antt =====
-- crates/core/src/loader/reader.rs: the reader of WebAssembly binaries.
-- A method takes the reader and returns its result with the reader that it leaves behind, also
-- where it fails. An integer or a float is its bit pattern.
pub mod Moves
pub mod Fixed
pub mod Leb
pub mod Overlong
pub mod Total
pub mod OneByte
use wasmtiny.Base.{
  ℕ, zero, suc, ◌+◌, ◌-◌, ◌*◌, ◌/◌, ◌%◌, ◌^◌, Bool, true, false, ◌&&◌, not, Option, none, some,
  List, [], ◌∷◌, ◌++◌, length, get_elem?, take, drop, ltb, leb, ◌==◌, if◌then◌else◌, bit_and,
  bit_or, String,
}

-- `std::io::Error`, by its kind; the message of `InvalidData` is kept.
pub data IoError : Type 0 where
  unexpected_eof : IoError
  invalid_data : String → IoError

-- `panic` is an arithmetic overflow, a slice or an index out of range; `stuck` is no value of the
-- program: the fuel of a loop ran out.
pub data IoResult (A : Type 0) : Type 0 where
  ok : A → IoResult A
  err : IoError → IoResult A
  panic : IoResult A
  stuck : IoResult A

pub record BinaryReader : Type 0 where
  pub bytes : List ℕ
  pub position : ℕ

abbrev pub Read : Type 0 → Type 0
Read A = BinaryReader → IoResult A × BinaryReader

infixl 5 ◌>>=◌
abbrev pub ◌>>=◌ : {A B : Type 0} → Read A → (A → Read B) → Read B
◌>>=◌ m f r =
    let (x, r') = m r in
    elim x [ ok a ↦ f a r' | err e ↦ (err e, r') | panic ↦ (panic, r') | stuck ↦ (stuck, r') ]

abbrev pub pure : {A : Type 0} → A → Read A
pure a r = (ok a, r)

abbrev pub fail : {A : Type 0} → IoError → Read A
fail e r = (err e, r)

unfoldable pub from_data : List ℕ → BinaryReader
from_data bs = record { bytes = bs; position = 0 }

-- `saturating_sub`
unfoldable pub remaining : BinaryReader → ℕ
remaining r = length r.bytes - r.position

-- An index out of range panics.
abbrev indexed : Option ℕ → BinaryReader → IoResult ℕ × BinaryReader
indexed none r = (panic, r)
indexed (some byte) r = (ok byte, record r { position = r.position + 1 })

unfoldable pub read_byte : Read ℕ
read_byte r =
    if leb (length r.bytes) r.position
    then (err unexpected_eof, r)
    else indexed (get_elem? r.bytes r.position) r

-- `position + len` overflows `usize` in a panic, in release builds too, where the slice is then
-- out of order.
unfoldable pub read_bytes : ℕ → Read (List ℕ)
read_bytes len r =
    if leb (2 ^ 64) (r.position + len)
    then (panic, r)
    else if ltb (length r.bytes) (r.position + len)
    then (err unexpected_eof, r)
    else (ok (take len (drop r.position r.bytes)), record r { position = r.position + len })

unfoldable pub read_u8 : Read ℕ
read_u8 = read_byte

-- `x << k` at a width of `w` bits.
abbrev shl : ℕ → ℕ → ℕ → ℕ
shl w x k = x * 2 ^ k % 2 ^ w

unfoldable pub read_u16 : Read ℕ
read_u16 = do lo ← read_u8; hi ← read_u8; pure (bit_or lo (shl 16 hi 8))

unfoldable pub read_u32 : Read ℕ
read_u32 = do
  b0 ← read_u8
  b1 ← read_u8
  b2 ← read_u8
  b3 ← read_u8
  pure (bit_or (bit_or (bit_or b0 (shl 32 b1 8)) (shl 32 b2 16)) (shl 32 b3 24))

unfoldable pub read_u64 : Read ℕ
read_u64 = do lo ← read_u32; hi ← read_u32; pure (bit_or lo (shl 64 hi 32))

-- The signed and floating readers keep the bits.
unfoldable pub read_i32 : Read ℕ
read_i32 = read_u32

unfoldable pub read_i64 : Read ℕ
read_i64 = read_u64

unfoldable pub read_f32 : Read ℕ
read_f32 = read_u32

unfoldable pub read_f64 : Read ℕ
read_f64 = read_u64

-- How a round of `read_uleb128` goes on behind its byte.
abbrev uleb_next : ℕ → ℕ → ℕ → ℕ → Read (ℕ × ℕ × ℕ) → Read (ℕ × ℕ × ℕ)
uleb_next result shift byte_count byte more =
    if bit_and byte 0x80 == 0
    then pure (result, byte_count, byte)
    else if ltb 35 shift
    then fail (invalid_data "uleb128 overflow")
    else more

-- The loop of `read_uleb128`: the result in `u64`, the number of bytes and the last byte.
unfoldable pub uleb_loop : ℕ → ℕ → ℕ → ℕ → Read (ℕ × ℕ × ℕ)
uleb_loop zero result shift byte_count r = (stuck, r)
uleb_loop (suc fuel) result shift byte_count r =
    (do
      byte ← read_u8
      let result' = bit_or result (shl 64 (bit_and byte 0x7F) shift)
      let more = uleb_loop fuel result' (shift + 7) (byte_count + 1)
      uleb_next result' (shift + 7) (byte_count + 1) byte more)
      r

-- The checks behind the loop.
abbrev pub uleb_checks : ℕ × ℕ × ℕ → Read ℕ
uleb_checks (result, byte_count, last_byte) =
    if byte_count == 5 && not (bit_and last_byte 0xF0 == 0)
    then fail (invalid_data "uleb128 overlong encoding")
    else if ltb (2 ^ 32 - 1) result
    then fail (invalid_data "uleb128 overflow")
    else pure result

-- The sixth byte at the latest ends the loop: its shift is 35.
unfoldable pub read_uleb128 : Read ℕ
read_uleb128 = uleb_loop 6 0 0 0 >>= uleb_checks

abbrev sleb_next : ℕ → ℕ → ℕ → ℕ → Read (ℕ × ℕ × ℕ) → Read (ℕ × ℕ × ℕ)
sleb_next limit result shift byte more =
    if bit_and byte 0x80 == 0
    then pure (result, shift, byte)
    else if ltb limit shift
    then fail (invalid_data "sleb128 overflow")
    else more

-- The loop of both signed readers, at `w` bits: it fails once a byte that continues has taken
-- the shift above `limit`. It returns the result, the shift and the last byte.
unfoldable pub sleb_loop : ℕ → ℕ → ℕ → ℕ → ℕ → Read (ℕ × ℕ × ℕ)
sleb_loop w limit zero result shift r = (stuck, r)
sleb_loop w limit (suc fuel) result shift r =
    (do
      byte ← read_u8
      let result' = bit_or result (shl w (bit_and byte 0x7F) shift)
      let more = sleb_loop w limit fuel result' (shift + 7)
      sleb_next limit result' (shift + 7) byte more)
      r

-- `result |= !0 << shift`
abbrev sign_extend : ℕ → ℕ × ℕ × ℕ → Read ℕ
sign_extend w (result, shift, byte) =
    if ltb shift w && not (bit_and byte 0x40 == 0)
    then pure (bit_or result (shl w (2 ^ w - 1) shift))
    else pure result

unfoldable pub read_sleb128 : Read ℕ
read_sleb128 = sleb_loop 32 32 5 0 0 >>= sign_extend 32

unfoldable pub read_sleb128_i64 : Read ℕ
read_sleb128_i64 = sleb_loop 64 64 10 0 0 >>= sign_extend 64

-- `Read::read` into a buffer with room for `n` bytes: the bytes that it put there.
read_loop : ℕ → List ℕ → Read (List ℕ)
read_loop zero got r = (ok got, r)
read_loop (suc n) got r =
    let (x, r') = read_byte r in
    elim x [
      | ok byte ↦ read_loop n (got ++ (byte ∷ [])) r'
      | err e ↦ ((if ltb 0 (length got) then ok got else err e), r')
      | panic ↦ (panic, r')
      | stuck ↦ (stuck, r')
    ]

unfoldable pub read : ℕ → Read (List ℕ)
unfolding read_loop
read n = read_loop n []

-- `Read::read_exact`
exact_loop : ℕ → List ℕ → Read (List ℕ)
exact_loop zero got = pure got
exact_loop (suc n) got = do byte ← read_byte; exact_loop n (got ++ (byte ∷ []))

unfoldable pub read_exact : ℕ → Read (List ℕ)
unfolding exact_loop
read_exact n = exact_loop n []
