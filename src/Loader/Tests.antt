-- ===== src/Loader/Tests.antt =====
-- The reader at concrete bytes.
use wasmtiny.Base.{◌≡◌, refl, [], ◌∷◌, arith}
use wasmtiny.Loader.Reader.{
  BinaryReader, ok, from_data, read_u8, read_byte, read_uleb128, read_sleb128, read_sleb128_i64,
  uleb_loop, sleb_loop,
}
use wasmtiny.Loader.Reader.Moves.{rest, advance}
use wasmtiny.Loader.Reader.Leb.{read_uleb128-uleb}
use wasmtiny.Loader.Reader.Overlong.{read_uleb128_six_bytes, read_sleb128_five_bytes}

abbrev five : BinaryReader
five = record { bytes = 9 ∷ 0xE5 ∷ 0x8E ∷ 0x26 ∷ 7 ∷ []; position = 1 }

-- The test of the source: 624485 in three bytes.
reads_three_bytes : read_uleb128 five ≡ (ok 624485, advance five 3)
unfolding read_uleb128 uleb_loop read_u8 read_byte
reads_three_bytes = refl

-- -123456 as 0xC0 0xBB 0x78, in two's complement.
reads_negative : (read_sleb128 (from_data (0xC0 ∷ 0xBB ∷ 0x78 ∷ []))).0 ≡ ok 0xFFFE_1DC0
unfolding read_sleb128 sleb_loop read_u8 read_byte from_data
reads_negative = refl

reads_minus_one_i64 : (read_sleb128_i64 (from_data (0x7F ∷ []))).0 ≡ ok 0xFFFF_FFFF_FFFF_FFFF
unfolding read_sleb128_i64 sleb_loop read_u8 read_byte from_data
reads_minus_one_i64 = refl

read_uleb128-uleb_example :
    (read_uleb128 five ≡ (ok 624485, advance five 3)) × (rest (advance five 3) ≡ 7 ∷ [])
read_uleb128-uleb_example = read_uleb128-uleb five 624485 (omega arith) refl

abbrev word : BinaryReader
word = record { bytes = 1 ∷ 2 ∷ 3 ∷ 4 ∷ []; position = 0 }

-- Zero in six bytes.
abbrev padded : BinaryReader
padded = record { bytes = 0x80 ∷ 0x80 ∷ 0x80 ∷ 0x80 ∷ 0x80 ∷ 0 ∷ []; position = 0 }

read_uleb128_six_bytes_example : read_uleb128 padded ≡ (ok 0, advance padded 6)
read_uleb128_six_bytes_example =
    read_uleb128_six_bytes padded 0x80 0x80 0x80 0x80 0x80 (omega arith) (omega arith) (omega arith)
      (omega arith) (omega arith) refl

abbrev high_bits : BinaryReader
high_bits = record { bytes = 0x80 ∷ 0x80 ∷ 0x80 ∷ 0x80 ∷ 0x71 ∷ []; position = 0 }

read_sleb128_five_bytes_example : read_sleb128 high_bits ≡ (ok 0x1000_0000, advance high_bits 5)
read_sleb128_five_bytes_example =
    read_sleb128_five_bytes high_bits 0x80 0x80 0x80 0x80 0x71 (omega arith) (omega arith)
      (omega arith) (omega arith) (omega arith) refl
