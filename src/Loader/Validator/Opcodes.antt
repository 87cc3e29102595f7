-- ===== src/Loader/Validator/Opcodes.antt =====
-- crates/core/src/loader/validator.rs: the opcodes whose types the code gives by ranges.
pub mod Steps
use wasmtiny.Base.{ℕ, Bool, ◌||◌, ◌&&◌, Option, none, some, [], ◌∷◌, ltb, leb, ◌==◌, if◌then◌else◌}
use wasmtiny.Runtime.Types.{ValType, NumType}
use wasmtiny.Loader.Validator.{
  Check, ◌>>◌, pure, validate_unary_numeric, validate_binary_numeric, pop_type, push_types,
}

abbrev pub i32 : ValType
i32 = ValType.num NumType.i32

abbrev pub i64 : ValType
i64 = ValType.num NumType.i64

abbrev pub f32 : ValType
f32 = ValType.num NumType.f32

abbrev pub f64 : ValType
f64 = ValType.num NumType.f64

-- A call of `validate_unary_numeric` or of `validate_binary_numeric`: the operand and the result.
pub data NumericOp : Type 0 where
  unary binary : ValType → ValType → NumericOp

-- `first..=last`
abbrev pub within : ℕ → ℕ → ℕ → Bool
within first last n = leb first n && leb n last

-- The comparisons and the arithmetic, 0x45 to 0xA6.
abbrev pub arithmetic_op : ℕ → Option NumericOp
arithmetic_op opcode =
    if opcode == 0x45
    then some (unary i32 i32)
    else if within 0x46 0x4F opcode
    then some (binary i32 i32)
    else if opcode == 0x50
    then some (unary i64 i32)
    else if within 0x51 0x5A opcode
    then some (binary i64 i32)
    else if within 0x5B 0x60 opcode
    then some (binary f32 i32)
    else if within 0x61 0x66 opcode
    then some (binary f64 i32)
    else if within 0x67 0x69 opcode
    then some (unary i32 i32)
    else if within 0x6A 0x76 opcode
    then some (binary i32 i32)
    else if within 0x77 0x78 opcode
    then some (binary i32 i32)
    else if within 0x79 0x7B opcode
    then some (unary i64 i64)
    else if within 0x7C 0x8A opcode
    then some (binary i64 i64)
    else if within 0x8B 0x91 opcode
    then some (unary f32 f32)
    else if within 0x92 0x98 opcode
    then some (binary f32 f32)
    else if within 0x99 0x9F opcode
    then some (unary f64 f64)
    else if within 0xA0 0xA6 opcode
    then some (binary f64 f64)
    else none

-- The conversions and the sign extensions, 0xA7 to 0xC4.
abbrev pub conversion_op : ℕ → Option NumericOp
conversion_op opcode =
    if opcode == 0xA7
    then some (unary i64 i32)
    else if within 0xA8 0xA9 opcode
    then some (unary f32 i32)
    else if within 0xAA 0xAB opcode
    then some (unary f64 i32)
    else if within 0xAC 0xAD opcode
    then some (unary i32 i64)
    else if within 0xAE 0xAF opcode
    then some (unary f32 i64)
    else if within 0xB0 0xB1 opcode
    then some (unary f64 i64)
    else if within 0xB2 0xB3 opcode
    then some (unary i32 f32)
    else if within 0xB4 0xB5 opcode
    then some (unary i64 f32)
    else if opcode == 0xB6
    then some (unary f64 f32)
    else if within 0xB7 0xB8 opcode
    then some (unary i32 f64)
    else if within 0xB9 0xBA opcode
    then some (unary i64 f64)
    else if opcode == 0xBB
    then some (unary f32 f64)
    else if opcode == 0xBC
    then some (unary f32 i32)
    else if opcode == 0xBD
    then some (unary f64 i64)
    else if opcode == 0xBE
    then some (unary i32 f32)
    else if opcode == 0xBF
    then some (unary i64 f64)
    else if within 0xC0 0xC1 opcode
    then some (unary i32 i32)
    else if within 0xC2 0xC4 opcode
    then some (unary i64 i64)
    else none

abbrev pub numeric_op : ℕ → Option NumericOp
numeric_op opcode = if ltb opcode 0xA7 then arithmetic_op opcode else conversion_op opcode

-- The conversions with saturation, 0 to 7 behind 0xFC.
abbrev pub saturating_op : ℕ → Option NumericOp
saturating_op subopcode =
    if subopcode == 0 || subopcode == 1
    then some (unary f32 i32)
    else if subopcode == 2 || subopcode == 3
    then some (unary f64 i32)
    else if subopcode == 4 || subopcode == 5
    then some (unary f32 i64)
    else if subopcode == 6 || subopcode == 7
    then some (unary f64 i64)
    else none

unfoldable pub validate_numeric : NumericOp → Check (Unit {0})
validate_numeric (unary operand result) = validate_unary_numeric operand result
validate_numeric (binary operand result) = validate_binary_numeric operand result

-- `access_bytes.trailing_zeros()` for the memory access of an opcode.
abbrev pub natural_exponent : ℕ → ℕ
natural_exponent opcode =
    if opcode == 0x28
      || opcode == 0x2A
      || within 0x34 0x36 opcode
      || opcode == 0x38
      || opcode == 0x3E
    then 2
    else if opcode == 0x29 || opcode == 0x2B || opcode == 0x37 || opcode == 0x39
    then 3
    else if opcode == 0x2C
        || opcode == 0x2D
        || opcode == 0x30
        || opcode == 0x31
        || opcode == 0x3A
        || opcode == 0x3C
    then 0
    else 1

unfoldable pub load : ValType → Check (Unit {0})
load result = do pop_type i32; push_types (result ∷ [])

unfoldable pub store : ValType → Check (Unit {0})
store operand = do pop_type operand; pop_type i32

unfoldable pub validate_memory_instruction : ℕ → Check (Unit {0})
validate_memory_instruction opcode =
    if opcode == 0x28
    then load i32
    else if opcode == 0x29
    then load i64
    else if opcode == 0x2A
    then load f32
    else if opcode == 0x2B
    then load f64
    else if within 0x2C 0x2F opcode
    then load i32
    else if within 0x30 0x35 opcode
    then load i64
    else if opcode == 0x36
    then store i32
    else if opcode == 0x37
    then store i64
    else if opcode == 0x38
    then store f32
    else if opcode == 0x39
    then store f64
    else if opcode == 0x3A || opcode == 0x3B
    then store i32
    else if within 0x3C 0x3E opcode
    then store i64
    else pure tt
