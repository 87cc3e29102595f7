-- ===== src/Runtime/Values.antt =====
-- crates/core/src/runtime/values.rs: values, their types and their byte encoding.
-- An integer or a float is its bit pattern, as a number below 2 ^ 32 or 2 ^ 64.
pub mod RoundTrip
pub mod Refs
use wasmtiny.Base.{
  ℕ, ◌+◌, ◌-◌, ◌^◌, ◌<◌, Bool, true, false, Option, none, some, List, [], ◌∷◌, ◌++◌, ltb, leb, ◌==◌,
  if◌then◌else◌, length, take, bit_and, bit_or, not, String,
}
use wasmtiny.Base.Bytes.{to_le_bytes, from_le_bytes}
use wasmtiny.Runtime.Error.{Result, ok, err, WasmError}
use wasmtiny.Runtime.Types.{NumType, RefType, ValType, ref_type_from_u8}

pub data WasmValue : Type 0 where
  i32 i64 f32 f64 : ℕ → WasmValue
  null_ref : RefType → WasmValue
  func_ref extern_ref : ℕ → WasmValue

-- The bit patterns fit the width of the value.
abbrev pub FitsWidth : WasmValue → Type 0
FitsWidth (WasmValue.i32 v) = v < 2 ^ 32
FitsWidth (WasmValue.i64 v) = v < 2 ^ 64
FitsWidth (WasmValue.f32 v) = v < 2 ^ 32
FitsWidth (WasmValue.f64 v) = v < 2 ^ 64
FitsWidth (WasmValue.null_ref _) = Unit
FitsWidth (WasmValue.func_ref v) = v < 2 ^ 32
FitsWidth (WasmValue.extern_ref v) = v < 2 ^ 32

abbrev pub funcref_native_bit : ℕ
funcref_native_bit = 2 ^ 31

-- `!FUNCREF_NATIVE_BIT` on `u32`.
abbrev pub not_native_bit : ℕ
not_native_bit = 2 ^ 31 - 1

unfoldable pub native_func_ref : ℕ → WasmValue
native_func_ref handle = WasmValue.func_ref (bit_or handle funcref_native_bit)

unfoldable pub native_func_handle : WasmValue → Option ℕ
native_func_handle (WasmValue.func_ref raw) =
    if not (bit_and raw funcref_native_bit == 0) then some (bit_and raw not_native_bit) else none
native_func_handle _ = none

unfoldable pub local_func_ref : WasmValue → Option ℕ
local_func_ref (WasmValue.func_ref raw) =
    if bit_and raw funcref_native_bit == 0 then some raw else none
local_func_ref _ = none

unfoldable pub val_type : WasmValue → ValType
val_type (WasmValue.i32 _) = ValType.num NumType.i32
val_type (WasmValue.i64 _) = ValType.num NumType.i64
val_type (WasmValue.f32 _) = ValType.num NumType.f32
val_type (WasmValue.f64 _) = ValType.num NumType.f64
val_type (WasmValue.null_ref r) = ValType.ref r
val_type (WasmValue.func_ref _) = ValType.ref RefType.func_ref
val_type (WasmValue.extern_ref _) = ValType.ref RefType.extern_ref

unfoldable pub as_i32 : WasmValue → Result ℕ
as_i32 (WasmValue.i32 v) = ok v
as_i32 _ = err (WasmError.runtime "expected i32")

unfoldable pub as_i64 : WasmValue → Result ℕ
as_i64 (WasmValue.i64 v) = ok v
as_i64 _ = err (WasmError.runtime "expected i64")

unfoldable pub as_f32 : WasmValue → Result ℕ
as_f32 (WasmValue.f32 v) = ok v
as_f32 _ = err (WasmError.runtime "expected f32")

unfoldable pub as_f64 : WasmValue → Result ℕ
as_f64 (WasmValue.f64 v) = ok v
as_f64 _ = err (WasmError.runtime "expected f64")

abbrev heap_type_byte : RefType → ℕ
heap_type_byte RefType.func_ref = 0x70
heap_type_byte RefType.extern_ref = 0x6F

-- The bytes that `to_bytes` pushes onto `out`.
unfoldable pub to_bytes : WasmValue → List ℕ
to_bytes (WasmValue.i32 v) = 0 ∷ to_le_bytes 4 v
to_bytes (WasmValue.i64 v) = 1 ∷ to_le_bytes 8 v
to_bytes (WasmValue.f32 v) = 2 ∷ to_le_bytes 4 v
to_bytes (WasmValue.f64 v) = 3 ∷ to_le_bytes 8 v
to_bytes (WasmValue.null_ref rt) = 4 ∷ heap_type_byte rt ∷ []
to_bytes (WasmValue.func_ref idx) = 5 ∷ to_le_bytes 4 idx
to_bytes (WasmValue.extern_ref idx) = 6 ∷ to_le_bytes 4 idx

-- `bytes[1..1 + width]`, read if `rest`, the bytes behind the tag, holds as many.
read_payload : ℕ → (ℕ → WasmValue) → List ℕ → Option (WasmValue × ℕ)
read_payload width make rest =
    if leb width (length rest)
    then some (make (from_le_bytes (take width rest)), width + 1)
    else none

read_null_ref : List ℕ → Option (WasmValue × ℕ)
read_null_ref [] = none
read_null_ref (b ∷ rest) = some (WasmValue.null_ref (ref_type_from_u8 b), 2)

-- The value at the front of the bytes, with the number of bytes that it took.
unfoldable pub from_bytes : List ℕ → Option (WasmValue × ℕ)
unfolding read_payload read_null_ref
from_bytes [] = none
from_bytes (tag ∷ rest) =
    if tag == 0
    then read_payload 4 WasmValue.i32 rest
    else if tag == 1
    then read_payload 8 WasmValue.i64 rest
    else if tag == 2
    then read_payload 4 WasmValue.f32 rest
    else if tag == 3
    then read_payload 8 WasmValue.f64 rest
    else if tag == 4
    then read_null_ref rest
    else if tag == 5
    then read_payload 4 WasmValue.func_ref rest
    else if tag == 6
    then read_payload 4 WasmValue.extern_ref rest
    else none
