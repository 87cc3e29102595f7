-- ===== src/Loader/Validator/ConstExpr.antt =====
-- crates/core/src/loader/validator.rs: the types of constant expressions.
pub mod Forward
pub mod Total
use wasmtiny.Base.{
  ℕ, zero, suc, ◌+◌, ◌-◌, ◌^◌, ◌||◌, Option, none, some, List, [], ◌∷◌, ◌++◌, length, get_elem?,
  ltb, ◌==◌, if◌then◌else◌, pop_back,
}
use wasmtiny.Runtime.Error.{WasmError}
use wasmtiny.Runtime.Types.{ValType, NumType, RefType, GlobalType, val_type_eq}
use wasmtiny.Runtime.Module.{Module, func_count}
use wasmtiny.Loader.Reader.{
  BinaryReader, IoResult, IoError, from_data, remaining, read_u8, read_uleb128, read_sleb128,
  read_sleb128_i64, read_f32, read_f64,
}
use wasmtiny.Loader.Validator.{Checked, ok, err, panic, stuck}
use wasmtiny.Loader.Validator.Immediates.{wasm_error}
use wasmtiny.Loader.Validator.Opcodes.{within}

-- `reader.read(…).map_err(convert)?`, and what follows it.
abbrev pub reading :
    {A B : Type 0}
    → (IoError → WasmError)
    → IoResult A × BinaryReader
    → (A → BinaryReader → Checked B)
    → Checked B
reading convert (IoResult.ok a, r) next = next a r
reading convert (IoResult.err e, r) next = err (convert e)
reading convert (IoResult.panic, r) next = panic
reading convert (IoResult.stuck, r) next = stuck

-- A result, and what follows it.
abbrev pub then_ : {A B : Type 0} → Checked A → (A → Checked B) → Checked B
then_ (ok a) next = next a
then_ (err e) next = err e
then_ panic next = panic
then_ stuck next = stuck

abbrev pub Place : Type 0 → Type 0
Place A = BinaryReader × List A

abbrev pub popped_type : ValType → Option (ValType × List ValType) → Checked (List ValType)
popped_type expected none = err (WasmError.validation "constant expression stack underflow")
popped_type expected (some (value, rest)) =
    if val_type_eq value expected
    then ok rest
    else err (WasmError.validation "constant expression type mismatch: expected {:?}, got {:?}")

unfoldable pub pop_const_expr_type : List ValType → ValType → Checked (List ValType)
pop_const_expr_type stack expected = popped_type expected (pop_back stack)

-- Two operands give a result of their type.
unfoldable pub binary_types : ValType → BinaryReader → List ValType → Checked (Place ValType)
unfolding pop_const_expr_type
binary_types t r stack =
    then_ (pop_const_expr_type stack t)
      λ once. then_ (pop_const_expr_type once t) λ twice. ok (r, twice ++ (t ∷ []))

abbrev pub usable_global : Option GlobalType → BinaryReader → List ValType → Checked (Place ValType)
usable_global none r stack =
    err (WasmError.validation "constant expression references invalid global {}")
usable_global (some global) r stack =
    if global.mutable
    then err (WasmError.validation "constant expression references mutable global {}")
    else ok (r, stack ++ (global.content_type ∷ []))

-- The heap type of `ref.null`, an `i64`: a concrete type counts as a function reference.
abbrev pub null_type : ℕ → Option RefType
null_type h =
    if h == 2 ^ 64 - 0x10 || h == 2 ^ 64 - 0x14
    then some RefType.func_ref
    else if h == 2 ^ 64 - 0x11 || h == 2 ^ 64 - 0x13
    then some RefType.extern_ref
    else if ltb h (2 ^ 63)
    then some RefType.func_ref
    else none

abbrev pub push_null : Option RefType → BinaryReader → List ValType → Checked (Place ValType)
push_null none r stack = err (WasmError.validation "GC heap types are not supported: {}")
push_null (some ref_type) r stack = ok (r, stack ++ (ValType.ref ref_type ∷ []))

abbrev i32 : ValType
i32 = ValType.num NumType.i32

abbrev i64 : ValType
i64 = ValType.num NumType.i64

-- One opcode other than `end`.
unfoldable pub type_step :
    Module → List GlobalType → ℕ → BinaryReader → List ValType → Checked (Place ValType)
unfolding binary_types
type_step m globals opcode r stack =
    if opcode == 0x23
    then reading wasm_error (read_uleb128 r)
        (λ idx r'. usable_global (get_elem? globals idx) r' stack)
    else if opcode == 0x41
    then reading wasm_error (read_sleb128 r) (λ _ r'. ok (r', stack ++ (i32 ∷ [])))
    else if opcode == 0x42
    then reading wasm_error (read_sleb128_i64 r) (λ _ r'. ok (r', stack ++ (i64 ∷ [])))
    else if opcode == 0x43
    then reading wasm_error (read_f32 r) (λ _ r'. ok (r', stack ++ (ValType.num NumType.f32 ∷ [])))
    else if opcode == 0x44
    then reading wasm_error (read_f64 r) (λ _ r'. ok (r', stack ++ (ValType.num NumType.f64 ∷ [])))
    else if opcode == 0xD0
    then reading wasm_error (read_sleb128_i64 r) (λ h r'. push_null (null_type h) r' stack)
    else if opcode == 0xD2
    then reading wasm_error (read_uleb128 r) (λ idx r'.
      if ltb idx (func_count m)
      then ok (r', stack ++ (ValType.ref RefType.func_ref ∷ []))
      else err (WasmError.validation "constant expression references invalid function {}"))
    else if within 0x6A 0x6C opcode
    then binary_types i32 r stack
    else if within 0x7C 0x7E opcode
    then binary_types i64 r stack
    else err (WasmError.validation "unsupported constant expression opcode: {:02x}")

-- The loop up to `end`. Every round takes a byte.
unfoldable pub type_loop :
    Module → List GlobalType → ℕ → BinaryReader → List ValType → Checked (Place ValType)
unfolding type_step
type_loop m globals zero r stack = stuck
type_loop m globals (suc fuel) r stack = reading wasm_error (read_u8 r) λ opcode r'.
    let more = then_ (type_step m globals opcode r' stack) λ p. type_loop m globals fuel p.0 p.1 in
    if opcode == 0x0B then ok (r', stack) else more

abbrev pub single_type : List ValType → Checked ValType
single_type (t ∷ []) = ok t
single_type _ = err (WasmError.validation "constant expression must leave exactly one value")

abbrev pub finished_type : Place ValType → Checked ValType
finished_type (r, stack) =
    if remaining r == 0
    then single_type stack
    else err (WasmError.validation "constant expression has trailing bytes")

unfoldable pub validate_const_expr : Module → List ℕ → List GlobalType → Checked ValType
unfolding type_loop
validate_const_expr m expr globals =
    then_ (type_loop m globals (length expr + 1) (from_data expr) []) finished_type
