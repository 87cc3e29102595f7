-- ===== src/Runtime/ConstExpr.antt =====
-- crates/core/src/runtime/instance.rs: the values of constant expressions.
pub mod Follows
pub mod Sound
pub mod Typed
mod Tests
use wasmtiny.Base.{
  ℕ, zero, suc, ◌+◌, ◌-◌, ◌*◌, ◌%◌, ◌^◌, Bool, true, false, ◌||◌, Option, none, some, List, [], ◌∷◌,
  ◌++◌, length, get_elem?, ltb, ◌==◌, if◌then◌else◌, pop_back, String,
}
use wasmtiny.Runtime.Error.{WasmError}
use wasmtiny.Runtime.Types.{RefType}
use wasmtiny.Runtime.Values.{WasmValue, native_func_ref}
use wasmtiny.Loader.Reader.{
  BinaryReader, IoResult, IoError, from_data, remaining, read_u8, read_uleb128, read_sleb128,
  read_sleb128_i64, read_f32, read_f64,
}
use wasmtiny.Loader.Validator.{Checked, ok, err, panic, stuck}
use wasmtiny.Loader.Validator.ConstExpr.{reading, then_, Place, null_type}
use wasmtiny.Loader.Validator.Opcodes.{within}

-- `io_to_load_error`: the message of the error.
abbrev pub load_error : IoError → WasmError
load_error IoError.unexpected_eof = WasmError.load "unexpected end of file"
load_error (IoError.invalid_data message) = WasmError.load message

abbrev popped_value :
    (WasmValue → Option ℕ)
    → String
    → Option (WasmValue × List WasmValue)
    → Checked (ℕ × List WasmValue)
popped_value view message none = err (WasmError.instantiate "constant expression stack underflow")
popped_value view message (some (value, rest)) = elim (view value) [
  | none ↦ err (WasmError.instantiate message)
  | some n ↦ ok (n, rest)
]

abbrev i32_of : WasmValue → Option ℕ
i32_of (WasmValue.i32 n) = some n
i32_of _ = none

abbrev i64_of : WasmValue → Option ℕ
i64_of (WasmValue.i64 n) = some n
i64_of _ = none

unfoldable pub pop_const_i32 : List WasmValue → Checked (ℕ × List WasmValue)
pop_const_i32 stack =
    popped_value i32_of "constant expression expected i32, got {:?}" (pop_back stack)

unfoldable pub pop_const_i64 : List WasmValue → Checked (ℕ × List WasmValue)
pop_const_i64 stack =
    popped_value i64_of "constant expression expected i64, got {:?}" (pop_back stack)

-- `wrapping_add`, `wrapping_sub` and `wrapping_mul` on `w` bits, by the last digit of the opcode.
abbrev pub wrapping : ℕ → ℕ → ℕ → ℕ → ℕ
wrapping w place lhs rhs =
    if place == 0
    then (lhs + rhs) % 2 ^ w
    else if place == 1
    then (lhs + 2 ^ w - rhs) % 2 ^ w
    else lhs * rhs % 2 ^ w

unfoldable pub binary_i32 : ℕ → BinaryReader → List WasmValue → Checked (Place WasmValue)
unfolding pop_const_i32
binary_i32 place r stack = then_ (pop_const_i32 stack) λ rhs.
    then_ (pop_const_i32 rhs.1)
      λ lhs. ok (r, lhs.1 ++ (WasmValue.i32 (wrapping 32 place lhs.0 rhs.0) ∷ []))

unfoldable pub binary_i64 : ℕ → BinaryReader → List WasmValue → Checked (Place WasmValue)
unfolding pop_const_i64
binary_i64 place r stack = then_ (pop_const_i64 stack) λ rhs.
    then_ (pop_const_i64 rhs.1)
      λ lhs. ok (r, lhs.1 ++ (WasmValue.i64 (wrapping 64 place lhs.0 rhs.0) ∷ []))

-- `globals.get(idx).and_then(as_ref)`: a global that constant expressions may not use is `none`.
abbrev global_value :
    Option (Option WasmValue) → BinaryReader → List WasmValue → Checked (Place WasmValue)
global_value (some (some value)) r stack = ok (r, stack ++ (value ∷ []))
global_value _ r stack =
    err (WasmError.instantiate "global {} is not allowed in constant expressions")

abbrev func_value : Option ℕ → BinaryReader → List WasmValue → Checked (Place WasmValue)
func_value none r stack = err (WasmError.instantiate "function ref {} not found")
func_value (some handle) r stack = ok (r, stack ++ (native_func_ref handle ∷ []))

abbrev heap_null : Option RefType → BinaryReader → List WasmValue → Checked (Place WasmValue)
heap_null none r stack = err (WasmError.instantiate "invalid ref.null heap type: {}")
heap_null (some ref_type) r stack = ok (r, stack ++ (WasmValue.null_ref ref_type ∷ []))

abbrev pub bad_null : WasmError
bad_null = WasmError.instantiate "invalid ref.null type: {:02x}"

-- The type of `ref.null`, from its first byte.
abbrev null_value : ℕ → BinaryReader → List WasmValue → Checked (Place WasmValue)
null_value byte r stack =
    if byte == 0x70
    then ok (r, stack ++ (WasmValue.null_ref RefType.func_ref ∷ []))
    else if byte == 0x6F
    then ok (r, stack ++ (WasmValue.null_ref RefType.extern_ref ∷ []))
    else if byte == 0x63 || byte == 0x64
    then reading load_error (read_sleb128_i64 r) (λ h r'. heap_null (null_type h) r' stack)
    else if ltb byte 0x40
    then ok (r, stack ++ (WasmValue.null_ref RefType.func_ref ∷ []))
    else err bad_null

-- One opcode other than `end`.
unfoldable pub value_step :
    List (Option WasmValue) → List ℕ → ℕ → BinaryReader → List WasmValue → Checked (Place WasmValue)
unfolding binary_i32 binary_i64
value_step globals func_refs opcode r stack =
    if opcode == 0x23
    then reading load_error (read_uleb128 r)
        (λ idx r'. global_value (get_elem? globals idx) r' stack)
    else if opcode == 0x41
    then reading load_error (read_sleb128 r) (λ n r'. ok (r', stack ++ (WasmValue.i32 n ∷ [])))
    else if opcode == 0x42
    then reading load_error (read_sleb128_i64 r) (λ n r'. ok (r', stack ++ (WasmValue.i64 n ∷ [])))
    else if opcode == 0x43
    then reading load_error (read_f32 r) (λ n r'. ok (r', stack ++ (WasmValue.f32 n ∷ [])))
    else if opcode == 0x44
    then reading load_error (read_f64 r) (λ n r'. ok (r', stack ++ (WasmValue.f64 n ∷ [])))
    else if opcode == 0xD0
    then reading load_error (read_u8 r) (λ byte r'. null_value byte r' stack)
    else if opcode == 0xD2
    then reading load_error (read_uleb128 r)
        (λ idx r'. func_value (get_elem? func_refs idx) r' stack)
    else if within 0x6A 0x6C opcode
    then binary_i32 (opcode - 0x6A) r stack
    else if within 0x7C 0x7E opcode
    then binary_i64 (opcode - 0x7C) r stack
    else err (WasmError.instantiate "unsupported const expr opcode: {:02x}")

-- The loop up to `end`. Every round takes a byte.
unfoldable pub value_loop :
    List (Option WasmValue) → List ℕ → ℕ → BinaryReader → List WasmValue → Checked (Place WasmValue)
unfolding value_step
value_loop globals func_refs zero r stack = stuck
value_loop globals func_refs (suc fuel) r stack = reading load_error (read_u8 r) λ opcode r'.
    let more =
      then_ (value_step globals func_refs opcode r' stack)
        λ p. value_loop globals func_refs fuel p.0 p.1 in
    if opcode == 0x0B then ok (r', stack) else more

abbrev single_value : List WasmValue → Checked WasmValue
single_value (value ∷ []) = ok value
single_value _ = err (WasmError.instantiate "constant expression must leave exactly one value")

abbrev finished_value : Place WasmValue → Checked WasmValue
finished_value (r, stack) =
    if remaining r == 0
    then single_value stack
    else err (WasmError.instantiate "constant expression has trailing bytes")

-- The values of the globals stand for the shared ones, whose locks are not poisoned.
unfoldable pub evaluate_const_expr : List ℕ → List (Option WasmValue) → List ℕ → Checked WasmValue
unfolding value_loop
evaluate_const_expr expr globals func_refs =
    then_ (value_loop globals func_refs (length expr + 1) (from_data expr) []) finished_value
