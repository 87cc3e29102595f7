-- ===== src/Loader/Validator/Body.antt =====
-- crates/core/src/loader/validator.rs: the loop over the body of a function.
pub mod Reached
pub mod Settled
use wasmtiny.Base.{
  ℕ, zero, suc, ◌+◌, Bool, true, false, Option, none, some, List, [], ◌∷◌, length, get_elem?, ltb,
  leb, ◌==◌, if◌then◌else◌,
}
use wasmtiny.Runtime.Error.{WasmError}
use wasmtiny.Runtime.Types.{FunctionType, ValType}
use wasmtiny.Runtime.Module.{Module, Func}
use wasmtiny.Loader.Validator.{
  Checked, ok, err, panic, stuck, Check, BodyState, FrameKind, pure, fail, mark_unreachable,
}
use wasmtiny.Loader.Validator.Opcodes.{within, numeric_op, NumericOp, validate_numeric}
use wasmtiny.Loader.Validator.Locals.{total_locals, max_locals, local_types}
use wasmtiny.Loader.Validator.Control.{
  validate_block, validate_if, validate_else, finish_frame, validate_br, validate_br_if,
  validate_br_table, validate_return, validate_call, validate_call_indirect,
}
use wasmtiny.Loader.Validator.Variables.{
  validate_drop, validate_select, validate_typed_select, validate_local_get, validate_local_set,
  validate_local_tee, validate_global_get, validate_global_set, validate_table_get,
  validate_table_set, validate_access, validate_memory_size, validate_memory_grow, validate_const,
}
use wasmtiny.Loader.Validator.References.{
  validate_ref_null, validate_ref_is_null, validate_ref_func, validate_prefixed, validate_atomic,
}

abbrev unsupported : Check (Unit {0})
unsupported = fail "function {} uses unsupported opcode {:02x}"

-- 0x00 to 0x11 without `end`.
unfoldable pub control_op : (ℕ → Bool) → Module → List ℕ → ℕ → Check (Unit {0})
control_op allocates m code opcode =
    if opcode == 0x00
    then mark_unreachable
    else if opcode == 0x01
    then pure tt
    else if opcode == 0x02
    then validate_block m code FrameKind.block
    else if opcode == 0x03
    then validate_block m code FrameKind.loop
    else if opcode == 0x04
    then validate_if m code
    else if opcode == 0x05
    then validate_else
    else if opcode == 0x0C
    then validate_br code
    else if opcode == 0x0D
    then validate_br_if code
    else if opcode == 0x0E
    then validate_br_table allocates code
    else if opcode == 0x0F
    then validate_return
    else if opcode == 0x10
    then validate_call m code
    else if opcode == 0x11
    then validate_call_indirect m code
    else unsupported

-- 0x12 to 0x44.
unfoldable pub variable_op : Module → List ℕ → List ValType → ℕ → Check (Unit {0})
variable_op m code locals opcode =
    if opcode == 0x1A
    then validate_drop
    else if opcode == 0x1B
    then validate_select
    else if opcode == 0x1C
    then validate_typed_select code
    else if opcode == 0x20
    then validate_local_get code locals
    else if opcode == 0x21
    then validate_local_set code locals
    else if opcode == 0x22
    then validate_local_tee code locals
    else if opcode == 0x23
    then validate_global_get m code
    else if opcode == 0x24
    then validate_global_set m code
    else if opcode == 0x25
    then validate_table_get m code
    else if opcode == 0x26
    then validate_table_set m code
    else if within 0x28 0x3E opcode
    then validate_access m code opcode
    else if opcode == 0x3F
    then validate_memory_size m code
    else if opcode == 0x40
    then validate_memory_grow m code
    else if within 0x41 0x44 opcode
    then validate_const code opcode
    else unsupported

-- From 0x45 on.
unfoldable pub reference_op : Module → List ℕ → ℕ → Check (Unit {0})
reference_op m code opcode =
    if opcode == 0xD0
    then validate_ref_null code
    else if opcode == 0xD1
    then validate_ref_is_null
    else if opcode == 0xD2
    then validate_ref_func m code
    else if opcode == 0xFC
    then validate_prefixed m code
    else if opcode == 0xFE
    then validate_atomic m code
    else unsupported

abbrev numeric_or_reference : Module → List ℕ → ℕ → Option NumericOp → Check (Unit {0})
numeric_or_reference m code opcode (some op) = validate_numeric op
numeric_or_reference m code opcode none = reference_op m code opcode

-- The match on the opcode without `end`.
unfoldable pub validate_opcode : (ℕ → Bool) → Module → List ℕ → List ValType → ℕ → Check (Unit {0})
unfolding control_op variable_op reference_op
validate_opcode allocates m code locals opcode =
    if leb opcode 0x11
    then control_op allocates m code opcode
    else if leb opcode 0x44
    then variable_op m code locals opcode
    else numeric_or_reference m code opcode (numeric_op opcode)

abbrev trailing : List ℕ → BodyState → Checked BodyState
trailing code s =
    if s.cursor == length code
    then ok s
    else err (WasmError.validation "function {} has trailing bytes after final end")

-- What follows an instruction: the next round.
abbrev pub next_round :
    (BodyState → Checked BodyState) → Checked (Unit {0} × BodyState) → Checked BodyState
next_round more (ok (_, s)) = more s
next_round more (err e) = err e
next_round more panic = panic
next_round more stuck = stuck

-- What follows `end`: the function is done with its last frame, if no byte is left.
abbrev pub next_or_done :
    List ℕ → (BodyState → Checked BodyState) → Checked (Bool × BodyState) → Checked BodyState
next_or_done code more (ok (true, s)) = trailing code s
next_or_done code more (ok (false, s)) = more s
next_or_done code more (err e) = err e
next_or_done code more panic = panic
next_or_done code more stuck = stuck

abbrev pub round :
    (ℕ → Bool)
    → Module
    → List ℕ
    → List ValType
    → (BodyState → Checked BodyState)
    → Option ℕ
    → BodyState
    → Checked BodyState
round allocates m code locals more none s =
    err (WasmError.validation "function {} missing terminating end opcode")
round allocates m code locals more (some opcode) s =
    let s' = record s { cursor = s.cursor + 1 } in
    if opcode == 0x0B
    then next_or_done code more (finish_frame s')
    else next_round more (validate_opcode allocates m code locals opcode s')

-- The loop, which ends with the state at the last `end`. A round that goes on has taken a byte.
unfoldable pub body_loop :
    (ℕ → Bool) → Module → List ℕ → List ValType → ℕ → BodyState → Checked BodyState
unfolding validate_opcode
body_loop allocates m code locals zero s = stuck
body_loop allocates m code locals (suc fuel) s =
    round allocates m code locals (body_loop allocates m code locals fuel) (get_elem? code s.cursor)
      s

abbrev pub initial_state : FunctionType → BodyState
initial_state func_type = record {
  cursor = 0;
  type_stack = [];
  control_frames =
      record {
        kind = FrameKind.function;
        height = 0;
        params = [];
        results = func_type.results;
        label_types = func_type.results;
        allow_else = false;
        unreachable = false;
      }
      ∷ [];
}

-- The state at the end of the body; the source returns `()`. One round for each byte, and one
-- more, is enough.
unfoldable pub validate_function_body :
    (ℕ → Bool) → Module → Func → FunctionType → Checked BodyState
unfolding body_loop
validate_function_body allocates m func func_type =
    if ltb max_locals (total_locals func.locals)
    then err (WasmError.validation "function {} declares {} locals exceeding maximum {}")
    else body_loop allocates m func.body (local_types func func_type) (length func.body + 1)
        (initial_state func_type)
