-- ===== src/Loader/Validator.antt =====
-- crates/core/src/loader/validator.rs: the operand and control stacks of the validator.
-- A stack is a list with its top at the end, as in the source. `func_idx`, which is only put into
-- messages, is left out, and so are the other values that a message shows.
pub mod Keeps
pub mod Typing
pub mod Tests
pub mod Immediates
pub mod Opcodes
pub mod Control
pub mod Variables
pub mod References
pub mod Body
pub mod Locals
pub mod ConstExpr
pub mod Sections
pub mod Whole
use wasmtiny.Base.{
  ℕ, zero, suc, ◌+◌, ◌-◌, Bool, true, false, not, Option, none, some, List, [], ◌∷◌, ◌++◌, length,
  take, drop, get_elem?, ltb, leb, ◌==◌, if◌then◌else◌, pop_back, String,
}
use wasmtiny.Runtime.Error.{WasmError}
use wasmtiny.Runtime.Types.{ValType, NumType, val_types_eq}

-- `panic` is an `unwrap` of nothing, a slice out of range, an overflow where the build checks it, or
-- memory that the allocator refuses, which ends the process; `stuck` is no value of the program:
-- the fuel of a loop ran out.
pub data Checked (A : Type 0) : Type 0 where
  ok : A → Checked A
  err : WasmError → Checked A
  panic stuck : Checked A

pub data FrameKind : Type 0 where
  function block loop if_ : FrameKind

pub record ValidationFrame : Type 0 where
  pub kind : FrameKind
  pub height : ℕ
  pub params : List ValType
  pub results : List ValType
  pub label_types : List ValType
  pub allow_else : Bool
  pub unreachable : Bool

-- The variables of `validate_function_body`.
pub record BodyState : Type 0 where
  pub cursor : ℕ
  pub type_stack : List ValType
  pub control_frames : List ValidationFrame

abbrev pub Check : Type 0 → Type 0
Check A = BodyState → Checked (A × BodyState)

infixl 5 ◌>>=◌ ◌>>◌
unfoldable pub ◌>>=◌ : {A B : Type 0} → Check A → (A → Check B) → Check B
◌>>=◌ m f s = elim (m s) [ ok (a, s') ↦ f a s' | err e ↦ err e | panic ↦ panic | stuck ↦ stuck ]

abbrev pub ◌>>◌ : {B : Type 0} → Check (Unit {0}) → Check B → Check B
m >> k = m >>= λ _. k

unfoldable pub pure : {A : Type 0} → A → Check A
pure a s = ok (a, s)

unfoldable pub fail : {A : Type 0} → String → Check A
fail message s = err (WasmError.validation message)

-- `ok_or_else`
unfoldable pub expect : {A : Type 0} → String → Option A → Check A
expect message none = fail message
expect message (some a) = pure a

-- An early return of an error.
unfoldable pub require : String → Bool → Check (Unit {0})
require message b = if b then pure tt else fail message

abbrev pub unwrap : {A : Type 0} → Option A → Check A
unwrap none s = panic
unwrap (some a) s = ok (a, s)

abbrev last_of : Option (ValidationFrame × List ValidationFrame) → Option ValidationFrame
last_of none = none
last_of (some (frame, _)) = some frame

-- `control_frames.last().unwrap()`
unfoldable pub top_frame : Check ValidationFrame
top_frame s = unwrap (last_of (pop_back s.control_frames)) s

-- The same with an error in place of the panic.
unfoldable pub top_frame_or : String → Check ValidationFrame
top_frame_or message s = expect message (last_of (pop_back s.control_frames)) s

abbrev popped_frame :
    String → Option (ValidationFrame × List ValidationFrame) → Check ValidationFrame
popped_frame message none s = fail message s
popped_frame message (some (frame, rest)) s = ok (frame, record s { control_frames = rest })

-- `control_frames.pop()` with an error where there is none.
unfoldable pub pop_frame_or : String → Check ValidationFrame
pop_frame_or message s = popped_frame message (pop_back s.control_frames) s

abbrev replaced :
    Option (ValidationFrame × List ValidationFrame) → ValidationFrame → Check (Unit {0})
replaced none frame s = panic
replaced (some (_, rest)) frame s = ok (tt, record s { control_frames = rest ++ (frame ∷ []) })

-- A write through `control_frames.last_mut().unwrap()`.
unfoldable pub set_top_frame : ValidationFrame → Check (Unit {0})
set_top_frame frame s = replaced (pop_back s.control_frames) frame s

unfoldable pub push_frame : ValidationFrame → Check (Unit {0})
push_frame frame s = ok (tt, record s { control_frames = s.control_frames ++ (frame ∷ []) })

unfoldable pub stack_height : Check ℕ
stack_height s = ok (length s.type_stack, s)

unfoldable pub set_stack : List ValType → Check (Unit {0})
set_stack stack s = ok (tt, record s { type_stack = stack })

-- `type_stack.extend(types)`, and `push` for one type.
unfoldable pub push_types : List ValType → Check (Unit {0})
push_types types s = set_stack (s.type_stack ++ types) s

-- `type_stack.truncate(len)`
unfoldable pub truncate_types : ℕ → Check (Unit {0})
truncate_types len s = set_stack (take len s.type_stack) s

-- The last elements of the stack, as many as are expected, are the expected ones.
abbrev ends_with : List ValType → List ValType → Bool
ends_with stack expected = val_types_eq (drop (length stack - length expected) stack) expected

unfoldable pub require_types : ValidationFrame → List ValType → Check (Unit {0})
unfolding val_types_eq
require_types frame expected s =
    if frame.unreachable
    then ok (tt, s)
    else if ltb (length s.type_stack) (frame.height + length expected)
    then err (WasmError.validation "function {} stack underflow")
    else if ends_with s.type_stack expected
    then ok (tt, s)
    else err (WasmError.validation "function {} stack type mismatch: expected {:?}, got {:?}")

unfoldable pub require_exact_height : ValidationFrame → Check (Unit {0})
require_exact_height frame s =
    if frame.unreachable
    then ok (tt, s)
    else if length s.type_stack == frame.height + length frame.results
    then ok (tt, s)
    else err
        (WasmError.validation "function {} stack type mismatch: expected stack height {}, got {}")

unfoldable pub drop_types : ValidationFrame → ℕ → Check (Unit {0})
drop_types frame n s =
    if frame.unreachable
    then ok (tt, s)
    else set_stack (take (length s.type_stack - n) s.type_stack) s

-- `pop_types` and the frame that every call of it passes, the top one.
unfoldable pub pop_types : List ValType → Check (Unit {0})
unfolding top_frame require_types
pop_types expected = do
  frame ← top_frame
  require_types frame expected
  drop_types frame (length expected)

unfoldable pub pop_type : ValType → Check (Unit {0})
unfolding pop_types
pop_type expected = pop_types (expected ∷ [])

abbrev popped : Option (ValType × List ValType) → Check ValType
popped none s = err (WasmError.validation "function {} stack underflow")
popped (some (t, rest)) s = ok (t, record s { type_stack = rest })

unfoldable pub pop_from : ValidationFrame → Check ValType
pop_from frame s =
    if frame.unreachable
    then ok (ValType.num NumType.i32, s)
    else if leb (length s.type_stack) frame.height
    then err (WasmError.validation "function {} stack underflow")
    else popped (pop_back s.type_stack) s

unfoldable pub pop_any : Check ValType
unfolding top_frame
pop_any = do frame ← top_frame; pop_from frame

unfoldable pub validate_unary_numeric : ValType → ValType → Check (Unit {0})
unfolding pop_type push_types
validate_unary_numeric operand result = do pop_type operand; push_types (result ∷ [])

unfoldable pub validate_binary_numeric : ValType → ValType → Check (Unit {0})
unfolding pop_type push_types
validate_binary_numeric operand result = do
  pop_type operand
  pop_type operand
  push_types (result ∷ [])

abbrev pub unreachable_frame : ValidationFrame → ValidationFrame
unreachable_frame frame = record frame { unreachable = true }

unfoldable pub mark_unreachable : Check (Unit {0})
unfolding top_frame truncate_types set_top_frame
mark_unreachable = do
  frame ← top_frame
  truncate_types frame.height
  set_top_frame (unreachable_frame frame)

-- The label types of the frame `depth` below the top one.
unfoldable pub label_types_of : ℕ → Check (List ValType)
label_types_of depth s =
    let n = length s.control_frames in
    if ltb n (depth + 1)
    then err (WasmError.validation "function {} uses invalid branch depth {}")
    else expect "function {} uses invalid branch depth {}"
        (elim (get_elem? s.control_frames (n - (depth + 1))) [
          | none ↦ none
          | some frame ↦ some frame.label_types
        ])
        s
