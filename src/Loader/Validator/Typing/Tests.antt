-- ===== src/Loader/Validator/Typing/Tests.antt =====
-- The steps on the operand stack, the immediates and the locals at concrete states.
use wasmtiny.Base.{ℕ, ◌+◌, ◌≡◌, ◌↔◌, refl, true, some, List, [], ◌∷◌, ◌++◌, arith, pop_back}
use wasmtiny.Runtime.Types.{FunctionType, ValType}
use wasmtiny.Runtime.Module.{Func}
use wasmtiny.Loader.Validator.{ok, BodyState, ValidationFrame, FrameKind, ◌>>=◌, pop_types, last_of}
use wasmtiny.Loader.Validator.Immediates.{advance, read_uleb}
use wasmtiny.Loader.Validator.Immediates.Overlong.{read_uleb_five_bytes}
use wasmtiny.Loader.Validator.Opcodes.{
  unary, binary, numeric_op, validate_numeric, i32, i64, f32, f64,
}
use wasmtiny.Loader.Validator.Locals.{local_types}
use wasmtiny.Loader.Validator.Locals.Expanded.{local_types_lem}
use wasmtiny.Loader.Validator.Control.{open_frame, block_frame}
use wasmtiny.Loader.Validator.Typing.{IsIn, Holds, with_stack, pop_types_iff}
use wasmtiny.Loader.Validator.Typing.Effect.{validate_numeric_iff}
use wasmtiny.Loader.Validator.Typing.Numeric.{numeric_op_lem}
use wasmtiny.Loader.Validator.Typing.Unreachable.{opened, pop_types-open_frame}

abbrev outer : ValidationFrame
outer = block_frame FrameKind.function 0 [] []

abbrev frame : ValidationFrame
frame = block_frame FrameKind.block 1 [] (f64 ∷ [])

abbrev state : BodyState
state = record {
  cursor = 4;
  type_stack = i64 ∷ f32 ∷ f32 ∷ [];
  control_frames = outer ∷ frame ∷ [];
}

state-IsIn : IsIn frame state
unfolding pop_back
state-IsIn = record { top = refl; reachable = refl }

pop_types_iff_example :
    (pop_types (f32 ∷ f32 ∷ []) state ≡ ok (tt, with_stack state (i64 ∷ []))) ↔ (
      (below : List ValType) × Holds frame (f32 ∷ f32 ∷ []) below state
      × (with_stack state (i64 ∷ []) ≡ with_stack state below))
pop_types_iff_example =
    pop_types_iff frame state (with_stack state (i64 ∷ [])) (f32 ∷ f32 ∷ []) state-IsIn

-- f32.add
validate_numeric_iff_example :
    (validate_numeric (binary f32 f32) state ≡ ok (tt, with_stack state (i64 ∷ f32 ∷ []))) ↔ (
      (below : List ValType) × Holds frame (f32 ∷ f32 ∷ []) below state
      × (with_stack state (i64 ∷ f32 ∷ []) ≡ with_stack state (below ++ (f32 ∷ []))))
validate_numeric_iff_example =
    validate_numeric_iff frame state (with_stack state (i64 ∷ f32 ∷ [])) (binary f32 f32) state-IsIn

-- i64.extend_i32_u
numeric_op_lem_example : numeric_op 0xAD ≡ some (unary i32 i64)
numeric_op_lem_example = numeric_op_lem 0xAD (omega arith)

abbrev dead : ValidationFrame
dead = record frame { unreachable = true }

-- Behind `unreachable` in a block over an i64.
abbrev dead_state : BodyState
dead_state = record { cursor = 5; type_stack = i64 ∷ []; control_frames = outer ∷ dead ∷ [] }

dead_top : last_of (pop_back dead_state.control_frames) ≡ some dead
unfolding pop_back
dead_top = refl

-- The value of the code around is popped in a block that has an f32 as its parameter.
pop_types-open_frame_example :
    ((open_frame FrameKind.block (f32 ∷ []) [] >>= λ _. pop_types (i64 ∷ [])) dead_state
      ≡ ok (tt, with_stack (opened FrameKind.block (f32 ∷ []) [] dead_state) []))
    × (0 + 1 ≡ 1)
pop_types-open_frame_example =
    pop_types-open_frame FrameKind.block (f32 ∷ []) [] (i64 ∷ []) [] dead dead_state dead_top refl
      refl refl refl

abbrev immediates : List ℕ
immediates = 0x20 ∷ 0x83 ∷ 0x80 ∷ 0x80 ∷ 0x80 ∷ 0x70 ∷ 0x0B ∷ []

abbrev at_immediate : BodyState
at_immediate = record { cursor = 1; type_stack = []; control_frames = [] }

-- 3, with bits above the 32nd.
read_uleb_five_bytes_example : read_uleb immediates at_immediate ≡ ok (3, advance 5 at_immediate)
read_uleb_five_bytes_example =
    read_uleb_five_bytes immediates at_immediate 0x83 0x80 0x80 0x80 0x70 (omega arith, omega arith)
      (omega arith, omega arith) (omega arith, omega arith) (omega arith, omega arith) (omega arith)
      refl

abbrev with_locals : Func
with_locals = record {
  type_idx = 0;
  locals = record { count = 2; type_ = i64 } ∷ record { count = 1; type_ = f32 } ∷ [];
  body = [];
}

abbrev one_param : FunctionType
one_param = record { params = f64 ∷ []; results = [] }

local_types_lem_example : local_types with_locals one_param ≡ f64 ∷ i64 ∷ i64 ∷ f32 ∷ []
local_types_lem_example = local_types_lem with_locals one_param (omega arith)
