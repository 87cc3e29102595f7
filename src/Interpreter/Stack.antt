-- ===== src/Interpreter/Stack.antt =====
-- crates/core/src/interpreter/stack.rs: the operand stack, control frames and the control stack.
-- A stack is a list with its top at the end, as in the source.
pub mod Operands
pub mod Encoding
use wasmtiny.Base.{
  ℕ, zero, suc, ◌+◌, ◌%◌, ◌^◌, Bool, true, false, Option, none, some, List, [], ◌∷◌, ◌++◌, length,
  take, drop, get_elem?, ltb, leb, ◌==◌, if◌then◌else◌, pop_back,
}
use wasmtiny.Base.Bytes.{to_le_bytes, from_le_bytes}
use wasmtiny.Runtime.Error.{Result, ok, err, WasmError}
use wasmtiny.Runtime.Values.{WasmValue}

pub record OperandStack : Type 0 where
  pub slots : List WasmValue
  pub max_size : ℕ

pub data FrameKind : Type 0 where
  function block loop : FrameKind

pub record ControlFrame : Type 0 where
  pub kind : FrameKind
  pub position : ℕ
  pub code : List ℕ
  pub arity : ℕ
  pub label_arity : ℕ
  pub local_count : ℕ
  pub height : ℕ
  pub locals : List WasmValue

pub record ControlStack : Type 0 where
  pub frames : List ControlFrame

unfoldable pub push : OperandStack → WasmValue → Result (Unit {0}) × OperandStack
push s v =
    if leb s.max_size (length s.slots)
    then (err (WasmError.runtime "stack overflow"), s)
    else (ok tt, record s { slots = s.slots ++ (v ∷ []) })

-- In a debug build a full stack is a panic.
unfoldable pub push_unchecked : OperandStack → WasmValue → OperandStack
push_unchecked s v = record s { slots = s.slots ++ (v ∷ []) }

abbrev popped : OperandStack → Option (WasmValue × List WasmValue) → Option WasmValue × OperandStack
popped s none = (none, s)
popped s (some (v, rest)) = (some v, record s { slots = rest })

unfoldable pub pop : OperandStack → Option WasmValue × OperandStack
pop s = popped s (pop_back s.slots)

abbrev typed : (WasmValue → Option ℕ) → Option WasmValue → Result ℕ
typed view none = err (WasmError.runtime "stack underflow")
typed view (some v) = elim (view v) [
  | none ↦ err (WasmError.runtime "type mismatch")
  | some n ↦ ok n
]

abbrev pub i32_of : WasmValue → Option ℕ
i32_of (WasmValue.i32 n) = some n
i32_of _ = none

abbrev pub i64_of : WasmValue → Option ℕ
i64_of (WasmValue.i64 n) = some n
i64_of _ = none

abbrev pub f32_of : WasmValue → Option ℕ
f32_of (WasmValue.f32 n) = some n
f32_of _ = none

abbrev pub f64_of : WasmValue → Option ℕ
f64_of (WasmValue.f64 n) = some n
f64_of _ = none

-- The value is popped whatever its type is.
abbrev pub pop_typed : (WasmValue → Option ℕ) → OperandStack → Result ℕ × OperandStack
pop_typed view s = let (top, s') = pop s in (typed view top, s')

unfoldable pub pop_i32 : OperandStack → Result ℕ × OperandStack
pop_i32 s = pop_typed i32_of s

unfoldable pub pop_i64 : OperandStack → Result ℕ × OperandStack
pop_i64 s = pop_typed i64_of s

unfoldable pub pop_f32 : OperandStack → Result ℕ × OperandStack
pop_f32 s = pop_typed f32_of s

unfoldable pub pop_f64 : OperandStack → Result ℕ × OperandStack
pop_f64 s = pop_typed f64_of s

unfoldable pub truncate : OperandStack → ℕ → OperandStack
truncate s len = record s { slots = take len s.slots }

unfoldable pub frame_kind_from_u8 : ℕ → FrameKind
frame_kind_from_u8 v =
    if v == 0
    then FrameKind.function
    else if v == 1
    then FrameKind.block
    else if v == 2
    then FrameKind.loop
    else FrameKind.block

abbrev pub frame_kind_byte : FrameKind → ℕ
frame_kind_byte FrameKind.function = 0
frame_kind_byte FrameKind.block = 1
frame_kind_byte FrameKind.loop = 2

unfoldable pub new_frame : FrameKind → ℕ → ℕ → ℕ → List ℕ → List WasmValue → ControlFrame
new_frame kind param_count result_count label_count code locals = record {
  kind = kind;
  position = 0;
  code = code;
  arity = result_count;
  label_arity = label_count;
  local_count = param_count;
  height = 0;
  locals = locals;
}

unfoldable pub push_frame : ControlStack → ControlFrame → ControlStack
push_frame s frame = record { frames = s.frames ++ (frame ∷ []) }

abbrev popped_frame :
    ControlStack → Option (ControlFrame × List ControlFrame) → Option ControlFrame × ControlStack
popped_frame s none = (none, s)
popped_frame s (some (frame, rest)) = (some frame, record { frames = rest })

-- `pop` and `pop_frame`, which are the same.
unfoldable pub pop_frame : ControlStack → Option ControlFrame × ControlStack
pop_frame s = popped_frame s (pop_back s.frames)

unfoldable pub truncate_frames : ControlStack → ℕ → ControlStack
truncate_frames s len = record { frames = take len s.frames }

-- The 21 bytes of a frame: its code and its locals are not written.
abbrev pub frame_bytes : ControlFrame → List ℕ → List ℕ
frame_bytes f rest =
    to_le_bytes 4 (f.position % 2 ^ 32)
    ++ (to_le_bytes 4 (f.arity % 2 ^ 32)
        ++ (to_le_bytes 4 (f.label_arity % 2 ^ 32)
            ++ (to_le_bytes 4 (f.height % 2 ^ 32)
                ++ (to_le_bytes 4 (f.local_count % 2 ^ 32) ++ (frame_kind_byte f.kind ∷ rest)))))

-- The bytes of the frames, followed by `rest`.
unfoldable pub frames_to_bytes : List ControlFrame → List ℕ → List ℕ
frames_to_bytes [] rest = rest
frames_to_bytes (f ∷ frames) rest = frame_bytes f (frames_to_bytes frames rest)

unfoldable pub stack_to_bytes : ControlStack → List ℕ
stack_to_bytes s = frames_to_bytes s.frames []

-- `none` does not occur: 21 bytes are there.
abbrev kind_at : Option ℕ → FrameKind
kind_at none = FrameKind.block
kind_at (some b) = frame_kind_from_u8 b

unfoldable pub field_at : ℕ → List ℕ → ℕ
field_at k bytes = from_le_bytes (take 4 (drop k bytes))

unfoldable pub read_frame : List ℕ → ControlFrame
read_frame bytes = record {
  kind = kind_at (get_elem? bytes 20);
  position = field_at 0 bytes;
  code = [];
  arity = field_at 4 bytes;
  label_arity = field_at 8 bytes;
  local_count = field_at 16 bytes;
  height = field_at 12 bytes;
  locals = [];
}

-- The loop, on the bytes from the cursor on.
unfoldable pub frames_from_bytes : ℕ → List ℕ → List ControlFrame
frames_from_bytes zero bytes = []
frames_from_bytes (suc fuel) bytes =
    let rest = frames_from_bytes fuel (drop 21 bytes) in
    if length bytes == 0 then [] else if ltb (length bytes) 21 then [] else read_frame bytes ∷ rest

-- Every round but the last takes 21 bytes, so that one round for each byte is enough.
unfoldable pub stack_from_bytes : List ℕ → ControlStack
stack_from_bytes bytes = record { frames = frames_from_bytes (length bytes) bytes }
