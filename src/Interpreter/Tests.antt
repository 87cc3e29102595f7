-- ===== src/Interpreter/Tests.antt =====
-- The theorems at concrete stacks.
use wasmtiny.Base.{◌≡◌, [], ◌∷◌, length, map, arith}
use wasmtiny.Runtime.Values.{WasmValue}
use wasmtiny.Interpreter.Stack.{
  OperandStack, FrameKind, ControlFrame, ControlStack, frames_to_bytes, stack_to_bytes,
  stack_from_bytes,
}
use wasmtiny.Interpreter.Stack.Encoding.{written, stack_from_bytes-stack_to_bytes}

abbrev operands : OperandStack
operands = record { slots = WasmValue.i64 7 ∷ []; max_size = 2 }

abbrev looping : ControlFrame
looping = record {
  kind = FrameKind.loop;
  position = 300;
  code = 3 ∷ 64 ∷ [];
  arity = 1;
  label_arity = 0;
  local_count = 2;
  height = 4;
  locals = [];
}

abbrev control : ControlStack
control = record { frames = looping ∷ looping ∷ [] }

stack_from_bytes-stack_to_bytes_example :
    (stack_from_bytes (stack_to_bytes control) ≡ record { frames = map written control.frames })
    × (stack_from_bytes (frames_to_bytes control.frames (1 ∷ 2 ∷ []))
        ≡ record { frames = map written control.frames })
    × (length (stack_from_bytes (0 ∷ 1 ∷ [])).frames ≡ 0)
stack_from_bytes-stack_to_bytes_example =
    stack_from_bytes-stack_to_bytes control (1 ∷ 2 ∷ []) (0 ∷ 1 ∷ []) (omega arith)
