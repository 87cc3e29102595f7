-- ===== src/Loader/Validator/Tests.antt =====
-- The validator at concrete modules.
use wasmtiny.Base.{ℕ, Bool, ◌≡◌, ◌≢◌, refl, true, none, [], ◌∷◌, pop_back}
use wasmtiny.Runtime.Types.{
  FunctionType, Limits, val_types_eq, val_type_eq, num_tag, ref_tag, ref_type_eq,
}
use wasmtiny.Runtime.Module.{Module, Func, ExportKind, type_at}
use wasmtiny.Loader.Reader
use wasmtiny.Loader.Validator.{
  ok, panic, stuck, BodyState, ◌>>=◌, pure, fail, expect, require, top_frame, push_types, set_stack,
  truncate_types, require_types, require_exact_height, pop_types, pop_type, drop_types,
  pop_frame_or, push_frame, stack_height, set_top_frame, mark_unreachable, validate_unary_numeric,
  validate_binary_numeric, pop_any, pop_from,
}
use wasmtiny.Loader.Validator.Immediates.{
  read_byte, byte_or, at_cursor, read_uleb, uleb_loop, uleb_next, skip_sleb, skip_sleb_tail,
  skip_tail, skip_bytes, read_block_signature, signature_of, indexed_signature,
  read_signed_leb_continuation, lift, sleb_of_slice, start_of,
}
use wasmtiny.Loader.Validator.Opcodes.{validate_numeric, i32, i64, f32}
use wasmtiny.Loader.Validator.Locals.{
  total_locals, sum_counts, local_types, expand_locals, push_locals,
}
use wasmtiny.Loader.Validator.Control.{
  open_frame, validate_block, finish_frame, close_frame, no_frames,
}
use wasmtiny.Loader.Validator.Variables.{
  validate_local_get, local_at, validate_const, validate_drop,
}
use wasmtiny.Loader.Validator.Body.{
  control_op, variable_op, reference_op, validate_opcode, body_loop, validate_function_body,
  initial_state,
}
use wasmtiny.Loader.Validator.Body.Reached.{Accepted}
use wasmtiny.Loader.Validator.References.Declared.{AreEnded, segments_ended}
use wasmtiny.Loader.Validator.Body.Settled.{
  validate_function_body-total, validate_function_body-results,
}

abbrev binary_type : FunctionType
binary_type = record { params = i32 ∷ i32 ∷ []; results = i32 ∷ [] }

-- local.get 0, local.get 1, i32.add
abbrev add : Func
add = record { type_idx = 0; locals = []; body = 0x20 ∷ 0 ∷ 0x20 ∷ 1 ∷ 0x6A ∷ 0x0B ∷ [] }

abbrev pub tiny : Module
tiny = record {
  id = 1;
  types =
      binary_type
      ∷ record { params = i64 ∷ []; results = f32 ∷ [] }
      ∷ record { params = []; results = f32 ∷ [] }
      ∷ [];
  funcs = add ∷ [];
  tables = [];
  memories = record { limits = Limits.min_max 1 2; shared = true } ∷ [];
  globals = [];
  global_inits = [];
  exports =
      record { name = "add"; kind = ExportKind.func 0 }
      ∷ record { name = "memory"; kind = ExportKind.memory 0 }
      ∷ [];
  imports = [];
  start = none;
  segments = [];
  elems = [];
  data_count = none;
}

-- An allocator that grants every capacity.
abbrev pub generous : ℕ → Bool
generous capacity = true

pub tiny-AreEnded : AreEnded tiny.elems
unfolding segments_ended
tiny-AreEnded = refl

abbrev add_end : BodyState
add_end = record { cursor = 6; type_stack = i32 ∷ []; control_frames = [] }

pub accepts_add : validate_function_body generous tiny add binary_type ≡ ok add_end
unfolding validate_function_body body_loop validate_opcode control_op variable_op reference_op
    validate_local_get local_at read_uleb uleb_loop uleb_next byte_or at_cursor pure fail expect
    require ◌>>=◌ push_types set_stack pop_types pop_type top_frame require_types drop_types
    val_types_eq val_type_eq num_tag ref_tag ref_type_eq validate_numeric validate_unary_numeric
    validate_binary_numeric finish_frame close_frame require_exact_height truncate_types no_frames
    pop_frame_or pop_back total_locals sum_counts local_types expand_locals push_locals
accepts_add = refl

validate_function_body-total_example :
    (validate_function_body generous tiny add binary_type ≢ panic)
    × (validate_function_body generous tiny add binary_type ≢ stuck)
validate_function_body-total_example =
    validate_function_body-total generous tiny add binary_type (λ _. refl) tiny-AreEnded

validate_function_body-results_example :
    Accepted generous tiny add.body
      (local_types add binary_type)
      (i32 ∷ [])
      (initial_state binary_type)
      add_end
validate_function_body-results_example =
    validate_function_body-results generous tiny add binary_type add_end (λ _. refl) tiny-AreEnded
      accepts_add

-- i64.const 7, block, unreachable, block (type 1: an i64 to an f32), drop, f32.const 0, end, end:
-- the value at the end is the i64, and the validator takes it for an f32.
abbrev confused : Func
confused = record {
  type_idx = 2;
  locals = [];
  body =
      0x42 ∷ 7 ∷ 0x02 ∷ 0x40 ∷ 0x00 ∷ 0x02 ∷ 1 ∷ 0x1A ∷ 0x43 ∷ 0 ∷ 0 ∷ 0 ∷ 0 ∷ 0x0B ∷ 0x0B ∷ 0x0B
      ∷ [];
}

accepts_confused :
    validate_function_body generous tiny confused (record { params = []; results = f32 ∷ [] })
    ≡ ok (record { cursor = 16; type_stack = f32 ∷ []; control_frames = [] })
unfolding validate_function_body body_loop validate_opcode control_op variable_op reference_op
    read_uleb uleb_loop uleb_next byte_or at_cursor pure fail expect require ◌>>=◌ push_types
    set_stack pop_types pop_type top_frame require_types drop_types val_types_eq val_type_eq num_tag
    ref_tag ref_type_eq finish_frame close_frame require_exact_height truncate_types no_frames
    pop_frame_or pop_back total_locals sum_counts local_types expand_locals push_locals
    validate_const skip_sleb skip_sleb_tail skip_tail skip_bytes validate_block open_frame
    read_block_signature read_byte signature_of indexed_signature stack_height push_frame
    set_top_frame mark_unreachable validate_drop pop_any pop_from read_signed_leb_continuation
    type_at lift sleb_of_slice start_of Reader.from_data Reader.read_byte Reader.read_sleb128
    Reader.read_u8 Reader.sleb_loop
accepts_confused = refl
