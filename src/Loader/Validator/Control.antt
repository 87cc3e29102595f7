-- ===== src/Loader/Validator/Control.antt =====
-- crates/core/src/loader/validator.rs: the control instructions.
pub mod Steps
pub mod Finish
use wasmtiny.Base.{
  none, ℕ, zero, suc, ◌-◌, Bool, true, false, not, ◌&&◌, List, [], ◌∷◌, length, ◌==◌, if◌then◌else◌,
}
use wasmtiny.Runtime.Types.{ValType, RefType, val_types_eq, ref_type_eq}
use wasmtiny.Runtime.Module.{Module, type_at, table_at, func_type}
use wasmtiny.Loader.Validator.{
  ok, Check, ValidationFrame, FrameKind, ◌>>=◌, ◌>>◌, pure, expect, require, unwrap, top_frame,
  top_frame_or, pop_frame_or, set_top_frame, push_frame, stack_height, push_types, truncate_types,
  require_types, require_exact_height, pop_types, pop_type, mark_unreachable, label_types_of,
}
use wasmtiny.Loader.Validator.Immediates.{read_uleb, read_block_signature}
use wasmtiny.Loader.Validator.Opcodes.{i32}

abbrev pub is_if : FrameKind → Bool
is_if FrameKind.if_ = true
is_if _ = false

abbrev pub block_frame : FrameKind → ℕ → List ValType → List ValType → ValidationFrame
block_frame kind height params results = record {
  kind = kind;
  height = height;
  params = params;
  results = results;
  label_types = elim kind [ FrameKind.loop ↦ params | _ ↦ results ];
  allow_else = is_if kind;
  unreachable = false;
}

-- The new frame starts below the parameters; the subtraction is `saturating_sub`.
unfoldable pub open_frame : FrameKind → List ValType → List ValType → Check (Unit {0})
open_frame kind params results = do
  frame ← top_frame
  require_types frame params
  n ← stack_height
  push_frame (block_frame kind (n - length params) params results)

-- `block`, `loop` and, behind its condition, `if`.
unfoldable pub validate_block : Module → List ℕ → FrameKind → Check (Unit {0})
unfolding open_frame
validate_block m code kind = do
  (params, results) ← read_block_signature m code
  open_frame kind params results

unfoldable pub validate_if : Module → List ℕ → Check (Unit {0})
unfolding validate_block
validate_if m code = do pop_type i32; validate_block m code FrameKind.if_

unfoldable pub close_then : ValidationFrame → Check (Unit {0})
close_then frame = do
  require "function {} has invalid else opcode" (is_if frame.kind && frame.allow_else)
  require_types frame frame.results
  require_exact_height frame
  truncate_types frame.height
  push_types frame.params

abbrev pub else_frame : ValidationFrame → ValidationFrame
else_frame frame = record frame { allow_else = false; unreachable = false }

unfoldable pub validate_else : Check (Unit {0})
unfolding close_then
validate_else = do
  frame ← top_frame_or "function {} has else without matching if"
  close_then frame
  set_top_frame (else_frame frame)

-- An `if` without an `else` leaves its parameters as its results.
abbrev pub else_missing : ValidationFrame → Bool
else_missing frame =
    is_if frame.kind && (frame.allow_else && not (val_types_eq frame.params frame.results))

unfoldable pub no_frames : Check Bool
no_frames s = ok (length s.control_frames == 0, s)

-- The stack ends at the frame's height, under its results.
unfoldable pub close_frame : ValidationFrame → Check Bool
close_frame frame = do
  require "function {} has if without else with mismatched param/result arity"
      (not (else_missing frame))
  require_types frame frame.results
  require_exact_height frame
  truncate_types frame.height
  push_types frame.results
  no_frames

-- The result says whether this was the last frame.
unfoldable pub finish_frame : Check Bool
unfolding close_frame
finish_frame = do frame ← pop_frame_or "function {} has unmatched end opcode"; close_frame frame

unfoldable pub validate_br : List ℕ → Check (Unit {0})
validate_br code = do
  depth ← read_uleb code
  label_types ← label_types_of depth
  pop_types label_types
  mark_unreachable

unfoldable pub validate_br_if : List ℕ → Check (Unit {0})
validate_br_if code = do
  depth ← read_uleb code
  pop_type i32
  label_types ← label_types_of depth
  frame ← top_frame
  require_types frame label_types

unfoldable pub read_labels : List ℕ → ℕ → Check (List ℕ)
read_labels code zero = pure []
read_labels code (suc count) = do
  depth ← read_uleb code
  labels ← read_labels code count
  pure (depth ∷ labels)

-- The targets have the label types of the default.
unfoldable pub same_labels : List ValType → List ℕ → Check (Unit {0})
same_labels default_types [] = pure tt
same_labels default_types (depth ∷ labels) = do
  label_types ← label_types_of depth
  require "function {} br_table targets must share the same label type"
      (val_types_eq label_types default_types)
  same_labels default_types labels

-- `Vec::with_capacity(count)`: `allocates` says which capacities the allocator grants.
unfoldable pub reserve : (ℕ → Bool) → ℕ → Check (Unit {0})
reserve allocates count = if allocates count then pure tt else unwrap none

unfoldable pub validate_br_table : (ℕ → Bool) → List ℕ → Check (Unit {0})
unfolding read_labels same_labels
validate_br_table allocates code = do
  count ← read_uleb code
  reserve allocates count
  labels ← read_labels code count
  fallback ← read_uleb code
  pop_type i32
  default_types ← label_types_of fallback
  frame ← top_frame
  if frame.unreachable then pure tt else same_labels default_types labels
  pop_types default_types
  mark_unreachable

abbrev pub first_results : List ValidationFrame → List ValType
first_results [] = []
first_results (frame ∷ _) = frame.results

unfoldable pub function_results : Check (List ValType)
function_results s = ok (first_results s.control_frames, s)

unfoldable pub validate_return : Check (Unit {0})
validate_return = do result_types ← function_results; pop_types result_types; mark_unreachable

unfoldable pub validate_call : Module → List ℕ → Check (Unit {0})
validate_call m code = do
  target ← read_uleb code
  target_type ← expect "function {} calls invalid function {}" (func_type m target)
  pop_types target_type.params
  push_types target_type.results

unfoldable pub validate_call_indirect : Module → List ℕ → Check (Unit {0})
validate_call_indirect m code = do
  type_idx ← read_uleb code
  table_idx ← read_uleb code
  target_type ← expect "function {} uses invalid type index {}" (type_at m type_idx)
  table_type ← expect "function {} uses invalid table index {}" (table_at m table_idx)
  require "function {} call_indirect requires a funcref table"
      (ref_type_eq table_type.elem_type RefType.func_ref)
  pop_type i32
  pop_types target_type.params
  push_types target_type.results
