-- ===== src/Loader/Validator/Variables.antt =====
-- crates/core/src/loader/validator.rs: locals, globals, tables, `drop` and `select`, and memory.
pub mod Steps
use wasmtiny.Base.{
  ℕ, Bool, true, false, not, ◌&&◌, none, some, List, [], ◌∷◌, get_elem?, leb, ◌==◌, if◌then◌else◌,
}
use wasmtiny.Runtime.Types.{ValType, MemoryType, val_type_eq, is_reference, limits_max}
use wasmtiny.Runtime.Module.{Module, table_at, memory_at, global_at}
use wasmtiny.Loader.Validator.{
  Check, ◌>>=◌, ◌>>◌, pure, expect, require, push_types, pop_type, pop_any,
}
use wasmtiny.Loader.Validator.Immediates.{
  read_byte, read_uleb, skip_uleb, skip_sleb, skip_bytes, read_value_type_immediate,
}
use wasmtiny.Loader.Validator.Opcodes.{
  i32, i64, f32, f64, natural_exponent, validate_memory_instruction,
}

unfoldable pub local_at : List ℕ → List ValType → Check ValType
local_at code locals = do
  idx ← read_uleb code
  expect "function {} uses invalid local index {}" (get_elem? locals idx)

unfoldable pub validate_local_get : List ℕ → List ValType → Check (Unit {0})
validate_local_get code locals = do t ← local_at code locals; push_types (t ∷ [])

unfoldable pub validate_local_set : List ℕ → List ValType → Check (Unit {0})
validate_local_set code locals = do t ← local_at code locals; pop_type t

unfoldable pub validate_local_tee : List ℕ → List ValType → Check (Unit {0})
validate_local_tee code locals = do t ← local_at code locals; pop_type t; push_types (t ∷ [])

unfoldable pub validate_global_get : Module → List ℕ → Check (Unit {0})
validate_global_get m code = do
  idx ← read_uleb code
  global_type ← expect "function {} uses invalid global index {}" (global_at m idx)
  push_types (global_type.content_type ∷ [])

unfoldable pub validate_global_set : Module → List ℕ → Check (Unit {0})
validate_global_set m code = do
  idx ← read_uleb code
  global_type ← expect "function {} uses invalid global index {}" (global_at m idx)
  require "function {} writes immutable global {}" global_type.mutable
  pop_type global_type.content_type

unfoldable pub validate_table_get : Module → List ℕ → Check (Unit {0})
validate_table_get m code = do
  table_idx ← read_uleb code
  table_type ← expect "function {} uses invalid table index {}" (table_at m table_idx)
  pop_type i32
  push_types (ValType.ref table_type.elem_type ∷ [])

unfoldable pub validate_table_set : Module → List ℕ → Check (Unit {0})
validate_table_set m code = do
  table_idx ← read_uleb code
  table_type ← expect "function {} uses invalid table index {}" (table_at m table_idx)
  pop_type (ValType.ref table_type.elem_type)
  pop_type i32

unfoldable pub validate_drop : Check (Unit {0})
validate_drop = do _ ← pop_any; pure tt

unfoldable pub validate_select : Check (Unit {0})
validate_select = do
  pop_type i32
  rhs ← pop_any
  lhs ← pop_any
  require "function {} select operands must have matching types" (val_type_eq lhs rhs)
  require "function {} select requires an explicit result type for references"
      (not (is_reference lhs))
  push_types (lhs ∷ [])

unfoldable pub validate_typed_select : List ℕ → Check (Unit {0})
validate_typed_select code = do
  count ← read_uleb code
  require "function {} uses unsupported typed select arity {}" (count == 1)
  expected ← read_value_type_immediate code
  pop_type i32
  pop_type expected
  pop_type expected
  push_types (expected ∷ [])

abbrev pub unbounded_shared : MemoryType → Bool
unbounded_shared memory =
    memory.shared && (elim (limits_max memory.limits) [ none ↦ true | some _ ↦ false ])

-- Loads and stores.
unfoldable pub validate_access : Module → List ℕ → ℕ → Check (Unit {0})
validate_access m code opcode = do
  _ ← expect "function {} uses memory instructions without a memory" (memory_at m 0)
  align ← read_uleb code
  require "function {} memarg alignment exponent {align} exceeds natural alignment ({}-byte access)"
      (leb align (natural_exponent opcode))
  skip_uleb code
  validate_memory_instruction opcode

unfoldable pub page_count : Module → List ℕ → Bool → Check (Unit {0})
page_count m code grows = do
  memory ← expect "function {} uses memory instructions without a memory" (memory_at m 0)
  require "function {} uses memory.grow on shared memory without a maximum"
      (not (grows && unbounded_shared memory))
  immediate ← read_byte code
  require "function {} has invalid {} immediate {}" (immediate == 0)

unfoldable pub validate_memory_size : Module → List ℕ → Check (Unit {0})
validate_memory_size m code = do page_count m code false; push_types (i32 ∷ [])

unfoldable pub validate_memory_grow : Module → List ℕ → Check (Unit {0})
validate_memory_grow m code = do page_count m code true; pop_type i32; push_types (i32 ∷ [])

-- The constants, 0x41 to 0x44.
unfoldable pub validate_const : List ℕ → ℕ → Check (Unit {0})
validate_const code opcode =
    if opcode == 0x41
    then (do skip_sleb code; push_types (i32 ∷ []))
    else if opcode == 0x42
    then (do skip_sleb code; push_types (i64 ∷ []))
    else if opcode == 0x43
    then (do skip_bytes code 4; push_types (f32 ∷ []))
    else (do skip_bytes code 8; push_types (f64 ∷ []))
