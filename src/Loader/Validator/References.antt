-- ===== src/Loader/Validator/References.antt =====
-- crates/core/src/loader/validator.rs: references, bulk memory and atomic instructions.
pub mod Declared
pub mod Steps
use wasmtiny.Base.{
  ℕ, ◌+◌, ◌*◌, ◌%◌, ◌^◌, Bool, true, false, not, ◌||◌, ◌&&◌, Option, none, some, List, [], ◌∷◌,
  get_elem?, length, ltb, leb, ◌==◌, if◌then◌else◌, bit_and, bit_or,
}
use wasmtiny.Runtime.Types.{ValType, RefType, TableType, is_reference, ref_type_eq}
use wasmtiny.Runtime.AtomicOp.{AtomicOpMeta, AtomicKind, lookup}
use wasmtiny.Runtime.Module.{
  Module, ElemSegment, ExportType, ExportKind, memory_at, table_at, func_type, count_imports,
  func_import,
}
use wasmtiny.Loader.Validator.{
  Check, ◌>>=◌, ◌>>◌, pure, fail, expect, require, unwrap, top_frame, push_types, pop_type, pop_any,
}
use wasmtiny.Loader.Validator.Immediates.{read_byte, read_uleb, skip_uleb, read_heap_type}
use wasmtiny.Loader.Validator.Opcodes.{i32, NumericOp, saturating_op, validate_numeric}

unfoldable pub is_valid_data_idx : Module → ℕ → Bool
is_valid_data_idx m idx = elim m.data_count [
  | none ↦ ltb idx (length m.segments)
  | some count ↦ ltb idx count
]

abbrev exports_func : ℕ → ExportKind → Bool
exports_func func_idx (ExportKind.func idx) = idx == func_idx
exports_func func_idx _ = false

unfoldable pub is_exported : ℕ → List ExportType → Bool
is_exported func_idx [] = false
is_exported func_idx (e ∷ exports) = exports_func func_idx e.kind || is_exported func_idx exports

-- The loop that decodes the index behind 0xD2, on the bytes from the cursor on. `none` is the panic
-- of a shift of 32 or more, which a build that checks overflow has.
unfoldable pub ref_func_index : ℕ → ℕ → List ℕ → Option ℕ
ref_func_index result shift [] = some result
ref_func_index result shift (byte ∷ bytes) =
    let result' = bit_or result (bit_and byte 0x7F * 2 ^ shift % 2 ^ 32) in
    let more = ref_func_index result' (shift + 7) bytes in
    if leb 32 shift then none else if bit_and byte 0x80 == 0 then some result' else more

abbrev is_index : ℕ → Option ℕ → Option Bool
is_index func_idx none = none
is_index func_idx (some result) = some (result == func_idx)

-- `return true` where the first test holds, and the panic of the first test before the second.
abbrev pub or_then : Option Bool → Option Bool → Option Bool
or_then none next = none
or_then (some true) next = some true
or_then (some false) next = next

unfoldable pub refers_to : ℕ → List ℕ → Option Bool
unfolding ref_func_index
refers_to func_idx [] = some false
refers_to func_idx (opcode ∷ bytes) =
    if opcode == 0xD2 then is_index func_idx (ref_func_index 0 0 bytes) else some false

unfoldable pub any_refers : ℕ → List (List ℕ) → Option Bool
unfolding refers_to
any_refers func_idx [] = some false
any_refers func_idx (init ∷ inits) = or_then (refers_to func_idx init) (any_refers func_idx inits)

unfoldable pub in_elements : ℕ → List ElemSegment → Option Bool
unfolding any_refers
in_elements func_idx [] = some false
in_elements func_idx (e ∷ elems) = or_then (any_refers func_idx e.init) (in_elements func_idx elems)

unfoldable pub is_declared_function : Module → ℕ → Option Bool
unfolding is_exported in_elements
is_declared_function m func_idx =
    if ltb func_idx (count_imports func_import m.imports % 2 ^ 32)
    then some true
    else if is_exported func_idx m.exports
    then some true
    else in_elements func_idx m.elems

unfoldable pub validate_ref_null : List ℕ → Check (Unit {0})
validate_ref_null code = do
  r ← read_heap_type "function {} has unsupported GC heap type: {}" code
  push_types (ValType.ref r ∷ [])

unfoldable pub validate_ref_is_null : Check (Unit {0})
validate_ref_is_null = do
  frame ← top_frame
  if frame.unreachable then push_types (i32 ∷ []) else (do
    value ← pop_any
    require "function {} ref.is_null requires a reference operand" (is_reference value)
    push_types (i32 ∷ []))

abbrev is_some : {A : Type 0} → Option A → Bool
is_some none = false
is_some (some _) = true

unfoldable pub validate_ref_func : Module → List ℕ → Check (Unit {0})
validate_ref_func m code = do
  target ← read_uleb code
  require "function {} references invalid function {}" (is_some (func_type m target))
  declared ← unwrap (is_declared_function m target)
  require "function {} uses ref.func on undeclared function {}" declared
  push_types (ValType.ref RefType.func_ref ∷ [])

-- Three operands that are `i32`.
unfoldable pub pop_three : Check (Unit {0})
pop_three = do pop_type i32; pop_type i32; pop_type i32

-- An element segment and a table that do not fit.
abbrev pub mismatched : ElemSegment → TableType → Bool
mismatched segment table =
    not (ref_type_eq segment.type_ table.elem_type) || (segment.nullable && not table.nullable)

unfoldable pub table_init : Module → List ℕ → Check (Unit {0})
table_init m code = do
  elem_idx ← read_uleb code
  table_idx ← read_uleb code
  segment ← expect "function {} uses invalid element segment {}" (get_elem? m.elems elem_idx)
  table ← expect "function {} uses invalid table index {}" (table_at m table_idx)
  require "function {} table.init type mismatch" (not (mismatched segment table))
  pop_three

unfoldable pub memory_init : Module → List ℕ → Check (Unit {0})
memory_init m code = do
  data_idx ← read_uleb code
  memory_idx ← read_uleb code
  require "function {} memory.init uses non-zero memory index {}" (memory_idx == 0)
  require "function {} uses invalid data segment {}" (is_valid_data_idx m data_idx)
  pop_three

unfoldable pub data_drop : Module → List ℕ → Check (Unit {0})
data_drop m code = do
  data_idx ← read_uleb code
  require "function {} uses invalid data segment {}" (is_valid_data_idx m data_idx)

unfoldable pub memory_copy : List ℕ → Check (Unit {0})
memory_copy code = do
  dst_memory ← read_uleb code
  src_memory ← read_uleb code
  require "function {} memory.copy uses non-zero memory index" (dst_memory == 0 && src_memory == 0)
  pop_three

unfoldable pub memory_fill : List ℕ → Check (Unit {0})
memory_fill code = do
  memory_idx ← read_uleb code
  require "function {} memory.fill uses non-zero memory index {}" (memory_idx == 0)
  pop_three

unfoldable pub elem_drop : Module → List ℕ → Check (Unit {0})
elem_drop m code = do
  elem_idx ← read_uleb code
  require "function {} uses invalid element segment {}" (is_some (get_elem? m.elems elem_idx))

unfoldable pub bulk_op : Module → List ℕ → ℕ → Check (Unit {0})
bulk_op m code subopcode =
    if subopcode == 8
    then memory_init m code
    else if subopcode == 9
    then data_drop m code
    else if subopcode == 10
    then memory_copy code
    else if subopcode == 11
    then memory_fill code
    else if subopcode == 12
    then table_init m code
    else if subopcode == 13
    then elem_drop m code
    else fail "function {} uses unsupported opcode fc/{:02x}"

unfoldable pub prefixed_op : Module → List ℕ → ℕ → Option NumericOp → Check (Unit {0})
prefixed_op m code subopcode none = bulk_op m code subopcode
prefixed_op m code subopcode (some op) = validate_numeric op

-- Behind 0xFC.
unfoldable pub validate_prefixed : Module → List ℕ → Check (Unit {0})
validate_prefixed m code = do
  subopcode ← read_uleb code
  prefixed_op m code subopcode (saturating_op subopcode)

-- `log2` of a width that the table has; 0 is not asked for.
abbrev pub log2_width : ℕ → ℕ
log2_width width = if width == 8 then 3 else if width == 4 then 2 else if width == 2 then 1 else 0

unfoldable pub atomic_memarg : List ℕ → ℕ → Check (Unit {0})
atomic_memarg code access_width = do
  align ← read_uleb code
  skip_uleb code
  require "function {} atomic 0xFE{:02x} alignment {} exceeds natural {}"
      (access_width == 0 || leb align (log2_width access_width))

unfoldable pub fence_byte : List ℕ → Check (Unit {0})
fence_byte code = do
  reserved ← read_byte code
  require "function {} atomic.fence reserved immediate must be 0x00" (reserved == 0)

unfoldable pub atomic_immediates : List ℕ → AtomicOpMeta → AtomicKind → Check (Unit {0})
atomic_immediates code op AtomicKind.fence = fence_byte code
atomic_immediates code op _ = atomic_memarg code op.access_width

-- The parameters are popped from the last to the first.
unfoldable pub pop_reversed : List ValType → Check (Unit {0})
pop_reversed [] = pure tt
pop_reversed (t ∷ types) = do pop_reversed types; pop_type t

unfoldable pub validate_atomic_instruction : Module → List ℕ → ℕ → Check (Unit {0})
unfolding pop_reversed
validate_atomic_instruction m code subopcode = do
  memory ← expect "function {} uses atomic instructions without a memory" (memory_at m 0)
  require "function {} uses atomic instructions on non-shared memory" memory.shared
  op ← expect "function {} uses unknown atomic subopcode 0xFE{:02x}" (lookup subopcode)
  atomic_immediates code op op.kind
  pop_reversed op.params
  push_types op.results

-- Behind 0xFE: `as u8` keeps the low byte of the subopcode.
unfoldable pub validate_atomic : Module → List ℕ → Check (Unit {0})
unfolding validate_atomic_instruction
validate_atomic m code = do
  subopcode ← read_uleb code
  validate_atomic_instruction m code (subopcode % 256)
