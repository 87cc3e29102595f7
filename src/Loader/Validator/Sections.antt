-- ===== src/Loader/Validator/Sections.antt =====
-- crates/core/src/loader/validator.rs: the sections of a module, and the whole validation.
-- The number of an entity, which is only put into messages, is left out.
use wasmtiny.Base.{
  ℕ, ◌+◌, Bool, true, false, not, ◌&&◌, Option, none, some, List, [], ◌∷◌, ◌++◌, length, ltb, leb,
  if◌then◌else◌, String,
}
use wasmtiny.Runtime.Error.{WasmError}
use wasmtiny.Runtime.Types.{
  FunctionType, ValType, NumType, Limits, TableType, MemoryType, GlobalType, limits_max,
  val_type_eq,
}
use wasmtiny.Runtime.Module.{
  Module, Func, Import, ImportKind, DataKind, ElemSegment, ElemKind, type_at, table_at,
  count_imports, table_import, memory_import, global_import,
}
use wasmtiny.Loader.Validator.{Checked, ok, err, BodyState}
use wasmtiny.Loader.Validator.References.{mismatched}
use wasmtiny.Loader.Validator.ConstExpr.{then_, validate_const_expr}
use wasmtiny.Loader.Validator.Body.{validate_function_body}

abbrev pub done : Checked (Unit {0})
done = ok tt

abbrev pub invalid : {A : Type 0} → String → Checked A
invalid message = err (WasmError.validation message)

-- An early return of an error.
abbrev pub refuse_if : Bool → String → Checked (Unit {0})
refuse_if b message = if b then invalid message else done

infixl 5 ◌>>◌
abbrev pub ◌>>◌ : {A : Type 0} → Checked (Unit {0}) → Checked A → Checked A
m >> next = then_ m λ _. next

-- A loop that returns the first error.
unfoldable pub for_each : {A : Type 0} → (A → Checked (Unit {0})) → List A → Checked (Unit {0})
for_each check [] = done
for_each check (x ∷ xs) = check x >> for_each check xs

abbrev pub function_ok : Module → Func → Checked (Unit {0})
function_ok m func =
    refuse_if (leb (length m.types) func.type_idx) "function {}: invalid type index"

unfoldable pub validate_functions : Module → Checked (Unit {0})
validate_functions m = for_each (function_ok m) m.funcs

abbrev pub import_ok : Module → ImportKind → Checked (Unit {0})
import_ok m (ImportKind.func type_idx) =
    refuse_if (leb (length m.types) type_idx) "import {}: invalid function type index"
import_ok m _ = done

unfoldable pub validate_imports : Module → Checked (Unit {0})
validate_imports m = for_each (λ i. import_ok m i.kind) m.imports

abbrev pub forget : Checked BodyState → Checked (Unit {0})
forget out = then_ out λ _. done

abbrev pub body_ok : (ℕ → Bool) → Module → Func → Option FunctionType → Checked (Unit {0})
body_ok allocates m func none = invalid "function {}: invalid type index"
body_ok allocates m func (some t) = forget (validate_function_body allocates m func t)

unfoldable pub validate_instruction_set : (ℕ → Bool) → Module → Checked (Unit {0})
validate_instruction_set allocates m =
    for_each (λ f. body_ok allocates m f (type_at m f.type_idx)) m.funcs

abbrev pub max_below_min : Limits → Bool
max_below_min (Limits.min_only _) = false
max_below_min (Limits.min_max lo hi) = ltb hi lo

unfoldable pub validate_tables : Module → Checked (Unit {0})
validate_tables m =
    for_each (λ t. refuse_if (max_below_min t.limits) "table {}: maximum less than minimum")
      m.tables

abbrev pub is_none : {A : Type 0} → Option A → Bool
is_none none = true
is_none (some _) = false

-- The checks of a memory's pages: 65536 is the most that 32 bits address.
abbrev pub pages_ok : Limits → Checked (Unit {0})
pages_ok (Limits.min_only lo) = refuse_if (ltb 65536 lo) "memory {}: minimum size too large"
pages_ok (Limits.min_max lo hi) =
    refuse_if (ltb 65536 lo) "memory {}: minimum size too large"
    >> refuse_if (ltb 65536 hi) "memory {}: maximum size too large"
    >> refuse_if (ltb hi lo) "memory {}: maximum less than minimum"

abbrev pub unbounded_shared : MemoryType → Bool
unbounded_shared memory = memory.shared && is_none (limits_max memory.limits)

abbrev pub memory_ok : MemoryType → Checked (Unit {0})
memory_ok memory =
    pages_ok memory.limits
    >> refuse_if (unbounded_shared memory) "memory {}: shared memory requires a maximum"

abbrev pub shared_import_ok : Option MemoryType → Checked (Unit {0})
shared_import_ok none = done
shared_import_ok (some memory) =
    refuse_if (unbounded_shared memory) "import {}: shared memory {} requires a maximum"

unfoldable pub validate_memories : Module → Checked (Unit {0})
validate_memories m =
    refuse_if (ltb 1 (length m.memories + count_imports memory_import m.imports))
      "multi-memory modules are not supported"
    >> for_each memory_ok m.memories
    >> for_each (λ i. shared_import_ok (memory_import i.kind)) m.imports

unfoldable pub imported_globals : List Import → List GlobalType
imported_globals [] = []
imported_globals (i ∷ imports) = elim (global_import i.kind) [
  | none ↦ imported_globals imports
  | some t ↦ t ∷ imported_globals imports
]

unfoldable pub available_globals : Module → List GlobalType
unfolding imported_globals
available_globals m = imported_globals m.imports ++ m.globals

-- An expression of one type.
abbrev pub typed_as : Module → List ℕ → List GlobalType → ValType → String → Checked (Unit {0})
typed_as m expr globals expected message =
    then_ (validate_const_expr m expr globals) λ t. refuse_if (not (val_type_eq t expected)) message

-- A number type or a reference type is every type, so that the first check of the source never
-- fails. A global may use those before it.
unfoldable pub globals_loop :
    Module → List (List ℕ) → List GlobalType → List GlobalType → Checked (Unit {0})
globals_loop m inits available [] = done
globals_loop m [] available (global ∷ globals) = invalid "global {}: missing init expression"
globals_loop m (init ∷ inits) available (global ∷ globals) =
    typed_as m init available global.content_type "global {}: init expression type mismatch"
    >> globals_loop m inits (available ++ (global ∷ [])) globals

unfoldable pub validate_globals : Module → Checked (Unit {0})
unfolding globals_loop
validate_globals m = globals_loop m m.global_inits (imported_globals m.imports) m.globals

abbrev i32 : ValType
i32 = ValType.num NumType.i32

abbrev pub data_ok : Module → DataKind → Checked (Unit {0})
data_ok m (DataKind.active memory_idx offset) =
    refuse_if (leb (length m.memories + count_imports memory_import m.imports) memory_idx)
      "data segment {}: invalid memory index"
    >> typed_as m offset (available_globals m) i32 "data segment {}: offset expression must be i32"
data_ok m DataKind.passive = done

unfoldable pub validate_data : Module → Checked (Unit {0})
validate_data m = for_each (λ s. data_ok m s.kind) m.segments

abbrev pub table_fits : ElemSegment → Option TableType → Checked (Unit {0})
table_fits segment none = invalid "element segment {}: invalid table index"
table_fits segment (some table) =
    refuse_if (mismatched segment table) "element segment {}: table element type mismatch"

abbrev pub elem_target_ok : Module → ElemSegment → ElemKind → Checked (Unit {0})
elem_target_ok m segment (ElemKind.active table_idx offset) =
    refuse_if (leb (length m.tables + count_imports table_import m.imports) table_idx)
      "element segment {}: invalid table index"
    >> typed_as m offset (available_globals m) i32
        "element segment {}: offset expression must be i32"
    >> table_fits segment (table_at m table_idx)
elem_target_ok m segment _ = done

abbrev pub elem_ok : Module → ElemSegment → Checked (Unit {0})
elem_ok m segment =
    elem_target_ok m segment segment.kind
    >> for_each
        (λ expr.
          typed_as m expr
            (if segment.generated_by_table_init
              then imported_globals m.imports
              else available_globals m)
            (ValType.ref segment.type_) "element segment {}: init expression type mismatch")
        segment.init

unfoldable pub validate_elems : Module → Checked (Unit {0})
validate_elems m = for_each (elem_ok m) m.elems
