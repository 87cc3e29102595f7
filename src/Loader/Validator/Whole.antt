-- ===== src/Loader/Validator/Whole.antt =====
-- crates/core/src/loader/validator.rs: the exports and the start function, and the whole validation.
mod Tests
pub mod Exports
pub mod Calls
pub mod Memories
pub mod Total
use text.Mathlib.Text.{◌==◌ as is_string}
use wasmtiny.Base.{
  ℕ, ◌+◌, ◌%◌, ◌^◌, Bool, true, false, not, ◌||◌, ◌&&◌, Option, none, some, List, [], ◌∷◌, length,
  ltb, leb, ◌==◌, if◌then◌else◌, String,
}
use wasmtiny.Runtime.Types.{FunctionType, MemoryType}
use wasmtiny.Runtime.Module.{
  Module, Import, ExportType, ExportKind, func_type, func_count, count_imports, func_import,
  table_import, memory_import, global_import,
}
use wasmtiny.Loader.Validator.{Checked, ok, err, panic, stuck}
use wasmtiny.Loader.Validator.Sections.{
  done, invalid, refuse_if, ◌>>◌, for_each, pages_ok, validate_imports, validate_functions,
  validate_instruction_set, validate_tables, validate_memories, validate_globals, validate_data,
  validate_elems,
}

-- The imported and the defined entities of a kind.
abbrev pub function_space : Module → ℕ
function_space m = length m.funcs + count_imports func_import m.imports

abbrev pub table_space : Module → ℕ
table_space m = length m.tables + count_imports table_import m.imports

abbrev pub memory_space : Module → ℕ
memory_space m = length m.memories + count_imports memory_import m.imports

abbrev pub global_space : Module → ℕ
global_space m = length m.globals + count_imports global_import m.imports

-- The index of an export. Tags are parsed and not validated.
abbrev pub export_ok : Module → ExportKind → Checked (Unit {0})
export_ok m (ExportKind.func idx) =
    refuse_if (leb (function_space m) idx) "export {}: invalid function index"
export_ok m (ExportKind.table idx) =
    refuse_if (leb (table_space m) idx) "export {}: invalid table index"
export_ok m (ExportKind.memory idx) =
    refuse_if (leb (memory_space m) idx) "export {}: invalid memory index"
export_ok m (ExportKind.global idx) =
    refuse_if (leb (global_space m) idx) "export {}: invalid global index"
export_ok m (ExportKind.tag idx) = done

abbrev pub is_seen : String → List String → Bool
is_seen name [] = false
is_seen name (s ∷ seen) = is_string s name || is_seen name seen

-- The names seen are a `HashSet`.
unfoldable pub exports_loop : Module → List String → List ExportType → Checked (Unit {0})
exports_loop m seen [] = done
exports_loop m seen (e ∷ exports) =
    refuse_if (is_seen e.name seen) "duplicate export name: {}"
    >> export_ok m e.kind
    >> exports_loop m (e.name ∷ seen) exports

unfoldable pub validate_exports : Module → Checked (Unit {0})
unfolding exports_loop
validate_exports m = exports_loop m [] m.exports

abbrev pub start_type_ok : Option FunctionType → Checked (Unit {0})
start_type_ok none = invalid "start function has invalid type"
start_type_ok (some t) =
    refuse_if (not (length t.params == 0) || not (length t.results == 0))
      "start function must have no params or results"

abbrev pub start_ok : Module → Option ℕ → Checked (Unit {0})
start_ok m none = done
start_ok m (some start_idx) =
    refuse_if (leb (func_count m) start_idx) "start function index out of bounds"
    >> start_type_ok (func_type m start_idx)

abbrev pub import_pages_ok : Option MemoryType → Checked (Unit {0})
import_pages_ok none = done
import_pages_ok (some memory) = pages_ok memory.limits

unfoldable pub validate_start : Module → Checked (Unit {0})
validate_start m =
    start_ok m m.start >> for_each (λ i. import_pages_ok (memory_import i.kind)) m.imports

-- `validate_types` accepts every module. `allocates` is the allocator: the capacities it grants.
unfoldable pub validate : (ℕ → Bool) → Module → Checked (Unit {0})
validate allocates m =
    validate_imports m
    >> validate_functions m
    >> validate_instruction_set allocates m
    >> validate_tables m
    >> validate_memories m
    >> validate_globals m
    >> validate_data m
    >> validate_elems m
    >> validate_exports m
    >> validate_start m
