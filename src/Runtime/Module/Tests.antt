-- ===== src/Runtime/Module/Tests.antt =====
-- The index spaces of a small module.
use wasmtiny.Base.{◌≡◌, ◌++◌, get_elem?, arith}
use wasmtiny.Runtime.Module.{
  table_at, memory_at, global_at, func_type, table_import, memory_import, global_import,
  func_import,
}
use wasmtiny.Runtime.Module.Spaces.{imported, bind, type_indices, index_spaces_lem}
use wasmtiny.Loader.Validator.Tests.{tiny}

index_spaces_lem_example :
    (table_at tiny 0 ≡ get_elem? (imported table_import tiny.imports ++ tiny.tables) 0)
    × (memory_at tiny 0 ≡ get_elem? (imported memory_import tiny.imports ++ tiny.memories) 0)
    × (global_at tiny 0 ≡ get_elem? (imported global_import tiny.imports ++ tiny.globals) 0)
    × (func_type tiny 0
        ≡ bind
            (get_elem? (imported func_import tiny.imports ++ type_indices tiny.funcs) 0)
            (get_elem? tiny.types))
index_spaces_lem_example = index_spaces_lem tiny 0 (omega arith)
