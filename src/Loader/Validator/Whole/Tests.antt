-- ===== src/Loader/Validator/Whole/Tests.antt =====
-- The validation of a small module.
use wasmtiny.Base.{ℕ, ◌≡◌, ◌≢◌, refl, none, some, arith, true}
use wasmtiny.Runtime.Types.{Limits}
use wasmtiny.Runtime.Module.{func_type, memory_at, type_at, scan, count_imports}
use wasmtiny.Loader.Validator.Tests.{tiny, accepts_add, generous, tiny-AreEnded}
use wasmtiny.Loader.Validator.ConstExpr.Forward.{Returns}
use wasmtiny.Loader.Validator.Sections.{
  done, for_each, validate_imports, validate_functions, validate_instruction_set, validate_tables,
  validate_memories, validate_globals, globals_loop, validate_data, validate_elems,
}
use wasmtiny.Loader.Validator.Whole.{validate, validate_exports, exports_loop, validate_start}
use wasmtiny.Loader.Validator.Whole.Calls.{func_type-ne-none}
use wasmtiny.Loader.Validator.Whole.Memories.{IsBounded, memory_at-IsBounded}
use wasmtiny.Loader.Validator.Whole.Total.{validate-Returns}

validates_tiny : validate generous tiny ≡ done
unfolding validate validate_imports validate_functions validate_instruction_set validate_tables
    validate_memories validate_globals globals_loop validate_data validate_elems validate_exports
    exports_loop validate_start for_each count_imports type_at
validates_tiny = rw accepts_add refl

func_type-ne-none_example : func_type tiny 0 ≢ none
unfolding count_imports
func_type-ne-none_example =
    func_type-ne-none generous tiny 0 validates_tiny (omega arith) (omega arith)

tiny_memory : memory_at tiny 0 ≡ some (record { limits = Limits.min_max 1 2; shared = true })
unfolding memory_at scan
tiny_memory = refl

abbrev index : ℕ
index = 0

memory_at-IsBounded_example :
    (index ≡ 0) × IsBounded (record { limits = Limits.min_max 1 2; shared = true })
memory_at-IsBounded_example =
    memory_at-IsBounded generous tiny index (record { limits = Limits.min_max 1 2; shared = true })
      validates_tiny (omega arith) tiny_memory

validate-Returns_example : Returns (validate generous tiny)
validate-Returns_example = validate-Returns generous tiny (λ _. refl) tiny-AreEnded
