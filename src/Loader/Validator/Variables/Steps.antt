-- ===== src/Loader/Validator/Variables/Steps.antt =====
-- The instructions on locals, globals, tables and memory keep the frames.
use wasmtiny.Base.{ℕ, List, Bool}
use wasmtiny.Runtime.Types.{ValType}
use wasmtiny.Runtime.Module.{Module}
use wasmtiny.Loader.Validator.Keeps.{Keeps}
use wasmtiny.Loader.Validator.Keeps.Stack.{stack_rules}
use wasmtiny.Loader.Validator.Immediates.Steps.{read_rules}
use wasmtiny.Loader.Validator.Opcodes.Steps.{memory-Keeps}
use wasmtiny.Loader.Validator.Variables.{
  local_at, validate_local_get, validate_local_set, validate_local_tee, validate_global_get,
  validate_global_set, validate_table_get, validate_table_set, validate_drop, validate_select,
  validate_typed_select, validate_access, page_count, validate_memory_size, validate_memory_grow,
  validate_const,
}

module _ (code : List ℕ) where
  ruleset step_rules = (stack_rules, read_rules)

  local_at-Keeps : (locals : List ValType) → Keeps code (local_at code locals)
  unfolding local_at
  local_at-Keeps locals = search step_rules depth 20

  pub local_get-Keeps : (locals : List ValType) → Keeps code (validate_local_get code locals)
  unfolding validate_local_get
  local_get-Keeps locals = search (step_rules, local_at-Keeps) depth 20

  pub local_set-Keeps : (locals : List ValType) → Keeps code (validate_local_set code locals)
  unfolding validate_local_set
  local_set-Keeps locals = search (step_rules, local_at-Keeps) depth 20

  pub local_tee-Keeps : (locals : List ValType) → Keeps code (validate_local_tee code locals)
  unfolding validate_local_tee
  local_tee-Keeps locals = search (step_rules, local_at-Keeps) depth 20

  pub global_get-Keeps : (m : Module) → Keeps code (validate_global_get m code)
  unfolding validate_global_get
  global_get-Keeps m = search step_rules depth 20

  pub global_set-Keeps : (m : Module) → Keeps code (validate_global_set m code)
  unfolding validate_global_set
  global_set-Keeps m = search step_rules depth 20

  pub table_get-Keeps : (m : Module) → Keeps code (validate_table_get m code)
  unfolding validate_table_get
  table_get-Keeps m = search step_rules depth 20

  pub table_set-Keeps : (m : Module) → Keeps code (validate_table_set m code)
  unfolding validate_table_set
  table_set-Keeps m = search step_rules depth 20

  pub drop-Keeps : Keeps code validate_drop
  unfolding validate_drop
  drop-Keeps = search step_rules depth 20

  pub select-Keeps : Keeps code validate_select
  unfolding validate_select
  select-Keeps = search step_rules depth 20

  pub typed_select-Keeps : Keeps code (validate_typed_select code)
  unfolding validate_typed_select
  typed_select-Keeps = search step_rules depth 20

  pub access-Keeps : (m : Module) (opcode : ℕ) → Keeps code (validate_access m code opcode)
  unfolding validate_access
  access-Keeps m opcode = search (step_rules, memory-Keeps) depth 20

  page_count-Keeps : (m : Module) (grows : Bool) → Keeps code (page_count m code grows)
  unfolding page_count
  page_count-Keeps m grows = search step_rules depth 20

  pub memory_size-Keeps : (m : Module) → Keeps code (validate_memory_size m code)
  unfolding validate_memory_size
  memory_size-Keeps m = search (step_rules, page_count-Keeps) depth 20

  pub memory_grow-Keeps : (m : Module) → Keeps code (validate_memory_grow m code)
  unfolding validate_memory_grow
  memory_grow-Keeps m = search (step_rules, page_count-Keeps) depth 20

  pub const-Keeps : (opcode : ℕ) → Keeps code (validate_const code opcode)
  unfolding validate_const
  const-Keeps opcode = search step_rules depth 20

  pub ruleset variable_rules = (
    local_get-Keeps, local_set-Keeps, local_tee-Keeps, global_get-Keeps, global_set-Keeps,
    table_get-Keeps, table_set-Keeps, drop-Keeps, select-Keeps, typed_select-Keeps, access-Keeps,
    memory_size-Keeps, memory_grow-Keeps, const-Keeps,
  )
