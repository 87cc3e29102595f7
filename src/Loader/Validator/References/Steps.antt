-- ===== src/Loader/Validator/References/Steps.antt =====
-- The instructions on references, bulk memory and atomics keep the frames.
use wasmtiny.Base.{ℕ, refl, arith, Option-cases, inl, inr, List, [], ◌∷◌, Option, none, some}
use wasmtiny.Runtime.Types.{ValType}
use wasmtiny.Runtime.Module.{Module}
use wasmtiny.Runtime.AtomicOp.{AtomicOpMeta, AtomicKind}
use wasmtiny.Loader.Validator.{unwrap}
use wasmtiny.Loader.Validator.Keeps.{Keeps, Moved}
use wasmtiny.Loader.Validator.Keeps.Stack.{stack_rules}
use wasmtiny.Loader.Validator.Immediates.Steps.{read_rules}
use wasmtiny.Loader.Validator.Opcodes.{NumericOp}
use wasmtiny.Loader.Validator.Opcodes.Steps.{validate_numeric-Keeps}
use wasmtiny.Loader.Validator.References.{
  validate_ref_null, validate_ref_is_null, validate_ref_func, is_declared_function, pop_three,
  table_init, memory_init, data_drop, memory_copy, memory_fill, elem_drop, bulk_op, prefixed_op,
  validate_prefixed, atomic_memarg, fence_byte, atomic_immediates, pop_reversed,
  validate_atomic_instruction, validate_atomic,
}
use wasmtiny.Loader.Validator.References.Declared.{AreEnded, is_declared_function-ne-none}

module _ (code : List ℕ) where
  ruleset step_rules = (stack_rules, read_rules)

  pub ref_null-Keeps : Keeps code (validate_ref_null code)
  unfolding validate_ref_null
  ref_null-Keeps = search step_rules depth 20

  pub ref_is_null-Keeps : Keeps code validate_ref_is_null
  unfolding validate_ref_is_null
  ref_is_null-Keeps = search step_rules depth 20

  declared-Keeps :
      (m : Module) (target : ℕ)
      → AreEnded m.elems
      → Keeps code (unwrap (is_declared_function m target))
  unfolding Moved
  declared-Keeps m target ended = elim (Option-cases (is_declared_function m target)) [
    | inl panicked ↦ absurd (is_declared_function-ne-none m target ended panicked)
    | inr (b, e) ↦ rw e (record { at = λ s r. (refl, omega arith, r.inside) })
  ]

  pub ref_func-Keeps : (m : Module) → AreEnded m.elems → Keeps code (validate_ref_func m code)
  unfolding validate_ref_func
  ref_func-Keeps m ended = search (step_rules, declared-Keeps) depth 20

  pop_three-Keeps : Keeps code pop_three
  unfolding pop_three
  pop_three-Keeps = search step_rules depth 20

  ruleset bulk_rules = (step_rules, pop_three-Keeps)

  table_init-Keeps : (m : Module) → Keeps code (table_init m code)
  unfolding table_init
  table_init-Keeps m = search bulk_rules depth 20

  memory_init-Keeps : (m : Module) → Keeps code (memory_init m code)
  unfolding memory_init
  memory_init-Keeps m = search bulk_rules depth 20

  data_drop-Keeps : (m : Module) → Keeps code (data_drop m code)
  unfolding data_drop
  data_drop-Keeps m = search bulk_rules depth 20

  memory_copy-Keeps : Keeps code (memory_copy code)
  unfolding memory_copy
  memory_copy-Keeps = search bulk_rules depth 20

  memory_fill-Keeps : Keeps code (memory_fill code)
  unfolding memory_fill
  memory_fill-Keeps = search bulk_rules depth 20

  elem_drop-Keeps : (m : Module) → Keeps code (elem_drop m code)
  unfolding elem_drop
  elem_drop-Keeps m = search bulk_rules depth 20

  bulk_op-Keeps : (m : Module) (subopcode : ℕ) → Keeps code (bulk_op m code subopcode)
  unfolding bulk_op
  bulk_op-Keeps m subopcode =
      search
        (
          step_rules, table_init-Keeps, memory_init-Keeps, data_drop-Keeps, memory_copy-Keeps,
          memory_fill-Keeps, elem_drop-Keeps,
        )
        depth 20

  prefixed_op-Keeps :
      (m : Module) (subopcode : ℕ) (o : Option NumericOp)
      → Keeps code (prefixed_op m code subopcode o)
  unfolding prefixed_op
  prefixed_op-Keeps m subopcode none = bulk_op-Keeps m subopcode
  prefixed_op-Keeps m subopcode (some op) = validate_numeric-Keeps code op

  pub prefixed-Keeps : (m : Module) → Keeps code (validate_prefixed m code)
  unfolding validate_prefixed
  prefixed-Keeps m = search (step_rules, prefixed_op-Keeps) depth 20

  atomic_memarg-Keeps : (width : ℕ) → Keeps code (atomic_memarg code width)
  unfolding atomic_memarg
  atomic_memarg-Keeps width = search step_rules depth 20

  fence_byte-Keeps : Keeps code (fence_byte code)
  unfolding fence_byte
  fence_byte-Keeps = search step_rules depth 20

  atomic_immediates-Keeps :
      (op : AtomicOpMeta) (kind : AtomicKind) → Keeps code (atomic_immediates code op kind)
  unfolding atomic_immediates
  atomic_immediates-Keeps op AtomicKind.fence = fence_byte-Keeps
  atomic_immediates-Keeps op _ = atomic_memarg-Keeps op.access_width

  pop_reversed-Keeps : (types : List ValType) → Keeps code (pop_reversed types)
  unfolding pop_reversed
  pop_reversed-Keeps [] = search step_rules depth 20
  pop_reversed-Keeps (t ∷ types) = search (step_rules, pop_reversed-Keeps types) depth 20

  atomic_instruction-Keeps :
      (m : Module) (subopcode : ℕ) → Keeps code (validate_atomic_instruction m code subopcode)
  unfolding validate_atomic_instruction
  atomic_instruction-Keeps m subopcode =
      search (step_rules, atomic_immediates-Keeps, pop_reversed-Keeps) depth 20

  pub atomic-Keeps : (m : Module) → Keeps code (validate_atomic m code)
  unfolding validate_atomic
  atomic-Keeps m = search (step_rules, atomic_instruction-Keeps) depth 20

  pub ruleset reference_rules =
      (ref_null-Keeps, ref_is_null-Keeps, ref_func-Keeps, prefixed-Keeps, atomic-Keeps)
