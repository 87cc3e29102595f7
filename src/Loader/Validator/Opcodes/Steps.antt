-- ===== src/Loader/Validator/Opcodes/Steps.antt =====
-- The numeric and the memory opcodes keep the frames.
use wasmtiny.Base.{ℕ, List}
use wasmtiny.Runtime.Types.{ValType}
use wasmtiny.Loader.Validator.{validate_unary_numeric, validate_binary_numeric}
use wasmtiny.Loader.Validator.Keeps.{Keeps}
use wasmtiny.Loader.Validator.Keeps.Stack.{stack_rules}
use wasmtiny.Loader.Validator.Opcodes.{
  NumericOp, unary, binary, validate_numeric, load, store, validate_memory_instruction,
}

module _ (code : List ℕ) where
  unary-Keeps : (operand result : ValType) → Keeps code (validate_unary_numeric operand result)
  unfolding validate_unary_numeric
  unary-Keeps operand result = search stack_rules depth 20

  binary-Keeps : (operand result : ValType) → Keeps code (validate_binary_numeric operand result)
  unfolding validate_binary_numeric
  binary-Keeps operand result = search stack_rules depth 20

  pub validate_numeric-Keeps : (op : NumericOp) → Keeps code (validate_numeric op)
  unfolding validate_numeric
  validate_numeric-Keeps (unary operand result) = unary-Keeps operand result
  validate_numeric-Keeps (binary operand result) = binary-Keeps operand result

  load-Keeps : (result : ValType) → Keeps code (load result)
  unfolding load
  load-Keeps result = search stack_rules depth 20

  store-Keeps : (operand : ValType) → Keeps code (store operand)
  unfolding store
  store-Keeps operand = search stack_rules depth 20

  pub memory-Keeps : (opcode : ℕ) → Keeps code (validate_memory_instruction opcode)
  unfolding validate_memory_instruction
  memory-Keeps opcode = search (stack_rules, load-Keeps, store-Keeps) depth 20
