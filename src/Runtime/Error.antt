-- ===== src/Runtime/Error.antt =====
-- crates/core/src/runtime/error.rs: trap codes, errors, and the results that carry them.
use wasmtiny.Base.{String}

pub data TrapCode : Type 0 where
  unreachable memory_out_of_bounds memory_limit_exceeded table_out_of_bounds : TrapCode
  indirect_call_type_mismatch stack_overflow execution_budget_exceeded : TrapCode
  integer_overflow integer_division_by_zero invalid_conversion_to_int : TrapCode
  call_indirect_null null_reference host_trap : TrapCode

-- A formatted message is its format string: the values put into it are left out.
pub data WasmError : Type 0 where
  validation load instantiate runtime limit_exceeded other : String → WasmError
  trap : TrapCode → WasmError
  unexpected_eof : WasmError

pub data Result {ℓ} (A : Type ℓ) : Type ℓ where
  ok : A → Result A
  err : WasmError → Result A

infixl 5 ◌>>=◌
abbrev pub ◌>>=◌ {ℓ κ} : {A : Type ℓ} {B : Type κ} → Result A → (A → Result B) → Result B
◌>>=◌ m next = elim m [ err e ↦ err e | ok x ↦ next x ]
