-- ===== src/Runtime/Tests.antt =====
-- The theorems on values, tables, globals and meters at concrete inputs.
use wasmtiny.Base.{ℕ, ◌≤◌, ◌<◌, ◌≡◌, ◌↔◌, refl, true, false, none, some, List, [], ◌∷◌, ◌++◌, arith}
use wasmtiny.Base.Bytes.{to_le_bytes}
use wasmtiny.Runtime.Error.{err, WasmError, TrapCode}
use wasmtiny.Runtime.Types.{NumType, RefType, ValType, Limits, TableType}
use wasmtiny.Runtime.Values.{WasmValue, val_type, to_bytes, from_bytes}
use wasmtiny.Runtime.Values.RoundTrip.{from_bytes-to_bytes}
use wasmtiny.Runtime.Table.{Table}
use wasmtiny.Runtime.Table.Laws.{IsValid}
use wasmtiny.Runtime.Globals.{Global}
use wasmtiny.Runtime.Metering.{
  InstanceMeter, MeterCells, charge, invocation_cells, drain_invocation_cells, remaining_allowance,
}
use wasmtiny.Runtime.Metering.Invocation.{invocation_cells_trap_iff, drain_invocation_cells_lem}
use wasmtiny.Runtime.Metering.History.{Call, perform_all, IsConsistent, perform_all_monotone}

from_bytes-to_bytes_example :
    from_bytes (to_bytes (WasmValue.i32 0xdead_beef) ++ (7 ∷ []))
    ≡ some (WasmValue.i32 0xdead_beef, 5)
unfolding to_bytes to_le_bytes
from_bytes-to_bytes_example = from_bytes-to_bytes (WasmValue.i32 0xdead_beef) (7 ∷ []) (omega arith)

abbrev null_extern : List ℕ
null_extern = 4 ∷ 0x6f ∷ 9 ∷ []

abbrev strict_table : TableType
strict_table = record {
  elem_type = RefType.func_ref;
  nullable = false;
  limits = Limits.min_max 2 3;
}

abbrev loose_table : TableType
loose_table = record { elem_type = RefType.func_ref; nullable = true; limits = Limits.min_max 2 5 }

abbrev any_table : TableType
any_table = record { elem_type = RefType.func_ref; nullable = true; limits = Limits.min_only 0 }

-- Two null entries, at most three.
abbrev nulls : Table
nulls = record {
  type_ = loose_table;
  elems = WasmValue.null_ref RefType.func_ref ∷ WasmValue.null_ref RefType.func_ref ∷ [];
}

nulls-IsValid : IsValid nulls
unfolding val_type
nulls-IsValid = record { typed = (refl, (refl, tt)); indexable = omega arith; within = omega arith }

abbrev counter_global : Global
counter_global = record {
  type_ = record { content_type = ValType.num NumType.i32; mutable = true };
  value = WasmValue.i32 4;
}

abbrev metered : InstanceMeter
metered = record {
  executed = 90;
  execution_budget = 100;
  memory_budget = 4;
  saturation_logged = false;
}

invocation_cells_trap_iff_example :
    ((invocation_cells metered).budget < 11)
    ↔ ((charge metered 11).0 ≡ err (WasmError.trap TrapCode.execution_budget_exceeded))
invocation_cells_trap_iff_example =
    invocation_cells_trap_iff metered 11 (omega arith) (omega arith) (omega arith) (omega arith)

abbrev busy_cell : MeterCells
busy_cell = record { executed = 4; budget = 10 }

drain_example :
    let (remaining, m, cell) = drain_invocation_cells metered busy_cell in
    (m.executed ≡ 94)
    × (m.execution_budget ≡ 100)
    × (cell.executed ≡ 0)
    × (cell.budget ≡ remaining)
    × (remaining ≡ remaining_allowance m)
drain_example = drain_invocation_cells_lem metered busy_cell (omega arith)

abbrev calls : List Call
calls = Call.charge_units 3 ∷ Call.execution_budget none ∷ Call.take_snapshot 2 ∷ []

perform_all_example :
    IsConsistent (perform_all metered calls) × (90 ≤ (perform_all metered calls).executed)
perform_all_example =
    perform_all_monotone metered calls (record { fits = omega arith; reported = λ e. cc })
