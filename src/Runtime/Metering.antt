-- ===== src/Runtime/Metering.antt =====
-- crates/core/src/runtime/metering.rs: the fuel meter of an instance.
-- Each atomic cell is a field, and each method is one step on the whole meter.
pub mod Charging
pub mod Invocation
pub mod History
use wasmtiny.Base.{
  ℕ, ◌+◌, ◌-◌, ◌*◌, ◌^◌, Bool, true, false, Option, none, some, ltb, leb, ◌==◌, not, ◌&&◌,
  if◌then◌else◌, min,
}
use wasmtiny.Runtime.Error.{Result, ok, err, WasmError, TrapCode}

abbrev pub u64_max : ℕ
u64_max = 2 ^ 64 - 1

abbrev pub u32_max : ℕ
u32_max = 2 ^ 32 - 1

abbrev pub unbounded_budget : ℕ
unbounded_budget = u64_max

abbrev pub unbounded_memory_budget : ℕ
unbounded_memory_budget = u32_max

abbrev pub page_size_bytes : ℕ
page_size_bytes = 65536

pub record InstanceStats : Type 0 where
  pub executed_instructions : ℕ
  pub memory_pages : ℕ
  pub memory_bytes : ℕ

pub record MeterCells : Type 0 where
  pub executed : ℕ
  pub budget : ℕ

pub record InstanceMeter : Type 0 where
  pub executed : ℕ
  pub execution_budget : ℕ
  pub memory_budget : ℕ
  pub saturation_logged : Bool

abbrev pub new : InstanceMeter
new = record {
  executed = 0;
  execution_budget = unbounded_budget;
  memory_budget = unbounded_memory_budget;
  saturation_logged = false;
}

-- The log record itself is left out.
abbrev note_saturation : InstanceMeter → InstanceMeter
note_saturation m = record m { saturation_logged = true }

-- `u64::saturating_add`
abbrev pub saturating_add : ℕ → ℕ → ℕ
saturating_add a b = min (a + b) u64_max

-- The closure of `fetch_update`: `checked_add`, and at an overflow the report and `u64::MAX`.
add_units : InstanceMeter → ℕ → InstanceMeter
add_units m units =
    if leb (m.executed + units) u64_max
    then record m { executed = m.executed + units }
    else record (note_saturation m) { executed = u64_max }

unfoldable pub charge : InstanceMeter → ℕ → Result (Unit {0}) × InstanceMeter
unfolding add_units
charge m units = if units == 0 then (ok tt, m) else (
  (if ltb m.execution_budget (saturating_add m.executed units)
      then err (WasmError.trap TrapCode.execution_budget_exceeded)
      else ok tt),
  add_units m units,
)

unfoldable pub snapshot : InstanceMeter → ℕ → InstanceStats × InstanceMeter
snapshot m memory_pages = (
  record {
    executed_instructions = m.executed;
    memory_pages = memory_pages;
    memory_bytes = memory_pages * page_size_bytes;
  },
  (if m.executed == u64_max then note_saturation m else m),
)

unfoldable pub execution_state : InstanceMeter → ℕ × Option ℕ
execution_state m =
    (m.executed, (if m.execution_budget == unbounded_budget then none else some m.execution_budget))

abbrev allowance_of : ℕ × Option ℕ → ℕ
allowance_of (executed, some budget) = budget - executed
allowance_of (_, none) = unbounded_budget

-- `budget.saturating_sub(executed)`, which is `-` on ℕ.
unfoldable pub remaining_allowance : InstanceMeter → ℕ
unfolding execution_state
remaining_allowance m = allowance_of (execution_state m)

unfoldable pub invocation_cells : InstanceMeter → MeterCells
unfolding remaining_allowance
invocation_cells m = record { executed = 0; budget = remaining_allowance m }

-- The refreshed allowance, the meter and the drained cell. The result of `charge` is discarded.
unfoldable pub drain_invocation_cells : InstanceMeter → MeterCells → ℕ × InstanceMeter × MeterCells
unfolding charge remaining_allowance
drain_invocation_cells m cell =
    let m' = if not (cell.executed == 0) then (charge m cell.executed).1 else m in
    (remaining_allowance m', m', record { executed = 0; budget = remaining_allowance m' })

abbrev unwrap_or : Option ℕ → ℕ → ℕ
unwrap_or none d = d
unwrap_or (some x) d = x

unfoldable pub set_execution_budget : InstanceMeter → Option ℕ → Result (Unit {0}) × InstanceMeter
set_execution_budget m budget =
    (ok tt, record m { execution_budget = unwrap_or budget unbounded_budget })

unfoldable pub set_memory_budget : InstanceMeter → Option ℕ → Result (Unit {0}) × InstanceMeter
set_memory_budget m budget =
    (ok tt, record m { memory_budget = unwrap_or budget unbounded_memory_budget })

unfoldable pub ensure_memory_pages : InstanceMeter → ℕ → Result (Unit {0})
ensure_memory_pages m new_total_pages =
    if not (m.memory_budget == unbounded_memory_budget) && ltb m.memory_budget new_total_pages
    then err (WasmError.trap TrapCode.memory_limit_exceeded)
    else ok tt
