-- ===== src/Runtime/Metering/Invocation.antt =====
-- Invocation-local cells: nothing charged is lost, and the local check is the instance's.
use wasmtiny.Base.{ℕ, ◌≤◌, ◌<◌, ◌≡◌, ◌≢◌, ◌↔◌, refl, none, some, List, [], ◌∷◌, arith}
use wasmtiny.Runtime.Error.{err, WasmError, TrapCode}
use wasmtiny.Runtime.Metering.{
  InstanceMeter, MeterCells, u64_max, saturating_add, charge, remaining_allowance, invocation_cells,
  drain_invocation_cells, set_execution_budget, execution_state, unbounded_budget,
}
use wasmtiny.Runtime.Metering.Charging.{sum}

-- Draining moves the units of the cell to the instance: its count grows by them (up to the
-- maximum), the cell is left empty, and its new allowance, which is also the result, is what the
-- instance has left.
pub drain_invocation_cells_lem :
    (m : InstanceMeter) (cell : MeterCells)
    → m.executed ≤ u64_max
    → let (remaining, m', cell') = drain_invocation_cells m cell in
      (m'.executed ≡ saturating_add m.executed cell.executed)
      × (m'.execution_budget ≡ m.execution_budget)
      × (cell'.executed ≡ 0)
      × (cell'.budget ≡ remaining)
      × (remaining ≡ remaining_allowance m')
unfolding drain_invocation_cells
drain_invocation_cells_lem m cell h = (ground arith, ground arith, refl, refl, refl)

-- A fresh cell has less than `units` left, so that its first charge of them traps, exactly when
-- the instance meter itself would trap on that charge, with a budget or without. (The units are
-- not zero, and they and the counters fit `u64`.)
pub invocation_cells_trap_iff :
    (m : InstanceMeter) (units : ℕ)
    → m.executed ≤ u64_max
    → m.execution_budget ≤ u64_max
    → units ≤ u64_max
    → units ≢ 0
    → ((invocation_cells m).budget < units)
      ↔ ((charge m units).0 ≡ err (WasmError.trap TrapCode.execution_budget_exceeded))
unfolding invocation_cells charge
invocation_cells_trap_iff m units h b u nz = (λ p. ground (arith, p), λ p. ground (arith, p))

-- An invocation as its flush points: at each, the cell holds what was charged since the last.
pub flush_all : InstanceMeter → List ℕ → InstanceMeter
flush_all m [] = m
flush_all m (u ∷ us) =
    flush_all (drain_invocation_cells m (record { executed = u; budget = remaining_allowance m })).1
      us

-- Over any invocation the instance is billed the sum of all local charges, however they are
-- spread over the flush points, up to the maximum of the counter.
pub flush_all-sum :
    (m : InstanceMeter) (us : List ℕ)
    → m.executed ≤ u64_max
    → (flush_all m us).executed ≡ saturating_add m.executed (sum us)
unfolding flush_all
flush_all-sum m [] h = omega arith
flush_all-sum m (u ∷ us) h =
    let cell : MeterCells = record { executed = u; budget = remaining_allowance m } in
    let e : (drain_invocation_cells m cell).1.executed ≡ saturating_add m.executed u =
      (drain_invocation_cells_lem m cell h).0 in
    omega (arith, flush_all-sum (drain_invocation_cells m cell).1 us (omega arith), e)

-- A budget that is set is the budget that is reported, but for the largest `u64`, which reads as no
-- budget; the count is not touched.
pub execution_state-set_execution_budget :
    (m : InstanceMeter) (b : ℕ)
    → b ≢ unbounded_budget
    → (execution_state (set_execution_budget m (some b)).1 ≡ (m.executed, some b))
      × (execution_state (set_execution_budget m none).1 ≡ (m.executed, none))
      × (execution_state (set_execution_budget m (some unbounded_budget)).1 ≡ (m.executed, none))
unfolding execution_state set_execution_budget
execution_state-set_execution_budget m b h = (ground arith, ground arith, ground arith)
