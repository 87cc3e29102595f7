-- ===== src/Runtime/Metering/History.antt =====
-- The meter over a whole life: any sequence of calls, in any order.
use wasmtiny.Base.{ℕ, ◌≤◌, ◌≡◌, true, Option, List, [], ◌∷◌, arith}
use wasmtiny.Runtime.Metering.{
  InstanceMeter, MeterCells, u64_max, charge, snapshot, drain_invocation_cells,
  set_execution_budget, set_memory_budget,
}

-- A call on the shared meter by any of its users.
pub data Call : Type 0 where
  charge_units : ℕ → Call
  take_snapshot : ℕ → Call
  drain : MeterCells → Call
  execution_budget memory_budget : Option ℕ → Call

abbrev pub perform : InstanceMeter → Call → InstanceMeter
perform m (charge_units u) = (charge m u).1
perform m (take_snapshot pages) = (snapshot m pages).1
perform m (drain cell) = (drain_invocation_cells m cell).1
perform m (execution_budget b) = (set_execution_budget m b).1
perform m (memory_budget b) = (set_memory_budget m b).1

pub perform_all : InstanceMeter → List Call → InstanceMeter
perform_all m [] = m
perform_all m (c ∷ cs) = perform_all (perform m c) cs

-- The count fits its cell, and a report of saturation is never false.
pub record IsConsistent (m : InstanceMeter) : Type 0 where
  pub fits : m.executed ≤ u64_max
  pub reported : m.saturation_logged ≡ true → m.executed ≡ u64_max

perform_step :
    (m : InstanceMeter) (c : Call)
    → IsConsistent m
    → IsConsistent (perform m c) × (m.executed ≤ (perform m c).executed)
unfolding charge snapshot drain_invocation_cells set_execution_budget set_memory_budget
perform_step m (charge_units u) v = ground arith
perform_step m (take_snapshot pages) v = ground arith
perform_step m (drain cell) v = ground arith
perform_step m (execution_budget b) v = ground arith
perform_step m (memory_budget b) v = ground arith

-- Over any sequence of calls the count never falls, stays in its cell, and saturation is reported
-- only when the counter stands at its maximum.
pub perform_all_monotone :
    (m : InstanceMeter) (cs : List Call)
    → IsConsistent m
    → IsConsistent (perform_all m cs) × (m.executed ≤ (perform_all m cs).executed)
unfolding perform_all
perform_all_monotone m [] v = (v, omega arith)
perform_all_monotone m (c ∷ cs) v =
    let s = perform_step m c v in
    let r = perform_all_monotone (perform m c) cs s.0 in (r.0, omega (arith, s.1, r.1))
