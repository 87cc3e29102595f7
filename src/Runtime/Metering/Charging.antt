-- ===== src/Runtime/Metering/Charging.antt =====
-- What one charge does, and what any sequence of charges adds up to.
use wasmtiny.Base.{ℕ, ◌+◌, ◌≤◌, ◌<◌, ◌≡◌, ◌≢◌, ◌↔◌, none, some, List, [], ◌∷◌, arith}
use wasmtiny.Runtime.Error.{ok, err, WasmError, TrapCode}
use wasmtiny.Runtime.Metering.{
  InstanceMeter, u64_max, saturating_add, charge, ensure_memory_pages, set_memory_budget,
  unbounded_memory_budget,
}

-- A charge always lands, trapped or not: the count grows by the units and stops at the maximum.
-- The budgets stay, and the call traps exactly when units were charged and the new count is above
-- the execution budget.
pub charge_lem :
    (m : InstanceMeter) (units : ℕ)
    → m.executed ≤ u64_max
    → ((charge m units).1.executed ≡ saturating_add m.executed units)
      × ((charge m units).1.execution_budget ≡ m.execution_budget)
      × ((charge m units).1.memory_budget ≡ m.memory_budget)
      × (((charge m units).0 ≡ err (WasmError.trap TrapCode.execution_budget_exceeded))
          ↔ ((units ≢ 0) × (m.execution_budget < saturating_add m.executed units)))
unfolding charge
charge_lem m units h = (
  ground arith,
  ground arith,
  ground arith,
  (λ p. ground (arith, p), λ p. ground (arith, p.0, p.1)),
)

-- The charges of a list, in order; their results are dropped.
pub charge_all : InstanceMeter → List ℕ → InstanceMeter
charge_all m [] = m
charge_all m (u ∷ us) = charge_all (charge m u).1 us

abbrev pub sum : List ℕ → ℕ
sum [] = 0
sum (u ∷ us) = u + sum us

-- Any sequence of charges leaves the count at the sum of what was charged, or at the maximum: the
-- order of the charges, and how a total is cut into charges, make no difference to the count.
pub charge_all-sum :
    (m : InstanceMeter) (us : List ℕ)
    → m.executed ≤ u64_max
    → (charge_all m us).executed ≡ saturating_add m.executed (sum us)
unfolding charge_all
charge_all-sum m [] h = omega arith
charge_all-sum m (u ∷ us) h =
    let e : (charge m u).1.executed ≡ saturating_add m.executed u = (charge_lem m u h).0 in
    omega (arith, charge_all-sum (charge m u).1 us (omega arith), e)

-- After the memory budget is set, a grow to some total is refused exactly when a budget was given,
-- it is not the largest `u32`, and the total is above it.
pub ensure_memory_pages-set_memory_budget :
    (m : InstanceMeter) (b total : ℕ)
    → b ≢ unbounded_memory_budget
    → (ensure_memory_pages (set_memory_budget m none).1 total ≡ ok tt)
      × ((ensure_memory_pages (set_memory_budget m (some b)).1 total ≡ ok tt) ↔ (total ≤ b))
      × ((ensure_memory_pages (set_memory_budget m (some b)).1 total
            ≡ err (WasmError.trap TrapCode.memory_limit_exceeded))
          ↔ (b < total))
unfolding ensure_memory_pages set_memory_budget
ensure_memory_pages-set_memory_budget m b total h = (
  ground arith,
  (λ p. ground (arith, p), λ p. ground (arith, p)),
  (λ p. ground (arith, p), λ p. ground (arith, p)),
)
