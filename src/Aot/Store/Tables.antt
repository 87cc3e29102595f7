-- ===== src/Aot/Store/Tables.antt =====
-- The tables of compiled modules.
use wasmtiny.Base.{
  ℕ, ◌≤◌, ◌<◌, ◌≡◌, refl, sym, ap, ◌∙◌, Bool, true, false, Option, none, some, ltb, arith, min, max,
  if-elim, replicate,
}
use wasmtiny.Runtime.Error.{Result, ok, err}
use wasmtiny.Runtime.Types.{TableType, limits_max}
use wasmtiny.Aot.Store.{AotTable, with_initial, max_table_elements, max_or}

clamped :
    (declared initial : ℕ)
    → initial ≤ max_table_elements
    → min (max declared initial) max_table_elements ≡ max initial (min declared max_table_elements)
clamped declared initial few = omega (arith, few)

-- The room that is reserved for a table: the declared maximum, or `2 ^ 20` where there is none, cut
-- to `2 ^ 20`, and never less than the initial entries.
abbrev pub room : TableType → ℕ → ℕ
room ty initial =
    max initial (min (max_or (limits_max ty.limits) max_table_elements) max_table_elements)

-- A panic is a request above the cap; below it the allocator's answer for the room decides, and a
-- table that is made has that room and starts with its null entries.
abbrev pub TableLaw : (ℕ → Bool) → TableType → ℕ → Option (Result AotTable) → Type 0
TableLaw reserves ty initial none = max_table_elements < initial
TableLaw reserves ty initial (some (err e)) =
    (initial ≤ max_table_elements) × (reserves (room ty initial) ≡ false)
TableLaw reserves ty initial (some (ok table)) =
    (initial ≤ max_table_elements)
    × (reserves (room ty initial) ≡ true)
    × (table.cells ≡ replicate initial 0)
    × (table.reserved ≡ room ty initial)
    × (table.table_type ≡ ty)

-- To ask for more than `2 ^ 20` initial entries is a panic. Otherwise room is reserved for the
-- declared maximum, or for `2 ^ 20` entries where that is less or none is declared, and for the
-- initial entries at least: where the allocator refuses it there is an error, and where it grants
-- it a table of that room is made, with the initial entries null.
pub with_initial_lem :
    (reserves : ℕ → Bool) (ty : TableType) (initial : ℕ)
    → TableLaw reserves ty initial (with_initial reserves ty initial)
unfolding with_initial
with_initial_lem reserves ty initial =
    let declared = max_or (limits_max ty.limits) max_table_elements in
    let reservation = min (max declared initial) max_table_elements in
    if-elim (TableLaw reserves ty initial) (ltb max_table_elements initial)
      (λ above. ground (arith, above))
      (λ within.
        let few : initial ≤ max_table_elements = ground (arith, within) in
        let same : reservation ≡ room ty initial = clamped declared initial few in
        if-elim (TableLaw reserves ty initial) (reserves reservation)
          (λ granted. (few, ap reserves (sym same) ∙ granted, refl, same, refl))
          (λ refused. (few, ap reserves (sym same) ∙ refused)))
