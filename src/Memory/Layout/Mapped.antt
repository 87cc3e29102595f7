-- ===== src/Memory/Layout/Mapped.antt =====
-- What mapping a region changes, and that it keeps the layout.
use wasmtiny.Base.{
  ℕ, ◌+◌, ◌-◌, ◌*◌, ◌/◌, ◌%◌, ◌^◌, ◌≤◌, ◌≡◌, Bool, true, false, Option, some, none, [], ◌∷◌, ◌++◌,
  arith, ltb, if-elim, ap, ◌∙◌, refl, ◌⊎◌, inl, inr,
}
use wasmtiny.Runtime.Error.{Result, ok, err}
use wasmtiny.Memory.{Memory, RegionProt, page_size_bytes, mprotect_range}
use wasmtiny.Memory.System.{Os, OsCall}
use wasmtiny.Memory.Mapping.{
  is_mapped, slot_outside, aligned, mapped_range, protect_region, finish_mapping, map_shared_region,
  called, cleared, replaced,
}
use wasmtiny.Memory.Layout.{IsLaidOut}
use wasmtiny.Memory.Layout.Stacked.{
  AreStacked-bounds, AreStacked-snoc, is_mapped-IsFresh, AreDistinct-snoc,
}
use wasmtiny.Memory.Layout.Same.{
  SameLayout, SameSpace, SameSpace→IsLaidOut, SameOutside, cleared-SameOutside,
}

not-ltb : {a b : ℕ} → ltb a b ≡ false → b ≤ a
not-ltb h = ground (arith, h)

sub-add_back : (n k : ℕ) → ltb k n ≡ false → k - n + n ≡ k
sub-add_back n k h = omega (arith, not-ltb h)

-- The offset below an aligned length is that of a page, whose number is below `2 ^ 32`.
pub page_of-aligned :
    (k len : ℕ)
    → k ≤ 2 ^ 32
    → k % page_size_bytes ≡ 0
    → aligned len ≤ k
    → (k - aligned len) / page_size_bytes % 2 ^ 32 * page_size_bytes ≡ k - aligned len
page_of-aligned k len small paged le = omega (arith, small, paged, le)

module _ (os : Os) where
  pub protect_region-SameLayout :
      (m : Memory) (target len : ℕ) (prot : RegionProt) (slot : Option ℕ)
      → SameLayout m (protect_region os m target len prot slot).1
  unfolding mprotect_range
  protect_region-SameLayout m target len RegionProt.read_write slot = ground arith
  protect_region-SameLayout m target len RegionProt.read_only none = ground arith
  protect_region-SameLayout m target len RegionProt.read_only (some slot) = ground arith

  -- A failing attach leaves the ranges, sizes and offsets as they were, and the owned bytes outside
  -- the pages that it was after; those under them too, unless the mapping itself was made.
  abbrev pub RefusedLaw : Memory → ℕ → ℕ → Memory → Type 0
  RefusedLaw m fd len m' =
      let target = m.next_shared_offset - aligned len in
      SameSpace m m'
      × SameOutside target len m m'
      × ((m'.owned ≡ m.owned) ⊎ (os m.os_calls (OsCall.map_shared fd target len) ≡ true))

  abbrev pub MapLaw : Memory → ℕ → ℕ → ℕ → RegionProt → Option ℕ → Result ℕ × Memory → Type 0
  MapLaw m fd len id prot slot (err e, m') = RefusedLaw m fd len m'
  MapLaw m fd len id prot slot (ok page, m') =
      let target = m.next_shared_offset - aligned len in
      (page * page_size_bytes ≡ target)
      × (is_mapped m.shared_ranges id ≡ false)
      × (slot_outside slot len ≡ false)
      × (aligned len ≤ m.next_shared_offset)
      × (target + len ≤ m.capacity)
      × (m'.next_shared_offset ≡ target)
      × (m'.shared_ranges ≡ m.shared_ranges ++ (mapped_range target len id prot slot ∷ []))
      × (m'.mem_type ≡ m.mem_type)
      × (m'.len ≡ m.len)
      × (m'.capacity ≡ m.capacity)
      × (m'.owned ≡ cleared m.owned target len)

  finish_mapping_law :
      (m m' : Memory) (fd len id : ℕ) (prot : RegionProt) (slot : Option ℕ) (done : Bool)
      → IsLaidOut m
      → slot_outside slot len ≡ false
      → is_mapped m.shared_ranges id ≡ false
      → ltb m.next_shared_offset (aligned len) ≡ false
      → ltb m.capacity (m.next_shared_offset - aligned len + len) ≡ false
      → os m.os_calls (OsCall.map_shared fd (m.next_shared_offset - aligned len) len) ≡ true
      → SameLayout
          (replaced
            (record m { next_shared_offset = m.next_shared_offset - aligned len })
            (m.next_shared_offset - aligned len)
            len)
          m'
      → MapLaw m fd len id prot slot (finish_mapping os len id prot slot (done, m'))
  finish_mapping_law m m' fd len id prot slot true h inside unmapped room fits mapped
        (ty, l, c, rs, next, o) =
      let (_, small, _, _, paged, stacked, _) = h in
      let below = AreStacked-bounds m.shared_ranges m.capacity m.next_shared_offset stacked in
      let le : aligned len ≤ m.next_shared_offset = not-ltb room in
      (
        ap (λ t. t / page_size_bytes % 2 ^ 32 * page_size_bytes) next
            ∙ page_of-aligned m.next_shared_offset len (omega (arith, small, below)) paged le,
        unmapped,
        inside,
        le,
        not-ltb fits,
        next,
        rw (next, rs),
        ty,
        l,
        c,
        o,
      )
  finish_mapping_law m m' fd len id prot slot false h inside unmapped room fits mapped
        (ty, l, c, rs, next, o) =
      (
        (
          ty,
          l,
          c,
          rs,
          ap (λ t. t + aligned len) next ∙ sub-add_back (aligned len) m.next_shared_offset room,
        ),
        cleared-SameOutside m m' (m.next_shared_offset - aligned len) len o,
        inr mapped,
      )

  pub map_shared_region_law :
      (m : Memory) (fd len id : ℕ) (prot : RegionProt) (slot : Option ℕ)
      → IsLaidOut m
      → MapLaw m fd len id prot slot (map_shared_region os m fd len id prot slot)
  unfolding map_shared_region
  map_shared_region_law m fd len id prot slot h =
      if-elim (MapLaw m fd len id prot slot) (slot_outside slot len) (λ _. same)
        (λ inside.
          if-elim (MapLaw m fd len id prot slot) (is_mapped m.shared_ranges id) (λ _. same)
            (λ unmapped.
              if-elim (MapLaw m fd len id prot slot) (ltb m.next_shared_offset (aligned len))
                (λ _. same)
                (λ room.
                  if-elim (MapLaw m fd len id prot slot)
                    (ltb m.capacity (m.next_shared_offset - aligned len + len))
                    (λ _. ((refl, refl, refl, refl, restored room), (λ address h. refl), inl refl))
                    (λ fits.
                      if-elim (MapLaw m fd len id prot slot)
                        (os m.os_calls
                          (OsCall.map_shared fd (m.next_shared_offset - aligned len) len))
                        (λ mapped.
                          let target = m.next_shared_offset - aligned len in
                          let taken = record m { next_shared_offset = target } in
                          let made =
                            replaced (called taken (OsCall.map_shared fd target len)) target len in
                          let (done, m') = protect_region os made target len prot slot in
                          let kept = protect_region-SameLayout made target len prot slot in
                          finish_mapping_law m m' fd len id prot slot done h inside unmapped room
                            fits mapped kept)
                        (λ _. (
                          (refl, refl, refl, refl, restored room),
                          (λ address h. refl),
                          inl refl,
                        ))))))
    where
      restored :
          ltb m.next_shared_offset (aligned len) ≡ false
          → m.next_shared_offset - aligned len + aligned len ≡ m.next_shared_offset
      restored room = sub-add_back (aligned len) m.next_shared_offset room

      same : RefusedLaw m fd len m
      same = ((refl, refl, refl, refl, refl), (λ address h. refl), inl refl)

  pub map_shared_region-IsLaidOut :
      (m : Memory) (fd len id : ℕ) (prot : RegionProt) (slot : Option ℕ)
      → IsLaidOut m
      → IsLaidOut (map_shared_region os m fd len id prot slot).1
  map_shared_region-IsLaidOut m fd len id prot slot h =
      laid_out (map_shared_region os m fd len id prot slot)
        (map_shared_region_law m fd len id prot slot h)
    where
      laid_out :
          (answer : Result ℕ × Memory) → MapLaw m fd len id prot slot answer → IsLaidOut answer.1
      laid_out (err e, m') (same, _, _) = SameSpace→IsLaidOut m m' same h
      laid_out (ok page, m') (at, unmapped, inside, le, fits, next, rs, ty, l, c, o) =
          let (cap, small, owned, whole, paged, stacked, distinct) = h in
          let target = m.next_shared_offset - aligned len in
          let below = AreStacked-bounds m.shared_ranges m.capacity m.next_shared_offset stacked in
          let at_page =
            page_of-aligned m.next_shared_offset len (omega (arith, small, below)) paged le in
          let stacked' =
            AreStacked-snoc m.shared_ranges m.capacity m.next_shared_offset
              (mapped_range target len id prot slot) stacked (omega (arith, at_page, le)) in
          let distinct' =
            AreDistinct-snoc m.shared_ranges (mapped_range target len id prot slot) distinct
              (is_mapped-IsFresh m.shared_ranges id unmapped) in
          rw (c, ty, l, rs, next)
            (cap, small, owned, whole, omega (arith, paged, le), rw at_page at stacked', distinct')
