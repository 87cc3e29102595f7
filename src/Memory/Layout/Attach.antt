-- ===== src/Memory/Layout/Attach.antt =====
-- What attaching a region shows, what detaching takes away, and what a refusal leaves.
use wasmtiny.Base.{
  ℕ, ◌+◌, ◌-◌, ◌*◌, ◌^◌, ◌≤◌, ◌<◌, ◌≡◌, true, not, Option, some, List, [], ◌∷◌, ◌++◌, arith, ◌==◌,
  if-elim, refl, sym, ap, ◌∙◌, get_elem?, length, Bool-cases, false, ◌⊎◌, ◌%◌, Option-cases, inl,
  inr,
}
use wasmtiny.Runtime.Error.{Result, ok, err}
use wasmtiny.Memory.{Memory, SharedRange, RegionProt, page_size_bytes}
use wasmtiny.Memory.System.{Os, OsCall}
use wasmtiny.Memory.Access.{range_start, Regions, peek}
use wasmtiny.Memory.Mapping.{
  map_shared_region, unmap_shared_region, unmap_range, aligned, mapped_range, find_region,
  retain_others, is_mapped, cleared,
}
use mathlib.Core.Path.{subst}
use wasmtiny.Memory.Layout.{IsLaidOut}
use wasmtiny.Memory.Layout.Stacked.{AreStacked-bounds, retain_others-snoc, is_mapped-IsFresh}
use wasmtiny.Memory.Layout.Same.{SameSpace, SameOutside, cleared-SameOutside}
use wasmtiny.Memory.Layout.Mapped.{
  page_of-aligned, MapLaw, map_shared_region_law, map_shared_region-IsLaidOut,
}
use wasmtiny.Memory.Layout.Reached.{find_shared_range-get_elem?}

get_elem?-snoc :
    {A : Type 0} → (xs : List A) (x : A) → get_elem? (xs ++ (x ∷ [])) (length xs) ≡ some x
get_elem?-snoc [] x = refl
get_elem?-snoc (y ∷ xs) x = get_elem?-snoc xs x

ok-injective : {a b : ℕ} → ◌≡◌ {A = Result ℕ} (ok a) (ok b) → a ≡ b
ok-injective e = cc

some-injective : {A : Type 0} {a b : A} → ◌≡◌ {A = Option A} (some a) (some b) → a ≡ b
some-injective e = cc

-- What lies outside a range lies outside one that starts with it and is no longer.
around :
    (address : ℕ) (r : SharedRange) (target len : ℕ)
    → range_start r ≡ target
    → r.len ≡ len % 2 ^ 32
    → (address < target) ⊎ (target + len ≤ address)
    → (address < range_start r) ⊎ (range_start r + r.len ≤ address)
around address r target len start size (inl below) = inl (omega (arith, below, start))
around address r target len start size (inr above) = inr (omega (arith, above, start, size))

module _ (os : Os) where
  -- An attach that succeeds answers the page from which the region's bytes are seen, below all
  -- that was mapped before. (The length of the region is below `2 ^ 32`, and the memory is laid
  -- out as every run of its operations leaves it.)
  pub peek-map_shared_region :
      (m : Memory) (regions : Regions) (fd len id : ℕ) (prot : RegionProt) (slot : Option ℕ)
      (page i : ℕ)
      → IsLaidOut m
      → len < 2 ^ 32
      → i < len
      → let (answer, m') = map_shared_region os m fd len id prot slot in
        answer ≡ ok page
        → (peek m' regions (page * page_size_bytes + i) ≡ regions id i)
          × (page * page_size_bytes + len ≤ m.next_shared_offset)
  unfolding peek
  peek-map_shared_region m regions fd len id prot slot page i h fits lt =
      attached (map_shared_region os m fd len id prot slot)
        (map_shared_region_law os m fd len id prot slot h)
        (map_shared_region-IsLaidOut os m fd len id prot slot h)
    where
      attached :
          (answer : Result ℕ × Memory)
          → MapLaw os m fd len id prot slot answer
          → IsLaidOut answer.1
          → answer.0 ≡ ok page
          → (peek answer.1 regions (page * page_size_bytes + i) ≡ regions id i)
            × (page * page_size_bytes + len ≤ m.next_shared_offset)
      attached (err e, m') law h' done = absurd cc
      attached (ok p, m') (at, unmapped, inside, le, room, next, rs, ty, l, c, o) h' done =
          let target = m.next_shared_offset - aligned len in
          let (_, small, _, _, paged, stacked, _) = h in
          let below = AreStacked-bounds m.shared_ranges m.capacity m.next_shared_offset stacked in
          let new = mapped_range target len id prot slot in
          let start : range_start new ≡ target =
            page_of-aligned m.next_shared_offset len (omega (arith, small, below)) paged le in
          let page_at : page * page_size_bytes ≡ target =
            ap (λ q. q * page_size_bytes) (ok-injective (sym done)) ∙ at in
          let last : get_elem? m'.shared_ranges (length m.shared_ranges) ≡ some new =
            rw rs (get_elem?-snoc m.shared_ranges new) in
          let found =
            find_shared_range-get_elem? m' (length m.shared_ranges) (page * page_size_bytes + i) new
              h' last (omega (arith, start, page_at)) (omega (arith, start, page_at, lt, fits)) in
          (rw (found) (ap (regions id) (omega (arith, start, page_at))), omega (arith, page_at, le))

  -- Only a region that is mapped can be detached; a refusal keeps the ranges. Owned bytes that lie
  -- under the mapped pages are lost.
  abbrev pub UnmapLaw : Memory → ℕ → Result (Unit {0}) × Memory → Type 0
  UnmapLaw m id (err e, m') = SameSpace m m'
  UnmapLaw m id (ok x, m') =
      (is_mapped m.shared_ranges id ≡ true)
      × (m'.shared_ranges ≡ retain_others m.shared_ranges id)
      × (m'.next_shared_offset ≡ m.next_shared_offset)
      × ((r : SharedRange) × (find_region m.shared_ranges id ≡ some r)
          × (m'.owned ≡ cleared m.owned (range_start r) r.len))

  find_region-is_mapped :
      (rs : List SharedRange) (id : ℕ) (r : SharedRange)
      → find_region rs id ≡ some r
      → is_mapped rs id ≡ true
  unfolding find_region is_mapped
  find_region-is_mapped [] id r e = cc
  find_region-is_mapped (s ∷ rs) id r e = elim (Bool-cases (s.region_id == id)) [
    | inl here ↦ ground (arith, here)
    | inr there ↦ ground (arith, there, e, find_region-is_mapped rs id r)
  ]

  find_region-snoc :
      (rs : List SharedRange) (id : ℕ) (r : SharedRange)
      → is_mapped rs id ≡ false
      → r.region_id ≡ id
      → find_region (rs ++ (r ∷ [])) id ≡ some r
  unfolding find_region is_mapped
  find_region-snoc [] id r un e = ground (arith, e)
  find_region-snoc (s ∷ rs) id r un e = elim (Bool-cases (s.region_id == id)) [
    | inl here ↦ ground (arith, here)
    | inr there ↦ ground (arith, there, find_region-snoc rs id r (ground (arith, un, there)) e)
  ]

  pub unmap_shared_region_law : (m : Memory) (id : ℕ) → UnmapLaw m id (unmap_shared_region os m id)
  unfolding unmap_shared_region
  unmap_shared_region_law m id = elim (Option-cases (find_region m.shared_ranges id)) [
    | inl absent ↦ rw absent (refl, refl, refl, refl, refl)
    | inr (r, e) ↦
        subst (λ o. UnmapLaw m id (unmap_range os m id o)) (sym e)
          (unmapped r e (find_region-is_mapped m.shared_ranges id r e))
  ]
    where
      unmapped :
          (r : SharedRange)
          → find_region m.shared_ranges id ≡ some r
          → is_mapped m.shared_ranges id ≡ true
          → UnmapLaw m id (unmap_range os m id (some r))
      unmapped r e mapped =
          let unmap = OsCall.unmap (range_start r) r.len in
          let restore = OsCall.restore (range_start r) r.len in
          if-elim (UnmapLaw m id) (not (os m.os_calls unmap)) (λ _. (refl, refl, refl, refl, refl))
            (λ _.
              if-elim (UnmapLaw m id) (not (os (unmap ∷ m.os_calls) restore))
                (λ _. (refl, refl, refl, refl, refl)) (λ _. (mapped, refl, refl, (r, e, refl))))

  unmapped_ok :
      (m : Memory) (id : ℕ) (answer : Result (Unit {0}) × Memory)
      → UnmapLaw m id answer
      → answer.0 ≡ ok tt
      → (answer.1.shared_ranges ≡ retain_others m.shared_ranges id)
        × (answer.1.next_shared_offset ≡ m.next_shared_offset)
        × ((r : SharedRange) × (find_region m.shared_ranges id ≡ some r)
            × (answer.1.owned ≡ cleared m.owned (range_start r) r.len))
  unmapped_ok m id (err e, m') law done = absurd cc
  unmapped_ok m id (ok x, m') (mapped, rs, next, found) done = (rs, next, found)

  -- Attaching a region and detaching it again, where both succeed, gives back the ranges that were
  -- mapped before, but not the offsets: the next region is mapped below the pages that became
  -- free. Owned bytes outside the pages of the region are as they were. (The memory is laid out as
  -- every run of its operations leaves it.)
  pub unmap_shared_region-map_shared_region :
      (m : Memory) (fd len id : ℕ) (prot : RegionProt) (slot : Option ℕ) (page : ℕ)
      → IsLaidOut m
      → let (answer, m') = map_shared_region os m fd len id prot slot in
        let (answer', m'') = unmap_shared_region os m' id in
        answer ≡ ok page
        → answer' ≡ ok tt
        → (m''.shared_ranges ≡ m.shared_ranges)
          × (m''.next_shared_offset ≡ m.next_shared_offset - aligned len)
          × SameOutside (m.next_shared_offset - aligned len) len m m''
  unmap_shared_region-map_shared_region m fd len id prot slot page h =
      detached (map_shared_region os m fd len id prot slot)
        (map_shared_region_law os m fd len id prot slot h)
    where
      detached :
          (answer : Result ℕ × Memory)
          → MapLaw os m fd len id prot slot answer
          → answer.0 ≡ ok page
          → let m'' = (unmap_shared_region os answer.1 id).1 in
            (unmap_shared_region os answer.1 id).0 ≡ ok tt
            → (m''.shared_ranges ≡ m.shared_ranges)
              × (m''.next_shared_offset ≡ m.next_shared_offset - aligned len)
              × SameOutside (m.next_shared_offset - aligned len) len m m''
      detached (err e, m') law done done' = absurd cc
      detached (ok p, m') (at, unmapped, inside, le, room, next, rs, ty, l, c, o) done done' =
          let target = m.next_shared_offset - aligned len in
          let (rs', next', (r, found, o')) =
            unmapped_ok m' id (unmap_shared_region os m' id) (unmap_shared_region_law m' id)
              done' in
          let new = mapped_range target len id prot slot in
          let (_, small, _, _, paged, stacked, _) = h in
          let below = AreStacked-bounds m.shared_ranges m.capacity m.next_shared_offset stacked in
          let start : range_start new ≡ target =
            page_of-aligned m.next_shared_offset len (omega (arith, small, below)) paged le in
          let it : some new ≡ some r =
            sym (find_region-snoc m.shared_ranges id new unmapped refl)
            ∙ ap (λ ranges. find_region ranges id) (sym rs)
            ∙ found in
          let r_start : range_start r ≡ target = ap range_start (some-injective (sym it)) ∙ start in
          let r_len : r.len ≡ len % 2 ^ 32 = ap SharedRange.len (some-injective (sym it)) in
          (
            rs'
                ∙ ap (λ ranges. retain_others ranges id) rs
                ∙ retain_others-snoc m.shared_ranges new
                    (is_mapped-IsFresh m.shared_ranges id unmapped),
            next' ∙ next,
            λ address outside.
                cleared-SameOutside m' (unmap_shared_region os m' id).1 (range_start r) r.len o'
                  address (around address r target len r_start r_len outside)
                ∙ cleared-SameOutside m m' target len o address outside,
          )
