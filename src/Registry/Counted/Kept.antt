-- ===== src/Registry/Counted/Kept.antt =====
-- The calls on a memory change counts and mappings alike.
use wasmtiny.Base.{
  ℕ, suc, ◌-◌, ◌^◌, ◌<◌, ◌≡◌, true, not, Option, none, some, arith, ◌==◌, ltb, if-elim,
  Option-cases, inl, inr, refl, ap,
}
use wasmtiny.Runtime.Error.{Result, ok, err, ◌>>=◌}
use wasmtiny.Memory.{Memory, RegionProt}
use wasmtiny.Memory.System.{Os}
use wasmtiny.Memory.Mapping.{
  is_mapped, map_shared_region, unmap_shared_region, mapped_range, aligned,
}
use wasmtiny.Memory.Layout.{IsLaidOut}
use wasmtiny.Memory.Layout.Mapped.{MapLaw, map_shared_region_law, map_shared_region-IsLaidOut}
use wasmtiny.Memory.Layout.Kept.{unmap_shared_region-IsLaidOut}
use wasmtiny.Memory.Layout.Attach.{UnmapLaw, unmap_shared_region_law}
use wasmtiny.Registry.{
  SharedMemoryRegistry, SharedRegion, ShmAnswers, find_entry, region, allocate_region,
  attach_region, detach_region, aligned_size, opened_region, max_region_size, make_region,
  new_region, attached, attach_found, detached, detach_found, allocated, allocate_made, next_id,
}
use wasmtiny.Registry.Counted.{count_of}
use wasmtiny.Registry.Counted.Entries.{is_mapped-snoc, is_mapped-retain_others}
use wasmtiny.Registry.Counted.Balance.{
  IsFreshAbove, IsBalanced, unchanged, same_ranges, added_to, taken_from, new_to,
}

-- A region is made with nothing attached.
abbrev pub IsUnattached : Result SharedRegion → Type 0
IsUnattached (ok r) = r.attachment_count ≡ 0
IsUnattached (err e) = Unit

pub make_region-IsUnattached : (shm : ShmAnswers) (size : ℕ) → IsUnattached (make_region shm size)
unfolding new_region
make_region-IsUnattached shm size =
    if-elim IsUnattached (size == 0) (λ _. tt) (λ _. sized (aligned_size size))
  where
    opened : (size : ℕ) → (fd : Option ℕ) → IsUnattached (opened_region shm size fd)
    opened size none = tt
    opened size (some fd) =
        if-elim IsUnattached (not shm.truncated) (λ _. tt)
          (λ _. if-elim IsUnattached (not shm.mapped) (λ _. tt) (λ _. refl))

    sized : (s : Result ℕ) → IsUnattached (s >>= new_region shm)
    sized (err e) = tt
    sized (ok n) =
        if-elim IsUnattached (n == 0) (λ _. tt)
          (λ _. if-elim IsUnattached (ltb max_region_size n) (λ _. tt) (λ _. opened n shm.opened))

module _ (os : Os) where
  pub attach_region-IsBalanced :
      (reg : SharedMemoryRegistry) (m : Memory) (id : ℕ) (prot : RegionProt) (slot : Option ℕ)
      → IsFreshAbove reg
      → IsLaidOut m
      → IsBalanced reg m (attach_region os reg m id prot slot).1
  unfolding attach_region region
  attach_region-IsBalanced reg m id prot slot fresh h =
      elim (Option-cases (find_entry reg.regions id)) [
        | inl absent ↦ rw absent (unchanged reg m fresh)
        | inr (r, e) ↦ rw e (
            answered r e (map_shared_region os m r.fd r.len id prot slot)
              (map_shared_region_law os m r.fd r.len id prot slot h))
      ]
    where
      answered :
          (r : SharedRegion)
          → find_entry reg.regions id ≡ some r
          → (answer : Result ℕ × Memory) → MapLaw os m r.fd r.len id prot slot answer
          → IsBalanced reg m (attached os reg id r answer).1
      answered r e (err x, m') ((ty, l, c, rs, next), _, _) = same_ranges reg m m' fresh rs
      answered r e (ok page, m') (at, unmapped, inside, le, room, next, rs, ty, l, c, o) =
          let range = mapped_range (m.next_shared_offset - aligned r.len) r.len id prot slot in
          added_to reg m m' id r range fresh e unmapped refl
            (λ i. rw rs (is_mapped-snoc m.shared_ranges range i))

  pub detach_region-IsBalanced :
      (reg : SharedMemoryRegistry) (m : Memory) (id : ℕ)
      → IsFreshAbove reg
      → (is_mapped m.shared_ranges id ≡ true → 0 < count_of (find_entry reg.regions id))
      → count_of (find_entry reg.regions id) < 2 ^ 64
      → IsBalanced reg m (detach_region os reg m id).1
  unfolding detach_region region
  detach_region-IsBalanced reg m id fresh pos few =
      elim (Option-cases (find_entry reg.regions id)) [
        | inl absent ↦ rw absent (unchanged reg m fresh)
        | inr (r, e) ↦
            rw e (answered r e (unmap_shared_region os m id) (unmap_shared_region_law os m id))
      ]
    where
      answered :
          (r : SharedRegion)
          → find_entry reg.regions id ≡ some r
          → (answer : Result (Unit {0}) × Memory) → UnmapLaw os m id answer
          → IsBalanced reg m (detached os reg id r answer).1
      answered r e (err x, m') (ty, l, c, rs, next) = same_ranges reg m m' fresh rs
      answered r e (ok x, m') (mapped, rs, next, o) =
          taken_from reg m m' id r fresh e mapped (rw e at (pos mapped)) (rw e at few)
            (λ i. rw rs (is_mapped-retain_others m.shared_ranges id i))

  pub allocate_region-IsBalanced :
      (shm : ShmAnswers) (reg : SharedMemoryRegistry) (m : Memory) (size : ℕ) (prot : RegionProt)
      → IsFreshAbove reg
      → IsLaidOut m
      → IsBalanced reg m (allocate_region os shm reg m size prot).1
  unfolding allocate_region
  allocate_region-IsBalanced shm reg m size prot fresh h =
      made (make_region shm size) (make_region-IsUnattached shm size)
    where
      later : IsFreshAbove (next_id reg)
      later i le = fresh i (omega (arith, le))

      answered :
          (r : SharedRegion)
          → r.attachment_count ≡ 0
          → (answer : Result ℕ × Memory)
          → MapLaw os m r.fd r.len reg.next_region_id prot none answer
          → IsBalanced reg m (allocated os (next_id reg) reg.next_region_id r answer).1
      answered r zero_count (err x, m') ((ty, l, c, rs, next), _, _) =
          same_ranges (next_id reg) m m' later rs
      answered r zero_count (ok page, m') (at, unmapped, inside, le, room, next, rs, ty, l, c, o) =
          let range =
            mapped_range (m.next_shared_offset - aligned r.len) r.len reg.next_region_id prot
              none in
          new_to reg m m' (record r { attachment_count = suc r.attachment_count }) fresh
            (λ i. ground (
              arith,
              ap (λ ranges. is_mapped ranges i) rs,
              is_mapped-snoc m.shared_ranges range i,
              zero_count,
            ))
            (λ _. unmapped) (omega (arith, zero_count))

      made :
          (r : Result SharedRegion)
          → IsUnattached r
          → IsBalanced reg m (allocate_made os reg m prot r).1
      made (err e) u = unchanged reg m fresh
      made (ok r) u =
          answered r u (map_shared_region os m r.fd r.len reg.next_region_id prot none)
            (map_shared_region_law os m r.fd r.len reg.next_region_id prot none h)

  pub attach_region-IsLaidOut :
      (reg : SharedMemoryRegistry) (m : Memory) (id : ℕ) (prot : RegionProt) (slot : Option ℕ)
      → IsLaidOut m
      → IsLaidOut (attach_region os reg m id prot slot).1.1
  unfolding attach_region region
  attach_region-IsLaidOut reg m id prot slot h = go (region reg id)
    where
      answered :
          (r : SharedRegion)
          → (answer : Result ℕ × Memory) → IsLaidOut answer.1
          → IsLaidOut (attached os reg id r answer).1.1
      answered r (ok page, m') h = h
      answered r (err e, m') h = h

      go : (r : Result SharedRegion) → IsLaidOut (attach_found os reg m id prot slot r).1.1
      go (err e) = h
      go (ok r) =
          answered r (map_shared_region os m r.fd r.len id prot slot)
            (map_shared_region-IsLaidOut os m r.fd r.len id prot slot h)

  pub detach_region-IsLaidOut :
      (reg : SharedMemoryRegistry) (m : Memory) (id : ℕ)
      → IsLaidOut m
      → IsLaidOut (detach_region os reg m id).1.1
  unfolding detach_region region
  detach_region-IsLaidOut reg m id h = go (region reg id)
    where
      answered :
          (r : SharedRegion)
          → (answer : Result (Unit {0}) × Memory) → IsLaidOut answer.1
          → IsLaidOut (detached os reg id r answer).1.1
      answered r (ok x, m') h = h
      answered r (err e, m') h = h

      go : (r : Result SharedRegion) → IsLaidOut (detach_found os reg m id r).1.1
      go (err e) = h
      go (ok r) = answered r (unmap_shared_region os m id) (unmap_shared_region-IsLaidOut os m id h)

  pub allocate_region-IsLaidOut :
      (shm : ShmAnswers) (reg : SharedMemoryRegistry) (m : Memory) (size : ℕ) (prot : RegionProt)
      → IsLaidOut m
      → IsLaidOut (allocate_region os shm reg m size prot).1.1
  unfolding allocate_region
  allocate_region-IsLaidOut shm reg m size prot h = go (make_region shm size)
    where
      answered :
          (r : SharedRegion)
          → (answer : Result ℕ × Memory) → IsLaidOut answer.1
          → IsLaidOut (allocated os (next_id reg) reg.next_region_id r answer).1.1
      answered r (ok page, m') h = h
      answered r (err e, m') h = h

      go : (r : Result SharedRegion) → IsLaidOut (allocate_made os reg m prot r).1.1
      go (err e) = h
      go (ok r) =
          answered r (map_shared_region os m r.fd r.len reg.next_region_id prot none)
            (map_shared_region-IsLaidOut os m r.fd r.len reg.next_region_id prot none h)
