-- ===== src/Memory/Layout/Kept.antt =====
-- The other operations of a memory keep its layout.
use wasmtiny.Base.{
  ℕ, ◌+◌, ◌-◌, ◌*◌, ◌%◌, ◌^◌, ◌≤◌, ◌≡◌, false, ◌||◌, Option, some, none, arith, ltb, leb, if-elim,
  not, Option-cases, inl, inr,
}
use wasmtiny.Runtime.Types.{limits_max}
use wasmtiny.Memory.{
  Memory, SharedRange, page_size_bytes, mprotect_range, grow, protect_owned, capacity_of,
  reserved_pages, extend, grown_pages, exceeds, max_pages,
}
use wasmtiny.Memory.System.{Os, OsCall, Prot}
use wasmtiny.Memory.Access.{range_start}
use wasmtiny.Memory.Mapping.{find_region, unmap_shared_region, unmap_range, called}
use wasmtiny.Memory.Layout.{IsLaidOut}
use wasmtiny.Memory.Layout.Stacked.{AreStacked-retain_others, AreDistinct-retain_others}
use wasmtiny.Memory.Layout.Same.{
  SameLayout, SameLayout→IsLaidOut, LeavesLaidOut, mprotect_range-SameLayout,
}

-- As many pages as the limits allow lie within the reservation.
grown-fits :
    (m : Memory) (pages : ℕ)
    → exceeds pages (limits_max m.mem_type.limits) ≡ false
    → ltb max_pages pages ≡ false
    → m.capacity ≡ capacity_of (reserved_pages m.mem_type)
    → pages * page_size_bytes ≤ m.capacity
grown-fits m pages within few cap = elim (Option-cases (limits_max m.mem_type.limits)) [
  | inl unlimited ↦ ground (arith, unlimited, cap, few)
  | inr (hi, e) ↦ ground (arith, e, cap, few, within)
]

module _ (os : Os) where
  pub unmap_shared_region-IsLaidOut :
      (m : Memory) (id : ℕ) → IsLaidOut m → IsLaidOut (unmap_shared_region os m id).1
  unfolding unmap_shared_region
  unmap_shared_region-IsLaidOut m id h = unmapped (find_region m.shared_ranges id)
    where
      unmapped : (r : Option SharedRange) → IsLaidOut (unmap_range os m id r).1
      unmapped none = h
      unmapped (some r) =
          let (cap, small, owned, whole, paged, stacked, distinct) = h in
          if-elim LeavesLaidOut (not (os m.os_calls (OsCall.unmap (range_start r) r.len))) (λ _. h)
            (λ _.
              if-elim LeavesLaidOut
                (not (
                  os (called m (OsCall.unmap (range_start r) r.len)).os_calls
                    (OsCall.restore (range_start r) r.len)))
                (λ _. h)
                (λ _. (
                  cap,
                  small,
                  owned,
                  whole,
                  paged,
                  AreStacked-retain_others m.shared_ranges m.capacity m.next_shared_offset id
                      stacked,
                  AreDistinct-retain_others m.shared_ranges id distinct,
                )))

  pub grow-IsLaidOut : (m : Memory) (delta : ℕ) → IsLaidOut m → IsLaidOut (grow os m delta).1
  unfolding grow
  grow-IsLaidOut m delta h =
      if-elim LeavesLaidOut (exceeds (grown_pages m delta) (limits_max m.mem_type.limits)) (λ _. h)
        (λ within.
          if-elim LeavesLaidOut (ltb max_pages (grown_pages m delta)) (λ _. h)
            (λ few.
              let (cap, small, owned, whole, paged, stacked, distinct) = h in
              let fits = grown-fits m (grown_pages m delta) within few cap in
              extended (grown_pages m delta * page_size_bytes) fits (omega arith)))
    where
      longer :
          (m' : Memory) (new_len : ℕ)
          → new_len ≤ m.capacity
          → new_len % page_size_bytes ≡ 0
          → IsLaidOut m
          → SameLayout m m'
          → IsLaidOut (record m' { len = new_len })
      longer m' new_len fits whole' (capacity, small, owned, whole, paged, stacked, distinct)
            (ty, l, c, rs, next, o) =
          rw (c, ty, rs, next) (capacity, small, fits, whole', paged, stacked, distinct)

      extended :
          (new_len : ℕ)
          → new_len ≤ m.capacity
          → new_len % page_size_bytes ≡ 0
          → LeavesLaidOut (extend os m new_len)
      extended new_len fits whole' =
          let (cap, small, owned, whole, paged, stacked, distinct) = h in
          if-elim LeavesLaidOut (ltb m.len new_len)
            (λ _.
              if-elim LeavesLaidOut (mprotect_range os m m.len (new_len - m.len) Prot.read_write).0
                (λ _.
                  longer (mprotect_range os m m.len (new_len - m.len) Prot.read_write).1 new_len
                    fits whole' h
                    (mprotect_range-SameLayout os m m.len (new_len - m.len) Prot.read_write))
                (λ _.
                  SameLayout→IsLaidOut m
                    (mprotect_range os m m.len (new_len - m.len) Prot.read_write).1
                    (mprotect_range-SameLayout os m m.len (new_len - m.len) Prot.read_write) h))
            (λ _. (cap, small, fits, whole', paged, stacked, distinct))

  pub protect_owned-IsLaidOut :
      (m : Memory) (base len : ℕ) (prot : Prot)
      → IsLaidOut m
      → IsLaidOut (protect_owned os m base len prot).1
  unfolding protect_owned mprotect_range
  protect_owned-IsLaidOut m base len prot h =
      if-elim LeavesLaidOut (leb (2 ^ 64) (base + len) || ltb m.len (base + len)) (λ _. h)
        (λ _. ground arith)
