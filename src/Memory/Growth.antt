-- ===== src/Memory/Growth.antt =====
-- What growing a memory answers and changes.
use wasmtiny.Base.{
  ℕ, ◌+◌, ◌-◌, ◌*◌, ◌/◌, ◌≤◌, ◌≡◌, false, List, arith, ltb, if-elim, refl, ◌⊎◌, inl, inr, true, ◌↔◌,
  Option, ◌++◌, ◌∷◌, [], sym, ◌∙◌, ap,
}
use wasmtiny.Runtime.Error.{Result, ok, err}
use wasmtiny.Runtime.Types.{limits_max}
use wasmtiny.Memory.{
  Memory, RegionProt, page_size_bytes, max_pages, size, grow, extend, exceeds, grown_pages,
  mprotect_range,
}
use wasmtiny.Memory.System.{Os, OsCall, Prot}
use wasmtiny.Memory.Mapping.{aligned, mapped_range, map_shared_region}
use wasmtiny.Memory.Layout.{IsLaidOut}
use wasmtiny.Memory.Layout.Mapped.{MapLaw, map_shared_region_law, map_shared_region-IsLaidOut}
use wasmtiny.Memory.Layout.Same.{SameLayout, mprotect_range-SameLayout}

-- Growth that succeeds answers the size before; any other changes no size, range or byte.
abbrev pub GrowLaw : Memory → ℕ → Result ℕ × Memory → Type 0
GrowLaw m delta (err e, m') = SameLayout m m'
GrowLaw m delta (ok old, m') =
    (old ≡ size m)
    × (size m' ≡ size m + delta)
    × (m'.len ≡ m.len + delta * page_size_bytes)
    × (size m + delta ≤ max_pages)
    × (exceeds (size m + delta) (limits_max m.mem_type.limits) ≡ false)
    × (m'.shared_ranges ≡ m.shared_ranges)
    × (m'.next_shared_offset ≡ m.next_shared_offset)
    × (m'.owned ≡ m.owned)

module _ (os : Os) where
  -- Growth that succeeds answers the old size and adds `delta` whole pages, within the limit of
  -- the type and the supported pages, and keeps every range and every owned byte; growth that
  -- fails changes none of them. (The memory is laid out as every run of its operations leaves it.)
  pub grow_lem : (m : Memory) (delta : ℕ) → IsLaidOut m → GrowLaw m delta (grow os m delta)
  unfolding grow size
  grow_lem m delta h =
      if-elim (GrowLaw m delta) (exceeds (grown_pages m delta) (limits_max m.mem_type.limits))
        (λ _. same)
        (λ within.
          if-elim (GrowLaw m delta) (ltb max_pages (grown_pages m delta)) (λ _. same)
            (λ few.
              let pages : grown_pages m delta ≡ m.len / page_size_bytes + delta =
                ground (arith, few) in
              let (_, _, _, whole, _, _, _) = h in
              rw pages (
                extended ((m.len / page_size_bytes + delta) * page_size_bytes)
                  (omega (arith, whole)) (ground (arith, few)) (rw pages at within))))
    where
      same : SameLayout m m
      same = (refl, refl, refl, refl, refl, refl)

      longer :
          (m' : Memory) (new_len : ℕ)
          → new_len ≡ m.len + delta * page_size_bytes
          → m.len / page_size_bytes + delta ≤ max_pages
          → exceeds (m.len / page_size_bytes + delta) (limits_max m.mem_type.limits) ≡ false
          → SameLayout m m'
          → GrowLaw m delta (ok (size m), record m' { len = new_len })
      longer m' new_len len few within (ty, l, c, rs, next, o) =
          (refl, omega (arith, len), len, few, within, rs, next, o)

      extended :
          (new_len : ℕ)
          → new_len ≡ m.len + delta * page_size_bytes
          → m.len / page_size_bytes + delta ≤ max_pages
          → exceeds (m.len / page_size_bytes + delta) (limits_max m.mem_type.limits) ≡ false
          → GrowLaw m delta (extend os m new_len)
      extended new_len len few within =
          let kept = mprotect_range-SameLayout os m m.len (new_len - m.len) Prot.read_write in
          let m' = (mprotect_range os m m.len (new_len - m.len) Prot.read_write).1 in
          if-elim (GrowLaw m delta) (ltb m.len new_len)
            (λ _.
              if-elim (GrowLaw m delta)
                (mprotect_range os m m.len (new_len - m.len) Prot.read_write).0
                (λ _. longer m' new_len len few within kept) (λ _. kept))
            (λ _. longer m new_len len few within same)

  -- The limits allow the pages, and the system, where there are any to make accessible, does so.
  abbrev pub IsGranted : Memory → ℕ → List OsCall → Type 0
  IsGranted m delta made =
      (exceeds (size m + delta) (limits_max m.mem_type.limits) ≡ false)
      × (size m + delta ≤ max_pages)
      × ((delta ≡ 0)
          ⊎ (os made (OsCall.protect m.len (delta * page_size_bytes) Prot.read_write) ≡ true))

  pub grow_ok :
      (m : Memory) (delta : ℕ)
      → IsLaidOut m
      → IsGranted m delta m.os_calls
      → (grow os m delta).0 ≡ ok (size m)
  unfolding grow size mprotect_range
  grow_ok m delta (_, _, _, whole, _, _, _) (within, few, granted) =
      let pages : grown_pages m delta ≡ m.len / page_size_bytes + delta = omega (arith, few) in
      let more : (m.len / page_size_bytes + delta) * page_size_bytes - m.len
          ≡ delta * page_size_bytes =
        omega (arith, whole) in
      rw pages (ground (arith, within, few, more, granted))

  pub grow-IsGranted :
      (m : Memory) (delta : ℕ)
      → IsLaidOut m
      → (grow os m delta).0 ≡ ok (size m)
      → IsGranted m delta m.os_calls
  unfolding grow size mprotect_range
  grow-IsGranted m delta (_, _, _, whole, _, _, _) done =
      let more : (m.len / page_size_bytes + delta) * page_size_bytes - m.len
          ≡ delta * page_size_bytes =
        omega (arith, whole) in
      ground (arith, done, more)

  -- A region that was mapped, whatever it is and however low it lies, does not stand in the way of
  -- growth: a request is then granted exactly when the type's limit and the supported pages allow
  -- it and the system, asked after the calls that the mapping made, makes the pages accessible.
  -- The memory is then longer by these pages and still maps the region where it was mapped, also
  -- where the new pages reach over it; a refusal changes none of this. (The memory is laid out as
  -- every run of its operations leaves it.)
  pub grow-map_shared_region :
      (m : Memory) (fd len id : ℕ) (prot : RegionProt) (slot : Option ℕ) (page delta : ℕ)
      → IsLaidOut m
      → let (answer, m') = map_shared_region os m fd len id prot slot in
        let new = mapped_range (m.next_shared_offset - aligned len) len id prot slot in
        answer ≡ ok page
        → (((grow os m' delta).0 ≡ ok (size m)) ↔ IsGranted m delta m'.os_calls)
          × GrowLaw m' delta (grow os m' delta)
          × (m'.len ≡ m.len)
          × (m'.shared_ranges ≡ m.shared_ranges ++ (new ∷ []))
  unfolding size
  grow-map_shared_region m fd len id prot slot page delta h =
      mapped (map_shared_region os m fd len id prot slot)
        (map_shared_region_law os m fd len id prot slot h)
        (map_shared_region-IsLaidOut os m fd len id prot slot h)
    where
      granted_at :
          (m' : Memory)
          → (delta ≡ 0)
            ⊎ (os m'.os_calls (OsCall.protect m.len (delta * page_size_bytes) Prot.read_write)
                ≡ true)
          → m'.len ≡ m.len
          → (delta ≡ 0)
            ⊎ (os m'.os_calls (OsCall.protect m'.len (delta * page_size_bytes) Prot.read_write)
                ≡ true)
      granted_at m' (inl none_asked) l = inl none_asked
      granted_at m' (inr granted) l = inr (
          ap (λ n. os m'.os_calls (OsCall.protect n (delta * page_size_bytes) Prot.read_write)) l
          ∙ granted)

      mapped :
          (answer : Result ℕ × Memory)
          → MapLaw os m fd len id prot slot answer
          → IsLaidOut answer.1
          → answer.0 ≡ ok page
          → (((grow os answer.1 delta).0 ≡ ok (size m)) ↔ IsGranted m delta answer.1.os_calls)
            × GrowLaw answer.1 delta (grow os answer.1 delta)
            × (answer.1.len ≡ m.len)
            × (answer.1.shared_ranges
                ≡ m.shared_ranges
                  ++ (mapped_range (m.next_shared_offset - aligned len) len id prot slot ∷ []))
      mapped (err e, m') law h' done = absurd cc
      mapped (ok p, m') (at, unmapped, inside, le, room, next, rs, ty, l, c, o) h' done =
          let pages : size m' ≡ size m = ap (λ n. n / page_size_bytes) l in
          (
            (
              (λ answered.
                  rw (sym l, sym ty)
                    (grow-IsGranted m' delta h' (answered ∙ ap (λ n. ok n) (sym pages)))),
              λ (within, few, granted).
                  grow_ok m' delta h' (rw (l, ty) within, rw l few, granted_at m' granted l)
                  ∙ ap (λ n. ok n) pages,
            ),
            grow_lem m' delta h',
            l,
            rs,
          )
