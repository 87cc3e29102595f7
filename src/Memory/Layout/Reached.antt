-- ===== src/Memory/Layout/Reached.antt =====
-- What holds of a memory after any run of operations.
use wasmtiny.Base.{
  ℕ, ◌+◌, ◌-◌, ◌*◌, ◌≤◌, ◌<◌, ◌≡◌, Option, some, List, [], ◌∷◌, arith, ltb, if-elim, refl,
  get_elem?,
}
use wasmtiny.Runtime.Error.{Result, ok, err}
use wasmtiny.Runtime.Types.{MemoryType, limits_min}
use wasmtiny.Memory.{
  Memory, SharedRange, RegionProt, page_size_bytes, try_new, grow, protect_owned, capacity_of,
  reserved_pages, fresh, max_pages, guard_reserve_bytes,
}
use wasmtiny.Memory.System.{Os, OsCall, Prot}
use wasmtiny.Memory.Access.{range_start, range_end, find_shared_range, Regions, write}
use wasmtiny.Memory.Mapping.{map_shared_region, unmap_shared_region}
use wasmtiny.Memory.Layout.{IsLaidOut}
use wasmtiny.Memory.Layout.Stacked.{find_range-get_elem?}
use wasmtiny.Memory.Layout.Stores.{write-IsLaidOut}
use wasmtiny.Memory.Layout.Mapped.{map_shared_region-IsLaidOut}
use wasmtiny.Memory.Layout.Kept.{
  unmap_shared_region-IsLaidOut, grow-IsLaidOut, protect_owned-IsLaidOut,
}

-- The operations that a runtime performs on a memory.
pub data Op : Type 0 where
  map_region : ℕ → ℕ → ℕ → RegionProt → Option ℕ → Op
  unmap_region : ℕ → Op
  grow_by : ℕ → Op
  protect : ℕ → ℕ → Prot → Op
  store_bytes : ℕ → List ℕ → Op

module _ (os : Os) where
  abbrev perform : Op → Memory × Regions → Memory × Regions
  perform (map_region fd len id prot slot) (m, regions) =
      ((map_shared_region os m fd len id prot slot).1, regions)
  perform (unmap_region id) (m, regions) = ((unmap_shared_region os m id).1, regions)
  perform (grow_by delta) (m, regions) = ((grow os m delta).1, regions)
  perform (protect base len prot) (m, regions) = ((protect_owned os m base len prot).1, regions)
  perform (store_bytes offset bytes) (m, regions) = (write m regions offset bytes).1

  abbrev pub run : List Op → Memory × Regions → Memory × Regions
  run [] s = s
  run (op ∷ ops) s = run ops (perform op s)

  perform-IsLaidOut :
      (op : Op) (m : Memory) (regions : Regions)
      → IsLaidOut m
      → IsLaidOut (perform op (m, regions)).0
  perform-IsLaidOut (map_region fd len id prot slot) m regions h =
      map_shared_region-IsLaidOut os m fd len id prot slot h
  perform-IsLaidOut (unmap_region id) m regions h = unmap_shared_region-IsLaidOut os m id h
  perform-IsLaidOut (grow_by delta) m regions h = grow-IsLaidOut os m delta h
  perform-IsLaidOut (protect base len prot) m regions h =
      protect_owned-IsLaidOut os m base len prot h
  perform-IsLaidOut (store_bytes offset bytes) m regions h =
      write-IsLaidOut m regions offset bytes h

  run_lem :
      (ops : List Op) (m : Memory) (regions : Regions)
      → IsLaidOut m
      → IsLaidOut (run ops (m, regions)).0
  run_lem [] m regions h = h
  run_lem (op ∷ ops) m regions h =
      let (m', regions') = perform op (m, regions) in
      run_lem ops m' regions' (perform-IsLaidOut op m regions h)

  fresh-IsLaidOut :
      (ty : MemoryType) (made : List OsCall)
      → limits_min ty.limits ≤ max_pages
      → IsLaidOut (fresh ty made)
  fresh-IsLaidOut ty made le =
      (refl, ground (arith, le), ground (arith, le), omega arith, ground arith, omega arith, tt)

  abbrev IsLaidOutIfMade : Result Memory → Type 0
  IsLaidOutIfMade (ok m) = IsLaidOut m
  IsLaidOutIfMade (err e) = Unit

  try_new-IsLaidOut : (ty : MemoryType) → IsLaidOutIfMade (try_new os ty)
  unfolding try_new
  try_new-IsLaidOut ty =
      let reserve = OsCall.reserve (capacity_of (reserved_pages ty) + guard_reserve_bytes) in
      let commit = OsCall.protect 0 (limits_min ty.limits * page_size_bytes) Prot.read_write in
      if-elim IsLaidOutIfMade (ltb max_pages (limits_min ty.limits)) (λ _. tt)
        (λ few.
          if-elim IsLaidOutIfMade (os [] reserve)
            (λ _.
              if-elim IsLaidOutIfMade (ltb 0 (limits_min ty.limits * page_size_bytes))
                (λ _.
                  if-elim IsLaidOutIfMade (os (reserve ∷ []) commit)
                    (λ _. fresh-IsLaidOut ty (commit ∷ reserve ∷ []) (ground (arith, few)))
                    (λ _. tt))
                (λ _. fresh-IsLaidOut ty (reserve ∷ []) (ground (arith, few))))
            (λ _. tt))

  -- Whatever operations follow the creation of a memory, with whatever answers of the system: the
  -- owned pages are whole and within the reservation, the shared ranges are stacked downwards from
  -- its end without overlapping one another, and no region is mapped twice.
  pub run-IsLaidOut :
      (ty : MemoryType) (m : Memory) (regions : Regions) (ops : List Op)
      → try_new os ty ≡ ok m
      → IsLaidOut (run ops (m, regions)).0
  run-IsLaidOut ty m regions ops made = run_lem ops m regions (rw made at (try_new-IsLaidOut ty))

-- Every byte of every shared range is found in its own range: none hides another. (The memory is
-- laid out as every run of its operations leaves it.)
pub find_shared_range-get_elem? :
    (m : Memory) (k address : ℕ) (r : SharedRange)
    → IsLaidOut m
    → get_elem? m.shared_ranges k ≡ some r
    → range_start r ≤ address
    → address < range_end r
    → find_shared_range m address ≡ some (r, address - range_start r)
unfolding find_shared_range
find_shared_range-get_elem? m k address r (_, _, _, _, _, stacked, _) e le lt =
    find_range-get_elem? m.shared_ranges k m.capacity m.next_shared_offset address r stacked e le lt
