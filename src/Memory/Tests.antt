-- ===== src/Memory/Tests.antt =====
-- The theorems at concrete memories.
use wasmtiny.Base.{◌+◌, ◌*◌, ◌≤◌, ◌≡◌, refl, true, false, some, none, [], ◌∷◌, arith, ◌↔◌}
use wasmtiny.Runtime.Error.{ok}
use wasmtiny.Runtime.Types.{MemoryType, Limits}
use wasmtiny.Memory.{
  Memory, SharedRange, RegionProt, page_size_bytes, fresh, try_new, grow, size, mprotect_range,
}
use wasmtiny.Memory.System.{Os, OsCall, Prot}
use wasmtiny.Memory.Access.{Regions, peek, write}
use wasmtiny.Memory.Access.ReadWrite.{Written, read-write}
use wasmtiny.Memory.Mapping.{is_mapped, find_region, map_shared_region, unmap_shared_region}
use wasmtiny.Memory.Layout.{IsLaidOut}
use wasmtiny.Memory.Layout.Same.{SameOutside}
use wasmtiny.Memory.Layout.Reached.{Op, run, run-IsLaidOut}
use wasmtiny.Memory.Layout.Attach.{peek-map_shared_region, unmap_shared_region-map_shared_region}
use wasmtiny.Memory.Growth.{IsGranted, GrowLaw, grow-map_shared_region}

abbrev one_to_four : MemoryType
one_to_four = record { limits = Limits.min_max 1 4; shared = false }

-- One page owned, four reserved.
abbrev base : Memory
base = fresh one_to_four []

abbrev region : SharedRange
region = record {
  page_offset = 2;
  region_id = 7;
  len = 70000;
  prot = RegionProt.read_write;
  reader_slot = none;
}

-- The same with region 7 in its upper two pages.
abbrev attached : Memory
attached = record base { shared_ranges = region ∷ []; next_shared_offset = 131072 }

abbrev guarded : Memory
guarded = record base {
  shared_ranges = record region { prot = RegionProt.read_only; reader_slot = some 0 } ∷ [];
  next_shared_offset = 131072;
}

-- `base` as it is made.
abbrev base_made : Memory
base_made = fresh one_to_four (OsCall.protect 0 65536 Prot.read_write ∷ OsCall.reserve 327680 ∷ [])

-- Every call succeeds.
abbrev willing : Os
willing made call = true

abbrev zeroed : Regions
zeroed id address = 0

base-IsLaidOut : IsLaidOut base
base-IsLaidOut = (refl, omega arith, omega arith, refl, refl, omega arith, tt)

read-write_example :
    Written attached zeroed 131072 (5 ∷ 6 ∷ []) (write attached zeroed 131072 (5 ∷ 6 ∷ []))
read-write_example = read-write attached zeroed 131072 (5 ∷ 6 ∷ []) (tt, tt)

run-IsLaidOut_example :
    IsLaidOut
      (run willing
        (Op.grow_by 1 ∷ Op.map_region 9 70000 7 RegionProt.read_write none ∷ Op.unmap_region 7 ∷ [])
        (base_made, zeroed)).0
unfolding try_new
run-IsLaidOut_example =
    run-IsLaidOut willing one_to_four base_made zeroed
      (Op.grow_by 1 ∷ Op.map_region 9 70000 7 RegionProt.read_write none ∷ Op.unmap_region 7 ∷ [])
      refl

peek-map_shared_region_example :
    (peek
        (map_shared_region willing base 9 70000 7 RegionProt.read_write none).1
        zeroed
        (2 * page_size_bytes + 5)
      ≡ 0)
    × (2 * page_size_bytes + 70000 ≤ base.next_shared_offset)
unfolding map_shared_region is_mapped
peek-map_shared_region_example =
    peek-map_shared_region willing base zeroed 9 70000 7 RegionProt.read_write none 2 5
      base-IsLaidOut (omega arith) (omega arith) refl

unmap_shared_region-map_shared_region_example :
    let m' = (map_shared_region willing base 9 70000 7 RegionProt.read_write none).1 in
    let m'' = (unmap_shared_region willing m' 7).1 in
    (m''.shared_ranges ≡ []) × (m''.next_shared_offset ≡ 131072) × SameOutside 131072 70000 base m''
unfolding map_shared_region is_mapped unmap_shared_region find_region
unmap_shared_region-map_shared_region_example =
    unmap_shared_region-map_shared_region willing base 9 70000 7 RegionProt.read_write none 2
      base-IsLaidOut refl refl

-- Three more pages reach over the region at page 2.
grow-map_shared_region_example :
    let m' = (map_shared_region willing base 9 70000 7 RegionProt.read_write none).1 in
    (((grow willing m' 3).0 ≡ ok 1) ↔ IsGranted willing base 3 m'.os_calls)
    × GrowLaw m' 3 (grow willing m' 3)
    × (m'.len ≡ 65536)
    × (m'.shared_ranges ≡ region ∷ [])
unfolding map_shared_region is_mapped size
grow-map_shared_region_example =
    grow-map_shared_region willing base 9 70000 7 RegionProt.read_write none 2 3 base-IsLaidOut refl

grown_over :
    (grow willing (map_shared_region willing base 9 70000 7 RegionProt.read_write none).1 3).0
    ≡ ok 1
unfolding map_shared_region is_mapped grow mprotect_range size
grown_over = refl
