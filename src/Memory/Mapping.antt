-- ===== src/Memory/Mapping.antt =====
-- crates/core/src/memory.rs: mapping shared regions into a memory and out of it, and clones.
-- A region's length is that of whole pages, as the registry allocates it: the pages that the system
-- replaces are those of the length. A call that fails is taken to replace none.
use wasmtiny.Base.{
  ℕ, ◌+◌, ◌-◌, ◌*◌, ◌/◌, ◌%◌, ◌^◌, Bool, true, false, not, ◌||◌, Option, none, some, List, [], ◌∷◌,
  ◌++◌, ltb, leb, ◌&&◌, ◌==◌, if◌then◌else◌,
}
use wasmtiny.Runtime.Error.{Result, ok, err, WasmError}
use wasmtiny.Memory.{
  Memory, SharedRange, RegionProt, page_size_bytes, mprotect_range, try_new, grow, size,
}
use wasmtiny.Memory.System.{Os, OsCall, Prot}
use wasmtiny.Memory.Access.{range_start, Regions, peek}

unfoldable pub is_mapped : List SharedRange → ℕ → Bool
is_mapped [] id = false
is_mapped (r ∷ rs) id = (r.region_id == id) || is_mapped rs id

unfoldable pub find_region : List SharedRange → ℕ → Option SharedRange
find_region [] id = none
find_region (r ∷ rs) id = if r.region_id == id then some r else find_region rs id

unfoldable pub retain_others : List SharedRange → ℕ → List SharedRange
retain_others [] id = []
retain_others (r ∷ rs) id =
    if r.region_id == id then retain_others rs id else r ∷ retain_others rs id

abbrev pub slot_outside : Option ℕ → ℕ → Bool
slot_outside none region_len = false
slot_outside (some slot) region_len = ltb region_len ((slot + 1) * page_size_bytes)

-- `region_len.div_ceil(page_size) * page_size`
abbrev pub aligned : ℕ → ℕ
aligned region_len = (region_len + (page_size_bytes - 1)) / page_size_bytes * page_size_bytes

abbrev pub mapped_range : ℕ → ℕ → ℕ → RegionProt → Option ℕ → SharedRange
mapped_range target region_len region_id prot slot = record {
  page_offset = (target / page_size_bytes) % 2 ^ 32;
  region_id = region_id;
  len = region_len % 2 ^ 32;
  prot = prot;
  reader_slot = slot;
}

-- The bytes of the range `[offset, offset + len)` are those of fresh pages: what was there is lost.
abbrev pub cleared : (ℕ → ℕ) → ℕ → ℕ → ℕ → ℕ
cleared owned offset len address =
    if leb offset address && ltb address (offset + len) then 0 else owned address

-- The pages of a range have been replaced, by a mapping or by none: owned bytes there are lost.
abbrev pub replaced : Memory → ℕ → ℕ → Memory
replaced m offset len = record m { owned = cleared m.owned offset len }

abbrev pub called : Memory → OsCall → Memory
called m call = record m { os_calls = call ∷ m.os_calls }

module _ (os : Os) where
  -- The protection of the mapped pages: read only, but for the page of the reader slot.
  abbrev pub protect_region : Memory → ℕ → ℕ → RegionProt → Option ℕ → Bool × Memory
  protect_region m target region_len RegionProt.read_write slot = (true, m)
  protect_region m target region_len RegionProt.read_only none =
      mprotect_range os m target region_len Prot.read
  protect_region m target region_len RegionProt.read_only (some slot) =
      let (done, m') = mprotect_range os m target region_len Prot.read in
      if done
      then mprotect_range os m' (target + slot * page_size_bytes) page_size_bytes Prot.read_write
      else (false, m')

  abbrev pub finish_mapping : ℕ → ℕ → RegionProt → Option ℕ → Bool × Memory → Result ℕ × Memory
  finish_mapping region_len region_id prot slot (true, m) =
      let target = m.next_shared_offset in
      (
        ok ((target / page_size_bytes) % 2 ^ 32),
        record m {
          shared_ranges =
              m.shared_ranges ++ (mapped_range target region_len region_id prot slot ∷ []);
        },
      )
  finish_mapping region_len region_id prot slot (false, m) = (
    err (WasmError.runtime "mprotect failed: {}"),
    record m {
      next_shared_offset = m.next_shared_offset + aligned region_len;
      os_calls = OsCall.unmap m.next_shared_offset region_len ∷ m.os_calls;
    },
  )

  -- The mapping at the offset that has been taken; a failure gives the offset back.
  abbrev pub map_taken : Memory → ℕ → ℕ → ℕ → RegionProt → Option ℕ → Result ℕ × Memory
  map_taken m region_fd region_len region_id prot slot =
      let target = m.next_shared_offset in
      let call = OsCall.map_shared region_fd target region_len in
      let freed = record m { next_shared_offset = target + aligned region_len } in
      if ltb m.capacity (target + region_len)
      then (
        err (WasmError.runtime "insufficient virtual address space for shared region mapping"),
        freed,
      )
      else if os m.os_calls call
      then finish_mapping region_len region_id prot slot
          (protect_region (replaced (called m call) target region_len) target region_len prot slot)
      else (
        err (WasmError.runtime "mmap(MAP_FIXED | MAP_SHARED) failed for shared region: {}"),
        called freed call,
      )

  unfoldable pub map_shared_region : Memory → ℕ → ℕ → ℕ → RegionProt → Option ℕ → Result ℕ × Memory
  map_shared_region m region_fd region_len region_id prot slot =
      if slot_outside slot region_len
      then (
        err (
            WasmError.runtime
              "reader_slot {} (byte range [{}, {})) is out of range for shared region of {} bytes"),
        m,
      )
      else if is_mapped m.shared_ranges region_id
      then (err (WasmError.runtime "shared region {} is already attached to this memory"), m)
      else if ltb m.next_shared_offset (aligned region_len)
      then (
        err (WasmError.runtime "insufficient virtual address space for shared region mapping"),
        m,
      )
      else map_taken (record m { next_shared_offset = m.next_shared_offset - aligned region_len })
          region_fd region_len region_id prot slot

  abbrev pub unmap_range : Memory → ℕ → Option SharedRange → Result (Unit {0}) × Memory
  unmap_range m region_id none =
      (err (WasmError.runtime "shared region {} not mapped in this memory"), m)
  unmap_range m region_id (some r) =
      let unmap = OsCall.unmap (range_start r) r.len in
      let restore = OsCall.restore (range_start r) r.len in
      let m' = replaced (called m unmap) (range_start r) r.len in
      if not (os m.os_calls unmap)
      then (err (WasmError.runtime "munmap failed for shared region: {}"), called m unmap)
      else if not (os m'.os_calls restore)
      then (
        err (WasmError.runtime "mmap(PROT_NONE) failed to restore VA reservation after unmap: {}"),
        called m' restore,
      )
      else (
        ok tt,
        record (called m' restore) { shared_ranges = retain_others m.shared_ranges region_id },
      )

  unfoldable pub unmap_shared_region : Memory → ℕ → Result (Unit {0}) × Memory
  unmap_shared_region m region_id = unmap_range m region_id (find_region m.shared_ranges region_id)

  -- The first `len` bytes that the memory shows become the owned bytes of the copy.
  abbrev pub copied_from : Memory → Regions → Memory → Memory
  copied_from m regions new_mem = record new_mem {
    owned = λ address. if ltb address m.len then peek m regions address else new_mem.owned address;
    shared_ranges = [];
    next_shared_offset = new_mem.capacity;
  }

  abbrev grown_copy : Memory → Regions → Result ℕ × Memory → Option Memory
  grown_copy m regions (ok pages, new_mem) = some (copied_from m regions new_mem)
  grown_copy m regions (err e, new_mem) = none

  abbrev clone_into : Memory → Regions → Result Memory → Option Memory
  clone_into m regions (err e) = none
  clone_into m regions (ok new_mem) =
      if ltb (size new_mem) (size m)
      then grown_copy m regions (grow os new_mem (size m - size new_mem))
      else some (copied_from m regions new_mem)

  -- `none` is a panic.
  unfoldable pub clone : Memory → Regions → Option Memory
  clone m regions = clone_into m regions (try_new os m.mem_type)
