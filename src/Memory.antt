-- ===== src/Memory.antt =====
-- crates/core/src/memory.rs: linear memory and the shared ranges mapped into it.
-- Bytes of the address space have two homes: owned pages belong to the memory, and the pages of a
-- shared range belong to its region, where every memory that maps the region sees them.
pub mod System
pub mod Access
pub mod Mapping
pub mod Layout
pub mod Growth
mod Tests
use wasmtiny.Base.{
  ℕ, ◌+◌, ◌-◌, ◌*◌, ◌/◌, ◌%◌, ◌^◌, Bool, true, false, not, ◌&&◌, ◌||◌, Option, none, some, List, [],
  ◌∷◌, ltb, leb, ◌==◌, if◌then◌else◌, min, max,
}
use wasmtiny.Runtime.Error.{Result, ok, err, WasmError}
use wasmtiny.Runtime.Types.{MemoryType, limits_min, limits_max}
use wasmtiny.Sync.Waiters.{WaiterMap, no_waiters}
use System.{Os, OsCall, Prot}

abbrev pub max_pages : ℕ
max_pages = 65536

abbrev pub page_size_bytes : ℕ
page_size_bytes = 65536

abbrev pub guard_reserve_bytes : ℕ
guard_reserve_bytes = page_size_bytes

pub data RegionProt : Type 0 where
  read_write read_only : RegionProt

-- The region's own pointer and waiters are found under `region_id`.
pub record SharedRange : Type 0 where
  pub page_offset : ℕ
  pub region_id : ℕ
  pub len : ℕ
  pub prot : RegionProt
  pub reader_slot : Option ℕ

-- `owned` are the owned bytes, by their offset from `ptr`; `os_calls` are the system calls made on
-- the address range, the latest first.
pub record Memory : Type 0 where
  pub mem_type : MemoryType
  pub len : ℕ
  pub capacity : ℕ
  pub shared_ranges : List SharedRange
  pub next_shared_offset : ℕ
  pub waiters : WaiterMap
  pub owned : ℕ → ℕ
  pub os_calls : List OsCall

abbrev pub max_or : Option ℕ → ℕ → ℕ
max_or none d = d
max_or (some m) d = m

-- `limits.max().unwrap_or(MAX_PAGES).min(MAX_PAGES).max(min_pages)`
abbrev pub reserved_pages : MemoryType → ℕ
reserved_pages ty =
    max (min (max_or (limits_max ty.limits) max_pages) max_pages) (limits_min ty.limits)

abbrev pub capacity_of : ℕ → ℕ
capacity_of pages = if pages == 0 then page_size_bytes else pages * page_size_bytes

abbrev pub fresh : MemoryType → List OsCall → Memory
fresh ty os_calls = record {
  mem_type = ty;
  len = limits_min ty.limits * page_size_bytes;
  capacity = capacity_of (reserved_pages ty);
  shared_ranges = [];
  next_shared_offset = capacity_of (reserved_pages ty);
  waiters = no_waiters;
  owned = λ _. 0;
  os_calls = os_calls;
}

module _ (os : Os) where
  -- The initial pages are made accessible; where that fails the reservation is released.
  abbrev pub commit_initial : MemoryType → List OsCall → Result Memory
  commit_initial ty made =
      if ltb 0 (limits_min ty.limits * page_size_bytes)
      then if os made (OsCall.protect 0 (limits_min ty.limits * page_size_bytes) Prot.read_write)
        then ok (
            fresh ty
              (OsCall.protect 0 (limits_min ty.limits * page_size_bytes) Prot.read_write ∷ made))
        else err (WasmError.runtime "mprotect failed: {}")
      else ok (fresh ty made)

  -- At most 65536 pages: none of the multiplications or additions can overflow `usize`.
  unfoldable pub try_new : MemoryType → Result Memory
  try_new ty =
      if ltb max_pages (limits_min ty.limits)
      then err (WasmError.instantiate "memory minimum {} pages exceeds supported limit {}")
      else if os [] (OsCall.reserve (capacity_of (reserved_pages ty) + guard_reserve_bytes))
      then commit_initial ty
          (OsCall.reserve (capacity_of (reserved_pages ty) + guard_reserve_bytes) ∷ [])
      else err (WasmError.instantiate "mmap failed to reserve {} bytes of virtual address space")

  unfoldable pub new : MemoryType → Result Memory
  new ty = try_new ty

unfoldable pub size : Memory → ℕ
size m = m.len / page_size_bytes

abbrev pub exceeds : ℕ → Option ℕ → Bool
exceeds n none = false
exceeds n (some hi) = ltb hi n

-- `old_size.saturating_add(delta)` on `u32`.
abbrev pub grown_pages : Memory → ℕ → ℕ
grown_pages m delta = min (m.len / page_size_bytes + delta) (2 ^ 32 - 1)

module _ (os : Os) where
  -- `mprotect_range`, which makes no call for an empty range: the result, with the calls made.
  unfoldable pub mprotect_range : Memory → ℕ → ℕ → Prot → Bool × Memory
  mprotect_range m offset len prot = if len == 0 then (true, m) else (
    os m.os_calls (OsCall.protect offset len prot),
    record m { os_calls = OsCall.protect offset len prot ∷ m.os_calls },
  )

  abbrev pub extend : Memory → ℕ → Result ℕ × Memory
  extend m new_byte_len =
      if ltb m.len new_byte_len
      then (let (done, m') = mprotect_range m m.len (new_byte_len - m.len) Prot.read_write in
          if done
          then (ok (size m), record m' { len = new_byte_len })
          else (err (WasmError.runtime "mprotect failed: {}"), m'))
      else (ok (size m), record m { len = new_byte_len })

  unfoldable pub grow : Memory → ℕ → Result ℕ × Memory
  grow m delta =
      if exceeds (grown_pages m delta) (limits_max m.mem_type.limits)
      then (err (WasmError.runtime "memory size exceeds maximum"), m)
      else if ltb max_pages (grown_pages m delta)
      then (err (WasmError.runtime "memory size exceeds maximum allowed"), m)
      else extend m (grown_pages m delta * page_size_bytes)

  unfoldable pub protect_owned : Memory → ℕ → ℕ → Prot → Result (Unit {0}) × Memory
  protect_owned m base len prot =
      if leb (2 ^ 64) (base + len) || ltb m.len (base + len)
      then (err (WasmError.runtime "guard range lies outside the owned memory"), m)
      else (let (done, m') = mprotect_range m base len prot in
          if done then (ok tt, m') else (err (WasmError.runtime "mprotect failed: {}"), m'))
