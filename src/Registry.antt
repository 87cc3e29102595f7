-- ===== src/Registry.antt =====
-- crates/core/src/runtime/shared_memory.rs: `SharedMemoryRegistry` and its regions.
-- The registry works on the memories of the guests, each in a place of its own. `next_region_id`
-- counts regions made by the process and stays below `2 ^ 64`.
pub mod Host
pub mod Counted
mod Tests
use wasmtiny.Base.{
  ℕ, zero, suc, ◌+◌, ◌-◌, ◌*◌, ◌/◌, ◌%◌, ◌^◌, Bool, true, false, not, ◌&&◌, Option, none, some,
  List, [], ◌∷◌, length, ltb, leb, ◌==◌, if◌then◌else◌,
}
use wasmtiny.Runtime.Error.{Result, ok, err, WasmError, ◌>>=◌}
use wasmtiny.Sync.Waiters.{no_waiters, update}
use wasmtiny.Memory.{Memory, RegionProt, page_size_bytes}
use wasmtiny.Memory.System.{Os}
use wasmtiny.Memory.Access.{Regions, RegionWaiters}
use wasmtiny.Memory.Mapping.{map_shared_region, unmap_shared_region}

abbrev pub max_region_size : ℕ
max_region_size = 2 ^ 30

pub record SharedRegion : Type 0 where
  pub len : ℕ
  pub fd : ℕ
  pub attachment_count : ℕ

-- The bytes and the waiters of every region are kept by its id.
pub record SharedMemoryRegistry : Type 0 where
  pub next_region_id : ℕ
  pub regions : List (ℕ × SharedRegion)
  pub bytes : Regions
  pub waiters : RegionWaiters

-- The answers to `shm_open` (a descriptor or a failure), `ftruncate` and `mmap`.
pub record ShmAnswers : Type 0 where
  pub opened : Option ℕ
  pub truncated : Bool
  pub mapped : Bool

unfoldable pub default : SharedMemoryRegistry
default = record { next_region_id = 1; regions = []; bytes = λ _ _. 0; waiters = λ _. no_waiters }

abbrev pub opened_region : ShmAnswers → ℕ → Option ℕ → Result SharedRegion
opened_region shm size none = err (WasmError.runtime "shm_open failed: {}")
opened_region shm size (some fd) =
    if not shm.truncated
    then err (WasmError.runtime "ftruncate failed for shared region: {}")
    else if not shm.mapped
    then err (WasmError.runtime "mmap failed for shared region: {}")
    else ok (record { len = size; fd = fd; attachment_count = 0 })

-- `SharedRegion::new`
unfoldable pub new_region : ShmAnswers → ℕ → Result SharedRegion
new_region shm size =
    if size == 0
    then err (WasmError.runtime "shared region size must be greater than zero")
    else if ltb max_region_size size
    then err (WasmError.runtime "shared region size {} exceeds maximum {}")
    else opened_region shm size shm.opened

unfoldable pub find_entry : List (ℕ × SharedRegion) → ℕ → Option SharedRegion
find_entry [] id = none
find_entry ((i, r) ∷ entries) id = if i == id then some r else find_entry entries id

unfoldable pub remove_entry : List (ℕ × SharedRegion) → ℕ → List (ℕ × SharedRegion)
remove_entry [] id = []
remove_entry ((i, r) ∷ entries) id =
    if i == id then remove_entry entries id else (i, r) ∷ remove_entry entries id

-- The shared object behind the id, with its attachment count replaced.
unfoldable pub set_count : List (ℕ × SharedRegion) → ℕ → ℕ → List (ℕ × SharedRegion)
set_count [] id n = []
set_count ((i, r) ∷ entries) id n =
    if i == id
    then (i, record r { attachment_count = n }) ∷ entries
    else (i, r) ∷ set_count entries id n

abbrev pub found : Option SharedRegion → Result SharedRegion
found none = err (WasmError.runtime "shared region {} not found")
found (some r) = ok r

unfoldable pub region : SharedMemoryRegistry → ℕ → Result SharedRegion
region reg id = found (find_entry reg.regions id)

-- The size in whole pages, where it stays below `2 ^ 32`.
abbrev pub aligned_size : ℕ → Result ℕ
aligned_size size =
    if leb (2 ^ 32) ((size + (page_size_bytes - 1)) / page_size_bytes * page_size_bytes)
    then err (WasmError.runtime "shared region size overflow during alignment")
    else ok ((size + (page_size_bytes - 1)) / page_size_bytes * page_size_bytes)

-- The region for a request of `size` bytes.
abbrev pub make_region : ShmAnswers → ℕ → Result SharedRegion
make_region shm size =
    if size == 0
    then err (WasmError.runtime "shared region size must be greater than zero")
    else aligned_size size >>= new_region shm

-- `regions.insert` of a new region, whose bytes are zero and on which nobody waits.
abbrev pub insert : SharedMemoryRegistry → ℕ → SharedRegion → SharedMemoryRegistry
insert reg id r = record reg {
  regions = (id, r) ∷ reg.regions;
  bytes = update reg.bytes id (λ _. 0);
  waiters = update reg.waiters id no_waiters;
}

abbrev pub next_id : SharedMemoryRegistry → SharedMemoryRegistry
next_id reg = record reg { next_region_id = suc reg.next_region_id }

abbrev pub set_attachments : SharedMemoryRegistry → ℕ → ℕ → SharedMemoryRegistry
set_attachments reg id n = record reg { regions = set_count reg.regions id n }

-- `fetch_sub` on an atomic `usize`: it wraps at 0.
abbrev pub decremented : ℕ → ℕ
decremented n = (n + (2 ^ 64 - 1)) % 2 ^ 64

module _ (os : Os) where
  abbrev pub allocated :
      SharedMemoryRegistry
      → ℕ
      → SharedRegion
      → Result ℕ × Memory
      → Result (ℕ × ℕ) × (SharedMemoryRegistry × Memory)
  allocated reg id r (ok page, m) =
      (ok (id, page), (insert reg id (record r { attachment_count = suc r.attachment_count }), m))
  allocated reg id r (err e, m) = (err e, (reg, m))

  abbrev pub allocate_made :
      SharedMemoryRegistry
      → Memory
      → RegionProt
      → Result SharedRegion
      → Result (ℕ × ℕ) × (SharedMemoryRegistry × Memory)
  allocate_made reg m prot (err e) = (err e, (reg, m))
  allocate_made reg m prot (ok r) =
      allocated (next_id reg) reg.next_region_id r
        (map_shared_region os m r.fd r.len reg.next_region_id prot none)

  unfoldable pub allocate_region :
      ShmAnswers
      → SharedMemoryRegistry
      → Memory
      → ℕ
      → RegionProt
      → Result (ℕ × ℕ) × (SharedMemoryRegistry × Memory)
  allocate_region shm reg m size prot = allocate_made reg m prot (make_region shm size)

  abbrev pub attached :
      SharedMemoryRegistry
      → ℕ
      → SharedRegion
      → Result ℕ × Memory
      → Result ℕ × (SharedMemoryRegistry × Memory)
  attached reg id r (ok page, m) = (ok page, (set_attachments reg id (suc r.attachment_count), m))
  attached reg id r (err e, m) = (err e, (reg, m))

  abbrev pub attach_found :
      SharedMemoryRegistry
      → Memory
      → ℕ
      → RegionProt
      → Option ℕ
      → Result SharedRegion
      → Result ℕ × (SharedMemoryRegistry × Memory)
  attach_found reg m id prot slot (err e) = (err e, (reg, m))
  attach_found reg m id prot slot (ok r) =
      attached reg id r (map_shared_region os m r.fd r.len id prot slot)

  unfoldable pub attach_region :
      SharedMemoryRegistry
      → Memory
      → ℕ
      → RegionProt
      → Option ℕ
      → Result ℕ × (SharedMemoryRegistry × Memory)
  attach_region reg m id prot slot = attach_found reg m id prot slot (region reg id)

  abbrev pub detached :
      SharedMemoryRegistry
      → ℕ
      → SharedRegion
      → Result (Unit {0}) × Memory
      → Result (Unit {0}) × (SharedMemoryRegistry × Memory)
  detached reg id r (ok x, m) =
      (ok tt, (set_attachments reg id (decremented r.attachment_count), m))
  detached reg id r (err e, m) = (err e, (reg, m))

  abbrev pub detach_found :
      SharedMemoryRegistry
      → Memory
      → ℕ
      → Result SharedRegion
      → Result (Unit {0}) × (SharedMemoryRegistry × Memory)
  detach_found reg m id (err e) = (err e, (reg, m))
  detach_found reg m id (ok r) = detached reg id r (unmap_shared_region os m id)

  unfoldable pub detach_region :
      SharedMemoryRegistry → Memory → ℕ → Result (Unit {0}) × (SharedMemoryRegistry × Memory)
  detach_region reg m id = detach_found reg m id (region reg id)

abbrev pub standalone_made :
    SharedMemoryRegistry → Result SharedRegion → Result ℕ × SharedMemoryRegistry
standalone_made reg (err e) = (err e, reg)
standalone_made reg (ok r) = (ok reg.next_region_id, insert (next_id reg) reg.next_region_id r)

unfoldable pub allocate_region_standalone :
    ShmAnswers → SharedMemoryRegistry → ℕ → Result ℕ × SharedMemoryRegistry
allocate_region_standalone shm reg size = standalone_made reg (make_region shm size)

abbrev pub destroy_found :
    SharedMemoryRegistry → ℕ → Result SharedRegion → Result (Unit {0}) × SharedMemoryRegistry
destroy_found reg id (err e) = (err e, reg)
destroy_found reg id (ok r) =
    if not (r.attachment_count == 0)
    then (err (WasmError.runtime "shared region {} still has {} attached mappings"), reg)
    else (ok tt, record reg { regions = remove_entry reg.regions id })

unfoldable pub destroy_region : SharedMemoryRegistry → ℕ → Result (Unit {0}) × SharedMemoryRegistry
destroy_region reg id = destroy_found reg id (region reg id)

unfoldable pub region_len : SharedMemoryRegistry → ℕ → Result ℕ
region_len reg id = do r ← region reg id; ok (r.len % 2 ^ 32)
