-- ===== src/Memory/Access.antt =====
-- crates/core/src/memory.rs: bounds checks, reads and writes.
-- An offset is a `u32` and a length a `usize`, each as a number.
pub mod Bounds
pub mod Data
pub mod ReadWrite
use wasmtiny.Base.{
  ℕ, zero, suc, ◌+◌, ◌-◌, ◌*◌, ◌^◌, Bool, true, false, not, ◌&&◌, ◌||◌, Option, none, some, List,
  [], ◌∷◌, length, ltb, leb, ◌==◌, if◌then◌else◌,
}
use wasmtiny.Base.Bytes.{to_le_bytes, from_le_bytes}
use wasmtiny.Runtime.Error.{Result, ok, err, WasmError, TrapCode, ◌>>=◌}
use wasmtiny.Sync.Waiters.{WaiterMap, register_waiter, notify_queue, update}
use wasmtiny.Memory.{Memory, SharedRange, RegionProt, page_size_bytes}

abbrev pub range_start : SharedRange → ℕ
range_start r = r.page_offset * page_size_bytes

abbrev pub range_end : SharedRange → ℕ
range_end r = range_start r + r.len

unfoldable pub in_ranges : List SharedRange → ℕ → ℕ → Bool
in_ranges [] start end = false
in_ranges (r ∷ rs) start end =
    (leb (range_start r) start && leb end (range_end r)) || in_ranges rs start end

unfoldable pub in_shared_range : Memory → ℕ → ℕ → Bool
in_shared_range m offset len =
    in_ranges m.shared_ranges offset (if len == 0 then offset + 1 else offset + len)

unfoldable pub is_valid_access : Memory → ℕ → ℕ → Result Bool
is_valid_access m offset access_len =
    if access_len == 0
    then ok (leb offset m.len || in_shared_range m offset 0)
    else if leb (2 ^ 64) (offset + access_len)
    then err (WasmError.trap TrapCode.memory_out_of_bounds)
    else if ltb offset m.len && leb (offset + access_len) m.len
    then ok true
    else ok (in_shared_range m offset access_len)

-- `ptr_at` and `ptr_at_mut`: the offset itself stands for the pointer.
unfoldable pub ptr_at : Memory → ℕ → ℕ → Result ℕ
ptr_at m offset access_len = do
  valid ← is_valid_access m offset access_len
  if valid then ok offset else err (WasmError.trap TrapCode.memory_out_of_bounds)

abbrev is_read_only : RegionProt → Bool
is_read_only RegionProt.read_only = true
is_read_only RegionProt.read_write = false

-- The access lies in the page that this memory may write.
abbrev in_slot : SharedRange → Option ℕ → ℕ → ℕ → Bool
in_slot r none start end = false
in_slot r (some slot) start end =
    leb (range_start r + slot * page_size_bytes) start
    && leb end (range_start r + slot * page_size_bytes + page_size_bytes)

unfoldable pub ranges_writable : List SharedRange → ℕ → ℕ → Result (Unit {0})
ranges_writable [] start end = ok tt
ranges_writable (r ∷ rs) start end =
    if not (is_read_only r.prot)
    then ranges_writable rs start end
    else if ltb start (range_end r) && ltb (range_start r) end
    then if in_slot r r.reader_slot start end
      then ranges_writable rs start end
      else err (WasmError.trap TrapCode.memory_out_of_bounds)
    else ranges_writable rs start end

unfoldable pub check_writable : Memory → ℕ → ℕ → Result (Unit {0})
check_writable m offset len = ranges_writable m.shared_ranges offset (offset + len)

unfoldable pub find_range : List SharedRange → ℕ → Option (SharedRange × ℕ)
find_range [] offset = none
find_range (r ∷ rs) offset =
    if leb (range_start r) offset && ltb offset (range_end r)
    then some (r, offset - range_start r)
    else find_range rs offset

unfoldable pub find_shared_range : Memory → ℕ → Option (SharedRange × ℕ)
find_shared_range m offset = find_range m.shared_ranges offset

-- The bytes of every shared region, by region and offset.
abbrev pub Regions : Type 0
Regions = ℕ → ℕ → ℕ

-- What the address space shows at an address: the page that is mapped there.
abbrev seen : Memory → Regions → ℕ → Option (SharedRange × ℕ) → ℕ
seen m regions address none = m.owned address
seen m regions address (some (r, offset)) = regions r.region_id offset

unfoldable pub peek : Memory → Regions → ℕ → ℕ
peek m regions address = seen m regions address (find_shared_range m address)

abbrev store : Memory → Regions → ℕ → ℕ → Option (SharedRange × ℕ) → Memory × Regions
store m regions address byte none = (record m { owned = update m.owned address byte }, regions)
store m regions address byte (some (r, offset)) =
    (m, update regions r.region_id (update (regions r.region_id) offset byte))

unfoldable pub poke : Memory → Regions → ℕ → ℕ → Memory × Regions
poke m regions address byte = store m regions address byte (find_shared_range m address)

-- `copy_nonoverlapping` out of the address space and into it.
unfoldable pub copy_out : Memory → Regions → ℕ → ℕ → List ℕ
copy_out m regions address zero = []
copy_out m regions address (suc n) = peek m regions address ∷ copy_out m regions (address + 1) n

unfoldable pub copy_in : Memory → Regions → ℕ → List ℕ → Memory × Regions
copy_in m regions address [] = (m, regions)
copy_in m regions address (byte ∷ rest) =
    let (m', regions') = poke m regions address byte in copy_in m' regions' (address + 1) rest

-- The bytes that fill a buffer of `n` bytes.
unfoldable pub read : Memory → Regions → ℕ → ℕ → Result (List ℕ)
read m regions offset n = do address ← ptr_at m offset n; ok (copy_out m regions address n)

abbrev pub write_checked :
    Memory → Regions → ℕ → List ℕ → Result ℕ → Result (Unit {0}) × (Memory × Regions)
write_checked m regions offset bytes (ok address) = (ok tt, copy_in m regions address bytes)
write_checked m regions offset bytes (err e) = (err e, (m, regions))

unfoldable pub write : Memory → Regions → ℕ → List ℕ → Result (Unit {0}) × (Memory × Regions)
write m regions offset [] = write_checked m regions offset [] (ptr_at m offset 0)
write m regions offset (b ∷ bytes) =
    write_checked m regions offset (b ∷ bytes)
      (check_writable m offset (length (b ∷ bytes)) >>= λ _. ptr_at m offset (length (b ∷ bytes)))

unfoldable pub read_u8 : Memory → Regions → ℕ → Result ℕ
read_u8 m regions offset = do bytes ← read m regions offset 1; ok (from_le_bytes bytes)

unfoldable pub read_u32 : Memory → Regions → ℕ → Result ℕ
read_u32 m regions offset = do bytes ← read m regions offset 4; ok (from_le_bytes bytes)

unfoldable pub read_u64 : Memory → Regions → ℕ → Result ℕ
read_u64 m regions offset = do bytes ← read m regions offset 8; ok (from_le_bytes bytes)

unfoldable pub write_u8 : Memory → Regions → ℕ → ℕ → Result (Unit {0}) × (Memory × Regions)
write_u8 m regions offset val = write m regions offset (val ∷ [])

unfoldable pub write_u32 : Memory → Regions → ℕ → ℕ → Result (Unit {0}) × (Memory × Regions)
write_u32 m regions offset val = write m regions offset (to_le_bytes 4 val)

unfoldable pub write_u64 : Memory → Regions → ℕ → ℕ → Result (Unit {0}) × (Memory × Regions)
write_u64 m regions offset val = write m regions offset (to_le_bytes 8 val)

-- The waiters of every shared region.
abbrev pub RegionWaiters : Type 0
RegionWaiters = ℕ → WaiterMap

-- The registry that a waiter parks on, with its key and its node.
pub data WaiterRegistry : Type 0 where
  local : ℕ → ℕ → WaiterRegistry
  shared : ℕ → ℕ → ℕ → WaiterRegistry

abbrev registered :
    Memory
    → RegionWaiters
    → ℕ
    → Option (SharedRange × ℕ)
    → WaiterRegistry × (Memory × RegionWaiters)
registered m shared_waiters address none =
    let (node, ws) = register_waiter m.waiters address in
    (WaiterRegistry.local address node, (record m { waiters = ws }, shared_waiters))
registered m shared_waiters address (some (r, offset)) =
    let (node, ws) = register_waiter (shared_waiters r.region_id) offset in
    (WaiterRegistry.shared r.region_id offset node, (m, update shared_waiters r.region_id ws))

unfoldable pub waiter_registry :
    Memory → RegionWaiters → ℕ → WaiterRegistry × (Memory × RegionWaiters)
waiter_registry m shared_waiters address =
    registered m shared_waiters address (find_shared_range m address)

abbrev notified :
    Memory → RegionWaiters → ℕ → ℕ → Option (SharedRange × ℕ) → ℕ × (Memory × RegionWaiters)
notified m shared_waiters address n none =
    let (count, ws) = notify_queue m.waiters address n in
    (count, (record m { waiters = ws }, shared_waiters))
notified m shared_waiters address n (some (r, offset)) =
    let (count, ws) = notify_queue (shared_waiters r.region_id) offset n in
    (count, (m, update shared_waiters r.region_id ws))

abbrev notify_valid :
    Memory → RegionWaiters → ℕ → ℕ → Result Bool → Result ℕ × (Memory × RegionWaiters)
notify_valid m shared_waiters address n (ok true) =
    let (count, after) = notified m shared_waiters address n (find_shared_range m address) in
    (ok count, after)
notify_valid m shared_waiters address n (ok false) =
    (err (WasmError.trap TrapCode.memory_out_of_bounds), (m, shared_waiters))
notify_valid m shared_waiters address n (err e) = (err e, (m, shared_waiters))

-- The wake that the platform may be sent besides is left out: it does not change the result.
unfoldable pub notify : Memory → RegionWaiters → ℕ → ℕ → Result ℕ × (Memory × RegionWaiters)
notify m shared_waiters address n =
    notify_valid m shared_waiters address n (is_valid_access m address 4)
