-- ===== src/Registry/Host.antt =====
-- crates/core/src/runtime/shared_memory.rs: waiting on a region, and its bytes, from the host.
pub mod Bytes
pub mod Waking
use wasmtiny.Base.{
  ℕ, zero, suc, ◌+◌, ◌-◌, ◌%◌, ◌^◌, ◌≤◌, ◌<◌, ◌≡◌, ◌⊎◌, inl, inr, refl, ap, ◌∙◌, Bool, true, false,
  List, [], ◌∷◌, length, ltb, leb, ◌==◌, if◌then◌else◌, if-elim, arith,
}
use wasmtiny.Runtime.Error.{Result, ok, err, WasmError}
use wasmtiny.Sync.Waiters.{WaiterMap, register_waiter, notify_queue, update, queue}
use wasmtiny.Registry.{SharedMemoryRegistry, SharedRegion, region}

-- The handle of a registered waiter: its region, its offset and its node.
pub record RegionWaiter : Type 0 where
  pub region_id : ℕ
  pub offset : ℕ
  pub node : ℕ

abbrev pub with_waiters : SharedMemoryRegistry → ℕ → WaiterMap → SharedMemoryRegistry
with_waiters reg id ws = record reg { waiters = update reg.waiters id ws }

abbrev pub register_found :
    SharedMemoryRegistry → ℕ → ℕ → Result SharedRegion → Result RegionWaiter × SharedMemoryRegistry
register_found reg id offset (err e) = (err e, reg)
register_found reg id offset (ok r) =
    if leb r.len offset
    then (
      err (WasmError.runtime "shared region waiter offset {} out of bounds for region of {} bytes"),
      reg,
    )
    else (let (node, ws) = register_waiter (reg.waiters id) (offset % 2 ^ 32) in
        (
          ok (record { region_id = id; offset = offset % 2 ^ 32; node = node }),
          with_waiters reg id ws,
        ))

unfoldable pub register_region_waiter :
    SharedMemoryRegistry → ℕ → ℕ → Result RegionWaiter × SharedMemoryRegistry
register_region_waiter reg id offset = register_found reg id offset (region reg id)

abbrev pub notify_found :
    SharedMemoryRegistry → ℕ → ℕ → ℕ → Result SharedRegion → Result ℕ × SharedMemoryRegistry
notify_found reg id offset count (err e) = (err e, reg)
notify_found reg id offset count (ok r) =
    if leb r.len offset
    then (
      err (WasmError.runtime "shared region notify offset {} out of bounds for region of {} bytes"),
      reg,
    )
    else (let (woken, ws) = notify_queue (reg.waiters id) (offset % 2 ^ 32) count in
        (ok woken, with_waiters reg id ws))

unfoldable pub notify_region : SharedMemoryRegistry → ℕ → ℕ → ℕ → Result ℕ × SharedMemoryRegistry
notify_region reg id offset count = notify_found reg id offset count (region reg id)

unfoldable pub store_bytes : (ℕ → ℕ) → ℕ → List ℕ → ℕ → ℕ
store_bytes f offset [] = f
store_bytes f offset (b ∷ buf) = store_bytes (update f offset b) (offset + 1) buf

unfoldable pub load_bytes : (ℕ → ℕ) → ℕ → ℕ → List ℕ
load_bytes f offset zero = []
load_bytes f offset (suc n) = f offset ∷ load_bytes f (offset + 1) n

abbrev pub write_found :
    SharedMemoryRegistry
    → ℕ
    → ℕ
    → List ℕ
    → Result SharedRegion
    → Result (Unit {0}) × SharedMemoryRegistry
write_found reg id offset buf (err e) = (err e, reg)
write_found reg id offset buf (ok r) =
    if leb (2 ^ 64) (offset + length buf)
    then (err (WasmError.runtime "shared region write offset+length overflow"), reg)
    else if ltb r.len (offset + length buf)
    then (err (WasmError.runtime "shared region write out of bounds"), reg)
    else (ok tt, record reg { bytes = update reg.bytes id (store_bytes (reg.bytes id) offset buf) })

unfoldable pub write_to_region :
    SharedMemoryRegistry → ℕ → ℕ → List ℕ → Result (Unit {0}) × SharedMemoryRegistry
write_to_region reg id offset buf = write_found reg id offset buf (region reg id)

abbrev pub read_found : SharedMemoryRegistry → ℕ → ℕ → ℕ → Result SharedRegion → Result (List ℕ)
read_found reg id offset n (err e) = err e
read_found reg id offset n (ok r) =
    if leb (2 ^ 64) (offset + n)
    then err (WasmError.runtime "shared region read offset+length overflow")
    else if ltb r.len (offset + n)
    then err (WasmError.runtime "shared region read out of bounds")
    else ok (load_bytes (reg.bytes id) offset n)

-- The bytes that fill a buffer of `n` bytes.
unfoldable pub read_from_region : SharedMemoryRegistry → ℕ → ℕ → ℕ → Result (List ℕ)
read_from_region reg id offset n = read_found reg id offset n (region reg id)
