-- ===== src/Registry/Host/Waking.antt =====
-- A host waiter and a guest meet at the same byte of a region.
use wasmtiny.Base.{
  ℕ, ◌+◌, ◌%◌, ◌^◌, ◌≤◌, ◌<◌, ◌≡◌, refl, ap, ◌∙◌, true, false, some, List, [], ◌∷◌, ◌++◌, length,
  leb, ◌==◌, if◌then◌else◌, arith, length-append, take_all,
}
use wasmtiny.Runtime.Error.{ok}
use wasmtiny.Sync.Waiters.{WaiterMap, register_waiter, notify_queue, update, queue, contains}
use wasmtiny.Sync.Waiters.Queues.{notify_queue_lem, contains-append}
use wasmtiny.Sync.Waiters.Latch.{register_waiter_lem}
use wasmtiny.Memory.{Memory, SharedRange}
use wasmtiny.Memory.Access.{find_shared_range, notify, is_valid_access}
use wasmtiny.Registry.{SharedMemoryRegistry, SharedRegion, region, find_entry}
use wasmtiny.Registry.Host.{with_waiters, register_region_waiter, notify_region}

update-same : {A : Type 0} → (f : ℕ → A) (i : ℕ) (v : A) → update f i v i ≡ v
update-same f i v = ground arith

if_same : {A : Type 0} → (i : ℕ) (x y : A) → (if i == i then x else y) ≡ x
if_same i x y = ground arith

notify_region_lem :
    (reg : SharedMemoryRegistry) (s : SharedRegion) (id offset n : ℕ)
    → find_entry reg.regions id ≡ some s
    → offset < s.len
    → s.len ≤ 2 ^ 32
    → let (count, ws) = notify_queue (reg.waiters id) offset n in
      notify_region reg id offset n ≡ (ok count, with_waiters reg id ws)
unfolding notify_region region
notify_region_lem reg s id offset n e inside fits =
    let past : leb s.len offset ≡ false = ground (arith, inside) in
    let narrow : offset % 2 ^ 32 ≡ offset = omega (arith, inside, fits) in rw (e, past, narrow)

register_region_waiter_lem :
    (reg : SharedMemoryRegistry) (s : SharedRegion) (id offset : ℕ)
    → find_entry reg.regions id ≡ some s
    → offset < s.len
    → s.len ≤ 2 ^ 32
    → let (node, ws) = register_waiter (reg.waiters id) offset in
      register_region_waiter reg id offset
      ≡ (ok (record { region_id = id; offset = offset; node = node }), with_waiters reg id ws)
unfolding register_region_waiter region
register_region_waiter_lem reg s id offset e inside fits =
    let past : leb s.len offset ≡ false = ground (arith, inside) in
    let narrow : offset % 2 ^ 32 ≡ offset = omega (arith, inside, fits) in rw (e, past, narrow)

-- A notify for enough waiters wakes the last of a queue.
woken_last :
    (ws : WaiterMap) (key n node : ℕ) (q : List ℕ)
    → queue ws key ≡ q ++ (node ∷ [])
    → length q < n
    → ((notify_queue ws key n).0 ≡ length q + 1) × ((notify_queue ws key n).1.notified node ≡ true)
unfolding contains
woken_last ws key n node q last more =
    let (count, _, flags, _) = notify_queue_lem ws key n in
    let len : length (queue ws key) ≡ length q + 1 = ap length last ∙ length-append q (node ∷ []) in
    (
      ground (arith, count, len, more),
      ground (
        arith,
        flags node,
        take_all n (queue ws key) (omega (arith, len, more)),
        last,
        contains-append node q (node ∷ []),
      ),
    )

-- A guest's notify on an address that shows a byte of a region and the host's notify on that byte
-- are the same: the same number of waiters wakes, and the same waiters are left. (The guest's
-- access is valid, and the byte lies within the region, whose length fits 32 bits.)
pub notify-notify_region :
    (reg : SharedMemoryRegistry) (m : Memory) (r : SharedRange) (s : SharedRegion)
    (address offset n : ℕ)
    → find_entry reg.regions r.region_id ≡ some s
    → find_shared_range m address ≡ some (r, offset)
    → is_valid_access m address 4 ≡ ok true
    → offset < s.len
    → s.len ≤ 2 ^ 32
    → let (answer, (m', waiters')) = notify m reg.waiters address n in
      let (answer', reg') = notify_region reg r.region_id offset n in
      (answer ≡ answer') × (waiters' ≡ reg'.waiters) × (m' ≡ m)
unfolding notify
notify-notify_region reg m r s address offset n e seen valid inside fits =
    rw (valid, seen, notify_region_lem reg s r.region_id offset n e inside fits) (refl, refl, refl)

-- A waiter that the host registers on a byte is woken by a notify of that byte that follows and
-- asks for more waiters than were queued before it. (The byte lies within the region, whose length
-- fits 32 bits.)
pub notify_region-register_region_waiter :
    (reg : SharedMemoryRegistry) (s : SharedRegion) (id offset n : ℕ)
    → find_entry reg.regions id ≡ some s
    → offset < s.len
    → s.len ≤ 2 ^ 32
    → length (queue (reg.waiters id) offset) < n
    → let (registered, reg') = register_region_waiter reg id offset in
      let (answer, reg'') = notify_region reg' id offset n in
      let node = (register_waiter (reg.waiters id) offset).0 in
      (registered ≡ ok (record { region_id = id; offset = offset; node = node }))
      × (answer ≡ ok (length (queue (reg.waiters id) offset) + 1))
      × ((reg''.waiters id).notified node ≡ true)
notify_region-register_region_waiter reg s id offset n e inside fits more =
    let (node, ws) = register_waiter (reg.waiters id) offset in
    let reg' = with_waiters reg id ws in
    let (last, _, _) = register_waiter_lem (reg.waiters id) offset in
    let (count, flag) = woken_last ws offset n node (queue (reg.waiters id) offset) last more in
    rw (register_region_waiter_lem reg s id offset e inside fits) (
      rw (notify_region_lem reg' s id offset n e inside fits)
        (rw (update-same reg.waiters id ws) (refl, ap ok count, rw if_same flag)))
