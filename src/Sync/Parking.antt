-- ===== src/Sync/Parking.antt =====
-- crates/core/src/runtime/shared_memory.rs: `park_node` and `RegionWaiter::wait`.
-- Time and the other threads are a list of rounds: what the owner sees each time it goes round.
pub mod Wakes
use wasmtiny.Base.{
  ℕ, Bool, true, false, not, ◌&&◌, Option, none, some, List, [], ◌∷◌, ◌==◌, if◌then◌else◌,
}
use wasmtiny.Sync.Waiters.{WaiterMap, update, unregister_waiter, ensure_waiter_registered}

-- One round of a parked thread: whether the deadline has passed when it looks, what the other
-- threads do to the map while it sleeps, and whether the sleep ended by its timeout.
pub record Round : Type 0 where
  pub expired : Bool
  pub others : WaiterMap → WaiterMap
  pub timed_out : Bool

abbrev take_wake : WaiterMap → ℕ → WaiterMap
take_wake ws node = record ws { notified = update ws.notified node false }

-- `none` is a thread that is still parked when the rounds end.
unfoldable pub park_loop : WaiterMap → ℕ → ℕ → List Round → Option Bool × WaiterMap
park_loop ws key node [] = (none, ws)
park_loop ws key node (round ∷ rounds) =
    let ws' = round.others ws in
    let again = park_loop ws' key node rounds in
    if ws.notified node
    then (some true, take_wake ws node)
    else if round.expired
    then (some false, unregister_waiter ws key node)
    else if round.timed_out && not (ws'.notified node)
    then (some false, unregister_waiter ws' key node)
    else again

-- With a zero timeout the thread does not block, and a latched wake is not looked at.
unfoldable pub park_node : WaiterMap → ℕ → ℕ → ℕ → List Round → Option Bool × WaiterMap
park_node ws key node timeout_ns rounds =
    if timeout_ns == 0
    then (some false, unregister_waiter ws key node)
    else park_loop ws key node rounds

pub data WakeOutcome : Type 0 where
  woken timed_out : WakeOutcome

unfoldable pub wait_loop : WaiterMap → ℕ → ℕ → List Round → Option WakeOutcome × WaiterMap
wait_loop ws key node [] = (none, ws)
wait_loop ws key node (round ∷ rounds) =
    let ws' = round.others ws in
    let again = wait_loop ws' key node rounds in
    if ws.notified node
    then (some WakeOutcome.woken, unregister_waiter (take_wake ws node) key node)
    else if round.expired
    then (some WakeOutcome.timed_out, unregister_waiter ws key node)
    else if round.timed_out && not (ws'.notified node)
    then (some WakeOutcome.timed_out, unregister_waiter ws' key node)
    else again

-- `RegionWaiter::wait` of the handle `node` on the offset `key`.
unfoldable pub wait : WaiterMap → ℕ → ℕ → List Round → Option WakeOutcome × WaiterMap
wait ws key node rounds = wait_loop (ensure_waiter_registered ws key node) key node rounds

-- `Drop` of the handle.
unfoldable pub drop_waiter : WaiterMap → ℕ → ℕ → WaiterMap
drop_waiter ws key node = unregister_waiter ws key node
