-- ===== src/Sync/Parking/Wakes.antt =====
-- A wake that was sent arrives, and no waiter stays behind.
use wasmtiny.Base.{
  ℕ, ◌<◌, ◌≡◌, ◌≢◌, refl, true, false, none, some, List, [], ◌∷◌, length, arith, take_all,
  length-append,
}
use wasmtiny.Sync.Waiters.{
  WaiterMap, contains, queue, register_waiter, notify_queue, ensure_waiter_registered,
}
use wasmtiny.Sync.Waiters.Queues.{
  queue-unregister_waiter, contains-without, contains-append, notify_queue_lem,
}
use wasmtiny.Sync.Waiters.Latch.{register_waiter_lem}
use wasmtiny.Sync.Parking.{Round, park_loop, park_node, wait_loop, wait, take_wake}

-- A waiter that has ended its wait with a timeout is out of the queue of its address.
park_loop-timed_out :
    (rounds : List Round) (ws : WaiterMap) (key node : ℕ)
    → (park_loop ws key node rounds).0 ≡ some false
    → contains node (queue (park_loop ws key node rounds).1 key) ≡ false
unfolding park_loop
park_loop-timed_out [] ws key node h = cc
park_loop-timed_out (round ∷ rounds) ws key node h = ground (
  arith,
  park_loop-timed_out rounds (round.others ws) key node,
  queue-unregister_waiter ws key node key,
  queue-unregister_waiter (round.others ws) key node key,
  contains-without node node (queue ws key),
  contains-without node node (queue (round.others ws) key),
)

-- A park that ends without a wake leaves its node in no queue of the address, whatever the timeout
-- and whatever the other threads do.
pub park_node-timed_out :
    (ws : WaiterMap) (key node timeout_ns : ℕ) (rounds : List Round)
    → (park_node ws key node timeout_ns rounds).0 ≡ some false
    → contains node (queue (park_node ws key node timeout_ns rounds).1 key) ≡ false
unfolding park_node
park_node-timed_out ws key node timeout_ns rounds h = ground (
  arith,
  park_loop-timed_out rounds ws key node,
  queue-unregister_waiter ws key node key,
  contains-without node node (queue ws key),
)

queue-take_wake : (ws : WaiterMap) (node key : ℕ) → queue (take_wake ws node) key ≡ queue ws key
unfolding queue
queue-take_wake ws node key = refl

registered_then_notified :
    (ws : WaiterMap) (key n : ℕ)
    → length (queue ws key) < n
    → (notify_queue (register_waiter ws key).1 key n).1.notified (register_waiter ws key).0 ≡ true
unfolding contains
registered_then_notified ws key n h =
    let (node, ws1) = register_waiter ws key in
    ground (
      arith,
      (notify_queue_lem ws1 key n).2 node,
      (register_waiter_lem ws key).0,
      take_all n (queue ws1 key),
      length-append (queue ws key) (node ∷ []),
      contains-append node (queue ws key) (node ∷ []),
    )

-- A notify between the registration and the park is not lost: if it asks for more waiters than
-- stood before this one, the park of the thread, with any timeout but zero, reports the wake at
-- its first look, even past the deadline.
pub notify_before_park :
    (ws : WaiterMap) (key n timeout_ns : ℕ) (round : Round) (rounds : List Round)
    → length (queue ws key) < n
    → timeout_ns ≢ 0
    → let (node, ws1) = register_waiter ws key in
      let ws2 = (notify_queue ws1 key n).1 in
      (park_node ws2 key node timeout_ns (round ∷ rounds)).0 ≡ some true
unfolding park_node park_loop
notify_before_park ws key n timeout_ns round rounds h nz =
    ground (arith, registered_then_notified ws key n h)

wait_loop-ended :
    (rounds : List Round) (ws : WaiterMap) (key node : ℕ)
    → (wait_loop ws key node rounds).0 ≢ none
    → contains node (queue (wait_loop ws key node rounds).1 key) ≡ false
unfolding wait_loop
wait_loop-ended [] ws key node h = absurd (h refl)
wait_loop-ended (round ∷ rounds) ws key node h = ground (
  arith,
  wait_loop-ended rounds (round.others ws) key node,
  queue-unregister_waiter ws key node key,
  queue-unregister_waiter (take_wake ws node) key node key,
  queue-take_wake ws node key,
  queue-unregister_waiter (round.others ws) key node key,
  contains-without node node (queue ws key),
  contains-without node node (queue (round.others ws) key),
)

-- A handle that has finished a `wait`, woken or timed out, has no registration left behind it.
pub wait-ended :
    (ws : WaiterMap) (key node : ℕ) (rounds : List Round)
    → (wait ws key node rounds).0 ≢ none
    → contains node (queue (wait ws key node rounds).1 key) ≡ false
unfolding wait
wait-ended ws key node rounds h =
    wait_loop-ended rounds (ensure_waiter_registered ws key node) key node h
