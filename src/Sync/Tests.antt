-- ===== src/Sync/Tests.antt =====
-- The waiter maps at concrete states.
use wasmtiny.Base.{◌≡◌, refl, true, false, some, List, [], ◌∷◌, arith}
use wasmtiny.Sync.Waiters.{
  WaiterMap, register_waiter, notify_queue, pop_queue, queue, find, pop_waiters,
}
use wasmtiny.Sync.Waiters.Latch.{OtherStep, IsLatched, perform_all, perform_all-IsLatched}
use wasmtiny.Sync.Parking.{Round, park_node}
use wasmtiny.Sync.Parking.Wakes.{notify_before_park}

-- Three nodes on address 8 and one on address 4.
abbrev crowd : WaiterMap
crowd = record {
  queues = (8, 0 ∷ 2 ∷ 3 ∷ []) ∷ (4, 1 ∷ []) ∷ [];
  notified = λ _. false;
  next_node = 4;
}

notify_two : (notify_queue crowd 8 2).0 ≡ 2
unfolding notify_queue pop_queue find pop_waiters
notify_two = refl

-- Two notifies pop the waiter and others of its address; one of them wakes it.
abbrev traffic : List (OtherStep 4)
traffic =
    OtherStep.pop 8 2
    ∷ OtherStep.register 4
    ∷ OtherStep.pop 8 7
    ∷ OtherStep.wake 1
    ∷ OtherStep.wake 2
    ∷ []

perform_all-IsLatched_example :
    let (node, ws) = register_waiter crowd 8 in
    IsLatched (perform_all (record { map = ws; popped = [] }) traffic) 8 node
unfolding register_waiter
perform_all-IsLatched_example = perform_all-IsLatched crowd [] 8 traffic

abbrev quiet : Round
quiet = record { expired = false; others = λ ws. ws; timed_out = true }

notify_before_park_example :
    (park_node
      (notify_queue (register_waiter crowd 8).1 8 4).1
      8
      (register_waiter crowd 8).0
      5
      (record quiet { expired = true } ∷ [])).0
    ≡ some true
notify_before_park_example =
    notify_before_park crowd 8 4 5 (record quiet { expired = true }) []
      (unfold queue find in omega arith) (omega arith)
