-- ===== src/Sync/Waiters/Queues.antt =====
-- The queues as a dictionary, and what a notify does to them.
use wasmtiny.Base.{
  ℕ, zero, suc, ◌≡◌, ◌≢◌, refl, Bool, false, ◌||◌, none, some, List, [], ◌∷◌, ◌++◌, length, take,
  drop, ◌==◌, if◌then◌else◌, arith, min, Option-cases, inl, inr, length-take, ap, ◌∙◌,
}
use wasmtiny.Sync.Waiters.{
  WaiterMap, find, put, remove, contains, without, queue, register_waiter, ensure_waiter_registered,
  unregister_waiter, notify_queue, pop_queue, set_flag, pop_waiters, wake_all, or_empty, store_back,
}

pub find-put :
    (j k : ℕ) (q : List ℕ) (m : List (ℕ × List ℕ))
    → find j (put k q m) ≡ (if j == k then some q else find j m)
unfolding find put
find-put j k q [] = refl
find-put j k q ((i, p) ∷ m) = ground (arith, find-put j k q m)

pub find-remove :
    (j k : ℕ) (m : List (ℕ × List ℕ)) → find j (remove k m) ≡ (if j == k then none else find j m)
unfolding find remove
find-remove j k [] = ground arith
find-remove j k ((i, p) ∷ m) = ground (arith, find-remove j k m)

pub pop_waiters-take : (n : ℕ) (q : List ℕ) → pop_waiters n q ≡ (take n q, drop n q)
unfolding pop_waiters
pop_waiters-take zero q = refl
pop_waiters-take (suc n) [] = refl
pop_waiters-take (suc n) (x ∷ q) = ground (arith, pop_waiters-take n q)

pub wake_all_lem :
    (woken : List ℕ) (flags : ℕ → Bool) (x : ℕ)
    → wake_all woken flags x ≡ (contains x woken || flags x)
unfolding wake_all contains set_flag
wake_all_lem [] flags x = refl
wake_all_lem (y ∷ ys) flags x = ground (arith, wake_all_lem ys (set_flag flags y) x)

pub contains-append :
    (x : ℕ) (xs ys : List ℕ) → contains x (xs ++ ys) ≡ (contains x xs || contains x ys)
unfolding contains
contains-append x [] ys = refl
contains-append x (y ∷ xs) ys = ground (arith, contains-append x xs ys)

pub contains-without :
    (x y : ℕ) (q : List ℕ) → contains x (without y q) ≡ (if x == y then false else contains x q)
unfolding contains without
contains-without x y [] = ground arith
contains-without x y (z ∷ q) = ground (arith, contains-without x y q)

pub queue-register_waiter :
    (ws : WaiterMap) (k key : ℕ)
    → queue (register_waiter ws k).1 key
      ≡ (if key == k then queue ws k ++ (ws.next_node ∷ []) else queue ws key)
unfolding queue register_waiter
queue-register_waiter ws k key =
    ground (arith, find-put key k (queue ws k ++ (ws.next_node ∷ [])) ws.queues)

pub queue-ensure_waiter_registered :
    (ws : WaiterMap) (k n key : ℕ)
    → queue (ensure_waiter_registered ws k n) key ≡ (
        if key == k
        then if contains n (queue ws k) then queue ws k else queue ws k ++ (n ∷ [])
        else queue ws key)
unfolding queue ensure_waiter_registered
queue-ensure_waiter_registered ws k n key = ground (
  arith,
  find-put key k (if contains n (queue ws k) then queue ws k else queue ws k ++ (n ∷ [])) ws.queues,
)

store_back-find :
    (key k : ℕ) (q : List ℕ) (m : List (ℕ × List ℕ))
    → or_empty (find key (store_back k q m)) ≡ (if key == k then q else or_empty (find key m))
store_back-find key k [] m = ground (arith, find-remove key k m)
store_back-find key k (x ∷ q) m = ground (arith, find-put key k (x ∷ q) m)

-- Deregistering takes the node out of the queue of its address and touches no other address.
pub queue-unregister_waiter :
    (ws : WaiterMap) (k n key : ℕ)
    → queue (unregister_waiter ws k n) key
      ≡ (if key == k then without n (queue ws k) else queue ws key)
unfolding queue unregister_waiter without
queue-unregister_waiter ws k n key = elim (Option-cases (find k ws.queues)) [
  | inl nobody ↦ ground (arith, nobody)
  | inr (q, e) ↦ ground (arith, e, store_back-find key k (without n q) ws.queues)
]

-- The nodes popped are those at the front of the queue, as many as are asked for and there, and the
-- others stay; no other address and no flag is touched.
pub pop_queue_lem :
    (ws : WaiterMap) (key n : ℕ)
    → let (woken, ws') = pop_queue ws key n in
      (woken ≡ take n (queue ws key))
      × (queue ws' key ≡ drop n (queue ws key))
      × ((other : ℕ) → other ≢ key → queue ws' other ≡ queue ws other)
      × (ws'.notified ≡ ws.notified)
      × (ws'.next_node ≡ ws.next_node)
unfolding pop_queue queue
pop_queue_lem ws key zero = (refl, refl, λ other h. refl, refl, refl)
pop_queue_lem ws key (suc n) = elim (Option-cases (find key ws.queues)) [
  | inl nobody ↦ (
    ground (arith, nobody),
    ground (arith, nobody),
    (λ other h. ground (arith, nobody)),
    ground (arith, nobody),
    ground (arith, nobody),
  )
  | inr (q, e) ↦
      let p = pop_waiters-take (suc n) q in
      (
        ground (arith, e, p),
        ground (arith, e, p, find-put key key (drop (suc n) q) ws.queues),
        (λ other h. ground (arith, e, p, find-put other key (drop (suc n) q) ws.queues)),
        ground (arith, e),
        ground (arith, e),
      )
]

-- A notify wakes the nodes at the front of the queue, in the order in which they were registered,
-- as many as are asked for and there: it returns their number, sets their flags and no others,
-- takes exactly them out of the queue, and leaves every other address alone.
pub notify_queue_lem :
    (ws : WaiterMap) (key n : ℕ)
    → let (count, ws') = notify_queue ws key n in
      (count ≡ min n (length (queue ws key)))
      × (queue ws' key ≡ drop n (queue ws key))
      × ((x : ℕ) → ws'.notified x ≡ (contains x (take n (queue ws key)) || ws.notified x))
      × ((other : ℕ) → other ≢ key → queue ws' other ≡ queue ws other)
unfolding notify_queue queue
notify_queue_lem ws key n =
    let (woken, left, others, flags, _) = pop_queue_lem ws key n in
    (
      ap length woken ∙ length-take n (queue ws key),
      left,
      (λ x.
          wake_all_lem (pop_queue ws key n).0 (pop_queue ws key n).1.notified x
          ∙ ap (λ w. contains x w || (pop_queue ws key n).1.notified x) woken
          ∙ ap (λ f. contains x (take n (queue ws key)) || f x) flags),
      others,
    )
