-- ===== src/Sync/Waiters/Latch.antt =====
-- No wake is lost: what other threads can do to a registered waiter.
use wasmtiny.Base.{
  ℕ, ◌<◌, ◌≡◌, ◌≢◌, true, false, ◌||◌, List, [], ◌∷◌, ◌++◌, take, drop, arith, take-append-drop,
  sym, ap, ◌∙◌, refl, zero, suc, Option, none, some, get_elem?, ◌==◌,
}
use wasmtiny.Sync.Waiters.{
  WaiterMap, contains, queue, register_waiter, ensure_waiter_registered, unregister_waiter,
  pop_queue, set_flag,
}
use wasmtiny.Sync.Waiters.Queues.{
  contains-append, contains-without, pop_queue_lem, queue-register_waiter,
  queue-ensure_waiter_registered, queue-unregister_waiter,
}

-- The map, with the nodes that notifying threads have popped and not woken yet. Every such thread
-- wakes its own in turn; here they are woken in any order.
pub record Traffic : Type 0 where
  pub map : WaiterMap
  pub popped : List ℕ

-- The waiter is in the queue of its address, or its flag is set, or a notify has popped it and has
-- yet to set its flag.
abbrev pub IsLatched : Traffic → ℕ → ℕ → Type 0
IsLatched t key node =
    (contains node (queue t.map key) || t.map.notified node || contains node t.popped) ≡ true

-- A step of another thread: it deregisters only waiters of its own, and a registration makes a
-- new node. `pop` is the first part of a notify, `wake` sets the flag of one of the popped nodes.
pub data OtherStep (node : ℕ) : Type 0 where
  register : ℕ → OtherStep node
  join : ℕ → (n : ℕ) → OtherStep node
  pop : ℕ → ℕ → OtherStep node
  wake : ℕ → OtherStep node
  leave : ℕ → (n : ℕ) → n ≢ node → OtherStep node

abbrev woken : Traffic → ℕ → Option ℕ → Traffic
woken t i none = t
woken t i (some n) = record {
  map = record t.map { notified = set_flag t.map.notified n };
  popped = take i t.popped ++ drop (suc i) t.popped;
}

abbrev pub perform : {node : ℕ} → Traffic → OtherStep node → Traffic
perform t (register k) = record t { map = (register_waiter t.map k).1 }
perform t (join k n) = record t { map = ensure_waiter_registered t.map k n }
perform t (pop k n) =
    let (nodes, ws) = pop_queue t.map k n in record { map = ws; popped = t.popped ++ nodes }
perform t (wake i) = woken t i (get_elem? t.popped i)
perform t (leave k n _) = record t { map = unregister_waiter t.map k n }

pub perform_all : {node : ℕ} → Traffic → List (OtherStep node) → Traffic
perform_all t [] = t
perform_all t (c ∷ cs) = perform_all (perform t c) cs

-- A registered waiter stands in the queue, behind those that are there, and no flag is set for it.
pub register_waiter_lem :
    (ws : WaiterMap) (key : ℕ)
    → let (node, ws') = register_waiter ws key in
      (queue ws' key ≡ queue ws key ++ (node ∷ []))
      × (ws'.notified node ≡ false)
      × (node < ws'.next_node)
unfolding register_waiter queue
register_waiter_lem ws key =
    (ground (arith, queue-register_waiter ws key key), ground arith, omega arith)

contains-split :
    (x n : ℕ) (q : List ℕ) → contains x q ≡ (contains x (take n q) || contains x (drop n q))
contains-split x n q =
    ap (contains x) (sym (take-append-drop n q)) ∙ contains-append x (take n q) (drop n q)

unregister_waiter_fields :
    (ws : WaiterMap) (k n : ℕ)
    → ((unregister_waiter ws k n).next_node ≡ ws.next_node)
      × ((unregister_waiter ws k n).notified ≡ ws.notified)
unfolding unregister_waiter
unregister_waiter_fields ws k n = ground arith

-- A popped node that is not the one taken out is still there.
contains-taken :
    (x i n : ℕ) (popped : List ℕ)
    → get_elem? popped i ≡ some n
    → contains x popped ≡ (x == n || contains x (take i popped ++ drop (suc i) popped))
unfolding contains
contains-taken x i n [] e = absurd cc
contains-taken x zero n (y ∷ popped) e = ground (arith, e)
contains-taken x (suc i) n (y ∷ popped) e = ground (arith, contains-taken x i n popped e)

woken-IsLatched :
    (t : Traffic) (key node i : ℕ) (o : Option ℕ)
    → get_elem? t.popped i ≡ o
    → IsLatched t key node
    → node < t.map.next_node
    → IsLatched (woken t i o) key node × (node < (woken t i o).map.next_node)
unfolding set_flag queue
woken-IsLatched t key node i none e l f = (l, f)
woken-IsLatched t key node i (some n) e l f =
    (ground (arith, l, contains-taken node i n t.popped e), f)

step-IsLatched :
    (t : Traffic) (key node : ℕ) (c : OtherStep node)
    → node < t.map.next_node
    → IsLatched t key node
    → IsLatched (perform t c) key node × (node < (perform t c).map.next_node)
unfolding register_waiter ensure_waiter_registered contains
step-IsLatched t key node (register k) f l = (
  ground (
    arith,
    queue-register_waiter t.map k key,
    contains-append node (queue t.map k) (t.map.next_node ∷ []),
  ),
  omega arith,
)
step-IsLatched t key node (join k n) f l = (
  ground (
    arith,
    queue-ensure_waiter_registered t.map k n key,
    contains-append node (queue t.map k) (n ∷ []),
  ),
  f,
)
step-IsLatched t key node (pop k n) f l =
    let (woken, left, others, flags, next) = pop_queue_lem t.map k n in
    let at_key : key ≢ k → queue (pop_queue t.map k n).1 key ≡ queue t.map key =
      λ ne. others key ne in
    (
      ground (
        arith,
        left,
        woken,
        ap (λ f. f node) flags,
        at_key,
        contains-split node n (queue t.map k),
        contains-append node t.popped (pop_queue t.map k n).0,
      ),
      omega (arith, next),
    )
step-IsLatched t key node (wake i) f l =
    woken-IsLatched t key node i (get_elem? t.popped i) refl l f
step-IsLatched t key node (leave k n ne) f l = (
  ground (
    arith,
    queue-unregister_waiter t.map k n key,
    contains-without node n (queue t.map k),
    (unregister_waiter_fields t.map k n).1,
  ),
  omega (arith, (unregister_waiter_fields t.map k n).0),
)

from :
    (node key : ℕ) (t : Traffic) (cs : List (OtherStep node))
    → node < t.map.next_node
    → IsLatched t key node
    → IsLatched (perform_all t cs) key node
unfolding perform_all
from node key t [] f l = l
from node key t (c ∷ cs) f l =
    let s = step-IsLatched t key node c f l in from node key (perform t c) cs s.1 s.0

starts :
    (ws : WaiterMap) (popped : List ℕ) (key : ℕ)
    → let (node, ws') = register_waiter ws key in
      IsLatched (record { map = ws'; popped = popped }) key node
unfolding contains
starts ws popped key = ground (
  arith,
  (register_waiter_lem ws key).0,
  contains-append (register_waiter ws key).0 (queue ws key) ((register_waiter ws key).0 ∷ []),
)

-- Whatever other threads do after a waiter was registered (register, rejoin, deregister waiters of
-- their own, notify any address, the steps of a notify and of several at once in any order), and
-- whatever notifies are under way when it registers: no wake is lost. The waiter is still queued,
-- or its flag is set, or a notify that has popped it has yet to set it.
pub perform_all-IsLatched :
    (ws : WaiterMap) (popped : List ℕ) (key : ℕ) (cs : List (OtherStep (register_waiter ws key).0))
    → let (node, ws') = register_waiter ws key in
      IsLatched (perform_all (record { map = ws'; popped = popped }) cs) key node
perform_all-IsLatched ws popped key cs =
    let (node, ws') = register_waiter ws key in
    from node key (record { map = ws'; popped = popped }) cs (register_waiter_lem ws key).2
      (starts ws popped key)
