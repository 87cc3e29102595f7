-- ===== src/Sync/Waiters.antt =====
-- crates/core/src/runtime/shared_memory.rs: `WaiterMap` and the functions on it.
-- A waiter map with the nodes that were made for it. A node is the number under which it was
-- registered, in place of its `Arc`. A function is one critical section, but for `notify_queue`: it
-- pops the nodes under the lock of the queue and sets their flags, one by one, after that.
pub mod Queues
pub mod Latch
use wasmtiny.Base.{
  ℕ, zero, suc, ◌+◌, Bool, true, false, not, ◌||◌, Option, none, some, List, [], ◌∷◌, ◌++◌, length,
  ◌==◌, if◌then◌else◌,
}

pub record WaiterMap : Type 0 where
  pub queues : List (ℕ × List ℕ)
  pub notified : ℕ → Bool
  pub next_node : ℕ

unfoldable pub no_waiters : WaiterMap
no_waiters = record { queues = []; notified = λ _. false; next_node = 0 }

unfoldable pub find : ℕ → List (ℕ × List ℕ) → Option (List ℕ)
find k [] = none
find k ((j, q) ∷ m) = if k == j then some q else find k m

unfoldable pub put : ℕ → List ℕ → List (ℕ × List ℕ) → List (ℕ × List ℕ)
put k q [] = (k, q) ∷ []
put k q ((j, p) ∷ m) = if k == j then (k, q) ∷ m else (j, p) ∷ put k q m

unfoldable pub remove : ℕ → List (ℕ × List ℕ) → List (ℕ × List ℕ)
remove k [] = []
remove k ((j, q) ∷ m) = if k == j then remove k m else (j, q) ∷ remove k m

unfoldable pub contains : ℕ → List ℕ → Bool
contains x [] = false
contains x (y ∷ ys) = x == y || contains x ys

-- `retain(|candidate| !Arc::ptr_eq(candidate, node))`
unfoldable pub without : ℕ → List ℕ → List ℕ
without x [] = []
without x (y ∷ ys) = if x == y then without x ys else y ∷ without x ys

abbrev or_empty : Option (List ℕ) → List ℕ
or_empty none = []
or_empty (some q) = q

-- The queue of an address; an address with no entry has nobody waiting.
unfoldable pub queue : WaiterMap → ℕ → List ℕ
queue ws key = or_empty (find key ws.queues)

abbrev pub update {ℓ} : {A : Type ℓ} → (ℕ → A) → ℕ → A → ℕ → A
update f i v j = if j == i then v else f j

unfoldable pub register_waiter : WaiterMap → ℕ → ℕ × WaiterMap
register_waiter ws key = (
  ws.next_node,
  record {
    queues = put key (queue ws key ++ (ws.next_node ∷ [])) ws.queues;
    notified = update ws.notified ws.next_node false;
    next_node = suc ws.next_node;
  },
)

unfoldable pub ensure_waiter_registered : WaiterMap → ℕ → ℕ → WaiterMap
ensure_waiter_registered ws key node = record ws {
  queues =
      put key (if contains node (queue ws key) then queue ws key else queue ws key ++ (node ∷ []))
        ws.queues;
}

-- An emptied queue is dropped.
abbrev store_back : ℕ → List ℕ → List (ℕ × List ℕ) → List (ℕ × List ℕ)
store_back key [] m = remove key m
store_back key (x ∷ q) m = put key (x ∷ q) m

unregister_found : WaiterMap → ℕ → ℕ → Option (List ℕ) → WaiterMap
unregister_found ws key node none = ws
unregister_found ws key node (some q) = record ws {
  queues = store_back key (without node q) ws.queues;
}

unfoldable pub unregister_waiter : WaiterMap → ℕ → ℕ → WaiterMap
unfolding unregister_found
unregister_waiter ws key node = unregister_found ws key node (find key ws.queues)

-- `while woken.len() < n { pop_front … }`: the nodes popped, and the queue that is left.
unfoldable pub pop_waiters : ℕ → List ℕ → List ℕ × List ℕ
pop_waiters zero q = ([], q)
pop_waiters (suc n) [] = ([], [])
pop_waiters (suc n) (node ∷ q) = let (woken, left) = pop_waiters n q in (node ∷ woken, left)

-- `*node.notified.lock() = true`
unfoldable pub set_flag : (ℕ → Bool) → ℕ → ℕ → Bool
set_flag flags node = update flags node true

-- `for node in woken`, where nothing comes between.
unfoldable pub wake_all : List ℕ → (ℕ → Bool) → ℕ → Bool
wake_all [] flags = flags
wake_all (node ∷ woken) flags = wake_all woken (set_flag flags node)

pop_found : WaiterMap → ℕ → ℕ → Option (List ℕ) → List ℕ × WaiterMap
pop_found ws key n none = ([], ws)
pop_found ws key n (some q) =
    let (woken, left) = pop_waiters n q in (woken, record ws { queues = put key left ws.queues })

-- What `notify_queue` does up to the end of the lock of the queue: the nodes that it has yet to
-- wake, and the map without them. (A queue that is dropped from the map after it was looked up is
-- empty: popping from it is popping nobody.)
unfoldable pub pop_queue : WaiterMap → ℕ → ℕ → List ℕ × WaiterMap
unfolding pop_found
pop_queue ws key n = if n == 0 then ([], ws) else pop_found ws key n (find key ws.queues)

-- `notify_queue` where nothing comes between its steps.
unfoldable pub notify_queue : WaiterMap → ℕ → ℕ → ℕ × WaiterMap
notify_queue ws key n =
    let (woken, ws') = pop_queue ws key n in
    (length woken, record ws' { notified = wake_all woken ws'.notified })
