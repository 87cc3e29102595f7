-- ===== src/Runtime/AtomicOp/Encoding.antt =====
-- The encoding of the atomic instructions.
use wasmtiny.Base.{
  ℕ, zero, suc, ◌+◌, ◌-◌, ◌/◌, ◌%◌, ◌≤◌, ◌<◌, ◌≡◌, refl, ap, sym, ◌∙◌, Bool, true, Option, none,
  some, List, [], ◌∷◌, get_elem?, ltb, ◌==◌, if◌then◌else◌, ◌&&◌, arith, Bool-cases, inl, inr,
}
use wasmtiny.Runtime.Types.{NumType, ValType}
use wasmtiny.Runtime.AtomicOp.{AtomicOpMeta, AtomicKind, op, i32, i64, atomic_ops, find_op, lookup}

-- The seven forms of an access, by its place in a group: the value and the bytes accessed.
abbrev pub form : ℕ → NumType × ℕ
form n =
    if n == 0
    then (NumType.i32, 4)
    else if n == 1
    then (NumType.i64, 8)
    else if n == 2
    then (NumType.i32, 1)
    else if n == 3
    then (NumType.i32, 2)
    else if n == 4
    then (NumType.i64, 1)
    else if n == 5
    then (NumType.i64, 2)
    else (NumType.i64, 4)

-- The threads proposal by ranges: groups of seven forms follow each other from 0x10 on, loads,
-- stores and then seven read-modify-write operations, the last of them with two operands.
abbrev pub group : ℕ → NumType × ℕ → ℕ → AtomicOpMeta
group g (t, width) n =
    let v = ValType.num t in
    if g == 0
    then op n AtomicKind.load (some t) (some t) width (i32 ∷ []) (v ∷ [])
    else if g == 1
    then op n AtomicKind.store (some t) none width (i32 ∷ v ∷ []) []
    else if g == 8
    then op n AtomicKind.rmw (some t) (some t) width (i32 ∷ v ∷ v ∷ []) (v ∷ [])
    else op n AtomicKind.rmw (some t) (some t) width (i32 ∷ v ∷ []) (v ∷ [])

abbrev pub encoding : ℕ → Option AtomicOpMeta
encoding n =
    if n == 0
    then some (op 0 AtomicKind.notify none (some NumType.i32) 4 (i32 ∷ i32 ∷ []) (i32 ∷ []))
    else if n == 1
    then some (op 1 AtomicKind.wait32 none (some NumType.i32) 4 (i32 ∷ i32 ∷ i64 ∷ []) (i32 ∷ []))
    else if n == 2
    then some (op 2 AtomicKind.wait64 none (some NumType.i32) 8 (i32 ∷ i64 ∷ i64 ∷ []) (i32 ∷ []))
    else if n == 3
    then some (op 3 AtomicKind.fence none none 0 [] [])
    else if ltb n 0x10
    then none
    else if ltb n 0x4F
    then some (group ((n - 0x10) / 7) (form ((n - 0x10) % 7)) n)
    else none

-- From the entry at `n` on, up to `k` subopcodes.
abbrev table_from : (ℕ → Option AtomicOpMeta) → ℕ → ℕ → List (Option AtomicOpMeta)
table_from f zero n = []
table_from f (suc k) n = f n ∷ table_from f k (n + 1)

agree : table_from lookup 79 0 ≡ table_from encoding 79 0
unfolding lookup find_op
agree = refl

table_from-get_elem? :
    (f : ℕ → Option AtomicOpMeta) (k n i : ℕ)
    → i < k
    → get_elem? (table_from f k n) i ≡ some (f (n + i))
table_from-get_elem? f zero n i h = absurd (omega arith)
table_from-get_elem? f (suc k) n zero h = let e : n + 0 ≡ n = omega arith in rw e
table_from-get_elem? f (suc k) n (suc i) h =
    let e : n + suc i ≡ n + 1 + i = omega arith in
    rw e (table_from-get_elem? f k (n + 1) i (omega arith))

table-get_elem? :
    (f : ℕ → Option AtomicOpMeta) (k i : ℕ) → i < k → get_elem? (table_from f k 0) i ≡ some (f i)
table-get_elem? f k i h =
    let e : 0 + i ≡ i = omega arith in table_from-get_elem? f k 0 i h ∙ ap (λ j. some (f j)) e

some-injective :
    {a b : Option AtomicOpMeta} → ◌≡◌ {A = Option (Option AtomicOpMeta)} (some a) (some b) → a ≡ b
some-injective e = cc

-- Every entry is below 0x4F.
abbrev all_below : List AtomicOpMeta → Bool
all_below [] = true
all_below (o ∷ ops) = ltb o.subopcode 0x4F && all_below ops

find_op-above :
    (ops : List AtomicOpMeta) (n : ℕ) → all_below ops ≡ true → 0x4F ≤ n → find_op ops n ≡ none
unfolding find_op
find_op-above [] n a h = refl
find_op-above (o ∷ ops) n a h = ground (arith, find_op-above ops n, a, h)

encoding-above : (n : ℕ) → 0x4F ≤ n → encoding n ≡ none
encoding-above n h = ground (arith, h)

above_case : (n : ℕ) → 0x4F ≤ n → lookup n ≡ encoding n
unfolding lookup
above_case n h = find_op-above atomic_ops n refl h ∙ sym (encoding-above n h)

-- The table has an entry for a subopcode exactly where the encoding of the threads proposal has
-- an instruction, and the entry has the kind, the types and the access width that the encoding
-- gives it: 0 to 3 for notify, the waits and the fence, then groups of seven forms from 0x10 on,
-- up to 0x4E.
pub lookup_lem : (n : ℕ) → lookup n ≡ encoding n
lookup_lem n = elim (Bool-cases (ltb n 0x4F)) [
  | inl below ↦
      let lt : n < 79 = ground (arith, below) in
      some-injective (
        sym (table-get_elem? lookup 79 n lt)
        ∙ ap (λ t. get_elem? t n) agree
        ∙ table-get_elem? encoding 79 n lt)
  | inr above ↦ above_case n (ground (arith, above))
]
