-- ===== src/Runtime/Table/Laws.antt =====
-- Every operation of a table keeps its elements of the declared type and its size in bounds.
use wasmtiny.Base.{
  ℕ, zero, suc, ◌+◌, ◌-◌, ◌^◌, ◌≤◌, ◌<◌, ◌≡◌, ◌≢◌, refl, Option, none, some, List, [], ◌∷◌, ◌++◌,
  length, take, replicate, set, arith, length-append, length-replicate, length-take, length-set,
  get_elem?-set_self, get_elem?-set_ne, get_elem?-append_left, get_elem?-take, min,
}
use wasmtiny.Runtime.Error.{ok, err, WasmError}
use wasmtiny.Runtime.Types.{RefType, ValType, TableType, limits_min, limits_max}
use wasmtiny.Runtime.Types.Matching.{val_type_eq_iff}
use wasmtiny.Runtime.Values.{WasmValue, val_type}
use wasmtiny.Runtime.Table.{Table, new, get, set_elem, grow, grown_size}

abbrev pub AllOfType : RefType → List WasmValue → Type 0
AllOfType r [] = Unit
AllOfType r (v ∷ vs) = (val_type v ≡ ValType.ref r) × AllOfType r vs

abbrev pub BelowMax : ℕ → Option ℕ → Type 0
BelowMax n none = Unit
BelowMax n (some hi) = n ≤ hi

pub record IsValid (t : Table) : Type 0 where
  pub typed : AllOfType t.type_.elem_type t.elems
  pub indexable : length t.elems < 2 ^ 32
  pub within : BelowMax (length t.elems) (limits_max t.type_.limits)

replicate-AllOfType : (r : RefType) (n : ℕ) → AllOfType r (replicate n (WasmValue.null_ref r))
unfolding val_type
replicate-AllOfType r zero = tt
replicate-AllOfType r (suc n) = (refl, replicate-AllOfType r n)

append-AllOfType :
    (r : RefType) (xs ys : List WasmValue)
    → AllOfType r xs
    → AllOfType r ys
    → AllOfType r (xs ++ ys)
append-AllOfType r [] ys p q = q
append-AllOfType r (x ∷ xs) ys p q = (p.0, append-AllOfType r xs ys p.1 q)

take-AllOfType :
    (r : RefType) (n : ℕ) (xs : List WasmValue) → AllOfType r xs → AllOfType r (take n xs)
take-AllOfType r zero xs p = tt
take-AllOfType r (suc n) [] p = tt
take-AllOfType r (suc n) (x ∷ xs) p = (p.0, take-AllOfType r n xs p.1)

set-AllOfType :
    (r : RefType) (xs : List WasmValue) (i : ℕ) (v : WasmValue)
    → AllOfType r xs
    → val_type v ≡ ValType.ref r
    → AllOfType r (set xs i v)
set-AllOfType r [] i v p q = tt
set-AllOfType r (x ∷ xs) zero v p q = (q, p.1)
set-AllOfType r (x ∷ xs) (suc i) v p q = (p.0, set-AllOfType r xs i v p.1 q)

-- A table made from limits whose minimum is a `u32` and does not pass the maximum is valid.
pub new-IsValid :
    (t : TableType)
    → limits_min t.limits < 2 ^ 32
    → BelowMax (limits_min t.limits) (limits_max t.limits)
    → IsValid (new t)
unfolding new
new-IsValid t h b = record {
  typed = replicate-AllOfType t.elem_type (limits_min t.limits);
  indexable =
      omega (arith, length-replicate (limits_min t.limits) (WasmValue.null_ref t.elem_type));
  within = rw length-replicate b;
}

-- Writing an element keeps the table valid, whether the write succeeds or not.
pub set_elem-IsValid : (t : Table) (i : ℕ) (v : WasmValue) → IsValid t → IsValid (set_elem t i v).1
unfolding set_elem
set_elem-IsValid t i v h = ground (
  arith,
  set-AllOfType t.type_.elem_type t.elems i v h.typed,
  length-set t.elems i v,
  (val_type_eq_iff (val_type v) (ValType.ref t.type_.elem_type)).0,
)

-- Growing keeps the table valid, whether it succeeds or not.
pub grow-IsValid : (t : Table) (d : ℕ) → IsValid t → IsValid (grow t d).1
unfolding grow
grow-IsValid t d h = ground (
  arith,
  replicate-AllOfType r k,
  take-AllOfType r (grown_size t d) t.elems h.typed,
  append-AllOfType r t.elems (replicate k (WasmValue.null_ref r)) h.typed,
  length-append t.elems (replicate k (WasmValue.null_ref r)),
  length-replicate k (WasmValue.null_ref r),
  length-take (grown_size t d) t.elems,
)
  where
    r : RefType
    r = t.type_.elem_type

    k : ℕ
    k = grown_size t d - length t.elems

-- A successful write lies in range, matches the element type, reads back, and leaves every other
-- element as it was; a refused one leaves the whole table as it was.
pub get-set_elem :
    (t : Table) (i j : ℕ) (v : WasmValue)
    → ((set_elem t i v).0 ≡ ok tt
        → (i < length t.elems)
          × (val_type v ≡ ValType.ref t.type_.elem_type)
          × (get (set_elem t i v).1 i ≡ some v)
          × (i ≢ j → get (set_elem t i v).1 j ≡ get t j))
      × ((set_elem t i v).0 ≢ ok tt → (set_elem t i v).1 ≡ t)
unfolding set_elem get
get-set_elem t i j v = (
  λ h. ground (
    arith,
    get_elem?-set_self t.elems i v,
    get_elem?-set_ne t.elems i j v,
    (val_type_eq_iff (val_type v) (ValType.ref t.type_.elem_type)).0,
  ),
  λ h. ground arith,
)

-- A grow within the limits returns the old size, makes the table longer by what was asked for
-- (up to 2 ^ 32 - 1 elements) and keeps every old element.
pub get-grow :
    (t : Table) (d i : ℕ)
    → IsValid t
    → (grow t d).0 ≢ err (WasmError.runtime "table size exceeds maximum")
    → ((grow t d).0 ≡ ok (length t.elems))
      × (length (grow t d).1.elems ≡ min (length t.elems + d) (2 ^ 32 - 1))
      × (i < length t.elems → get (grow t d).1 i ≡ get t i)
unfolding grow get
get-grow t d i h p = ground (
  arith,
  length-append t.elems (replicate k (WasmValue.null_ref r)),
  length-replicate k (WasmValue.null_ref r),
  length-take (grown_size t d) t.elems,
  get_elem?-append_left t.elems (replicate k (WasmValue.null_ref r)) i,
  get_elem?-take (grown_size t d) t.elems i,
)
  where
    r : RefType
    r = t.type_.elem_type

    k : ℕ
    k = grown_size t d - length t.elems
