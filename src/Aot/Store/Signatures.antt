-- ===== src/Aot/Store/Signatures.antt =====
-- The canonical ids of signatures.
use wasmtiny.Base.{
  ℕ, ◌+◌, ◌%◌, ◌^◌, ◌≤◌, ◌<◌, ◌≡◌, ◌↔◌, inl, inr, refl, sym, ap, ◌∙◌, Option, none, some, List, [],
  ◌∷◌, ◌++◌, length, get_elem?, arith, Bool-cases, Option-cases, length-append,
}
use wasmtiny.Runtime.Types.{FunctionType, function_type_eq}
use wasmtiny.Runtime.Types.Equality.{function_type_eq_iff}
use wasmtiny.Aot.Store.{AotStore, position, canonical_type_id}

-- The first place of the type, if it has one.
get_elem?-position :
    (ty : FunctionType) (types : List FunctionType) (i : ℕ)
    → position ty types ≡ some i
    → get_elem? types i ≡ some ty
unfolding position
get_elem?-position ty [] i e = cc
get_elem?-position ty (t ∷ types) i e = elim (Bool-cases (function_type_eq t ty)) [
  | inl here ↦
      let same : t ≡ ty = (function_type_eq_iff t ty).0 here in ground (arith, here, e, same)
  | inr there ↦ elim (Option-cases (position ty types)) [
    | inl absent ↦ ground (arith, there, absent, e)
    | inr (j, found) ↦ ground (arith, there, found, e, get_elem?-position ty types j found)
  ]
]

-- The first place of a type stays the first when types are added behind.
position-append :
    (ty : FunctionType) (types more : List FunctionType) (i : ℕ)
    → position ty types ≡ some i
    → position ty (types ++ more) ≡ some i
unfolding position
position-append ty [] more i e = cc
position-append ty (t ∷ types) more i e = elim (Bool-cases (function_type_eq t ty)) [
  | inl here ↦ ground (arith, here, e)
  | inr there ↦ elim (Option-cases (position ty types)) [
    | inl absent ↦ ground (arith, there, absent, e)
    | inr (j, found) ↦ ground (arith, there, found, e, position-append ty types more j found)
  ]
]

-- A type that is not there is found where it is added.
position-snoc :
    (ty : FunctionType) (types : List FunctionType)
    → position ty types ≡ none
    → position ty (types ++ (ty ∷ [])) ≡ some (length types)
unfolding position
position-snoc ty [] e = ground (arith, (function_type_eq_iff ty ty).1 refl)
position-snoc ty (t ∷ types) e = elim (Bool-cases (function_type_eq t ty)) [
  | inl here ↦ ground (arith, here, e)
  | inr there ↦ elim (Option-cases (position ty types)) [
    | inl absent ↦ ground (arith, there, absent, position-snoc ty types absent)
    | inr (j, found) ↦ ground (arith, there, found, e)
  ]
]

position-lt :
    (ty : FunctionType) (types : List FunctionType) (i : ℕ)
    → position ty types ≡ some i
    → i < length types
unfolding position
position-lt ty [] i e = absurd cc
position-lt ty (t ∷ types) i e = elim (Bool-cases (function_type_eq t ty)) [
  | inl here ↦ ground (arith, here, e)
  | inr there ↦ elim (Option-cases (position ty types)) [
    | inl absent ↦ ground (arith, there, absent, e)
    | inr (j, found) ↦ ground (arith, there, found, e, position-lt ty types j found)
  ]
]

-- The registry holds the type first at the id, and no more than one type more than before.
registered_at :
    (s : AotStore) (ty : FunctionType)
    → length s.type_registry < 2 ^ 32
    → let (id, s') = canonical_type_id s ty in
      (position ty s'.type_registry ≡ some id)
      × (length s'.type_registry ≤ length s.type_registry + 1)
unfolding canonical_type_id
registered_at s ty few = elim (Option-cases (position ty s.type_registry)) [
  | inl absent ↦
      let len : length s.type_registry % 2 ^ 32 ≡ length s.type_registry = omega (arith, few) in
      rw absent (
        position-snoc ty s.type_registry absent ∙ ap some (sym len),
        omega (arith, length-append s.type_registry (ty ∷ [])),
      )
  | inr (i, found) ↦
      let lt = position-lt ty s.type_registry i found in
      let len : i % 2 ^ 32 ≡ i = omega (arith, few, lt) in
      rw found (found ∙ ap some (sym len), omega arith)
]

registered_already :
    (s : AotStore) (ty : FunctionType) (i : ℕ)
    → length s.type_registry < 2 ^ 32
    → position ty s.type_registry ≡ some i
    → canonical_type_id s ty ≡ (i, s)
unfolding canonical_type_id
registered_already s ty i few found =
    let lt = position-lt ty s.type_registry i found in
    let len : i % 2 ^ 32 ≡ i = omega (arith, few, lt) in rw (found, len)

still_registered :
    (s : AotStore) (ty other : FunctionType) (i : ℕ)
    → position ty s.type_registry ≡ some i
    → position ty (canonical_type_id s other).1.type_registry ≡ some i
unfolding canonical_type_id
still_registered s ty other i found = elim (Option-cases (position other s.type_registry)) [
  | inl absent ↦ rw absent (position-append ty s.type_registry (other ∷ []) i found)
  | inr (j, there) ↦ rw there found
]

some-injective : {a b : FunctionType} → ◌≡◌ {A = Option FunctionType} (some a) (some b) → a ≡ b
some-injective e = cc

-- The id of a signature is the place where the registry keeps it, asking again gives the same id
-- and changes nothing, and different signatures have different ids. (Fewer than `2 ^ 32`
-- signatures are registered.)
pub canonical_type_id_lem :
    (s : AotStore) (a b : FunctionType)
    → length s.type_registry + 1 < 2 ^ 32
    → let (id, s') = canonical_type_id s a in
      let (other, s'') = canonical_type_id s' b in
      (get_elem? s'.type_registry id ≡ some a)
      × (canonical_type_id s' a ≡ (id, s'))
      × ((other ≡ id) ↔ (b ≡ a))
canonical_type_id_lem s a b few =
    let (id, s') = canonical_type_id s a in
    let (at, len) = registered_at s a (omega (arith, few)) in
    let few' : length s'.type_registry < 2 ^ 32 = omega (arith, few, len) in
    let (other, s'') = canonical_type_id s' b in
    let (at', _) = registered_at s' b few' in
    (
      get_elem?-position a s'.type_registry id at,
      registered_already s' a id few' at,
      (
        λ same. some-injective (
            sym (get_elem?-position b s''.type_registry other at')
            ∙ ap (λ i. get_elem? s''.type_registry i) same
            ∙ get_elem?-position a s''.type_registry id (still_registered s' a b id at)),
        λ e. rw e (ap (λ p. p.0) (registered_already s' a id few' at)),
      ),
    )
