-- ===== src/Runtime/Types/Equality.antt =====
-- The derived `==` is equality.
use wasmtiny.Base.{◌≡◌, ◌↔◌, refl, ap, true, List, [], ◌∷◌, arith}
use wasmtiny.Runtime.Types.{FunctionType, ValType, val_type_eq, val_types_eq, function_type_eq}

pub val_type_eq_iff : (a b : ValType) → (val_type_eq a b ≡ true) ↔ (a ≡ b)
unfolding val_type_eq
val_type_eq_iff a b = (λ e. ground (arith, e), λ e. ground (arith, e))

pub val_types_eq_iff : (more bs : List ValType) → (val_types_eq more bs ≡ true) ↔ (more ≡ bs)
unfolding val_types_eq
val_types_eq_iff [] [] = (λ _. refl, λ _. refl)
val_types_eq_iff [] (b ∷ bs) = (λ e. absurd cc, λ e. absurd cc)
val_types_eq_iff (a ∷ more) [] = (λ e. absurd cc, λ e. absurd cc)
val_types_eq_iff (a ∷ more) (b ∷ bs) = (
  λ e. ground (arith, e, (val_type_eq_iff a b).0, (val_types_eq_iff more bs).0),
  λ e.
      let head : a ≡ b = cc in
      let tail : more ≡ bs = cc in
      ground (arith, (val_type_eq_iff a b).1 head, (val_types_eq_iff more bs).1 tail),
)

record_eq : {a b : FunctionType} → a.params ≡ b.params → a.results ≡ b.results → a ≡ b
record_eq p q = cc

pub function_type_eq_iff : (a b : FunctionType) → (function_type_eq a b ≡ true) ↔ (a ≡ b)
unfolding function_type_eq
function_type_eq_iff a b = (
  λ e.
      let params : a.params ≡ b.params =
        (val_types_eq_iff a.params b.params).0 (ground (arith, e)) in
      let results : a.results ≡ b.results =
        (val_types_eq_iff a.results b.results).0 (ground (arith, e)) in
      record_eq params results,
  λ e. ground (
    arith,
    (val_types_eq_iff a.params b.params).1 (ap (λ t. t.params) e),
    (val_types_eq_iff a.results b.results).1 (ap (λ t. t.results) e),
  ),
)
