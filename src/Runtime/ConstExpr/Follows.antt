-- ===== src/Runtime/ConstExpr/Follows.antt =====
-- How the evaluation of a constant expression follows its validation.
use mathlib.Core.Path.{subst}
use wasmtiny.Base.{
  ℕ, ◌≡◌, refl, ap, ◌∙◌, Bool, true, false, none, some, List, [], ◌∷◌, ◌++◌, map, if◌then◌else◌,
  pop_back, arith, Option-cases, inl, inr, String,
}
use wasmtiny.Runtime.Types.{ValType, NumType, val_type_eq, ref_type_eq, num_tag, ref_tag}
use wasmtiny.Runtime.Values.{WasmValue, val_type}
use wasmtiny.Loader.Reader.{BinaryReader, IoResult}
use wasmtiny.Loader.Validator.{Checked, ok, err, panic, stuck}
use wasmtiny.Loader.Validator.Immediates.{wasm_error}
use wasmtiny.Loader.Validator.ConstExpr.{
  reading, then_, Place, popped_type, pop_const_expr_type, binary_types,
}
use wasmtiny.Runtime.ConstExpr.{
  load_error, popped_value, i32_of, i64_of, pop_const_i32, pop_const_i64, binary_i32, binary_i64,
  bad_null, wrapping,
}

-- What evaluation does where the validator goes on: it reads as far, and its stack has the types
-- of the validator's, unless it refuses the heap type of a `ref.null`.
unfoldable pub Follows : Checked (Place ValType) → Checked (Place WasmValue) → Type 0
Follows (ok (r, types)) (ok (r', values)) = (r' ≡ r) × (map val_type values ≡ types)
Follows (ok _) (err e) = e ≡ bad_null
Follows (ok _) panic = ⊥
Follows (ok _) stuck = ⊥
Follows (err _) _ = Unit
Follows panic _ = Unit
Follows stuck _ = Unit

pub if-both :
    {A B : Type 0} (P : A → B → Type 0) (b : Bool) {x y : A} {x' y' : B}
    → P x x'
    → (b ≡ false → P y y')
    → P (if b then x else y) (if b then x' else y')
if-both P true p q = p
if-both P false p q = q refl

-- The same read on both sides.
pub reading-Follows :
    {A : Type 0} (out : IoResult A × BinaryReader)
    (next : A → BinaryReader → Checked (Place ValType))
    (next' : A → BinaryReader → Checked (Place WasmValue))
    → ((a : A) (r : BinaryReader) → Follows (next a r) (next' a r))
    → Follows (reading wasm_error out next) (reading load_error out next')
unfolding Follows
reading-Follows (IoResult.ok a, r) next next' f = f a r
reading-Follows (IoResult.err e, r) next next' f = tt
reading-Follows (IoResult.panic, r) next next' f = tt
reading-Follows (IoResult.stuck, r) next next' f = tt

map-append :
    (values : List WasmValue) (v : WasmValue)
    → map val_type (values ++ (v ∷ [])) ≡ map val_type values ++ (val_type v ∷ [])
map-append [] v = refl
map-append (x ∷ values) v = ap (◌∷◌ (val_type x)) (map-append values v)

pub pushed-Follows :
    (r : BinaryReader) (values : List WasmValue) (v : WasmValue) (t : ValType)
    → val_type v ≡ t
    → Follows (ok (r, map val_type values ++ (t ∷ []))) (ok (r, values ++ (v ∷ [])))
unfolding Follows
pushed-Follows r values v t e =
    (refl, map-append values v ∙ ap (λ x. map val_type values ++ (x ∷ [])) e)

pop_back-map :
    (values : List WasmValue) (v : WasmValue) (rest : List WasmValue)
    → pop_back values ≡ some (v, rest)
    → pop_back (map val_type values) ≡ some (val_type v, map val_type rest)
unfolding pop_back
pop_back-map [] v rest e = cc
pop_back-map (x ∷ []) v rest e = ground (arith, e)
pop_back-map (x ∷ y ∷ values) v rest e = elim (Option-cases (pop_back (y ∷ values))) [
  | inl empty ↦ ground (arith, e, empty)
  | inr ((w, left), found) ↦ ground (arith, e, found, pop_back-map (y ∷ values) w left found)
]

pop_back-map-none :
    (values : List WasmValue) → pop_back values ≡ none → pop_back (map val_type values) ≡ none
unfolding pop_back
pop_back-map-none [] e = refl
pop_back-map-none (x ∷ []) e = cc
pop_back-map-none (x ∷ y ∷ values) e = elim (Option-cases (pop_back (y ∷ values))) [
  | inl empty ↦ ground (arith, pop_back-map-none (y ∷ values) empty)
  | inr (p, found) ↦ ground (arith, e, found)
]

-- A pop on both sides.
Pops : Checked (List ValType) → Checked (ℕ × List WasmValue) → Type 0
Pops (ok types) (ok (n, values)) = map val_type values ≡ types
Pops (ok _) (err _) = ⊥
Pops (ok _) panic = ⊥
Pops (ok _) stuck = ⊥
Pops (err _) _ = Unit
Pops panic _ = Unit
Pops stuck _ = Unit

popped_i32-Pops :
    (v : WasmValue) (rest : List WasmValue) (message : String)
    → Pops
        (popped_type (ValType.num NumType.i32) (some (val_type v, map val_type rest)))
        (popped_value i32_of message (some (v, rest)))
unfolding Pops val_type val_type_eq ref_type_eq num_tag ref_tag
popped_i32-Pops (WasmValue.i32 n) rest message = refl
popped_i32-Pops (WasmValue.null_ref r) rest message = tt
popped_i32-Pops _ rest message = tt

popped_i64-Pops :
    (v : WasmValue) (rest : List WasmValue) (message : String)
    → Pops
        (popped_type (ValType.num NumType.i64) (some (val_type v, map val_type rest)))
        (popped_value i64_of message (some (v, rest)))
unfolding Pops val_type val_type_eq ref_type_eq num_tag ref_tag
popped_i64-Pops (WasmValue.i64 n) rest message = refl
popped_i64-Pops (WasmValue.null_ref r) rest message = tt
popped_i64-Pops _ rest message = tt

pop_i32-Pops :
    (values : List WasmValue)
    → Pops
        (pop_const_expr_type (map val_type values) (ValType.num NumType.i32))
        (pop_const_i32 values)
unfolding pop_const_expr_type pop_const_i32
pop_i32-Pops values = elim (Option-cases (pop_back values)) [
  | inl empty ↦ rw (empty, pop_back-map-none values empty) (unfold Pops in tt)
  | inr ((v, rest), found) ↦
      rw (found, pop_back-map values v rest found)
        (popped_i32-Pops v rest "constant expression expected i32, got {:?}")
]

pop_i64-Pops :
    (values : List WasmValue)
    → Pops
        (pop_const_expr_type (map val_type values) (ValType.num NumType.i64))
        (pop_const_i64 values)
unfolding pop_const_expr_type pop_const_i64
pop_i64-Pops values = elim (Option-cases (pop_back values)) [
  | inl empty ↦ rw (empty, pop_back-map-none values empty) (unfold Pops in tt)
  | inr ((v, rest), found) ↦
      rw (found, pop_back-map values v rest found)
        (popped_i64-Pops v rest "constant expression expected i64, got {:?}")
]

then-Follows :
    (out : Checked (List ValType)) (out' : Checked (ℕ × List WasmValue))
    (next : List ValType → Checked (Place ValType))
    (next' : ℕ × List WasmValue → Checked (Place WasmValue))
    → Pops out out'
    → ((n : ℕ) (values : List WasmValue) → Follows (next (map val_type values)) (next' (n, values)))
    → Follows (then_ out next) (then_ out' next')
unfolding Pops Follows
then-Follows (ok types) (ok (n, values)) next next' p f =
    subst (λ ts. Follows (next ts) (next' (n, values))) p (f n values)
then-Follows (ok types) (err e) next next' p f = absurd p
then-Follows (ok types) panic next next' p f = absurd p
then-Follows (ok types) stuck next next' p f = absurd p
then-Follows (err e) out' next next' p f = tt
then-Follows panic out' next next' p f = tt
then-Follows stuck out' next next' p f = tt

pub binary_i32-Follows :
    (place : ℕ) (r : BinaryReader) (values : List WasmValue)
    → Follows
        (binary_types (ValType.num NumType.i32) r (map val_type values))
        (binary_i32 place r values)
unfolding binary_types binary_i32
binary_i32-Follows place r values = then-Follows _ _ _ _ (pop_i32-Pops values) λ rhs once.
    then-Follows _ _ _ _ (pop_i32-Pops once) λ lhs twice.
      pushed-Follows r twice (WasmValue.i32 (wrapping 32 place lhs rhs)) (ValType.num NumType.i32)
        (unfold val_type in refl)

pub binary_i64-Follows :
    (place : ℕ) (r : BinaryReader) (values : List WasmValue)
    → Follows
        (binary_types (ValType.num NumType.i64) r (map val_type values))
        (binary_i64 place r values)
unfolding binary_types binary_i64
binary_i64-Follows place r values = then-Follows _ _ _ _ (pop_i64-Pops values) λ rhs once.
    then-Follows _ _ _ _ (pop_i64-Pops once) λ lhs twice.
      pushed-Follows r twice (WasmValue.i64 (wrapping 64 place lhs rhs)) (ValType.num NumType.i64)
        (unfold val_type in refl)
