-- ===== src/Runtime/ConstExpr/Typed.antt =====
-- A constant expression that the validator accepts evaluates to a value of the type that it found.
use mathlib.Core.Path.{subst}
use wasmtiny.Base.{
  ℕ, zero, suc, ◌+◌, ◌≡◌, refl, sym, ap, ◌∙◌, Option, List, [], ◌∷◌, map, length, ◌==◌, arith,
  Bool-cases, inl, inr,
}
use wasmtiny.Runtime.Types.{ValType, GlobalType}
use wasmtiny.Runtime.Values.{WasmValue, val_type}
use wasmtiny.Runtime.Module.{Module}
use wasmtiny.Loader.Reader.{BinaryReader, from_data, read_u8, remaining}
use wasmtiny.Loader.Validator.{Checked, ok, err, panic, stuck}
use wasmtiny.Loader.Validator.ConstExpr.{
  then_, Place, type_step, type_loop, finished_type, single_type, validate_const_expr,
}
use wasmtiny.Runtime.ConstExpr.{
  bad_null, value_step, value_loop, finished_value, single_value, evaluate_const_expr,
}
use wasmtiny.Runtime.ConstExpr.Follows.{Follows, if-both, reading-Follows}
use wasmtiny.Runtime.ConstExpr.Sound.{refused-Follows, AreAvailable, step-Follows}

place_then :
    (out : Checked (Place ValType)) (out' : Checked (Place WasmValue))
    (next : Place ValType → Checked (Place ValType))
    (next' : Place WasmValue → Checked (Place WasmValue))
    → Follows out out'
    → ((r : BinaryReader) (values : List WasmValue)
        → Follows (next (r, map val_type values)) (next' (r, values)))
    → Follows (then_ out next) (then_ out' next')
unfolding Follows
place_then (ok (r, types)) (ok (r', values)) next next' f k =
    subst (λ s. Follows (next (s, types)) (next' (r', values))) f.0
      (subst (λ ts. Follows (next (r', ts)) (next' (r', values))) f.1 (k r' values))
place_then (ok (r, types)) (err e) next next' f k =
    subst (λ x. Follows (next (r, types)) (err x)) (sym f) (refused-Follows (next (r, types)))
place_then (ok (r, types)) panic next next' f k = absurd f
place_then (ok (r, types)) stuck next next' f k = absurd f
place_then (err e) out' next next' f k = tt
place_then panic out' next next' f k = tt
place_then stuck out' next next' f k = tt

module _ (m : Module) (types : List GlobalType) (globals : List (Option WasmValue))
    (func_refs : List ℕ) (available : AreAvailable m types globals func_refs) where
  loop-Follows :
      (fuel : ℕ) (r : BinaryReader) (values : List WasmValue)
      → Follows
          (type_loop m types fuel r (map val_type values))
          (value_loop globals func_refs fuel r values)
  unfolding type_loop value_loop
  loop-Follows zero r values = unfold Follows in tt
  loop-Follows (suc fuel) r values = reading-Follows (read_u8 r) _ _ λ opcode s.
      if-both Follows (opcode == 0x0B) (unfold Follows in (refl, refl)) λ _.
        place_then (type_step m types opcode s (map val_type values))
          (value_step globals func_refs opcode s values) (λ p. type_loop m types fuel p.0 p.1)
          (λ p. value_loop globals func_refs fuel p.0 p.1)
          (step-Follows m types globals func_refs available opcode s values)
          (λ t left. loop-Follows fuel t left)

-- A value of the type, or the refusal of a `ref.null`.
unfoldable pub Evaluates : ValType → Checked WasmValue → Type 0
Evaluates t (ok v) = val_type v ≡ t
Evaluates t (err e) = e ≡ bad_null
Evaluates t panic = ⊥
Evaluates t stuck = ⊥

single-Evaluates :
    (values : List WasmValue) (t : ValType)
    → single_type (map val_type values) ≡ ok t
    → Evaluates t (single_value values)
unfolding Evaluates
single-Evaluates [] t e = cc
single-Evaluates (v ∷ []) t e = cc
single-Evaluates (v ∷ w ∷ values) t e = cc

finished-Evaluates :
    (out : Checked (Place ValType)) (out' : Checked (Place WasmValue)) (t : ValType)
    → Follows out out'
    → then_ out finished_type ≡ ok t
    → Evaluates t (then_ out' finished_value)
unfolding Follows Evaluates
finished-Evaluates (ok (r, types)) (ok (r', values)) t f e =
    let here : finished_type (r', map val_type values) ≡ ok t =
      ap (λ s. finished_type (s, map val_type values)) f.0
      ∙ ap (λ ts. finished_type (r, ts)) f.1
      ∙ e in
    elim (Bool-cases (remaining r' == 0)) [
      | inl empty ↦ rw empty (single-Evaluates values t (ground (arith, here, empty)))
      | inr left ↦ absurd (ground (arith, here, left))
    ]
finished-Evaluates (ok (r, types)) (err x) t f e = f
finished-Evaluates (ok (r, types)) panic t f e = f
finished-Evaluates (ok (r, types)) stuck t f e = f
finished-Evaluates (err x) out' t f e = absurd cc
finished-Evaluates panic out' t f e = absurd cc
finished-Evaluates stuck out' t f e = absurd cc

-- A constant expression that the validator accepts with a type evaluates to a value of that type,
-- or is refused for the heap type of a `ref.null`: no other error can occur, no panic, and the
-- loop ends. (Every immutable global that the validator may use has a value of its type, and there
-- is a handle for every function of the module.)
pub evaluate_const_expr-Evaluates :
    (m : Module) (expr : List ℕ) (types : List GlobalType) (globals : List (Option WasmValue))
    (func_refs : List ℕ) (t : ValType)
    → AreAvailable m types globals func_refs
    → validate_const_expr m expr types ≡ ok t
    → Evaluates t (evaluate_const_expr expr globals func_refs)
unfolding validate_const_expr evaluate_const_expr
evaluate_const_expr-Evaluates m expr types globals func_refs t available e =
    finished-Evaluates (type_loop m types (length expr + 1) (from_data expr) [])
      (value_loop globals func_refs (length expr + 1) (from_data expr) []) t
      (loop-Follows m types globals func_refs available (length expr + 1) (from_data expr) []) e
