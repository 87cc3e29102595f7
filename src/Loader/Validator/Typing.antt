-- ===== src/Loader/Validator/Typing.antt =====
-- What the steps of the validator do to the operand stack in reachable code.
mod Tests
pub mod Numeric
pub mod Effect
pub mod Unreachable
use mathlib.Core.Path.{subst}
use wasmtiny.Base.{
  ℕ, zero, suc, ◌+◌, ◌-◌, ◌≤◌, ◌<◌, ◌≡◌, ◌↔◌, refl, sym, ap, ◌∙◌, Bool, true, false, Option, none,
  some, List, [], ◌∷◌, ◌++◌, length, take, drop, ltb, if◌then◌else◌, arith, Bool-cases, inl, inr,
  pop_back, Option-cases, take-append-drop, length-take, length-drop, length-append, drop-append,
  take-append, min,
}
use wasmtiny.Runtime.Error.{WasmError}
use wasmtiny.Runtime.Types.{ValType, val_types_eq}
use wasmtiny.Runtime.Types.Equality.{val_types_eq_iff}
use wasmtiny.Loader.Validator.{
  Check, Checked, ok, err, BodyState, ValidationFrame, ◌>>=◌, ◌>>◌, top_frame, require_types,
  drop_types, pop_types, ends_with, last_of, unwrap, set_stack,
}
use wasmtiny.Loader.Validator.Keeps.{bind-ok, bind-err}

-- The top frame, which is reachable.
pub record IsIn (frame : ValidationFrame) (s : BodyState) : Type 0 where
  pub top : last_of (pop_back s.control_frames) ≡ some frame
  pub reachable : frame.unreachable ≡ false

-- The types stand on the stack above the height of the frame.
pub record Holds (frame : ValidationFrame) (expected below : List ValType) (s : BodyState)
    : Type 0 where
  pub split : s.type_stack ≡ below ++ expected
  pub above : frame.height ≤ length below

abbrev pub with_stack : BodyState → List ValType → BodyState
with_stack s stack = record s { type_stack = stack }

length-below :
    (below expected : List ValType) → length (below ++ expected) - length expected ≡ length below
length-below below expected = omega (arith, length-append below expected)

clash :
    {A : Type 0} {out : Checked (Unit {0} × BodyState)} {e : WasmError} {s : BodyState}
    → out ≡ err e
    → out ≡ ok (tt, s)
    → A
clash p q = absurd (no_clash (sym p ∙ q))
  where
    no_clash :
        {e : WasmError} {s : BodyState}
        → ◌≡◌ {A = Checked (Unit {0} × BodyState)} (err e) (ok (tt, s))
        → ⊥
    no_clash h = cc

pub out_state :
    {s t : BodyState} → ◌≡◌ {A = Checked (Unit {0} × BodyState)} (ok (tt, s)) (ok (tt, t)) → s ≡ t
out_state h = cc

module _ (frame : ValidationFrame) (s : BodyState) (r : IsIn frame s) where
  at_top : top_frame s ≡ ok (frame, s)
  unfolding top_frame
  at_top = rw r.top refl

  -- A pop is the test of its types and the truncation behind it.
  pop_types-steps :
      (expected : List ValType)
      → pop_types expected s
        ≡ (require_types frame expected >>= λ _. drop_types frame (length expected)) s
  unfolding pop_types
  pop_types-steps expected =
      bind-ok top_frame (λ f. require_types f expected >>= λ _. drop_types f (length expected)) s
        frame s at_top

  module _ (expected : List ValType) where
    accepted :
        ltb (length s.type_stack) (frame.height + length expected) ≡ false
        → ends_with s.type_stack expected ≡ true
        → pop_types expected s
          ≡ ok (tt, with_stack s (take (length s.type_stack - length expected) s.type_stack))
    accepted enough same =
        let test : require_types frame expected s ≡ ok (tt, s) =
          unfold require_types in rw (r.reachable, enough, same) refl in
        let cut : drop_types frame (length expected) s
            ≡ ok (tt, with_stack s (take (length s.type_stack - length expected) s.type_stack)) =
          unfold drop_types set_stack in rw r.reachable refl in
        pop_types-steps expected
        ∙ bind-ok (require_types frame expected) (λ _. drop_types frame (length expected)) s tt s
            test
        ∙ cut

    pub pop_types-Holds :
        (below : List ValType)
        → Holds frame expected below s
        → pop_types expected s ≡ ok (tt, with_stack s below)
    pop_types-Holds below h =
        let n : length s.type_stack - length expected ≡ length below =
          ap (λ t. length t - length expected) h.split ∙ length-below below expected in
        let back : drop (length s.type_stack - length expected) s.type_stack ≡ expected =
          ap (λ k. drop k s.type_stack) n
          ∙ ap (λ t. drop (length below) t) h.split
          ∙ drop-append below expected in
        let front : take (length s.type_stack - length expected) s.type_stack ≡ below =
          ap (λ k. take k s.type_stack) n
          ∙ ap (λ t. take (length below) t) h.split
          ∙ take-append below expected in
        let enough : ltb (length s.type_stack) (frame.height + length expected) ≡ false =
          ground (arith, h.above, ap (λ t. length t) h.split, length-append below expected) in
        accepted enough (
          (val_types_eq_iff (drop (length s.type_stack - length expected) s.type_stack) expected).1
            back)
        ∙ ap (λ t. ok (tt, with_stack s t)) front

    refused :
        (e : WasmError) → require_types frame expected s ≡ err e → pop_types expected s ≡ err e
    refused e h =
        pop_types-steps expected
        ∙ bind-err (require_types frame expected) (λ _. drop_types frame (length expected)) s e h

    pub pop_types-ok :
        (s' : BodyState)
        → pop_types expected s ≡ ok (tt, s')
        → (below : List ValType) × Holds frame expected below s × (s' ≡ with_stack s below)
    pop_types-ok s' e =
        elim (Bool-cases (ltb (length s.type_stack) (frame.height + length expected))) [
          | inl short ↦
              clash
                (refused (WasmError.validation "function {} stack underflow")
                  (unfold require_types in rw (r.reachable, short) refl))
                e
          | inr enough ↦ elim (Bool-cases (ends_with s.type_stack expected)) [
            | inl same ↦
                let k = length s.type_stack - length expected in
                let long : length expected + frame.height ≤ length s.type_stack =
                  ground (arith, enough) in
                (
                  take k s.type_stack,
                  record {
                    split =
                        sym (take-append-drop k s.type_stack)
                        ∙ ap (λ t. take k s.type_stack ++ t)
                            ((val_types_eq_iff (drop k s.type_stack) expected).0 same);
                    above = omega (arith, length-take k s.type_stack, long);
                  },
                  out_state (sym e ∙ accepted enough same),
                )
            | inr other ↦
                clash
                  (refused
                    (WasmError.validation
                      "function {} stack type mismatch: expected {:?}, got {:?}")
                    (unfold require_types in rw (r.reachable, enough, other) refl))
                  e
          ]
        ]

-- In reachable code a pop of types succeeds exactly where these types stand on top of the stack, in
-- order and above the height of the top frame; it takes them off and changes nothing else.
pub pop_types_iff :
    (frame : ValidationFrame) (s s' : BodyState) (expected : List ValType)
    → IsIn frame s
    → (pop_types expected s ≡ ok (tt, s'))
      ↔ ((below : List ValType) × Holds frame expected below s × (s' ≡ with_stack s below))
pop_types_iff frame s s' expected r = (
  pop_types-ok frame s r expected s',
  λ (below, h, e). pop_types-Holds frame s r expected below h ∙ ap (λ t. ok (tt, t)) (sym e),
)
