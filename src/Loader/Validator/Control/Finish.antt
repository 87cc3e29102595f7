-- ===== src/Loader/Validator/Control/Finish.antt =====
-- What `end` leaves: the stack as it was below the frame, under the results of the frame.
use mathlib.Core.Path.{subst}
use wasmtiny.Base.{
  ℕ, ◌+◌, ◌≡◌, refl, sym, ◌⊎◌, inl, inr, Bool, true, false, List, [], ◌∷◌, ◌++◌, length, arith,
  pop_back, take, Option-cases, String, if-elim, ltb, ◌==◌, not, drop, ap, ◌∙◌, ◌-◌,
}
use wasmtiny.Runtime.Error.{WasmError}
use wasmtiny.Runtime.Types.{ValType, val_types_eq}
use wasmtiny.Runtime.Types.Equality.{val_types_eq_iff}
use wasmtiny.Loader.Validator.{
  Check, BodyState, ValidationFrame, Checked, ok, err, panic, stuck, ◌>>=◌, pure, fail, require,
  require_types, require_exact_height, truncate_types, push_types, set_stack, pop_frame_or,
  ends_with,
}
use wasmtiny.Loader.Validator.Keeps.{bind-ok, bind-err}
use wasmtiny.Loader.Validator.Keeps.Stack.{pop_back-ne-none}
use wasmtiny.Loader.Validator.Keeps.Rooted.{IsRooted, pop_back-eq}
use wasmtiny.Loader.Validator.Control.{close_frame, finish_frame, else_missing, no_frames}

-- A test: it leaves a state that passes, or it fails.
pub record IsTest (m : Check (Unit {0})) (Passes : BodyState → Type 0) : Type 0 where
  pub tested : (s : BodyState) → ((m s ≡ ok (tt, s)) × Passes s) ⊎ ((e : WasmError) × (m s ≡ err e))

require-IsTest : (message : String) (b : Bool) → IsTest (require message b) (λ s. b ≡ true)
unfolding require pure fail
require-IsTest message true = record { tested = λ s. inl (refl, refl) }
require-IsTest message false = record { tested = λ s. inr (WasmError.validation message, refl) }

-- The expected types are the last ones of the stack.
abbrev EndsWith : ValidationFrame → List ValType → BodyState → Type 0
EndsWith frame expected s = (frame.unreachable ≡ true) ⊎ (ends_with s.type_stack expected ≡ true)

-- The stack holds the results of the frame and no more.
abbrev IsExact : ValidationFrame → BodyState → Type 0
IsExact frame s =
    (frame.unreachable ≡ true) ⊎ (length s.type_stack ≡ frame.height + length frame.results)

abbrev Tested : (BodyState → Type 0) → BodyState → Checked (Unit {0} × BodyState) → Type 0
Tested Passes s out = ((out ≡ ok (tt, s)) × Passes s) ⊎ ((e : WasmError) × (out ≡ err e))

require_types-IsTest :
    (frame : ValidationFrame) (expected : List ValType)
    → IsTest (require_types frame expected) (EndsWith frame expected)
unfolding require_types
require_types-IsTest frame expected = record {
  tested = λ s.
      if-elim (Tested (EndsWith frame expected) s) frame.unreachable (λ u. inl (refl, inl u))
        λ _.
          if-elim (Tested (EndsWith frame expected) s)
            (ltb (length s.type_stack) (frame.height + length expected)) (λ _. inr (_, refl))
            λ _.
              if-elim (Tested (EndsWith frame expected) s) (ends_with s.type_stack expected)
                (λ e. inl (refl, inr e)) (λ _. inr (_, refl));
}

require_exact_height-IsTest :
    (frame : ValidationFrame) → IsTest (require_exact_height frame) (IsExact frame)
unfolding require_exact_height
require_exact_height-IsTest frame = record {
  tested = λ s.
      if-elim (Tested (IsExact frame) s) frame.unreachable (λ u. inl (refl, inl u))
        λ _.
          if-elim (Tested (IsExact frame) s)
            (length s.type_stack == frame.height + length frame.results)
            (λ e. inl (refl, inr (ground (arith, e)))) (λ _. inr (_, refl));
}

-- How a test goes on.
test_then :
    {B : Type 0} (P : Checked (B × BodyState) → Type 0) (m : Check (Unit {0})) (f : Check B)
    (Passes : BodyState → Type 0) (s : BodyState)
    → IsTest m Passes
    → ((e : WasmError) → P (err e))
    → (Passes s → P (f s))
    → P ((m >>= λ _. f) s)
test_then P m f Passes s t failed next = elim (t.tested s) [
  | inl (passed, at) ↦ subst P (sym (bind-ok m (λ _. f) s tt s passed)) (next at)
  | inr (e, refused) ↦ subst P (sym (bind-err m (λ _. f) s e refused)) (failed e)
]

abbrev closed : ValidationFrame → BodyState → BodyState
closed frame s = record s { type_stack = take frame.height s.type_stack ++ frame.results }

-- What the tests at the end of a frame find.
abbrev Fits : ValidationFrame → BodyState → Type 0
Fits frame s = (not (else_missing frame) ≡ true) × EndsWith frame frame.results s × IsExact frame s

-- Closing a frame fails or leaves the stack of the frame's height under its results.
pub close_frame-cases :
    (P : Checked (Bool × BodyState) → Type 0) (frame : ValidationFrame) (s : BodyState)
    → ((e : WasmError) → P (err e))
    → (Fits frame s → P (ok (length s.control_frames == 0, closed frame s)))
    → P (close_frame frame s)
unfolding close_frame truncate_types push_types set_stack no_frames ◌>>=◌
close_frame-cases P frame s failed next =
    test_then P (require _ (not (else_missing frame))) _ _ s (require-IsTest _ _) failed λ else_ok.
      test_then P (require_types frame frame.results) _ _ s
        (require_types-IsTest frame frame.results) failed
        λ types.
          test_then P (require_exact_height frame) _ _ s (require_exact_height-IsTest frame) failed
            λ height. next (else_ok, types, height)

-- The frame of the function alone is open, and the operands are its results, no more and no fewer,
-- unless its end is not reached.
unfoldable pub IsFinal : List ValType → BodyState → Type 0
IsFinal results s =
    (frame : ValidationFrame) × (s.control_frames ≡ frame ∷ [])
    × (frame.results ≡ results)
    × ((frame.unreachable ≡ true) ⊎ (s.type_stack ≡ results))

-- How `end` may end: behind the last frame with the results of the function alone on the stack,
-- or with the frame of the function still at the bottom.
unfoldable pub Ended : List ℕ → List ValType → BodyState → Checked (Bool × BodyState) → Type 0
unfolding IsFinal
Ended code results s (ok (true, s')) =
    (s'.type_stack ≡ results) × (s'.cursor ≡ s.cursor) × IsFinal results s
Ended code results s (ok (false, s')) = IsRooted results s'.control_frames × (s'.cursor ≡ s.cursor)
Ended code results s (err e) = Unit
Ended code results s panic = ⊥
Ended code results s stuck = ⊥

-- The tests of a frame of height 0 leave nothing but the results.
exact_stack :
    (frame : ValidationFrame) (results : List ValType) (s : BodyState)
    → Fits frame s
    → frame.height ≡ 0
    → frame.results ≡ results
    → (frame.unreachable ≡ true) ⊎ (s.type_stack ≡ results)
exact_stack frame results s (else_ok, inl dead, height) h r = inl dead
exact_stack frame results s (else_ok, inr types, inl dead) h r = inl dead
exact_stack frame results s (else_ok, inr types, inr height) h r =
    let none_more : length s.type_stack - length frame.results ≡ 0 = omega (arith, h, height) in
    let all_of : val_types_eq s.type_stack frame.results ≡ true =
      ap (λ n. val_types_eq (drop n s.type_stack) frame.results) (sym none_more) ∙ types in
    inr ((val_types_eq_iff s.type_stack frame.results).0 all_of ∙ r)

frames_left :
    (code : List ℕ) (results : List ValType) (s : BodyState) (frame : ValidationFrame)
    (rest : List ValidationFrame)
    → s.control_frames ≡ rest ++ (frame ∷ [])
    → IsRooted results (rest ++ (frame ∷ []))
    → Fits frame (record s { control_frames = rest })
    → Ended code results s
        (ok (length rest == 0, closed frame (record s { control_frames = rest })))
unfolding Ended IsRooted IsFinal
frames_left code results s frame [] e root fits =
    let none_below : take frame.height s.type_stack ≡ [] = rw (root.0) refl in
    (
      rw none_below root.1,
      refl,
      (
        frame,
        e,
        root.1,
        exact_stack frame results (record s { control_frames = [] }) fits root.0 root.1,
      ),
    )
frames_left code results s frame (f ∷ rest) e root fits = ground (arith, root)

pub finish_frame-Ended :
    (code : List ℕ) (results : List ValType) (s : BodyState)
    → IsRooted results s.control_frames
    → Ended code results s (finish_frame s)
unfolding finish_frame pop_frame_or
finish_frame-Ended code results s root = elim (Option-cases (pop_back s.control_frames)) [
  | inl empty ↦ absurd (
      pop_back-ne-none s.control_frames (λ e. unfold IsRooted in subst (IsRooted results) e root)
        empty)
  | inr ((frame, rest), found) ↦
      rw
        (bind-ok (pop_frame_or "function {} has unmatched end opcode") close_frame s frame
          (record s { control_frames = rest }) (rw found refl))
        (close_frame-cases (Ended code results s) frame (record s { control_frames = rest })
          (λ e. unfold Ended in tt)
          (frames_left code results s frame rest (pop_back-eq s.control_frames found)
            (subst (IsRooted results) (pop_back-eq s.control_frames found) root)))
]
