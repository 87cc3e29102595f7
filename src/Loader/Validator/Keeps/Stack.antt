-- ===== src/Loader/Validator/Keeps/Stack.antt =====
-- The steps on the operand stack keep the frames.
use wasmtiny.Base.{
  ℕ, ◌+◌, ◌-◌, ◌≢◌, refl, Option, none, some, List, [], ◌∷◌, ◌++◌, length, String, arith, pop_back,
  if-elim, leb, ltb, ◌==◌, get_elem?, Option-cases, inl, inr,
}
use wasmtiny.Runtime.Types.{ValType}
use wasmtiny.Loader.Validator.{
  BodyState, ValidationFrame, top_frame, require_types, require_exact_height, pop_types, pop_type,
  pop_any, push_types, truncate_types, stack_height, label_types_of, top_frame_or, last_of, popped,
  drop_types, pop_from, ends_with, set_stack,
}
use wasmtiny.Loader.Validator.Keeps.{IsReady, Moved, Keeps, keeps_rules, expect-Keeps}

pub pop_back-ne-none : {A : Type 0} (xs : List A) → xs ≢ [] → pop_back xs ≢ none
unfolding pop_back
pop_back-ne-none [] h = λ e. h refl
pop_back-ne-none (x ∷ []) h = λ e. absurd cc
pop_back-ne-none (x ∷ y ∷ xs) h = elim (Option-cases (pop_back (y ∷ xs))) [
  | inl empty ↦ absurd (pop_back-ne-none (y ∷ xs) (λ e. absurd cc) empty)
  | inr (p, found) ↦ λ e. ground (arith, found, e)
]

module _ (code : List ℕ) where
  -- A step that only writes the operand stack.
  set_stack-Keeps : (stack : List ValType) → Keeps code (set_stack stack)
  unfolding set_stack Moved
  set_stack-Keeps stack = record { at = λ s r. (refl, omega arith, r.inside) }

  pub top_frame-Keeps : Keeps code top_frame
  unfolding top_frame Moved
  top_frame-Keeps = record {
    at = λ s r. elim (Option-cases (pop_back s.control_frames)) [
      | inl empty ↦ absurd (pop_back-ne-none s.control_frames r.framed empty)
      | inr ((frame, rest), found) ↦ rw found (refl, omega arith, r.inside)
    ];
  }

  pub top_frame_or-Keeps : (message : String) → Keeps code (top_frame_or message)
  unfolding top_frame_or
  top_frame_or-Keeps message = record {
    at = λ s r. (expect-Keeps code message (last_of (pop_back s.control_frames))).at s r;
  }

  pub stack_height-Keeps : Keeps code stack_height
  unfolding stack_height Moved
  stack_height-Keeps = record { at = λ s r. (refl, omega arith, r.inside) }

  pub push_types-Keeps : (types : List ValType) → Keeps code (push_types types)
  unfolding push_types
  push_types-Keeps types = record { at = λ s r. (set_stack-Keeps (s.type_stack ++ types)).at s r }

  pub truncate_types-Keeps : (len : ℕ) → Keeps code (truncate_types len)
  unfolding truncate_types set_stack Moved
  truncate_types-Keeps len = record { at = λ s r. (refl, omega arith, r.inside) }

  pub require_types-Keeps :
      (frame : ValidationFrame) (expected : List ValType)
      → Keeps code (require_types frame expected)
  unfolding require_types Moved
  require_types-Keeps frame expected = record {
    at = λ s r.
        if-elim (Moved code s) frame.unreachable (λ _. (refl, omega arith, r.inside))
          λ _.
            if-elim (Moved code s) (ltb (length s.type_stack) (frame.height + length expected))
              (λ _. tt)
              (λ _.
                if-elim (Moved code s) (ends_with s.type_stack expected)
                  (λ _. (refl, omega arith, r.inside)) (λ _. tt));
  }

  pub require_exact_height-Keeps :
      (frame : ValidationFrame) → Keeps code (require_exact_height frame)
  unfolding require_exact_height Moved
  require_exact_height-Keeps frame = record {
    at = λ s r.
        if-elim (Moved code s) frame.unreachable (λ _. (refl, omega arith, r.inside))
          λ _.
            if-elim (Moved code s) (length s.type_stack == frame.height + length frame.results)
              (λ _. (refl, omega arith, r.inside)) (λ _. tt);
  }

  drop_types-Keeps : (frame : ValidationFrame) (n : ℕ) → Keeps code (drop_types frame n)
  unfolding drop_types set_stack Moved
  drop_types-Keeps frame n = record {
    at = λ s r.
        if-elim (Moved code s) frame.unreachable (λ _. (refl, omega arith, r.inside))
          (λ _. (refl, omega arith, r.inside));
  }

  pub pop_types-Keeps : (expected : List ValType) → Keeps code (pop_types expected)
  unfolding pop_types
  pop_types-Keeps expected =
      search (keeps_rules, top_frame-Keeps, require_types-Keeps, drop_types-Keeps)

  pub pop_type-Keeps : (expected : ValType) → Keeps code (pop_type expected)
  unfolding pop_type
  pop_type-Keeps expected = pop_types-Keeps (expected ∷ [])

  popped-Moved :
      (o : Option (ValType × List ValType)) (s : BodyState)
      → IsReady code s
      → Moved code s (popped o s)
  unfolding Moved
  popped-Moved none s r = tt
  popped-Moved (some (t, rest)) s r = (refl, omega arith, r.inside)

  pop_from-Keeps : (frame : ValidationFrame) → Keeps code (pop_from frame)
  unfolding pop_from Moved
  pop_from-Keeps frame = record {
    at = λ s r.
        if-elim (Moved code s) frame.unreachable (λ _. (refl, omega arith, r.inside))
          λ _.
            if-elim (Moved code s) (leb (length s.type_stack) frame.height) (λ _. tt)
              (λ _. popped-Moved (pop_back s.type_stack) s r);
  }

  pub pop_any-Keeps : Keeps code pop_any
  unfolding pop_any
  pop_any-Keeps = search (keeps_rules, top_frame-Keeps, pop_from-Keeps)

  pub label_types_of-Keeps : (depth : ℕ) → Keeps code (label_types_of depth)
  unfolding label_types_of Moved
  label_types_of-Keeps depth = record {
    at = λ s r.
        let n = length s.control_frames in
        if-elim (Moved code s) (ltb n (depth + 1)) (λ _. tt)
          (λ _.
            (expect-Keeps code "function {} uses invalid branch depth {}"
                (elim (get_elem? s.control_frames (n - (depth + 1))) [
                  | none ↦ none
                  | some frame ↦ some frame.label_types
                ])).at
              s r);
  }

  pub ruleset stack_rules = (
    keeps_rules, top_frame-Keeps, top_frame_or-Keeps, stack_height-Keeps, push_types-Keeps,
    truncate_types-Keeps, require_types-Keeps, require_exact_height-Keeps, pop_types-Keeps,
    pop_type-Keeps, pop_any-Keeps, label_types_of-Keeps,
  )
