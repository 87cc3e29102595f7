-- ===== src/Loader/Validator/Body/Settled.antt =====
-- crates/core/src/loader/validator.rs: how the loop over a body of `validate_function_body` ends.
use mathlib.Core.Path.{subst}
use wasmtiny.Base.{
  ℕ, zero, suc, ◌+◌, ◌≤◌, ◌<◌, ◌≡◌, ◌≢◌, refl, sym, ap, ◌∙◌, Bool, true, false, Option, none, some,
  List, length, arith, get_elem?, if-elim, ltb, ◌==◌,
}
use wasmtiny.Runtime.Types.{FunctionType, ValType}
use wasmtiny.Runtime.Module.{Module, Func}
use wasmtiny.Loader.Validator.{Checked, ok, err, panic, stuck, BodyState}
use wasmtiny.Loader.Validator.Keeps.{Keeps, if-Keeps, fail-Keeps}
use wasmtiny.Loader.Validator.Keeps.Rooted.{IsRooted, IsRunning, Ran, Runs, Keeps-Runs}
use wasmtiny.Loader.Validator.Immediates.Steps.{lt-length}
use wasmtiny.Loader.Validator.Opcodes.{NumericOp}
use wasmtiny.Loader.Validator.Opcodes.Steps.{validate_numeric-Keeps}
use wasmtiny.Loader.Validator.Locals.{total_locals, max_locals, local_types}
use wasmtiny.Loader.Validator.Control.{finish_frame}
use wasmtiny.Loader.Validator.Control.Steps.{control_rules}
use wasmtiny.Loader.Validator.Control.Finish.{Ended, IsFinal, finish_frame-Ended}
use wasmtiny.Loader.Validator.Variables.Steps.{variable_rules}
use wasmtiny.Loader.Validator.References.Steps.{reference_rules}
use wasmtiny.Loader.Validator.References.Declared.{AreEnded}
use wasmtiny.Loader.Validator.Body.Reached.{Reached, Accepted, opcode_taken}
use wasmtiny.Loader.Validator.Body.{
  control_op, variable_op, reference_op, numeric_or_reference, validate_opcode, next_round,
  next_or_done, trailing, round, body_loop, initial_state, validate_function_body,
}

module _ (allocates : ℕ → Bool) (granted : (n : ℕ) → allocates n ≡ true) (m : Module)
    (ended : AreEnded m.elems) (code : List ℕ) (locals results : List ValType) where
  control_op-Runs : (opcode : ℕ) → Runs code results (control_op allocates m code opcode)
  unfolding control_op
  control_op-Runs opcode = search control_rules depth 30

  variable_op-Keeps : (opcode : ℕ) → Keeps code (variable_op m code locals opcode)
  unfolding variable_op
  variable_op-Keeps opcode = search (if-Keeps, fail-Keeps, variable_rules) depth 30

  variable_op-Runs : (opcode : ℕ) → Runs code results (variable_op m code locals opcode)
  variable_op-Runs opcode = Keeps-Runs code results _ (variable_op-Keeps opcode)

  reference_op-Runs : (opcode : ℕ) → Runs code results (reference_op m code opcode)
  unfolding reference_op
  reference_op-Runs opcode = search (control_rules, reference_rules) depth 30

  numeric-Runs :
      (opcode : ℕ) (o : Option NumericOp) → Runs code results (numeric_or_reference m code opcode o)
  numeric-Runs opcode none = reference_op-Runs opcode
  numeric-Runs opcode (some op) = Keeps-Runs code results _ (validate_numeric-Keeps code op)

  -- Every instruction but `end`.
  pub validate_opcode-Runs :
      (opcode : ℕ) → Runs code results (validate_opcode allocates m code locals opcode)
  unfolding validate_opcode
  validate_opcode-Runs opcode =
      search (control_rules, control_op-Runs, variable_op-Runs, numeric-Runs)

  module _ (first : BodyState) where
    -- How the loop may end: at the end of the code with the results alone on the stack, or with an
    -- error of its own.
    unfoldable pub Validated : Checked BodyState → Type 0
    Validated (ok s) = Accepted allocates m code locals results first s
    Validated (err e) = Unit
    Validated panic = ⊥
    Validated stuck = ⊥

    abbrev Comes : BodyState → Type 0
    Comes s = Reached allocates m code locals first s

    next_round-Validated :
        (more : BodyState → Checked BodyState) (s : BodyState)
        (out : Checked (Unit {0} × BodyState))
        → ((s' : BodyState)
            → out ≡ ok (tt, s')
            → IsRunning code results s'
            → s.cursor ≤ s'.cursor
            → Validated (more s'))
        → Ran code results s out
        → Validated (next_round more out)
    unfolding Ran Validated
    next_round-Validated more s (ok (a, s')) k ran =
        k s' refl (record { rooted = ran.0; inside = ran.2 }) ran.1
    next_round-Validated more s (err e) k ran = tt
    next_round-Validated more s panic k ran = ran
    next_round-Validated more s stuck k ran = ran

    done-Validated :
        (last s : BodyState)
        → Comes last
        → get_elem? code last.cursor ≡ some 0x0B
        → finish_frame (opcode_taken last) ≡ ok (true, s)
        → (s.type_stack ≡ results)
          × (s.cursor ≡ last.cursor + 1)
          × IsFinal results (opcode_taken last)
        → Validated (trailing code s)
    unfolding Validated
    done-Validated last s came byte finished (stack, next, final) =
        if-elim Validated (s.cursor == length code)
          (λ at.
            let at_end : s.cursor ≡ length code = ground (arith, at) in
            record {
              stack = stack;
              at_end = at_end;
              last = last;
              reached = came;
              closed = (byte, sym next ∙ at_end, finished, final);
            })
          (λ _. tt)

    next_or_done-Validated :
        (more : BodyState → Checked BodyState) (last : BodyState) (out : Checked (Bool × BodyState))
        → Comes last
        → get_elem? code last.cursor ≡ some 0x0B
        → finish_frame (opcode_taken last) ≡ out
        → last.cursor < length code
        → ((s' : BodyState)
            → Comes s'
            → IsRunning code results s'
            → last.cursor < s'.cursor
            → Validated (more s'))
        → Ended code results (opcode_taken last) out
        → Validated (next_or_done code more out)
    unfolding Ended Validated
    next_or_done-Validated more last (ok (true, s')) came byte finished h k e =
        done-Validated last s' came byte finished e
    next_or_done-Validated more last (ok (false, s')) came byte finished h k e =
        k s' (Reached.inner_end last s' came byte finished)
          (record { rooted = e.0; inside = omega (arith, e.1, h) }) (omega (arith, e.1))
    next_or_done-Validated more last (err e) came byte finished h k e' = tt
    next_or_done-Validated more last panic came byte finished h k e = e
    next_or_done-Validated more last stuck came byte finished h k e = e

    round-Validated :
        (more : BodyState → Checked BodyState) (s : BodyState) (o : Option ℕ)
        → get_elem? code s.cursor ≡ o
        → Comes s
        → IsRunning code results s
        → ((s' : BodyState)
            → Comes s'
            → IsRunning code results s'
            → s.cursor < s'.cursor
            → Validated (more s'))
        → Validated (round allocates m code locals more o s)
    unfolding Validated
    round-Validated more s none e came r k = tt
    round-Validated more s (some opcode) e came r k =
        let s' : BodyState = opcode_taken s in
        let lt = lt-length code s.cursor e in
        let r' : IsRunning code results s' = record {
          rooted = r.rooted;
          inside = omega (arith, lt);
        } in
        if-elim Validated (opcode == 0x0B)
          (λ is_end.
            next_or_done-Validated more s (finish_frame s') came
              (e ∙ ap (λ n. some n) (ground (arith, is_end))) refl (omega (arith, lt)) k
              (finish_frame-Ended code results s' r.rooted))
          (λ not_end.
            next_round-Validated more s' (validate_opcode allocates m code locals opcode s')
              (λ t done q le.
                k t (Reached.instruction s t opcode came e (ground (arith, not_end)) done) q
                  (omega (arith, le)))
              ((validate_opcode-Runs opcode).at s' r'))

    pub body_loop-Validated :
        (fuel : ℕ) (s : BodyState)
        → Comes s
        → IsRunning code results s
        → length code < fuel + s.cursor
        → Validated (body_loop allocates m code locals fuel s)
    unfolding body_loop
    body_loop-Validated zero s came r enough = absurd (omega (arith, r.inside, enough))
    body_loop-Validated (suc fuel) s came r enough =
        round-Validated (body_loop allocates m code locals fuel) s (get_elem? code s.cursor) refl
          came r
          (λ s' came' r' lt. body_loop-Validated fuel s' came' r' (omega (arith, lt, enough)))

module _ (allocates : ℕ → Bool) (granted : (n : ℕ) → allocates n ≡ true) (m : Module)
    (ended : AreEnded m.elems) (func : Func) (func_type : FunctionType) where
  -- The verdict on the body, from the state in which it starts.
  abbrev pub Verdict : Checked BodyState → Type 0
  Verdict out =
      Validated allocates granted m ended func.body (local_types func func_type) func_type.results
        (initial_state func_type) out

  body-Validated : Verdict (validate_function_body allocates m func func_type)
  unfolding validate_function_body
  body-Validated =
      if-elim Verdict (ltb max_locals (total_locals func.locals)) (λ _. unfold Validated in tt)
        (λ _.
          body_loop-Validated allocates granted m ended func.body (local_types func func_type)
            func_type.results (initial_state func_type) (length func.body + 1)
            (initial_state func_type) Reached.here
            (record { rooted = unfold IsRooted in (refl, refl); inside = omega arith })
            (omega arith))

-- The validator accepts or refuses every function body, whatever its bytes: its loops end, it
-- unwraps no missing frame, takes no slice out of range and shifts by no 32 bits or more. (The
-- allocator grants what a `br_table` asks for, and the indices behind the `ref.func`s of the
-- module's element segments have at most five bytes, as those that the parser reads have.)
pub validate_function_body-total :
    (allocates : ℕ → Bool) (m : Module) (func : Func) (func_type : FunctionType)
    → ((n : ℕ) → allocates n ≡ true)
    → AreEnded m.elems
    → (validate_function_body allocates m func func_type ≢ panic)
      × (validate_function_body allocates m func func_type ≢ stuck)
validate_function_body-total allocates m func func_type granted ended = (
  λ e.
      unfold Validated in
      subst (Verdict allocates granted m ended func func_type) e
        (body-Validated allocates granted m ended func func_type),
  λ e.
      unfold Validated in
      subst (Verdict allocates granted m ended func func_type) e
        (body-Validated allocates granted m ended func func_type),
)

-- In a function body that the validator accepts, instructions and inner `end`s that it accepts lead
-- to the last byte, an `end` in the frame of the function. There the operands are the results of
-- the function's type, in order and nothing else, unless this end is not reached; and those
-- results are what is left. (The allocator grants what a `br_table` asks for, and the indices
-- behind the `ref.func`s of the module's element segments have at most five bytes, as those that
-- the parser reads have.)
pub validate_function_body-results :
    (allocates : ℕ → Bool) (m : Module) (func : Func) (func_type : FunctionType) (s : BodyState)
    → ((n : ℕ) → allocates n ≡ true)
    → AreEnded m.elems
    → validate_function_body allocates m func func_type ≡ ok s
    → Accepted allocates m func.body
        (local_types func func_type)
        func_type.results
        (initial_state func_type)
        s
validate_function_body-results allocates m func func_type s granted ended e =
    unfold Validated in
    subst (Verdict allocates granted m ended func func_type) e
      (body-Validated allocates granted m ended func func_type)
