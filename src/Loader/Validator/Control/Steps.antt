-- ===== src/Loader/Validator/Control/Steps.antt =====
-- The control instructions keep the frame of the function at the bottom.
use mathlib.Core.Path.{subst}
use wasmtiny.Base.{
  ℕ, zero, suc, ◌≡◌, refl, ap, ◌∙◌, some, List, [], ◌∷◌, arith, pop_back, Option-cases, inl, inr,
  Bool, true,
}
use wasmtiny.Runtime.Types.{ValType}
use wasmtiny.Runtime.Module.{Module}
use wasmtiny.Loader.Validator.{
  Check, BodyState, ValidationFrame, FrameKind, Checked, ok, err, panic, stuck, ◌>>=◌, pure, expect,
  top_frame, top_frame_or, set_top_frame, push_frame, truncate_types, mark_unreachable,
  unreachable_frame,
}
use wasmtiny.Loader.Validator.Keeps.{
  Moved, Keeps, bind-Keeps, pure-Keeps, require-Keeps, bind-ok, bind-err,
}
use wasmtiny.Loader.Validator.Keeps.Stack.{
  stack_rules, label_types_of-Keeps, truncate_types-Keeps, pop_back-ne-none,
}
use wasmtiny.Loader.Validator.Keeps.Rooted.{
  IsRooted, IsRunning, Ran, Runs, pop_back-eq, replaced-IsRooted, pushed-IsRooted, ready, Moved-Ran,
  Keeps-Runs, then-Ran, still-IsRunning, bind-Ran, bind-Runs, if-Runs,
}
use wasmtiny.Loader.Validator.Immediates.Steps.{read_rules, read_uleb-Keeps}
use wasmtiny.Loader.Validator.Control.{
  open_frame, validate_block, validate_if, close_then, else_frame, validate_else, validate_br,
  validate_br_if, read_labels, same_labels, reserve, validate_br_table, function_results,
  validate_return, validate_call, validate_call_indirect,
}

module _ (code : List ℕ) where
  pub ruleset step_rules = (stack_rules, read_rules)

  pub br_if-Keeps : Keeps code (validate_br_if code)
  unfolding validate_br_if
  br_if-Keeps = search step_rules depth 20

  pub call-Keeps : (m : Module) → Keeps code (validate_call m code)
  unfolding validate_call
  call-Keeps m = search step_rules depth 20

  pub call_indirect-Keeps : (m : Module) → Keeps code (validate_call_indirect m code)
  unfolding validate_call_indirect
  call_indirect-Keeps m = search step_rules depth 20

  read_labels-Keeps : (count : ℕ) → Keeps code (read_labels code count)
  unfolding read_labels
  read_labels-Keeps zero = search step_rules
  read_labels-Keeps (suc count) =
      bind-Keeps code _ _ (read_uleb-Keeps code)
        λ _. bind-Keeps code _ _ (read_labels-Keeps count) λ _. pure-Keeps code _

  reserve-Keeps :
      (allocates : ℕ → Bool) (count : ℕ)
      → ((n : ℕ) → allocates n ≡ true)
      → Keeps code (reserve allocates count)
  unfolding reserve
  reserve-Keeps allocates count granted = rw (granted count) (pure-Keeps code tt)

  same_labels-Keeps :
      (default_types : List ValType) (labels : List ℕ)
      → Keeps code (same_labels default_types labels)
  unfolding same_labels
  same_labels-Keeps default_types [] = search step_rules
  same_labels-Keeps default_types (depth ∷ labels) =
      bind-Keeps code _ _ (label_types_of-Keeps code depth) λ _.
        bind-Keeps code _ _ (require-Keeps code _ _) λ _. same_labels-Keeps default_types labels

  close_then-Keeps : (frame : ValidationFrame) → Keeps code (close_then frame)
  unfolding close_then
  close_then-Keeps frame = search step_rules depth 20

  function_results-Keeps : Keeps code function_results
  unfolding function_results Moved
  function_results-Keeps = record { at = λ s r. (refl, omega arith, r.inside) }

  module _ (results : List ValType) where
    -- A write to the top frame that leaves its height and its results.
    set_top-Ran :
        (s : BodyState) (frame frame' : ValidationFrame) (rest : List ValidationFrame)
        → IsRunning code results s
        → pop_back s.control_frames ≡ some (frame, rest)
        → frame'.height ≡ frame.height
        → frame'.results ≡ frame.results
        → Ran code results s (set_top_frame frame' s)
    unfolding set_top_frame Ran
    set_top-Ran s frame frame' rest r top h e =
        let root = subst (IsRooted results) (pop_back-eq s.control_frames top) r.rooted in
        rw top (replaced-IsRooted results rest frame frame' h e root, omega arith, r.inside)

    -- The top frame is taken, other work is done, and the frame is written back.
    rewrite-Ran :
        (s : BodyState) (work : Check (Unit {0})) (frame frame' : ValidationFrame)
        (rest : List ValidationFrame)
        → IsRunning code results s
        → Keeps code work
        → pop_back s.control_frames ≡ some (frame, rest)
        → frame'.height ≡ frame.height
        → frame'.results ≡ frame.results
        → Ran code results s ((work >>= λ _. set_top_frame frame') s)
    rewrite-Ran s work frame frame' rest r k top h e =
        written (work s) (k.at s (ready code results s r)) refl
      where
        written :
            (out : Checked (Unit {0} × BodyState))
            → Moved code s out
            → work s ≡ out
            → Ran code results s ((work >>= λ _. set_top_frame frame') s)
        written (ok (a, s')) m eq =
            let same : s'.control_frames ≡ s.control_frames = unfold Moved in m.0 in
            rw (bind-ok work (λ _. set_top_frame frame') s a s' eq) (
              then-Ran code results s a s' (set_top_frame frame' s')
                (Moved-Ran code results s (ok (a, s')) r m)
                (set_top-Ran s' frame frame' rest
                  (still-IsRunning code results s a s' (Moved-Ran code results s (ok (a, s')) r m))
                  (ap pop_back same ∙ top) h e))
        written (err x) m eq =
            rw (bind-err work (λ _. set_top_frame frame') s x eq) (unfold Ran in tt)
        written panic m eq = absurd (unfold Moved in m)
        written stuck m eq = absurd (unfold Moved in m)

    has_top :
        (s : BodyState)
        → IsRunning code results s
        → (frame : ValidationFrame) × (rest : List ValidationFrame) × (pop_back s.control_frames
            ≡ some (frame, rest))
    has_top s r = elim (Option-cases (pop_back s.control_frames)) [
      | inl empty ↦ absurd (pop_back-ne-none s.control_frames (ready code results s r).framed empty)
      | inr ((frame, rest), found) ↦ (frame, rest, found)
    ]

    pub mark_unreachable-Runs : Runs code results mark_unreachable
    unfolding mark_unreachable top_frame
    mark_unreachable-Runs = record {
      at = λ s r.
          let (frame, rest, found) = has_top s r in
          rw
            (bind-ok top_frame
              (λ f. truncate_types f.height >>= λ _. set_top_frame (unreachable_frame f)) s frame s
              (rw found refl))
            (rewrite-Ran s (truncate_types frame.height) frame (unreachable_frame frame) rest r
              (truncate_types-Keeps code frame.height) found refl refl);
    }

    pub validate_else-Runs : Runs code results validate_else
    unfolding validate_else top_frame_or expect pure
    validate_else-Runs = record {
      at = λ s r.
          let (frame, rest, found) = has_top s r in
          let top = top_frame_or "function {} has else without matching if" in
          rw
            (bind-ok top (λ f. close_then f >>= λ _. set_top_frame (else_frame f)) s frame s
              (rw found refl))
            (rewrite-Ran s (close_then frame) frame (else_frame frame) rest r
              (close_then-Keeps frame) found refl refl);
    }

    push_frame-Runs : (frame : ValidationFrame) → Runs code results (push_frame frame)
    unfolding push_frame Ran
    push_frame-Runs frame = record {
      at = λ s r.
          (pushed-IsRooted results s.control_frames (frame ∷ []) r.rooted, omega arith, r.inside);
    }

    ruleset run_rules = (bind-Runs, if-Runs, Keeps-Runs, step_rules, push_frame-Runs)

    open_frame-Runs :
        (kind : FrameKind) (params types : List ValType)
        → Runs code results (open_frame kind params types)
    unfolding open_frame
    open_frame-Runs kind params types = search run_rules depth 20

    pub validate_block-Runs :
        (m : Module) (kind : FrameKind) → Runs code results (validate_block m code kind)
    unfolding validate_block
    validate_block-Runs m kind = search (run_rules, open_frame-Runs) depth 20

    pub validate_if-Runs : (m : Module) → Runs code results (validate_if m code)
    unfolding validate_if
    validate_if-Runs m = search (run_rules, validate_block-Runs) depth 20

    pub validate_br-Runs : Runs code results (validate_br code)
    unfolding validate_br
    validate_br-Runs = search (run_rules, mark_unreachable-Runs) depth 20

    pub validate_br_table-Runs :
        (allocates : ℕ → Bool)
        → ((n : ℕ) → allocates n ≡ true)
        → Runs code results (validate_br_table allocates code)
    unfolding validate_br_table
    validate_br_table-Runs allocates granted =
        search
          (run_rules, mark_unreachable-Runs, read_labels-Keeps, same_labels-Keeps, reserve-Keeps)
          depth 20

    pub validate_return-Runs : Runs code results validate_return
    unfolding validate_return
    validate_return-Runs =
        search (run_rules, mark_unreachable-Runs, function_results-Keeps) depth 20

    pub ruleset control_rules = (
      bind-Runs, if-Runs, Keeps-Runs, step_rules, br_if-Keeps, call-Keeps, call_indirect-Keeps,
      mark_unreachable-Runs, validate_else-Runs, validate_block-Runs, validate_if-Runs,
      validate_br-Runs, validate_br_table-Runs, validate_return-Runs,
    )
