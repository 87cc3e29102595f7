-- ===== src/Loader/Validator/Typing/Unreachable.antt =====
-- Blocks that are opened in unreachable code.
use wasmtiny.Base.{
  ◌+◌, ◌-◌, ◌≡◌, refl, ap, ◌∙◌, true, some, List, [], ◌∷◌, ◌++◌, length, arith, pop_back,
  pop_back-snoc, length-append,
}
use wasmtiny.Runtime.Types.{ValType}
use wasmtiny.Loader.Validator.{
  ok, BodyState, ValidationFrame, FrameKind, ◌>>=◌, top_frame, require_types, stack_height,
  push_frame, pop_types, last_of,
}
use wasmtiny.Loader.Validator.Keeps.{bind-ok}
use wasmtiny.Loader.Validator.Control.{open_frame, block_frame}
use wasmtiny.Loader.Validator.Typing.{IsIn, Holds, with_stack, pop_types-Holds}

-- The state behind the opening of a block in unreachable code.
abbrev pub opened : FrameKind → List ValType → List ValType → BodyState → BodyState
opened kind params results s = record s {
  control_frames =
      s.control_frames
      ++ (block_frame kind (length s.type_stack - length params) params results ∷ []);
}

module _ (kind : FrameKind) (params results : List ValType) (frame : ValidationFrame)
    (s : BodyState) where
  opens :
      last_of (pop_back s.control_frames) ≡ some frame
      → frame.unreachable ≡ true
      → open_frame kind params results s ≡ ok (tt, opened kind params results s)
  unfolding open_frame
  opens top dead =
      let at_top : top_frame s ≡ ok (frame, s) = unfold top_frame in rw top refl in
      let test : require_types frame params s ≡ ok (tt, s) = unfold require_types in rw dead refl in
      let rest = λ (f : ValidationFrame). require_types f params >>= λ _.
      stack_height >>= λ n. push_frame (block_frame kind (n - length params) params results) in
      bind-ok top_frame rest s frame s at_top
      ∙ bind-ok (require_types frame params)
          (λ _.
            stack_height >>= λ n. push_frame (block_frame kind (n - length params) params results))
          s tt s test
      ∙ bind-ok stack_height (λ n. push_frame (block_frame kind (n - length params) params results))
          s (length s.type_stack) s (unfold stack_height in refl)
      ∙ (unfold push_frame in refl)

-- In unreachable code, where the stack is as low as the top frame allows, a block of any type opens
-- without a test of its parameters: they are not put on the stack, and the frame of the block is
-- reachable and starts as many places below its parent as it has parameters. The block can then pop
-- values that belong to the code around its parent, as many as it has parameters and of whatever
-- types these are, which leaves the stack lower than the parent's own height.
pub pop_types-open_frame :
    (kind : FrameKind) (params results taken below : List ValType) (frame : ValidationFrame)
    (s : BodyState)
    → last_of (pop_back s.control_frames) ≡ some frame
    → frame.unreachable ≡ true
    → length s.type_stack ≡ frame.height
    → s.type_stack ≡ below ++ taken
    → length taken ≡ length params
    → ((open_frame kind params results >>= λ _. pop_types taken) s
        ≡ ok (tt, with_stack (opened kind params results s) below))
      × (length below + length params ≡ frame.height)
pop_types-open_frame kind params results taken below frame s top dead low split many =
    let new = block_frame kind (length s.type_stack - length params) params results in
    let size = ap (λ l. length l) split ∙ length-append below taken in
    let inner : IsIn new (opened kind params results s) = record {
      top = ap last_of (pop_back-snoc s.control_frames new);
      reachable = refl;
    } in
    let holds : Holds new taken below (opened kind params results s) = record {
      split = split;
      above = omega (arith, size, many);
    } in
    (
      bind-ok (open_frame kind params results) (λ _. pop_types taken) s tt
            (opened kind params results s) (opens kind params results frame s top dead)
          ∙ pop_types-Holds new (opened kind params results s) inner taken below holds,
      omega (arith, size, many, low),
    )
