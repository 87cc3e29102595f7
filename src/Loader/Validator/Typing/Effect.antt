-- ===== src/Loader/Validator/Typing/Effect.antt =====
-- What a numeric instruction does to the operand stack.
use wasmtiny.Base.{
  append_assoc, ◌≡◌, ◌↔◌, refl, sym, ap, ◌∙◌, List, [], ◌∷◌, ◌++◌, arith, length-append,
}
use wasmtiny.Runtime.Types.{ValType}
use wasmtiny.Loader.Validator.{
  ok, BodyState, ValidationFrame, ◌>>=◌, pop_types, pop_type, push_types, set_stack,
  validate_unary_numeric, validate_binary_numeric,
}
use wasmtiny.Loader.Validator.Keeps.{bind-ok, bind-inverted}
use wasmtiny.Loader.Validator.Opcodes.{NumericOp, unary, binary, validate_numeric}
use wasmtiny.Loader.Validator.Typing.{
  IsIn, Holds, with_stack, pop_types-Holds, pop_types-ok, out_state,
}

abbrev pub operands : NumericOp → List ValType
operands (unary t _) = t ∷ []
operands (binary t _) = t ∷ t ∷ []

abbrev pub result : NumericOp → ValType
result (unary _ u) = u
result (binary _ u) = u

module _ (frame : ValidationFrame) (s : BodyState) (r : IsIn frame s) where
  -- The state stays in its frame whatever its stack becomes.
  still-IsIn : (stack : List ValType) → IsIn frame (with_stack s stack)
  still-IsIn stack = record { top = r.top; reachable = r.reachable }

  pub validate_numeric-Holds :
      (op : NumericOp) (below : List ValType)
      → Holds frame (operands op) below s
      → validate_numeric op s ≡ ok (tt, with_stack s (below ++ (result op ∷ [])))
  unfolding validate_numeric validate_unary_numeric validate_binary_numeric pop_type push_types
      set_stack
  validate_numeric-Holds (unary t u) below h =
      bind-ok (pop_types (t ∷ [])) (λ _. push_types (u ∷ [])) s tt (with_stack s below)
        (pop_types-Holds frame s r (t ∷ []) below h)
  validate_numeric-Holds (binary t u) below h =
      let once = below ++ (t ∷ []) in
      let h1 : Holds frame (t ∷ []) once s = record {
        split = h.split ∙ sym (append_assoc below (t ∷ []) (t ∷ []));
        above = omega (arith, h.above, length-append below (t ∷ []));
      } in
      let h2 : Holds frame (t ∷ []) below (with_stack s once) = record {
        split = refl;
        above = h.above;
      } in
      bind-ok (pop_types (t ∷ [])) (λ _. pop_types (t ∷ []) >>= λ _. push_types (u ∷ [])) s tt
        (with_stack s once) (pop_types-Holds frame s r (t ∷ []) once h1)
      ∙ bind-ok (pop_types (t ∷ [])) (λ _. push_types (u ∷ [])) (with_stack s once) tt
          (with_stack s below)
          (pop_types-Holds frame (with_stack s once) (still-IsIn once) (t ∷ []) below h2)

  unary-ok :
      (t u : ValType) (s' : BodyState)
      → (pop_types (t ∷ []) >>= λ _. push_types (u ∷ [])) s ≡ ok (tt, s')
      → (below : List ValType) × Holds frame (t ∷ []) below s
        × (s' ≡ with_stack s (below ++ (u ∷ [])))
  unfolding push_types set_stack
  unary-ok t u s' e =
      let (_, mid, popped, pushed) =
        bind-inverted (pop_types (t ∷ [])) (λ _. push_types (u ∷ [])) s s' tt e in
      let (below, h, same) = pop_types-ok frame s r (t ∷ []) mid popped in
      (below, h, sym (out_state pushed) ∙ ap (λ m. with_stack m (m.type_stack ++ (u ∷ []))) same)

module _ (frame : ValidationFrame) (s : BodyState) (r : IsIn frame s) where
  validate_numeric-ok :
      (op : NumericOp) (s' : BodyState)
      → validate_numeric op s ≡ ok (tt, s')
      → (below : List ValType) × Holds frame (operands op) below s
        × (s' ≡ with_stack s (below ++ (result op ∷ [])))
  unfolding validate_numeric validate_unary_numeric validate_binary_numeric pop_type
  validate_numeric-ok (unary t u) s' e = unary-ok frame s r t u s' e
  validate_numeric-ok (binary t u) s' e =
      let (_, mid, popped, rest) =
        bind-inverted (pop_types (t ∷ [])) (λ _. pop_types (t ∷ []) >>= λ _. push_types (u ∷ [])) s
          s' tt e in
      let (once, h1, same1) = pop_types-ok frame s r (t ∷ []) mid popped in
      let (below, h2, same2) =
        unary-ok frame (with_stack s once) (still-IsIn frame s r once) t u s'
          (ap (λ m. (pop_types (t ∷ []) >>= λ _. push_types (u ∷ [])) m) (sym same1) ∙ rest) in
      (
        below,
        record {
          split =
              h1.split ∙ ap (λ l. l ++ (t ∷ [])) h2.split ∙ append_assoc below (t ∷ []) (t ∷ []);
          above = h2.above;
        },
        same2,
      )

-- In reachable code a numeric instruction is accepted exactly where its operands, in order, stand
-- on top of the stack above the height of the top frame; it puts its result in their place and
-- changes nothing else.
pub validate_numeric_iff :
    (frame : ValidationFrame) (s s' : BodyState) (op : NumericOp)
    → IsIn frame s
    → (validate_numeric op s ≡ ok (tt, s')) ↔ (
        (below : List ValType) × Holds frame (operands op) below s
        × (s' ≡ with_stack s (below ++ (result op ∷ []))))
validate_numeric_iff frame s s' op r = (
  validate_numeric-ok frame s r op s',
  λ (below, h, e). validate_numeric-Holds frame s r op below h ∙ ap (λ t. ok (tt, t)) (sym e),
)
