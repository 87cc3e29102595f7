-- ===== src/Loader/Validator/ConstExpr/Total.antt =====
-- The validation of a constant expression ends, without a panic, on every expression.
use wasmtiny.Base.{
  ℕ, zero, suc, ◌+◌, ◌≤◌, ◌<◌, ◌≡◌, refl, ap, List, [], ◌∷◌, length, ◌==◌, if-elim, arith,
  if◌then◌else◌, get_elem?-ne-none,
}
use wasmtiny.Runtime.Types.{ValType, GlobalType}
use wasmtiny.Runtime.Module.{Module}
use wasmtiny.Loader.Reader.{BinaryReader, IoResult, from_data, read_u8, read_byte, remaining}
use wasmtiny.Loader.Reader.Total.{Settled, read_u8-Settled}
use wasmtiny.Loader.Validator.{Checked, ok, err, panic, stuck}
use wasmtiny.Loader.Validator.Immediates.{wasm_error}
use wasmtiny.Loader.Validator.ConstExpr.Forward.{Returns, Forward, step-Forward}
use wasmtiny.Loader.Validator.ConstExpr.{
  reading, then_, Place, type_step, type_loop, finished_type, single_type, validate_const_expr,
}

-- One byte is one step.
pub read_u8-advances :
    (r r' : BinaryReader) (b : ℕ)
    → read_u8 r ≡ (IoResult.ok b, r')
    → (r'.bytes ≡ r.bytes) × (r'.position ≡ r.position + 1) × (r.position < length r.bytes)
unfolding read_u8 read_byte
read_u8-advances r r' b e = ground (arith, e, get_elem?-ne-none r.bytes r.position)

pub then-Returns :
    {A B : Type 0} (out : Checked A) (next : A → Checked B)
    → Returns out
    → ((a : A) → out ≡ ok a → Returns (next a))
    → Returns (then_ out next)
unfolding Returns
then-Returns (ok a) next s k = k a refl
then-Returns (err e) next s k = tt
then-Returns panic next s k = s
then-Returns stuck next s k = s

single-Returns : (types : List ValType) → Returns (single_type types)
unfolding Returns
single-Returns [] = tt
single-Returns (t ∷ []) = tt
single-Returns (t ∷ u ∷ types) = tt

finished-Returns : (p : Place ValType) → Returns (finished_type p)
finished-Returns (r, types) =
    if-elim Returns (remaining r == 0) (λ _. single-Returns types) (λ _. unfold Returns in tt)

module _ (m : Module) (globals : List GlobalType) where
  next-Returns :
      (r : BinaryReader) (out : Checked (Place ValType))
      (next : Place ValType → Checked (Place ValType))
      → Forward r out
      → ((r' : BinaryReader) (stack : List ValType)
          → Forward r (ok (r', stack))
          → Returns (next (r', stack)))
      → Returns (then_ out next)
  unfolding Forward Returns
  next-Returns r (ok (r', stack)) next f k = k r' stack f
  next-Returns r (err e) next f k = tt
  next-Returns r panic next f k = f
  next-Returns r stuck next f k = f

  -- A round whose rest returns.
  round-Returns :
      (fuel : ℕ) (r : BinaryReader) (stack : List ValType)
      → ((t : BinaryReader) (left : List ValType)
          → t.position ≤ length t.bytes
          → length t.bytes < fuel + t.position
          → Returns (type_loop m globals fuel t left))
      → length r.bytes < suc fuel + r.position
      → (out : IoResult ℕ) (r' : BinaryReader) → read_u8 r ≡ (out, r')
      → Settled r (out, r')
      → Returns (
          reading wasm_error
            (out, r')
            λ opcode s.
              if opcode == 0x0B
              then ok (s, stack)
              else then_ (type_step m globals opcode s stack) λ p. type_loop m globals fuel p.0 p.1)
  round-Returns fuel r stack rec enough (IoResult.err e) r' eq s = unfold Returns in tt
  round-Returns fuel r stack rec enough IoResult.panic r' eq s = absurd (s.no_panic refl)
  round-Returns fuel r stack rec enough IoResult.stuck r' eq s = absurd (s.ended refl)
  round-Returns fuel r stack rec enough (IoResult.ok opcode) r' eq s =
      let (bytes, place, lt) = read_u8-advances r r' opcode eq in
      let size = ap (λ b. length b) bytes in
      if-elim Returns (opcode == 0x0B) (λ _. unfold Returns in tt)
        (λ _.
          next-Returns r' (type_step m globals opcode r' stack)
            (λ p. type_loop m globals fuel p.0 p.1)
            (step-Forward m globals opcode r' stack (omega (arith, place, lt, size)))
            (λ t left f.
              unfold Forward in
              rec t left f.2 (omega (arith, enough, place, f.1, ap (λ b. length b) f.0, size))))

  type_loop-Returns :
      (fuel : ℕ) (r : BinaryReader) (stack : List ValType)
      → r.position ≤ length r.bytes
      → length r.bytes < fuel + r.position
      → Returns (type_loop m globals fuel r stack)
  unfolding type_loop
  type_loop-Returns zero r stack h enough = absurd (omega (arith, h, enough))
  type_loop-Returns (suc fuel) r stack h enough =
      round-Returns fuel r stack (type_loop-Returns fuel) enough (read_u8 r).0 (read_u8 r).1 refl
        (read_u8-Settled r h)

-- The validator accepts or refuses every constant expression: its loop ends without a panic.
pub validate_const_expr-Returns :
    (m : Module) (expr : List ℕ) (globals : List GlobalType)
    → Returns (validate_const_expr m expr globals)
unfolding validate_const_expr from_data
validate_const_expr-Returns m expr globals =
    then-Returns (type_loop m globals (length expr + 1) (from_data expr) []) finished_type
      (type_loop-Returns m globals (length expr + 1) (from_data expr) [] (omega arith)
        (omega arith))
      (λ p _. finished-Returns p)
