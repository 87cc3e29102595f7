-- ===== src/Loader/Validator/ConstExpr/Forward.antt =====
-- A step of the validation of a constant expression moves the reader forward in its bytes.
use wasmtiny.Base.{
  ℕ, ◌≤◌, ◌≡◌, refl, ap, ◌∙◌, Option, none, some, List, [], ◌∷◌, ◌++◌, length, ◌==◌, ltb, if-elim,
  arith, if◌then◌else◌, pop_back, get_elem?,
}
use wasmtiny.Runtime.Error.{WasmError}
use wasmtiny.Runtime.Types.{ValType, NumType, RefType, GlobalType, val_type_eq}
use wasmtiny.Runtime.Module.{Module, func_count}
use wasmtiny.Loader.Reader.{
  BinaryReader, IoResult, read_uleb128, read_sleb128, read_sleb128_i64, read_f32, read_f64,
}
use wasmtiny.Loader.Reader.Total.{Settled, leb_readers-Settled, read_u32-Settled, read_u64-Settled}
use wasmtiny.Loader.Validator.{Checked, ok, err, panic, stuck}
use wasmtiny.Loader.Validator.Immediates.{wasm_error}
use wasmtiny.Loader.Validator.Opcodes.{within}
use wasmtiny.Loader.Validator.ConstExpr.{
  reading, then_, Place, popped_type, pop_const_expr_type, binary_types, usable_global, null_type,
  push_null, type_step,
}

-- A result or an error of the validator's.
unfoldable pub Returns : {A : Type 0} → Checked A → Type 0
Returns (ok a) = Unit
Returns (err e) = Unit
Returns panic = ⊥
Returns stuck = ⊥

-- The same, with the reader where it was.
Stays : BinaryReader → Checked (Place ValType) → Type 0
Stays r (ok (r', types)) = r' ≡ r
Stays r (err e) = Unit
Stays r panic = ⊥
Stays r stuck = ⊥

-- The same, with the reader moved forward in its bytes.
unfoldable pub Forward : BinaryReader → Checked (Place ValType) → Type 0
Forward r (ok (r', types)) =
    (r'.bytes ≡ r.bytes) × (r.position ≤ r'.position) × (r'.position ≤ length r'.bytes)
Forward r (err e) = Unit
Forward r panic = ⊥
Forward r stuck = ⊥

stays-Forward :
    (r r' : BinaryReader) (out : Checked (Place ValType))
    → r'.bytes ≡ r.bytes
    → r.position ≤ r'.position
    → r'.position ≤ length r'.bytes
    → Stays r' out
    → Forward r out
unfolding Stays Forward
stays-Forward r r' (ok (s, types)) b f i e = (
  ap (λ t. t.bytes) e ∙ b,
  omega (arith, f, ap (λ t. t.position) e),
  omega (arith, i, ap (λ t. t.position) e, ap (λ t. length t.bytes) e),
)
stays-Forward r r' (err x) b f i e = tt
stays-Forward r r' panic b f i e = e
stays-Forward r r' stuck b f i e = e

reading-Forward :
    {A : Type 0} (r : BinaryReader) (out : IoResult A × BinaryReader)
    (next : A → BinaryReader → Checked (Place ValType))
    → Settled r out
    → ((a : A) (r' : BinaryReader) → Stays r' (next a r'))
    → Forward r (reading wasm_error out next)
reading-Forward r (IoResult.ok a, r') next s k =
    stays-Forward r r' (next a r') s.same_bytes s.forward
      (omega (arith, s.inside, ap (λ b. length b) s.same_bytes)) (k a r')
reading-Forward r (IoResult.err x, r') next s k = unfold Forward in tt
reading-Forward r (IoResult.panic, r') next s k = absurd (s.no_panic refl)
reading-Forward r (IoResult.stuck, r') next s k = absurd (s.ended refl)

usable_global-Stays :
    (o : Option GlobalType) (r : BinaryReader) (stack : List ValType)
    → Stays r (usable_global o r stack)
unfolding Stays
usable_global-Stays none r stack = tt
usable_global-Stays (some g) r stack = if-elim (Stays r) g.mutable (λ _. tt) (λ _. refl)

push_null-Stays :
    (o : Option RefType) (r : BinaryReader) (stack : List ValType) → Stays r (push_null o r stack)
unfolding Stays
push_null-Stays none r stack = tt
push_null-Stays (some t) r stack = refl

popped-Returns : (t : ValType) (o : Option (ValType × List ValType)) → Returns (popped_type t o)
unfolding Returns
popped-Returns t none = tt
popped-Returns t (some (v, rest)) = if-elim Returns (val_type_eq v t) (λ _. tt) (λ _. tt)

pop-Returns : (stack : List ValType) (t : ValType) → Returns (pop_const_expr_type stack t)
unfolding pop_const_expr_type
pop-Returns stack t = popped-Returns t (pop_back stack)

then-Stays :
    (r : BinaryReader) (out : Checked (List ValType))
    (next : List ValType → Checked (Place ValType))
    → Returns out
    → ((stack : List ValType) → Stays r (next stack))
    → Stays r (then_ out next)
unfolding Returns Stays
then-Stays r (ok stack) next s k = k stack
then-Stays r (err e) next s k = tt
then-Stays r panic next s k = s
then-Stays r stuck next s k = s

binary-Stays :
    (t : ValType) (r : BinaryReader) (stack : List ValType) → Stays r (binary_types t r stack)
unfolding binary_types
binary-Stays t r stack =
    let last : List ValType → Checked (Place ValType) = λ twice. ok (r, twice ++ (t ∷ [])) in
    then-Stays r (pop_const_expr_type stack t) (λ once. then_ (pop_const_expr_type once t) last)
      (pop-Returns stack t)
      λ once.
        then-Stays r (pop_const_expr_type once t) last (pop-Returns once t)
          λ twice. unfold Stays in refl

ref_func-Stays :
    (m : Module) (idx : ℕ) (r : BinaryReader) (stack : List ValType)
    → Stays r (
        if ltb idx (func_count m)
        then ok (r, stack ++ (ValType.ref RefType.func_ref ∷ []))
        else err (WasmError.validation "constant expression references invalid function {}"))
unfolding Stays
ref_func-Stays m idx r stack = if-elim (Stays r) (ltb idx (func_count m)) (λ _. refl) (λ _. tt)

-- A read whose value is not looked at.
push-Forward :
    (r : BinaryReader) (out : IoResult ℕ × BinaryReader) (stack : List ValType)
    → Settled r out
    → Forward r (reading wasm_error out (λ _ s. ok (s, stack)))
push-Forward r out stack s =
    reading-Forward r out (λ _ t. ok (t, stack)) s (λ _ t. unfold Stays in refl)

pub step-Forward :
    (m : Module) (globals : List GlobalType) (opcode : ℕ) (r : BinaryReader) (stack : List ValType)
    → r.position ≤ length r.bytes
    → Forward r (type_step m globals opcode r stack)
unfolding type_step read_f32 read_f64
step-Forward m globals opcode r stack h =
    let (u, s, l) = leb_readers-Settled r h in
    let here = λ (out : Checked (Place ValType)) (k : Stays r out).
      stays-Forward r r out refl (omega arith) h k in
    if-elim (Forward r) (opcode == 0x23)
      (λ _.
        reading-Forward r (read_uleb128 r) _ u
          (λ idx r'. usable_global-Stays (get_elem? globals idx) r' stack))
      λ _.
        if-elim (Forward r) (opcode == 0x41) (λ _. push-Forward r (read_sleb128 r) _ s)
          λ _.
            if-elim (Forward r) (opcode == 0x42) (λ _. push-Forward r (read_sleb128_i64 r) _ l)
              λ _.
                if-elim (Forward r) (opcode == 0x43)
                  (λ _. push-Forward r (read_f32 r) _ (read_u32-Settled r h))
                  λ _.
                    if-elim (Forward r) (opcode == 0x44)
                      (λ _. push-Forward r (read_f64 r) _ (read_u64-Settled r h))
                      λ _.
                        if-elim (Forward r) (opcode == 0xD0)
                          (λ _.
                            reading-Forward r (read_sleb128_i64 r) _ l
                              (λ n r'. push_null-Stays (null_type n) r' stack))
                          λ _.
                            if-elim (Forward r) (opcode == 0xD2)
                              (λ _.
                                reading-Forward r (read_uleb128 r) _ u
                                  (λ idx r'. ref_func-Stays m idx r' stack))
                              λ _.
                                if-elim (Forward r) (within 0x6A 0x6C opcode)
                                  (λ _. here _ (binary-Stays (ValType.num NumType.i32) r stack))
                                  λ _.
                                    if-elim (Forward r) (within 0x7C 0x7E opcode)
                                      (λ _. here _ (binary-Stays (ValType.num NumType.i64) r stack))
                                      (λ _. unfold Forward in tt)
