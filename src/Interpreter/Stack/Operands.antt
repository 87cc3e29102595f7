-- ===== src/Interpreter/Stack/Operands.antt =====
-- Pushes and pops of the operand stack.
use wasmtiny.Base.{
  ℕ, ◌<◌, ◌≡◌, ◌↔◌, some, [], ◌∷◌, ◌++◌, length, arith, refl, leb, false, pop_back-snoc,
}
use wasmtiny.Runtime.Error.{ok}
use wasmtiny.Runtime.Values.{WasmValue}
use wasmtiny.Interpreter.Stack.{
  OperandStack, push, pop, pop_i32, pop_i64, pop_f32, pop_f64, i32_of, i64_of, f32_of, f64_of,
  typed,
}

typed_i32 : (v : WasmValue) (n : ℕ) → (typed i32_of (some v) ≡ ok n) ↔ (v ≡ WasmValue.i32 n)
typed_i32 v n = (λ p. ground (arith, p), λ p. ground (arith, p))

typed_i64 : (v : WasmValue) (n : ℕ) → (typed i64_of (some v) ≡ ok n) ↔ (v ≡ WasmValue.i64 n)
typed_i64 v n = (λ p. ground (arith, p), λ p. ground (arith, p))

typed_f32 : (v : WasmValue) (n : ℕ) → (typed f32_of (some v) ≡ ok n) ↔ (v ≡ WasmValue.f32 n)
typed_f32 v n = (λ p. ground (arith, p), λ p. ground (arith, p))

typed_f64 : (v : WasmValue) (n : ℕ) → (typed f64_of (some v) ≡ ok n) ↔ (v ≡ WasmValue.f64 n)
typed_f64 v n = (λ p. ground (arith, p), λ p. ground (arith, p))

pop-push_unchecked :
    (s : OperandStack) (v : WasmValue)
    → pop (record s { slots = s.slots ++ (v ∷ []) }) ≡ (some v, s)
unfolding pop
pop-push_unchecked s v = rw (pop_back-snoc s.slots v)

-- A push below the maximal size is undone by a pop, which answers the value; a typed pop answers
-- it exactly if it has that type, and takes it off the stack in any case.
pub pop-push :
    (s : OperandStack) (v : WasmValue) (n : ℕ)
    → length s.slots < s.max_size
    → let (answer, s') = push s v in
      (answer ≡ ok tt)
      × (pop s' ≡ (some v, s))
      × (((pop_i32 s').0 ≡ ok n) ↔ (v ≡ WasmValue.i32 n))
      × (((pop_i64 s').0 ≡ ok n) ↔ (v ≡ WasmValue.i64 n))
      × (((pop_f32 s').0 ≡ ok n) ↔ (v ≡ WasmValue.f32 n))
      × (((pop_f64 s').0 ≡ ok n) ↔ (v ≡ WasmValue.f64 n))
      × ((pop_i32 s').1 ≡ s)
      × ((pop_i64 s').1 ≡ s)
      × ((pop_f32 s').1 ≡ s)
      × ((pop_f64 s').1 ≡ s)
unfolding push pop_i32 pop_i64 pop_f32 pop_f64
pop-push s v n room =
    let full : leb s.max_size (length s.slots) ≡ false = ground (arith, room) in
    rw full (
      rw (pop-push_unchecked s v) (
        refl,
        refl,
        typed_i32 v n,
        typed_i64 v n,
        typed_f32 v n,
        typed_f64 v n,
        refl,
        refl,
        refl,
        refl,
      ))
