-- ===== src/Loader/Validator/Typing/Numeric.antt =====
-- The numeric instructions by the types that the WebAssembly specification gives them.
use wasmtiny.Base.{
  ℕ, zero, suc, ◌+◌, ◌-◌, ◌≤◌, ◌<◌, ◌≡◌, refl, sym, ap, ◌∙◌, true, false, Option, none, some, List,
  [], ◌∷◌, ◌++◌, get_elem?, get_elem?-ne-none, arith, ltb, replicate, Bool-cases, Option-cases, inl,
  inr,
}
use wasmtiny.Loader.Validator.Immediates.Steps.{lt-length}
use wasmtiny.Loader.Validator.Opcodes.{NumericOp, unary, binary, numeric_op, i32, i64, f32, f64}

-- The instructions from 0x45 on in the order of the specification, with how many in a row have the
-- same types.
abbrev instructions : List (ℕ × NumericOp)
instructions =
    (1, unary i32 i32)  -- i32.eqz
    ∷ (10, binary i32 i32)  -- i32 comparisons
    ∷ (1, unary i64 i32)  -- i64.eqz
    ∷ (10, binary i64 i32)  -- i64 comparisons
    ∷ (6, binary f32 i32)  -- f32 comparisons
    ∷ (6, binary f64 i32)  -- f64 comparisons
    ∷ (3, unary i32 i32)  -- i32.clz, i32.ctz, i32.popcnt
    ∷ (15, binary i32 i32)  -- i32 arithmetic
    ∷ (3, unary i64 i64)  -- i64.clz, i64.ctz, i64.popcnt
    ∷ (15, binary i64 i64)  -- i64 arithmetic
    ∷ (7, unary f32 f32)  -- f32.abs to f32.sqrt
    ∷ (7, binary f32 f32)  -- f32.add to f32.copysign
    ∷ (7, unary f64 f64)  -- f64.abs to f64.sqrt
    ∷ (7, binary f64 f64)  -- f64.add to f64.copysign
    ∷ (1, unary i64 i32)  -- i32.wrap_i64
    ∷ (2, unary f32 i32)  -- i32.trunc_f32
    ∷ (2, unary f64 i32)  -- i32.trunc_f64
    ∷ (2, unary i32 i64)  -- i64.extend_i32
    ∷ (2, unary f32 i64)  -- i64.trunc_f32
    ∷ (2, unary f64 i64)  -- i64.trunc_f64
    ∷ (2, unary i32 f32)  -- f32.convert_i32
    ∷ (2, unary i64 f32)  -- f32.convert_i64
    ∷ (1, unary f64 f32)  -- f32.demote_f64
    ∷ (2, unary i32 f64)  -- f64.convert_i32
    ∷ (2, unary i64 f64)  -- f64.convert_i64
    ∷ (1, unary f32 f64)  -- f64.promote_f32
    ∷ (1, unary f32 i32)  -- i32.reinterpret_f32
    ∷ (1, unary f64 i64)  -- i64.reinterpret_f64
    ∷ (1, unary i32 f32)  -- f32.reinterpret_i32
    ∷ (1, unary i64 f64)  -- f64.reinterpret_i64
    ∷ (2, unary i32 i32)  -- i32.extend8_s, i32.extend16_s
    ∷ (3, unary i64 i64)  -- i64.extend8_s to i64.extend32_s
    ∷ []

abbrev expand : List (ℕ × NumericOp) → List NumericOp
expand [] = []
expand ((n, op) ∷ more) = replicate n op ++ expand more

abbrev pub specified : List NumericOp
specified = expand instructions

ops_from : ℕ → ℕ → List (Option NumericOp)
ops_from zero n = []
ops_from (suc k) n = numeric_op n ∷ ops_from k (n + 1)

abbrev all_some : List NumericOp → List (Option NumericOp)
all_some [] = []
all_some (op ∷ ops) = some op ∷ all_some ops

agree : ops_from 128 0x45 ≡ all_some specified
unfolding ops_from
agree = refl

ops_from-get_elem? : (k n i : ℕ) → i < k → get_elem? (ops_from k n) i ≡ some (numeric_op (n + i))
unfolding ops_from
ops_from-get_elem? zero n i h = absurd (omega arith)
ops_from-get_elem? (suc k) n zero h =
    let e : n ≡ n + 0 = omega arith in ap (λ j. some (numeric_op j)) e
ops_from-get_elem? (suc k) n (suc i) h =
    let e : n + 1 + i ≡ n + suc i = omega arith in
    ops_from-get_elem? k (n + 1) i (omega arith) ∙ ap (λ j. some (numeric_op j)) e

all_some-get_elem? :
    (ops : List NumericOp) (i : ℕ) (op : NumericOp)
    → get_elem? ops i ≡ some op
    → get_elem? (all_some ops) i ≡ some (some op)
all_some-get_elem? [] i op e = cc
all_some-get_elem? (o ∷ ops) zero op e = ap some e
all_some-get_elem? (o ∷ ops) (suc i) op e = all_some-get_elem? ops i op e

some-injective :
    {a b : Option NumericOp} → ◌≡◌ {A = Option (Option NumericOp)} (some a) (some b) → a ≡ b
some-injective e = cc

numeric_op-above : (n : ℕ) → 0xC5 ≤ n → numeric_op n ≡ none
numeric_op-above n h = ground (arith, h)

place-lt : (n : ℕ) → ltb (n - 0x45) 128 ≡ true → n - 0x45 < 128
place-lt n e = ground (arith, e)

place-beyond : (n : ℕ) → 0x45 ≤ n → ltb (n - 0x45) 128 ≡ false → 0xC5 ≤ n
place-beyond n h e = ground (arith, h, e)

-- The types that the validator gives an opcode from 0x45 on are those of the instruction that the
-- specification lists there, and the opcodes behind its last one, 0xC4, are no numeric ones.
pub numeric_op_lem : (n : ℕ) → 0x45 ≤ n → numeric_op n ≡ get_elem? specified (n - 0x45)
numeric_op_lem n h = elim (Option-cases (get_elem? specified (n - 0x45))) [
  | inr (op, found) ↦
      let i = n - 0x45 in
      let lt : i < 128 = lt-length specified i found in
      let at : 0x45 + i ≡ n = omega (arith, h) in
      some-injective (
        ap (λ j. some (numeric_op j)) (sym at)
        ∙ sym (ops_from-get_elem? 128 0x45 i lt)
        ∙ ap (λ ops. get_elem? ops i) agree
        ∙ all_some-get_elem? specified i op found)
      ∙ sym found
  | inl absent ↦ elim (Bool-cases (ltb (n - 0x45) 128)) [
    | inl below ↦ absurd (get_elem?-ne-none specified (n - 0x45) (place-lt n below) absent)
    | inr above ↦ numeric_op-above n (place-beyond n h above) ∙ sym absent
  ]
]
