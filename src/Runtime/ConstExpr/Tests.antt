-- ===== src/Runtime/ConstExpr/Tests.antt =====
-- A constant expression that reads a global.
use wasmtiny.Base.{
  ℕ, zero, suc, ◌≡◌, refl, false, Option, some, List, [], ◌∷◌, get_elem?, arith, pop_back,
}
use wasmtiny.Runtime.Types.{ValType, NumType, GlobalType, val_type_eq}
use wasmtiny.Runtime.Values.{WasmValue, val_type}
use wasmtiny.Runtime.Module.{func_count, count_imports}
use wasmtiny.Loader.Reader
use wasmtiny.Loader.Validator.{ok}
use wasmtiny.Loader.Validator.ConstExpr.{
  validate_const_expr, type_loop, type_step, binary_types, pop_const_expr_type,
}
use wasmtiny.Loader.Validator.Tests.{tiny}
use wasmtiny.Runtime.ConstExpr.{evaluate_const_expr}
use wasmtiny.Runtime.ConstExpr.Sound.{AreAvailable}
use wasmtiny.Runtime.ConstExpr.Typed.{Evaluates, evaluate_const_expr-Evaluates}

-- i32.const 5, global.get 0, i32.add, end
abbrev sum_expr : List ℕ
sum_expr = 0x41 ∷ 5 ∷ 0x23 ∷ 0 ∷ 0x6A ∷ 0x0B ∷ []

abbrev constant : GlobalType
constant = record { content_type = ValType.num NumType.i32; mutable = false }

abbrev seven : List (Option WasmValue)
seven = some (WasmValue.i32 7) ∷ []

seven_typed :
    (idx : ℕ) (t : GlobalType)
    → get_elem? (constant ∷ []) idx ≡ some t
    → t.mutable ≡ false
    → (v : WasmValue) × (get_elem? seven idx ≡ some (some v)) × (val_type v ≡ t.content_type)
unfolding val_type
seven_typed zero t e immutable = (WasmValue.i32 7, refl, cc)
seven_typed (suc idx) t e immutable = absurd cc

seven-AreAvailable : AreAvailable tiny (constant ∷ []) seven (11 ∷ [])
unfolding count_imports func_count
seven-AreAvailable = record { typed = seven_typed; handles = omega arith }

accepts_sum : validate_const_expr tiny sum_expr (constant ∷ []) ≡ ok (ValType.num NumType.i32)
unfolding validate_const_expr type_loop type_step binary_types pop_const_expr_type Reader.read_u8
    Reader.read_byte Reader.from_data Reader.read_sleb128 Reader.sleb_loop Reader.read_uleb128
    Reader.uleb_loop pop_back val_type_eq Reader.remaining
accepts_sum = refl

evaluate_const_expr-Evaluates_example :
    Evaluates (ValType.num NumType.i32) (evaluate_const_expr sum_expr seven (11 ∷ []))
evaluate_const_expr-Evaluates_example =
    evaluate_const_expr-Evaluates tiny sum_expr (constant ∷ []) seven (11 ∷ [])
      (ValType.num NumType.i32) seven-AreAvailable accepts_sum
