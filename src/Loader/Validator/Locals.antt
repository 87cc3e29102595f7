-- ===== src/Loader/Validator/Locals.antt =====
-- crates/core/src/loader/validator.rs: the locals of a function.
pub mod Expanded
use wasmtiny.Base.{
  ℕ, zero, suc, ◌+◌, ◌-◌, ◌^◌, Bool, true, false, Option, none, some, List, [], ◌∷◌, ◌++◌, length,
  ltb, leb, if◌then◌else◌,
}
use wasmtiny.Runtime.Types.{FunctionType, ValType}
use wasmtiny.Runtime.Module.{Func, Local}

abbrev pub max_locals : ℕ
max_locals = 100000

-- `try_fold(0, checked_add)`
unfoldable pub sum_counts : ℕ → List Local → Option ℕ
sum_counts acc [] = some acc
sum_counts acc (l ∷ locals) =
    let rest = sum_counts (acc + l.count) locals in
    if ltb (acc + l.count) (2 ^ 32) then rest else none

abbrev or_max : Option ℕ → ℕ
or_max none = 2 ^ 32 - 1
or_max (some n) = n

unfoldable pub total_locals : List Local → ℕ
unfolding sum_counts
total_locals locals = or_max (sum_counts 0 locals)

-- The inner loop of `local_types`: the locals, and whether the cap ended it.
unfoldable pub push_locals : ℕ → ValType → List ValType → List ValType × Bool
push_locals zero t locals = (locals, false)
push_locals (suc n) t locals =
    let more = push_locals n t (locals ++ (t ∷ [])) in
    if ltb max_locals (length locals + 1) then (locals ++ (t ∷ []), true) else more

unfoldable pub expand_locals : List Local → List ValType → List ValType
unfolding push_locals
expand_locals [] locals = locals
expand_locals (l ∷ more) locals =
    let (pushed, capped) = push_locals l.count l.type_ locals in
    let rest = expand_locals more pushed in if capped then pushed else rest

unfoldable pub local_types : Func → FunctionType → List ValType
unfolding expand_locals
local_types func func_type = expand_locals func.locals func_type.params
