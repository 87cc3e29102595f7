-- ===== src/Loader/Validator/Locals/Expanded.antt =====
-- What the locals of a function expand to.
use wasmtiny.Base.{
  ℕ, zero, suc, ◌+◌, ◌≤◌, ◌≡◌, sym, ap, ◌∙◌, Bool, true, false, List, [], ◌∷◌, ◌++◌, length, ltb,
  if◌then◌else◌, arith, replicate, length-append, length-replicate, max, if-elim, append_assoc,
  append-nil,
}
use wasmtiny.Runtime.Types.{FunctionType, ValType}
use wasmtiny.Runtime.Module.{Func, Local}
use wasmtiny.Loader.Validator.Locals.{max_locals, push_locals, expand_locals, local_types}

-- Every declaration repeated as often as it says.
abbrev pub declared : List Local → List ValType
declared [] = []
declared (l ∷ locals) = replicate l.count l.type_ ++ declared locals

-- Up to one more than the cap, the inner loop pushes them all.
push_locals-fits :
    (n : ℕ) (t : ValType) (locals : List ValType)
    → length locals + n ≤ max_locals
    → push_locals n t locals ≡ (locals ++ replicate n t, false)
unfolding push_locals
push_locals-fits zero t locals h = ap (λ l. (l, false)) (sym (append-nil locals))
push_locals-fits (suc n) t locals h =
    let len : length (locals ++ (t ∷ [])) ≡ length locals + 1 =
      omega (arith, length-append locals (t ∷ [])) in
    let ih = push_locals-fits n t (locals ++ (t ∷ [])) (omega (arith, len, h)) in
    let not_over : ltb max_locals (length locals + 1) ≡ false = ground (arith, h) in
    rw (not_over, ih, append_assoc)

expand_locals-fits :
    (more : List Local) (locals : List ValType)
    → length locals + length (declared more) ≤ max_locals
    → expand_locals more locals ≡ locals ++ declared more
unfolding expand_locals
expand_locals-fits [] locals h = sym (append-nil locals)
expand_locals-fits (l ∷ more) locals h =
    let now = replicate l.count l.type_ in
    let here : length now ≡ l.count = length-replicate l.count l.type_ in
    let all = length-append now (declared more) in
    let after = length-append locals now in
    let pushed = push_locals-fits l.count l.type_ locals (omega (arith, here, all, h)) in
    let rest = expand_locals-fits more (locals ++ now) (omega (arith, here, all, after, h)) in
    rw pushed (rest ∙ append_assoc locals now (declared more))

-- How far the inner loop goes.
Capped : ℕ → List ValType × Bool → Type 0
Capped n (pushed, false) = length pushed ≤ max n max_locals
Capped n (pushed, true) = length pushed ≤ max n max_locals + 1

Capped-below :
    (m n : ℕ) (out : List ValType × Bool) → m ≤ max n max_locals → Capped m out → Capped n out
unfolding Capped
Capped-below m n (pushed, false) h c = omega (arith, h, c)
Capped-below m n (pushed, true) h c = omega (arith, h, c)

push_locals-Capped :
    (n : ℕ) (t : ValType) (locals : List ValType) → Capped (length locals) (push_locals n t locals)
unfolding push_locals Capped
push_locals-Capped zero t locals = omega arith
push_locals-Capped (suc n) t locals =
    let len = length-append locals (t ∷ []) in
    if-elim (Capped (length locals)) (ltb max_locals (length locals + 1)) (λ _. omega (arith, len))
      (λ under.
        Capped-below (length (locals ++ (t ∷ []))) (length locals)
          (push_locals n t (locals ++ (t ∷ []))) (ground (arith, under, len))
          (push_locals-Capped n t (locals ++ (t ∷ []))))

expand_next :
    (more : List Local) (n : ℕ) (out : List ValType × Bool)
    → Capped n out
    → ((pushed : List ValType)
        → length (expand_locals more pushed) ≤ max (length pushed) max_locals + 1)
    → length (if out.1 then out.0 else expand_locals more out.0) ≤ max n max_locals + 1
unfolding Capped
expand_next more n (pushed, false) c rest = omega (arith, c, rest pushed)
expand_next more n (pushed, true) c rest = c

length-expand_locals :
    (more : List Local) (locals : List ValType)
    → length (expand_locals more locals) ≤ max (length locals) max_locals + 1
unfolding expand_locals
length-expand_locals [] locals = omega arith
length-expand_locals (l ∷ more) locals =
    expand_next more (length locals) (push_locals l.count l.type_ locals)
      (push_locals-Capped l.count l.type_ locals) (λ pushed. length-expand_locals more pushed)

-- The locals of a function are its parameters, then every declaration repeated as often as it
-- says, where these are at most 100,000 together.
pub local_types_lem :
    (func : Func) (func_type : FunctionType)
    → length func_type.params + length (declared func.locals) ≤ max_locals
    → local_types func func_type ≡ func_type.params ++ declared func.locals
unfolding local_types
local_types_lem func func_type h = expand_locals-fits func.locals func_type.params h

-- Whatever the counts of a function say, at most one local more than 100,000 is allocated, or than
-- there are parameters, if these are more.
pub length-local_types :
    (func : Func) (func_type : FunctionType)
    → length (local_types func func_type) ≤ max (length func_type.params) max_locals + 1
unfolding local_types
length-local_types func func_type = length-expand_locals func.locals func_type.params
