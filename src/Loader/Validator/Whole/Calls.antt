-- ===== src/Loader/Validator/Whole/Calls.antt =====
-- What an accepted module promises to code that uses its indices.
use wasmtiny.Base.{
  Bool, ℕ, zero, suc, ◌^◌, ◌<◌, ◌≡◌, ◌≢◌, refl, sym, ap, ◌∙◌, Option, none, some, List, [], ◌∷◌,
  ◌++◌, length, get_elem?, get_elem?-ne-none, leb, arith, Option-cases, inl, inr, length-append,
}
use wasmtiny.Runtime.Module.{
  Module, Func, Import, ImportKind, func_import, func_type, count_imports,
}
use wasmtiny.Runtime.Module.Spaces.{imported, bind, type_indices, index_spaces_lem}
use wasmtiny.Loader.Validator.{Checked}
use wasmtiny.Loader.Validator.Sections.{
  done, ◌>>◌, for_each, function_ok, import_ok, validate_functions, validate_imports,
}
use wasmtiny.Loader.Validator.Whole.{function_space, validate, validate_start}
use wasmtiny.Loader.Validator.Whole.Exports.{both_done_iff, refuse_if_iff}

-- Both checks of an accepted pair.
pub first_done : (m n : Checked (Unit {0})) → (m >> n) ≡ done → m ≡ done
first_done m n e = ((both_done_iff m n).0 e).0

pub second_done : (m n : Checked (Unit {0})) → (m >> n) ≡ done → n ≡ done
second_done m n e = ((both_done_iff m n).0 e).1

pub for_each-head :
    {A : Type 0} (check : A → Checked (Unit {0})) (x : A) (xs : List A)
    → for_each check (x ∷ xs) ≡ done
    → (check x ≡ done) × (for_each check xs ≡ done)
unfolding for_each
for_each-head check x xs e = (both_done_iff (check x) (for_each check xs)).0 e

-- Every number is below the bound.
abbrev AllBelow : ℕ → List ℕ → Type 0
AllBelow n [] = Unit
AllBelow n (x ∷ xs) = (x < n) × AllBelow n xs

AllBelow-append : (n : ℕ) (xs ys : List ℕ) → AllBelow n xs → AllBelow n ys → AllBelow n (xs ++ ys)
AllBelow-append n [] ys a b = b
AllBelow-append n (x ∷ xs) ys a b = (a.0, AllBelow-append n xs ys a.1 b)

AllBelow-get_elem? :
    (n : ℕ) (xs : List ℕ) (i : ℕ) {x : ℕ} → AllBelow n xs → get_elem? xs i ≡ some x → x < n
AllBelow-get_elem? n [] i a e = absurd cc
AllBelow-get_elem? n (y ∷ xs) zero a e = ground (arith, a.0, e)
AllBelow-get_elem? n (y ∷ xs) (suc i) a e = AllBelow-get_elem? n xs i a.1 e

defined_below :
    (m : Module) (funcs : List Func)
    → for_each (function_ok m) funcs ≡ done
    → AllBelow (length m.types) (type_indices funcs)
defined_below m [] e = tt
defined_below m (f ∷ funcs) e =
    let (here, rest) = for_each-head (function_ok m) f funcs e in
    (
      ground (
        arith,
        (refuse_if_iff (leb (length m.types) f.type_idx) "function {}: invalid type index").0 here,
      ),
      defined_below m funcs rest,
    )

imported_below :
    (m : Module) (imports : List Import)
    → for_each (λ i. import_ok m i.kind) imports ≡ done
    → AllBelow (length m.types) (imported func_import imports)
imported_below m [] e = tt
imported_below m (i ∷ imports) e =
    let (here, rest) = for_each-head (λ j. import_ok m j.kind) i imports e in
    one_more i.kind here (imported_below m imports rest)
  where
    one_more :
        (kind : ImportKind)
        → import_ok m kind ≡ done
        → AllBelow (length m.types) (imported func_import imports)
        → AllBelow (length m.types) (elim (func_import kind) [
          | none ↦ imported func_import imports
          | some a ↦ a ∷ imported func_import imports
        ])
    one_more (ImportKind.func type_idx) ok_here all = (
      ground (
        arith,
        (refuse_if_iff (leb (length m.types) type_idx) "import {}: invalid function type index").0
            ok_here,
      ),
      all,
    )
    one_more (ImportKind.table t) ok_here all = all
    one_more (ImportKind.memory t) ok_here all = all
    one_more (ImportKind.global t) ok_here all = all
    one_more (ImportKind.tag a t) ok_here all = all

pub length-imported :
    {A : Type 0} (view : ImportKind → Option A) (imports : List Import)
    → length (imported view imports) ≡ count_imports view imports
unfolding count_imports
length-imported view [] = refl
length-imported view (i ∷ imports) = elim (Option-cases (view i.kind)) [
  | inl skip ↦ rw (count_imports, imported, skip) (length-imported view imports)
  | inr (a, hit) ↦ rw (count_imports, imported, hit) (omega (arith, length-imported view imports))
]

length-type_indices : (funcs : List Func) → length (type_indices funcs) ≡ length funcs
length-type_indices [] = refl
length-type_indices (f ∷ funcs) = ap suc (length-type_indices funcs)

-- The two sections that say which types functions have.
AreTyped : Module → Type 0
AreTyped m = (validate_imports m ≡ done) × (validate_functions m ≡ done)

typed_function :
    (m : Module) (idx : ℕ)
    → AreTyped m
    → length m.imports < 2 ^ 32
    → idx < function_space m
    → func_type m idx ≢ none
unfolding AreTyped validate_imports validate_functions
typed_function m idx typed few lt =
    let space = imported func_import m.imports ++ type_indices m.funcs in
    let below =
      AllBelow-append (length m.types) (imported func_import m.imports) (type_indices m.funcs)
        (imported_below m m.imports typed.0) (defined_below m m.funcs typed.1) in
    let size : length space ≡ function_space m = omega (
      arith,
      length-append (imported func_import m.imports) (type_indices m.funcs),
      length-imported func_import m.imports,
      length-type_indices m.funcs,
    ) in
    λ e. elim (Option-cases (get_elem? space idx)) [
      | inl absent ↦ get_elem?-ne-none space idx (omega (arith, lt, size)) absent
      | inr (type_idx, found) ↦
          get_elem?-ne-none m.types type_idx
            (AllBelow-get_elem? (length m.types) space idx below found)
            (sym (ap (λ o. bind o (get_elem? m.types)) found)
              ∙ sym (index_spaces_lem m idx few).3
              ∙ e)
    ]

-- The checks of an accepted module that come before the functions' bodies.
validate-AreTyped : (allocates : ℕ → Bool) (m : Module) → validate allocates m ≡ done → AreTyped m
unfolding validate AreTyped
validate-AreTyped allocates m e =
    let s8 = first_done _ (validate_start m) e in
    let s7 = first_done _ _ s8 in
    let s6 = first_done _ _ s7 in
    let s5 = first_done _ _ s6 in
    let s4 = first_done _ _ s5 in
    let s3 = first_done _ _ s4 in
    let s2 = first_done _ _ s3 in
    let s1 = first_done _ _ s2 in (both_done_iff (validate_imports m) (validate_functions m)).0 s1

-- In a module that the validator accepts, every function index of its index space has a type, so
-- that a call, a start function or an export that was checked against the space is never without
-- one. (A module has fewer than `2 ^ 32` imports.)
pub func_type-ne-none :
    (allocates : ℕ → Bool) (m : Module) (idx : ℕ)
    → validate allocates m ≡ done
    → length m.imports < 2 ^ 32
    → idx < function_space m
    → func_type m idx ≢ none
func_type-ne-none allocates m idx e few lt =
    typed_function m idx (validate-AreTyped allocates m e) few lt
