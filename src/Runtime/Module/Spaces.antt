-- ===== src/Runtime/Module/Spaces.antt =====
-- The index spaces of a module.
use mathlib.Core.Path.{subst}
use wasmtiny.Base.{
  ℕ, zero, suc, ◌+◌, ◌-◌, ◌%◌, ◌^◌, ◌≤◌, ◌<◌, ◌≡◌, refl, sym, ◌∙◌, Option, none, some, List, [],
  ◌∷◌, ◌++◌, length, get_elem?, ◌==◌, arith, Option-cases, inl, inr, Bool-cases,
}
use wasmtiny.Runtime.Module.{
  Module, Import, ImportKind, Func, func_import, table_import, memory_import, global_import, scan,
  table_at, memory_at, global_at, func_type, type_at, defined_func_at, type_of_func,
}

-- What the imports that `view` picks bring in, in order.
abbrev pub imported : {A : Type 0} → (ImportKind → Option A) → List Import → List A
imported view [] = []
imported view (i ∷ imports) = elim (view i.kind) [
  | none ↦ imported view imports
  | some a ↦ a ∷ imported view imports
]

abbrev pub bind : {A B : Type 0} → Option A → (A → Option B) → Option B
bind none f = none
bind (some a) f = f a

module _ {A B : Type 0} (view : ImportKind → Option A) (found : A → Option B) (own : List A) where
  -- The loop looks an index up among the imported entities followed by the module's own.
  pub scan_lem :
      (defined : ℕ → Option B)
      → ((i : ℕ) → defined i ≡ bind (get_elem? own i) found)
      → (imports : List Import) (count idx : ℕ) → count ≤ idx
      → count + length imports < 2 ^ 32
      → scan view found defined imports count idx
        ≡ bind (get_elem? (imported view imports ++ own) (idx - count)) found
  unfolding scan
  scan_lem defined same [] count idx h few = ground (arith, same (idx - count))
  scan_lem defined same (i ∷ imports) count idx h few = elim (Option-cases (view i.kind)) [
    | inl skip ↦ rw (scan, imported, skip) (scan_lem defined same imports count idx h (omega arith))
    | inr (a, hit) ↦ elim (Bool-cases (count == idx)) [
      | inl here ↦
          let at : idx - count ≡ 0 = ground (arith, here) in rw (scan, imported, hit, here, at)
      | inr beyond ↦
          let less : count < idx = ground (arith, h, beyond) in
          let next : (count + 1) % 2 ^ 32 ≡ count + 1 = omega (arith, few) in
          let at : idx - count ≡ suc (idx - (count + 1)) = omega (arith, less) in
          rw (scan, imported, hit, beyond, next, at)
            (scan_lem defined same imports (count + 1) idx (omega (arith, less))
              (omega (arith, few)))
    ]
  ]

  pub scan-zero :
      (defined : ℕ → Option B)
      → ((i : ℕ) → defined i ≡ bind (get_elem? own i) found)
      → (imports : List Import) (idx : ℕ) → length imports < 2 ^ 32
      → scan view found defined imports 0 idx
        ≡ bind (get_elem? (imported view imports ++ own) idx) found
  scan-zero defined same imports idx few =
      let e : idx - 0 ≡ idx = omega arith in
      subst
        (λ i.
          scan view found defined imports 0 idx
          ≡ bind (get_elem? (imported view imports ++ own) i) found)
        e (scan_lem defined same imports 0 idx (omega arith) (omega (arith, few)))

bind-some : {A : Type 0} (o : Option A) → bind o some ≡ o
bind-some none = refl
bind-some (some a) = refl

-- The same for entities that are looked up as they are.
scan-get_elem? :
    {A : Type 0} (view : ImportKind → Option A) (own : List A) (imports : List Import) (idx : ℕ)
    → length imports < 2 ^ 32
    → scan view some (get_elem? own) imports 0 idx ≡ get_elem? (imported view imports ++ own) idx
scan-get_elem? view own imports idx few =
    scan-zero view some own (get_elem? own) (λ i. sym (bind-some (get_elem? own i))) imports idx few
    ∙ bind-some (get_elem? (imported view imports ++ own) idx)

-- The type indices of the functions that a module defines.
abbrev pub type_indices : List Func → List ℕ
type_indices [] = []
type_indices (f ∷ funcs) = f.type_idx ∷ type_indices funcs

func_defined :
    (m : Module) (funcs : List Func) (i : ℕ)
    → type_of_func m (get_elem? funcs i)
      ≡ bind (get_elem? (type_indices funcs) i) (get_elem? m.types)
func_defined m [] i = refl
func_defined m (f ∷ funcs) zero = refl
func_defined m (f ∷ funcs) (suc i) = func_defined m funcs i

-- Tables, memories, globals and functions each have one index space: the imported ones in the
-- order of the imports, then the module's own. The type of a function is the type at its type
-- index. (A module has fewer than `2 ^ 32` imports.)
pub index_spaces_lem :
    (m : Module) (idx : ℕ)
    → length m.imports < 2 ^ 32
    → (table_at m idx ≡ get_elem? (imported table_import m.imports ++ m.tables) idx)
      × (memory_at m idx ≡ get_elem? (imported memory_import m.imports ++ m.memories) idx)
      × (global_at m idx ≡ get_elem? (imported global_import m.imports ++ m.globals) idx)
      × (func_type m idx
          ≡ bind
              (get_elem? (imported func_import m.imports ++ type_indices m.funcs) idx)
              (get_elem? m.types))
unfolding table_at memory_at global_at func_type type_at defined_func_at
index_spaces_lem m idx few = (
  scan-get_elem? table_import m.tables m.imports idx few,
  scan-get_elem? memory_import m.memories m.imports idx few,
  scan-get_elem? global_import m.globals m.imports idx few,
  scan-zero func_import (get_elem? m.types) (type_indices m.funcs)
      (λ i. type_of_func m (get_elem? m.funcs i)) (func_defined m m.funcs) m.imports idx few,
)
