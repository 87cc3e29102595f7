-- ===== src/Loader/Validator/Whole/Memories.antt =====
-- The memory of an accepted module.
use mathlib.Core.Path.{subst}
use wasmtiny.Base.{
  ℕ, zero, suc, ◌^◌, ◌≤◌, ◌<◌, ◌≡◌, refl, sym, ◌∙◌, Bool, true, false, ◌&&◌, Option, none, some,
  List, [], ◌∷◌, ◌++◌, length, get_elem?, ltb, arith, length-append, String,
}
use wasmtiny.Runtime.Types.{Limits, MemoryType, limits_max}
use wasmtiny.Runtime.Module.{Module, Import, memory_import, memory_at}
use wasmtiny.Runtime.Module.Spaces.{imported, index_spaces_lem}
use wasmtiny.Loader.Validator.Sections.{
  done, refuse_if, ◌>>◌, for_each, validate_memories, memory_ok, pages_ok, unbounded_shared,
  shared_import_ok, is_none,
}
use wasmtiny.Loader.Validator.Whole.{
  memory_space, validate, import_pages_ok, validate_start, start_ok,
}
use wasmtiny.Loader.Validator.Whole.Exports.{both_done_iff, refuse_if_iff}
use wasmtiny.Loader.Validator.Whole.Calls.{first_done, second_done, for_each-head, length-imported}

-- At most 65536 pages, the minimum not above the maximum, and a maximum where it is shared.
abbrev pub PagesFit : Limits → Bool → Type 0
PagesFit (Limits.min_only lo) shared = (lo ≤ 65536) × (shared ≡ false)
PagesFit (Limits.min_max lo hi) shared = (lo ≤ hi) × (hi ≤ 65536)

abbrev pub IsBounded : MemoryType → Type 0
IsBounded memory = PagesFit memory.limits memory.shared

pages-PagesFit :
    (limits : Limits) (shared : Bool) (message : String)
    → pages_ok limits ≡ done
    → refuse_if (shared && is_none (limits_max limits)) message ≡ done
    → PagesFit limits shared
pages-PagesFit (Limits.min_only lo) true message p q = absurd cc
pages-PagesFit (Limits.min_only lo) false message p q =
    (ground (arith, (refuse_if_iff (ltb 65536 lo) "memory {}: minimum size too large").0 p), refl)
pages-PagesFit (Limits.min_max lo hi) shared message p q =
    let low = refuse_if (ltb 65536 lo) "memory {}: minimum size too large" in
    let high = refuse_if (ltb 65536 hi) "memory {}: maximum size too large" in
    let order = refuse_if (ltb hi lo) "memory {}: maximum less than minimum" in
    let last = (both_done_iff (low >> high) order).0 p in
    let mid = (both_done_iff low high).0 last.0 in
    (
      ground (arith, (refuse_if_iff (ltb hi lo) "memory {}: maximum less than minimum").0 last.1),
      ground (arith, (refuse_if_iff (ltb 65536 hi) "memory {}: maximum size too large").0 mid.1),
    )

abbrev AllBounded : List MemoryType → Type 0
AllBounded [] = Unit
AllBounded (t ∷ memories) = IsBounded t × AllBounded memories

AllBounded-append :
    (xs ys : List MemoryType) → AllBounded xs → AllBounded ys → AllBounded (xs ++ ys)
AllBounded-append [] ys a b = b
AllBounded-append (x ∷ xs) ys a b = (a.0, AllBounded-append xs ys a.1 b)

AllBounded-get_elem? :
    (xs : List MemoryType) (i : ℕ) (t : MemoryType)
    → AllBounded xs
    → get_elem? xs i ≡ some t
    → (i < length xs) × IsBounded t
AllBounded-get_elem? [] i t a e = absurd cc
AllBounded-get_elem? (x ∷ xs) zero t a e =
    (omega arith, subst IsBounded (let same : x ≡ t = cc in same) a.0)
AllBounded-get_elem? (x ∷ xs) (suc i) t a e =
    let rest = AllBounded-get_elem? xs i t a.1 e in (omega (arith, rest.0), rest.1)

defined-AllBounded :
    (memories : List MemoryType) → for_each memory_ok memories ≡ done → AllBounded memories
defined-AllBounded [] e = tt
defined-AllBounded (t ∷ memories) e =
    let (here, rest) = for_each-head memory_ok t memories e in
    let parts =
      (both_done_iff (pages_ok t.limits)
          (refuse_if (unbounded_shared t) "memory {}: shared memory requires a maximum")).0
        here in
    (pages-PagesFit t.limits t.shared _ parts.0 parts.1, defined-AllBounded memories rest)

imported-AllBounded :
    (imports : List Import)
    → for_each (λ i. import_pages_ok (memory_import i.kind)) imports ≡ done
    → for_each (λ i. shared_import_ok (memory_import i.kind)) imports ≡ done
    → AllBounded (imported memory_import imports)
imported-AllBounded [] p q = tt
imported-AllBounded (i ∷ imports) p q =
    let (pages, pages') = for_each-head (λ j. import_pages_ok (memory_import j.kind)) i imports p in
    let (shared, shared') =
      for_each-head (λ j. shared_import_ok (memory_import j.kind)) i imports q in
    one_more (memory_import i.kind) pages shared (imported-AllBounded imports pages' shared')
  where
    one_more :
        (o : Option MemoryType)
        → import_pages_ok o ≡ done
        → shared_import_ok o ≡ done
        → AllBounded (imported memory_import imports)
        → AllBounded (elim o [
          | none ↦ imported memory_import imports
          | some a ↦ a ∷ imported memory_import imports
        ])
    one_more none a b all = all
    one_more (some t) a b all = (pages-PagesFit t.limits t.shared _ a b, all)

-- A module that the validator accepts has at most one memory, imported or its own. Its size is at
-- most 65536 pages, the most that 32 bits address; where it has a maximum, so is that, and it is
-- not below the minimum; and where it is shared, it has one. (A module has fewer than `2 ^ 32`
-- imports.)
pub memory_at-IsBounded :
    (allocates : ℕ → Bool) (m : Module) (idx : ℕ) (memory : MemoryType)
    → validate allocates m ≡ done
    → length m.imports < 2 ^ 32
    → memory_at m idx ≡ some memory
    → (idx ≡ 0) × IsBounded memory
unfolding validate validate_memories validate_start
memory_at-IsBounded allocates m idx memory e few found =
    let start = second_done _ (validate_start m) e in
    let s8 = first_done _ (validate_start m) e in
    let s4 = first_done _ _ (first_done _ _ (first_done _ _ (first_done _ _ s8))) in
    let memories = second_done _ (validate_memories m) s4 in
    let once = refuse_if (ltb 1 (memory_space m)) "multi-memory modules are not supported" in
    let own = for_each memory_ok m.memories in
    let parts = (both_done_iff (once >> own) _).0 memories in
    let first = (both_done_iff once own).0 parts.0 in
    let all =
      AllBounded-append (imported memory_import m.imports) m.memories
        (imported-AllBounded m.imports (second_done (start_ok m m.start) _ start) parts.1)
        (defined-AllBounded m.memories first.1) in
    let at =
      AllBounded-get_elem? (imported memory_import m.imports ++ m.memories) idx memory all
        (sym (index_spaces_lem m idx few).1 ∙ found) in
    let single =
      (refuse_if_iff (ltb 1 (memory_space m)) "multi-memory modules are not supported").0 first.0 in
    (
      ground (
        arith,
        at.0,
        single,
        length-append (imported memory_import m.imports) m.memories,
        length-imported memory_import m.imports,
      ),
      at.1,
    )
