-- ===== src/Loader/Validator/References/Declared.antt =====
-- crates/core/src/loader/validator.rs: where `is_declared_function` does not panic.
use wasmtiny.Base.{
  ℕ, zero, suc, ◌+◌, ◌*◌, ◌≤◌, ◌≡◌, ◌≢◌, Bool, true, false, not, ◌||◌, ◌&&◌, Option, none, some,
  List, [], ◌∷◌, arith, ◌==◌, bit_and, bit_or, Bool-cases, inl, inr, ◌%◌, ◌^◌, refl,
}
use wasmtiny.Runtime.Module.{Module, ElemSegment}
use wasmtiny.Loader.Validator.References.{
  ref_func_index, refers_to, any_refers, in_elements, is_declared_function, or_then, is_index,
}

-- A byte that ends an index, or the end of the bytes, comes within the next `n` bytes.
unfoldable ends_within : ℕ → List ℕ → Bool
ends_within n [] = true
ends_within zero (byte ∷ bytes) = false
ends_within (suc n) (byte ∷ bytes) = bit_and byte 0x80 == 0 || ends_within n bytes

-- The index behind a `ref.func` has at most the five bytes of a `u32`.
abbrev is_ended : List ℕ → Bool
is_ended [] = true
is_ended (opcode ∷ bytes) = not (opcode == 0xD2) || ends_within 5 bytes

unfoldable all_ended : List (List ℕ) → Bool
all_ended [] = true
all_ended (init ∷ inits) = is_ended init && all_ended inits

-- The same of every initial value of every segment. (The parser makes no other segment: it reads
-- the index with `read_raw_uleb`, which refuses a sixth byte.)
unfoldable pub segments_ended : List ElemSegment → Bool
unfolding all_ended ends_within
segments_ended [] = true
segments_ended (e ∷ elems) = all_ended e.init && segments_ended elems

abbrev pub AreEnded : List ElemSegment → Type 0
AreEnded elems = segments_ended elems ≡ true

ref_func_index-ne-none :
    (result shift n : ℕ) (bytes : List ℕ)
    → ends_within n bytes ≡ true
    → shift + 7 * n ≤ 38
    → ref_func_index result shift bytes ≢ none
unfolding ref_func_index ends_within
ref_func_index-ne-none result shift n [] e le = λ h. absurd cc
ref_func_index-ne-none result shift zero (byte ∷ bytes) e le = absurd cc
ref_func_index-ne-none result shift (suc n) (byte ∷ bytes) e le =
    let result' = bit_or result (bit_and byte 0x7F * 2 ^ shift % 2 ^ 32) in
    elim (Bool-cases (bit_and byte 0x80 == 0)) [
      | inl last ↦ ground (arith, last, le)
      | inr more ↦
          let rest =
            ref_func_index-ne-none result' (shift + 7) n bytes (ground (arith, e, more))
              (omega (arith, le)) in
          ground (arith, more, le, rest)
    ]

is_index-ne-none : (func_idx : ℕ) (o : Option ℕ) → o ≢ none → is_index func_idx o ≢ none
is_index-ne-none func_idx none h = λ e. h refl
is_index-ne-none func_idx (some r) h = λ e. absurd cc

or_then-ne-none : (a b : Option Bool) → a ≢ none → b ≢ none → or_then a b ≢ none
or_then-ne-none none b h k = λ e. h refl
or_then-ne-none (some true) b h k = λ e. absurd cc
or_then-ne-none (some false) b h k = k

refers_to-ne-none :
    (func_idx : ℕ) (init : List ℕ) → is_ended init ≡ true → refers_to func_idx init ≢ none
unfolding refers_to
refers_to-ne-none func_idx [] e = λ h. absurd cc
refers_to-ne-none func_idx (opcode ∷ bytes) e = elim (Bool-cases (opcode == 0xD2)) [
  | inl here ↦ rw here (
      is_index-ne-none func_idx (ref_func_index 0 0 bytes)
        (ref_func_index-ne-none 0 0 5 bytes (ground (arith, e, here)) (omega arith)))
  | inr there ↦ ground (arith, there)
]

any_refers-ne-none :
    (func_idx : ℕ) (inits : List (List ℕ))
    → all_ended inits ≡ true
    → any_refers func_idx inits ≢ none
unfolding any_refers all_ended
any_refers-ne-none func_idx [] e = λ h. absurd cc
any_refers-ne-none func_idx (init ∷ inits) e =
    or_then-ne-none (refers_to func_idx init) (any_refers func_idx inits)
      (refers_to-ne-none func_idx init (ground (arith, e)))
      (any_refers-ne-none func_idx inits (ground (arith, e)))

in_elements-ne-none :
    (func_idx : ℕ) (elems : List ElemSegment) → AreEnded elems → in_elements func_idx elems ≢ none
unfolding in_elements segments_ended
in_elements-ne-none func_idx [] e = λ h. absurd cc
in_elements-ne-none func_idx (s ∷ elems) e =
    or_then-ne-none (any_refers func_idx s.init) (in_elements func_idx elems)
      (any_refers-ne-none func_idx s.init (ground (arith, e)))
      (in_elements-ne-none func_idx elems (ground (arith, e)))

-- The shift stays below 32 where every index ends within five bytes.
pub is_declared_function-ne-none :
    (m : Module) (func_idx : ℕ) → AreEnded m.elems → is_declared_function m func_idx ≢ none
unfolding is_declared_function
is_declared_function-ne-none m func_idx e = ground (arith, in_elements-ne-none func_idx m.elems e)
