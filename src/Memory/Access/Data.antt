-- ===== src/Memory/Access/Data.antt =====
-- The bytes that a memory shows, before and after single stores and copies.
use wasmtiny.Base.{
  ℕ, ◌+◌, ◌≤◌, ◌<◌, ◌≡◌, ◌≢◌, inl, inr, refl, ap, sym, ◌∙◌, some, List, [], ◌∷◌, length, arith,
  Option-cases, ◌==◌, if◌then◌else◌,
}
use mathlib.Core.Path.{subst}
use wasmtiny.Memory.{Memory, SharedRange}
use wasmtiny.Memory.Access.{find_range, find_shared_range, Regions, peek, poke, copy_in, copy_out}

-- Another region than those of the ranges.
abbrev pub IsFresh : ℕ → List SharedRange → Type 0
IsFresh id [] = Unit
IsFresh id (r ∷ rs) = (r.region_id ≢ id) × IsFresh id rs

-- No region is mapped twice.
abbrev pub AreDistinct : List SharedRange → Type 0
AreDistinct [] = Unit
AreDistinct (r ∷ rs) = IsFresh r.region_id rs × AreDistinct rs

find_range-IsFresh :
    (rs : List SharedRange) (id address : ℕ) (r : SharedRange) (offset : ℕ)
    → IsFresh id rs
    → find_range rs address ≡ some (r, offset)
    → r.region_id ≢ id
unfolding find_range
find_range-IsFresh [] id address r offset f h = cc
find_range-IsFresh (s ∷ rs) id address r offset f h =
    ground (arith, find_range-IsFresh rs id address r offset f.1)

-- Two addresses that show the same byte of a region are the same address.
find_range-injective :
    (rs : List SharedRange) (a b : ℕ) (r s : SharedRange) (i j : ℕ)
    → AreDistinct rs
    → find_range rs a ≡ some (r, i)
    → find_range rs b ≡ some (s, j)
    → r.region_id ≡ s.region_id
    → i ≡ j
    → a ≡ b
unfolding find_range
find_range-injective [] a b r s i j d p q e f = cc
find_range-injective (t ∷ rs) a b r s i j d p q e f = ground (
  arith,
  find_range-injective rs a b r s i j d.1,
  find_range-IsFresh rs t.region_id a r i d.0,
  find_range-IsFresh rs t.region_id b s j d.0,
)

pub peek-poke :
    (m : Memory) (regions : Regions) (a b byte : ℕ)
    → AreDistinct m.shared_ranges
    → let (m', regions') = poke m regions a byte in
      peek m' regions' b ≡ (if b == a then byte else peek m regions b)
unfolding peek poke find_shared_range
peek-poke m regions a b byte d = elim (Option-cases (find_range m.shared_ranges a)) [
  | inl owned ↦ elim (Option-cases (find_range m.shared_ranges b)) [
    | inl owned' ↦ ground (arith, owned, owned')
    | inr ((p, i), e) ↦ ground (arith, owned, e)
  ]
  | inr ((p, i), e) ↦ elim (Option-cases (find_range m.shared_ranges b)) [
    | inl owned' ↦ ground (arith, e, owned')
    | inr ((q, j), e') ↦
        ground (arith, e, e', find_range-injective m.shared_ranges a b p q i j d e e')
  ]
]

-- The byte at `b` after `bytes` were laid down from `address` on, over `old`.
abbrev pub copied : List ℕ → ℕ → ℕ → ℕ → ℕ
copied [] address b old = old
copied (x ∷ bytes) address b old = copied bytes (address + 1) b (if b == address then x else old)

pub shared_ranges-poke :
    (m : Memory) (regions : Regions) (address byte : ℕ)
    → (poke m regions address byte).0.shared_ranges ≡ m.shared_ranges
unfolding poke
shared_ranges-poke m regions address byte = ground arith

pub shared_ranges-copy_in :
    (bytes : List ℕ) (m : Memory) (regions : Regions) (address : ℕ)
    → (copy_in m regions address bytes).0.shared_ranges ≡ m.shared_ranges
unfolding copy_in
shared_ranges-copy_in [] m regions address = refl
shared_ranges-copy_in (b ∷ bytes) m regions address =
    let (m', regions') = poke m regions address b in
    shared_ranges-copy_in bytes m' regions' (address + 1) ∙ shared_ranges-poke m regions address b

-- A copy into the address space changes the bytes of its range to what is copied and no others.
pub peek-copy_in :
    (bytes : List ℕ) (m : Memory) (regions : Regions) (address b : ℕ)
    → AreDistinct m.shared_ranges
    → let (m', regions') = copy_in m regions address bytes in
      peek m' regions' b ≡ copied bytes address b (peek m regions b)
unfolding copy_in
peek-copy_in [] m regions address b d = refl
peek-copy_in (x ∷ bytes) m regions address b d =
    let (m', regions') = poke m regions address x in
    let d' : AreDistinct m'.shared_ranges =
      subst AreDistinct (sym (shared_ranges-poke m regions address x)) d in
    peek-copy_in bytes m' regions' (address + 1) b d'
    ∙ ap (copied bytes (address + 1) b) (peek-poke m regions address b x d)

pub copied_below :
    (bytes : List ℕ) (address b old : ℕ) → b < address → copied bytes address b old ≡ old
copied_below [] address b old h = refl
copied_below (x ∷ bytes) address b old h =
    ground (arith, copied_below bytes (address + 1) b old (omega arith))

pub copied_above :
    (bytes : List ℕ) (address b old : ℕ)
    → address + length bytes ≤ b
    → copied bytes address b old ≡ old
copied_above [] address b old h = refl
copied_above (x ∷ bytes) address b old h =
    ground (arith, copied_above bytes (address + 1) b old (omega arith))

-- The bytes that a copy reads back are those that a copy laid down.
pub copy_out-copy_in :
    (bytes : List ℕ) (m : Memory) (regions : Regions) (address : ℕ)
    → AreDistinct m.shared_ranges
    → let (m', regions') = copy_in m regions address bytes in
      copy_out m' regions' address (length bytes) ≡ bytes
unfolding copy_out copy_in
copy_out-copy_in [] m regions address d = refl
copy_out-copy_in (x ∷ bytes) m regions address d =
    let (m', regions') = poke m regions address x in
    let d' : AreDistinct m'.shared_ranges =
      subst AreDistinct (sym (shared_ranges-poke m regions address x)) d in
    ground (
      arith,
      peek-copy_in (x ∷ bytes) m regions address address d,
      copied_below bytes (address + 1) address x (omega arith),
      copy_out-copy_in bytes m' regions' (address + 1) d',
    )
