-- ===== src/Memory/Access/ReadWrite.antt =====
-- Reads see what was written, in this memory and in every other that maps the region.
use wasmtiny.Base.{
  ℕ, ◌+◌, ◌≤◌, ◌<◌, ◌≡◌, ◌⊎◌, inl, inr, refl, ap, sym, ◌∙◌, some, List, [], ◌∷◌, length, arith,
}
use mathlib.Core.Path.{subst}
use wasmtiny.Runtime.Error.{Result, ok, err, ◌>>=◌}
use wasmtiny.Memory.{Memory, SharedRange}
use wasmtiny.Memory.Access.{
  is_valid_access, in_shared_range, find_shared_range, Regions, peek, poke, copy_in, read, write,
  ptr_at, check_writable, write_checked,
}
use wasmtiny.Memory.Access.Data.{
  AreDistinct, shared_ranges-copy_in, peek-copy_in, copied_below, copied_above, copy_out-copy_in,
}

pub len-poke :
    (m : Memory) (regions : Regions) (address byte : ℕ)
    → (poke m regions address byte).0.len ≡ m.len
unfolding poke
len-poke m regions address byte = ground arith

pub len-copy_in :
    (bytes : List ℕ) (m : Memory) (regions : Regions) (address : ℕ)
    → (copy_in m regions address bytes).0.len ≡ m.len
unfolding copy_in
len-copy_in [] m regions address = refl
len-copy_in (b ∷ bytes) m regions address =
    let (m', regions') = poke m regions address b in
    len-copy_in bytes m' regions' (address + 1) ∙ len-poke m regions address b

-- The bounds check depends on the layout alone.
ptr_at-layout :
    (m m' : Memory) (offset n : ℕ)
    → m'.len ≡ m.len
    → m'.shared_ranges ≡ m.shared_ranges
    → ptr_at m' offset n ≡ ptr_at m offset n
unfolding ptr_at is_valid_access in_shared_range
ptr_at-layout m m' offset n p q = rw (p, q)

-- The address that the bounds check answers is the offset.
ptr_at_ok : (m : Memory) (offset n address : ℕ) → ptr_at m offset n ≡ ok address → address ≡ offset
unfolding ptr_at is_valid_access
ptr_at_ok m offset n address h = ground arith

abbrev ReadsBack : Memory → Regions → ℕ → List ℕ → Memory → Regions → Type 0
ReadsBack m regions offset bytes m' regions' =
    (read m' regions' offset (length bytes) ≡ ok bytes)
    × ((b : ℕ) → (b < offset) ⊎ (offset + length bytes ≤ b) → peek m' regions' b ≡ peek m regions b)
    × (m'.shared_ranges ≡ m.shared_ranges)

copied-in :
    (m : Memory) (regions : Regions) (offset : ℕ) (bytes : List ℕ)
    → AreDistinct m.shared_ranges
    → ptr_at m offset (length bytes) ≡ ok offset
    → let (m', regions') = copy_in m regions offset bytes in
      ReadsBack m regions offset bytes m' regions'
unfolding read
copied-in m regions offset bytes d valid =
    let (m', regions') = copy_in m regions offset bytes in
    let valid' : ptr_at m' offset (length bytes) ≡ ok offset =
      ptr_at-layout m m' offset (length bytes) (len-copy_in bytes m regions offset)
        (shared_ranges-copy_in bytes m regions offset)
      ∙ valid in
    let reread = copy_out-copy_in bytes m regions offset d in
    (ground (arith, valid', reread), others, shared_ranges-copy_in bytes m regions offset)
  where
    others :
        (b : ℕ)
        → (b < offset) ⊎ (offset + length bytes ≤ b)
        → let (m', regions') = copy_in m regions offset bytes in
          peek m' regions' b ≡ peek m regions b
    others b (inl below) =
        peek-copy_in bytes m regions offset b d
        ∙ copied_below bytes offset b (peek m regions b) below
    others b (inr above) =
        peek-copy_in bytes m regions offset b d
        ∙ copied_above bytes offset b (peek m regions b) above

bind_ok :
    {A : Type 0} → (r : Result (Unit {0})) (s : Result A) (a : A) → (r >>= λ _. s) ≡ ok a → s ≡ ok a
bind_ok (ok x) s a h = h
bind_ok (err e) s a h = cc

-- A write that fails changes nothing.
abbrev pub Written : Memory → Regions → ℕ → List ℕ → Result (Unit {0}) × (Memory × Regions) → Type 0
Written m regions offset bytes (ok x, (m', regions')) = ReadsBack m regions offset bytes m' regions'
Written m regions offset bytes (err e, (m', regions')) = (m' ≡ m) × (regions' ≡ regions)

checked-write :
    (m : Memory) (regions : Regions) (offset : ℕ) (bytes : List ℕ) (checked : Result ℕ)
    → AreDistinct m.shared_ranges
    → ((a : ℕ) → checked ≡ ok a → ptr_at m offset (length bytes) ≡ ok a)
    → Written m regions offset bytes (write_checked m regions offset bytes checked)
checked-write m regions offset bytes (err e) d valid = (refl, refl)
checked-write m regions offset bytes (ok a) d valid =
    let same : a ≡ offset = ptr_at_ok m offset (length bytes) a (valid a refl) in
    let there : ptr_at m offset (length bytes) ≡ ok offset = valid a refl ∙ ap ok same in
    moved same (copied-in m regions offset bytes d there)
  where
    moved :
        a ≡ offset
        → (let (m', regions') = copy_in m regions offset bytes in
            ReadsBack m regions offset bytes m' regions')
        → let (m', regions') = copy_in m regions a bytes in
          ReadsBack m regions offset bytes m' regions'
    moved same =
        subst
          (λ c.
            let (m', regions') = copy_in m regions c bytes in
            ReadsBack m regions offset bytes m' regions')
          (sym same)

-- A write that succeeds leaves its bytes to be read at the same place, changes no byte outside its
-- range, in owned and in shared pages alike, and keeps the shared ranges; one that fails changes
-- nothing. (No region is mapped twice into the memory.)
pub read-write :
    (m : Memory) (regions : Regions) (offset : ℕ) (bytes : List ℕ)
    → AreDistinct m.shared_ranges
    → Written m regions offset bytes (write m regions offset bytes)
unfolding write
read-write m regions offset [] d =
    checked-write m regions offset [] (ptr_at m offset 0) d (λ a h. h)
read-write m regions offset (x ∷ bytes) d =
    let n = length (x ∷ bytes) in
    let checked = check_writable m offset n >>= λ _. ptr_at m offset n in
    checked-write m regions offset (x ∷ bytes) checked d
      (λ a h. bind_ok (check_writable m offset n) (ptr_at m offset n) a h)

-- A byte stored through one memory is seen through every memory that maps the region, at whatever
-- address that memory shows the same byte of the region.
pub peek-poke_shared :
    (m n : Memory) (regions : Regions) (a b byte i : ℕ) (r s : SharedRange)
    → find_shared_range m a ≡ some (r, i)
    → find_shared_range n b ≡ some (s, i)
    → r.region_id ≡ s.region_id
    → peek n (poke m regions a byte).1 b ≡ byte
unfolding peek poke
peek-poke_shared m n regions a b byte i r s p q e = ground (arith, p, q, e)
