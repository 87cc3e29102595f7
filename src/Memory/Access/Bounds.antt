-- ===== src/Memory/Access/Bounds.antt =====
-- What the bounds checks of memory.rs let through.
use wasmtiny.Base.{
  ℕ, ◌+◌, ◌*◌, ◌^◌, ◌≤◌, ◌<◌, ◌≡◌, ◌↔◌, ◌⊎◌, inl, inr, true, ◌&&◌, Option, none, some, List, [],
  ◌∷◌, arith, leb, Bool-cases,
}
use wasmtiny.Runtime.Error.{ok}
use wasmtiny.Memory.{Memory, SharedRange, RegionProt, page_size_bytes}
use wasmtiny.Memory.Access.{
  range_start, range_end, in_ranges, in_shared_range, is_valid_access, ranges_writable,
  check_writable, in_slot,
}

-- The addresses from `start` up to `end` lie in one of the ranges.
abbrev pub InRange : List SharedRange → ℕ → ℕ → Type 0
InRange [] start end = ⊥
InRange (r ∷ rs) start end = ((range_start r ≤ start) × (end ≤ range_end r)) ⊎ InRange rs start end

in_ranges→InRange :
    (rs : List SharedRange) (start end : ℕ) → in_ranges rs start end ≡ true → InRange rs start end
unfolding in_ranges
in_ranges→InRange [] start end h = cc
in_ranges→InRange (r ∷ rs) start end h =
    elim (Bool-cases (leb (range_start r) start && leb end (range_end r))) [
      | inl here ↦ inl (ground arith, ground arith)
      | inr there ↦ inr (in_ranges→InRange rs start end (ground (arith, h)))
    ]

InRange→in_ranges :
    (rs : List SharedRange) (start end : ℕ) → InRange rs start end → in_ranges rs start end ≡ true
unfolding in_ranges
InRange→in_ranges [] start end h = absurd h
InRange→in_ranges (r ∷ rs) start end (inl here) = ground (arith, here.0, here.1)
InRange→in_ranges (r ∷ rs) start end (inr there) =
    ground (arith, InRange→in_ranges rs start end there)

-- A non-empty access that ends below `2 ^ 64` is valid exactly when it lies within the owned bytes
-- or within one shared range: never across the end of either.
pub is_valid_access_iff :
    (m : Memory) (offset n : ℕ)
    → 0 < n
    → offset + n < 2 ^ 64
    → (is_valid_access m offset n ≡ ok true)
      ↔ ((offset + n ≤ m.len) ⊎ InRange m.shared_ranges offset (offset + n))
unfolding is_valid_access in_shared_range
is_valid_access_iff m offset n pos fits = (forth, back)
  where
    forth :
        is_valid_access m offset n ≡ ok true
        → (offset + n ≤ m.len) ⊎ InRange m.shared_ranges offset (offset + n)
    forth h = elim (Bool-cases (leb (offset + n) m.len)) [
      | inl owned ↦ inl (ground arith)
      | inr past ↦ inr (in_ranges→InRange m.shared_ranges offset (offset + n) (ground (arith, h)))
    ]

    back :
        (offset + n ≤ m.len) ⊎ InRange m.shared_ranges offset (offset + n)
        → is_valid_access m offset n ≡ ok true
    back (inl owned) = ground arith
    back (inr shared) = ground (arith, InRange→in_ranges m.shared_ranges offset (offset + n) shared)

abbrev SlotHolds : SharedRange → Option ℕ → ℕ → Type 0
SlotHolds r none address = ⊥
SlotHolds r (some slot) address =
    (range_start r + slot * page_size_bytes ≤ address)
    × (address < range_start r + slot * page_size_bytes + page_size_bytes)

-- No read-only range holds the address, but in the page of the range that this memory may write.
abbrev pub IsWritable : List SharedRange → ℕ → Type 0
IsWritable [] address = Unit
IsWritable (r ∷ rs) address =
    (r.prot ≡ RegionProt.read_only
      → range_start r ≤ address
      → address < range_end r
      → SlotHolds r r.reader_slot address)
    × IsWritable rs address

slot_holds :
    (r : SharedRange) (slot : Option ℕ) (start end address : ℕ)
    → in_slot r slot start end ≡ true
    → start ≤ address
    → address < end
    → SlotHolds r slot address
slot_holds r none start end address h s e = cc
slot_holds r (some slot) start end address h s e = ground arith

ranges_writable→IsWritable :
    (rs : List SharedRange) (start end address : ℕ)
    → ranges_writable rs start end ≡ ok tt
    → start ≤ address
    → address < end
    → IsWritable rs address
unfolding ranges_writable
ranges_writable→IsWritable [] start end address h s e = tt
ranges_writable→IsWritable (r ∷ rs) start end address h s e = (
  (λ ro lo hi. slot_holds r r.reader_slot start end address (ground (arith, h, ro)) s e),
  ranges_writable→IsWritable rs start end address (ground (arith, h)) s e,
)

-- Where the write check passes, no byte of the access lies in a read-only range, but in the one
-- page of it that the memory may write.
pub check_writable-IsWritable :
    (m : Memory) (offset n address : ℕ)
    → check_writable m offset n ≡ ok tt
    → offset ≤ address
    → address < offset + n
    → IsWritable m.shared_ranges address
unfolding check_writable
check_writable-IsWritable m offset n address h lo hi =
    ranges_writable→IsWritable m.shared_ranges offset (offset + n) address h lo hi
