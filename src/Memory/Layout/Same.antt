-- ===== src/Memory/Layout/Same.antt =====
-- Memories that differ in the system calls made alone.
use wasmtiny.Base.{ℕ, ◌+◌, ◌≤◌, ◌<◌, ◌≡◌, ◌⊎◌, inl, inr, ap, ◌∙◌, arith}
use wasmtiny.Memory.Mapping.{cleared}
use wasmtiny.Memory.{Memory, mprotect_range}
use wasmtiny.Memory.System.{Os, Prot}
use wasmtiny.Memory.Layout.{IsLaidOut}

-- The two memories differ in what was asked of the system alone.
abbrev pub SameLayout : Memory → Memory → Type 0
SameLayout m m' =
    (m'.mem_type ≡ m.mem_type)
    × (m'.len ≡ m.len)
    × (m'.capacity ≡ m.capacity)
    × (m'.shared_ranges ≡ m.shared_ranges)
    × (m'.next_shared_offset ≡ m.next_shared_offset)
    × (m'.owned ≡ m.owned)

-- The same but for the owned bytes.
abbrev pub SameSpace : Memory → Memory → Type 0
SameSpace m m' =
    (m'.mem_type ≡ m.mem_type)
    × (m'.len ≡ m.len)
    × (m'.capacity ≡ m.capacity)
    × (m'.shared_ranges ≡ m.shared_ranges)
    × (m'.next_shared_offset ≡ m.next_shared_offset)

pub SameSpace→IsLaidOut : (m m' : Memory) → SameSpace m m' → IsLaidOut m → IsLaidOut m'
SameSpace→IsLaidOut m m' (ty, l, c, rs, next) h = rw (c, ty, l, rs, next) h

-- The owned bytes outside a range are the same.
abbrev pub SameOutside : ℕ → ℕ → Memory → Memory → Type 0
SameOutside offset len m m' =
    (address : ℕ)
    → (address < offset) ⊎ (offset + len ≤ address)
    → m'.owned address ≡ m.owned address

pub cleared-SameOutside :
    (m m' : Memory) (offset len : ℕ)
    → m'.owned ≡ cleared m.owned offset len
    → SameOutside offset len m m'
cleared-SameOutside m m' offset len e address (inl below) =
    ap (λ f. f address) e ∙ ground (arith, below)
cleared-SameOutside m m' offset len e address (inr above) =
    ap (λ f. f address) e ∙ ground (arith, above)

pub SameLayout→IsLaidOut : (m m' : Memory) → SameLayout m m' → IsLaidOut m → IsLaidOut m'
SameLayout→IsLaidOut m m' (ty, l, c, rs, next, o) h = rw (c, ty, l, rs, next) h

abbrev pub LeavesLaidOut : {A : Type 0} → A × Memory → Type 0
LeavesLaidOut (answer, m) = IsLaidOut m

module _ (os : Os) where
  pub mprotect_range-SameLayout :
      (m : Memory) (offset len : ℕ) (prot : Prot)
      → SameLayout m (mprotect_range os m offset len prot).1
  unfolding mprotect_range
  mprotect_range-SameLayout m offset len prot = ground arith
