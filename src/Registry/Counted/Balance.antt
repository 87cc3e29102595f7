-- ===== src/Registry/Counted/Balance.antt =====
-- What single calls change of the counts.
use wasmtiny.Base.{
  ℕ, suc, ◌+◌, ◌^◌, ◌≤◌, ◌<◌, ◌≡◌, true, false, not, ◌&&◌, ◌||◌, none, some, List, ◌∷◌, set,
  get_elem?, arith, ◌==◌, refl, length-set,
}
use wasmtiny.Memory.{Memory, SharedRange}
use wasmtiny.Memory.Mapping.{is_mapped}
use wasmtiny.Memory.Layout.{IsLaidOut}
use wasmtiny.Registry.{
  SharedMemoryRegistry, SharedRegion, find_entry, set_count, decremented, set_attachments, insert,
  next_id,
}
use wasmtiny.Registry.Counted.{one_if, count_of, IsCounted}
use wasmtiny.Registry.Counted.Entries.{find_entry-set_count, count_mapped-set, AllLaidOut-set}

-- Ids that have not been given out name no region.
abbrev pub IsFreshAbove : SharedMemoryRegistry → Type 0
IsFreshAbove reg = (id : ℕ) → reg.next_region_id ≤ id → find_entry reg.regions id ≡ none

-- What a call changes of a region's count is what it changes of the mappings in one memory.
abbrev pub IsBalanced : SharedMemoryRegistry → Memory → SharedMemoryRegistry × Memory → Type 0
IsBalanced reg m (reg', m') =
    ((id : ℕ)
      → count_of (find_entry reg'.regions id) + one_if (is_mapped m.shared_ranges id)
        ≡ count_of (find_entry reg.regions id) + one_if (is_mapped m'.shared_ranges id))
    × IsFreshAbove reg'

pub unchanged :
    (reg : SharedMemoryRegistry) (m : Memory) → IsFreshAbove reg → IsBalanced reg m (reg, m)
unchanged reg m fresh = (λ id. refl, fresh)

pub same_ranges :
    (reg : SharedMemoryRegistry) (m m' : Memory)
    → IsFreshAbove reg
    → m'.shared_ranges ≡ m.shared_ranges
    → IsBalanced reg m (reg, m')
same_ranges reg m m' fresh rs = (λ id. rw rs refl, fresh)

pub swap-IsCounted :
    (reg reg' : SharedMemoryRegistry) (ms : List Memory) (k : ℕ) (m m' : Memory)
    → IsCounted (reg, ms)
    → get_elem? ms k ≡ some m
    → IsBalanced reg m (reg', m')
    → IsLaidOut m'
    → IsCounted (reg', set ms k m')
swap-IsCounted reg reg' ms k m m' (counts, fresh, laid_out, few) e (balance, fresh') h = (
  λ id. omega (arith, counts id, balance id, count_mapped-set ms k id m m' e),
  fresh',
  AllLaidOut-set ms k m' laid_out h,
  rw (length-set ms k m') few,
)

pub added_to :
    (reg : SharedMemoryRegistry) (m m' : Memory) (id : ℕ) (r : SharedRegion) (range : SharedRange)
    → IsFreshAbove reg
    → find_entry reg.regions id ≡ some r
    → is_mapped m.shared_ranges id ≡ false
    → range.region_id ≡ id
    → ((i : ℕ)
        → is_mapped m'.shared_ranges i ≡ (is_mapped m.shared_ranges i || (i == range.region_id)))
    → IsBalanced reg m (set_attachments reg id (suc r.attachment_count), m')
added_to reg m m' id r range fresh e unmapped same mapped = (balance, fresh')
  where
    n : ℕ
    n = suc r.attachment_count

    balance :
        (i : ℕ)
        → count_of (find_entry (set_count reg.regions id n) i)
            + one_if (is_mapped m.shared_ranges i)
          ≡ count_of (find_entry reg.regions i) + one_if (is_mapped m'.shared_ranges i)
    balance i = ground (arith, find_entry-set_count reg.regions id n i, mapped i, e, unmapped, same)

    fresh' : IsFreshAbove (set_attachments reg id n)
    fresh' i le = ground (arith, find_entry-set_count reg.regions id n i, fresh i le)

pub taken_from :
    (reg : SharedMemoryRegistry) (m m' : Memory) (id : ℕ) (r : SharedRegion)
    → IsFreshAbove reg
    → find_entry reg.regions id ≡ some r
    → is_mapped m.shared_ranges id ≡ true
    → 0 < r.attachment_count
    → r.attachment_count < 2 ^ 64
    → ((i : ℕ) → is_mapped m'.shared_ranges i ≡ (is_mapped m.shared_ranges i && not (i == id)))
    → IsBalanced reg m (set_attachments reg id (decremented r.attachment_count), m')
taken_from reg m m' id r fresh e mapped pos few left = (balance, fresh')
  where
    n : ℕ
    n = decremented r.attachment_count

    less : n + 1 ≡ r.attachment_count
    less = omega (arith, pos, few)

    balance :
        (i : ℕ)
        → count_of (find_entry (set_count reg.regions id n) i)
            + one_if (is_mapped m.shared_ranges i)
          ≡ count_of (find_entry reg.regions i) + one_if (is_mapped m'.shared_ranges i)
    balance i = ground (arith, find_entry-set_count reg.regions id n i, left i, e, mapped, less)

    fresh' : IsFreshAbove (set_attachments reg id n)
    fresh' i le = ground (arith, find_entry-set_count reg.regions id n i, fresh i le)

pub new_to :
    (reg : SharedMemoryRegistry) (m m' : Memory) (r : SharedRegion)
    → IsFreshAbove reg
    → ((i : ℕ)
        → is_mapped m'.shared_ranges i ≡ (
            is_mapped m.shared_ranges i
            || ((i == reg.next_region_id) && (r.attachment_count == 1))))
    → (r.attachment_count ≡ 1 → is_mapped m.shared_ranges reg.next_region_id ≡ false)
    → r.attachment_count ≤ 1
    → IsBalanced reg m (insert (next_id reg) reg.next_region_id r, m')
unfolding find_entry
new_to reg m m' r fresh mapped unmapped le = (balance, fresh')
  where
    balance :
        (i : ℕ)
        → count_of (find_entry ((reg.next_region_id, r) ∷ reg.regions) i)
            + one_if (is_mapped m.shared_ranges i)
          ≡ count_of (find_entry reg.regions i) + one_if (is_mapped m'.shared_ranges i)
    balance i = ground (arith, mapped i, unmapped, le, fresh reg.next_region_id (omega arith))

    fresh' : IsFreshAbove (insert (next_id reg) reg.next_region_id r)
    fresh' i le = ground (arith, le, fresh i (omega (arith, le)))
