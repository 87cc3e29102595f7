-- ===== src/Registry/Counted/Entries.antt =====
-- Lists of regions and of memories: what a change to one of them leaves of the others.
use wasmtiny.Base.{
  ℕ, zero, suc, ◌+◌, ◌≤◌, ◌≡◌, not, ◌&&◌, ◌||◌, Option, none, some, List, [], ◌∷◌, ◌++◌, length,
  set, get_elem?, arith, ◌==◌, if◌then◌else◌, Bool-cases, inl, inr, refl,
}
use mathlib.Core.Path.{subst}
use wasmtiny.Memory.{Memory, SharedRange}
use wasmtiny.Memory.Mapping.{is_mapped, retain_others}
use wasmtiny.Memory.Layout.{IsLaidOut}
use wasmtiny.Registry.{SharedRegion, find_entry, remove_entry, set_count}
use wasmtiny.Registry.Counted.{one_if, count_mapped, AllLaidOut}

pub find_entry-remove_entry :
    (entries : List (ℕ × SharedRegion)) (id i : ℕ)
    → find_entry (remove_entry entries id) i ≡ (if i == id then none else find_entry entries i)
unfolding find_entry remove_entry
find_entry-remove_entry [] id i = ground arith
find_entry-remove_entry ((j, r) ∷ entries) id i =
    ground (arith, find_entry-remove_entry entries id i)

abbrev pub with_count : ℕ → Option SharedRegion → Option SharedRegion
with_count n none = none
with_count n (some r) = some (record r { attachment_count = n })

pub find_entry-set_count :
    (entries : List (ℕ × SharedRegion)) (id n i : ℕ)
    → find_entry (set_count entries id n) i
      ≡ (if i == id then with_count n (find_entry entries i) else find_entry entries i)
unfolding find_entry set_count
find_entry-set_count [] id n i = ground arith
find_entry-set_count ((j, r) ∷ entries) id n i = ground (arith, find_entry-set_count entries id n i)

pub count_mapped-set :
    (ms : List Memory) (k id : ℕ) (m m' : Memory)
    → get_elem? ms k ≡ some m
    → count_mapped (set ms k m') id + one_if (is_mapped m.shared_ranges id)
      ≡ count_mapped ms id + one_if (is_mapped m'.shared_ranges id)
count_mapped-set [] k id m m' e = cc
count_mapped-set (n ∷ ms) zero id m m' e = ground (arith, e)
count_mapped-set (n ∷ ms) (suc k) id m m' e = omega (arith, count_mapped-set ms k id m m' e)

pub count_mapped-get_elem? :
    (ms : List Memory) (k id : ℕ) (m : Memory)
    → get_elem? ms k ≡ some m
    → one_if (is_mapped m.shared_ranges id) ≤ count_mapped ms id
count_mapped-get_elem? [] k id m e = absurd cc
count_mapped-get_elem? (n ∷ ms) zero id m e = ground (arith, e)
count_mapped-get_elem? (n ∷ ms) (suc k) id m e = omega (arith, count_mapped-get_elem? ms k id m e)

pub count_mapped-length : (ms : List Memory) (id : ℕ) → count_mapped ms id ≤ length ms
count_mapped-length [] id = omega arith
count_mapped-length (m ∷ ms) id = elim (Bool-cases (is_mapped m.shared_ranges id)) [
  | inl e ↦ ground (arith, e, count_mapped-length ms id)
  | inr e ↦ ground (arith, e, count_mapped-length ms id)
]

some-injective : {m n : Memory} → ◌≡◌ {A = Option Memory} (some m) (some n) → m ≡ n
some-injective e = cc

pub AllLaidOut-get_elem? :
    (ms : List Memory) (k : ℕ) (m : Memory) → AllLaidOut ms → get_elem? ms k ≡ some m → IsLaidOut m
AllLaidOut-get_elem? [] k m h e = absurd cc
AllLaidOut-get_elem? (n ∷ ms) zero m h e = subst IsLaidOut (some-injective e) h.0
AllLaidOut-get_elem? (n ∷ ms) (suc k) m h e = AllLaidOut-get_elem? ms k m h.1 e

pub AllLaidOut-set :
    (ms : List Memory) (k : ℕ) (m : Memory) → AllLaidOut ms → IsLaidOut m → AllLaidOut (set ms k m)
AllLaidOut-set [] k m h l = tt
AllLaidOut-set (n ∷ ms) zero m h l = (l, h.1)
AllLaidOut-set (n ∷ ms) (suc k) m h l = (h.0, AllLaidOut-set ms k m h.1 l)

pub is_mapped-snoc :
    (rs : List SharedRange) (r : SharedRange) (id : ℕ)
    → is_mapped (rs ++ (r ∷ [])) id ≡ (is_mapped rs id || (id == r.region_id))
unfolding is_mapped
is_mapped-snoc [] r id = ground arith
is_mapped-snoc (s ∷ rs) r id = ground (arith, is_mapped-snoc rs r id)

pub is_mapped-retain_others :
    (rs : List SharedRange) (id i : ℕ)
    → is_mapped (retain_others rs id) i ≡ (is_mapped rs i && not (i == id))
unfolding is_mapped retain_others
is_mapped-retain_others [] id i = refl
is_mapped-retain_others (s ∷ rs) id i = ground (arith, is_mapped-retain_others rs id i)
