-- ===== src/Registry/Counted.antt =====
-- The guests' memories beside the registry, and what their attachments are counted by.
pub mod Entries
pub mod Balance
pub mod Kept
pub mod Calls
use wasmtiny.Base.{
  ℕ, zero, suc, ◌+◌, ◌*◌, ◌^◌, ◌≤◌, ◌<◌, ◌≡◌, Bool, true, false, Option, none, some, List, [], ◌∷◌,
  length, set, get_elem?,
}
use wasmtiny.Memory.{Memory, RegionProt}
use wasmtiny.Memory.System.{Os}
use wasmtiny.Memory.Mapping.{is_mapped}
use wasmtiny.Memory.Layout.{IsLaidOut}
use wasmtiny.Registry.{
  SharedMemoryRegistry, SharedRegion, ShmAnswers, find_entry, allocate_region,
  allocate_region_standalone, attach_region, detach_region, destroy_region,
}

abbrev pub World : Type 0
World = SharedMemoryRegistry × List Memory

-- The calls, each on behalf of the guest whose memory has the number.
pub data Call : Type 0 where
  allocate : ShmAnswers → ℕ → ℕ → RegionProt → Call
  allocate_standalone : ShmAnswers → ℕ → Call
  attach : ℕ → ℕ → RegionProt → Option ℕ → Call
  detach : ℕ → ℕ → Call
  destroy : ℕ → Call

module _ (os : Os) where
  abbrev pub on_memory :
      {A : Type 0}
      → World
      → ℕ
      → (SharedMemoryRegistry → Memory → A × (SharedMemoryRegistry × Memory))
      → Option Memory
      → World
  on_memory (reg, ms) k act none = (reg, ms)
  on_memory (reg, ms) k act (some m) = let (_, (reg', m')) = act reg m in (reg', set ms k m')

  abbrev pub perform : Call → World → World
  perform (Call.allocate shm k size prot) (reg, ms) =
      on_memory (reg, ms) k (λ reg m. allocate_region os shm reg m size prot) (get_elem? ms k)
  perform (Call.allocate_standalone shm size) (reg, ms) =
      ((allocate_region_standalone shm reg size).1, ms)
  perform (Call.attach k id prot slot) (reg, ms) =
      on_memory (reg, ms) k (λ reg m. attach_region os reg m id prot slot) (get_elem? ms k)
  perform (Call.detach k id) (reg, ms) =
      on_memory (reg, ms) k (λ reg m. detach_region os reg m id) (get_elem? ms k)
  perform (Call.destroy id) (reg, ms) = ((destroy_region reg id).1, ms)

  abbrev pub perform_all : List Call → World → World
  perform_all [] w = w
  perform_all (call ∷ calls) w = perform_all calls (perform call w)

abbrev pub one_if : Bool → ℕ
one_if true = 1
one_if false = 0

-- How many of the memories map the region.
abbrev pub count_mapped : List Memory → ℕ → ℕ
count_mapped [] id = 0
count_mapped (m ∷ ms) id = one_if (is_mapped m.shared_ranges id) + count_mapped ms id

abbrev pub count_of : Option SharedRegion → ℕ
count_of none = 0
count_of (some r) = r.attachment_count

abbrev pub AllLaidOut : List Memory → Type 0
AllLaidOut [] = Unit
AllLaidOut (m ∷ ms) = IsLaidOut m × AllLaidOut ms

-- Every region's attachment count is the number of memories that map it, where a region that is not
-- there counts 0; ids that have not been given out name no region.
abbrev pub IsCounted : World → Type 0
IsCounted (reg, ms) =
    ((id : ℕ) → count_of (find_entry reg.regions id) ≡ count_mapped ms id)
    × ((id : ℕ) → reg.next_region_id ≤ id → find_entry reg.regions id ≡ none)
    × AllLaidOut ms
    × (length ms < 2 ^ 64)
