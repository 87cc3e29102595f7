-- ===== src/Registry/Tests.antt =====
-- The theorems at concrete registries.
use wasmtiny.Base.{if◌then◌else◌, ◌==◌, ℕ, ◌≡◌, ◌↔◌, refl, true, false, some, none, [], ◌∷◌, arith}
use wasmtiny.Runtime.Error.{ok}
use wasmtiny.Runtime.Types.{Limits}
use wasmtiny.Sync.Waiters.{no_waiters, queue, find, register_waiter}
use wasmtiny.Memory.{Memory, RegionProt, fresh}
use wasmtiny.Memory.System.{Os}
use wasmtiny.Memory.Access.{
  find_shared_range, find_range, in_shared_range, in_ranges, is_valid_access, notify,
}
use wasmtiny.Memory.Mapping.{is_mapped}
use wasmtiny.Registry.{
  SharedMemoryRegistry, SharedRegion, ShmAnswers, default, find_entry, destroy_region, region,
}
use wasmtiny.Registry.Host.{write_to_region, register_region_waiter, notify_region}
use wasmtiny.Registry.Host.Bytes.{Shown, read_from_region-write_to_region}
use wasmtiny.Registry.Host.Waking.{notify-notify_region, notify_region-register_region_waiter}
use wasmtiny.Registry.Counted.{Call, perform_all, count_mapped, IsCounted}
use wasmtiny.Registry.Counted.Calls.{perform_all-IsCounted, destroy_region_iff}

abbrev plain : Memory
plain = fresh (record { limits = Limits.min_max 1 4; shared = false }) []

abbrev attached : Memory
attached = record plain {
  shared_ranges =
      record {
        page_offset = 3;
        region_id = 1;
        len = 65536;
        prot = RegionProt.read_write;
        reader_slot = none;
      }
      ∷ [];
  next_shared_offset = 196608;
}

abbrev willing : Os
willing made call = true

abbrev one_page : ℕ → SharedRegion
one_page n = record { len = 65536; fd = 5; attachment_count = n }

-- Region 1 with `n` attachments.
abbrev one_region : ℕ → SharedMemoryRegistry
one_region n = record default { next_region_id = 2; regions = (1, one_page n) ∷ [] }

abbrev answers : ShmAnswers
answers = record { opened = some 5; truncated = true; mapped = true }

start-IsCounted : IsCounted (default, plain ∷ plain ∷ [])
unfolding default find_entry is_mapped
start-IsCounted = (
  λ id. refl,
  λ id le. refl,
  (
    (refl, omega arith, omega arith, refl, refl, omega arith, tt),
    ((refl, omega arith, omega arith, refl, refl, omega arith, tt), tt),
  ),
  omega arith,
)

perform_all-IsCounted_example : IsCounted (
    perform_all willing
      (Call.allocate answers 0 70000 RegionProt.read_write
        ∷ Call.attach 1 1 RegionProt.read_only (some 0)
        ∷ Call.detach 0 1
        ∷ Call.destroy 1
        ∷ [])
      (default, plain ∷ plain ∷ []))
perform_all-IsCounted_example =
    perform_all-IsCounted willing
      (Call.allocate answers 0 70000 RegionProt.read_write
        ∷ Call.attach 1 1 RegionProt.read_only (some 0)
        ∷ Call.detach 0 1
        ∷ Call.destroy 1
        ∷ [])
      default (plain ∷ plain ∷ []) start-IsCounted

attached-IsCounted : IsCounted (one_region 1, attached ∷ [])
unfolding default find_entry is_mapped
attached-IsCounted = (
  λ id. ground arith,
  λ id le. ground arith,
  ((refl, omega arith, omega arith, refl, refl, (omega arith, omega arith), (tt, tt)), tt),
  omega arith,
)

destroy_region_iff_example :
    (((destroy_region (one_region 1) 1).0 ≡ ok tt) ↔ (count_mapped (attached ∷ []) 1 ≡ 0))
    × (find_entry (destroy_region (one_region 1) 1).1.regions 1
        ≡ (if count_mapped (attached ∷ []) 1 == 0 then none else some (one_page 1)))
unfolding find_entry
destroy_region_iff_example =
    destroy_region_iff (one_region 1) (attached ∷ []) 1 (one_page 1) attached-IsCounted refl

read_from_region-write_to_region_example :
    let reg' = (write_to_region (one_region 0) 1 65534 (7 ∷ 8 ∷ [])).1 in
    Shown (one_region 0) 1 65534 (7 ∷ 8 ∷ []) reg'
unfolding write_to_region region find_entry default
read_from_region-write_to_region_example =
    read_from_region-write_to_region (one_region 0) 1 65534 (7 ∷ 8 ∷ []) refl

notify-notify_region_example :
    let (answer, (m', waiters')) = notify attached (one_region 1).waiters 196616 3 in
    let (answer', reg') = notify_region (one_region 1) 1 8 3 in
    (answer ≡ answer') × (waiters' ≡ reg'.waiters) × (m' ≡ attached)
unfolding find_entry find_shared_range find_range is_valid_access in_shared_range in_ranges default
notify-notify_region_example =
    notify-notify_region (one_region 1) attached
      (record {
        page_offset = 3;
        region_id = 1;
        len = 65536;
        prot = RegionProt.read_write;
        reader_slot = none;
      })
      (one_page 1) 196616 8 3 refl refl refl (omega arith) (omega arith)

notify_region-register_region_waiter_example :
    let (registered, reg') = register_region_waiter (one_region 0) 1 8 in
    let (answer, reg'') = notify_region reg' 1 8 1 in
    let node = (register_waiter no_waiters 8).0 in
    (registered ≡ ok (record { region_id = 1; offset = 8; node = node }))
    × (answer ≡ ok 1)
    × ((reg''.waiters 1).notified node ≡ true)
unfolding default find_entry queue find no_waiters
notify_region-register_region_waiter_example =
    notify_region-register_region_waiter (one_region 0) (one_page 0) 1 8 1 refl (omega arith)
      (omega arith) (omega arith)
