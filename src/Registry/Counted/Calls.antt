-- ===== src/Registry/Counted/Calls.antt =====
-- Every call keeps the attachment counts right.
use wasmtiny.Base.{
  if◌then◌else◌, ℕ, ◌≡◌, ◌↔◌, not, none, some, List, [], ◌∷◌, get_elem?, arith, ◌==◌, if-elim,
  Option-cases, inl, inr,
}
use wasmtiny.Runtime.Error.{Result, ok, err}
use wasmtiny.Memory.{Memory}
use wasmtiny.Memory.System.{Os}
use wasmtiny.Memory.Layout.{IsLaidOut}
use wasmtiny.Registry.{
  SharedMemoryRegistry, SharedRegion, ShmAnswers, find_entry, region, allocate_region,
  allocate_region_standalone, attach_region, detach_region, destroy_region, standalone_made,
  make_region,
}
use wasmtiny.Registry.Counted.{Call, perform, perform_all, on_memory, count_mapped, IsCounted}
use wasmtiny.Registry.Counted.Entries.{
  find_entry-remove_entry, count_mapped-get_elem?, count_mapped-length, AllLaidOut-get_elem?,
}
use wasmtiny.Registry.Counted.Balance.{IsBalanced, swap-IsCounted}
use wasmtiny.Registry.Counted.Kept.{
  IsUnattached, make_region-IsUnattached, attach_region-IsBalanced, detach_region-IsBalanced,
  allocate_region-IsBalanced, attach_region-IsLaidOut, detach_region-IsLaidOut,
  allocate_region-IsLaidOut,
}
use wasmtiny.Registry.Counted.Balance.{IsBalanced, swap-IsCounted}

abbrev LeavesCounted : List Memory → Result (Unit {0}) × SharedMemoryRegistry → Type 0
LeavesCounted ms (answer, reg) = IsCounted (reg, ms)

standalone_lem :
    (shm : ShmAnswers) (reg : SharedMemoryRegistry) (ms : List Memory) (size : ℕ)
    → IsCounted (reg, ms)
    → IsCounted ((allocate_region_standalone shm reg size).1, ms)
unfolding allocate_region_standalone find_entry
standalone_lem shm reg ms size (counts, fresh, laid_out, few) =
    made (make_region shm size) (make_region-IsUnattached shm size)
  where
    made : (r : Result SharedRegion) → IsUnattached r → IsCounted ((standalone_made reg r).1, ms)
    made (err e) u = (counts, fresh, laid_out, few)
    made (ok r) u = (
      λ i. ground (arith, u, counts i, fresh reg.next_region_id (omega arith)),
      λ i le. ground (arith, le, fresh i (omega (arith, le))),
      laid_out,
      few,
    )

destroy_lem :
    (reg : SharedMemoryRegistry) (ms : List Memory) (id : ℕ)
    → IsCounted (reg, ms)
    → IsCounted ((destroy_region reg id).1, ms)
unfolding destroy_region region
destroy_lem reg ms id (counts, fresh, laid_out, few) =
    elim (Option-cases (find_entry reg.regions id)) [
      | inl absent ↦ rw absent (counts, fresh, laid_out, few)
      | inr (r, e) ↦ rw e (
          if-elim (LeavesCounted ms) (not (r.attachment_count == 0))
            (λ _. (counts, fresh, laid_out, few))
            (λ free. (
              λ i. ground (arith, free, e, counts i, find_entry-remove_entry reg.regions id i),
              λ i le. ground (arith, fresh i le, find_entry-remove_entry reg.regions id i),
              laid_out,
              few,
            )))
    ]

module _ (os : Os) where
  -- A call on memory `k`, where there is one.
  on_memory_lem :
      {A : Type 0}
      → (act : SharedMemoryRegistry → Memory → A × (SharedMemoryRegistry × Memory))
      → (reg : SharedMemoryRegistry) (ms : List Memory) (k : ℕ) → IsCounted (reg, ms)
      → ((m : Memory)
          → get_elem? ms k ≡ some m
          → IsLaidOut m
          → IsBalanced reg m (act reg m).1 × IsLaidOut (act reg m).1.1)
      → IsCounted (on_memory os (reg, ms) k act (get_elem? ms k))
  on_memory_lem act reg ms k counted acts = elim (Option-cases (get_elem? ms k)) [
    | inl absent ↦ rw absent counted
    | inr (m, e) ↦ rw e (
        let (reg', m') = (act reg m).1 in
        let (_, _, laid_out, _) = counted in
        let (balanced, kept) = acts m e (AllLaidOut-get_elem? ms k m laid_out e) in
        swap-IsCounted reg reg' ms k m m' counted e balanced kept)
  ]

  perform_lem :
      (call : Call) (reg : SharedMemoryRegistry) (ms : List Memory)
      → IsCounted (reg, ms)
      → IsCounted (perform os call (reg, ms))
  perform_lem (Call.allocate shm k size prot) reg ms h =
      on_memory_lem (λ reg m. allocate_region os shm reg m size prot) reg ms k h
        (λ m e laid. (
          allocate_region-IsBalanced os shm reg m size prot h.1 laid,
          allocate_region-IsLaidOut os shm reg m size prot laid,
        ))
  perform_lem (Call.allocate_standalone shm size) reg ms h = standalone_lem shm reg ms size h
  perform_lem (Call.attach k id prot slot) reg ms h =
      on_memory_lem (λ reg m. attach_region os reg m id prot slot) reg ms k h
        (λ m e laid. (
          attach_region-IsBalanced os reg m id prot slot h.1 laid,
          attach_region-IsLaidOut os reg m id prot slot laid,
        ))
  perform_lem (Call.detach k id) reg ms h =
      on_memory_lem (λ reg m. detach_region os reg m id) reg ms k h
        (λ m e laid. (
          detach_region-IsBalanced os reg m id h.1
              (λ mapped. omega (arith, h.0 id, rw mapped at (count_mapped-get_elem? ms k id m e)))
              (omega (arith, h.0 id, count_mapped-length ms id, h.3)),
          detach_region-IsLaidOut os reg m id laid,
        ))
  perform_lem (Call.destroy id) reg ms h = destroy_lem reg ms id h

  -- Where the attachment count of every region is the number of memories that map it, it stays so
  -- whatever the guests and the host call, in whatever order and with whatever answers of the
  -- system. (Ids not given out name no region, the memories are laid out as their operations leave
  -- them, and there are fewer than `2 ^ 64`.)
  pub perform_all-IsCounted :
      (calls : List Call) (reg : SharedMemoryRegistry) (ms : List Memory)
      → IsCounted (reg, ms)
      → IsCounted (perform_all os calls (reg, ms))
  perform_all-IsCounted [] reg ms h = h
  perform_all-IsCounted (call ∷ calls) reg ms h =
      let (reg', ms') = perform os call (reg, ms) in
      perform_all-IsCounted calls reg' ms' (perform_lem call reg ms h)

-- Where the attachment counts are the numbers of memories that map each region, a region that is
-- there is destroyed exactly when no memory maps it; it is not found afterwards
-- then, and as it was otherwise.
pub destroy_region_iff :
    (reg : SharedMemoryRegistry) (ms : List Memory) (id : ℕ) (r : SharedRegion)
    → IsCounted (reg, ms)
    → find_entry reg.regions id ≡ some r
    → let (answer, reg') = destroy_region reg id in
      ((answer ≡ ok tt) ↔ (count_mapped ms id ≡ 0))
      × (find_entry reg'.regions id ≡ (if count_mapped ms id == 0 then none else some r))
unfolding destroy_region region
destroy_region_iff reg ms id r (counts, fresh, laid_out, few) e =
    ground (arith, e, counts id, find_entry-remove_entry reg.regions id id)
