-- ===== src/Registry/Host/Bytes.antt =====
-- What the host writes to a region is read by the host and seen by every guest.
use wasmtiny.Base.{
  ℕ, zero, suc, ◌+◌, ◌^◌, ◌≤◌, ◌<◌, ◌≡◌, ◌≢◌, ◌⊎◌, inl, inr, refl, ap, ◌∙◌, some, List, [], ◌∷◌,
  length, get_elem?, ltb, leb, if-elim, arith,
}
use wasmtiny.Runtime.Error.{Result, ok, err}
use wasmtiny.Sync.Waiters.{update}
use wasmtiny.Memory.{Memory, SharedRange}
use wasmtiny.Memory.Access.{find_shared_range, peek}
use wasmtiny.Registry.{SharedMemoryRegistry, SharedRegion, region}
use wasmtiny.Registry.Host.{
  store_bytes, load_bytes, write_to_region, read_from_region, write_found, read_found,
}

update-same : {A : Type 0} → (f : ℕ → A) (i : ℕ) (v : A) → update f i v i ≡ v
update-same f i v = ground arith

store_bytes-before :
    (f : ℕ → ℕ) (offset : ℕ) (buf : List ℕ) (i : ℕ) → i < offset → store_bytes f offset buf i ≡ f i
unfolding store_bytes
store_bytes-before f offset [] i h = refl
store_bytes-before f offset (b ∷ buf) i h =
    ground (arith, store_bytes-before (update f offset b) (offset + 1) buf i (omega arith))

store_bytes-after :
    (f : ℕ → ℕ) (offset : ℕ) (buf : List ℕ) (i : ℕ)
    → offset + length buf ≤ i
    → store_bytes f offset buf i ≡ f i
unfolding store_bytes
store_bytes-after f offset [] i h = refl
store_bytes-after f offset (b ∷ buf) i h =
    ground (arith, store_bytes-after (update f offset b) (offset + 1) buf i (omega arith))

get_elem?-store_bytes :
    (f : ℕ → ℕ) (offset : ℕ) (buf : List ℕ) (k b : ℕ)
    → get_elem? buf k ≡ some b
    → store_bytes f offset buf (offset + k) ≡ b
unfolding store_bytes
get_elem?-store_bytes f offset [] k b e = cc
get_elem?-store_bytes f offset (x ∷ buf) zero b e =
    ground (arith, e, store_bytes-before (update f offset x) (offset + 1) buf offset (omega arith))
get_elem?-store_bytes f offset (x ∷ buf) (suc k) b e =
    ground (arith, get_elem?-store_bytes (update f offset x) (offset + 1) buf k b e)

load_bytes-store_bytes :
    (f : ℕ → ℕ) (offset : ℕ) (buf : List ℕ)
    → load_bytes (store_bytes f offset buf) offset (length buf) ≡ buf
unfolding store_bytes load_bytes
load_bytes-store_bytes f offset [] = refl
load_bytes-store_bytes f offset (b ∷ buf) = ground (
  arith,
  store_bytes-before (update f offset b) (offset + 1) buf offset (omega arith),
  load_bytes-store_bytes (update f offset b) (offset + 1) buf,
)

abbrev Written :
    SharedMemoryRegistry
    → ℕ
    → ℕ
    → List ℕ
    → Result SharedRegion
    → Result (Unit {0}) × SharedMemoryRegistry
    → Type 0
Written reg id offset buf r (err e, reg') = reg' ≡ reg
Written reg id offset buf r (ok x, reg') =
    (reg'.regions ≡ reg.regions)
    × (reg'.waiters ≡ reg.waiters)
    × (reg'.bytes ≡ update reg.bytes id (store_bytes (reg.bytes id) offset buf))
    × ((reg'' : SharedMemoryRegistry)
        → read_found reg'' id offset (length buf) r
          ≡ ok (load_bytes (reg''.bytes id) offset (length buf)))

write_to_region-Written :
    (reg : SharedMemoryRegistry) (id offset : ℕ) (buf : List ℕ)
    → Written reg id offset buf (region reg id) (write_to_region reg id offset buf)
unfolding write_to_region
write_to_region-Written reg id offset buf = written (region reg id)
  where
    written :
        (r : Result SharedRegion) → Written reg id offset buf r (write_found reg id offset buf r)
    written (err e) = refl
    written (ok r) =
        if-elim (Written reg id offset buf (ok r)) (leb (2 ^ 64) (offset + length buf)) (λ _. refl)
          (λ small.
            if-elim (Written reg id offset buf (ok r)) (ltb r.len (offset + length buf)) (λ _. refl)
              (λ fits. (refl, refl, refl, λ reg''. rw (small, fits))))

abbrev pub Shown : SharedMemoryRegistry → ℕ → ℕ → List ℕ → SharedMemoryRegistry → Type 0
Shown reg id offset buf reg' =
    (read_from_region reg' id offset (length buf) ≡ ok buf)
    × ((i : ℕ) → (i < offset) ⊎ (offset + length buf ≤ i) → reg'.bytes id i ≡ reg.bytes id i)
    × ((other i : ℕ) → other ≢ id → reg'.bytes other i ≡ reg.bytes other i)
    × ((m : Memory) (r : SharedRange) (address k b : ℕ)
        → find_shared_range m address ≡ some (r, offset + k)
        → r.region_id ≡ id
        → get_elem? buf k ≡ some b
        → peek m reg'.bytes address ≡ b)

-- A host write that succeeds is what a host read of the same bytes answers, it leaves the bytes
-- before it, after it and of other regions, and a guest sees each written byte wherever the byte is
-- mapped into its memory.
pub read_from_region-write_to_region :
    (reg : SharedMemoryRegistry) (id offset : ℕ) (buf : List ℕ)
    → let (answer, reg') = write_to_region reg id offset buf in
      answer ≡ ok tt → Shown reg id offset buf reg'
unfolding peek read_from_region region
read_from_region-write_to_region reg id offset buf =
    shown (write_to_region reg id offset buf) (write_to_region-Written reg id offset buf)
  where
    shown :
        (answer : Result (Unit {0}) × SharedMemoryRegistry)
        → Written reg id offset buf (region reg id) answer
        → answer.0 ≡ ok tt
        → Shown reg id offset buf answer.1
    shown (err e, reg') law done = absurd cc
    shown (ok x, reg') (entries, ws, now, read) done = (
      read_back,
      λ i at. ap (λ f. f id i) now ∙ outside i at,
      λ other i ne. ap (λ f. f other i) now ∙ ground (arith, ne),
      λ m r address k b seen same at.
          rw (seen, same, now)
            (ap (λ g. g (offset + k))
                (update-same reg.bytes id (store_bytes (reg.bytes id) offset buf))
              ∙ get_elem?-store_bytes (reg.bytes id) offset buf k b at),
    )
      where
        read_back : read_from_region reg' id offset (length buf) ≡ ok buf
        read_back = rw entries (
            read reg'
            ∙ ap (λ f. ok (load_bytes (f id) offset (length buf))) now
            ∙ ap (λ g. ok (load_bytes g offset (length buf)))
                (update-same reg.bytes id (store_bytes (reg.bytes id) offset buf))
            ∙ ap ok (load_bytes-store_bytes (reg.bytes id) offset buf))

        outside :
            (i : ℕ)
            → (i < offset) ⊎ (offset + length buf ≤ i)
            → update reg.bytes id (store_bytes (reg.bytes id) offset buf) id i ≡ reg.bytes id i
        outside i (inl before) =
            ap (λ g. g i) (update-same reg.bytes id (store_bytes (reg.bytes id) offset buf))
            ∙ store_bytes-before (reg.bytes id) offset buf i before
        outside i (inr after) =
            ap (λ g. g i) (update-same reg.bytes id (store_bytes (reg.bytes id) offset buf))
            ∙ store_bytes-after (reg.bytes id) offset buf i after
