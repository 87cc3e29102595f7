-- ===== src/Memory/Layout/Stores.antt =====
-- Data is written without touching the layout.
use wasmtiny.Base.{ℕ, ◌+◌, ◌≡◌, refl, ◌∙◌, List, [], ◌∷◌, arith, length}
use wasmtiny.Runtime.Error.{Result, ok, err, ◌>>=◌}
use wasmtiny.Memory.{Memory}
use wasmtiny.Memory.Access.{Regions, write, copy_in, poke, write_checked, ptr_at, check_writable}
use wasmtiny.Memory.Layout.{IsLaidOut}

-- The two memories differ in owned bytes alone.
abbrev SameFrame : Memory → Memory → Type 0
SameFrame m m' =
    (m'.mem_type ≡ m.mem_type)
    × (m'.len ≡ m.len)
    × (m'.capacity ≡ m.capacity)
    × (m'.shared_ranges ≡ m.shared_ranges)
    × (m'.next_shared_offset ≡ m.next_shared_offset)

poke-SameFrame :
    (m : Memory) (regions : Regions) (address byte : ℕ)
    → SameFrame m (poke m regions address byte).0
unfolding poke
poke-SameFrame m regions address byte = ground arith

copy_in-SameFrame :
    (bytes : List ℕ) (m : Memory) (regions : Regions) (address : ℕ)
    → SameFrame m (copy_in m regions address bytes).0
unfolding copy_in
copy_in-SameFrame [] m regions address = (refl, refl, refl, refl, refl)
copy_in-SameFrame (b ∷ bytes) m regions address =
    let (m', regions') = poke m regions address b in
    let (ty, l, c, rs, n) = copy_in-SameFrame bytes m' regions' (address + 1) in
    let (ty', l', c', rs', n') = poke-SameFrame m regions address b in
    (ty ∙ ty', l ∙ l', c ∙ c', rs ∙ rs', n ∙ n')

SameFrame→IsLaidOut : (m m' : Memory) → SameFrame m m' → IsLaidOut m → IsLaidOut m'
SameFrame→IsLaidOut m m' (ty, l, c, rs, next) h = rw (c, ty, l, rs, next) h

write_checked-IsLaidOut :
    (m : Memory) (regions : Regions) (offset : ℕ) (bytes : List ℕ) (checked : Result ℕ)
    → IsLaidOut m
    → IsLaidOut (write_checked m regions offset bytes checked).1.0
write_checked-IsLaidOut m regions offset bytes (err e) h = h
write_checked-IsLaidOut m regions offset bytes (ok a) h =
    SameFrame→IsLaidOut m (copy_in m regions a bytes).0 (copy_in-SameFrame bytes m regions a) h

pub write-IsLaidOut :
    (m : Memory) (regions : Regions) (offset : ℕ) (bytes : List ℕ)
    → IsLaidOut m
    → IsLaidOut (write m regions offset bytes).1.0
unfolding write
write-IsLaidOut m regions offset [] h =
    write_checked-IsLaidOut m regions offset [] (ptr_at m offset 0) h
write-IsLaidOut m regions offset (b ∷ bytes) h =
    let n = length (b ∷ bytes) in
    write_checked-IsLaidOut m regions offset (b ∷ bytes)
      (check_writable m offset n >>= λ _. ptr_at m offset n) h
