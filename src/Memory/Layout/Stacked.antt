-- ===== src/Memory/Layout/Stacked.antt =====
-- Lists of stacked ranges: what is added below, taken away, and found.
use wasmtiny.Base.{
  ℕ, zero, suc, ◌-◌, ◌≤◌, ◌<◌, ◌≡◌, ◌≢◌, false, some, List, [], ◌∷◌, ◌++◌, arith, ◌==◌, Bool-cases,
  inl, inr, refl, get_elem?,
}
use wasmtiny.Memory.{SharedRange}
use wasmtiny.Memory.Access.{range_start, range_end, find_range}
use wasmtiny.Memory.Access.Data.{AreDistinct, IsFresh}
use wasmtiny.Memory.Mapping.{is_mapped, retain_others}
use wasmtiny.Memory.Layout.{AreStacked}

pub AreStacked-bounds :
    (rs : List SharedRange) (top bottom : ℕ) → AreStacked rs top bottom → bottom ≤ top
AreStacked-bounds [] top bottom h = h
AreStacked-bounds (r ∷ rs) top bottom h =
    omega (arith, h.0, AreStacked-bounds rs (range_start r) bottom h.1)

pub AreStacked-widen :
    (rs : List SharedRange) (top top' bottom : ℕ)
    → top ≤ top'
    → AreStacked rs top bottom
    → AreStacked rs top' bottom
AreStacked-widen [] top top' bottom le h = omega (arith, le, h)
AreStacked-widen (r ∷ rs) top top' bottom le h = (omega (arith, le, h.0), h.1)

pub AreStacked-lower :
    (rs : List SharedRange) (top bottom bottom' : ℕ)
    → bottom' ≤ bottom
    → AreStacked rs top bottom
    → AreStacked rs top bottom'
AreStacked-lower [] top bottom bottom' le h = omega (arith, le, h)
AreStacked-lower (r ∷ rs) top bottom bottom' le h =
    (h.0, AreStacked-lower rs (range_start r) bottom bottom' le h.1)

pub AreStacked-snoc :
    (rs : List SharedRange) (top bottom : ℕ) (r : SharedRange)
    → AreStacked rs top bottom
    → range_end r ≤ bottom
    → AreStacked (rs ++ (r ∷ [])) top (range_start r)
AreStacked-snoc [] top bottom r h below = (omega (arith, h, below), omega arith)
AreStacked-snoc (s ∷ rs) top bottom r h below =
    (h.0, AreStacked-snoc rs (range_start s) bottom r h.1 below)

pub AreStacked-retain_others :
    (rs : List SharedRange) (top bottom id : ℕ)
    → AreStacked rs top bottom
    → AreStacked (retain_others rs id) top bottom
unfolding retain_others
AreStacked-retain_others [] top bottom id h = h
AreStacked-retain_others (r ∷ rs) top bottom id h =
    let rest = AreStacked-retain_others rs (range_start r) bottom id h.1 in
    let wide =
      AreStacked-widen (retain_others rs id) (range_start r) top bottom (omega (arith, h.0)) rest in
    elim (Bool-cases (r.region_id == id)) [
      | inl e ↦ ground (arith, e, wide)
      | inr e ↦ ground (arith, e, rest, h.0)
    ]

pub IsFresh-snoc :
    (rs : List SharedRange) (id : ℕ) (r : SharedRange)
    → IsFresh id rs
    → r.region_id ≢ id
    → IsFresh id (rs ++ (r ∷ []))
IsFresh-snoc [] id r f ne = (ne, tt)
IsFresh-snoc (s ∷ rs) id r f ne = (f.0, IsFresh-snoc rs id r f.1 ne)

pub is_mapped-IsFresh : (rs : List SharedRange) (id : ℕ) → is_mapped rs id ≡ false → IsFresh id rs
unfolding is_mapped
is_mapped-IsFresh [] id h = tt
is_mapped-IsFresh (r ∷ rs) id h = (ground (arith, h), is_mapped-IsFresh rs id (ground (arith, h)))

pub AreDistinct-snoc :
    (rs : List SharedRange) (r : SharedRange)
    → AreDistinct rs
    → IsFresh r.region_id rs
    → AreDistinct (rs ++ (r ∷ []))
AreDistinct-snoc [] r d f = (tt, tt)
AreDistinct-snoc (s ∷ rs) r d f =
    (IsFresh-snoc rs s.region_id r d.0 (λ e. f.0 (cc)), AreDistinct-snoc rs r d.1 f.1)

IsFresh-retain_others :
    (rs : List SharedRange) (i id : ℕ) → IsFresh i rs → IsFresh i (retain_others rs id)
unfolding retain_others
IsFresh-retain_others [] i id f = f
IsFresh-retain_others (r ∷ rs) i id f =
    let rest = IsFresh-retain_others rs i id f.1 in
    elim (Bool-cases (r.region_id == id)) [
      | inl e ↦ ground (arith, e, rest)
      | inr e ↦ ground (arith, e, rest, f.0)
    ]

pub AreDistinct-retain_others :
    (rs : List SharedRange) (id : ℕ) → AreDistinct rs → AreDistinct (retain_others rs id)
unfolding retain_others
AreDistinct-retain_others [] id d = d
AreDistinct-retain_others (r ∷ rs) id d =
    let rest = AreDistinct-retain_others rs id d.1 in
    elim (Bool-cases (r.region_id == id)) [
      | inl e ↦ ground (arith, e, rest)
      | inr e ↦ ground (arith, e, rest, IsFresh-retain_others rs r.region_id id d.0)
    ]

-- Taking away a region that is not mapped changes nothing.
retain_others_fresh : (rs : List SharedRange) (id : ℕ) → IsFresh id rs → retain_others rs id ≡ rs
unfolding retain_others
retain_others_fresh [] id f = refl
retain_others_fresh (r ∷ rs) id f = ground (arith, f.0, retain_others_fresh rs id f.1)

-- Taking away the region that was mapped last gives back the ranges before it.
pub retain_others-snoc :
    (rs : List SharedRange) (r : SharedRange)
    → IsFresh r.region_id rs
    → retain_others (rs ++ (r ∷ [])) r.region_id ≡ rs
unfolding retain_others
retain_others-snoc [] r f = ground arith
retain_others-snoc (s ∷ rs) r f = ground (arith, f.0, retain_others-snoc rs r f.1)

stacked_below :
    (rs : List SharedRange) (k top bottom : ℕ) (r : SharedRange)
    → AreStacked rs top bottom
    → get_elem? rs k ≡ some r
    → range_end r ≤ top
stacked_below [] k top bottom r h e = cc
stacked_below (s ∷ rs) zero top bottom r h e = ground (arith, e, h.0)
stacked_below (s ∷ rs) (suc k) top bottom r h e =
    omega (arith, h.0, stacked_below rs k (range_start s) bottom r h.1 e)

-- An address within a stacked range is found in that range, whichever one it is: no range hides
-- another.
pub find_range-get_elem? :
    (rs : List SharedRange) (k top bottom address : ℕ) (r : SharedRange)
    → AreStacked rs top bottom
    → get_elem? rs k ≡ some r
    → range_start r ≤ address
    → address < range_end r
    → find_range rs address ≡ some (r, address - range_start r)
unfolding find_range
find_range-get_elem? [] k top bottom address r h e le lt = cc
find_range-get_elem? (s ∷ rs) zero top bottom address r h e le lt = ground (arith, e, le, lt)
find_range-get_elem? (s ∷ rs) (suc k) top bottom address r h e le lt = ground (
  arith,
  find_range-get_elem? rs k (range_start s) bottom address r h.1 e le lt,
  stacked_below rs k (range_start s) bottom r h.1 e,
)
