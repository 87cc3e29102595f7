-- ===== src/Memory/Layout.antt =====
-- How the shared ranges lie in the address space: stacked from its end downwards.
pub mod Stacked
pub mod Same
pub mod Mapped
pub mod Kept
pub mod Stores
pub mod Reached
pub mod Attach
use wasmtiny.Base.{ℕ, ◌+◌, ◌-◌, ◌*◌, ◌/◌, ◌%◌, ◌^◌, ◌≤◌, ◌<◌, ◌≡◌, ◌≢◌, List, [], ◌∷◌}
use wasmtiny.Memory.{Memory, SharedRange, page_size_bytes, capacity_of, reserved_pages}
use wasmtiny.Memory.Access.{range_start, range_end}
use wasmtiny.Memory.Access.Data.{AreDistinct}

-- Every range lies below the one mapped before it, and all lie between `bottom` and `top`.
abbrev pub AreStacked : List SharedRange → ℕ → ℕ → Type 0
AreStacked [] top bottom = bottom ≤ top
AreStacked (r ∷ rs) top bottom = (range_end r ≤ top) × AreStacked rs (range_start r) bottom

-- The owned pages are whole and within the reservation; the shared ranges are stacked from its end
-- down to the next offset, which is that of a page; no region is mapped twice.
abbrev pub IsLaidOut : Memory → Type 0
IsLaidOut m =
    (m.capacity ≡ capacity_of (reserved_pages m.mem_type))
    × (m.capacity ≤ 2 ^ 32)
    × (m.len ≤ m.capacity)
    × (m.len % page_size_bytes ≡ 0)
    × (m.next_shared_offset % page_size_bytes ≡ 0)
    × AreStacked m.shared_ranges m.capacity m.next_shared_offset
    × AreDistinct m.shared_ranges
