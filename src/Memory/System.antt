-- ===== src/Memory/System.antt =====
-- The system calls that memory.rs makes, and the operating system as it answers them.
use wasmtiny.Base.{ℕ, Bool, List}

pub data Prot : Type 0 where
  no_access read read_write : Prot

-- Offsets are counted from the base of the memory's reservation. `map_shared` is `mmap(MAP_FIXED |
-- MAP_SHARED)` of a descriptor, and `restore` is `mmap(PROT_NONE, MAP_FIXED)`.
pub data OsCall : Type 0 where
  reserve : ℕ → OsCall
  protect : ℕ → ℕ → Prot → OsCall
  map_shared : ℕ → ℕ → ℕ → OsCall
  unmap : ℕ → ℕ → OsCall
  restore : ℕ → ℕ → OsCall

-- Whether a call succeeds, which may depend on the calls before it.
abbrev pub Os : Type 0
Os = List OsCall → OsCall → Bool
