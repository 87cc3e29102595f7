-- ===== src/Runtime/AtomicOp/Tests.antt =====
-- An entry of the table of atomic instructions.
use wasmtiny.Base.{◌≡◌}
use wasmtiny.Runtime.AtomicOp.{lookup}
use wasmtiny.Runtime.AtomicOp.Encoding.{encoding, lookup_lem}

-- i32.atomic.rmw.cmpxchg
lookup_lem_example : lookup 0x48 ≡ encoding 0x48
lookup_lem_example = lookup_lem 0x48
