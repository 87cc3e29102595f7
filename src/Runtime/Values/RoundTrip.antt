-- ===== src/Runtime/Values/RoundTrip.antt =====
-- `to_bytes` and `from_bytes` of values.rs.
use wasmtiny.Base.{
  ℕ, ◌+◌, ◌^◌, ◌≤◌, ◌<◌, ◌≡◌, refl, some, List, [], ◌∷◌, ◌++◌, length, take, arith, length-append,
}
use wasmtiny.Base.Bytes.{
  to_le_bytes, from_le_bytes, length-to_le_bytes, take-to_le_bytes, from_le_bytes-to_le_bytes,
}
use wasmtiny.Runtime.Types.{RefType, ref_type_from_u8}
use wasmtiny.Runtime.Values.{WasmValue, FitsWidth, to_bytes, from_bytes, read_payload}

read_payload-to_le_bytes :
    (w n : ℕ) (make : ℕ → WasmValue) (rest : List ℕ)
    → n < 256 ^ w
    → read_payload w make (to_le_bytes w n ++ rest) ≡ some (make n, w + 1)
unfolding read_payload
read_payload-to_le_bytes w n make rest h = ground (
  arith,
  length-append (to_le_bytes w n) rest,
  length-to_le_bytes w n,
  take-to_le_bytes w n rest,
  from_le_bytes-to_le_bytes w n h,
)

-- A value that fits its width is read back from its bytes, with the number of those bytes,
-- whatever follows them.
pub from_bytes-to_bytes :
    (v : WasmValue) (rest : List ℕ)
    → FitsWidth v
    → from_bytes (to_bytes v ++ rest) ≡ some (v, length (to_bytes v))
unfolding from_bytes to_bytes ref_type_from_u8
from_bytes-to_bytes (WasmValue.i32 n) rest h =
    ground (arith, read_payload-to_le_bytes 4 n WasmValue.i32 rest h, length-to_le_bytes 4 n)
from_bytes-to_bytes (WasmValue.i64 n) rest h =
    ground (arith, read_payload-to_le_bytes 8 n WasmValue.i64 rest h, length-to_le_bytes 8 n)
from_bytes-to_bytes (WasmValue.f32 n) rest h =
    ground (arith, read_payload-to_le_bytes 4 n WasmValue.f32 rest h, length-to_le_bytes 4 n)
from_bytes-to_bytes (WasmValue.f64 n) rest h =
    ground (arith, read_payload-to_le_bytes 8 n WasmValue.f64 rest h, length-to_le_bytes 8 n)
from_bytes-to_bytes (WasmValue.null_ref RefType.func_ref) rest h = refl
from_bytes-to_bytes (WasmValue.null_ref RefType.extern_ref) rest h = refl
from_bytes-to_bytes (WasmValue.func_ref n) rest h =
    ground (arith, read_payload-to_le_bytes 4 n WasmValue.func_ref rest h, length-to_le_bytes 4 n)
from_bytes-to_bytes (WasmValue.extern_ref n) rest h =
    ground (arith, read_payload-to_le_bytes 4 n WasmValue.extern_ref rest h, length-to_le_bytes 4 n)

-- What `from_bytes` reports to have taken lies within the bytes that it was given, and is the
-- length of the encoding of the value that it returns.
pub from_bytes_bounds :
    (bs : List ℕ) {v : WasmValue} {n : ℕ}
    → from_bytes bs ≡ some (v, n)
    → (n ≤ length bs) × (n ≡ length (to_bytes v))
unfolding from_bytes to_bytes
from_bytes_bounds [] h = cc
from_bytes_bounds (t ∷ rest) h = ground (
  arith,
  length-to_le_bytes 4 (from_le_bytes (take 4 rest)),
  length-to_le_bytes 8 (from_le_bytes (take 8 rest)),
)
