-- ===== src/Runtime/Table.antt =====
-- crates/core/src/runtime/types.rs: `Table`. The field `data` is `elems`; a method that takes
-- `&mut self` returns the table that it leaves behind it.
pub mod Laws
use wasmtiny.Base.{
  ℕ, ◌+◌, ◌-◌, ◌%◌, ◌^◌, Bool, true, false, ◌&&◌, not, Option, none, some, List, ◌++◌, ltb, leb,
  if◌then◌else◌, length, take, replicate, get_elem?, set, min,
}
use wasmtiny.Runtime.Error.{Result, ok, err, WasmError, TrapCode}
use wasmtiny.Runtime.Types.{RefType, ValType, TableType, limits_min, limits_max, val_type_eq}
use wasmtiny.Runtime.Values.{WasmValue, val_type}

pub record Table : Type 0 where
  pub type_ : TableType
  pub elems : List WasmValue

unfoldable pub new : TableType → Table
new t = record {
  type_ = t;
  elems = replicate (limits_min t.limits) (WasmValue.null_ref t.elem_type);
}

-- `self.data.len() as u32`
unfoldable pub size : Table → ℕ
size t = length t.elems % 2 ^ 32

unfoldable pub get : Table → ℕ → Option WasmValue
get t idx = get_elem? t.elems idx

abbrev is_null_ref : WasmValue → Bool
is_null_ref (WasmValue.null_ref _) = true
is_null_ref _ = false

unfoldable pub set_elem : Table → ℕ → WasmValue → Result (Unit {0}) × Table
set_elem t idx val =
    if leb (length t.elems) idx
    then (err (WasmError.trap TrapCode.table_out_of_bounds), t)
    else if not (val_type_eq (val_type val) (ValType.ref t.type_.elem_type))
    then (err (WasmError.validation "table element type mismatch"), t)
    else if not t.type_.nullable && is_null_ref val
    then (err (WasmError.validation "table element nullability mismatch"), t)
    else (ok tt, record t { elems = set t.elems idx val })

-- `Vec::resize`
abbrev resize : List WasmValue → ℕ → WasmValue → List WasmValue
resize xs n v = if leb n (length xs) then take n xs else xs ++ replicate (n - length xs) v

abbrev exceeds : ℕ → Option ℕ → Bool
exceeds n none = false
exceeds n (some hi) = ltb hi n

-- `old_size.saturating_add(delta)` on `u32`.
abbrev grown_size : Table → ℕ → ℕ
unfolding size
grown_size t delta = min (size t + delta) (2 ^ 32 - 1)

unfoldable pub grow : Table → ℕ → Result ℕ × Table
unfolding size grown_size
grow t delta =
    if exceeds (grown_size t delta) (limits_max t.type_.limits)
    then (err (WasmError.runtime "table size exceeds maximum"), t)
    else (
      ok (size t),
      record t {
        elems = resize t.elems (grown_size t delta) (WasmValue.null_ref t.type_.elem_type);
      },
    )
