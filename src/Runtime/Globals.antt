-- ===== src/Runtime/Globals.antt =====
-- crates/core/src/runtime/types.rs: `Global`.
use wasmtiny.Base.{true, not, if◌then◌else◌, ◌≡◌, ◌≢◌, arith}
use wasmtiny.Runtime.Error.{Result, ok, err, WasmError}
use wasmtiny.Runtime.Types.{GlobalType, val_type_eq}
use wasmtiny.Runtime.Types.Matching.{val_type_eq_iff}
use wasmtiny.Runtime.Values.{WasmValue, val_type}

pub record Global : Type 0 where
  pub type_ : GlobalType
  pub value : WasmValue

unfoldable pub new : GlobalType → WasmValue → Result Global
new ty value =
    if not (val_type_eq ty.content_type (val_type value))
    then err (WasmError.validation "global type mismatch")
    else ok (record { type_ = ty; value = value })

unfoldable pub get : Global → WasmValue
get g = g.value

unfoldable pub set_value : Global → WasmValue → Result (Unit {0}) × Global
set_value g value =
    if not g.type_.mutable
    then (err (WasmError.runtime "global is not mutable"), g)
    else if not (val_type_eq g.type_.content_type (val_type value))
    then (err (WasmError.validation "value type mismatch"), g)
    else (ok tt, record g { value = value })

abbrev pub IsTyped : Global → Type 0
IsTyped g = g.type_.content_type ≡ val_type g.value

-- A global that `new` accepts holds a value of its declared type, and that value is the one given.
pub new-IsTyped :
    (ty : GlobalType) (v : WasmValue) {g : Global}
    → new ty v ≡ ok g
    → IsTyped g × (g.type_ ≡ ty) × (get g ≡ v)
unfolding new get
new-IsTyped ty v h = ground (arith, (val_type_eq_iff ty.content_type (val_type v)).0)

-- A write to a typed global leaves it typed and of the same declared type; it succeeds exactly
-- when the global is mutable and the value has its type, and then the value reads back;
-- otherwise nothing changes.
pub set_value_lem :
    (g : Global) (v : WasmValue)
    → IsTyped g
    → IsTyped (set_value g v).1
      × ((set_value g v).1.type_ ≡ g.type_)
      × ((set_value g v).0 ≡ ok tt
          → (g.type_.mutable ≡ true)
            × (g.type_.content_type ≡ val_type v)
            × (get (set_value g v).1 ≡ v))
      × (g.type_.mutable ≡ true → g.type_.content_type ≡ val_type v → (set_value g v).0 ≡ ok tt)
      × ((set_value g v).0 ≢ ok tt → (set_value g v).1 ≡ g)
unfolding set_value get
set_value_lem g v h = ground (
  arith,
  (val_type_eq_iff g.type_.content_type (val_type v)).0,
  (val_type_eq_iff g.type_.content_type (val_type v)).1,
)
