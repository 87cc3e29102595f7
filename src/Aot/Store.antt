-- ===== src/Aot/Store.antt =====
-- crates/core/src/aot/store.rs: the store of call targets and signatures, and its tables.
pub mod Signatures
pub mod Tables
use wasmtiny.Base.{
  ℕ, zero, suc, ◌+◌, ◌%◌, ◌^◌, Bool, true, false, ◌&&◌, Option, none, some, List, [], ◌∷◌, ◌++◌,
  length, get_elem?, replicate, ltb, ◌==◌, if◌then◌else◌, min, max,
}
use wasmtiny.Runtime.Error.{Result, ok, err, WasmError}
use wasmtiny.Runtime.Types.{FunctionType, ValType, TableType, function_type_eq, limits_max}

-- The entry and the context are addresses; 0 is the null pointer.
pub record FuncDesc : Type 0 where
  pub entry : ℕ
  pub vmctx : ℕ
  pub type_id : ℕ

pub record AotStore : Type 0 where
  pub store_funcs : List FuncDesc
  pub type_registry : List FunctionType

unfoldable pub new_store : AotStore
new_store = record {
  store_funcs = record { entry = 0; vmctx = 0; type_id = 0 } ∷ [];
  type_registry = [];
}

unfoldable pub position : FunctionType → List FunctionType → Option ℕ
position ty [] = none
position ty (t ∷ types) =
    if function_type_eq t ty
    then some 0
    else elim (position ty types) [ none ↦ none | some i ↦ some (suc i) ]

abbrev register : AotStore → FunctionType → Option ℕ → ℕ × AotStore
register s ty (some i) = (i % 2 ^ 32, s)
register s ty none =
    (length s.type_registry % 2 ^ 32, record s { type_registry = s.type_registry ++ (ty ∷ []) })

unfoldable pub canonical_type_id : AotStore → FunctionType → ℕ × AotStore
canonical_type_id s ty = register s ty (position ty s.type_registry)

unfoldable pub push_func : AotStore → FuncDesc → ℕ × AotStore
push_func s desc =
    (length s.store_funcs % 2 ^ 32, record s { store_funcs = s.store_funcs ++ (desc ∷ []) })

unfoldable pub func_desc : AotStore → ℕ → Option FuncDesc
func_desc s handle = get_elem? s.store_funcs handle

abbrev pub max_table_elements : ℕ
max_table_elements = 2 ^ 20

-- `reserved` is the length of the buffer behind the cells, which are its first ones.
pub record AotTable : Type 0 where
  pub cells : List ℕ
  pub reserved : ℕ
  pub table_type : TableType

abbrev max_or : Option ℕ → ℕ → ℕ
max_or none d = d
max_or (some m) d = m

-- `none` is the panic of `clamp` on bounds in the wrong order. `reserves` tells whether the
-- allocator has room for so many cells.
unfoldable pub with_initial : (ℕ → Bool) → TableType → ℕ → Option (Result AotTable)
with_initial reserves ty initial =
    let reservation =
      min (max (max_or (limits_max ty.limits) max_table_elements) initial) max_table_elements in
    if ltb max_table_elements initial
    then none
    else if reserves reservation
    then some (ok (record { cells = replicate initial 0; reserved = reservation; table_type = ty }))
    else some (err (WasmError.instantiate "cannot reserve {reservation} table entries"))
