-- ===== src/Runtime/Module.antt =====
-- crates/core/src/runtime/module.rs, import.rs and export.rs: a parsed module and its index spaces.
pub mod Spaces
mod Tests
use wasmtiny.Base.{
  ℕ, ◌+◌, ◌-◌, ◌%◌, ◌^◌, Bool, true, false, Option, none, some, List, [], ◌∷◌, length, get_elem?,
  ltb, ◌==◌, if◌then◌else◌, String,
}
use wasmtiny.Runtime.Types.{FunctionType, ValType, RefType, TableType, MemoryType, GlobalType}

pub record Local : Type 0 where
  pub count : ℕ
  pub type_ : ValType

pub record Func : Type 0 where
  pub type_idx : ℕ
  pub locals : List Local
  pub body : List ℕ

pub data DataKind : Type 0 where
  active : ℕ → List ℕ → DataKind
  passive : DataKind

pub record DataSegment : Type 0 where
  pub kind : DataKind
  pub init : List ℕ

pub data ElemKind : Type 0 where
  active : ℕ → List ℕ → ElemKind
  passive declarative : ElemKind

pub record ElemSegment : Type 0 where
  pub kind : ElemKind
  pub type_ : RefType
  pub nullable : Bool
  pub init : List (List ℕ)
  pub generated_by_table_init : Bool

pub data ImportKind : Type 0 where
  func : ℕ → ImportKind
  table : TableType → ImportKind
  memory : MemoryType → ImportKind
  global : GlobalType → ImportKind
  tag : ℕ → ℕ → ImportKind

pub record Import : Type 0 where
  pub module_name : String
  pub name : String
  pub kind : ImportKind

pub data ExportKind : Type 0 where
  func table memory global tag : ℕ → ExportKind

pub record ExportType : Type 0 where
  pub name : String
  pub kind : ExportKind

pub record Module : Type 0 where
  pub id : ℕ
  pub types : List FunctionType
  pub funcs : List Func
  pub tables : List TableType
  pub memories : List MemoryType
  pub globals : List GlobalType
  pub global_inits : List (List ℕ)
  pub exports : List ExportType
  pub imports : List Import
  pub start : Option ℕ
  pub segments : List DataSegment
  pub elems : List ElemSegment
  pub data_count : Option ℕ

-- `Module::new` with the id that the counter `NEXT_MODULE_ID` gives, and the counter behind it.
unfoldable pub new_module : ℕ → Module × ℕ
new_module next_id = (
  record {
    id = next_id;
    types = [];
    funcs = [];
    tables = [];
    memories = [];
    globals = [];
    global_inits = [];
    exports = [];
    imports = [];
    start = none;
    segments = [];
    elems = [];
    data_count = none;
  },
  (next_id + 1) % 2 ^ 64,
)

unfoldable pub new_func : String → ℕ → ExportType
new_func name idx = record { name = name; kind = ExportKind.func idx }

unfoldable pub new_memory : String → ℕ → ExportType
new_memory name idx = record { name = name; kind = ExportKind.memory idx }

abbrev pub func_import : ImportKind → Option ℕ
func_import (ImportKind.func type_idx) = some type_idx
func_import _ = none

abbrev pub table_import : ImportKind → Option TableType
table_import (ImportKind.table t) = some t
table_import _ = none

abbrev pub memory_import : ImportKind → Option MemoryType
memory_import (ImportKind.memory t) = some t
memory_import _ = none

abbrev pub global_import : ImportKind → Option GlobalType
global_import (ImportKind.global t) = some t
global_import _ = none

-- `idx.checked_sub(count)?`, and what is defined there.
abbrev local_at : {B : Type 0} → ℕ → ℕ → (ℕ → Option B) → Option B
local_at idx count defined = if ltb idx count then none else defined (idx - count)

-- The loop of the accessors: the imports that `view` picks are counted in a `u32`; the one at
-- `idx` ends the loop with `found`, and behind the loop the index is one of the module's own.
unfoldable pub scan :
    {A B : Type 0}
    → (ImportKind → Option A)
    → (A → Option B)
    → (ℕ → Option B)
    → List Import
    → ℕ
    → ℕ
    → Option B
scan view found defined [] count idx = local_at idx count defined
scan view found defined (i ∷ imports) count idx = elim (view i.kind) [
  | none ↦ scan view found defined imports count idx
  | some a ↦
      let rest = scan view found defined imports ((count + 1) % 2 ^ 32) idx in
      if count == idx then found a else rest
]

unfoldable pub type_at : Module → ℕ → Option FunctionType
type_at m idx = get_elem? m.types idx

unfoldable pub table_at : Module → ℕ → Option TableType
unfolding scan
table_at m idx = scan table_import some (get_elem? m.tables) m.imports 0 idx

unfoldable pub memory_at : Module → ℕ → Option MemoryType
unfolding scan
memory_at m idx = scan memory_import some (get_elem? m.memories) m.imports 0 idx

unfoldable pub global_at : Module → ℕ → Option GlobalType
unfolding scan
global_at m idx = scan global_import some (get_elem? m.globals) m.imports 0 idx

unfoldable pub defined_func_at : Module → ℕ → Option Func
defined_func_at m idx = get_elem? m.funcs idx

abbrev pub type_of_func : Module → Option Func → Option FunctionType
type_of_func m none = none
type_of_func m (some f) = get_elem? m.types f.type_idx

unfoldable pub func_type : Module → ℕ → Option FunctionType
unfolding scan type_at defined_func_at
func_type m idx =
    scan func_import (type_at m) (λ i. type_of_func m (defined_func_at m i)) m.imports 0 idx

-- `filter(…).count()` of the imports that `view` picks.
unfoldable pub count_imports : {A : Type 0} → (ImportKind → Option A) → List Import → ℕ
count_imports view [] = 0
count_imports view (i ∷ imports) = elim (view i.kind) [
  | none ↦ count_imports view imports
  | some _ ↦ count_imports view imports + 1
]

unfoldable pub func_count : Module → ℕ
unfolding count_imports
func_count m = (count_imports func_import m.imports % 2 ^ 32 + length m.funcs % 2 ^ 32) % 2 ^ 32
