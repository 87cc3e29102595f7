-- ===== src/Loader/Parser/Sections.antt =====
-- crates/core/src/loader/parser.rs: the sections. Where one fails, the module is dropped.
use wasmtiny.Base.{
  ℕ, zero, suc, ◌+◌, ◌%◌, ◌^◌, Bool, true, false, not, ◌&&◌, some, List, [], ◌∷◌, ◌++◌, length,
  replicate, ltb, ◌==◌, if◌then◌else◌,
}
use wasmtiny.Runtime.Types.{RefType, Limits, limits_min, TableType, MemoryType, GlobalType}
use wasmtiny.Runtime.Module.{
  Module, ImportKind, ExportKind, ElemSegment, ElemKind, count_imports, table_import,
}
use wasmtiny.Loader.Reader.{BinaryReader, remaining}
use wasmtiny.Loader.Parser.{
  Parse, ◌>>=◌, pure, fail, byte, u32, bytes, vector, read_val_type, read_table_ref_type,
  read_ref_type_with_prefix, read_limits, read_limits_with_flags, read_mutability, read_name,
  read_const_expr, i32_zero_expr,
}

-- A step of a section changes the module.
abbrev pub Step : Type 0
Step = Module → Parse Module

-- `for _ in 0..count`
unfoldable pub each : ℕ → Step → Step
each zero step m = pure m
each (suc n) step m = do m' ← step m; each n step m'

unfoldable pub counted : Step → Step
unfolding each
counted step m = do count ← u32; each count step m

unfoldable pub parse_custom : BinaryReader → Parse (Unit {0})
parse_custom start =
    if remaining start == 0
    then pure tt
    else (do name_len ← u32; name ← bytes name_len; payload ← λ r. bytes (remaining r) r; pure tt)

abbrev pub func_type_of : ℕ → Step
func_type_of form m = if not (form == 0x60) then fail "expected func type form" else (do
  params ← vector read_val_type
  results ← vector read_val_type
  pure (record m { types = m.types ++ (record { params = params; results = results } ∷ []) }))

unfoldable pub type_step : Step
type_step m = do form ← byte; func_type_of form m

unfoldable pub parse_type : Step
parse_type = counted type_step

abbrev pub func_kind : Parse ImportKind
func_kind = do type_idx ← u32; pure (ImportKind.func type_idx)

abbrev pub table_type : RefType × Bool → Limits → TableType
table_type (elem_type, nullable) limits = record {
  elem_type = elem_type;
  limits = limits;
  nullable = nullable;
}

abbrev pub table_kind : Parse ImportKind
table_kind = do
  elem ← read_table_ref_type
  limits ← read_limits
  pure (ImportKind.table (table_type elem limits))

abbrev pub memory_type : Limits × Bool → MemoryType
memory_type (limits, shared) = record { limits = limits; shared = shared }

abbrev pub memory_kind : Parse ImportKind
memory_kind = do parts ← read_limits_with_flags; pure (ImportKind.memory (memory_type parts))

abbrev pub global_type : Parse GlobalType
global_type = do
  content_type ← read_val_type
  mutable ← read_mutability
  pure (record { content_type = content_type; mutable = mutable })

abbrev pub global_kind : Parse ImportKind
global_kind = do t ← global_type; pure (ImportKind.global t)

abbrev pub tag_kind : Parse ImportKind
tag_kind = do attribute ← byte; type_idx ← u32; pure (ImportKind.tag attribute type_idx)

unfoldable pub import_kind : ℕ → Parse ImportKind
import_kind kind_byte =
    if kind_byte == 0x00
    then func_kind
    else if kind_byte == 0x01
    then table_kind
    else if kind_byte == 0x02
    then memory_kind
    else if kind_byte == 0x03
    then global_kind
    else if kind_byte == 0x04
    then tag_kind
    else fail "unknown import kind: {}"

unfoldable pub import_step : Step
import_step m = do
  module_name ← read_name "invalid UTF-8 in import module name"
  name ← read_name "invalid UTF-8 in export name"
  kind_byte ← byte
  kind ← import_kind kind_byte
  pure (record m {
    imports = m.imports ++ (record { module_name = module_name; name = name; kind = kind } ∷ []);
  })

unfoldable pub parse_import : Step
parse_import = counted import_step

unfoldable pub function_step : Step
function_step m = do
  type_idx ← u32
  pure (record m {
    funcs = m.funcs ++ (record { type_idx = type_idx; locals = []; body = [] } ∷ []);
  })

unfoldable pub parse_function : Step
parse_function = counted function_step

abbrev pub max_table_min : ℕ
max_table_min = 100000

abbrev pub starts_null : List ℕ → Bool
starts_null [] = false
starts_null (b ∷ expr) = b == 0xD0

-- The segment that fills a table whose declaration has an initialiser.
abbrev pub table_segment : Module → RefType × Bool → ℕ → List ℕ → ElemSegment
table_segment m (elem_type, nullable) min init = record {
  kind =
      ElemKind.active ((count_imports table_import m.imports + length m.tables) % 2 ^ 32)
        i32_zero_expr;
  type_ = elem_type;
  nullable = nullable;
  init = replicate min init;
  generated_by_table_init = true;
}

abbrev pub with_table : Module → TableType → Module
with_table m t = record m { tables = m.tables ++ (t ∷ []) }

abbrev pub filled_table : RefType × Bool → Limits → List ℕ → Step
filled_table elem limits init m =
    let grown = with_table m (table_type elem limits) in
    if ltb max_table_min (limits_min limits)
    then fail "table minimum {} exceeds supported maximum {}"
    else pure (
        if ltb 0 (limits_min limits)
        then record grown {
          elems = m.elems ++ (table_segment m elem (limits_min limits) init ∷ []);
        }
        else grown)

abbrev pub initialised : ℕ → RefType × Bool → Limits → List ℕ → Step
initialised type_prefix elem limits init m =
    if type_prefix == 0x64 && starts_null init
    then fail "non-null table initialiser cannot be ref.null"
    else filled_table elem limits init m

abbrev pub initialised_table : ℕ → Step
initialised_table flags m =
    if not (flags == 0) then fail "unsupported table init flags: {}" else (do
      type_prefix ← byte
      elem ← read_ref_type_with_prefix type_prefix
      limits ← read_limits
      init ← read_const_expr
      initialised type_prefix elem limits init m)

abbrev pub plain_table : ℕ → Step
plain_table prefix m = do
  elem ← read_ref_type_with_prefix prefix
  limits ← read_limits
  pure (with_table m (table_type elem limits))

abbrev pub flagged_table : Step
flagged_table m = do flags ← byte; initialised_table flags m

abbrev pub table_of : ℕ → Step
table_of prefix m =
    if prefix == 0x40
    then flagged_table m
    else if prefix == 0x64
    then fail "non-null table declarations require an explicit initialiser"
    else plain_table prefix m

unfoldable pub table_step : Step
table_step m = do prefix ← byte; table_of prefix m

unfoldable pub parse_table : Step
parse_table = counted table_step

unfoldable pub memory_step : Step
memory_step m = do
  parts ← read_limits_with_flags
  pure (record m { memories = m.memories ++ (memory_type parts ∷ []) })

unfoldable pub parse_memory : Step
parse_memory = counted memory_step

unfoldable pub global_step : Step
global_step m = do
  t ← global_type
  init ← read_const_expr
  pure (record m { globals = m.globals ++ (t ∷ []); global_inits = m.global_inits ++ (init ∷ []) })

unfoldable pub parse_global : Step
parse_global = counted global_step

abbrev pub export_kind : ℕ → ℕ → Parse ExportKind
export_kind kind_byte idx =
    if kind_byte == 0x00
    then pure (ExportKind.func idx)
    else if kind_byte == 0x01
    then pure (ExportKind.table idx)
    else if kind_byte == 0x02
    then pure (ExportKind.memory idx)
    else if kind_byte == 0x03
    then pure (ExportKind.global idx)
    else if kind_byte == 0x04
    then pure (ExportKind.tag idx)
    else fail "unknown export kind: {}"

unfoldable pub export_step : Step
export_step m = do
  name ← read_name "invalid UTF-8 in export name"
  kind_byte ← byte
  idx ← u32
  kind ← export_kind kind_byte idx
  pure (record m { exports = m.exports ++ (record { name = name; kind = kind } ∷ []) })

unfoldable pub parse_export : Step
parse_export = counted export_step

unfoldable pub parse_start : Step
parse_start m = do start ← u32; pure (record m { start = some start })

unfoldable pub parse_data_count : Step
parse_data_count m = do count ← u32; pure (record m { data_count = some count })

unfoldable pub tag_step : Step
tag_step m = do attribute ← byte; type_idx ← u32; pure m

unfoldable pub parse_tag : Step
parse_tag = counted tag_step
