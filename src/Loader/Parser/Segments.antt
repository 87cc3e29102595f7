-- ===== src/Loader/Parser/Segments.antt =====
-- crates/core/src/loader/parser.rs: element segments, function bodies and data segments.
use wasmtiny.Base.{
  ℕ, Bool, true, false, not, Option, none, some, List, [], ◌∷◌, ◌++◌, length, ◌==◌, if◌then◌else◌,
  map, pop_back,
}
use wasmtiny.Runtime.Types.{RefType}
use wasmtiny.Runtime.Module.{Func, ElemSegment, ElemKind, DataKind}
use wasmtiny.Loader.Reader.{BinaryReader, from_data, remaining}
use wasmtiny.Loader.Validator.{Checked, ok, err, panic, stuck}
use wasmtiny.Loader.Parser.{
  Parse, ◌>>=◌, pure, fail, u32, bytes, read_table_ref_type, read_elem_kind, read_const_expr,
  read_func_index_vector, read_const_expr_vector, parse_locals, func_ref_expr,
}
use wasmtiny.Loader.Parser.Sections.{Step, counted}

-- A segment of function indices, as expressions.
abbrev pub of_funcs : ElemKind → List ℕ → ElemSegment
of_funcs kind funcs = record {
  kind = kind;
  type_ = RefType.func_ref;
  nullable = false;
  init = map func_ref_expr funcs;
  generated_by_table_init = false;
}

abbrev pub of_exprs : ElemKind → RefType × Bool → List (List ℕ) → ElemSegment
of_exprs kind (type_, nullable) init = record {
  kind = kind;
  type_ = type_;
  nullable = nullable;
  init = init;
  generated_by_table_init = false;
}

abbrev pub active_funcs : Parse ElemSegment
active_funcs = do
  offset ← read_const_expr
  funcs ← read_func_index_vector
  pure (of_funcs (ElemKind.active 0 offset) funcs)

abbrev pub kind_funcs : ElemKind → Parse ElemSegment
kind_funcs kind = do
  checked ← read_elem_kind
  funcs ← read_func_index_vector
  pure (of_funcs kind funcs)

abbrev pub table_funcs : Parse ElemSegment
table_funcs = do
  table_idx ← u32
  offset ← read_const_expr
  kind_funcs (ElemKind.active table_idx offset)

abbrev pub active_exprs : Parse ElemSegment
active_exprs = do
  offset ← read_const_expr
  init ← read_const_expr_vector
  pure (of_exprs (ElemKind.active 0 offset) (RefType.func_ref, true) init)

abbrev pub typed_exprs : ElemKind → Parse ElemSegment
typed_exprs kind = do
  elem ← read_table_ref_type
  init ← read_const_expr_vector
  pure (of_exprs kind elem init)

abbrev pub table_exprs : Parse ElemSegment
table_exprs = do
  table_idx ← u32
  offset ← read_const_expr
  typed_exprs (ElemKind.active table_idx offset)

unfoldable pub elem_of : ℕ → Parse ElemSegment
elem_of flags =
    if flags == 0
    then active_funcs
    else if flags == 1
    then kind_funcs ElemKind.passive
    else if flags == 2
    then table_funcs
    else if flags == 3
    then kind_funcs ElemKind.declarative
    else if flags == 4
    then active_exprs
    else if flags == 5
    then typed_exprs ElemKind.passive
    else if flags == 6
    then table_exprs
    else if flags == 7
    then typed_exprs ElemKind.declarative
    else fail "unsupported element segment flags: {}"

unfoldable pub elem_step : Step
unfolding elem_of
elem_step m = do
  flags ← u32
  segment ← elem_of flags
  pure (record m { elems = m.elems ++ (segment ∷ []) })

unfoldable pub parse_elem : Step
parse_elem = counted elem_step

abbrev pub ends : Option (ℕ × List ℕ) → Bool
ends none = false
ends (some (b, body)) = b == 0x0B

abbrev pub finished : Func → List ℕ → Parse Func
finished func body =
    if ends (pop_back body)
    then pure (record func { body = body })
    else fail "function body must end with end opcode"

-- The locals and the code, read from the bytes of the body.
unfoldable pub body_of : Func → Parse Func
body_of func = do
  locals ← parse_locals
  body ← λ r. bytes (remaining r) r
  finished (record func { locals = locals }) body

-- A reader of its own on some bytes; `r` stays where it is.
abbrev pub inside : {A : Type 0} → Checked (A × BinaryReader) → Parse A
inside (ok (a, _)) r = ok (a, r)
inside (err e) r = err e
inside panic r = panic
inside stuck r = stuck

unfoldable pub func_body : Func → Parse Func
unfolding body_of
func_body func = do
  body_size ← u32
  body_bytes ← bytes body_size
  inside (body_of func (from_data body_bytes))

unfoldable pub bodies : List Func → Parse (List Func)
bodies [] = pure []
bodies (func ∷ funcs) = do func' ← func_body func; rest ← bodies funcs; pure (func' ∷ rest)

abbrev pub matched : ℕ → Step
matched count m =
    if not (count == length m.funcs)
    then fail "function and code section size mismatch"
    else (do funcs ← bodies m.funcs; pure (record m { funcs = funcs }))

unfoldable pub parse_code : Step
parse_code m = do count ← u32; matched count m

abbrev pub active_data : Parse DataKind
active_data = do offset ← read_const_expr; pure (DataKind.active 0 offset)

abbrev pub memory_data : Parse DataKind
memory_data = do
  memory_idx ← u32
  offset ← read_const_expr
  pure (DataKind.active memory_idx offset)

unfoldable pub data_kind : ℕ → Parse DataKind
data_kind flags =
    if flags == 0
    then active_data
    else if flags == 1
    then pure DataKind.passive
    else if flags == 2
    then memory_data
    else fail "unsupported data segment flags: {}"

unfoldable pub data_step : Step
unfolding data_kind
data_step m = do
  flags ← u32
  kind ← data_kind flags
  init_size ← u32
  init ← bytes init_size
  pure (record m { segments = m.segments ++ (record { kind = kind; init = init } ∷ []) })

unfoldable pub parse_data : Step
parse_data = counted data_step
