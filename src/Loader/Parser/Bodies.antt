-- ===== src/Loader/Parser/Bodies.antt =====
-- Segments and function bodies are parsed to an end.
use wasmtiny.Base.{ℕ, List, [], ◌∷◌, arith}
use wasmtiny.Runtime.Module.{Module, Func, ElemKind}
use wasmtiny.Loader.Reader.{BinaryReader, from_data}
use wasmtiny.Loader.Validator.{Checked, ok, err, panic, stuck}
use wasmtiny.Loader.Parser.{◌>>=◌, pure, bytes}
use wasmtiny.Loader.Parser.Ends.{
  IsPlaced, Ended, Ends, Any, IsSmall, pure-Ends, Any-then, u32_then, bytes_then, rest-Ends,
  ends_rules,
}
use wasmtiny.Loader.Parser.Types.{
  read_table_ref_type-Ends, read_elem_kind-Ends, read_const_expr-Ends, read_func_index_vector-Ends,
  read_const_expr_vector-Ends, parse_locals-Ends,
}
use wasmtiny.Loader.Parser.Total.{counted-Ends}
use wasmtiny.Loader.Parser.Segments.{
  active_funcs, kind_funcs, table_funcs, active_exprs, typed_exprs, table_exprs, elem_of, elem_step,
  parse_elem, finished, body_of, inside, func_body, bodies, matched, parse_code, data_kind,
  data_step, parse_data,
}

pub ruleset segment_rules = (
  read_table_ref_type-Ends, read_elem_kind-Ends, read_const_expr-Ends, read_func_index_vector-Ends,
  read_const_expr_vector-Ends,
)

kind_funcs-Ends : (kind : ElemKind) → Ends Any (kind_funcs kind)
kind_funcs-Ends kind = search (ends_rules, segment_rules) depth 10

typed_exprs-Ends : (kind : ElemKind) → Ends Any (typed_exprs kind)
typed_exprs-Ends kind = search (ends_rules, segment_rules) depth 10

active_funcs-Ends : Ends Any active_funcs
active_funcs-Ends = search (ends_rules, segment_rules) depth 10

active_exprs-Ends : Ends Any active_exprs
active_exprs-Ends = search (ends_rules, segment_rules) depth 10

table_funcs-Ends : Ends Any table_funcs
table_funcs-Ends = search (ends_rules, segment_rules, kind_funcs-Ends) depth 10

table_exprs-Ends : Ends Any table_exprs
table_exprs-Ends = search (ends_rules, segment_rules, typed_exprs-Ends) depth 10

elem_of-Ends : (flags : ℕ) → Ends Any (elem_of flags)
unfolding elem_of
elem_of-Ends flags =
    search
      (
        ends_rules, kind_funcs-Ends, typed_exprs-Ends, active_funcs-Ends, active_exprs-Ends,
        table_funcs-Ends, table_exprs-Ends,
      )
      depth 20

elem_step-Ends : (m : Module) → Ends Any (elem_step m)
unfolding elem_step
elem_step-Ends m = search (ends_rules, elem_of-Ends) depth 10

pub parse_elem-Ends : (m : Module) → Ends Any (parse_elem m)
unfolding parse_elem
parse_elem-Ends m = counted-Ends elem_step m elem_step-Ends

finished-Ends : (func : Func) (body : List ℕ) → Ends Any (finished func body)
finished-Ends func body = search ends_rules depth 8

body_of-Ends : (func : Func) → Ends Any (body_of func)
unfolding body_of
body_of-Ends func = search (ends_rules, parse_locals-Ends, rest-Ends, finished-Ends) depth 10

pub inside-Ends :
    {A : Type 0} (s : BinaryReader) (out : Checked (A × BinaryReader))
    → Ended Any s out
    → Ends Any (inside out)
unfolding Ended pure
inside-Ends s (ok (a, r)) e = pure-Ends a
inside-Ends s (err x) e = record { at = λ r h. tt }
inside-Ends s panic e = elim e [ ]
inside-Ends s stuck e = elim e [ ]

pub small-IsPlaced : (bs : List ℕ) → IsSmall bs → IsPlaced (from_data bs)
unfolding from_data
small-IsPlaced bs small = record { inside = omega arith; sized = omega (arith, small) }

func_body-Ends : (func : Func) → Ends Any (func_body func)
unfolding func_body
func_body-Ends func =
    u32_then (λ size. bytes size >>= λ bs. inside (body_of func (from_data bs)))
      (λ size fits.
        bytes_then size (λ bs. inside (body_of func (from_data bs))) fits
          (λ bs small.
            inside-Ends (from_data bs) (body_of func (from_data bs))
              ((body_of-Ends func).at (from_data bs) (small-IsPlaced bs small))))

bodies-Ends : (funcs : List Func) → Ends Any (bodies funcs)
unfolding bodies
bodies-Ends [] = pure-Ends []
bodies-Ends (func ∷ funcs) =
    Any-then (func_body func) (λ func'. bodies funcs >>= λ rest. pure (func' ∷ rest))
      (func_body-Ends func)
      (λ func'.
        Any-then (bodies funcs) (λ rest. pure (func' ∷ rest)) (bodies-Ends funcs)
          (λ rest. pure-Ends (func' ∷ rest)))

matched-Ends : (count : ℕ) (m : Module) → Ends Any (matched count m)
matched-Ends count m = search (ends_rules, bodies-Ends) depth 10

pub parse_code-Ends : (m : Module) → Ends Any (parse_code m)
unfolding parse_code
parse_code-Ends m = search (ends_rules, matched-Ends)

data_kind-Ends : (flags : ℕ) → Ends Any (data_kind flags)
unfolding data_kind
data_kind-Ends flags = search (ends_rules, segment_rules) depth 14

data_step-Ends : (m : Module) → Ends Any (data_step m)
unfolding data_step
data_step-Ends m =
    u32_then _ λ flags _. Any-then _ _ (data_kind-Ends flags) λ kind. search ends_rules depth 10

pub parse_data-Ends : (m : Module) → Ends Any (parse_data m)
unfolding parse_data
parse_data-Ends m = counted-Ends data_step m data_step-Ends
