-- ===== src/Loader/Parser/Total.antt =====
-- Every section of a module is parsed to an end.
use wasmtiny.Base.{ℕ, zero, suc}
use wasmtiny.Runtime.Module.{Module}
use wasmtiny.Loader.Reader.{BinaryReader}
use wasmtiny.Loader.Parser.Ends.{Ends, Any, bind-Ends, pure-Ends, u32_then, rest-Ends, ends_rules}
use wasmtiny.Loader.Parser.Types.{
  read_val_type-Ends, read_ref_type_with_prefix-Ends, read_table_ref_type-Ends, read_limits-Ends,
  read_limits_with_flags-Ends, read_mutability-Ends, read_elem_kind-Ends, read_name-Ends,
  read_const_expr-Ends, read_func_index_vector-Ends, read_const_expr_vector-Ends, parse_locals-Ends,
}
use wasmtiny.Loader.Parser.Sections.{
  Step, each, counted, parse_custom, func_type_of, type_step, import_kind, import_step,
  function_step, initialised_table, plain_table, table_step, memory_step, global_step, export_step,
  tag_step,
}

each-Ends :
    (n : ℕ) (step : Step) (m : Module)
    → ((m : Module) → Ends Any (step m))
    → Ends Any (each n step m)
unfolding each
each-Ends zero step m k = pure-Ends m
each-Ends (suc n) step m k =
    bind-Ends Any Any (step m) (each n step) (k m) (λ m' _. each-Ends n step m' k)

pub counted-Ends :
    (step : Step) (m : Module) → ((m : Module) → Ends Any (step m)) → Ends Any (counted step m)
unfolding counted
counted-Ends step m k = u32_then (λ count. each count step m) (λ count _. each-Ends count step m k)

pub ruleset type_rules = (
  read_val_type-Ends, read_ref_type_with_prefix-Ends, read_table_ref_type-Ends, read_limits-Ends,
  read_limits_with_flags-Ends, read_mutability-Ends, read_name-Ends, read_const_expr-Ends,
)

pub parse_custom-Ends : (start : BinaryReader) → Ends Any (parse_custom start)
unfolding parse_custom
parse_custom-Ends start = search (ends_rules, rest-Ends) depth 10

func_type_of-Ends : (form : ℕ) (m : Module) → Ends Any (func_type_of form m)
func_type_of-Ends form m = search (ends_rules, type_rules) depth 10

pub type_step-Ends : (m : Module) → Ends Any (type_step m)
unfolding type_step
type_step-Ends m = search (ends_rules, func_type_of-Ends) depth 10

import_kind-Ends : (b : ℕ) → Ends Any (import_kind b)
unfolding import_kind
import_kind-Ends b = search (ends_rules, type_rules) depth 14

pub import_step-Ends : (m : Module) → Ends Any (import_step m)
unfolding import_step
import_step-Ends m = search (ends_rules, type_rules, import_kind-Ends) depth 14

pub function_step-Ends : (m : Module) → Ends Any (function_step m)
unfolding function_step
function_step-Ends m = search ends_rules depth 10

plain_table-Ends : (prefix : ℕ) (m : Module) → Ends Any (plain_table prefix m)
plain_table-Ends prefix m = search (ends_rules, type_rules) depth 10

initialised_table-Ends : (flags : ℕ) (m : Module) → Ends Any (initialised_table flags m)
initialised_table-Ends flags m = search (ends_rules, type_rules) depth 14

pub table_step-Ends : (m : Module) → Ends Any (table_step m)
unfolding table_step
table_step-Ends m = search (ends_rules, plain_table-Ends, initialised_table-Ends) depth 12

pub memory_step-Ends : (m : Module) → Ends Any (memory_step m)
unfolding memory_step
memory_step-Ends m = search (ends_rules, type_rules) depth 10

pub global_step-Ends : (m : Module) → Ends Any (global_step m)
unfolding global_step
global_step-Ends m = search (ends_rules, type_rules) depth 10

pub export_step-Ends : (m : Module) → Ends Any (export_step m)
unfolding export_step
export_step-Ends m = search (ends_rules, type_rules) depth 14

pub tag_step-Ends : (m : Module) → Ends Any (tag_step m)
unfolding tag_step
tag_step-Ends m = search ends_rules depth 10
