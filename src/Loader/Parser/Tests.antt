-- ===== src/Loader/Parser/Tests.antt =====
-- The parser on a module with one function.
use wasmtiny.Base.{ℕ, ◌≡◌, refl, none, List, [], ◌∷◌, arith, pop_back}
use wasmtiny.Runtime.Types.{ValType, NumType}
use wasmtiny.Runtime.Module.{new_module}
use wasmtiny.Loader.Validator.{ok}
use wasmtiny.Loader.Reader
use wasmtiny.Loader.Parser
use wasmtiny.Loader.Parser.Sections.{
  each, counted, type_step, parse_type, function_step, parse_function,
}
use wasmtiny.Loader.Parser.Segments.{body_of, func_body, bodies, parse_code}
use wasmtiny.Loader.Parser.Whole.{
  parse, parse_module, section_loop, round, admit, contents, section,
}
use wasmtiny.Loader.Parser.Settled.{IsOutcome, parse-IsOutcome}

-- The header, a type (i32) -> (), a function of that type, and its body.
abbrev small : List ℕ
small =
    0x00 ∷ 0x61 ∷ 0x73 ∷ 0x6D ∷ 0x01 ∷ 0x00 ∷ 0x00 ∷ 0x00 ∷ 0x01 ∷ 0x05 ∷ 0x01 ∷ 0x60 ∷ 0x01 ∷ 0x7F
    ∷ 0x00 ∷ 0x03 ∷ 0x02 ∷ 0x01 ∷ 0x00 ∷ 0x0A ∷ 0x04 ∷ 0x01 ∷ 0x02 ∷ 0x00 ∷ 0x0B ∷ []

parse-IsOutcome_example : IsOutcome (parse 1 small)
parse-IsOutcome_example = parse-IsOutcome 1 small (omega arith)

-- The module has the function with its type and body, in which no section is left out.
parses_small :
    parse 1 small
    ≡ ok (record {
      id = 1;
      types = record { params = ValType.num NumType.i32 ∷ []; results = [] } ∷ [];
      funcs = record { type_idx = 0; locals = []; body = 0x0B ∷ [] } ∷ [];
      tables = [];
      memories = [];
      globals = [];
      global_inits = [];
      exports = [];
      imports = [];
      start = none;
      segments = [];
      elems = [];
      data_count = none;
    })
unfolding Parser.◌>>=◌ Parser.pure Parser.fail Parser.io Parser.many Parser.vector
    Parser.val_type_of Parser.read_val_type Parser.parse_locals each counted type_step parse_type
    function_step parse_function body_of func_body bodies parse_code parse parse_module section_loop
    round admit contents section Reader.from_data Reader.remaining Reader.read_byte Reader.read_u8
    Reader.read_u32 Reader.read_bytes Reader.read_uleb128 Reader.uleb_loop new_module pop_back
parses_small = refl
