-- ===== src/Loader/Parser/Whole.antt =====
-- crates/core/src/loader/parser.rs: the header and the sequence of sections.
use wasmtiny.Base.{
  ℕ, zero, suc, ◌+◌, Bool, true, false, not, Option, none, some, List, length, set, get_elem?,
  replicate, ltb, leb, ◌==◌, if◌then◌else◌,
}
use wasmtiny.Runtime.Module.{Module, new_module}
use wasmtiny.Loader.Reader.{BinaryReader, from_data, remaining, read_u32}
use wasmtiny.Loader.Validator.{Checked, ok, err, panic, stuck}
use wasmtiny.Loader.Parser.{Parse, ◌>>=◌, pure, fail, io, byte, u32, bytes, refusing}
use wasmtiny.Loader.Parser.Sections.{
  parse_custom, parse_type, parse_import, parse_function, parse_table, parse_memory, parse_global,
  parse_export, parse_start, parse_data_count, parse_tag,
}
use wasmtiny.Loader.Parser.Segments.{inside, parse_elem, parse_code, parse_data}

abbrev pub section_order : ℕ → Option ℕ
section_order section_id =
    if section_id == 1
    then some 1
    else if section_id == 2
    then some 2
    else if section_id == 3
    then some 3
    else if section_id == 13
    then some 4
    else if section_id == 4
    then some 5
    else if section_id == 5
    then some 6
    else if section_id == 6
    then some 7
    else if section_id == 7
    then some 8
    else if section_id == 8
    then some 9
    else if section_id == 9
    then some 10
    else if section_id == 12
    then some 11
    else if section_id == 10
    then some 12
    else if section_id == 11
    then some 13
    else none

-- `last_non_custom_order` and `seen_sections`
pub record Seen : Type 0 where
  pub last_order : ℕ
  pub sections : List Bool

abbrev pub nothing_seen : Seen
nothing_seen = record { last_order = 0; sections = replicate 14 false }

abbrev pub was_seen : Option Bool → Bool
was_seen none = false
was_seen (some b) = b

abbrev pub in_order : Seen → ℕ → ℕ → Parse Seen
in_order seen section_id order =
    if ltb order seen.last_order
    then fail "section {} out of order"
    else pure (record { last_order = order; sections = set seen.sections section_id true })

abbrev pub ordered : Seen → ℕ → Parse Seen
ordered seen section_id = do
  order ← refusing "unknown section id: {}" (section_order section_id)
  in_order seen section_id order

-- The checks of a section's id: custom sections stand anywhere.
unfoldable pub admit : Seen → ℕ → Parse Seen
admit seen section_id =
    if section_id == 0
    then pure seen
    else if leb (length seen.sections) section_id
    then fail "unknown section id: {}"
    else if was_seen (get_elem? seen.sections section_id)
    then fail "duplicate section id: {}"
    else ordered seen section_id

abbrev pub custom : Module → Parse Module
custom m r = (do done ← parse_custom r; pure m) r

unfoldable pub contents : ℕ → Module → Parse Module
contents section_id m =
    if section_id == 0
    then custom m
    else if section_id == 1
    then parse_type m
    else if section_id == 2
    then parse_import m
    else if section_id == 3
    then parse_function m
    else if section_id == 4
    then parse_table m
    else if section_id == 5
    then parse_memory m
    else if section_id == 6
    then parse_global m
    else if section_id == 7
    then parse_export m
    else if section_id == 8
    then parse_start m
    else if section_id == 9
    then parse_elem m
    else if section_id == 10
    then parse_code m
    else if section_id == 11
    then parse_data m
    else if section_id == 12
    then parse_data_count m
    else if section_id == 13
    then parse_tag m
    else fail "unknown section id: {}"

-- Nothing is left of a section.
abbrev pub no_trailing : Module → Parse Module
no_trailing m r = if remaining r == 0 then ok (m, r) else fail "section {} has {} trailing bytes" r

unfoldable pub section : ℕ → Module → Parse Module
section section_id m = do m' ← contents section_id m; no_trailing m'

abbrev pub Progress : Type 0
Progress = Seen × Module

unfoldable pub round : Progress → Parse Progress
round (seen, m) = do
  section_id ← byte
  section_size ← u32
  section_bytes ← bytes section_size
  seen' ← admit seen section_id
  m' ← inside (section section_id m (from_data section_bytes))
  pure (seen', m')

-- The loop over the sections. Every round takes a byte.
unfoldable pub section_loop : ℕ → Progress → Parse Progress
section_loop zero p r = stuck
section_loop (suc fuel) p r =
    let more = (do p' ← round p; section_loop fuel p') r in
    if remaining r == 0 then ok (p, r) else more

abbrev pub magic : ℕ
magic = 0x6D736100

abbrev pub current_version : ℕ
current_version = 1

abbrev pub sections_of : Module → Parse Progress
sections_of m r = section_loop (length r.bytes + 1) (nothing_seen, m) r

abbrev pub versioned : Module → ℕ → Parse Progress
versioned m version =
    if not (version == current_version) then fail "unsupported version: {}" else sections_of m

abbrev pub headed : Module → ℕ → Parse Progress
headed m number =
    if not (number == magic)
    then fail "invalid magic number: {:x}"
    else (do version ← io read_u32; versioned m version)

-- The sections that were seen are kept beside the module.
unfoldable pub parse_module : Module → Parse Progress
parse_module m = do number ← io read_u32; headed m number

abbrev pub module_of : Checked (Progress × BinaryReader) → Checked Module
module_of (ok ((_, m), _)) = ok m
module_of (err e) = err e
module_of panic = panic
module_of stuck = stuck

-- The id is the one that the counter of modules gives.
unfoldable pub parse : ℕ → List ℕ → Checked Module
parse next_id data_ = module_of (parse_module (new_module next_id).0 (from_data data_))
