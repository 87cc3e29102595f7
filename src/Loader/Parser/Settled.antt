-- ===== src/Loader/Parser/Settled.antt =====
-- The parser ends on every sequence of bytes.
use mathlib.Core.Path.{subst}
use wasmtiny.Base.{ℕ, zero, suc, ◌+◌, ◌^◌, ◌<◌, ◌≡◌, refl, ap, List, length, ◌==◌, arith, if-elim}
use wasmtiny.Runtime.Module.{Module, new_module}
use wasmtiny.Loader.Reader.{BinaryReader, from_data, remaining, read_u32}
use wasmtiny.Loader.Reader.Total.{read_u32-Settled}
use wasmtiny.Loader.Validator.{Checked, ok, err, panic, stuck}
use wasmtiny.Loader.Parser.{Parse, next, ◌>>=◌, pure, fail, io, byte, u32, bytes}
use wasmtiny.Loader.Parser.Ends.{
  IsPlaced, Ended, Ends, Any, next-Ended, pure-Ends, fail-Ends, if-Ends, Any-then, u32_then,
  bytes_then, io-Ends, ends_rules, byte_then,
}
use wasmtiny.Loader.Parser.Sections.{
  parse_custom, parse_type, parse_import, parse_function, parse_table, parse_memory, parse_global,
  parse_export, parse_start, parse_data_count, parse_tag, type_step, import_step, function_step,
  table_step, memory_step, global_step, export_step, tag_step,
}
use wasmtiny.Loader.Parser.Total.{
  counted-Ends, parse_custom-Ends, type_step-Ends, import_step-Ends, function_step-Ends,
  table_step-Ends, memory_step-Ends, global_step-Ends, export_step-Ends, tag_step-Ends,
}
use wasmtiny.Loader.Parser.Segments.{inside}
use wasmtiny.Loader.Parser.Bodies.{
  parse_elem-Ends, parse_code-Ends, parse_data-Ends, inside-Ends, small-IsPlaced,
}
use wasmtiny.Loader.Parser.Whole.{
  Seen, nothing_seen, admit, custom, contents, no_trailing, section, Progress, round, section_loop,
  sections_of, parse_module, module_of, parse,
}

custom-Ends : (m : Module) → Ends Any (custom m)
custom-Ends m = record {
  at = λ r h.
      (Any-then (parse_custom r) (λ done. pure m) (parse_custom-Ends r) (λ _. pure-Ends m)).at r h;
}

parse_start-Ends : (m : Module) → Ends Any (parse_start m)
unfolding parse_start
parse_start-Ends m = search ends_rules

parse_data_count-Ends : (m : Module) → Ends Any (parse_data_count m)
unfolding parse_data_count
parse_data_count-Ends m = search ends_rules

parse_type-Ends : (m : Module) → Ends Any (parse_type m)
unfolding parse_type
parse_type-Ends m = counted-Ends type_step m type_step-Ends

parse_import-Ends : (m : Module) → Ends Any (parse_import m)
unfolding parse_import
parse_import-Ends m = counted-Ends import_step m import_step-Ends

parse_function-Ends : (m : Module) → Ends Any (parse_function m)
unfolding parse_function
parse_function-Ends m = counted-Ends function_step m function_step-Ends

parse_table-Ends : (m : Module) → Ends Any (parse_table m)
unfolding parse_table
parse_table-Ends m = counted-Ends table_step m table_step-Ends

parse_memory-Ends : (m : Module) → Ends Any (parse_memory m)
unfolding parse_memory
parse_memory-Ends m = counted-Ends memory_step m memory_step-Ends

parse_global-Ends : (m : Module) → Ends Any (parse_global m)
unfolding parse_global
parse_global-Ends m = counted-Ends global_step m global_step-Ends

parse_export-Ends : (m : Module) → Ends Any (parse_export m)
unfolding parse_export
parse_export-Ends m = counted-Ends export_step m export_step-Ends

parse_tag-Ends : (m : Module) → Ends Any (parse_tag m)
unfolding parse_tag
parse_tag-Ends m = counted-Ends tag_step m tag_step-Ends

contents-Ends : (section_id : ℕ) (m : Module) → Ends Any (contents section_id m)
unfolding contents
contents-Ends section_id m =
    search
      (
        if-Ends, fail-Ends, custom-Ends, parse_elem-Ends, parse_code-Ends, parse_data-Ends,
        parse_start-Ends, parse_data_count-Ends, parse_type-Ends, parse_import-Ends,
        parse_function-Ends, parse_table-Ends, parse_memory-Ends, parse_global-Ends,
        parse_export-Ends, parse_tag-Ends,
      )
      depth 24

no_trailing-Ends : (m : Module) → Ends Any (no_trailing m)
unfolding fail Ended
no_trailing-Ends m = record {
  at = λ r h.
      if-elim (Ended Any r) (remaining r == 0) (λ _. (refl, omega arith, h.inside, tt)) (λ _. tt);
}

section-Ends : (section_id : ℕ) (m : Module) → Ends Any (section section_id m)
unfolding section
section-Ends section_id m =
    Any-then (contents section_id m) no_trailing (contents-Ends section_id m) no_trailing-Ends

admit-Ends : (seen : Seen) (section_id : ℕ) → Ends Any (admit seen section_id)
unfolding admit
admit-Ends seen section_id = search ends_rules depth 12

-- A section behind its id.
behind : Progress → ℕ → Parse Progress
behind (seen, m) section_id = do
  section_size ← u32
  section_bytes ← bytes section_size
  seen' ← admit seen section_id
  m' ← inside (section section_id m (from_data section_bytes))
  pure (seen', m')

behind-Ends : (p : Progress) (section_id : ℕ) → Ends Any (behind p section_id)
unfolding behind
behind-Ends (seen, m) section_id = u32_then _ λ size fits. bytes_then size _ fits λ bs small.
    Any-then _ _ (admit-Ends seen section_id) λ seen'.
      Any-then _ _
        (inside-Ends (from_data bs) (section section_id m (from_data bs))
          ((section-Ends section_id m).at (from_data bs) (small-IsPlaced bs small)))
        λ m'. pure-Ends (seen', m')

next_assoc :
    {A B C : Type 0} (out : Checked (A × BinaryReader)) (g : A → Parse B) (f : B → Parse C)
    → next out (λ a r. next (g a r) f) ≡ next (next out g) f
next_assoc (ok (a, r)) g f = refl
next_assoc (err e) g f = refl
next_assoc panic g f = refl
next_assoc stuck g f = refl

module _ (fuel : ℕ) where
  -- A round whose rest ends from every later place.
  round-Ended :
      (p : Progress) (r : BinaryReader)
      → IsPlaced r
      → length r.bytes < suc fuel + r.position
      → ((q : Progress) (t : BinaryReader)
          → IsPlaced t
          → length t.bytes < fuel + t.position
          → Ended Any t (section_loop fuel q t))
      → Ended Any r ((round p >>= section_loop fuel) r)
  unfolding round behind ◌>>=◌
  round-Ended (seen, m) r h enough rec =
      subst (Ended Any r) (next_assoc (byte r) (behind (seen, m)) (section_loop fuel)) (
        byte_then (λ id s. next (behind (seen, m) id s) (section_loop fuel)) r h
          (λ id s placed same forward.
            next-Ended Any Any s (behind (seen, m) id s) (section_loop fuel) placed
              ((behind-Ends (seen, m) id).at s placed)
              (λ q t _ end same' forward'. rec q t end (
                omega (
                  arith,
                  enough,
                  forward,
                  forward',
                  ap (λ l. length l) same,
                  ap (λ l. length l) same',
                )))))

section_loop-Ended :
    (fuel : ℕ) (p : Progress) (r : BinaryReader)
    → IsPlaced r
    → length r.bytes < fuel + r.position
    → Ended Any r (section_loop fuel p r)
unfolding section_loop
section_loop-Ended zero p r h enough = absurd (omega (arith, h.inside, enough))
section_loop-Ended (suc fuel) p r h enough =
    if-elim (Ended Any r) (remaining r == 0)
      (λ _. unfold Ended in (refl, omega arith, h.inside, tt))
      (λ _. round-Ended fuel p r h enough (section_loop-Ended fuel))

sections-Ends : (m : Module) → Ends Any (sections_of m)
sections-Ends m = record {
  at = λ r h. section_loop-Ended (length r.bytes + 1) (nothing_seen, m) r h (omega arith);
}

word-Ends : Ends Any (io read_u32)
word-Ends = io-Ends Any read_u32 (λ r h. read_u32-Settled r h.inside) (λ r a e. tt)

parse_module-Ends : (m : Module) → Ends Any (parse_module m)
unfolding parse_module
parse_module-Ends m = search (ends_rules, word-Ends, sections-Ends) depth 14

unfoldable pub IsOutcome : Checked Module → Type 0
IsOutcome (ok m) = Unit
IsOutcome (err e) = Unit
IsOutcome panic = ⊥
IsOutcome stuck = ⊥

module_of-IsOutcome :
    (r : BinaryReader) (out : Checked (Progress × BinaryReader))
    → Ended Any r out
    → IsOutcome (module_of out)
unfolding Ended IsOutcome
module_of-IsOutcome r (ok ((seen, m), s)) e = tt
module_of-IsOutcome r (err x) e = tt
module_of-IsOutcome r panic e = e
module_of-IsOutcome r stuck e = e

-- The parser accepts or refuses every sequence of bytes: its loops end, no place overflows and no
-- slice is out of range. (A sequence leaves `2 ^ 32` addresses free.)
pub parse-IsOutcome :
    (next_id : ℕ) (data_ : List ℕ)
    → length data_ + 2 ^ 32 < 2 ^ 64
    → IsOutcome (parse next_id data_)
unfolding parse from_data
parse-IsOutcome next_id data_ sized =
    module_of-IsOutcome (from_data data_) (parse_module (new_module next_id).0 (from_data data_)) (
      (parse_module-Ends (new_module next_id).0).at (from_data data_)
        (record { inside = omega arith; sized = sized }))
