-- ===== src/Loader/Parser/Types.antt =====
-- The readers of types and expressions end.
use wasmtiny.Base.{
  ℕ, zero, suc, ◌+◌, ◌*◌, ◌≤◌, ◌<◌, ap, Bool-cases, inl, inr, ◌||◌, List, [], ◌∷◌, length, leb,
  ◌==◌, if◌then◌else◌, bit_and, arith, String, ◌++◌,
}
use wasmtiny.Loader.Reader.{BinaryReader, read_sleb128_i64, read_uleb128, read_bytes}
use wasmtiny.Loader.Reader.Total.{leb_readers-Settled}
use wasmtiny.Loader.Validator.Opcodes.{within}
use wasmtiny.Loader.Parser.{
  Parse, next, ◌>>=◌, pure, fail, io, byte, u32, bytes, read_heap_type_ref, val_type_of,
  read_val_type, read_ref_type_with_prefix, read_table_ref_type, limits_of, read_limits, min_limits,
  min_max_limits, raw_next, put_byte, limits_with_flags, read_limits_with_flags, read_mutability,
  read_elem_kind, read_name, raw_loop, read_raw_uleb, read_raw_sleb, immediate_bytes, joined,
  expr_loop, read_const_expr, read_func_index_vector, read_const_expr_vector, parse_locals,
  local_group,
}
use wasmtiny.Loader.Parser.Ends.{
  IsPlaced, Ended, Ends, Any, Fits, next-Ended, bind-Ends, pure-Ends, fail-Ends, if-Ends, io-Ends,
  byte-Ends, read_bytes-Settled, if-at, vector-Ends, byte_then, ends_rules,
}

sleb-Ends : Ends Any (io read_sleb128_i64)
sleb-Ends = io-Ends Any read_sleb128_i64 (λ r h. (leb_readers-Settled r h.inside).2) (λ r a e. tt)

pub read_heap_type_ref-Ends : Ends Any read_heap_type_ref
unfolding read_heap_type_ref
read_heap_type_ref-Ends = search (ends_rules, sleb-Ends)

val_type_of-Ends : (b : ℕ) → Ends Any (val_type_of b)
unfolding val_type_of
val_type_of-Ends b = search (ends_rules, read_heap_type_ref-Ends) depth 16

pub read_val_type-Ends : Ends Any read_val_type
unfolding read_val_type
read_val_type-Ends = search (ends_rules, val_type_of-Ends)

pub read_ref_type_with_prefix-Ends : (b : ℕ) → Ends Any (read_ref_type_with_prefix b)
unfolding read_ref_type_with_prefix
read_ref_type_with_prefix-Ends b = search (ends_rules, read_heap_type_ref-Ends) depth 12

pub read_table_ref_type-Ends : Ends Any read_table_ref_type
unfolding read_table_ref_type
read_table_ref_type-Ends = search (ends_rules, read_ref_type_with_prefix-Ends)

limits_of-Ends : (b : ℕ) → Ends Any (limits_of b)
unfolding limits_of
limits_of-Ends b = search ends_rules depth 12

pub read_limits-Ends : Ends Any read_limits
unfolding read_limits
read_limits-Ends = search (ends_rules, limits_of-Ends)

min_limits-Ends : Ends Any min_limits
min_limits-Ends = search ends_rules

min_max_limits-Ends : Ends Any min_max_limits
min_max_limits-Ends = search ends_rules

limits_with_flags-Ends : (b : ℕ) → Ends Any (limits_with_flags b)
unfolding limits_with_flags
limits_with_flags-Ends b = search (ends_rules, min_limits-Ends, min_max_limits-Ends) depth 12

pub read_limits_with_flags-Ends : Ends Any read_limits_with_flags
unfolding read_limits_with_flags
read_limits_with_flags-Ends = search (ends_rules, limits_with_flags-Ends)

pub read_mutability-Ends : Ends Any read_mutability
unfolding read_mutability
read_mutability-Ends = search ends_rules depth 8

pub read_elem_kind-Ends : Ends Any read_elem_kind
unfolding read_elem_kind
read_elem_kind-Ends = search ends_rules depth 8

pub read_name-Ends : (message : String) → Ends Any (read_name message)
unfolding read_name
read_name-Ends message = search ends_rules depth 8

put_byte-Ends : (b : ℕ) (p : Parse (List ℕ)) → Ends Any p → Ends Any (put_byte b p)
put_byte-Ends b p e = search (ends_rules, e)

raw_loop-Ends :
    (message : String) (limit fuel shift : ℕ)
    → shift < limit
    → limit ≤ shift + 7 * fuel
    → Ends Any (raw_loop message limit fuel shift)
unfolding raw_loop
raw_loop-Ends message limit zero shift lt enough = absurd (omega (arith, lt, enough))
raw_loop-Ends message limit (suc fuel) shift lt enough =
    let more = raw_loop message limit fuel (shift + 7) in
    bind-Ends Any Any byte (λ b. raw_next message limit (shift + 7) b more) byte-Ends
      (λ b _.
        if-Ends (bit_and b 0x80 == 0) (pure (b ∷ []))
          (if leb limit (shift + 7) then fail message else put_byte b more) (pure-Ends (b ∷ []))
          (elim (Bool-cases (leb limit (shift + 7))) [
            | inl over ↦ rw over (fail-Ends message)
            | inr within ↦
                let rec =
                  raw_loop-Ends message limit fuel (shift + 7) (ground (arith, within))
                    (omega (arith, enough)) in
                rw within (put_byte-Ends b more rec)
          ]))

read_raw_uleb-Ends : Ends Any read_raw_uleb
unfolding read_raw_uleb
read_raw_uleb-Ends = raw_loop-Ends "uleb128 overflow" 35 5 0 (omega arith) (omega arith)

read_raw_sleb-Ends : Ends Any read_raw_sleb
unfolding read_raw_sleb
read_raw_sleb-Ends = raw_loop-Ends "sleb128 overflow" 70 10 0 (omega arith) (omega arith)

Any-u32-Ends : Ends Any u32
Any-u32-Ends = io-Ends Any read_uleb128 (λ r h. (leb_readers-Settled r h.inside).0) (λ r a e. tt)

fixed_bytes-Ends : (n : ℕ) → Fits n → Ends Any (bytes n)
fixed_bytes-Ends n fits =
    io-Ends Any (read_bytes n)
      (λ r h. read_bytes-Settled n r h.inside (omega (arith, h.inside, h.sized, fits)))
      (λ r slice e. tt)

immediate_bytes-Ends : (opcode : ℕ) → Ends Any (immediate_bytes opcode)
unfolding immediate_bytes
immediate_bytes-Ends opcode =
    let four = fixed_bytes-Ends 4 (omega arith) in
    let eight = fixed_bytes-Ends 8 (omega arith) in
    if-Ends (opcode == 0x23 || opcode == 0xD2) _ _ read_raw_uleb-Ends (
      if-Ends (opcode == 0x41 || opcode == 0x42) _ _ read_raw_sleb-Ends (
        if-Ends (opcode == 0x43) _ _ four (
          if-Ends (opcode == 0x44) _ _ eight (
            if-Ends (opcode == 0xD0) _ _ read_raw_sleb-Ends (
              if-Ends (within 0x6A 0x6C opcode || within 0x7C 0x7E opcode) _ _ (pure-Ends [])
                (fail-Ends "unsupported constant expression opcode: {:02x}"))))))

-- What follows the opcode, where the loop ends from every later place.
joined-Ended :
    (fuel opcode : ℕ) (r : BinaryReader)
    → IsPlaced r
    → length r.bytes < fuel + r.position
    → ((t : BinaryReader)
        → IsPlaced t
        → length t.bytes < fuel + t.position
        → Ended Any t (expr_loop fuel t))
    → Ended Any r (joined opcode (immediate_bytes opcode) (expr_loop fuel) r)
unfolding ◌>>=◌
joined-Ended fuel opcode r h enough rec =
    next-Ended Any Any r (immediate_bytes opcode r)
      (λ immediate s. next (expr_loop fuel s) λ rest. pure (opcode ∷ (immediate ++ rest))) h
      ((immediate_bytes-Ends opcode).at r h)
      (λ immediate t _ placed same forward.
        next-Ended Any Any t (expr_loop fuel t) (λ rest. pure (opcode ∷ (immediate ++ rest))) placed
          (rec t placed (omega (arith, enough, forward, ap (λ l. length l) same)))
          (λ rest u _ end _ _. (pure-Ends (opcode ∷ (immediate ++ rest))).at u end))

expr_loop-Ended :
    (fuel : ℕ) (r : BinaryReader)
    → IsPlaced r
    → length r.bytes < fuel + r.position
    → Ended Any r (expr_loop fuel r)
unfolding expr_loop ◌>>=◌
expr_loop-Ended zero r h enough = absurd (omega (arith, h.inside, enough))
expr_loop-Ended (suc fuel) r h enough =
    byte_then
      (λ opcode.
        if opcode == 0x0B
        then pure (opcode ∷ [])
        else joined opcode (immediate_bytes opcode) (expr_loop fuel))
      r h
      (λ opcode r' placed same forward.
        if-at (opcode == 0x0B) (pure (opcode ∷ []))
          (joined opcode (immediate_bytes opcode) (expr_loop fuel)) r'
          ((pure-Ends (opcode ∷ [])).at r' placed)
          (joined-Ended fuel opcode r' placed
            (omega (arith, enough, forward, ap (λ l. length l) same)) (expr_loop-Ended fuel)))

pub read_const_expr-Ends : Ends Any read_const_expr
unfolding read_const_expr
read_const_expr-Ends = record { at = λ r h. expr_loop-Ended (length r.bytes + 1) r h (omega arith) }

pub read_func_index_vector-Ends : Ends Any read_func_index_vector
unfolding read_func_index_vector
read_func_index_vector-Ends = vector-Ends u32 Any-u32-Ends

pub read_const_expr_vector-Ends : Ends Any read_const_expr_vector
unfolding read_const_expr_vector
read_const_expr_vector-Ends = vector-Ends read_const_expr read_const_expr-Ends

local_group-Ends : Ends Any local_group
local_group-Ends = search (ends_rules, read_val_type-Ends) depth 8

pub parse_locals-Ends : Ends Any parse_locals
unfolding parse_locals
parse_locals-Ends = vector-Ends local_group local_group-Ends
