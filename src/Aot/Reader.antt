-- ===== src/Aot/Reader.antt =====
-- crates/core/src/aot/reader.rs: the bounds-checked reader of artifacts.
-- A method takes the reader and returns its result with the reader that it leaves behind. A slice
-- and a string are their bytes.
pub mod Refines
use wasmtiny.Base.{
  ℕ, zero, suc, ◌+◌, ◌-◌, ◌/◌, ◌^◌, Bool, true, false, ◌&&◌, Option, none, some, List, [], ◌∷◌,
  length, take, drop, ltb, leb, ◌==◌, if◌then◌else◌, String,
}
use wasmtiny.Base.Bytes.{from_le_bytes}
use wasmtiny.Base.Utf8.{is_utf8}
use wasmtiny.Runtime.Error.{WasmError}

-- `panic` is an index out of range or a failed `expect`.
pub data Outcome (A : Type 0) : Type 0 where
  ok : A → Outcome A
  err : WasmError → Outcome A
  panic : Outcome A

pub record Reader : Type 0 where
  pub data_ : List ℕ
  pub pos : ℕ

abbrev pub Read : Type 0 → Type 0
Read A = Reader → Outcome A × Reader

-- What follows a result.
abbrev pub after : {A B : Type 0} → Outcome A × Reader → (A → Read B) → Outcome B × Reader
after (ok a, r) next = next a r
after (err e, r) next = (err e, r)
after (panic, r) next = (panic, r)

infixl 5 ◌>>=◌
abbrev pub ◌>>=◌ : {A B : Type 0} → Read A → (A → Read B) → Read B
◌>>=◌ m next r = after (m r) next

abbrev pub load_error : {A : Type 0} → String → Read A
load_error message r = (err (WasmError.load message), r)

unfoldable pub new : List ℕ → Reader
new bytes = record { data_ = bytes; pos = 0 }

-- The position is never behind the end.
unfoldable pub remaining : Reader → ℕ
remaining r = length r.data_ - r.pos

unfoldable pub position : Reader → ℕ
position r = r.pos

unfoldable pub at_end : Reader → Bool
unfolding remaining
at_end r = remaining r == 0

-- The end is found by `checked_add`.
unfoldable pub read_bytes : ℕ → Read (List ℕ)
read_bytes n r =
    if ltb (r.pos + n) (2 ^ 64) && leb (r.pos + n) (length r.data_)
    then (ok (take n (drop r.pos r.data_)), record r { pos = r.pos + n })
    else load_error "unexpected end of artifact" r

abbrev pub first_byte : List ℕ → Read ℕ
first_byte [] r = (panic, r)
first_byte (b ∷ bytes) r = (ok b, r)

unfoldable pub read_u8 : Read ℕ
unfolding read_bytes
read_u8 = do bytes ← read_bytes 1; first_byte bytes

-- `u32::from_le_bytes(bytes.try_into().expect("4 bytes"))`
abbrev pub four_bytes : List ℕ → Read ℕ
four_bytes bytes r = if length bytes == 4 then (ok (from_le_bytes bytes), r) else (panic, r)

unfoldable pub read_u32 : Read ℕ
unfolding read_bytes
read_u32 = do bytes ← read_bytes 4; four_bytes bytes

abbrev pub bounded_bytes : ℕ → ℕ → Read (List ℕ)
bounded_bytes max len r =
    if ltb max len
    then load_error "declared length {len} exceeds bound {max}" r
    else read_bytes len r

unfoldable pub read_len_bytes : ℕ → Read (List ℕ)
unfolding read_u32
read_len_bytes max = do len ← read_u32; bounded_bytes max len

abbrev pub checked_string : List ℕ → Read (List ℕ)
checked_string bytes r =
    if is_utf8 bytes then (ok bytes, r) else load_error "invalid UTF-8 in string field" r

unfoldable pub read_string : ℕ → Read (List ℕ)
unfolding read_len_bytes
read_string max = do bytes ← read_len_bytes max; checked_string bytes

abbrev pub inconsistent : ℕ → ℕ → Reader → Bool
inconsistent min_item_size count r = ltb 0 min_item_size && ltb (remaining r / min_item_size) count

abbrev pub checked_count : ℕ → ℕ → Read ℕ
checked_count min_item_size count r =
    if inconsistent min_item_size count r
    then load_error "count {count} is inconsistent with remaining {} bytes" r
    else if ltb count (2 ^ 32)
    then (ok count, r)
    else load_error "count overflow" r

unfoldable pub read_count : ℕ → Read ℕ
unfolding read_u32
read_count min_item_size = do count ← read_u32; checked_count min_item_size count
