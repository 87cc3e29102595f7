-- ===== src/Loader/Validator/Immediates.antt =====
-- crates/core/src/loader/validator.rs: the immediates of instructions.
-- Every reader takes the code and moves the cursor; an `i32` is its bit pattern.
pub mod Steps
pub mod Overlong
use wasmtiny.Base.{
  ℕ, zero, suc, ◌+◌, ◌-◌, ◌*◌, ◌%◌, ◌^◌, Bool, true, false, not, ◌||◌, Option, none, some, List, [],
  ◌∷◌, length, take, drop, get_elem?, ltb, ◌==◌, if◌then◌else◌, bit_and, bit_or, String,
}
use wasmtiny.Runtime.Error.{WasmError}
use wasmtiny.Runtime.Types.{FunctionType, ValType, RefType, NumType}
use wasmtiny.Runtime.Module.{Module, type_at}
use wasmtiny.Loader.Reader.{BinaryReader, IoError, IoResult, from_data, read_sleb128}
use wasmtiny.Loader.Validator.{
  Checked, ok, err, panic, stuck, Check, BodyState, ◌>>=◌, ◌>>◌, pure, fail, expect, require,
}

abbrev pub advance : ℕ → BodyState → BodyState
advance n s = record s { cursor = s.cursor + n }

unfoldable pub at_cursor : String → Option ℕ → Check ℕ
at_cursor message none s = fail message s
at_cursor message (some byte) s = ok (byte, advance 1 s)

-- A byte at the cursor, or the error of the message.
unfoldable pub byte_or : String → List ℕ → Check ℕ
byte_or message code s = at_cursor message (get_elem? code s.cursor) s

unfoldable pub read_byte : List ℕ → Check ℕ
read_byte code = byte_or "unexpected end of immediate" code

-- How a round of the loop goes on behind its byte.
unfoldable pub uleb_next : ℕ → ℕ → ℕ → Check ℕ → Check ℕ
uleb_next result shift byte more =
    if bit_and byte 0x80 == 0
    then pure result
    else if ltb shift 35
    then more
    else fail "uleb128 overflow"

unfoldable pub uleb_loop : List ℕ → ℕ → ℕ → ℕ → Check ℕ
uleb_loop code zero result shift s = stuck
uleb_loop code (suc fuel) result shift s =
    (do
      byte ← byte_or "unexpected end of uleb immediate" code
      let result' = bit_or result (bit_and byte 0x7F * 2 ^ shift % 2 ^ 32)
      let more = uleb_loop code fuel result' (shift + 7)
      uleb_next result' (shift + 7) byte more)
      s

-- The fifth byte ends the loop at the latest: the shift is 35 behind it.
unfoldable pub read_uleb : List ℕ → Check ℕ
unfolding uleb_loop
read_uleb code = uleb_loop code 5 0 0

unfoldable pub skip_uleb : List ℕ → Check (Unit {0})
unfolding read_uleb
skip_uleb code = do _ ← read_uleb code; pure tt

-- Bytes are read until one that does not continue: the loops of `skip_sleb_tail` and of
-- `read_signed_leb_continuation`.
unfoldable pub skip_tail : String → List ℕ → ℕ → ℕ → Check (Unit {0})
skip_tail message code zero byte s = if bit_and byte 0x80 == 0 then ok (tt, s) else stuck
skip_tail message code (suc fuel) byte s =
    let more = (do next ← byte_or message code; skip_tail message code fuel next) s in
    if bit_and byte 0x80 == 0 then ok (tt, s) else more

-- A round takes a byte, so that one round for each byte of the code, and one more, is enough.
unfoldable pub skip_sleb_tail : List ℕ → ℕ → Check (Unit {0})
unfolding skip_tail
skip_sleb_tail code byte = skip_tail "unexpected end of sleb immediate" code (length code + 1) byte

unfoldable pub skip_sleb : List ℕ → Check (Unit {0})
unfolding skip_sleb_tail
skip_sleb code = do
  first ← byte_or "unexpected end of sleb immediate" code
  skip_sleb_tail code first

-- `From<std::io::Error> for WasmError`
abbrev pub wasm_error : IoError → WasmError
wasm_error IoError.unexpected_eof = WasmError.unexpected_eof
wasm_error (IoError.invalid_data message) = WasmError.load message

abbrev pub from_io : {A : Type 0} → IoResult A → Checked A
from_io (IoResult.ok a) = ok a
from_io (IoResult.err e) = err (wasm_error e)
from_io IoResult.panic = panic
from_io IoResult.stuck = stuck

unfoldable pub lift : {A : Type 0} → Checked A → Check A
lift (ok a) s = ok (a, s)
lift (err e) s = err e
lift panic s = panic
lift stuck s = stuck

-- `read_sleb128` on `code[start..cursor]`, which panics out of range.
unfoldable pub sleb_of_slice : List ℕ → ℕ → Check ℕ
sleb_of_slice code start s =
    if ltb s.cursor start || ltb (length code) s.cursor
    then panic
    else lift (from_io (read_sleb128 (from_data (take (s.cursor - start) (drop start code)))).0) s

unfoldable pub start_of : Check ℕ
start_of s = ok (s.cursor - 1, s)

unfoldable pub read_signed_leb_continuation : List ℕ → ℕ → Check ℕ
unfolding skip_tail
read_signed_leb_continuation code first = do
  start ← start_of
  skip_tail "unexpected end of immediate" code (length code + 1) first
  sleb_of_slice code start

unfoldable pub skip_bytes : List ℕ → ℕ → Check (Unit {0})
skip_bytes code len s =
    if ltb (length code - s.cursor) len
    then err (WasmError.validation "unexpected end of immediate")
    else ok (tt, advance len s)

-- The match on a heap type, an `i32`: a concrete type counts as a function reference.
unfoldable pub heap_ref_type : String → ℕ → Check RefType
heap_ref_type message h =
    if h == 2 ^ 32 - 0x10 || h == 2 ^ 32 - 0x14
    then pure RefType.func_ref
    else if h == 2 ^ 32 - 0x11 || h == 2 ^ 32 - 0x13
    then pure RefType.extern_ref
    else if ltb h (2 ^ 31)
    then pure RefType.func_ref
    else fail message

-- The first byte and what continues it.
unfoldable pub read_heap_type : String → List ℕ → Check RefType
read_heap_type message code = do
  first ← read_byte code
  heap_type ← read_signed_leb_continuation code first
  heap_ref_type message heap_type

abbrev pub gc_message : String
gc_message = "GC heap types are not supported: {}"

-- The markers that both kinds of immediate share.
abbrev pub marked_type : ℕ → Option ValType
marked_type marker =
    if marker == 0x7F
    then some (ValType.num NumType.i32)
    else if marker == 0x7E
    then some (ValType.num NumType.i64)
    else if marker == 0x7D
    then some (ValType.num NumType.f32)
    else if marker == 0x7C
    then some (ValType.num NumType.f64)
    else if marker == 0x70
    then some (ValType.ref RefType.func_ref)
    else if marker == 0x6F
    then some (ValType.ref RefType.extern_ref)
    else none

unfoldable pub typed_reference : List ℕ → Check ValType
typed_reference code = do r ← read_heap_type gc_message code; pure (ValType.ref r)

abbrev pub Signature : Type 0
Signature = List ValType × List ValType

unfoldable pub indexed_signature : Module → List ℕ → ℕ → Check Signature
indexed_signature m code byte = do
  type_idx ← read_signed_leb_continuation code byte
  require "invalid block type index {}" (ltb type_idx (2 ^ 31))
  ty ← expect "type {} not found" (type_at m type_idx)
  pure (ty.params, ty.results)

unfoldable pub signature_of : Module → List ℕ → ℕ → Option ValType → Check Signature
signature_of m code marker (some t) = pure ([], t ∷ [])
signature_of m code marker none =
    if marker == 0x63 || marker == 0x64
    then (do t ← typed_reference code; pure ([], t ∷ []))
    else indexed_signature m code marker

unfoldable pub read_block_signature : Module → List ℕ → Check Signature
read_block_signature m code = do
  marker ← read_byte code
  if marker == 0x40 then pure ([], []) else signature_of m code marker (marked_type marker)

unfoldable pub value_type_of : List ℕ → ℕ → Option ValType → Check ValType
value_type_of code marker (some t) = pure t
value_type_of code marker none =
    if marker == 0x63 || marker == 0x64
    then typed_reference code
    else fail "invalid value type immediate {:02x}"

unfoldable pub read_value_type_immediate : List ℕ → Check ValType
read_value_type_immediate code = do
  marker ← read_byte code
  value_type_of code marker (marked_type marker)
