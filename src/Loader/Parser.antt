-- ===== src/Loader/Parser.antt =====
-- crates/core/src/loader/parser.rs: the readers of types and expressions of a binary module.
mod Tests
pub mod Bodies
pub mod Settled
pub mod Total
pub mod Types
pub mod Ends
pub mod Sections
pub mod Segments
pub mod Whole
-- A reader that fails drops its place.
use wasmtiny.Base.{
  ℕ, zero, suc, ◌+◌, ◌-◌, ◌*◌, ◌/◌, ◌%◌, ◌^◌, Bool, true, false, not, ◌&&◌, ◌||◌, Option, none,
  some, List, [], ◌∷◌, ◌++◌, length, replicate, ltb, leb, ◌==◌, if◌then◌else◌, bit_and, bit_or,
  String,
}
use wasmtiny.Base.Utf8.{from_utf8}
use wasmtiny.Runtime.Error.{WasmError}
use wasmtiny.Runtime.Types.{NumType, RefType, ValType, Limits}
use wasmtiny.Runtime.Module.{Local}
use wasmtiny.Loader.Reader.{
  BinaryReader, IoResult, Read, read_u8, read_bytes, read_uleb128, read_sleb128_i64,
}
use wasmtiny.Loader.Validator.{Checked, ok, err, panic, stuck}
use wasmtiny.Loader.Validator.Immediates.{wasm_error}
use wasmtiny.Loader.Validator.Opcodes.{within}
use wasmtiny.Loader.Validator.ConstExpr.{null_type}

abbrev pub Parse : Type 0 → Type 0
Parse A = BinaryReader → Checked (A × BinaryReader)

abbrev pub next :
    {A B : Type 0} → Checked (A × BinaryReader) → (A → Parse B) → Checked (B × BinaryReader)
next (ok (a, r)) f = f a r
next (err e) f = err e
next panic f = panic
next stuck f = stuck

infixl 5 ◌>>=◌
unfoldable pub ◌>>=◌ : {A B : Type 0} → Parse A → (A → Parse B) → Parse B
◌>>=◌ m f r = next (m r) f

unfoldable pub pure : {A : Type 0} → A → Parse A
pure a r = ok (a, r)

unfoldable pub fail : {A : Type 0} → String → Parse A
fail message r = err (WasmError.load message)

abbrev pub from_io : {A : Type 0} → IoResult A × BinaryReader → Checked (A × BinaryReader)
from_io (IoResult.ok a, r) = ok (a, r)
from_io (IoResult.err e, r) = err (wasm_error e)
from_io (IoResult.panic, r) = panic
from_io (IoResult.stuck, r) = stuck

-- `reader.read(…)?`
unfoldable pub io : {A : Type 0} → Read A → Parse A
io m r = from_io (m r)

abbrev pub byte : Parse ℕ
byte = io read_u8

abbrev pub u32 : Parse ℕ
u32 = io read_uleb128

abbrev pub bytes : ℕ → Parse (List ℕ)
bytes n = io (read_bytes n)

-- `for _ in 0..count`, with the elements pushed in order.
unfoldable pub many : {A : Type 0} → ℕ → Parse A → Parse (List A)
many zero p = pure []
many (suc n) p = do a ← p; rest ← many n p; pure (a ∷ rest)

-- A vector: its length, and its elements.
unfoldable pub vector : {A : Type 0} → Parse A → Parse (List A)
unfolding many
vector p = do count ← u32; many count p

abbrev pub refusing : {A : Type 0} → String → Option A → Parse A
refusing message none = fail message
refusing message (some a) = pure a

unfoldable pub read_heap_type_ref : Parse RefType
read_heap_type_ref = do
  h ← io read_sleb128_i64
  refusing "GC heap types are not supported: {}" (null_type h)

abbrev as_val_type : Parse RefType → Parse ValType
as_val_type p = do ref_type ← p; pure (ValType.ref ref_type)

unfoldable pub val_type_of : ℕ → Parse ValType
unfolding read_heap_type_ref
val_type_of type_byte =
    if type_byte == 0x7F
    then pure (ValType.num NumType.i32)
    else if type_byte == 0x7E
    then pure (ValType.num NumType.i64)
    else if type_byte == 0x7D
    then pure (ValType.num NumType.f32)
    else if type_byte == 0x7C
    then pure (ValType.num NumType.f64)
    else if type_byte == 0x70
    then pure (ValType.ref RefType.func_ref)
    else if type_byte == 0x6F
    then pure (ValType.ref RefType.extern_ref)
    else if type_byte == 0x63 || type_byte == 0x64
    then as_val_type read_heap_type_ref
    else fail "unknown val type: {}"

unfoldable pub read_val_type : Parse ValType
unfolding val_type_of
read_val_type = do type_byte ← byte; val_type_of type_byte

abbrev with_null : Bool → Parse RefType → Parse (RefType × Bool)
with_null nullable p = do ref_type ← p; pure (ref_type, nullable)

unfoldable pub read_ref_type_with_prefix : ℕ → Parse (RefType × Bool)
unfolding read_heap_type_ref
read_ref_type_with_prefix prefix =
    if prefix == 0x70
    then pure (RefType.func_ref, true)
    else if prefix == 0x6F
    then pure (RefType.extern_ref, true)
    else if prefix == 0x63
    then with_null true read_heap_type_ref
    else if prefix == 0x64
    then with_null false read_heap_type_ref
    else fail "unknown ref type: {}"

unfoldable pub read_table_ref_type : Parse (RefType × Bool)
unfolding read_ref_type_with_prefix
read_table_ref_type = do prefix ← byte; read_ref_type_with_prefix prefix

abbrev pub min_limits : Parse Limits
min_limits = do lo ← u32; pure (Limits.min_only lo)

abbrev pub min_max_limits : Parse Limits
min_max_limits = do lo ← u32; hi ← u32; pure (Limits.min_max lo hi)

unfoldable pub limits_of : ℕ → Parse Limits
limits_of flags =
    if flags == 0x00
    then min_limits
    else if flags == 0x01
    then min_max_limits
    else fail "unsupported limits flags: {}"

unfoldable pub read_limits : Parse Limits
unfolding limits_of
read_limits = do flags ← byte; limits_of flags

abbrev shared_as : Bool → Parse Limits → Parse (Limits × Bool)
shared_as shared p = do limits ← p; pure (limits, shared)

unfoldable pub limits_with_flags : ℕ → Parse (Limits × Bool)
limits_with_flags flags =
    if flags == 0x00
    then shared_as false min_limits
    else if flags == 0x01
    then shared_as false min_max_limits
    else if flags == 0x02
    then shared_as true min_limits
    else if flags == 0x03
    then shared_as true min_max_limits
    else fail "unsupported memory limits flags: {}"

unfoldable pub read_limits_with_flags : Parse (Limits × Bool)
unfolding limits_with_flags
read_limits_with_flags = do flags ← byte; limits_with_flags flags

abbrev mutability : ℕ → Parse Bool
mutability flag =
    if flag == 0x00
    then pure false
    else if flag == 0x01
    then pure true
    else fail "invalid mutability flag: {}"

unfoldable pub read_mutability : Parse Bool
read_mutability = do flag ← byte; mutability flag

abbrev elem_kind : ℕ → Parse (Unit {0})
elem_kind kind = if kind == 0x00 then pure tt else fail "unsupported element kind: {}"

unfoldable pub read_elem_kind : Parse (Unit {0})
read_elem_kind = do kind ← byte; elem_kind kind

-- A length, the bytes of a name, and the text that they encode.
unfoldable pub read_name : String → Parse String
read_name message = do len ← u32; name ← bytes len; refusing message (from_utf8 name)

abbrev pub put_byte : ℕ → Parse (List ℕ) → Parse (List ℕ)
put_byte b p = do rest ← p; pure (b ∷ rest)

abbrev pub raw_next : String → ℕ → ℕ → ℕ → Parse (List ℕ) → Parse (List ℕ)
raw_next message limit shift b more =
    if bit_and b 0x80 == 0
    then pure (b ∷ [])
    else if leb limit shift
    then fail message
    else put_byte b more

-- The loop of both raw readers: it fails once a byte that continues has taken the shift to `limit`.
unfoldable pub raw_loop : String → ℕ → ℕ → ℕ → Parse (List ℕ)
raw_loop message limit zero shift r = stuck
raw_loop message limit (suc fuel) shift r =
    (do
      b ← byte
      let more = raw_loop message limit fuel (shift + 7)
      raw_next message limit (shift + 7) b more)
      r

unfoldable pub read_raw_uleb : Parse (List ℕ)
unfolding raw_loop
read_raw_uleb = raw_loop "uleb128 overflow" 35 5 0

unfoldable pub read_raw_sleb : Parse (List ℕ)
unfolding raw_loop
read_raw_sleb = raw_loop "sleb128 overflow" 70 10 0

-- The bytes of an opcode's immediates.
unfoldable pub immediate_bytes : ℕ → Parse (List ℕ)
unfolding read_raw_uleb read_raw_sleb
immediate_bytes opcode =
    if opcode == 0x23 || opcode == 0xD2
    then read_raw_uleb
    else if opcode == 0x41 || opcode == 0x42
    then read_raw_sleb
    else if opcode == 0x43
    then bytes 4
    else if opcode == 0x44
    then bytes 8
    else if opcode == 0xD0
    then read_raw_sleb
    else if within 0x6A 0x6C opcode || within 0x7C 0x7E opcode
    then pure []
    else fail "unsupported constant expression opcode: {:02x}"

abbrev pub joined : ℕ → Parse (List ℕ) → Parse (List ℕ) → Parse (List ℕ)
joined opcode p more = do immediate ← p; rest ← more; pure (opcode ∷ (immediate ++ rest))

-- The loop up to `end`. Every round takes a byte.
unfoldable pub expr_loop : ℕ → Parse (List ℕ)
unfolding immediate_bytes
expr_loop zero r = stuck
expr_loop (suc fuel) r =
    (do
      opcode ← byte
      let more = joined opcode (immediate_bytes opcode) (expr_loop fuel)
      if opcode == 0x0B then pure (opcode ∷ []) else more)
      r

unfoldable pub read_const_expr : Parse (List ℕ)
unfolding expr_loop
read_const_expr r = expr_loop (length r.bytes + 1) r

unfoldable pub read_func_index_vector : Parse (List ℕ)
unfolding vector
read_func_index_vector = vector u32

unfoldable pub read_const_expr_vector : Parse (List (List ℕ))
unfolding vector read_const_expr
read_const_expr_vector = vector read_const_expr

abbrev pub local_group : Parse Local
local_group = do count ← u32; type_ ← read_val_type; pure (record { count = count; type_ = type_ })

unfoldable pub parse_locals : Parse (List Local)
unfolding vector read_val_type
parse_locals = vector local_group

-- Five bytes are enough for 32 bits.
unfoldable pub uleb_bytes : ℕ → ℕ → List ℕ
uleb_bytes zero value = []
uleb_bytes (suc fuel) value =
    let rest = uleb_bytes fuel (value / 128) in
    if value / 128 == 0 then value % 128 ∷ [] else bit_or (value % 128) 0x80 ∷ rest

unfoldable pub write_uleb128 : ℕ → List ℕ
unfolding uleb_bytes
write_uleb128 value = uleb_bytes 5 value

unfoldable pub func_ref_expr : ℕ → List ℕ
unfolding write_uleb128
func_ref_expr func_idx = 0xD2 ∷ (write_uleb128 func_idx ++ (0x0B ∷ []))

unfoldable pub i32_zero_expr : List ℕ
i32_zero_expr = 0x41 ∷ 0x00 ∷ 0x0B ∷ []
