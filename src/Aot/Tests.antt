-- ===== src/Aot/Tests.antt =====
-- The theorems at a concrete artifact, table and store.
use wasmtiny.Base.{
  ℕ, ◌≡◌, ◌↔◌, refl, true, some, none, leb, List, [], ◌∷◌, ◌++◌, length, get_elem?, replicate,
  arith,
}
use wasmtiny.Runtime.Error.{ok}
use wasmtiny.Runtime.Types.{FunctionType, ValType, NumType, RefType, TableType, Limits}
use wasmtiny.Aot.Integrity.{verify_integrity, integrity_sha512, verify_integrity_iff}
use wasmtiny.Aot.Reader.{
  Reader, read_bytes, read_u8, read_u32, read_len_bytes, read_string, read_count,
}
use wasmtiny.Aot.Reader.Refines.{
  IsValid, Agrees, Slice, Fits, AtMost, IsText, rest, take_bytes, byte_spec, u32_spec,
  len_bytes_spec, string_spec, count_spec, reader_refines,
}
use wasmtiny.Base.Bytes.{IsByte}
use wasmtiny.Aot.Store.{new_store, canonical_type_id, with_initial}
use wasmtiny.Aot.Store.Tables.{TableLaw, with_initial_lem}
use wasmtiny.Aot.Store.Signatures.{canonical_type_id_lem}

-- A digest of the right length.
abbrev digest : List ℕ → List ℕ
digest bytes = replicate 64 (length bytes)

verify_integrity_iff_example :
    (verify_integrity digest (9 ∷ []) (1 ∷ 0 ∷ replicate 64 3) ≡ ok tt) ↔ (
      (rest : List ℕ) × (1 ∷ 0 ∷ replicate 64 3
        ≡ integrity_sha512 ∷ 0 ∷ (digest ((9 ∷ []) ++ (integrity_sha512 ∷ 0 ∷ [])) ++ rest)))
verify_integrity_iff_example =
    verify_integrity_iff digest (9 ∷ []) (1 ∷ 0 ∷ replicate 64 3) (λ bytes. refl)

-- Three entries of ten, where the allocator has room for sixteen.
abbrev small_table : TableType
small_table = record { elem_type = RefType.func_ref; limits = Limits.min_max 3 10; nullable = true }

with_initial_lem_example :
    TableLaw (λ n. leb n 16) small_table 3 (with_initial (λ n. leb n 16) small_table 3)
with_initial_lem_example = with_initial_lem (λ n. leb n 16) small_table 3

abbrev big_table : TableType
big_table = record small_table { limits = Limits.min_only 2000000 }

big_table_panics : with_initial (λ n. true) big_table 2000000 ≡ none
unfolding with_initial
big_table_panics = refl

abbrev to_i32 : FunctionType
to_i32 = record { params = []; results = ValType.num NumType.i32 ∷ [] }

abbrev from_i32 : FunctionType
from_i32 = record { params = ValType.num NumType.i32 ∷ []; results = [] }

canonical_type_id_lem_example :
    let (id, s') = canonical_type_id new_store to_i32 in
    let (other, s'') = canonical_type_id s' from_i32 in
    (get_elem? s'.type_registry id ≡ some to_i32)
    × (canonical_type_id s' to_i32 ≡ (id, s'))
    × ((other ≡ id) ↔ (from_i32 ≡ to_i32))
unfolding new_store
canonical_type_id_lem_example = canonical_type_id_lem new_store to_i32 from_i32 (omega arith)

-- The string "hi" behind its length.
abbrev greeting : Reader
greeting = record { data_ = 2 ∷ 0 ∷ 0 ∷ 0 ∷ 104 ∷ 105 ∷ []; pos = 0 }

greeting-IsValid : IsValid greeting
greeting-IsValid = record {
  inside = omega arith;
  sized = omega arith;
  bytes =
      (omega arith, (omega arith, (omega arith, (omega arith, (omega arith, (omega arith, tt))))));
}

reader_refines_example :
    Agrees (Slice 4) (read_bytes 4 greeting) (take_bytes 4 (rest greeting))
    × Agrees IsByte (read_u8 greeting) (byte_spec (rest greeting))
    × Agrees Fits (read_u32 greeting) (u32_spec (rest greeting))
    × Agrees (AtMost 4) (read_len_bytes 4 greeting) (len_bytes_spec 4 (rest greeting))
    × Agrees IsText (read_string 4 greeting) (string_spec 4 (rest greeting))
    × Agrees Fits (read_count 4 greeting) (count_spec 4 (rest greeting))
reader_refines_example = reader_refines 4 greeting greeting-IsValid
