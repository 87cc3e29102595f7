-- ===== src/Runtime/Types.antt =====
-- crates/core/src/runtime/types.rs: the types of WebAssembly values and entities.
pub mod Matching
pub mod Equality
use wasmtiny.Base.{
  ℕ, Bool, true, false, ◌&&◌, ◌||◌, not, Option, none, some, List, [], ◌∷◌, ltb, leb, ◌==◌,
  if◌then◌else◌,
}

pub data NumType : Type 0 where
  i32 i64 f32 f64 : NumType

pub data RefType : Type 0 where
  func_ref extern_ref : RefType

pub data ValType : Type 0 where
  num : NumType → ValType
  ref : RefType → ValType

pub record FunctionType : Type 0 where
  pub params : List ValType
  pub results : List ValType

-- Both bounds are `u32` values.
pub data Limits : Type 0 where
  min_only : ℕ → Limits
  min_max : ℕ → ℕ → Limits

pub record TableType : Type 0 where
  pub elem_type : RefType
  pub nullable : Bool
  pub limits : Limits

pub record MemoryType : Type 0 where
  pub limits : Limits
  pub shared : Bool

pub record GlobalType : Type 0 where
  pub content_type : ValType
  pub mutable : Bool

-- `*nt as u8` and `*rt as u8`: the position of the variant.
unfoldable pub num_tag : NumType → ℕ
num_tag NumType.i32 = 0
num_tag NumType.i64 = 1
num_tag NumType.f32 = 2
num_tag NumType.f64 = 3

unfoldable pub ref_tag : RefType → ℕ
ref_tag RefType.func_ref = 0
ref_tag RefType.extern_ref = 1

-- The derived `==`.
unfoldable pub ref_type_eq : RefType → RefType → Bool
unfolding ref_tag
ref_type_eq a b = ref_tag a == ref_tag b

unfoldable pub val_type_eq : ValType → ValType → Bool
unfolding num_tag ref_type_eq
val_type_eq (ValType.num a) (ValType.num b) = num_tag a == num_tag b
val_type_eq (ValType.ref a) (ValType.ref b) = ref_type_eq a b
val_type_eq (ValType.num _) (ValType.ref _) = false
val_type_eq (ValType.ref _) (ValType.num _) = false

-- Rust's `==` on the lists and the types.
unfoldable pub val_types_eq : List ValType → List ValType → Bool
unfolding val_type_eq
val_types_eq [] [] = true
val_types_eq [] (b ∷ bs) = false
val_types_eq (a ∷ more) [] = false
val_types_eq (a ∷ more) (b ∷ bs) = val_type_eq a b && val_types_eq more bs

unfoldable pub function_type_eq : FunctionType → FunctionType → Bool
unfolding val_types_eq
function_type_eq a b = val_types_eq a.params b.params && val_types_eq a.results b.results

-- `RefType::from_u8`: an unknown byte reads as `FuncRef`.
unfoldable pub ref_type_from_u8 : ℕ → RefType
ref_type_from_u8 v =
    if v == 0x70
    then RefType.func_ref
    else if v == 0x6F
    then RefType.extern_ref
    else RefType.func_ref

unfoldable pub is_numeric : ValType → Bool
is_numeric (ValType.num _) = true
is_numeric (ValType.ref _) = false

unfoldable pub is_reference : ValType → Bool
is_reference (ValType.num _) = false
is_reference (ValType.ref _) = true

unfoldable pub as_num_type : ValType → Option NumType
as_num_type (ValType.num n) = some n
as_num_type (ValType.ref _) = none

unfoldable pub as_ref_type : ValType → Option RefType
as_ref_type (ValType.num _) = none
as_ref_type (ValType.ref r) = some r

unfoldable pub hash_bytes : ValType → List ℕ
unfolding num_tag ref_tag
hash_bytes (ValType.num nt) = 0 ∷ num_tag nt ∷ []
hash_bytes (ValType.ref rt) = 1 ∷ ref_tag rt ∷ []

abbrev pub limits_min : Limits → ℕ
limits_min (Limits.min_only lo) = lo
limits_min (Limits.min_max lo _) = lo

abbrev pub limits_max : Limits → Option ℕ
limits_max (Limits.min_only _) = none
limits_max (Limits.min_max _ hi) = some hi

abbrev max_matches : Option ℕ → Option ℕ → Bool
max_matches _ none = true
max_matches (some actual) (some required) = leb actual required
max_matches none (some _) = false

unfoldable pub limits_match : Limits → Limits → Bool
limits_match actual required =
    if ltb (limits_min actual) (limits_min required)
    then false
    else max_matches (limits_max actual) (limits_max required)

-- Rust's `==` on `bool`.
abbrev bool_eq : Bool → Bool → Bool
bool_eq true b = b
bool_eq false b = not b

unfoldable pub table_type_matches : TableType → TableType → Bool
unfolding ref_type_eq limits_match
table_type_matches actual required =
    ref_type_eq actual.elem_type required.elem_type
    && (bool_eq actual.nullable required.nullable || (not actual.nullable && required.nullable))
    && limits_match actual.limits required.limits

unfoldable pub memory_type_matches : MemoryType → MemoryType → Bool
unfolding limits_match
memory_type_matches actual required = limits_match actual.limits required.limits

-- `TableType::new`, `MemoryType::new`, `MemoryType::page_size`, `FunctionType::empty`.
unfoldable pub new_table_type : RefType → Limits → TableType
new_table_type elem_type limits = record { elem_type = elem_type; nullable = true; limits = limits }

unfoldable pub new_memory_type : Limits → MemoryType
new_memory_type limits = record { limits = limits; shared = false }

abbrev pub page_size : ℕ
page_size = 65536

unfoldable pub empty_function_type : FunctionType
empty_function_type = record { params = []; results = [] }
