-- ===== src/Runtime/AtomicOp.antt =====
-- crates/core/src/runtime/atomic_op.rs: the table of the atomic instructions.
pub mod Encoding
mod Tests
use wasmtiny.Base.{
  ℕ, Bool, Option, none, some, List, [], ◌∷◌, ◌++◌, length, ◌==◌, if◌then◌else◌, not,
}
use wasmtiny.Runtime.Types.{FunctionType, ValType, NumType}

pub data AtomicKind : Type 0 where
  notify wait32 wait64 fence load store rmw : AtomicKind

pub record AtomicOpMeta : Type 0 where
  pub subopcode : ℕ
  pub kind : AtomicKind
  pub operand_type : Option NumType
  pub result_type : Option NumType
  pub access_width : ℕ
  pub params : List ValType
  pub results : List ValType

abbrev pub i32 : ValType
i32 = ValType.num NumType.i32

abbrev pub i64 : ValType
i64 = ValType.num NumType.i64

-- An entry of the table, its fields in order.
abbrev pub op :
    ℕ
    → AtomicKind
    → Option NumType
    → Option NumType
    → ℕ
    → List ValType
    → List ValType
    → AtomicOpMeta
op subopcode kind operand_type result_type access_width params results = record {
  subopcode = subopcode;
  kind = kind;
  operand_type = operand_type;
  result_type = result_type;
  access_width = access_width;
  params = params;
  results = results;
}

abbrev wait_ops : List AtomicOpMeta
wait_ops =
    op 0x00 AtomicKind.notify none (some NumType.i32) 4 (i32 ∷ i32 ∷ []) (i32 ∷ [])
    ∷ op 0x01 AtomicKind.wait32 none (some NumType.i32) 4 (i32 ∷ i32 ∷ i64 ∷ []) (i32 ∷ [])
    ∷ op 0x02 AtomicKind.wait64 none (some NumType.i32) 8 (i32 ∷ i64 ∷ i64 ∷ []) (i32 ∷ [])
    ∷ op 0x03 AtomicKind.fence none none 0 [] []
    ∷ []

abbrev load_ops : List AtomicOpMeta
load_ops =
    op 0x10 AtomicKind.load (some NumType.i32) (some NumType.i32) 4 (i32 ∷ []) (i32 ∷ [])
    ∷ op 0x11 AtomicKind.load (some NumType.i64) (some NumType.i64) 8 (i32 ∷ []) (i64 ∷ [])
    ∷ op 0x12 AtomicKind.load (some NumType.i32) (some NumType.i32) 1 (i32 ∷ []) (i32 ∷ [])
    ∷ op 0x13 AtomicKind.load (some NumType.i32) (some NumType.i32) 2 (i32 ∷ []) (i32 ∷ [])
    ∷ op 0x14 AtomicKind.load (some NumType.i64) (some NumType.i64) 1 (i32 ∷ []) (i64 ∷ [])
    ∷ op 0x15 AtomicKind.load (some NumType.i64) (some NumType.i64) 2 (i32 ∷ []) (i64 ∷ [])
    ∷ op 0x16 AtomicKind.load (some NumType.i64) (some NumType.i64) 4 (i32 ∷ []) (i64 ∷ [])
    ∷ []

abbrev store_ops : List AtomicOpMeta
store_ops =
    op 0x17 AtomicKind.store (some NumType.i32) none 4 (i32 ∷ i32 ∷ []) []
    ∷ op 0x18 AtomicKind.store (some NumType.i64) none 8 (i32 ∷ i64 ∷ []) []
    ∷ op 0x19 AtomicKind.store (some NumType.i32) none 1 (i32 ∷ i32 ∷ []) []
    ∷ op 0x1A AtomicKind.store (some NumType.i32) none 2 (i32 ∷ i32 ∷ []) []
    ∷ op 0x1B AtomicKind.store (some NumType.i64) none 1 (i32 ∷ i64 ∷ []) []
    ∷ op 0x1C AtomicKind.store (some NumType.i64) none 2 (i32 ∷ i64 ∷ []) []
    ∷ op 0x1D AtomicKind.store (some NumType.i64) none 4 (i32 ∷ i64 ∷ []) []
    ∷ []

abbrev rmw_add_ops : List AtomicOpMeta
rmw_add_ops =
    op 0x1E AtomicKind.rmw (some NumType.i32) (some NumType.i32) 4 (i32 ∷ i32 ∷ []) (i32 ∷ [])
    ∷ op 0x1F AtomicKind.rmw (some NumType.i64) (some NumType.i64) 8 (i32 ∷ i64 ∷ []) (i64 ∷ [])
    ∷ op 0x20 AtomicKind.rmw (some NumType.i32) (some NumType.i32) 1 (i32 ∷ i32 ∷ []) (i32 ∷ [])
    ∷ op 0x21 AtomicKind.rmw (some NumType.i32) (some NumType.i32) 2 (i32 ∷ i32 ∷ []) (i32 ∷ [])
    ∷ op 0x22 AtomicKind.rmw (some NumType.i64) (some NumType.i64) 1 (i32 ∷ i64 ∷ []) (i64 ∷ [])
    ∷ op 0x23 AtomicKind.rmw (some NumType.i64) (some NumType.i64) 2 (i32 ∷ i64 ∷ []) (i64 ∷ [])
    ∷ op 0x24 AtomicKind.rmw (some NumType.i64) (some NumType.i64) 4 (i32 ∷ i64 ∷ []) (i64 ∷ [])
    ∷ []

abbrev rmw_sub_ops : List AtomicOpMeta
rmw_sub_ops =
    op 0x25 AtomicKind.rmw (some NumType.i32) (some NumType.i32) 4 (i32 ∷ i32 ∷ []) (i32 ∷ [])
    ∷ op 0x26 AtomicKind.rmw (some NumType.i64) (some NumType.i64) 8 (i32 ∷ i64 ∷ []) (i64 ∷ [])
    ∷ op 0x27 AtomicKind.rmw (some NumType.i32) (some NumType.i32) 1 (i32 ∷ i32 ∷ []) (i32 ∷ [])
    ∷ op 0x28 AtomicKind.rmw (some NumType.i32) (some NumType.i32) 2 (i32 ∷ i32 ∷ []) (i32 ∷ [])
    ∷ op 0x29 AtomicKind.rmw (some NumType.i64) (some NumType.i64) 1 (i32 ∷ i64 ∷ []) (i64 ∷ [])
    ∷ op 0x2A AtomicKind.rmw (some NumType.i64) (some NumType.i64) 2 (i32 ∷ i64 ∷ []) (i64 ∷ [])
    ∷ op 0x2B AtomicKind.rmw (some NumType.i64) (some NumType.i64) 4 (i32 ∷ i64 ∷ []) (i64 ∷ [])
    ∷ []

abbrev rmw_and_ops : List AtomicOpMeta
rmw_and_ops =
    op 0x2C AtomicKind.rmw (some NumType.i32) (some NumType.i32) 4 (i32 ∷ i32 ∷ []) (i32 ∷ [])
    ∷ op 0x2D AtomicKind.rmw (some NumType.i64) (some NumType.i64) 8 (i32 ∷ i64 ∷ []) (i64 ∷ [])
    ∷ op 0x2E AtomicKind.rmw (some NumType.i32) (some NumType.i32) 1 (i32 ∷ i32 ∷ []) (i32 ∷ [])
    ∷ op 0x2F AtomicKind.rmw (some NumType.i32) (some NumType.i32) 2 (i32 ∷ i32 ∷ []) (i32 ∷ [])
    ∷ op 0x30 AtomicKind.rmw (some NumType.i64) (some NumType.i64) 1 (i32 ∷ i64 ∷ []) (i64 ∷ [])
    ∷ op 0x31 AtomicKind.rmw (some NumType.i64) (some NumType.i64) 2 (i32 ∷ i64 ∷ []) (i64 ∷ [])
    ∷ op 0x32 AtomicKind.rmw (some NumType.i64) (some NumType.i64) 4 (i32 ∷ i64 ∷ []) (i64 ∷ [])
    ∷ []

abbrev rmw_or_ops : List AtomicOpMeta
rmw_or_ops =
    op 0x33 AtomicKind.rmw (some NumType.i32) (some NumType.i32) 4 (i32 ∷ i32 ∷ []) (i32 ∷ [])
    ∷ op 0x34 AtomicKind.rmw (some NumType.i64) (some NumType.i64) 8 (i32 ∷ i64 ∷ []) (i64 ∷ [])
    ∷ op 0x35 AtomicKind.rmw (some NumType.i32) (some NumType.i32) 1 (i32 ∷ i32 ∷ []) (i32 ∷ [])
    ∷ op 0x36 AtomicKind.rmw (some NumType.i32) (some NumType.i32) 2 (i32 ∷ i32 ∷ []) (i32 ∷ [])
    ∷ op 0x37 AtomicKind.rmw (some NumType.i64) (some NumType.i64) 1 (i32 ∷ i64 ∷ []) (i64 ∷ [])
    ∷ op 0x38 AtomicKind.rmw (some NumType.i64) (some NumType.i64) 2 (i32 ∷ i64 ∷ []) (i64 ∷ [])
    ∷ op 0x39 AtomicKind.rmw (some NumType.i64) (some NumType.i64) 4 (i32 ∷ i64 ∷ []) (i64 ∷ [])
    ∷ []

abbrev rmw_xor_ops : List AtomicOpMeta
rmw_xor_ops =
    op 0x3A AtomicKind.rmw (some NumType.i32) (some NumType.i32) 4 (i32 ∷ i32 ∷ []) (i32 ∷ [])
    ∷ op 0x3B AtomicKind.rmw (some NumType.i64) (some NumType.i64) 8 (i32 ∷ i64 ∷ []) (i64 ∷ [])
    ∷ op 0x3C AtomicKind.rmw (some NumType.i32) (some NumType.i32) 1 (i32 ∷ i32 ∷ []) (i32 ∷ [])
    ∷ op 0x3D AtomicKind.rmw (some NumType.i32) (some NumType.i32) 2 (i32 ∷ i32 ∷ []) (i32 ∷ [])
    ∷ op 0x3E AtomicKind.rmw (some NumType.i64) (some NumType.i64) 1 (i32 ∷ i64 ∷ []) (i64 ∷ [])
    ∷ op 0x3F AtomicKind.rmw (some NumType.i64) (some NumType.i64) 2 (i32 ∷ i64 ∷ []) (i64 ∷ [])
    ∷ op 0x40 AtomicKind.rmw (some NumType.i64) (some NumType.i64) 4 (i32 ∷ i64 ∷ []) (i64 ∷ [])
    ∷ []

abbrev rmw_xchg_ops : List AtomicOpMeta
rmw_xchg_ops =
    op 0x41 AtomicKind.rmw (some NumType.i32) (some NumType.i32) 4 (i32 ∷ i32 ∷ []) (i32 ∷ [])
    ∷ op 0x42 AtomicKind.rmw (some NumType.i64) (some NumType.i64) 8 (i32 ∷ i64 ∷ []) (i64 ∷ [])
    ∷ op 0x43 AtomicKind.rmw (some NumType.i32) (some NumType.i32) 1 (i32 ∷ i32 ∷ []) (i32 ∷ [])
    ∷ op 0x44 AtomicKind.rmw (some NumType.i32) (some NumType.i32) 2 (i32 ∷ i32 ∷ []) (i32 ∷ [])
    ∷ op 0x45 AtomicKind.rmw (some NumType.i64) (some NumType.i64) 1 (i32 ∷ i64 ∷ []) (i64 ∷ [])
    ∷ op 0x46 AtomicKind.rmw (some NumType.i64) (some NumType.i64) 2 (i32 ∷ i64 ∷ []) (i64 ∷ [])
    ∷ op 0x47 AtomicKind.rmw (some NumType.i64) (some NumType.i64) 4 (i32 ∷ i64 ∷ []) (i64 ∷ [])
    ∷ []

abbrev rmw_cmpxchg_ops : List AtomicOpMeta
rmw_cmpxchg_ops =
    op 0x48 AtomicKind.rmw (some NumType.i32) (some NumType.i32) 4 (i32 ∷ i32 ∷ i32 ∷ []) (i32 ∷ [])
    ∷ op 0x49 AtomicKind.rmw (some NumType.i64) (some NumType.i64) 8 (i32 ∷ i64 ∷ i64 ∷ [])
        (i64 ∷ [])
    ∷ op 0x4A AtomicKind.rmw (some NumType.i32) (some NumType.i32) 1 (i32 ∷ i32 ∷ i32 ∷ [])
        (i32 ∷ [])
    ∷ op 0x4B AtomicKind.rmw (some NumType.i32) (some NumType.i32) 2 (i32 ∷ i32 ∷ i32 ∷ [])
        (i32 ∷ [])
    ∷ op 0x4C AtomicKind.rmw (some NumType.i64) (some NumType.i64) 1 (i32 ∷ i64 ∷ i64 ∷ [])
        (i64 ∷ [])
    ∷ op 0x4D AtomicKind.rmw (some NumType.i64) (some NumType.i64) 2 (i32 ∷ i64 ∷ i64 ∷ [])
        (i64 ∷ [])
    ∷ op 0x4E AtomicKind.rmw (some NumType.i64) (some NumType.i64) 4 (i32 ∷ i64 ∷ i64 ∷ [])
        (i64 ∷ [])
    ∷ []

abbrev pub atomic_ops : List AtomicOpMeta
atomic_ops =
    wait_ops
    ++ (load_ops
        ++ (store_ops
            ++ (rmw_add_ops
                ++ (rmw_sub_ops
                    ++ (rmw_and_ops
                        ++ (rmw_or_ops ++ (rmw_xor_ops ++ (rmw_xchg_ops ++ rmw_cmpxchg_ops))))))))

unfoldable pub find_op : List AtomicOpMeta → ℕ → Option AtomicOpMeta
find_op [] subopcode = none
find_op (o ∷ ops) subopcode =
    let rest = find_op ops subopcode in if o.subopcode == subopcode then some o else rest

unfoldable pub lookup : ℕ → Option AtomicOpMeta
unfolding find_op
lookup subopcode = find_op atomic_ops subopcode

unfoldable pub param_count : AtomicOpMeta → ℕ
param_count o = length o.params

unfoldable pub has_result : AtomicOpMeta → Bool
has_result o = not (length o.results == 0)

unfoldable pub func_type : AtomicOpMeta → FunctionType
func_type o = record { params = o.params; results = o.results }

abbrev pub immediates : AtomicKind → ℕ
immediates AtomicKind.fence = 1
immediates _ = 2

abbrev counted : Option AtomicOpMeta → Option ℕ
counted none = none
counted (some o) = some (immediates o.kind)

unfoldable pub immediate_count : ℕ → Option ℕ
unfolding lookup
immediate_count subopcode = counted (lookup subopcode)
