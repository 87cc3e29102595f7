-- ===== src/Runtime/Types/Matching.antt =====
-- What `matches_required` decides, and the encodings of the types.
use wasmtiny.Base.{ℕ, ◌+◌, ◌≤◌, ◌≡◌, ◌↔◌, true, arith}
use wasmtiny.Runtime.Types.{
  ValType, Limits, TableType, limits_match, table_type_matches, hash_bytes, val_type_eq,
}

-- The sizes that a limit allows.
abbrev pub Allows : Limits → ℕ → Type 0
Allows (Limits.min_only lo) n = lo ≤ n
Allows (Limits.min_max lo hi) n = (lo ≤ n) × (n ≤ hi)

-- The declared minimum does not pass the declared maximum.
abbrev pub IsOrdered : Limits → Type 0
IsOrdered (Limits.min_only lo) = Unit
IsOrdered (Limits.min_max lo hi) = lo ≤ hi

sound : (a r : Limits) → limits_match a r ≡ true → (n : ℕ) → Allows a n → Allows r n
unfolding limits_match
sound (Limits.min_only lo) (Limits.min_only lo') h n p = ground arith
sound (Limits.min_only lo) (Limits.min_max lo' hi') h n p = ground arith
sound (Limits.min_max lo hi) (Limits.min_only lo') h n p = ground arith
sound (Limits.min_max lo hi) (Limits.min_max lo' hi') h n p = ground arith

complete :
    (a r : Limits) → IsOrdered a → ((n : ℕ) → Allows a n → Allows r n) → limits_match a r ≡ true
unfolding limits_match
complete (Limits.min_only lo) (Limits.min_only lo') o f = ground (arith, f lo (omega arith))
complete (Limits.min_only lo) (Limits.min_max lo' hi') o f =
    absurd (omega (arith, f (lo + hi' + 1) (omega arith)))
complete (Limits.min_max lo hi) (Limits.min_only lo') o f =
    ground (arith, f lo (omega arith, omega arith))
complete (Limits.min_max lo hi) (Limits.min_max lo' hi') o f =
    ground (arith, f lo (omega arith, omega arith), f hi (omega arith, omega arith))

-- Limits satisfy required limits exactly when every size that they allow is allowed by those, if
-- their minimum does not pass their maximum.
pub limits_match_iff :
    (a r : Limits) → IsOrdered a → (limits_match a r ≡ true) ↔ ((n : ℕ) → Allows a n → Allows r n)
limits_match_iff a r o = (sound a r, complete a r o)

pub limits_match_trans :
    (a b c : Limits) → limits_match a b ≡ true → limits_match b c ≡ true → limits_match a c ≡ true
unfolding limits_match
limits_match_trans a b c p q = ground arith

-- Import matching of table types can be chained: it is transitive.
pub table_type_matches_trans :
    (a b c : TableType)
    → table_type_matches a b ≡ true
    → table_type_matches b c ≡ true
    → table_type_matches a c ≡ true
unfolding table_type_matches
table_type_matches_trans a b c p q = ground (arith, limits_match_trans a.limits b.limits c.limits)

val_type_eq_self : (a : ValType) → val_type_eq a a ≡ true
unfolding val_type_eq
val_type_eq_self (ValType.num n) = ground arith
val_type_eq_self (ValType.ref r) = ground arith

pub val_type_eq_iff : (a b : ValType) → (val_type_eq a b ≡ true) ↔ (a ≡ b)
unfolding val_type_eq
val_type_eq_iff a b = (ground arith, λ e. rw e (val_type_eq_self b))

-- Two value types with the same hash bytes are the same type.
pub hash_bytes_injective : (a b : ValType) → hash_bytes a ≡ hash_bytes b → a ≡ b
unfolding hash_bytes
hash_bytes_injective a b h = ground arith
