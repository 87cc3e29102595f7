-- ===== src/Loader/Reader/Total.antt =====
-- The byte readers and the LEB128 readers end, without a panic, inside the bytes.
use wasmtiny.Base.{
  ℕ, zero, suc, ◌+◌, ◌*◌, ◌≤◌, ◌<◌, ◌≡◌, ◌≢◌, refl, length, arith, bit_or, bit_and,
  get_elem?-ne-none, Bool-cases, inl, inr, ltb, ◌==◌,
}
use wasmtiny.Loader.Reader.{
  BinaryReader, IoResult, ok, err, panic, stuck, Read, read_byte, read_u8, read_u32, read_u64, pure,
  uleb_loop, read_uleb128, sleb_loop, read_sleb128, read_sleb128_i64, shl, ◌>>=◌, sign_extend,
  uleb_checks, uleb_next, sleb_next,
}

-- The read has a result or a failure of its own, keeps the bytes, does not go back, and stops at
-- their end at the latest.
pub record Settled {A : Type 0} (r : BinaryReader) (out : IoResult A × BinaryReader) : Type 0 where
  pub no_panic : out.0 ≢ panic
  pub ended : out.0 ≢ stuck
  pub same_bytes : out.1.bytes ≡ r.bytes
  pub forward : r.position ≤ out.1.position
  pub inside : out.1.position ≤ length r.bytes

bound :
    {A B : Type 0} (p : IoResult A × BinaryReader) (f : A → Read B) (r : BinaryReader)
    → Settled r p
    → ((a : A) (r' : BinaryReader) → r'.position ≤ length r'.bytes → Settled r' (f a r'))
    → Settled r (((λ _. p) >>= f) r)
bound (ok a, r') f r s k =
    let e = k a r' (ground (arith, s.inside, s.same_bytes)) in
    ground (arith, e.no_panic, e.ended, e.same_bytes, e.forward, e.inside, s.same_bytes, s.forward)
bound (err x, r') f r s k = ground (arith, s.same_bytes, s.forward, s.inside)
bound (panic, r') f r s k = absurd (s.no_panic refl)
bound (stuck, r') f r s k = absurd (s.ended refl)

-- A sequence of two settled reads is settled.
pub bind-Settled :
    {A B : Type 0} (m : Read A) (f : A → Read B) (r : BinaryReader)
    → Settled r (m r)
    → ((a : A) (r' : BinaryReader) → r'.position ≤ length r'.bytes → Settled r' (f a r'))
    → Settled r ((m >>= f) r)
bind-Settled m f r s k = bound (m r) f r s k

pub read_u8-Settled : (r : BinaryReader) → r.position ≤ length r.bytes → Settled r (read_u8 r)
unfolding read_u8 read_byte
read_u8-Settled r h = ground (arith, get_elem?-ne-none r.bytes r.position)

uleb_next-Settled :
    (result shift count byte : ℕ) (more : Read (ℕ × ℕ × ℕ)) (r : BinaryReader)
    → r.position ≤ length r.bytes
    → (shift ≤ 35 → Settled r (more r))
    → Settled r (uleb_next result shift count byte more r)
uleb_next-Settled result shift count byte more r h k = elim (Bool-cases (bit_and byte 0x80 == 0)) [
  | inl done ↦ rw done (ground (arith, h))
  | inr open_end ↦ elim (Bool-cases (ltb 35 shift)) [
    | inl over ↦ rw (open_end, over) (ground (arith, h))
    | inr within ↦ rw (open_end, within) (k (ground arith))
  ]
]

sleb_next-Settled :
    (limit result shift byte : ℕ) (more : Read (ℕ × ℕ × ℕ)) (r : BinaryReader)
    → r.position ≤ length r.bytes
    → (shift ≤ limit → Settled r (more r))
    → Settled r (sleb_next limit result shift byte more r)
sleb_next-Settled limit result shift byte more r h k = elim (Bool-cases (bit_and byte 0x80 == 0)) [
  | inl done ↦ rw done (ground (arith, h))
  | inr open_end ↦ elim (Bool-cases (ltb limit shift)) [
    | inl over ↦ rw (open_end, over) (ground (arith, h))
    | inr within ↦ rw (open_end, within) (k (ground arith))
  ]
]

uleb_loop-Settled :
    (fuel result shift count : ℕ) (r : BinaryReader)
    → r.position ≤ length r.bytes
    → shift ≤ 35
    → 36 ≤ shift + 7 * fuel
    → Settled r (uleb_loop fuel result shift count r)
unfolding uleb_loop
uleb_loop-Settled zero result shift count r h s f = absurd (omega arith)
uleb_loop-Settled (suc fuel) result shift count r h s f =
    let result' : ℕ → ℕ = λ byte. bit_or result (shl 64 (bit_and byte 0x7F) shift) in
    let rec = λ (byte : ℕ). uleb_loop-Settled fuel (result' byte) (shift + 7) (count + 1) in
    bind-Settled read_u8
      (λ byte.
        uleb_next (result' byte) (shift + 7) (count + 1) byte
          (uleb_loop fuel (result' byte) (shift + 7) (count + 1)))
      r (read_u8-Settled r h)
      (λ byte r' v.
        uleb_next-Settled (result' byte) (shift + 7) (count + 1) byte
          (uleb_loop fuel (result' byte) (shift + 7) (count + 1)) r' v
          (λ within. rec byte r' v within (omega arith)))

sleb_loop-Settled :
    (w limit fuel result shift : ℕ) (r : BinaryReader)
    → r.position ≤ length r.bytes
    → shift ≤ limit
    → limit < shift + 7 * fuel
    → Settled r (sleb_loop w limit fuel result shift r)
unfolding sleb_loop
sleb_loop-Settled w limit zero result shift r h s f = absurd (omega arith)
sleb_loop-Settled w limit (suc fuel) result shift r h s f =
    let result' : ℕ → ℕ = λ byte. bit_or result (shl w (bit_and byte 0x7F) shift) in
    let rec = λ (byte : ℕ). sleb_loop-Settled w limit fuel (result' byte) (shift + 7) in
    bind-Settled read_u8
      (λ byte.
        sleb_next limit (result' byte) (shift + 7) byte
          (sleb_loop w limit fuel (result' byte) (shift + 7)))
      r (read_u8-Settled r h)
      (λ byte r' v.
        sleb_next-Settled limit (result' byte) (shift + 7) byte
          (sleb_loop w limit fuel (result' byte) (shift + 7)) r' v
          (λ within. rec byte r' v within (omega arith)))

uleb_checks-Settled :
    (a : ℕ × ℕ × ℕ) (r : BinaryReader) → r.position ≤ length r.bytes → Settled r (uleb_checks a r)
uleb_checks-Settled (result, count, last) r h = ground (arith, h)

sign_extend-Settled :
    (w : ℕ) (a : ℕ × ℕ × ℕ) (r : BinaryReader)
    → r.position ≤ length r.bytes
    → Settled r (sign_extend w a r)
sign_extend-Settled w (result, shift, byte) r h = ground (arith, h)

-- The unsigned and both signed LEB128 readers have a result or fail, on every input: their loops
-- end, no index is out of range, and the position stays within the bytes.
pub leb_readers-Settled :
    (r : BinaryReader)
    → r.position ≤ length r.bytes
    → Settled r (read_uleb128 r) × Settled r (read_sleb128 r) × Settled r (read_sleb128_i64 r)
unfolding read_uleb128 read_sleb128 read_sleb128_i64
leb_readers-Settled r h = (
  bind-Settled (uleb_loop 6 0 0 0) uleb_checks r
      (uleb_loop-Settled 6 0 0 0 r h (omega arith) (omega arith)) uleb_checks-Settled,
  bind-Settled (sleb_loop 32 32 5 0 0) (sign_extend 32) r
      (sleb_loop-Settled 32 32 5 0 0 r h (omega arith) (omega arith)) (sign_extend-Settled 32),
  bind-Settled (sleb_loop 64 64 10 0 0) (sign_extend 64) r
      (sleb_loop-Settled 64 64 10 0 0 r h (omega arith) (omega arith)) (sign_extend-Settled 64),
)

pure-Settled :
    {A : Type 0} (a : A) (r : BinaryReader) → r.position ≤ length r.bytes → Settled r (pure a r)
pure-Settled a r h = ground (arith, h)

-- The readers of fixed width end in the same way.
pub read_u32-Settled : (r : BinaryReader) → r.position ≤ length r.bytes → Settled r (read_u32 r)
unfolding read_u32
read_u32-Settled r h =
    let join : ℕ → ℕ → ℕ → ℕ → ℕ =
      λ b0 b1 b2 b3. bit_or (bit_or (bit_or b0 (shl 32 b1 8)) (shl 32 b2 16)) (shl 32 b3 24) in
    let third : ℕ → ℕ → ℕ → ℕ → Read ℕ = λ b0 b1 b2 b3. pure (join b0 b1 b2 b3) in
    let second : ℕ → ℕ → ℕ → Read ℕ = λ b0 b1 b2. read_u8 >>= third b0 b1 b2 in
    let first : ℕ → ℕ → Read ℕ = λ b0 b1. read_u8 >>= second b0 b1 in
    bind-Settled read_u8 (λ b0. read_u8 >>= first b0) r (read_u8-Settled r h)
      λ b0 r1 h1. bind-Settled read_u8 (first b0) r1 (read_u8-Settled r1 h1) λ b1 r2 h2.
        bind-Settled read_u8 (second b0 b1) r2 (read_u8-Settled r2 h2) λ b2 r3 h3.
          bind-Settled read_u8 (third b0 b1 b2) r3 (read_u8-Settled r3 h3)
            λ b3 r4 h4. pure-Settled (join b0 b1 b2 b3) r4 h4

pub read_u64-Settled : (r : BinaryReader) → r.position ≤ length r.bytes → Settled r (read_u64 r)
unfolding read_u64
read_u64-Settled r h =
    let join : ℕ → ℕ → ℕ = λ lo hi. bit_or lo (shl 64 hi 32) in
    bind-Settled read_u32 (λ lo. read_u32 >>= λ hi. pure (join lo hi)) r (read_u32-Settled r h)
      λ lo r1 h1.
        bind-Settled read_u32 (λ hi. pure (join lo hi)) r1 (read_u32-Settled r1 h1)
          λ hi r2 h2. pure-Settled (join lo hi) r2 h2
