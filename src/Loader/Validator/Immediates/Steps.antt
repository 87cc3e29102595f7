-- ===== src/Loader/Validator/Immediates/Steps.antt =====
-- The immediates are read inside the code, in a bounded number of rounds.
use wasmtiny.Base.{
  ℕ, zero, suc, ◌+◌, ◌-◌, ◌*◌, ◌%◌, ◌^◌, ◌≤◌, ◌<◌, ◌≡◌, ◌≢◌, ◌⊎◌, refl, Option, none, some, List,
  [], ◌∷◌, length, String, arith, if-elim, ltb, ◌==◌, ◌||◌, get_elem?, Option-cases, inl, inr,
  bit_and, bit_or, take, drop,
}
use wasmtiny.Runtime.Error.{WasmError}
use wasmtiny.Runtime.Types.{ValType}
use wasmtiny.Runtime.Module.{Module}
use wasmtiny.Loader.Reader.{IoResult, from_data, read_sleb128}
use wasmtiny.Loader.Reader.Total.{leb_readers-Settled}
use wasmtiny.Loader.Validator.{ok, Check, BodyState, ◌>>=◌, fail}
use wasmtiny.Loader.Validator.Keeps.{
  IsReady, Moved, Keeps, keeps_rules, pure-Keeps, fail-Keeps, bind-Keeps, bind-Moved, still-IsReady,
  then-Moved, bind-ok, bind-err,
}
use wasmtiny.Loader.Validator.Immediates.{
  advance, at_cursor, byte_or, read_byte, uleb_next, uleb_loop, read_uleb, skip_uleb, skip_tail,
  skip_sleb_tail, skip_sleb, from_io, lift, sleb_of_slice, start_of, read_signed_leb_continuation,
  skip_bytes, heap_ref_type, read_heap_type, typed_reference, indexed_signature, signature_of,
  read_block_signature, value_type_of, read_value_type_immediate,
}

-- An index that is found is inside the list.
pub lt-length : {A : Type 0} (xs : List A) (i : ℕ) {a : A} → get_elem? xs i ≡ some a → i < length xs
lt-length [] i h = absurd cc
lt-length (x ∷ xs) zero h = omega arith
lt-length (x ∷ xs) (suc i) h = omega (arith, lt-length xs i h)

module _ (code : List ℕ) where
  -- A byte read, which moves the cursor by one.
  byte_or-cases :
      (message : String) (s : BodyState)
      → ((a : ℕ) × (byte_or message code s ≡ ok (a, advance 1 s)) × (s.cursor < length code))
        ⊎ (byte_or message code s ≡ fail message s)
  unfolding byte_or at_cursor
  byte_or-cases message s = elim (Option-cases (get_elem? code s.cursor)) [
    | inl absent ↦ inr (rw absent refl)
    | inr (a, found) ↦ inl (a, rw found refl, lt-length code s.cursor found)
  ]

  pub byte_or-Keeps : (message : String) → Keeps code (byte_or message code)
  unfolding fail Moved
  byte_or-Keeps message = record {
    at = λ s r. elim (byte_or-cases message s) [
      | inl (a, read, lt) ↦ rw read (refl, omega arith, omega (arith, lt))
      | inr failed ↦ rw failed tt
    ];
  }

  pub read_byte-Keeps : Keeps code (read_byte code)
  unfolding read_byte
  read_byte-Keeps = byte_or-Keeps "unexpected end of immediate"

  uleb_next-Keeps :
      (result shift byte : ℕ) (more : Check ℕ)
      → (shift < 35 → Keeps code more)
      → Keeps code (uleb_next result shift byte more)
  unfolding uleb_next
  uleb_next-Keeps result shift byte more k =
      if-elim (Keeps code) (bit_and byte 0x80 == 0) (λ _. pure-Keeps code result)
        λ _.
          if-elim (Keeps code) (ltb shift 35) (λ below. k (ground (arith, below)))
            (λ _. fail-Keeps code "uleb128 overflow")

  uleb_loop-Keeps :
      (fuel result shift : ℕ)
      → shift < 35
      → 35 ≤ shift + 7 * fuel
      → Keeps code (uleb_loop code fuel result shift)
  unfolding uleb_loop
  uleb_loop-Keeps zero result shift lt enough = absurd (omega arith)
  uleb_loop-Keeps (suc fuel) result shift lt enough = record {
    at = λ s r.
        let rest : (byte : ℕ) → Keeps code _ = λ byte.
          uleb_next-Keeps (bit_or result (bit_and byte 0x7F * 2 ^ shift % 2 ^ 32)) (shift + 7) byte
            (uleb_loop code fuel (bit_or result (bit_and byte 0x7F * 2 ^ shift % 2 ^ 32))
              (shift + 7))
            (λ below.
              uleb_loop-Keeps fuel (bit_or result (bit_and byte 0x7F * 2 ^ shift % 2 ^ 32))
                (shift + 7) below (omega arith)) in
        (bind-Keeps code (byte_or "unexpected end of uleb immediate" code) _
            (byte_or-Keeps "unexpected end of uleb immediate") rest).at
          s r;
  }

  pub read_uleb-Keeps : Keeps code (read_uleb code)
  unfolding read_uleb
  read_uleb-Keeps = uleb_loop-Keeps 5 0 0 (omega arith) (omega arith)

  pub skip_uleb-Keeps : Keeps code (skip_uleb code)
  unfolding skip_uleb
  skip_uleb-Keeps = search (keeps_rules, read_uleb-Keeps)

  skip_tail-Moved :
      (message : String) (fuel byte : ℕ) (s : BodyState)
      → IsReady code s
      → length code < fuel + s.cursor
      → Moved code s (skip_tail message code fuel byte s)
  unfolding skip_tail Moved fail
  skip_tail-Moved message zero byte s r enough = absurd (omega (arith, r.inside, enough))
  skip_tail-Moved message (suc fuel) byte s r enough =
      if-elim (Moved code s) (bit_and byte 0x80 == 0) (λ _. (refl, omega arith, r.inside))
        λ _. elim (byte_or-cases message s) [
          | inl (a, read, lt) ↦
              let m : Moved code s (ok (a, advance 1 s)) = (refl, omega arith, omega (arith, lt)) in
              let rest =
                skip_tail-Moved message fuel a (advance 1 s)
                  (still-IsReady code s a (advance 1 s) r m) (omega (arith, enough)) in
              rw
                (bind-ok (byte_or message code) (skip_tail message code fuel) s a (advance 1 s)
                  read)
                (then-Moved code s a (advance 1 s) (skip_tail message code fuel a (advance 1 s)) m
                  rest)
          | inr failed ↦
              rw
                (bind-err (byte_or message code) (skip_tail message code fuel) s
                  (WasmError.validation message) failed)
                tt
        ]

  -- Enough fuel for the rest of the code is enough.
  pub skip_tail-Keeps :
      (message : String) (byte : ℕ) → Keeps code (skip_tail message code (length code + 1) byte)
  skip_tail-Keeps message byte = record {
    at = λ s r. skip_tail-Moved message (length code + 1) byte s r (omega arith);
  }

  skip_sleb_tail-Keeps : (byte : ℕ) → Keeps code (skip_sleb_tail code byte)
  unfolding skip_sleb_tail
  skip_sleb_tail-Keeps byte = skip_tail-Keeps "unexpected end of sleb immediate" byte

  pub skip_sleb-Keeps : Keeps code (skip_sleb code)
  unfolding skip_sleb
  skip_sleb-Keeps = search (keeps_rules, byte_or-Keeps, skip_sleb_tail-Keeps)

  pub skip_bytes-Keeps : (len : ℕ) → Keeps code (skip_bytes code len)
  unfolding skip_bytes Moved
  skip_bytes-Keeps len = record {
    at = λ s r.
        if-elim (Moved code s) (ltb (length code - s.cursor) len) (λ _. tt)
          (λ within. (refl, omega arith, ground (arith, within, r.inside)));
  }

  -- The signed integer of a slice is read, or refused, without a panic.
  settled :
      (bytes : List ℕ) (s : BodyState)
      → IsReady code s
      → Moved code s (lift (from_io (read_sleb128 (from_data bytes)).0) s)
  unfolding lift Moved from_data
  settled bytes s r =
      let here = (leb_readers-Settled (from_data bytes) (omega arith)).1 in
      go (read_sleb128 (from_data bytes)).0 here.no_panic here.ended
    where
      go :
          (out : IoResult ℕ)
          → out ≢ IoResult.panic
          → out ≢ IoResult.stuck
          → Moved code s (lift (from_io out) s)
      go (IoResult.ok a) p q = (refl, omega arith, r.inside)
      go (IoResult.err e) p q = tt
      go IoResult.panic p q = absurd (p refl)
      go IoResult.stuck p q = absurd (q refl)

  sleb_of_slice-Moved :
      (start : ℕ) (s : BodyState)
      → IsReady code s
      → start ≤ s.cursor
      → Moved code s (sleb_of_slice code start s)
  unfolding sleb_of_slice
  sleb_of_slice-Moved start s r ordered =
      if-elim (Moved code s) (ltb s.cursor start || ltb (length code) s.cursor)
        (λ out. absurd (ground (arith, out, r.inside, ordered)))
        (λ _. settled (take (s.cursor - start) (drop start code)) s r)

  -- From a start that lies behind the cursor.
  from_start :
      (first start : ℕ) (s : BodyState)
      → IsReady code s
      → start ≤ s.cursor
      → Moved code s (
          (skip_tail "unexpected end of immediate" code (length code + 1) first >>= λ _.
          sleb_of_slice code start)
            s)
  from_start first start s r ordered =
      bind-Moved code (skip_tail "unexpected end of immediate" code (length code + 1) first)
        (λ _. sleb_of_slice code start) s
        ((skip_tail-Keeps "unexpected end of immediate" first).at s r)
        (λ a s' move.
          sleb_of_slice-Moved start s' (still-IsReady code s a s' r move)
            (unfold Moved in omega (arith, ordered, move.1)))

  -- The slice is the first byte and what continues it.
  pub read_signed_leb_continuation-Keeps :
      (first : ℕ) → Keeps code (read_signed_leb_continuation code first)
  unfolding read_signed_leb_continuation start_of ◌>>=◌
  read_signed_leb_continuation-Keeps first = record {
    at = λ s r. from_start first (s.cursor - 1) s r (omega arith);
  }

  pub heap_ref_type-Keeps : (message : String) (h : ℕ) → Keeps code (heap_ref_type message h)
  unfolding heap_ref_type
  heap_ref_type-Keeps message h = search keeps_rules

  pub read_heap_type-Keeps : (message : String) → Keeps code (read_heap_type message code)
  unfolding read_heap_type
  read_heap_type-Keeps message =
      search (keeps_rules, read_byte-Keeps, read_signed_leb_continuation-Keeps, heap_ref_type-Keeps)

  typed_reference-Keeps : Keeps code (typed_reference code)
  unfolding typed_reference
  typed_reference-Keeps = search (keeps_rules, read_heap_type-Keeps)

  indexed_signature-Keeps : (m : Module) (byte : ℕ) → Keeps code (indexed_signature m code byte)
  unfolding indexed_signature
  indexed_signature-Keeps m byte = search (keeps_rules, read_signed_leb_continuation-Keeps)

  signature_of-Keeps :
      (m : Module) (marker : ℕ) (o : Option ValType) → Keeps code (signature_of m code marker o)
  unfolding signature_of
  signature_of-Keeps m marker none =
      search (keeps_rules, typed_reference-Keeps, indexed_signature-Keeps)
  signature_of-Keeps m marker (some t) = search keeps_rules

  pub read_block_signature-Keeps : (m : Module) → Keeps code (read_block_signature m code)
  unfolding read_block_signature
  read_block_signature-Keeps m = search (keeps_rules, read_byte-Keeps, signature_of-Keeps)

  value_type_of-Keeps : (marker : ℕ) (o : Option ValType) → Keeps code (value_type_of code marker o)
  unfolding value_type_of
  value_type_of-Keeps marker none = search (keeps_rules, typed_reference-Keeps)
  value_type_of-Keeps marker (some t) = search keeps_rules

  pub read_value_type_immediate-Keeps : Keeps code (read_value_type_immediate code)
  unfolding read_value_type_immediate
  read_value_type_immediate-Keeps = search (keeps_rules, read_byte-Keeps, value_type_of-Keeps)

  pub ruleset read_rules = (
    read_byte-Keeps, read_uleb-Keeps, skip_uleb-Keeps, skip_sleb-Keeps, skip_bytes-Keeps,
    read_heap_type-Keeps, read_block_signature-Keeps, read_value_type_immediate-Keeps,
  )
