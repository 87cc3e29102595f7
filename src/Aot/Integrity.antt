-- ===== src/Aot/Integrity.antt =====
-- crates/core/src/aot/verifier.rs: verification of the integrity section.
-- The hash is a parameter: of SHA-512 the code relies on the length of its digests alone.
use wasmtiny.Base.{
  ℕ, ◌≡◌, ◌↔◌, refl, sym, ap, ◌∙◌, Bool, true, false, not, ◌&&◌, List, [], ◌∷◌, ◌++◌, length, take,
  drop, ltb, ◌==◌, if◌then◌else◌, arith, length-append, take-append-drop,
}
use wasmtiny.Runtime.Error.{Result, ok, err, WasmError}

abbrev pub integrity_sha512 : ℕ
integrity_sha512 = 1

abbrev pub sha512_len : ℕ
sha512_len = 64

unfoldable pub bytes_eq : List ℕ → List ℕ → Bool
bytes_eq [] [] = true
bytes_eq [] (y ∷ ys) = false
bytes_eq (x ∷ xs) [] = false
bytes_eq (x ∷ xs) (y ∷ ys) = x == y && bytes_eq xs ys

module _ (sha512 : List ℕ → List ℕ) where
  -- `rest` are the bytes behind the two fields of the payload; with an empty key id the digest
  -- starts there.
  abbrev verify_digest : List ℕ → List ℕ → Result (Unit {0})
  verify_digest preceding rest =
      if ltb (length rest) sha512_len
      then err (WasmError.load "integrity payload too short for SHA512 ({} bytes)")
      else if bytes_eq (take sha512_len rest) (sha512 (preceding ++ (integrity_sha512 ∷ 0 ∷ [])))
      then ok tt
      else err (WasmError.load "integrity verification failed: digest mismatch")

  abbrev verify_sha512 : List ℕ → List ℕ → Result (Unit {0})
  verify_sha512 preceding [] = err (WasmError.load "integrity payload lacks a key-id length")
  verify_sha512 preceding (key_id_len ∷ rest) =
      if not (key_id_len == 0)
      then err (
          WasmError.load
            "integrity scheme {INTEGRITY_SHA512:#04x} (SHA512) is unkeyed but declares a {key_id_len}-byte key id")
      else verify_digest preceding rest

  unfoldable pub verify_integrity : List ℕ → List ℕ → Result (Unit {0})
  verify_integrity preceding [] = err (WasmError.load "integrity section has an empty payload")
  verify_integrity preceding (scheme ∷ rest) =
      if scheme == integrity_sha512
      then verify_sha512 preceding rest
      else err (WasmError.load "unsupported integrity scheme {other:#04x}")

  bytes_eq_iff : (xs ys : List ℕ) → (bytes_eq xs ys ≡ true) ↔ (xs ≡ ys)
  unfolding bytes_eq
  bytes_eq_iff [] [] = (λ _. refl, λ _. refl)
  bytes_eq_iff [] (y ∷ ys) = (λ e. absurd cc, λ e. absurd cc)
  bytes_eq_iff (x ∷ xs) [] = (λ e. absurd cc, λ e. absurd cc)
  bytes_eq_iff (x ∷ xs) (y ∷ ys) = (
    λ e. ground (arith, e, (bytes_eq_iff xs ys).0),
    λ e.
        let head : x ≡ y = cc in
        let tail : xs ≡ ys = cc in ground (arith, head, (bytes_eq_iff xs ys).1 tail),
  )

  take_exactly : (xs ys : List ℕ) → take (length xs) (xs ++ ys) ≡ xs
  take_exactly [] ys = refl
  take_exactly (x ∷ xs) ys = ap (◌∷◌ x) (take_exactly xs ys)

  -- The payload is accepted exactly when it is the scheme, an empty key id and the digest of all
  -- that precedes it, with anything behind the digest. (Digests have 64 bytes.)
  pub verify_integrity_iff :
      (preceding payload : List ℕ)
      → ((bytes : List ℕ) → length (sha512 bytes) ≡ sha512_len)
      → (verify_integrity preceding payload ≡ ok tt) ↔ (
          (rest : List ℕ) × (payload
            ≡ integrity_sha512 ∷ 0 ∷ (sha512 (preceding ++ (integrity_sha512 ∷ 0 ∷ [])) ++ rest)))
  unfolding verify_integrity
  verify_integrity_iff preceding payload size = (forth payload, back)
    where
      forth :
          (payload : List ℕ)
          → verify_integrity preceding payload ≡ ok tt
          → (rest : List ℕ) × (payload
              ≡ integrity_sha512 ∷ 0 ∷ (sha512 (preceding ++ (integrity_sha512 ∷ 0 ∷ [])) ++ rest))
      forth [] h = absurd cc
      forth (scheme ∷ []) h = absurd (ground (arith, h))
      forth (scheme ∷ key ∷ rest) h =
          let digest = sha512 (preceding ++ (integrity_sha512 ∷ 0 ∷ [])) in
          let s : scheme ≡ 1 = ground (arith, h) in
          let k : key ≡ 0 = ground (arith, h) in
          let same : bytes_eq (take sha512_len rest) digest ≡ true = ground (arith, h) in
          let front : take sha512_len rest ≡ digest =
            (bytes_eq_iff (take sha512_len rest) digest).0 same in
          let whole : rest ≡ digest ++ drop sha512_len rest =
            sym (take-append-drop sha512_len rest) ∙ ap (λ d. d ++ drop sha512_len rest) front in
          (drop sha512_len rest, rw (s, k) (ap (λ r. 1 ∷ 0 ∷ r) whole))

      back :
          ((rest : List ℕ) × (payload
              ≡ integrity_sha512 ∷ 0 ∷ (sha512 (preceding ++ (integrity_sha512 ∷ 0 ∷ [])) ++ rest)))
          → verify_integrity preceding payload ≡ ok tt
      back (rest, e) =
          let digest = sha512 (preceding ++ (integrity_sha512 ∷ 0 ∷ [])) in
          let len = size (preceding ++ (integrity_sha512 ∷ 0 ∷ [])) in
          let short : ltb (length (digest ++ rest)) sha512_len ≡ false =
            ground (arith, length-append digest rest, len) in
          let front : take sha512_len (digest ++ rest) ≡ digest =
            ap (λ n. take n (digest ++ rest)) (sym len) ∙ take_exactly digest rest in
          let same : bytes_eq (take sha512_len (digest ++ rest)) digest ≡ true =
            (bytes_eq_iff (take sha512_len (digest ++ rest)) digest).1 front in
          rw e (rw (short, same))
