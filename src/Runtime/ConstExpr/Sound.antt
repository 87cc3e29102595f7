-- ===== src/Runtime/ConstExpr/Sound.antt =====
-- A constant expression that the validator accepts evaluates to a value of the type that it found.
use wasmtiny.Base.{
  ℕ, ◌-◌, ◌≤◌, ◌<◌, ◌≡◌, refl, ap, false, Option, none, some, List, [], ◌∷◌, ◌++◌, map, length,
  get_elem?, get_elem?-ne-none, ltb, ◌==◌, ◌||◌, if◌then◌else◌, arith, Option-cases, Bool-cases,
  inl, inr, if-elim,
}
use wasmtiny.Runtime.Error.{WasmError}
use wasmtiny.Runtime.Types.{ValType, NumType, RefType, GlobalType}
use wasmtiny.Runtime.Values.{WasmValue, val_type, native_func_ref}
use wasmtiny.Runtime.Module.{Module, func_count}
use wasmtiny.Loader.Reader.{
  BinaryReader, IoResult, read_u8, read_sleb128_i64, read_uleb128, read_sleb128, read_f32, read_f64,
}
use wasmtiny.Loader.Reader.OneByte.{
  one_byte, read_sleb128_i64-one_byte, read_sleb128_i64-err, read_sleb128_i64-panic,
  read_sleb128_i64-stuck,
}
use wasmtiny.Loader.Validator.{Checked, ok, err, panic, stuck}
use wasmtiny.Loader.Validator.Immediates.{wasm_error}
use wasmtiny.Loader.Validator.Opcodes.{within}
use wasmtiny.Loader.Validator.ConstExpr.{
  reading, Place, usable_global, null_type, push_null, type_step,
}
use wasmtiny.Runtime.ConstExpr.{
  load_error, global_value, func_value, bad_null, null_value, value_step,
}
use wasmtiny.Runtime.ConstExpr.Follows.{
  Follows, if-both, reading-Follows, pushed-Follows, binary_i32-Follows, binary_i64-Follows,
}

-- Where the value refuses the heap type, nothing is asked of the rest.
pub refused-Follows : (out : Checked (Place ValType)) → Follows out (err bad_null)
unfolding Follows
refused-Follows (ok p) = refl
refused-Follows (err e) = tt
refused-Follows panic = tt
refused-Follows stuck = tt

-- A heap type of one byte.
null-Follows :
    (r : BinaryReader) (b : ℕ) (values : List WasmValue)
    → b < 0x80
    → Follows (push_null (null_type (one_byte b)) r (map val_type values)) (null_value b r values)
null-Follows r b values h =
    let at = λ (o : Option RefType) (e : null_type (one_byte b) ≡ o).
      ap (λ t. push_null t r (map val_type values)) e in
    let P = Follows (push_null (null_type (one_byte b)) r (map val_type values)) in
    if-elim P (b == 0x70)
      (λ e.
        rw (at (some RefType.func_ref) (ground (arith, e))) (
          pushed-Follows r values (WasmValue.null_ref RefType.func_ref) _
            (unfold val_type in refl)))
      λ _.
        if-elim P (b == 0x6F)
          (λ e. rw (at (some RefType.extern_ref) (ground (arith, e))) (
            pushed-Follows r values (WasmValue.null_ref RefType.extern_ref) _
              (unfold val_type in refl)))
          λ _.
            if-elim P (b == 0x63 || b == 0x64)
              (λ e. rw (at none (ground (arith, e))) (unfold Follows in tt))
              λ _.
                if-elim P (ltb b 0x40)
                  (λ e. rw (at (some RefType.func_ref) (ground (arith, e))) (
                    pushed-Follows r values (WasmValue.null_ref RefType.func_ref) _
                      (unfold val_type in refl)))
                  (λ _. refused-Follows _)

-- A first byte that is continued.
long-Follows :
    (b : ℕ) (values : List WasmValue) (r' : BinaryReader)
    → 0x80 ≤ b
    → (out : IoResult ℕ × BinaryReader)
    → Follows
        (reading wasm_error out (λ h s. push_null (null_type h) s (map val_type values)))
        (null_value b r' values)
long-Follows b values r' h out =
    let e : null_value b r' values ≡ err bad_null = ground (arith, h) in rw e (refused-Follows _)

ref_null-Follows :
    (r : BinaryReader) (values : List WasmValue) (out : IoResult ℕ) (r' : BinaryReader)
    → read_u8 r ≡ (out, r')
    → Follows
        (reading wasm_error
          (read_sleb128_i64 r)
          (λ h s. push_null (null_type h) s (map val_type values)))
        (reading load_error (out, r') (λ byte s. null_value byte s values))
ref_null-Follows r values (IoResult.err x) r' e =
    rw (read_sleb128_i64-err r r' x e) (unfold Follows in tt)
ref_null-Follows r values IoResult.panic r' e =
    rw (read_sleb128_i64-panic r r' e) (unfold Follows in tt)
ref_null-Follows r values IoResult.stuck r' e =
    rw (read_sleb128_i64-stuck r r' e) (unfold Follows in tt)
ref_null-Follows r values (IoResult.ok b) r' e = elim (Bool-cases (ltb b 0x80)) [
  | inl short ↦
      rw (read_sleb128_i64-one_byte r r' b e (ground (arith, short)))
        (null-Follows r' b values (ground (arith, short)))
  | inr long ↦ long-Follows b values r' (ground (arith, long)) (read_sleb128_i64 r)
]

-- The globals that the validator allows have values of their types, and every function has a
-- handle.
pub record AreAvailable (m : Module) (types : List GlobalType) (globals : List (Option WasmValue))
    (func_refs : List ℕ) : Type 0 where
  pub typed :
      (idx : ℕ) (t : GlobalType)
      → get_elem? types idx ≡ some t
      → t.mutable ≡ false
      → (v : WasmValue) × (get_elem? globals idx ≡ some (some v)) × (val_type v ≡ t.content_type)
  pub handles : func_count m ≤ length func_refs

module _ (m : Module) (types : List GlobalType) (globals : List (Option WasmValue))
    (func_refs : List ℕ) (available : AreAvailable m types globals func_refs) where
  global_get-Follows :
      (idx : ℕ) (r : BinaryReader) (values : List WasmValue)
      → Follows
          (usable_global (get_elem? types idx) r (map val_type values))
          (global_value (get_elem? globals idx) r values)
  global_get-Follows idx r values = elim (Option-cases (get_elem? types idx)) [
    | inl absent ↦ rw absent (unfold Follows in tt)
    | inr (t, found) ↦ elim (Bool-cases t.mutable) [
      | inl mutable ↦ rw (found, mutable) (unfold Follows in tt)
      | inr constant ↦
          let (v, at, typed) = available.typed idx t found constant in
          rw (found, constant, at) (pushed-Follows r values v t.content_type typed)
    ]
  ]

  ref_func-Follows :
      (idx : ℕ) (r : BinaryReader) (values : List WasmValue)
      → Follows
          (if ltb idx (func_count m)
            then ok (r, map val_type values ++ (ValType.ref RefType.func_ref ∷ []))
            else err (WasmError.validation "constant expression references invalid function {}"))
          (func_value (get_elem? func_refs idx) r values)
  ref_func-Follows idx r values =
      if-elim (λ out. Follows out (func_value (get_elem? func_refs idx) r values))
        (ltb idx (func_count m))
        (λ below. elim (Option-cases (get_elem? func_refs idx)) [
          | inl absent ↦
              absurd
                (get_elem?-ne-none func_refs idx (ground (arith, below, available.handles)) absent)
          | inr (handle, found) ↦ rw found (
              pushed-Follows r values (native_func_ref handle) _
                (unfold val_type native_func_ref in refl))
        ])
        (λ _. unfold Follows in tt)

  pub step-Follows :
      (opcode : ℕ) (r : BinaryReader) (values : List WasmValue)
      → Follows
          (type_step m types opcode r (map val_type values))
          (value_step globals func_refs opcode r values)
  unfolding type_step value_step
  step-Follows opcode r values =
      if-both Follows (opcode == 0x23)
        (reading-Follows (read_uleb128 r) _ _ (λ idx s. global_get-Follows idx s values))
        λ _.
          if-both Follows (opcode == 0x41)
            (reading-Follows (read_sleb128 r) _ _ (λ n s.
              pushed-Follows s values (WasmValue.i32 n) (ValType.num NumType.i32)
                (unfold val_type in refl)))
            λ _.
              if-both Follows (opcode == 0x42)
                (reading-Follows (read_sleb128_i64 r) _ _ (λ n s.
                  pushed-Follows s values (WasmValue.i64 n) (ValType.num NumType.i64)
                    (unfold val_type in refl)))
                λ _.
                  if-both Follows (opcode == 0x43)
                    (reading-Follows (read_f32 r) _ _ (λ n s.
                      pushed-Follows s values (WasmValue.f32 n) (ValType.num NumType.f32)
                        (unfold val_type in refl)))
                    λ _.
                      if-both Follows (opcode == 0x44)
                        (reading-Follows (read_f64 r) _ _ (λ n s.
                          pushed-Follows s values (WasmValue.f64 n) (ValType.num NumType.f64)
                            (unfold val_type in refl)))
                        λ _.
                          if-both Follows (opcode == 0xD0)
                            (ref_null-Follows r values (read_u8 r).0 (read_u8 r).1 refl)
                            λ _.
                              if-both Follows (opcode == 0xD2)
                                (reading-Follows (read_uleb128 r) _ _
                                  (λ idx s. ref_func-Follows idx s values))
                                λ _.
                                  if-both Follows (within 0x6A 0x6C opcode)
                                    (binary_i32-Follows (opcode - 0x6A) r values)
                                    λ _.
                                      if-both Follows (within 0x7C 0x7E opcode)
                                        (binary_i64-Follows (opcode - 0x7C) r values)
                                        λ _. unfold Follows in tt
