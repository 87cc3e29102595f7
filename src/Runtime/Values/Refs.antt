-- ===== src/Runtime/Values/Refs.antt =====
-- Native and module-local function references of values.rs.
use wasmtiny.Base.{ℕ, ◌+◌, ◌%◌, ◌^◌, ◌<◌, ◌≤◌, ◌≡◌, none, some, arith, bit_or}
use wasmtiny.Base.Bits.{bit_or-shifted, bit_and-low_mask, bit_and-pow}
use wasmtiny.Runtime.Values.{
  WasmValue, native_func_ref, native_func_handle, local_func_ref, funcref_native_bit,
}

bit_or-native_bit : (h : ℕ) → h < 2 ^ 31 → bit_or h funcref_native_bit ≡ h + 2 ^ 31
bit_or-native_bit h p = bit_or-shifted 31 h 1 p

-- A handle below 2 ^ 31 survives the encoding as a funcref, which is then no module-local
-- reference.
pub native_func_handle-native_func_ref :
    (h : ℕ)
    → h < 2 ^ 31
    → (native_func_handle (native_func_ref h) ≡ some h)
      × (local_func_ref (native_func_ref h) ≡ none)
unfolding native_func_handle native_func_ref local_func_ref
native_func_handle-native_func_ref h p =
    rw (bit_or-native_bit h p)
      (ground (arith, bit_and-pow 31 (h + 2 ^ 31), bit_and-low_mask 31 (h + 2 ^ 31)))

-- A funcref is native or module-local and never both: exactly one of the two readings answers.
pub func_ref_split :
    (raw : ℕ)
    → raw < 2 ^ 32
    → (raw < 2 ^ 31
        → (local_func_ref (WasmValue.func_ref raw) ≡ some raw)
          × (native_func_handle (WasmValue.func_ref raw) ≡ none))
      × (2 ^ 31 ≤ raw
          → (local_func_ref (WasmValue.func_ref raw) ≡ none)
            × (native_func_handle (WasmValue.func_ref raw) ≡ some (raw % 2 ^ 31)))
unfolding native_func_handle local_func_ref
func_ref_split raw h = (
  λ p. ground (arith, bit_and-pow 31 raw, bit_and-low_mask 31 raw),
  λ p. ground (arith, bit_and-pow 31 raw, bit_and-low_mask 31 raw),
)
