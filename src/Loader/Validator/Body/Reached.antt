-- ===== src/Loader/Validator/Body/Reached.antt =====
-- crates/core/src/loader/validator.rs: the rounds of `validate_function_body` as steps.
use wasmtiny.Base.{ℕ, ◌+◌, ◌≡◌, ◌≢◌, Bool, true, false, some, List, length, get_elem?}
use wasmtiny.Runtime.Types.{ValType}
use wasmtiny.Runtime.Module.{Module}
use wasmtiny.Loader.Validator.{ok, BodyState}
use wasmtiny.Loader.Validator.Control.{finish_frame}
use wasmtiny.Loader.Validator.Control.Finish.{IsFinal}
use wasmtiny.Loader.Validator.Body.{validate_opcode}

-- The state behind the opcode.
abbrev pub opcode_taken : BodyState → BodyState
opcode_taken s = record s { cursor = s.cursor + 1 }

-- The states that the validator comes to from the first one, an accepted instruction or an inner
-- `end` at a time.
pub data Reached (allocates : ℕ → Bool) (m : Module) (code : List ℕ) (locals : List ValType)
    (first : BodyState) : BodyState → Type 0 where
  here : Reached allocates m code locals first first
  instruction :
      (s s' : BodyState) (opcode : ℕ)
      → Reached allocates m code locals first s
      → get_elem? code s.cursor ≡ some opcode
      → opcode ≢ 0x0B
      → validate_opcode allocates m code locals opcode (opcode_taken s) ≡ ok (tt, s')
      → Reached allocates m code locals first s'
  inner_end :
      (s s' : BodyState)
      → Reached allocates m code locals first s
      → get_elem? code s.cursor ≡ some 0x0B
      → finish_frame (opcode_taken s) ≡ ok (false, s')
      → Reached allocates m code locals first s'

-- The last `end`, which is the last byte, closes the frame of the function over its results.
abbrev pub IsLast : List ℕ → List ValType → BodyState → BodyState → Type 0
IsLast code results s last =
    (get_elem? code last.cursor ≡ some 0x0B)
    × (last.cursor + 1 ≡ length code)
    × (finish_frame (opcode_taken last) ≡ ok (true, s))
    × IsFinal results (opcode_taken last)

-- How an accepted body ends, from a state that its instructions lead to.
pub record Accepted (allocates : ℕ → Bool) (m : Module) (code : List ℕ)
    (locals results : List ValType) (first s : BodyState) : Type 0 where
  pub stack : s.type_stack ≡ results
  pub at_end : s.cursor ≡ length code
  pub last : BodyState
  pub reached : Reached allocates m code locals first last
  pub closed : IsLast code results s last
