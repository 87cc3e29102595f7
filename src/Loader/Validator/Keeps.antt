-- ===== src/Loader/Validator/Keeps.antt =====
-- Steps of the validator that keep the control frames and never move the cursor back or out of
-- the code.
pub mod Stack
pub mod Rooted
use wasmtiny.Base.{
  ℕ, ◌+◌, ◌-◌, ◌≤◌, ◌<◌, ◌≡◌, ◌≢◌, refl, sym, ◌∙◌, Bool, true, false, Option, none, some, List, [],
  ◌∷◌, ◌++◌, length, String, arith, pop_back, if-elim, leb, ltb, ◌==◌, if◌then◌else◌, get_elem?,
  get_elem?-ne-none, Option-cases, inl, inr,
}
use wasmtiny.Runtime.Error.{WasmError}
use wasmtiny.Loader.Validator.{
  Checked, ok, err, panic, stuck, Check, BodyState, ValidationFrame, ◌>>=◌, ◌>>◌, pure, fail,
  expect, require, top_frame, require_types, require_exact_height, pop_types, pop_type, pop_any,
  push_types, truncate_types, stack_height, label_types_of, validate_unary_numeric,
  validate_binary_numeric, top_frame_or, last_of, popped, drop_types, pop_from, ends_with, unwrap,
  set_stack,
}

-- There is a frame, and the cursor is inside the code.
pub record IsReady (code : List ℕ) (s : BodyState) : Type 0 where
  pub framed : s.control_frames ≢ []
  pub inside : s.cursor ≤ length code

-- How a step may end: with the frames as they were and the cursor not moved back, or with an
-- error of its own.
unfoldable pub Moved : {A : Type 0} → List ℕ → BodyState → Checked (A × BodyState) → Type 0
Moved code s (ok (a, s')) =
    (s'.control_frames ≡ s.control_frames) × (s.cursor ≤ s'.cursor) × (s'.cursor ≤ length code)
Moved code s (err e) = Unit
Moved code s panic = ⊥
Moved code s stuck = ⊥

pub record Keeps {A : Type 0} (code : List ℕ) (m : Check A) : Type 0 where
  pub at : (s : BodyState) → IsReady code s → Moved code s (m s)

module _ {A B : Type 0} (m : Check A) (f : A → Check B) (s : BodyState) where
  -- How a sequence goes on behind its first step.
  pub bind-ok : (a : A) (s' : BodyState) → m s ≡ ok (a, s') → (m >>= f) s ≡ f a s'
  unfolding ◌>>=◌
  bind-ok a s' e = rw (◌>>=◌, e) refl

  pub bind-err : (e : WasmError) → m s ≡ err e → (m >>= f) s ≡ err e
  unfolding ◌>>=◌
  bind-err e h = rw (◌>>=◌, h) refl

inverted :
    {A B : Type 0} (f : A → Check B) (out : Checked (A × BodyState)) (s s' : BodyState) (b : B)
    → ((λ _. out) >>= f) s ≡ ok (b, s')
    → (a : A) × (t : BodyState) × (out ≡ ok (a, t)) × (f a t ≡ ok (b, s'))
unfolding ◌>>=◌
inverted f (ok (a, t)) s s' b e = (a, t, refl, e)
inverted f (err x) s s' b e = absurd cc
inverted f panic s s' b e = absurd cc
inverted f stuck s s' b e = absurd cc

-- Both steps of an accepted sequence are accepted.
pub bind-inverted :
    {A B : Type 0} (m : Check A) (f : A → Check B) (s s' : BodyState) (b : B)
    → (m >>= f) s ≡ ok (b, s')
    → (a : A) × (t : BodyState) × (m s ≡ ok (a, t)) × (f a t ≡ ok (b, s'))
unfolding ◌>>=◌
bind-inverted m f s s' b e = inverted f (m s) s s' b e

module _ (code : List ℕ) where
  pub still-IsReady :
      {A : Type 0} (s : BodyState) (a : A) (s' : BodyState)
      → IsReady code s
      → Moved code s (ok (a, s'))
      → IsReady code s'
  unfolding Moved
  still-IsReady s a s' r m = record { framed = λ e. r.framed (sym m.0 ∙ e); inside = m.2 }

  pub then-Moved :
      {A B : Type 0} (s : BodyState) (a : A) (s' : BodyState) (out : Checked (B × BodyState))
      → Moved code s (ok (a, s'))
      → Moved code s' out
      → Moved code s out
  unfolding Moved
  then-Moved s a s' (ok (b, s'')) m n = (n.0 ∙ m.0, omega (arith, m.1, n.1), n.2)
  then-Moved s a s' (err e) m n = tt
  then-Moved s a s' panic m n = n
  then-Moved s a s' stuck m n = n

  result-Moved :
      {A B : Type 0} (f : A → Check B) (s : BodyState) (out : Checked (A × BodyState))
      → Moved code s out
      → ((a : A) (s' : BodyState) → Moved code s (ok (a, s')) → Moved code s' (f a s'))
      → Moved code s (((λ _. out) >>= f) s)
  unfolding ◌>>=◌ Moved
  result-Moved f s (ok (a, s')) m k = then-Moved s a s' (f a s') m (k a s' m)
  result-Moved f s (err e) m k = tt
  result-Moved f s panic m k = m
  result-Moved f s stuck m k = m

  -- The second step may use how the first one moved.
  pub bind-Moved :
      {A B : Type 0} (m : Check A) (f : A → Check B) (s : BodyState)
      → Moved code s (m s)
      → ((a : A) (s' : BodyState) → Moved code s (ok (a, s')) → Moved code s' (f a s'))
      → Moved code s ((m >>= f) s)
  unfolding ◌>>=◌
  bind-Moved m f s k l = result-Moved f s (m s) k l

  pub bind-Keeps :
      {A B : Type 0} (m : Check A) (f : A → Check B)
      → Keeps code m
      → ((a : A) → Keeps code (f a))
      → Keeps code (m >>= f)
  bind-Keeps m f k l = record {
    at =
        λ s r. bind-Moved m f s (k.at s r) (λ a s' move. (l a).at s' (still-IsReady s a s' r move));
  }

  pub pure-Keeps : {A : Type 0} (a : A) → Keeps code (pure a)
  unfolding pure Moved
  pure-Keeps a = record { at = λ s r. (refl, omega arith, r.inside) }

  pub fail-Keeps : {A : Type 0} (message : String) → Keeps code (fail {A = A} message)
  unfolding fail Moved
  fail-Keeps message = record { at = λ s r. tt }

  pub if-Keeps :
      {A : Type 0} (b : Bool) (m n : Check A)
      → Keeps code m
      → Keeps code n
      → Keeps code (if b then m else n)
  if-Keeps true m n k l = k
  if-Keeps false m n k l = l

  pub expect-Keeps : {A : Type 0} (message : String) (o : Option A) → Keeps code (expect message o)
  unfolding expect
  expect-Keeps message none = fail-Keeps message
  expect-Keeps message (some a) = pure-Keeps a

  pub require-Keeps : (message : String) (b : Bool) → Keeps code (require message b)
  unfolding require
  require-Keeps message true = pure-Keeps tt
  require-Keeps message false = fail-Keeps message

  pub ruleset keeps_rules =
      (bind-Keeps, pure-Keeps, fail-Keeps, if-Keeps, expect-Keeps, require-Keeps)
