-- ===== src/Loader/Validator/Keeps/Rooted.antt =====
-- Steps of the validator that keep the frame of the function at the bottom of the frames.
use mathlib.Core.Path.{subst}
use wasmtiny.Base.{
  ℕ, ◌≤◌, ◌≡◌, sym, ◌∙◌, Bool, true, false, some, List, [], ◌∷◌, ◌++◌, length, arith, pop_back,
  Option-cases, inl, inr, if◌then◌else◌,
}
use wasmtiny.Runtime.Types.{ValType}
use wasmtiny.Loader.Validator.{
  Checked, ok, err, panic, stuck, Check, BodyState, ValidationFrame, ◌>>=◌,
}
use wasmtiny.Loader.Validator.Keeps.{IsReady, Moved, Keeps}
use wasmtiny.Loader.Validator.Keeps.Stack.{pop_back-ne-none}

-- The bottom frame is one of height 0 with the given results.
unfoldable pub IsRooted : List ValType → List ValidationFrame → Type 0
IsRooted results [] = ⊥
IsRooted results (frame ∷ _) = (frame.height ≡ 0) × (frame.results ≡ results)

pub record IsRunning (code : List ℕ) (results : List ValType) (s : BodyState) : Type 0 where
  pub rooted : IsRooted results s.control_frames
  pub inside : s.cursor ≤ length code

-- How an instruction may end.
unfoldable pub Ran :
    {A : Type 0} → List ℕ → List ValType → BodyState → Checked (A × BodyState) → Type 0
unfolding IsRooted
Ran code results s (ok (a, s')) =
    IsRooted results s'.control_frames × (s.cursor ≤ s'.cursor) × (s'.cursor ≤ length code)
Ran code results s (err e) = Unit
Ran code results s panic = ⊥
Ran code results s stuck = ⊥

pub record Runs {A : Type 0} (code : List ℕ) (results : List ValType) (m : Check A) : Type 0 where
  pub at : (s : BodyState) → IsRunning code results s → Ran code results s (m s)

pub pop_back-eq :
    {A : Type 0} (xs : List A) {x : A} {ys : List A}
    → pop_back xs ≡ some (x, ys)
    → xs ≡ ys ++ (x ∷ [])
unfolding pop_back
pop_back-eq [] h = cc
pop_back-eq (a ∷ []) h = cc
pop_back-eq (a ∷ b ∷ xs) h = elim (Option-cases (pop_back (b ∷ xs))) [
  | inl empty ↦ absurd (pop_back-ne-none (b ∷ xs) (λ e. absurd cc) empty)
  | inr ((last, rest), found) ↦ let ih = pop_back-eq (b ∷ xs) found in ground (arith, found, h, ih)
]

-- Another frame in place of the top one, and one more.
pub replaced-IsRooted :
    (results : List ValType) (rest : List ValidationFrame) (frame frame' : ValidationFrame)
    → frame'.height ≡ frame.height
    → frame'.results ≡ frame.results
    → IsRooted results (rest ++ (frame ∷ []))
    → IsRooted results (rest ++ (frame' ∷ []))
unfolding IsRooted
replaced-IsRooted results [] frame frame' h r root = (h ∙ root.0, r ∙ root.1)
replaced-IsRooted results (f ∷ rest) frame frame' h r root = root

pub pushed-IsRooted :
    (results : List ValType) (frames more : List ValidationFrame)
    → IsRooted results frames
    → IsRooted results (frames ++ more)
unfolding IsRooted
pushed-IsRooted results [] more root = absurd root
pushed-IsRooted results (f ∷ frames) more root = root

module _ (code : List ℕ) (results : List ValType) where
  pub ready : (s : BodyState) → IsRunning code results s → IsReady code s
  unfolding IsRooted
  ready s r = record { framed = λ e. subst (IsRooted results) e r.rooted; inside = r.inside }

  pub Moved-Ran :
      {A : Type 0} (s : BodyState) (out : Checked (A × BodyState))
      → IsRunning code results s
      → Moved code s out
      → Ran code results s out
  unfolding Moved Ran
  Moved-Ran s (ok (a, s')) r m = (subst (IsRooted results) (sym m.0) r.rooted, m.1, m.2)
  Moved-Ran s (err e) r m = tt
  Moved-Ran s panic r m = m
  Moved-Ran s stuck r m = m

  pub Keeps-Runs : {A : Type 0} (m : Check A) → Keeps code m → Runs code results m
  Keeps-Runs m k = record { at = λ s r. Moved-Ran s (m s) r (k.at s (ready s r)) }

  pub then-Ran :
      {A B : Type 0} (s : BodyState) (a : A) (s' : BodyState) (out : Checked (B × BodyState))
      → Ran code results s (ok (a, s'))
      → Ran code results s' out
      → Ran code results s out
  unfolding Ran
  then-Ran s a s' (ok (b, s'')) m n = (n.0, omega (arith, m.1, n.1), n.2)
  then-Ran s a s' (err e) m n = tt
  then-Ran s a s' panic m n = n
  then-Ran s a s' stuck m n = n

  pub still-IsRunning :
      {A : Type 0} (s : BodyState) (a : A) (s' : BodyState)
      → Ran code results s (ok (a, s'))
      → IsRunning code results s'
  unfolding Ran
  still-IsRunning s a s' m = record { rooted = m.0; inside = m.2 }

  result-Ran :
      {A B : Type 0} (f : A → Check B) (s : BodyState) (out : Checked (A × BodyState))
      → Ran code results s out
      → ((a : A) (s' : BodyState) → Ran code results s (ok (a, s')) → Ran code results s' (f a s'))
      → Ran code results s (((λ _. out) >>= f) s)
  unfolding ◌>>=◌ Ran
  result-Ran f s (ok (a, s')) m k = then-Ran s a s' (f a s') m (k a s' m)
  result-Ran f s (err e) m k = tt
  result-Ran f s panic m k = m
  result-Ran f s stuck m k = m

  pub bind-Ran :
      {A B : Type 0} (m : Check A) (f : A → Check B) (s : BodyState)
      → Ran code results s (m s)
      → ((a : A) (s' : BodyState) → Ran code results s (ok (a, s')) → Ran code results s' (f a s'))
      → Ran code results s ((m >>= f) s)
  unfolding ◌>>=◌
  bind-Ran m f s k l = result-Ran f s (m s) k l

  pub bind-Runs :
      {A B : Type 0} (m : Check A) (f : A → Check B)
      → Runs code results m
      → ((a : A) → Runs code results (f a))
      → Runs code results (m >>= f)
  bind-Runs m f k l = record {
    at = λ s r. bind-Ran m f s (k.at s r) (λ a s' ran. (l a).at s' (still-IsRunning s a s' ran));
  }

  pub if-Runs :
      {A : Type 0} (b : Bool) (m n : Check A)
      → Runs code results m
      → Runs code results n
      → Runs code results (if b then m else n)
  if-Runs true m n k l = k
  if-Runs false m n k l = l
