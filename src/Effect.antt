-- ===== src/Effect.antt =====
-- Go functions that change state, return early and may panic. What was changed before a return or
-- a panic stays changed, so the state stands beside every outcome.
pub mod Early
pub mod Keeps
pub mod Safe
use kata_operator.Base.{Option, none, some, List, [], ◌∷◌, Bool, true, false}
use kata_operator.Api.Errors.{Error, Result, ok, err}

-- `done a`: the code went on to its end; `exit r`: the function returned `r`; `panic`: the
-- process ended, since a nil pointer was read or log.Fatalf was called.
pub data Outcome {ℓ} (R A : Type ℓ) : Type ℓ where
  done : A → Outcome R A
  exit : R → Outcome R A
  panic : Outcome R A

-- `Exec S R A`: code inside a function that returns an `R`.
abbrev pub Exec : Type 0 → Type 0 → Type 0 → Type 0
Exec S R A = S → Outcome R A × S

-- What a function returns is a value for its caller.
abbrev pub result : {R A : Type 0} → Outcome A A → Outcome R A
result (done a) = done a
result (exit a) = done a
result panic = panic

module _ {S R A : Type 0} where
  unfoldable pub pure : A → Exec S R A
  pure a s = (done a, s)

  unfoldable pub return : R → Exec S R A
  return r s = (exit r, s)

  unfoldable pub abort : Exec S R A
  abort s = (panic, s)

  -- a call of a function
  unfoldable pub called : Exec S A A → Exec S R A
  called m s = let (r, s') = m s in (result r, s')

module _ {S R A B : Type 0} where
  abbrev pub continue : Outcome R A → (A → Exec S R B) → Exec S R B
  continue (done a) f s = f a s
  continue (exit r) f s = (exit r, s)
  continue panic f s = (panic, s)

  infixl 5 ◌>>=◌ ◌>>◌
  -- opening this opens the three outcomes and the calls too
  unfoldable pub ◌>>=◌ : Exec S R A → (A → Exec S R B) → Exec S R B
  unfolding pure return abort called
  ◌>>=◌ m f s = let (r, s') = m s in continue r f s'

  abbrev pub ◌>>◌ : Exec S R A → Exec S R B → Exec S R B
  m >> k = m >>= λ _. k

module _ {S R : Type 0} where
  -- `if err != nil { return e(err) }`
  abbrev pub or_return : {A : Type 0} → (Error → R) → Result A → Exec S R A
  or_return e (ok a) = pure a
  or_return e (err x) = return (e x)

  -- reading through a pointer
  abbrev pub deref : {A : Type 0} → Option A → Exec S R A
  deref none = abort
  deref (some a) = pure a

  abbrev pub when : Bool → Exec S R (Unit {0}) → Exec S R (Unit {0})
  when true m = m
  when false m = pure tt

  -- `for _, a := range list`
  unfoldable pub for_each : {A : Type 0} → List A → (A → Exec S R (Unit {0})) → Exec S R (Unit {0})
  for_each [] body = pure tt
  for_each (a ∷ rest) body = body a >> for_each rest body
