-- ===== src/Effect/Safe.antt =====
-- Code that reads no nil pointer, in whatever state it starts.
use kata_operator.Base.{Bool, true, false, List, [], ◌∷◌, if◌then◌else◌}
use kata_operator.Api.Errors.{Error, Result, ok, err}
use kata_operator.Effect.{
  Outcome, done, exit, panic, Exec, pure, return, called, result, continue, ◌>>=◌, or_return, when,
  for_each,
}

abbrev pub Runs : {R A : Type 0} → Outcome R A → Type 0
Runs (done _) = Unit
Runs (exit _) = Unit
Runs panic = ⊥

-- However it starts, the code goes on to its end or returns.
pub record IsSafe {S R A : Type 0} (m : Exec S R A) : Type 0 where
  pub runs : (s : S) → Runs (m s).0

Runs-result : {A : Type 0} (R : Type 0) (o : Outcome A A) → Runs o → Runs (result {R = R} o)
Runs-result R (done _) r = tt
Runs-result R (exit _) r = tt
Runs-result R panic r = r

module _ {S R A : Type 0} where
  pub IsSafe-pure : (a : A) → IsSafe (pure {S = S} {R = R} a)
  unfolding pure
  IsSafe-pure a = record { runs = λ s. tt }

  pub IsSafe-return : (r : R) → IsSafe (return {S = S} {A = A} r)
  unfolding return
  IsSafe-return r = record { runs = λ s. tt }

  pub IsSafe-called : (m : Exec S A A) → IsSafe m → IsSafe (called {R = R} m)
  unfolding called
  IsSafe-called m safe = record { runs = λ s. Runs-result R (m s).0 (safe.runs s) }

  pub IsSafe-or_return : (e : Error → R) (x : Result A) → IsSafe (or_return {S = S} e x)
  IsSafe-or_return e (ok a) = IsSafe-pure a
  IsSafe-or_return e (err x) = IsSafe-return (e x)

  pub IsSafe-if : (b : Bool) (m n : Exec S R A) → IsSafe m → IsSafe n → IsSafe (if b then m else n)
  IsSafe-if true m n safe_m safe_n = safe_m
  IsSafe-if false m n safe_m safe_n = safe_n

module _ {S R : Type 0} where
  pub IsSafe-when : (b : Bool) (m : Exec S R (Unit {0})) → IsSafe m → IsSafe (when b m)
  IsSafe-when true m safe = safe
  IsSafe-when false m safe = record { runs = λ s. unfold pure in tt }

module _ {S R A B : Type 0} where
  Runs-continue :
      (o : Outcome R A) (next : A → Exec S R B) (s : S)
      → Runs o
      → ((a : A) → IsSafe (next a))
      → Runs (continue o next s).0
  Runs-continue (done a) next s r safe = (safe a).runs s
  Runs-continue (exit x) next s r safe = tt
  Runs-continue panic next s r safe = r

  pub IsSafe-bind :
      (first : Exec S R A) (next : A → Exec S R B)
      → IsSafe first
      → ((a : A) → IsSafe (next a))
      → IsSafe (first >>= next)
  unfolding ◌>>=◌
  IsSafe-bind first next safe goes_on = record {
    runs = λ s. Runs-continue (first s).0 next (first s).1 (safe.runs s) goes_on;
  }

module _ {S R A : Type 0} where
  pub IsSafe-for_each :
      (list : List A) (body : A → Exec S R (Unit {0}))
      → ((a : A) → IsSafe (body a))
      → IsSafe (for_each list body)
  unfolding for_each
  IsSafe-for_each [] body safe = IsSafe-pure tt
  IsSafe-for_each (a ∷ rest) body safe =
      IsSafe-bind (body a) _ (safe a) (λ _. IsSafe-for_each rest body safe)

pub ruleset safe_rules = (
  IsSafe-pure, IsSafe-return, IsSafe-called, IsSafe-or_return, IsSafe-if, IsSafe-when, IsSafe-bind,
  IsSafe-for_each,
)
