-- ===== src/Effect/Early.antt =====
-- Code whose early returns are errors: a function that returns without an error went on to its end.
use kata_operator.Api.Errors.{Result, ok, err}
use kata_operator.Effect.{
  Outcome, done, exit, panic, Exec, pure, abort, called, result, continue, ◌>>=◌, or_return, return,
}

abbrev pub Fails : {R A : Type 0} → Outcome (Result R) A → Type 0
Fails (done _) = Unit
Fails (exit (ok _)) = ⊥
Fails (exit (err _)) = Unit
Fails panic = Unit

-- However it starts, the code returns early with an error only.
pub record FailsEarly {S R A : Type 0} (m : Exec S (Result R) A) : Type 0 where
  pub fails : (s : S) → Fails (m s).0

module _ {S R A : Type 0} where
  pub FailsEarly-pure : (a : A) → FailsEarly (pure {S = S} {R = Result R} a)
  unfolding pure
  FailsEarly-pure a = record { fails = λ s. tt }

  pub FailsEarly-abort : FailsEarly (abort {S = S} {R = Result R} {A = A})
  unfolding abort
  FailsEarly-abort = record { fails = λ s. tt }

  pub FailsEarly-or_return :
      (x : Result A) → FailsEarly (or_return {S = S} {R = Result R} (λ e. err e) x)
  FailsEarly-or_return (ok a) = FailsEarly-pure a
  FailsEarly-or_return (err e) = record { fails = λ s. unfold return in tt }

Fails-result : {A : Type 0} (R : Type 0) (o : Outcome A A) → Fails (result {R = Result R} o)
Fails-result R (done _) = tt
Fails-result R (exit _) = tt
Fails-result R panic = tt

module _ {S R A : Type 0} where
  pub FailsEarly-called : (m : Exec S A A) → FailsEarly (called {R = Result R} m)
  unfolding called
  FailsEarly-called m = record { fails = λ s. Fails-result _ (m s).0 }

module _ {S R A B : Type 0} where
  Fails-continue :
      (o : Outcome (Result R) A) (next : A → Exec S (Result R) B) (s : S)
      → Fails o
      → ((a : A) → FailsEarly (next a))
      → Fails (continue o next s).0
  Fails-continue (done a) next s f k = (k a).fails s
  Fails-continue (exit (ok r)) next s f k = f
  Fails-continue (exit (err e)) next s f k = tt
  Fails-continue panic next s f k = tt

  pub FailsEarly-bind :
      (first : Exec S (Result R) A) (next : A → Exec S (Result R) B)
      → FailsEarly first
      → ((a : A) → FailsEarly (next a))
      → FailsEarly (first >>= next)
  unfolding ◌>>=◌
  FailsEarly-bind first next f k = record {
    fails = λ s. Fails-continue (first s).0 next (first s).1 (f.fails s) k;
  }

pub ruleset early_rules =
    (FailsEarly-pure, FailsEarly-abort, FailsEarly-or_return, FailsEarly-called, FailsEarly-bind)
