-- ===== src/Daemon/Trace.antt =====
-- What a run of the daemon has asked, in its order: predicates on the events, newest first, and the
-- rules that add to them.
use mathlib.Core.Path.{subst}
use kata_operator.Base.{◌≡◌, refl, ℕ, List, ◌∷◌}
use kata_operator.Api.Errors.{Error, Result, ok}
use kata_operator.Effect.{or_return}
use kata_operator.Effect.Keeps.{Keeps, keeps_rules, Ensures, Ensures-or_return}
use kata_operator.Daemon.Events.{Event}
use kata_operator.Daemon.Host.{Daemon, ask, rest}

-- `e` is the newest event, and `P` holds of those before it.
abbrev pub Next : Event → (List Event → Type 0) → List Event → Type 0
Next e P events = (older : List Event) × (events ≡ e ∷ older) × P older

-- `P` held at some time.
pub data Once (P : List Event → Type 0) : List Event → Type 0 where
  now : {events : List Event} → P events → Once P events
  later : {e : Event} {events : List Event} → Once P events → Once P (e ∷ events)

pub record OnEvents {W : Type 0} (P : List Event → Type 0) (s : Daemon W) : Type 0 where
  pub made : P s.events

abbrev pub Ended : {W : Type 0} → Daemon W → Type 0
Ended s = Unit

module _ {W R A : Type 0} {P : List Event → Type 0} where
  pub Keeps-ask :
      (f : W → Result A × W) (note : Result A → Event)
      → Keeps (OnEvents (Once P)) (ask {R = R} f note)
  unfolding ask
  Keeps-ask f note = record { at = λ s h. record { made = later h.made } }

  -- A call is the newest event, with its answer.
  pub Ensures-asked :
      (f : W → Result A × W) (note : Result A → Event)
      → Ensures (OnEvents P) (ask {R = R} f note) (λ a. OnEvents (Next (note a) P)) Ended
  unfolding ask
  Ensures-asked f note = record { at = λ s h. record { made = (s.events, refl, h.made) } }

module _ {W R : Type 0} {P : List Event → Type 0} where
  pub Keeps-rest : (f : W → W) (n : ℕ) → Keeps (OnEvents (Once P)) (rest {R = R} f n)
  unfolding rest
  Keeps-rest f n = record { at = λ s h. record { made = later h.made } }

  -- Code after the test for an error runs only where there was none.
  pub Ensures-answered :
      (e : Error → R) (note : Result (Unit {0}) → Event) (a : Result (Unit {0}))
      → Ensures
          (OnEvents (Next (note a) P))
          (or_return {S = Daemon W} e a)
          (λ _. OnEvents (Next (note (ok tt)) P))
          Ended
  Ensures-answered e note a =
      Ensures-or_return e a
        (λ x s q h. record { made = subst (λ r. Next (note r) P s.events) q h.made }) (λ s h. tt)

pub ruleset event_rules = (keeps_rules, Keeps-ask, Keeps-rest)
