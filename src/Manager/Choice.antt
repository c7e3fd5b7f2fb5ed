-- ===== src/Manager/Choice.antt =====
-- Which controller main of main.go sets up, and after which calls.
use mathlib.Core.Path.{subst}
use kata_operator.Base.{◌≡◌, String, Bool, List, ◌∷◌, string_eq}
use kata_operator.Api.Errors.{Error, Result, ok, err}
use kata_operator.Effect.{Exec, ◌>>◌, result, or_return}
use kata_operator.Effect.Keeps.{After, Ensures, Ensures-or_return}
use kata_operator.Controllers.Common.{contains}
use kata_operator.Manager.{
  Event, made_manager, got_config, made_discovery_client, listed_groups, set_up, ran_manager,
  Platform, Process, Ending, exited, returned, ask, controller_for,
}

-- The events of a start that succeeds, newest first, with the groups of the cluster.
abbrev pub started_events : String → Bool → List String → List Event → List Event
started_events metrics_addr elect groups older =
    ran_manager (ok tt)
    ∷ set_up (controller_for (contains groups "config.openshift.io")) (ok tt)
    ∷ listed_groups (ok groups)
    ∷ made_discovery_client (ok tt)
    ∷ got_config (ok tt)
    ∷ made_manager metrics_addr elect (ok tt)
    ∷ older

module _ {W : Type 0} where
  abbrev At : List Event → Process W → Type 0
  At l s = s.events ≡ l

  abbrev Ended : Process W → Type 0
  Ended s = Unit

  Ensures-ask :
      {R A : Type 0} (f : W → Result A × W) (note : Result A → Event) (l : List Event)
      → Ensures (At l) (ask {R = R} f note) (λ a. At (note a ∷ l)) Ended
  unfolding ask
  Ensures-ask f note l = record { at = λ s e. λ i. note (f s.world).0 ∷ e i }

  Ensures-answered :
      {R : Type 0} (e : Error → R) (note : Result (Unit {0}) → Event) (a : Result (Unit {0}))
      (l : List Event)
      → Ensures (At (note a ∷ l)) (or_return e a) (λ _. At (note (ok tt) ∷ l)) Ended
  Ensures-answered e note a l =
      Ensures-or_return e a
        (λ x s q h. subst (λ (r : Result (Unit {0})). s.events ≡ note r ∷ l) q h) (λ s h. tt)

-- `m` returns a value with `Q` to its caller, on whichever line it returns.
record Returns {S A : Type 0} (P : S → Type 0) (m : Exec S A A) (Q : A → S → Type 0) : Type 0 where
  at : (s : S) → P s → After Q (λ _. Unit) (result {R = A} (m s).0) (m s).1

-- What IsOpenShift found, with the events it added to `l`.
abbrev Found : {W : Type 0} → List Event → Result Bool → Process W → Type 0
Found l (err e) s = Unit
Found l (ok openshift) s =
    (groups : List String) × (openshift ≡ contains groups "config.openshift.io")
    × At (listed_groups (ok groups) ∷ made_discovery_client (ok tt) ∷ got_config (ok tt) ∷ l) s

module _ {W : Type 0} (p : Platform W) where
  -- what is known where main ended
  abbrev Finished : String → Bool → List Event → Ending → Process W → Type 0
  Finished metrics_addr elect l (exited code) s = code ≡ 1
  Finished metrics_addr elect l returned s =
      (groups : List String) × (s.events ≡ started_events metrics_addr elect groups l)
