-- ===== src/Daemon/Actions/Freshness.antt =====
-- What the retry loop of updateKataConfigStatus sends where the closure asks nothing.
use mathlib.Core.Path.{subst}
use kata_operator.Base.{◌≡◌, refl, ap, ◌∙◌, String, List, ◌∷◌}
use kata_operator.Api.Kata.{KataConfig, KataConfigStatus}
use kata_operator.Api.Errors.{Result, ok, err}
use kata_operator.Effect.{done, pure}
use kata_operator.Effect.Keeps.{After, Ensures, Ensures-map}
use kata_operator.Daemon.Actions.Reports.{Change, Makes, FreshBy, Reported, Reported-update}
use kata_operator.Daemon.Events.{Event, updated_status, got_kata_config}
use kata_operator.Daemon.Host.{Host, Daemon}
use kata_operator.Daemon.Actions.{update_kata_config_status}
use kata_operator.Daemon.Actions.Retries.{Never}

-- The last two things that were asked: the resource was read, and the closure's change of what
-- was read was accepted.
abbrev pub Fresh : String → (KataConfigStatus → KataConfigStatus) → List Event → Type 0
Fresh name f events =
    (fresh answer : KataConfig) × (older : List Event) × (events
      ≡ updated_status (record fresh { status = f fresh.status }) (ok answer)
        ∷ got_kata_config name (ok fresh)
        ∷ older)

module _ {W : Type 0} (h : Host W) (name : String) (f : KataConfigStatus → KataConfigStatus) where
  abbrev pub Latest : Result (Unit {0}) → Daemon W → Type 0
  Latest (ok _) s = Fresh name f s.events
  Latest (err _) s = Unit

  abbrev pub Any : Daemon W → Type 0
  Any s = Unit

  -- the closure changes the status and asks nothing
  abbrev Only : Change
  Only ks given before after = (given ≡ f ks) × (after ≡ before)

  Makes-only : Makes h (λ ks. pure (f ks)) Only
  unfolding pure
  Makes-only = record { at = λ ks l. record { at = λ s e. (refl, e) } }

  Fresh-FreshBy : (events : List Event) → FreshBy name Only events → Fresh name f events
  Fresh-FreshBy events (fresh, answer, status, (older, shown, (changed, same), e)) = (
    fresh,
    answer,
    older,
    e
        ∙ ap
            (λ (given : KataConfigStatus).
              updated_status (record fresh { status = given }) (ok answer) ∷ shown)
            changed
        ∙ ap
            (λ (l : List Event).
              updated_status (record fresh { status = f fresh.status }) (ok answer) ∷ l)
            same,
  )

  Latest-Reported :
      (r : Result (Unit {0})) (s : Daemon W)
      → Reported h name (λ ks. pure (f ks)) Only Makes-only r s
      → Latest r s
  Latest-Reported (ok _) s fresh = Fresh-FreshBy s.events fresh
  Latest-Reported (err _) s fresh = tt

  pub Latest-update :
      Ensures Any (update_kata_config_status h name (λ ks. pure (f ks))) Latest Never
  Latest-update =
      Ensures-map Latest-Reported (Reported-update h name (λ ks. pure (f ks)) Only Makes-only)

  -- Where updateKataConfigStatus returns without an error, the last two things that were asked are
  -- a read of the resource and an accepted update of it, and the update sent exactly the closure's
  -- change of the status that was just read. The closure asks nothing here.
  pub update_kata_config_status-Fresh :
      (s : Daemon W)
      → let run = update_kata_config_status h name (λ ks. pure (f ks)) s in
        run.0 ≡ done (ok tt) → Fresh name f run.1.events
  update_kata_config_status-Fresh s e =
      let run = update_kata_config_status h name (λ ks. pure (f ks)) s in
      subst (λ o. After Latest Never o run.1) e (Latest-update.at s tt)
