-- ===== src/Daemon/Actions/Reports.antt =====
-- What the retry loop of updateKataConfigStatus sends where the closure asks the node.
use kata_operator.Base.{◌≡◌, refl, ℕ, zero, suc, String, List, ◌∷◌}
use kata_operator.Api.Kata.{KataConfig, KataConfigStatus, zero_kata_config}
use kata_operator.Api.Errors.{Error, Result, ok, err}
use kata_operator.Effect.{◌>>=◌, pure}
use kata_operator.Effect.Keeps.{Ensures, Ensures-bind}
use kata_operator.Daemon.Events.{Event, updated_status, got_kata_config}
use kata_operator.Daemon.Host.{Host, Daemon, ask, rest}
use kata_operator.Daemon.Actions.{
  UpdateStatus, Updated, after_update, after_get, attempt, update_kata_config_status,
}
use kata_operator.Daemon.Actions.Retries.{Never}
use kata_operator.Daemon.Trace.{Ended}

-- a relation of two statuses, with the events before a change and after it
abbrev pub Change : Type 1
Change = KataConfigStatus → KataConfigStatus → List Event → List Event → Type 0

-- the closure goes on to its end, and relates what it gets and gives
pub record Makes {W : Type 0} (h : Host W) (us : UpdateStatus h) (C : Change) : Type 0 where
  pub at :
      (ks : KataConfigStatus) (l : List Event)
      → Ensures (λ s. s.events ≡ l) (us ks) (λ given s. C ks given l s.events) Never

-- `changed` was sent with the answer `a`, after a change of what had just been read
abbrev Sent :
    String → Change → KataConfig → KataConfigStatus → Result KataConfig → List Event → Type 0
Sent name C fresh status a events =
    (older shown : List Event) × C fresh.status status (got_kata_config name (ok fresh) ∷ older)
      shown
    × (events ≡ updated_status (record fresh { status = status }) a ∷ shown)

-- The last thing asked is an accepted update, which sent a change of the status read last.
abbrev pub FreshBy : String → Change → List Event → Type 0
FreshBy name C events =
    (fresh answer : KataConfig) × (status : KataConfigStatus) × Sent name C fresh status (ok answer)
      events

module _ {W : Type 0} (h : Host W) (name : String) (us : UpdateStatus h) (C : Change)
    (made : Makes h us C) where
  abbrev pub Reported : Result (Unit {0}) → Daemon W → Type 0
  Reported (ok _) s = FreshBy name C s.events
  Reported (err _) s = Unit

  Reported-after_update :
      (again : Result (Unit {0}) → Updated h) (fresh : KataConfig) (status : KataConfigStatus)
      (a : Result KataConfig)
      → ((x : Error) → Ensures Ended (again (err x)) Reported Never)
      → Ensures (λ s. Sent name C fresh status a s.events) (after_update h again a) Reported Never
  unfolding after_update ◌>>=◌ rest
  Reported-after_update again fresh status (ok answer) k = record {
    at = λ s sent. (fresh, answer, status, sent);
  }
  Reported-after_update again fresh status (err x) k = record { at = λ s sent. (k x).at _ tt }

  -- the resource was read last
  abbrev Read : Result KataConfig → Daemon W → Type 0
  Read a s = (older : List Event) × (s.events ≡ got_kata_config name a ∷ older)

  Sent-update :
      (fresh : KataConfig) (status : KataConfigStatus) (older : List Event)
      → let changed = record fresh { status = status } in
        Ensures
          (λ s. C fresh.status status (got_kata_config name (ok fresh) ∷ older) s.events)
          (ask {R = Result (Unit {0})}
            (h.update_kata_config_status changed)
            (updated_status changed))
          (λ a s. Sent name C fresh status a s.events)
          Never
  unfolding ask
  Sent-update fresh status older = record { at = λ s c. (older, s.events, c, refl) }

  Reported-after_get :
      (again : KataConfig → Result (Unit {0}) → Updated h) (kc : KataConfig) (a : Result KataConfig)
      → ((next : KataConfig) (x : Error) → Ensures Ended (again next (err x)) Reported Never)
      → Ensures (Read a) (after_get h us again kc a) Reported Never
  unfolding after_get
  Reported-after_get again kc (err x) k = record { at = λ s read. (k kc x).at s tt }
  Reported-after_get again kc (ok fresh) k = record {
    at = λ s (older, e).
        (Ensures-bind _ _ (made.at fresh.status (got_kata_config name (ok fresh) ∷ older)) λ status.
            Ensures-bind _ _ (Sent-update fresh status older) λ updated.
              Reported-after_update (again (record fresh { status = status })) fresh status updated
                (k (record fresh { status = status }))).at
          s e;
  }

  Read-get :
      (kc : KataConfig)
      → Ensures Ended
          (ask {R = Result (Unit {0})} (h.get_kata_config name kc) (got_kata_config name))
          Read
          Never
  unfolding ask
  Read-get kc = record { at = λ s p. (s.events, refl) }

  Reported-attempt :
      (left : ℕ) (kc : KataConfig) (x : Error)
      → Ensures Ended (attempt h name us left kc (err x)) Reported Never
  unfolding attempt pure
  Reported-attempt zero kc x = record { at = λ s p. tt }
  Reported-attempt (suc left) kc x =
      Ensures-bind _ _ (Read-get kc)
        λ got. Reported-after_get (attempt h name us left) kc got (Reported-attempt left)

  pub Reported-update : Ensures Ended (update_kata_config_status h name us) Reported Never
  unfolding update_kata_config_status
  Reported-update =
      Ensures-bind _ _ (Read-get zero_kata_config)
        λ got. Reported-after_get (attempt h name us 4) zero_kata_config got (Reported-attempt 4)
