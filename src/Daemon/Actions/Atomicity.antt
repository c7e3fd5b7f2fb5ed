-- ===== src/Daemon/Actions/Atomicity.antt =====
-- updateKataConfigStatus against what the server holds, which other daemons and the controller
-- change between the calls.
use mathlib.Core.List.{Memᴰ}
use kata_operator.Base.{◌≡◌, String, List, ◌⊎◌}
use kata_operator.Api.Kata.{KataConfig, KataConfigStatus, zero_kata_config}
use kata_operator.Api.Errors.{Error, Result, ok, err}
use kata_operator.Daemon.Host.{Host, Versioned, Daemon}
use kata_operator.Daemon.Events.{Event, updated_status}
use kata_operator.Daemon.Actions.{update_kata_config_status}

module _ {W : Type 0} (h : Host W) (server : Versioned h) (name : String)
    (f : KataConfigStatus → KataConfigStatus) where
  -- `f` of the status of an object
  abbrev changed : KataConfig → KataConfig
  changed kc = record kc { status = f kc.status }

  -- What is sent is the change of what the server holds in the world. Only where an update of this
  -- run has been refused, it is the change of what Get decodes into the object of that update.
  abbrev pub IsCurrent : W → KataConfig → List Event → Type 0
  IsCurrent w sent events =
      (sent ≡ changed (server.held w name))
      ⊎ ((refused : KataConfig) × (x : Error) × Memᴰ (updated_status refused (err x)) events
          × (sent ≡ changed (server.decode (server.held w name) refused)))

  -- The world before was one in which the server accepted such an update; the world after is that of
  -- the state.
  abbrev pub Swapped : Daemon W → Type 0
  Swapped s =
      (w : W) × (sent : KataConfig) × (answer : KataConfig) × (h.update_kata_config_status sent w
        ≡ (ok answer, s.world))
      × IsCurrent w sent s.events

  abbrev Done : Result (Unit {0}) → Daemon W → Type 0
  Done (ok _) s = Swapped s
  Done (err _) s = Unit

  -- the object that Get is given: zero, or that of a refused update
  abbrev IsLeft : KataConfig → List Event → Type 0
  IsLeft into events =
      (into ≡ zero_kata_config) ⊎ ((x : Error) × Memᴰ (updated_status into (err x)) events)

  record Start (into : KataConfig) (s : Daemon W) : Type 0 where
    left : IsLeft into s.events

  -- what was read is what the server held at some time, decoded into the object
  abbrev WasHeld : KataConfig → KataConfig → Type 0
  WasHeld into kc = (w : W) × (kc ≡ server.decode (server.held w name) into)

  -- what Get has answered
  abbrev Answered : KataConfig → Result KataConfig → Type 0
  Answered into (ok kc) = WasHeld into kc
  Answered into (err _) = Unit
