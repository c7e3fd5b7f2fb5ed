-- ===== src/Daemon/Actions.antt =====
-- updateKataConfigStatus of images/daemon/pkg/daemon/kata_actions.go.
pub mod Atomicity
pub mod Freshness
pub mod Memory
pub mod Recovery
pub mod Reports
pub mod Retries
use kata_operator.Base.{ℕ, zero, suc, String}
use kata_operator.Api.Kata.{KataConfig, KataConfigStatus, zero_kata_config}
use kata_operator.Api.Errors.{Result, ok, err}
use kata_operator.Effect.{◌>>=◌, Exec, ◌>>◌, pure}
use kata_operator.Daemon.Host.{Host, Daemon, get_kata_config, update_status, sleep}

module _ {W : Type 0} (h : Host W) where
  -- `func(a *KataConfigStatus)`, which may ask the node
  abbrev pub UpdateStatus : Type 0
  UpdateStatus = KataConfigStatus → Exec (Daemon W) (Result (Unit {0})) KataConfigStatus

  abbrev pub Updated : Type 0
  Updated = Exec (Daemon W) (Result (Unit {0})) (Result (Unit {0}))

  -- the end of the body: a failed update is waited out
  unfoldable pub after_update : (Result (Unit {0}) → Updated) → Result KataConfig → Updated
  after_update again (ok _) = pure (ok tt)
  after_update again (err x) = do sleep h 5; again (err x)

  -- the body after Get: a failed Get is tried again at once
  unfoldable pub after_get :
      UpdateStatus
      → (KataConfig → Result (Unit {0}) → Updated)
      → KataConfig
      → Result KataConfig
      → Updated
  unfolding after_update
  after_get us again kata_config (err x) = again kata_config (err x)
  after_get us again kata_config (ok fresh) = do
    status ← us fresh.status
    let changed = record fresh { status = status }
    updated ← update_status h changed
    after_update (again changed) updated

  -- The loop, with the attempts that are left, the object that Get decodes into, and the error of
  -- the last attempt.
  unfoldable pub attempt : String → UpdateStatus → ℕ → KataConfig → Result (Unit {0}) → Updated
  unfolding after_get
  attempt name us zero kata_config e = pure e
  attempt name us (suc left) kata_config e = do
    got ← get_kata_config h name kata_config
    after_get us (attempt name us left) kata_config got

  abbrev pub attempts : ℕ
  attempts = 5

  unfoldable pub update_kata_config_status : String → UpdateStatus → Updated
  unfolding attempt
  update_kata_config_status name us = attempt name us attempts zero_kata_config (ok tt)
