-- ===== src/Daemon/Actions/Memory.antt =====
-- The events before updateKataConfigStatus, in a run of it.
use kata_operator.Base.{ℕ, zero, suc, String, List}
use kata_operator.Api.Kata.{KataConfig, KataConfigStatus, zero_kata_config}
use kata_operator.Api.Errors.{Error, Result, ok, err}
use kata_operator.Effect.Keeps.{Keeps, Keeps-pure, Keeps-bind}
use kata_operator.Daemon.Events.{Event}
use kata_operator.Daemon.Host.{Host}
use kata_operator.Daemon.Trace.{Once, OnEvents, Keeps-ask, Keeps-rest}
use kata_operator.Daemon.Actions.{
  UpdateStatus, Updated, after_update, after_get, attempt, update_kata_config_status,
}

module _ {W : Type 0} (h : Host W) (name : String) (us : UpdateStatus h) (P : List Event → Type 0)
    (kept : (ks : KataConfigStatus) → Keeps (OnEvents (Once P)) (us ks)) where
  Keeps-after_update :
      (again : Result (Unit {0}) → Updated h) (a : Result KataConfig)
      → ((x : Error) → Keeps (OnEvents (Once P)) (again (err x)))
      → Keeps (OnEvents (Once P)) (after_update h again a)
  unfolding after_update
  Keeps-after_update again (ok _) k = Keeps-pure (ok tt)
  Keeps-after_update again (err x) k = Keeps-bind _ _ (Keeps-rest _ _) (λ _. k x)

  Keeps-after_get :
      (again : KataConfig → Result (Unit {0}) → Updated h) (kc : KataConfig) (a : Result KataConfig)
      → ((next : KataConfig) (x : Error) → Keeps (OnEvents (Once P)) (again next (err x)))
      → Keeps (OnEvents (Once P)) (after_get h us again kc a)
  unfolding after_get
  Keeps-after_get again kc (err x) k = k kc x
  Keeps-after_get again kc (ok fresh) k = Keeps-bind _ _ (kept fresh.status) λ status.
      Keeps-bind _ _ (Keeps-ask _ _) λ updated.
        Keeps-after_update (again (record fresh { status = status })) updated
          (k (record fresh { status = status }))

  Keeps-attempt :
      (left : ℕ) (kc : KataConfig) (e : Result (Unit {0}))
      → Keeps (OnEvents (Once P)) (attempt h name us left kc e)
  unfolding attempt
  Keeps-attempt zero kc e = Keeps-pure e
  Keeps-attempt (suc left) kc e = Keeps-bind _ _ (Keeps-ask _ _) λ got.
      Keeps-after_get (attempt h name us left) kc got (λ next x. Keeps-attempt left next (err x))

  pub Keeps-update : Keeps (OnEvents (Once P)) (update_kata_config_status h name us)
  unfolding update_kata_config_status
  Keeps-update = Keeps-attempt 5 zero_kata_config (ok tt)
