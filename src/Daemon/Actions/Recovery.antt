-- ===== src/Daemon/Actions/Recovery.antt =====
-- The retry loop of updateKataConfigStatus on a server with finitely many faults.
use kata_operator.Base.{◌≡◌, refl, ap, ℕ, zero, suc, ◌≤◌, ◌<◌, String, arith}
use kata_operator.Api.Kata.{KataConfig, KataConfigStatus, zero_kata_config}
use kata_operator.Api.Errors.{Error, Result, ok, err}
use kata_operator.Effect.{Outcome, done, exit, panic, ◌>>=◌, pure}
use kata_operator.Effect.Keeps.{After, Ensures, Ensures-bind, Ensures-pure}
use kata_operator.Daemon.Events.{Event}
use kata_operator.Daemon.Host.{Host, Daemon, ask, rest}
use kata_operator.Daemon.Actions.{
  Updated, attempts, after_update, after_get, attempt, update_kata_config_status,
}
use kata_operator.Daemon.Actions.Retries.{Never}

-- An error uses up a fault; a success makes no new one.
abbrev pub Costs : {A : Type 0} → Result A → ℕ → ℕ → Type 0
Costs (ok _) before after = after ≤ before
Costs (err _) before after = after < before

-- The server answers with an error at most as often as `faults` counts, conflicts included.
pub record Recovers {W : Type 0} (h : Host W) : Type 0 where
  pub faults : W → ℕ
  pub gets :
      (name : String) (into : KataConfig) (w : W)
      → let (a, w') = h.get_kata_config name into w in Costs a (faults w) (faults w')
  pub updates :
      (kc : KataConfig) (w : W)
      → let (a, w') = h.update_kata_config_status kc w in Costs a (faults w) (faults w')
  pub sleeps : (n : ℕ) (w : W) → faults (h.sleep n w) ≤ faults w

module _ {W : Type 0} (h : Host W) (server : Recovers h) (name : String)
    (f : KataConfigStatus → KataConfigStatus) where
  abbrev Below : ℕ → Daemon W → Type 0
  Below n s = server.faults s.world < n

  -- what is left after an answer, with `left` attempts after this one
  abbrev Left : {A : Type 0} → ℕ → Result A → Daemon W → Type 0
  Left left (ok _) s = Below (suc left) s
  Left left (err _) s = Below left s

  abbrev Succeeds : Result (Unit {0}) → Daemon W → Type 0
  Succeeds r s = r ≡ ok tt

  Left-Costs :
      {A : Type 0} (left before : ℕ) (a : Result A) (s : Daemon W)
      → Costs a before (server.faults s.world)
      → before < suc left
      → Left left a s
  Left-Costs left before (ok _) s c b = omega arith
  Left-Costs left before (err _) s c b = omega arith

  Left-ask :
      {A : Type 0} (left : ℕ) (call : W → Result A × W) (note : Result A → Event)
      → ((w : W) → Costs (call w).0 (server.faults w) (server.faults (call w).1))
      → Ensures (Below (suc left)) (ask {R = Result (Unit {0})} call note) (Left left) Never
  unfolding ask
  Left-ask left call note c = record {
    at = λ s b. Left-Costs left (server.faults s.world) (call s.world).0 _ (c s.world) b;
  }

  Succeeds-after_update :
      (left : ℕ) (again : Result (Unit {0}) → Updated h) (a : Result KataConfig)
      → ((x : Error) → Ensures (Below left) (again (err x)) Succeeds Never)
      → Ensures (Left left a) (after_update h again a) Succeeds Never
  unfolding after_update ◌>>=◌ rest
  Succeeds-after_update left again (ok _) k = record { at = λ s b. refl }
  Succeeds-after_update left again (err x) k = record {
    at = λ s b. (k x).at _ (omega (arith, server.sleeps 5 s.world));
  }

  Succeeds-after_get :
      (left : ℕ) (again : KataConfig → Result (Unit {0}) → Updated h) (kc : KataConfig)
      (a : Result KataConfig)
      → ((next : KataConfig) (x : Error) → Ensures (Below left) (again next (err x)) Succeeds Never)
      → Ensures (Left left a) (after_get h (λ ks. pure (f ks)) again kc a) Succeeds Never
  unfolding after_get
  Succeeds-after_get left again kc (err x) k = k kc x
  Succeeds-after_get left again kc (ok fresh) k =
      let sent = record fresh { status = f fresh.status } in
      Ensures-bind _ _ (Ensures-pure (f fresh.status)) λ status.
        Ensures-bind _ _ (Left-ask left _ _ (server.updates (record fresh { status = status })))
          λ updated.
            Succeeds-after_update left (again (record fresh { status = status })) updated
              (k (record fresh { status = status }))

  Succeeds-attempt :
      (left : ℕ) (kc : KataConfig) (e : Result (Unit {0}))
      → Ensures (Below left) (attempt h name (λ ks. pure (f ks)) left kc e) Succeeds Never
  unfolding attempt
  Succeeds-attempt zero kc e = record { at = λ s b. absurd (omega (arith, b)) }
  Succeeds-attempt (suc left) kc e =
      Ensures-bind _ _ (Left-ask left _ _ (server.gets name kc)) λ got.
        Succeeds-after_get left (attempt h name (λ ks. pure (f ks)) left) kc got
          (λ next x. Succeeds-attempt left next (err x))

  returned :
      (o : Outcome (Result (Unit {0})) (Result (Unit {0}))) (s : Daemon W)
      → After Succeeds Never o s
      → o ≡ done (ok tt)
  returned (done r) s q = ap done q
  returned (exit r) s q = absurd q
  returned panic s q = absurd q

  -- Where fewer faults are to come than the loop has attempts, updateKataConfigStatus returns
  -- without an error, whatever calls the faults fall on and in whatever order. A fault is an error
  -- of a Get or of an update, a conflict with another client included; the closure asks nothing.
  pub update_kata_config_status_recovers :
      (s : Daemon W)
      → server.faults s.world < attempts h
      → (update_kata_config_status h name (λ ks. pure (f ks)) s).0 ≡ done (ok tt)
  unfolding update_kata_config_status
  update_kata_config_status_recovers s few =
      let run = attempt h name (λ ks. pure (f ks)) (attempts h) zero_kata_config (ok tt) s in
      returned run.0 run.1 ((Succeeds-attempt (attempts h) zero_kata_config (ok tt)).at s few)
