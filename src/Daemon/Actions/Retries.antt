-- ===== src/Daemon/Actions/Retries.antt =====
-- The retry loop of updateKataConfigStatus.
use kata_operator.Base.{◌≡◌, refl, ap, ℕ, zero, suc, String, List, [], ◌∷◌}
use kata_operator.Api.Kata.{KataConfig, KataConfigStatus, zero_kata_config}
use kata_operator.Api.Errors.{Error, Result, ok, err}
use kata_operator.Effect.{Outcome, done, exit, panic, ◌>>=◌, pure}
use kata_operator.Effect.Keeps.{After, Ensures, Ensures-bind}
use kata_operator.Daemon.Events.{Event, updated_status, got_kata_config}
use kata_operator.Daemon.Host.{Host, Daemon, ask, rest}
use kata_operator.Daemon.Actions.{
  UpdateStatus, Updated, after_update, after_get, attempt, update_kata_config_status,
}

-- how many updates of the status have been accepted
abbrev pub applied : List Event → ℕ
applied [] = 0
applied (updated_status _ (ok _) ∷ events) = suc (applied events)
applied (_ ∷ events) = applied events

abbrev outcome_of : Result KataConfig → Result (Unit {0})
outcome_of (ok _) = ok tt
outcome_of (err e) = err e

-- what an answer says of the number of accepted updates
abbrev pub Applied : Result (Unit {0}) → ℕ → ℕ → Type 0
Applied (ok _) before after = after ≡ suc before
Applied (err _) before after = after ≡ before

abbrev pub Count : {W : Type 0} → ℕ → Daemon W → Type 0
Count n s = applied s.events ≡ n

abbrev pub Never : {W : Type 0} → Daemon W → Type 0
Never s = ⊥

-- The closure goes on to its end, and updates no status itself.
pub record IsQuiet {W : Type 0} (h : Host W) (us : UpdateStatus h) : Type 0 where
  pub at : (ks : KataConfigStatus) (n : ℕ) → Ensures (Count n) (us ks) (λ _. Count n) Never

module _ {W : Type 0} (h : Host W) (name : String) (us : UpdateStatus h)
    (quiet : IsQuiet h us) where
  -- the answer, and the accepted updates after `n` before
  abbrev Counted : ℕ → Result (Unit {0}) → Daemon W → Type 0
  Counted n r s = Applied r n (applied s.events)

  Ensures-after_update :
      (n : ℕ) (again : Result (Unit {0}) → Updated h) (a : Result KataConfig)
      → ((x : Error) → Ensures (Count n) (again (err x)) (Counted n) Never)
      → Ensures
          (λ s. Applied (outcome_of a) n (applied s.events))
          (after_update h again a)
          (Counted n)
          Never
  unfolding after_update ◌>>=◌ rest
  Ensures-after_update n again (ok _) k = record { at = λ s p. p }
  Ensures-after_update n again (err x) k = record { at = λ s p. (k x).at _ p }

  Ensures-send :
      (n : ℕ) (changed : KataConfig)
      → Ensures
          (Count n)
          (ask {R = Result (Unit {0})}
            (h.update_kata_config_status changed)
            (updated_status changed))
          (λ a s. Applied (outcome_of a) n (applied s.events))
          Never
  unfolding ask
  Ensures-send n changed = record {
    at = λ s p. sent (h.update_kata_config_status changed s.world).0 s.events p;
  }
    where
      sent :
          (a : Result KataConfig) (l : List Event)
          → applied l ≡ n
          → Applied (outcome_of a) n (applied (updated_status changed a ∷ l))
      sent (ok _) l p = ap suc p
      sent (err _) l p = p

  Ensures-after_get :
      (n : ℕ) (again : KataConfig → Result (Unit {0}) → Updated h) (kc : KataConfig)
      (a : Result KataConfig)
      → ((next : KataConfig) (x : Error) → Ensures (Count n) (again next (err x)) (Counted n) Never)
      → Ensures (Count n) (after_get h us again kc a) (Counted n) Never
  unfolding after_get
  Ensures-after_get n again kc (err x) k = k kc x
  Ensures-after_get n again kc (ok fresh) k = Ensures-bind _ _ (quiet.at fresh.status n) λ status.
      Ensures-bind _ _ (Ensures-send n (record fresh { status = status })) λ updated.
        Ensures-after_update n (again (record fresh { status = status })) updated
          (k (record fresh { status = status }))

  Ensures-read :
      (n : ℕ) (kc : KataConfig)
      → Ensures
          (Count n)
          (ask {R = Result (Unit {0})} (h.get_kata_config name kc) (got_kata_config name))
          (λ _. Count n)
          Never
  unfolding ask
  Ensures-read n kc = record { at = λ s p. p }

  Ensures-attempt :
      (n left : ℕ) (kc : KataConfig) (x : Error)
      → Ensures (Count n) (attempt h name us left kc (err x)) (Counted n) Never
  unfolding attempt pure
  Ensures-attempt n zero kc x = record { at = λ s p. p }
  Ensures-attempt n (suc left) kc x =
      Ensures-bind _ _ (Ensures-read n kc)
        λ got. Ensures-after_get n (attempt h name us left) kc got (Ensures-attempt n left)

  Ensures-update :
      (n : ℕ) → Ensures (Count n) (update_kata_config_status h name us) (Counted n) Never
  unfolding update_kata_config_status
  Ensures-update n =
      Ensures-bind _ _ (Ensures-read n zero_kata_config)
        λ got. Ensures-after_get n (attempt h name us 4) zero_kata_config got (Ensures-attempt n 4)

returned :
    {S A : Type 0} (Q : A → S → Type 0) (r : Outcome A A) (s : S)
    → After Q (λ _. ⊥) r s
    → (a : A) × (r ≡ done a) × Q a s
returned Q (done a) s q = (a, refl, q)
returned Q (exit a) s q = absurd q
returned Q panic s q = absurd q

-- updateKataConfigStatus always returns. Without an error exactly one update of the status has been
-- accepted by the server, and with an error none, however many attempts were made. The closure is
-- supposed to go on to its end and to update no status itself.
pub update_kata_config_status_once :
    {W : Type 0} (h : Host W) (name : String) (us : UpdateStatus h) (s : Daemon W)
    → IsQuiet h us
    → let run = update_kata_config_status h name us s in
      (r : Result (Unit {0})) × (run.0 ≡ done r)
      × Applied r (applied s.events) (applied run.1.events)
update_kata_config_status_once h name us s quiet =
    let run = update_kata_config_status h name us s in
    returned (Counted h name us quiet (applied s.events)) run.0 run.1
      ((Ensures-update h name us quiet (applied s.events)).at s refl)

module _ {W : Type 0} (h : Host W) where
  -- a closure that asks nothing
  pub change-IsQuiet : (f : KataConfigStatus → KataConfigStatus) → IsQuiet h (λ ks. pure (f ks))
  unfolding pure
  change-IsQuiet f = record { at = λ ks n. record { at = λ s p. p } }
