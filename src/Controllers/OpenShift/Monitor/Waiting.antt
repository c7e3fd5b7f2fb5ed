-- ===== src/Controllers/OpenShift/Monitor/Waiting.antt =====
-- The pools that monitorKataConfigInstallation reads before it makes the machine config.
use kata_operator.Base.{
  ◌≡◌, refl, sym, ap, ◌∙◌, String, Bool, true, false, not, some, inl, inr, ◌==◌, nat_eq, string_eq,
  List, ◌∷◌, arith,
}
use kata_operator.Api.Kata.{KataConfig, Labels, LabelSelector}
use kata_operator.Api.Objects.{MachineConfigPool}
use kata_operator.Api.Errors.{Result, ok, err, is_not_found}
use kata_operator.Effect.{Exec, called, ◌>>=◌, pure, when}
use kata_operator.Effect.Keeps.{
  Ensures, Ensures-bind, Ensures-map, Ensures-calls, Ensures-when, Ensures-if, Ensures-or_return,
  Ensures-return, Ensures-deref,
}
use kata_operator.Cluster.{Cluster}
use kata_operator.Cluster.Calls.{Call, got_machine_config_pool}
use kata_operator.Controllers.Common.{has_key}
use kata_operator.Controllers.Reconciler.{Reply, Reconciler, current, match_labels, get_pool}
use kata_operator.Controllers.Reconciler.Traced.{Is, Is-call, Is-current}
use kata_operator.Controllers.OpenShift.Objects.{role_label, new_mcp_for_cr}
use kata_operator.Controllers.OpenShift.Cooperation.{Ensures-given}
use kata_operator.Controllers.OpenShift.Queries.{role_of, worker_or_master}
use kata_operator.Controllers.OpenShift.Monitor.Evidence.{Awaited}
use kata_operator.Controllers.OpenShift.Monitor.{await_pool}

abbrev pub Ended : {W : Type 0} → Reconciler W → Type 0
Ended s = Unit

not-false : (b : Bool) → not b ≡ false → b ≡ true
not-false b h = ground arith

not-true : (b : Bool) → not b ≡ true → b ≡ false
not-true b h = ground arith

module _ {W : Type 0} (c : Cluster W) (kc : KataConfig) where
  -- the answer about the pool of the workers, and the role that it tells
  abbrev pub Role : String → Type 0
  Role machine_pool = (worker : Result MachineConfigPool) × (role_of worker ≡ ok machine_pool)

  abbrev pub Chosen :
      List Call → (machine_pool : String) → Role machine_pool → Reconciler W → Type 0
  Chosen l machine_pool role = Is kc (got_machine_config_pool "worker" role.0 ∷ l)

  pub Ensures-worker_or_master :
      (l : List Call)
      → Ensures
          (Is kc l)
          (called {R = Reply} (worker_or_master c))
          (λ r s.
            (worker : Result MachineConfigPool) × (role_of worker ≡ r)
            × Is kc (got_machine_config_pool "worker" worker ∷ l) s)
          Ended
  unfolding worker_or_master pure
  Ensures-worker_or_master l =
      Ensures-calls _ (Ensures-bind _ _ (Is-call _ _) λ mcp. record { at = λ s h. (mcp, refl, h) })

  -- the labels are those of the resource
  abbrev AreLabels : Labels → Type 0
  AreLabels labels =
      (selector : LabelSelector) × (kc.spec.kata_config_pool_selector ≡ some selector)
      × (selector.match_labels ≡ labels)

  pub Ensures-match_labels :
      (l : List Call)
      → Ensures
          (Is {W = W} kc l)
          (match_labels {R = Reply})
          (λ labels s. AreLabels labels × Is kc l s)
          Ended
  unfolding match_labels pure
  Ensures-match_labels l = Ensures-bind _ _ Is-current λ now. Ensures-given λ q.
      Ensures-bind _ _
        (Ensures-deref
          {Q = λ selector s. (kc.spec.kata_config_pool_selector ≡ some selector) × Is kc l s} _
          (λ selector s e h.
            (ap (λ (k : KataConfig). k.spec.kata_config_pool_selector) (sym q) ∙ e, h))
          (λ s h. tt))
        λ selector. record { at = λ s (e, h). ((selector, e, refl), h) }

  -- the read of a pool that is up
  abbrev Up : List Call → Reconciler W → Type 0
  Up l s =
      (mcp : MachineConfigPool) × ((mcp.machine_count == 0) ≡ false)
      × (mcp.machine_count ≡ mcp.ready_machine_count)
      × Is kc (got_machine_config_pool (new_mcp_for_cr kc).metadata.name (ok mcp) ∷ l) s

  Ensures-await_pool :
      (l : List Call) (mcp : MachineConfigPool) (answer : Result MachineConfigPool)
      → Ensures
          (Is kc (got_machine_config_pool (new_mcp_for_cr kc).metadata.name answer ∷ l))
          (await_pool c mcp answer)
          (λ _. Up l)
          Ended
  unfolding await_pool
  Ensures-await_pool l mcp (ok found) =
      Ensures-bind _ _
        (Ensures-when
          {Q = λ s.
            ((found.machine_count == 0) ≡ false)
            × Is kc (got_machine_config_pool (new_mcp_for_cr kc).metadata.name (ok found) ∷ l) s}
          (found.machine_count == 0) _ (λ _. Ensures-return _ (λ s p. tt)) (λ e s h. (e, h)))
        λ _. Ensures-given λ more.
          Ensures-when (not (found.machine_count == found.ready_machine_count)) _
            (λ _. Ensures-return _ (λ s p. tt)) (λ e s h. (found, more, ground (arith, e), h))
  Ensures-await_pool l mcp (err e) =
      Ensures-if (is_not_found e) _ _
        (λ _. Ensures-bind _ _ (Is-call _ _) λ created.
          Ensures-bind {Q = λ _. Ended} _ _
            (Ensures-or_return _ created (λ a s q h. tt) (λ s h. tt))
            λ _. Ensures-return _ (λ s p. tt))
        (λ _. Ensures-return _ (λ s p. tt))

  abbrev pub Wait : String → List Call → Type 0
  Wait machine_pool l = (waited : List Call) × Awaited kc machine_pool l waited

  abbrev pub Waited :
      (machine_pool : String) (l : List Call) → Wait machine_pool l → Reconciler W → Type 0
  Waited machine_pool l wait = Is kc wait.0

  pub Ensures-pool :
      (l : List Call)
      → Ensures
          (Is {W = W} kc l)
          (do
            now ← current
            let mcp = new_mcp_for_cr now
            found ← get_pool c mcp.metadata.name
            await_pool c mcp found)
          (λ _. Up l)
          Ended
  unfolding new_mcp_for_cr
  Ensures-pool l = Ensures-bind _ _ Is-current λ now.
      Ensures-given
        λ q. Ensures-bind _ _ (Is-call _ _) λ found. Ensures-await_pool l (new_mcp_for_cr now) found

  pub Ensures-custom_pool :
      (l : List Call) (machine_pool : String) (labels : Labels)
      (pool : Exec (Reconciler W) Reply (Unit {0}))
      → AreLabels labels
      → Ensures (Is kc l) pool (λ _. Up l) Ended
      → Ensures
          (Is kc l)
          (when (not (has_key (role_label machine_pool) labels)) pool)
          (λ _ s. (wait : Wait machine_pool l) × Waited machine_pool l wait s)
          Ended
  Ensures-custom_pool l machine_pool labels pool (selector, e, same) k =
      Ensures-when (not (has_key (role_label machine_pool) labels)) pool
        (λ out.
          Ensures-map
            (λ _ s (mcp, more, ready, h). (
              (
                _,
                (
                  selector,
                  e,
                  inr (
                    mcp,
                    ap (has_key (role_label machine_pool)) same ∙ not-true _ out,
                    more,
                    ready,
                    refl,
                  ),
                ),
              ),
              h,
            ))
            k)
        (λ out s h. (
          (
            l,
            (
              selector,
              e,
              inl (ap (has_key (role_label machine_pool)) same ∙ not-false _ out, refl),
            ),
          ),
          h,
        ))
