-- ===== src/Controllers/OpenShift/Queries/Answered.antt =====
-- workerOrMaster and newMCForCR of controllers/openshift_controller.go, and the labels of the
-- selector, where the pools are there.
use kata_operator.Base.{◌≡◌, refl, ap, ◌∙◌, Bool, true, false, Option, none, some, String}
use kata_operator.Api.Kata.{KataConfig, LabelSelector}
use kata_operator.Api.Objects.{MachineConfigPool, Ignition}
use kata_operator.Api.Errors.{Result, ok, err}
use kata_operator.Effect.{pure, deref, called}
use kata_operator.Effect.Keeps.{Ensures, Ensures-bind, Ensures-calls, Ensures-from}
use kata_operator.Cluster.{Cluster}
use kata_operator.Controllers.Reconciler.{Reconciler, ClientSet, match_labels}
use kata_operator.Controllers.OpenShift.Queries.{
  found, role_of, kata_oc_exists, worker_or_master, role_for_mc, new_mc_for_cr,
}
use kata_operator.Controllers.OpenShift.Cooperation.{
  Succeeds, InStep, Calm, Never, Calm-ask, Calm-current, Ensures-given, Ensures-ok, Ensures-gives,
}
use kata_operator.Controllers.OpenShift.Objects.{machine_config_for}

-- through the selector of the resource
module _ {W : Type 0} (kc : KataConfig) (usable : ClientSet → Type 0) where
  pub Calm-match_labels :
      {R : Type 0} (selector : LabelSelector)
      → kc.spec.kata_config_pool_selector ≡ some selector
      → Ensures
          (Calm {W = W} (λ k. k ≡ kc) usable)
          (match_labels {W = W} {R = R})
          (λ _. Calm (λ k. k ≡ kc) usable)
          Never
  unfolding match_labels pure
  Calm-match_labels selector e = Ensures-bind _ _ Calm-current λ now. Ensures-given λ q.
      Ensures-bind _ _
        (there now.spec.kata_config_pool_selector
          (ap (λ (k : KataConfig). k.spec.kata_config_pool_selector) q ∙ e))
        λ x. record { at = λ s h. h }
    where
      there :
          {R : Type 0} (o : Option LabelSelector)
          → o ≡ some selector
          → Ensures
              (Calm {W = W} (λ k. k ≡ kc) usable)
              (deref {R = R} o)
              (λ _. Calm (λ k. k ≡ kc) usable)
              Never
      there none e = cc
      there (some x) e = record { at = λ s h. h }

module _ {W : Type 0} (c : Cluster W) (kc : KataConfig) (usable : ClientSet → Type 0)
    (pools : (name : String) (w : W) → Succeeds InStep (c.get_machine_config_pool name w).0) where
  abbrev Still : Reconciler W → Type 0
  Still = Calm (λ k. k ≡ kc) usable

  -- a question, and an answer made of its answer
  Calm-role :
      {R : Type 0} (mcp : Result MachineConfigPool)
      → Ensures
          (λ s. Succeeds InStep mcp × Still s)
          (pure {R = R} (role_of mcp))
          (λ r s. Succeeds (λ _. Unit) r × Still s)
          Never
  unfolding pure
  Calm-role (ok mcp) = record { at = λ s (g, h). (tt, h) }
  Calm-role (err e) = record { at = λ s (g, h). absurd g }

  pub Calm-worker_or_master :
      {R : Type 0}
      → Ensures Still
          (called {R = R} (worker_or_master c))
          (λ r s. Succeeds (λ _. Unit) r × Still s)
          Never
  unfolding worker_or_master
  Calm-worker_or_master =
      Ensures-calls _
        (Ensures-bind _ _ (Calm-ask _ _ (λ w. pools "worker" w)) (λ mcp. Calm-role mcp))

  Calm-found :
      {R : Type 0} (mcp : Result MachineConfigPool)
      → Ensures
          (λ s. Succeeds InStep mcp × Still s)
          (pure {R = R} (found mcp))
          (λ r s. Succeeds (λ b. b ≡ true) r × Still s)
          Never
  unfolding pure
  Calm-found (ok mcp) = record { at = λ s (g, h). (refl, h) }
  Calm-found (err e) = record { at = λ s (g, h). absurd g }

  Calm-role_for_mc :
      (b : Bool) (pool : String)
      → b ≡ true
      → Ensures Still (role_for_mc c b pool) (λ _. Still) Never
  unfolding role_for_mc pure
  Calm-role_for_mc true pool e = record { at = λ s h. h }
  Calm-role_for_mc false pool e = cc

  pub Calm-new_mc_for_cr :
      {R : Type 0}
      → ((x : Ignition) → Succeeds (λ _. Unit) (c.marshal x))
      → (pool : String)
      → Ensures Still
          (called {R = R} (new_mc_for_cr c pool))
          (λ r s. Succeeds (λ _. Unit) r × Still s)
          Never
  unfolding new_mc_for_cr kata_oc_exists
  Calm-new_mc_for_cr marshals pool = Ensures-calls _ (
      Ensures-bind _ _
        (Ensures-calls _ (Ensures-bind _ _ (Calm-ask _ _ (λ w. pools _ w)) (λ mcp. Calm-found mcp)))
        λ exists. Ensures-bind _ _ (Ensures-ok _ exists) λ kata_oc. Ensures-given λ e.
          Ensures-bind _ _ (Calm-role_for_mc kata_oc pool e) λ role.
            Ensures-bind _ _ Calm-current λ now. Ensures-given λ q.
              Ensures-bind _ _ (Ensures-from (λ s h. (marshals _, h)) (Ensures-ok _ _)) λ raw.
                Ensures-from (λ s h. h.1) (Ensures-gives (ok (machine_config_for now role raw)) tt))
