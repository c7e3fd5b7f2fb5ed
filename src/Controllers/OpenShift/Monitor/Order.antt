-- ===== src/Controllers/OpenShift/Monitor/Order.antt =====
-- The calls of monitorKataConfigInstallation in their order: the pool, then the machine config.
use mathlib.Core.Path.{subst}
use kata_operator.Base.{◌≡◌, refl, ◌∙◌, nat_eq, string_eq, List, ◌∷◌}
use kata_operator.Api.Kata.{KataConfig}
use kata_operator.Effect.{done}
use kata_operator.Effect.Keeps.{
  After, Ensures, Ensures-bind, Ensures-map, Ensures-or_return, Ensures-where,
}
use kata_operator.Cluster.{Cluster}
use kata_operator.Cluster.Calls.{Call, got_machine_config_pool}
use kata_operator.Controllers.Reconciler.{Reply, Reconciler}
use kata_operator.Controllers.Reconciler.Traced.{Is, Is-call}
use kata_operator.Controllers.OpenShift.Objects.{kata_oc}
use kata_operator.Controllers.OpenShift.Cooperation.{Ensures-given}
use kata_operator.Controllers.OpenShift.Monitor.Evidence.{Placed, Placement}
use kata_operator.Controllers.OpenShift.Monitor.{monitor_kata_config_installation}
use kata_operator.Controllers.OpenShift.Monitor.Waiting.{
  Ended, Role, Chosen, Ensures-worker_or_master, Ensures-match_labels, Waited, Ensures-pool,
  Ensures-custom_pool,
}
use kata_operator.Controllers.OpenShift.Monitor.Making.{
  Ensures-create_mc_if_missing, Configured, Ensures-new_mc, Ensures-made_mc,
}

module _ {W : Type 0} (c : Cluster W) (kc : KataConfig) where
  pub Ensures-monitor :
      (l : List Call)
      → Ensures
          (Is kc l)
          (monitor_kata_config_installation c)
          (λ _ s. Placement c kc l s.calls)
          Ended
  unfolding monitor_kata_config_installation
  Ensures-monitor l = Ensures-bind _ _ (Ensures-worker_or_master c kc l) λ pool.
      Ensures-bind
        {Q = λ machine_pool s. (role : Role c kc machine_pool) × Chosen c kc l machine_pool role s}
        _ _ (Ensures-or_return _ pool (λ m s q (worker, e, h). ((worker, e ∙ q), h)) (λ s h. tt))
        λ machine_pool. Ensures-where {P = Chosen c kc l machine_pool} λ role.
          Ensures-bind _ _ (Ensures-match_labels c kc _) λ labels. Ensures-given λ own.
            Ensures-bind _ _
              (Ensures-custom_pool c kc _ machine_pool labels _ own (Ensures-pool c kc _))
              λ _. Ensures-where {P = Waited c kc machine_pool _} λ wait.
                Ensures-bind _ _ (Ensures-new_mc c kc machine_pool wait.0) λ made_mc.
                  Ensures-bind _ _ (Ensures-made_mc c kc machine_pool wait.0 made_mc) λ mc.
                    Ensures-where {P = Configured c kc machine_pool wait.0 mc} λ origin.
                      Ensures-bind _ _ (Is-call _ _) λ found.
                        Ensures-map
                          (λ _ s placed. (
                            role.0,
                            machine_pool,
                            role.1,
                            wait.0,
                            wait.1,
                            origin.0,
                            origin.1,
                            origin.2,
                            origin.3,
                            origin.4,
                            subst
                                (λ m.
                                  Placed m (got_machine_config_pool kata_oc origin.0 ∷ wait.0)
                                    s.calls)
                                origin.5 placed,
                          ))
                          (Ensures-create_mc_if_missing c kc _ mc found)

-- Where monitorKataConfigInstallation goes on to its end, its calls are, in this order: the read of
-- the pool of the workers, which tells the role of the nodes; where the pool selector of the resource
-- does not have the label of that role, the read of the pool of the resource, which has machines, all
-- of them ready; the read of the pool that the machine config is made for; and the machine config of
-- the resource, which is found by its name, or not found and created without an error.
pub monitor_kata_config_installation_lem :
    {W : Type 0} (c : Cluster W) (s : Reconciler W) (reply : Reply)
    → let run = monitor_kata_config_installation c s in
      run.0 ≡ done reply → Placement c s.kata_config s.calls run.1.calls
monitor_kata_config_installation_lem c s reply e =
    let run = monitor_kata_config_installation c s in
    subst (λ o. After (λ _ t. Placement c s.kata_config s.calls t.calls) Ended o run.1) e
      ((Ensures-monitor c s.kata_config s.calls).at s (record { resource = refl; trace = refl }))
