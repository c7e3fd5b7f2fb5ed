-- ===== src/Controllers/OpenShift/Monitor/Placement.antt =====
-- monitorKataConfigInstallation on a cluster that hosts the nodes.
use kata_operator.Base.{
  List, ◌≡◌, refl, ℕ, String, false, not, some, ◌==◌, nat_eq, string_eq, length, arith,
}
use kata_operator.Api.Kata.{KataConfig, LabelSelector, zero_kata_config}
use kata_operator.Api.Objects.{MachineConfigPool, MachineConfig, Ignition}
use kata_operator.Api.Errors.{Result, ok, err}
use kata_operator.Effect.{pure, ◌>>=◌}
use kata_operator.Effect.Keeps.{Ensures, Ensures-bind, Ensures-map, Ensures-when, Ensures-join}
use kata_operator.Cluster.{Cluster}
use kata_operator.Controllers.Reconciler.{Reply, reply_done, current, get_pool}
use kata_operator.Controllers.Common.{has_key}
use kata_operator.Controllers.OpenShift.Objects.{role_label, new_mcp_for_cr}
use kata_operator.Cluster.Calls.{Call}
use kata_operator.Controllers.OpenShift.Cooperation.{
  Succeeds, IsAnswered, InStep, Has, Never, Calm-ask, Calm-current, Ensures-given, Ensures-ok,
  Ensures-gives, Ensures-skip,
}
use kata_operator.Controllers.OpenShift.Queries.Answered.{
  Calm-match_labels, Calm-worker_or_master, Calm-new_mc_for_cr,
}
use kata_operator.Controllers.OpenShift.Monitor.{
  await_pool, create_mc_if_missing, monitor_kata_config_installation,
}
use kata_operator.Controllers.OpenShift.Monitor.Evidence.{Placement}
use kata_operator.Controllers.OpenShift.Monitor.Order.{Ensures-monitor}
use kata_operator.Controllers.OpenShift.Monitor.Waiting.{Ended}

abbrev pub HasMachines : MachineConfigPool → Type 0
HasMachines mcp = (mcp.machine_count == 0) ≡ false

-- The calls of the monitoring succeed: the resource is read as `kc`, and is the only one; all pools
-- are there, with machines that are all ready; a machine config is there or not found, and can be
-- created.
pub record Hosts {W : Type 0} (c : Cluster W) (name : String) (kc : KataConfig) : Type 0 where
  pub gets : (w : W) → Succeeds (λ k. k ≡ kc) (c.get_kata_config name zero_kata_config w).0
  pub lists : (w : W) → Succeeds (λ items. length items ≡ 1) (c.list_kata_configs w).0
  pub pools : (pool : String) (w : W) → Succeeds InStep (c.get_machine_config_pool pool w).0
  pub machines : (pool : String) (w : W) → Succeeds HasMachines (c.get_machine_config_pool pool w).0
  pub machine_configs : (mc_name : String) (w : W) → IsAnswered (c.get_machine_config mc_name w).0
  pub creates : (mc : MachineConfig) (w : W) → Succeeds (λ _. Unit) (c.create_machine_config mc w).0
  pub marshals : (x : Ignition) → Succeeds (λ _. Unit) (c.marshal x)

all_ready : (a b : ℕ) → b ≡ a → not (a == b) ≡ false
all_ready a b e = ground arith

module _ {W : Type 0} (c : Cluster W) (name : String) (kc : KataConfig) (k : Hosts c name kc) where
  Has-await_pool :
      (mcp : MachineConfigPool) (answer : Result MachineConfigPool)
      → Ensures
          (λ s. (Succeeds InStep answer × Succeeds HasMachines answer) × Has kc s)
          (await_pool c mcp answer)
          (λ _. Has kc)
          Never
  unfolding await_pool
  Has-await_pool mcp (ok found) = Ensures-given λ (ready, more).
      Ensures-bind _ _ (Ensures-skip _ _ more)
        λ _. Ensures-skip _ _ (all_ready found.machine_count found.ready_machine_count ready)
  Has-await_pool mcp (err e) = Ensures-given λ (g, h). absurd g

  Has-create_mc_if_missing :
      (mc : MachineConfig) (answer : Result MachineConfig)
      → Ensures
          (λ s. IsAnswered answer × Has kc s)
          (create_mc_if_missing c mc answer)
          (λ reply _. reply ≡ reply_done)
          Never
  unfolding create_mc_if_missing pure
  Has-create_mc_if_missing mc (ok found) = record { at = λ s h. refl }
  Has-create_mc_if_missing mc (err e) = Ensures-given λ g. rw g (
      Ensures-bind _ _ (Calm-ask _ _ (k.creates mc)) λ created.
        Ensures-bind _ _ (Ensures-ok {Q = λ _. Unit {0}} _ created)
          λ _. Ensures-given λ _. Ensures-map (λ a s h. h.0) (Ensures-gives reply_done refl))

  -- the pool of the nodes, where they have one of their own
  Has-pool :
      Ensures
        (Has kc)
        (do
          now ← current {R = Reply}
          let mcp = new_mcp_for_cr now
          found ← get_pool c mcp.metadata.name
          await_pool c mcp found)
        (λ _. Has kc)
        Never
  Has-pool = Ensures-bind _ _ Calm-current λ now. Ensures-given λ q.
      Ensures-bind _ _ (Calm-ask _ _ (λ w. (k.pools _ w, k.machines _ w)))
        λ found. Has-await_pool (new_mcp_for_cr now) found

  ends :
      (selector : LabelSelector)
      → kc.spec.kata_config_pool_selector ≡ some selector
      → Ensures (Has kc) (monitor_kata_config_installation c) (λ reply _. reply ≡ reply_done) Never
  unfolding monitor_kata_config_installation
  ends selector e = Ensures-bind _ _ (Calm-worker_or_master c kc (λ _. Unit) k.pools) λ pool.
      Ensures-bind _ _ (Ensures-ok _ pool) λ machine_pool. Ensures-given λ _.
        Ensures-bind _ _ (Calm-match_labels kc (λ _. Unit) selector e) λ labels.
          Ensures-bind _ _
            (Ensures-when (not (has_key (role_label machine_pool) labels)) _ (λ _. Has-pool)
              (λ out s h. h))
            λ _.
              Ensures-bind _ _ (Calm-new_mc_for_cr c kc (λ _. Unit) k.pools k.marshals machine_pool)
                λ made. Ensures-bind _ _ (Ensures-ok {Q = λ _. Unit {0}} _ made) λ mc.
                  Ensures-given λ _.
                    Ensures-bind _ _ (Calm-ask _ _ (k.machine_configs _))
                      λ found. Has-create_mc_if_missing mc found

  -- The calls from the start on are those of an installation.
  placements :
      Ensures
        (Has kc)
        (monitor_kata_config_installation c)
        (λ _ s. (before : List Call) × Placement c kc before s.calls)
        Ended
  placements = record {
    at = λ s h.
        (Ensures-map (λ _ t p. (s.calls, p)) (Ensures-monitor c kc s.calls)).at s
          (record { resource = h.resource; trace = refl });
  }

  -- The call comes to its end without an error, after the pool and the machine config.
  pub Placed-monitor :
      (selector : LabelSelector)
      → kc.spec.kata_config_pool_selector ≡ some selector
      → Ensures
          (Has kc)
          (monitor_kata_config_installation c)
          (λ reply s. (reply ≡ reply_done) × ((before : List Call) × Placement c kc before s.calls))
          Never
  Placed-monitor selector e = Ensures-join (ends selector e) placements
