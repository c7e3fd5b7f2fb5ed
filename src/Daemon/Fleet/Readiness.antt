-- ===== src/Daemon/Fleet/Readiness.antt =====
-- Reconcile, where all nodes of the fleet have their binaries.
use mathlib.Core.Path.{subst}
use kata_operator.Base.{
  ◌≡◌, sym, ◌∙◌, ℕ, ◌+◌, ◌^◌, ◌<◌, true, none, some, nat_eq, String, List, arith,
}
use kata_operator.Api.Kata.{KataConfig, LabelSelector}
use kata_operator.Effect.{done}
use kata_operator.Effect.Keeps.{Ensures, Ensures-bind}
use kata_operator.Cluster.{Cluster}
use kata_operator.Controllers.Reconciler.{reply_done, Reconciler}
use kata_operator.Cluster.Calls.{Call}
use kata_operator.Controllers.OpenShift.Cooperation.{
  Has, Never, Calm-current, Ensures-given, finished,
}
use kata_operator.Controllers.OpenShift.Monitor.Evidence.{Placement}
use kata_operator.Controllers.OpenShift.Monitor.Placement.{Hosts, Placed-monitor}
use kata_operator.Controllers.OpenShift.Reconcile.Alone.{Ensures-reconcile}
use kata_operator.Controllers.OpenShift.Reconcile.{binaries_installed, dispatch, reconcile}
use kata_operator.Daemon.Fleet.{is_ready, number, Fleet, Reach}
use kata_operator.Daemon.Fleet.Reachable.{Reach-tests}

-- a resource that is to be monitored, by the tests of Reconcile
record Monitored (kc : KataConfig) : Type 0 where
  alive : kc.metadata.deletion_timestamp ≡ none
  installed : binaries_installed kc.status ≡ true

module _ {W : Type 0} (c : Cluster W) (name : String) (kc : KataConfig) (k : Hosts c name kc)
    (selector : LabelSelector) (e : kc.spec.kata_config_pool_selector ≡ some selector) where
  Placed-dispatch :
      Monitored kc
      → Ensures
          (Has kc)
          (dispatch c)
          (λ reply s. (reply ≡ reply_done) × ((before : List Call) × Placement c kc before s.calls))
          Never
  unfolding dispatch
  Placed-dispatch m = Ensures-bind _ _ Calm-current λ now. Ensures-given λ q.
      let n : Monitored now = subst Monitored (sym q) m in
      rw (n.alive, n.installed) (Placed-monitor c name kc k selector e)

-- Once all nodes have their binaries, one request sees to the machine config that brings the drop-in:
-- where the daemons have reached a fleet with `limit` nodes that wait, Reconcile answers without an
-- error or a new request, and its last calls are, in this order: the read of the pool of the workers,
-- which tells the role of the nodes; where the pool selector of the resource does not have the label
-- of that role, the read of the pool of the resource, which has machines, all of them ready; the read
-- of the pool that the machine config is made for; and the machine config of the resource, which is
-- found by its name, or not found and created without an error. The resource holds the installation
-- status of the fleet, counts `limit` nodes, one at least, has a pool selector, is not being deleted
-- and is the only one of its kind; `limit` with the number of the installations begun anew before
-- their end is below 2^63. The cluster reads this resource by its name; its pools are there, with
-- machines that are all ready; a machine config is there or not found, and can be created; and the
-- Ignition configuration can be marshalled.
pub ready_fleet-reconcile :
    {W : Type 0} (c : Cluster W) (s : Reconciler W) (name : String) (kc : KataConfig)
    (selector : LabelSelector) {limit : ℕ} {f : Fleet}
    → Hosts c name kc
    → kc.spec.kata_config_pool_selector ≡ some selector
    → 0 < limit
    → limit + f.slips.reruns < 2 ^ 63
    → Reach limit f
    → kc.status.installation_status ≡ f.status
    → kc.status.total_nodes_count ≡ limit
    → number is_ready f.ledger ≡ limit
    → kc.metadata.deletion_timestamp ≡ none
    → let run = reconcile c name s in
      (run.0 ≡ done reply_done) × ((before : List Call) × Placement c kc before run.1.calls)
ready_fleet-reconcile c s name kc selector {limit} {f} k e least small r same total full alive =
    let (ready_test, _) = Reach-tests kc.status least small r same total in
    let run = reconcile c name s in
    let ended =
      finished _ run.0 run.1 (λ reply h. h.0)
        ((Ensures-reconcile c name kc k.gets k.lists (
            Placed-dispatch c name kc k selector e
              (record { alive = alive; installed = ready_test ∙ ground (arith, full) }))).at
          s tt) in
    (ended.0, ended.1.1)
