-- ===== src/Controllers/OpenShift/Delete/Trace.antt =====
-- What the deletion of a resource has asked the cluster before it drops the finalizer.
use kata_operator.Base.{String, Bool, true, false, List, nat_eq, string_eq}
use kata_operator.Api.Objects.{MachineConfig}
use kata_operator.Api.Errors.{Result, ok, err}
use kata_operator.Effect.{Exec}
use kata_operator.Cluster.{Cluster}
use kata_operator.Controllers.Common.{DaemonOperation}
use kata_operator.Controllers.Reconciler.{Reply, Reconciler}
use kata_operator.Effect.Keeps.{Keeps}
use kata_operator.Cluster.Calls.{Call}
use kata_operator.Controllers.Reconciler.Keeps.{OnCalls, IsStable, call_rules}
use kata_operator.Controllers.Reconciler.Create.{create_if_missing}
use kata_operator.Controllers.OpenShift.Queries.{
  list_kata_pods, worker_or_master, kata_oc_exists, role_for_mc, new_mc_for_cr,
  delete_kata_daemonset,
}
use kata_operator.Controllers.OpenShift.Delete.{
  take_labels, release_if_custom, release_node, release_uninstalled, release_nodes,
  remove_mc_if_found, ensure_uninstall_daemonset,
}

module _ {W : Type 0} (c : Cluster W) {P : List Call → Type 0} (p : IsStable P) where
  pub Keeps-worker_or_master : Keeps (OnCalls P) (worker_or_master c)
  unfolding worker_or_master
  Keeps-worker_or_master = search call_rules depth 12

  pub Keeps-list_kata_pods : Keeps (OnCalls P) (list_kata_pods c)
  unfolding list_kata_pods
  Keeps-list_kata_pods = search call_rules depth 20

  pub Keeps-kata_oc_exists : Keeps (OnCalls P) (kata_oc_exists c)
  unfolding kata_oc_exists
  Keeps-kata_oc_exists = search call_rules depth 20

  pub Keeps-role_for_mc : (b : Bool) (pool : String) → Keeps (OnCalls P) (role_for_mc c b pool)
  unfolding role_for_mc
  Keeps-role_for_mc true pool = search call_rules depth 20
  Keeps-role_for_mc false pool = search call_rules depth 20

  pub Keeps-new_mc_for_cr : (pool : String) → Keeps (OnCalls P) (new_mc_for_cr c pool)
  unfolding new_mc_for_cr
  Keeps-new_mc_for_cr pool = search (call_rules, Keeps-kata_oc_exists, Keeps-role_for_mc) depth 20

  pub Keeps-create_if_missing :
      {A : Type 0} (answer : Result A) (create : Exec (Reconciler W) Reply (Result (Unit {0})))
      → Keeps (OnCalls P) create
      → Keeps (OnCalls P) (create_if_missing answer create)
  unfolding create_if_missing
  Keeps-create_if_missing (ok _) create k = search call_rules depth 20
  Keeps-create_if_missing (err e) create k = search call_rules depth 20

  pub Keeps-ensure_uninstall_daemonset : Keeps (OnCalls P) (ensure_uninstall_daemonset c)
  unfolding ensure_uninstall_daemonset
  Keeps-ensure_uninstall_daemonset = search (call_rules, Keeps-create_if_missing) depth 20

  pub Keeps-release_node : (pool name : String) → Keeps (OnCalls P) (release_node c pool name)
  unfolding release_node release_if_custom take_labels
  Keeps-release_node pool name = search call_rules depth 20

  pub Keeps-release_nodes : (pool : String) → Keeps (OnCalls P) (release_nodes c pool)
  unfolding release_nodes release_uninstalled
  Keeps-release_nodes pool = search (call_rules, Keeps-release_node) depth 20

  pub Keeps-remove_mc_if_found :
      (answer : Result MachineConfig) → Keeps (OnCalls P) (remove_mc_if_found c answer)
  unfolding remove_mc_if_found
  Keeps-remove_mc_if_found (ok mc) = search call_rules depth 20
  Keeps-remove_mc_if_found (err e) = search call_rules depth 20

  pub Keeps-delete_kata_daemonset :
      (op : DaemonOperation) → Keeps (OnCalls P) (delete_kata_daemonset c op)
  unfolding delete_kata_daemonset
  Keeps-delete_kata_daemonset op = search call_rules depth 20
