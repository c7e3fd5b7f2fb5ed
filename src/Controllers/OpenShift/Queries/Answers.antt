-- ===== src/Controllers/OpenShift/Queries/Answers.antt =====
-- What the shared functions of controllers/openshift_controller.go return, in closed form.
use kata_operator.Base.{◌≡◌, String, List, ◌∷◌, nat_eq, string_eq, if◌then◌else◌}
use kata_operator.Api.Objects.{DaemonSet, Pod}
use kata_operator.Api.Errors.{Result, ok, err, is_not_found, existing_kata_pods, list_pods_failed}
use kata_operator.Effect.{◌>>=◌}
use kata_operator.Cluster.{Cluster}
use kata_operator.Controllers.Common.{DaemonOperation}
use kata_operator.Controllers.Reconciler.{Reconciler, current, ask}
use kata_operator.Controllers.OpenShift.Objects.{process_daemonset_for_cr}
use kata_operator.Base.{arith}
use kata_operator.Effect.{done, result}
use kata_operator.Cluster.Calls.{Call, listed_pods, got_daemon_set, deleted_daemon_set}
use kata_operator.Controllers.OpenShift.Objects.{daemon_set_name, daemon_set_namespace}
use kata_operator.Controllers.OpenShift.Queries.{
  uses_runtime_class, list_kata_pods, delete_kata_daemonset,
}

-- the answer of listKataPods to a list of the pods
abbrev pub pods_verdict : String → Result (List Pod) → Result (Unit {0})
pods_verdict rc (ok pods) = if uses_runtime_class rc pods then err existing_kata_pods else ok tt
pods_verdict rc (err e) = err (list_pods_failed e)

module _ {W : Type 0} (c : Cluster W) (s : Reconciler W) where
  pub calls-list_kata_pods :
      (list_kata_pods c s).1.calls ≡ listed_pods (c.list_pods s.world).0 ∷ s.calls
  unfolding list_kata_pods ◌>>=◌ ask current
  calls-list_kata_pods = ground arith

  pub list_kata_pods_lem :
      {R : Type 0}
      → result {R = R} (list_kata_pods c s).0
        ≡ done (pods_verdict s.kata_config.status.runtime_class (c.list_pods s.world).0)
  unfolding list_kata_pods ◌>>=◌ ask current
  list_kata_pods_lem = ground arith

-- what deleteKataDaemonset answers, and its calls, from the answer about the daemon set on
abbrev pub deletion :
    {W : Type 0} → Cluster W → Result DaemonSet → W → List Call → Result (Unit {0}) × List Call
deletion c (ok ds) w calls =
    let (a, w') = c.delete_daemon_set ds w in (a, deleted_daemon_set ds a ∷ calls)
deletion c (err e) w calls = (if is_not_found e then ok tt else err e, calls)

module _ {W : Type 0} (c : Cluster W) (op : DaemonOperation) (s : Reconciler W) where
  -- the daemon set that is looked for
  abbrev pub asked : Result DaemonSet × W
  asked = c.get_daemon_set (daemon_set_name op) daemon_set_namespace s.world

  abbrev pub deleted : Result (Unit {0}) × List Call
  deleted =
      deletion c asked.0 asked.1
        (got_daemon_set (daemon_set_name op) daemon_set_namespace asked.0 ∷ s.calls)

  pub calls-delete_kata_daemonset : (delete_kata_daemonset c op s).1.calls ≡ deleted.1
  unfolding delete_kata_daemonset ◌>>=◌ ask current process_daemonset_for_cr
  calls-delete_kata_daemonset = ground arith

  pub delete_kata_daemonset_lem :
      {R : Type 0} → result {R = R} (delete_kata_daemonset c op s).0 ≡ done deleted.0
  unfolding delete_kata_daemonset ◌>>=◌ ask current process_daemonset_for_cr
  delete_kata_daemonset_lem = ground arith
