-- ===== src/Controllers/OpenShift/Queries.antt =====
-- The functions of controllers/openshift_controller.go that ask the cluster one thing, and those
-- that its handlers share.
pub mod Answers
pub mod Answered
pub mod Removal
use kata_operator.Base.{
  String, Bool, true, false, none, some, List, [], ◌∷◌, ◌==◌, nat_eq, string_eq, if◌then◌else◌,
}
use kata_operator.Base.GoInt.{is_positive32}
use kata_operator.Api.Objects.{MachineConfigPool, MachineConfig, Pod}
use kata_operator.Api.Errors.{Result, ok, err, is_not_found, existing_kata_pods, list_pods_failed}
use kata_operator.Effect.{◌>>=◌, Exec, ◌>>◌, pure, return, or_return, when, called}
use kata_operator.Cluster.{Cluster}
use kata_operator.Controllers.Common.{DaemonOperation, kata_config_finalizer}
use kata_operator.Controllers.Reconciler.{
  Reply, reply_error, Reconciler, current, assign, update_kata_config, get_daemon_set,
  delete_daemon_set, get_pool, list_pods, match_labels,
}
use kata_operator.Controllers.OpenShift.Objects.{
  process_daemonset_for_cr, ignition_config, machine_config_for, kata_oc,
}

-- The loop of listKataPods: does a pod use the runtime class?
unfoldable pub uses_runtime_class : String → List Pod → Bool
uses_runtime_class name [] = false
uses_runtime_class name (pod ∷ pods) =
    let rest = uses_runtime_class name pods in
    elim pod.runtime_class_name [ none ↦ rest | some n ↦ if n == name then true else rest ]

-- `(bool, error)`
abbrev pub found : {A : Type 0} → Result A → Result Bool
found (ok _) = ok true
found (err e) = if is_not_found e then ok false else err e

-- `(string, error)`; both of the source's error branches return the error
abbrev pub role_of : Result MachineConfigPool → Result String
role_of (ok mcp) = ok (if is_positive32 mcp.machine_count then "worker" else "master")
role_of (err e) = err e

module _ {W : Type 0} (c : Cluster W) where
  unfoldable pub list_kata_pods : Exec (Reconciler W) (Result (Unit {0})) (Result (Unit {0}))
  unfolding uses_runtime_class
  list_kata_pods = do
    listed ← list_pods c
    pods ← or_return (λ e. err (list_pods_failed e)) listed
    kc ← current
    when (uses_runtime_class kc.status.runtime_class pods) (return (err existing_kata_pods))
    pure (ok tt)

  unfoldable pub kata_oc_exists : Exec (Reconciler W) (Result Bool) (Result Bool)
  kata_oc_exists = do mcp ← get_pool c kata_oc; pure (found mcp)

  unfoldable pub worker_or_master : Exec (Reconciler W) (Result String) (Result String)
  worker_or_master = do mcp ← get_pool c "worker"; pure (role_of mcp)

  -- The role of the machine config: the source only logs that no valid role was found, but it
  -- reads through the selector to find out.
  unfoldable pub role_for_mc : Bool → String → Exec (Reconciler W) (Result MachineConfig) String
  role_for_mc true machine_pool = pure kata_oc
  role_for_mc false machine_pool = do labels ← match_labels; pure machine_pool

  unfoldable pub new_mc_for_cr :
      String → Exec (Reconciler W) (Result MachineConfig) (Result MachineConfig)
  unfolding kata_oc_exists role_for_mc
  new_mc_for_cr machine_pool = do
    exists ← called kata_oc_exists
    kata_oc ← or_return (λ e. err e) exists
    role ← role_for_mc kata_oc machine_pool
    kc ← current
    raw ← or_return (λ e. err e) (c.marshal (ignition_config kc.status.runtime_class))
    pure (ok (machine_config_for kc role raw))

  -- addFinalizer
  unfoldable pub add_finalizer : Exec (Reconciler W) (Result (Unit {0})) (Result (Unit {0}))
  add_finalizer = do
    assign (λ kc. record kc {
      metadata = record kc.metadata {
        finalizers = c.add_finalizer kc.metadata.finalizers kata_config_finalizer;
      };
    })
    update_kata_config c

  -- deleteKataDaemonset
  unfoldable pub delete_kata_daemonset :
      DaemonOperation → Exec (Reconciler W) (Result (Unit {0})) (Result (Unit {0}))
  delete_kata_daemonset operation = do
    kc ← current
    let ds = process_daemonset_for_cr kc operation
    answer ← get_daemon_set c ds.metadata.name ds.metadata.namespace
    found_ds ← or_return (λ e. if is_not_found e then ok tt else err e) answer
    delete_daemon_set c found_ds
