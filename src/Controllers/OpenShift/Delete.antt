-- ===== src/Controllers/OpenShift/Delete.antt =====
-- processKataConfigDeleteRequest of controllers/openshift_controller.go.
pub mod Answers
pub mod Release
pub mod Sync
pub mod Liveness
pub mod Trace
pub mod Pool
pub mod Stages
pub mod Safety
pub mod Nodes
pub mod Evidence
use kata_operator.Base.{
  String, Bool, false, not, ◌&&◌, Option, none, some, List, [], ◌∷◌, ◌++◌, ◌==◌, nat_eq, string_eq,
  if◌then◌else◌, length, ltb,
}
use kata_operator.Base.GoInt.{inc, dec, is_positive}
use kata_operator.Api.Kata.{
  Labels, LabelSelector, KataConfig, KataUnInstallationStatus, over_status, over_un_installation,
}
use kata_operator.Api.Objects.{MachineConfigPool, MachineConfig}
use kata_operator.Api.Errors.{Result, ok, err, is_not_found, parent_pool_not_found}
use kata_operator.Effect.{◌>>=◌, Exec, ◌>>◌, pure, return, or_return, deref, when, called, for_each}
use kata_operator.Cluster.{Cluster}
use kata_operator.Controllers.Common.{
  uninstall_operation, contains, has_key, delete_key, kata_config_finalizer,
}
use kata_operator.Controllers.Reconciler.{
  Reply, reply_done, reply_error, reply_requeue_after, Reconciler, current, assign,
  update_kata_config, update_status, get_daemon_set, create_daemon_set, get_pool, delete_pool,
  get_machine_config, delete_machine_config, get_node, update_node, sleep, ensure_client_set,
  usable_client_set, match_labels,
}
use kata_operator.Controllers.OpenShift.Objects.{
  role_label, process_daemonset_for_cr, new_mcp_for_cr,
}
use kata_operator.Controllers.Reconciler.Create.{create_if_missing}
use kata_operator.Controllers.OpenShift.Queries.{
  list_kata_pods, worker_or_master, new_mc_for_cr, delete_kata_daemonset,
}

-- `for k := range labels { delete(nodeLabels, k) }`
unfoldable pub delete_keys : Labels → Labels → Labels
delete_keys [] node_labels = node_labels
delete_keys ((k, v) ∷ labels) node_labels = delete_keys labels (delete_key k node_labels)

-- One node that is not yet among the completed ones is recorded as completed.
unfoldable pub complete_node : String → KataUnInstallationStatus → KataUnInstallationStatus
complete_node node_name u = record u {
  completed = record {
    completed_nodes_count = inc u.completed.completed_nodes_count;
    completed_nodes_list = u.completed.completed_nodes_list ++ node_name ∷ [];
  };
  in_progress = record u.in_progress {
    in_progress_nodes_count =
        if is_positive u.in_progress.in_progress_nodes_count
        then dec u.in_progress.in_progress_nodes_count
        else u.in_progress.in_progress_nodes_count;
  };
}

-- The last loop, over the nodes whose binaries are uninstalled.
unfoldable pub complete_nodes : List String → KataUnInstallationStatus → KataUnInstallationStatus
unfolding complete_node
complete_nodes [] u = u
complete_nodes (node_name ∷ rest) u =
    complete_nodes rest
      (if contains u.completed.completed_nodes_list node_name then u else complete_node node_name u)

-- Go's nil pointer: an error of newMCForCR comes with a nil machine config, and the code that
-- ignores the error reads through it.
abbrev pub not_nil : {A : Type 0} → Result A → Option A
not_nil (ok a) = some a
not_nil (err _) = none

abbrev pub uninstalled_nodes : KataConfig → List String
uninstalled_nodes kc = kc.status.un_installation_status.in_progress.binaries_un_installed_nodes_list

abbrev pub complete_uninstalled : KataConfig → KataConfig
complete_uninstalled kc =
    over_status (over_un_installation (complete_nodes (uninstalled_nodes kc))) kc

-- `selector != nil && labels != nil && len(labels) > 0`
abbrev pub has_labels : Option LabelSelector → Bool
has_labels none = false
has_labels (some selector) = ltb 0 (length selector.match_labels)

unfoldable pub await_ready : {W : Type 0} → MachineConfigPool → Exec (Reconciler W) Reply (Unit {0})
await_ready mcp =
    when (not (mcp.ready_machine_count == mcp.machine_count)) (return (reply_requeue_after 15 none))

module _ {W : Type 0} (c : Cluster W) where
  -- The labels of the pool selector are taken off a node.
  unfoldable pub take_labels : Labels → String → Exec (Reconciler W) Reply (Unit {0})
  unfolding delete_keys
  take_labels labels node_name = do
    usable_client_set
    answer ← get_node c node_name
    node ← or_return reply_error answer
    updated ← update_node c (record node { labels = delete_keys labels node.labels })
    or_return reply_error updated

  -- A pool of its own is selected by labels, that of a role is not.
  unfoldable pub release_if_custom : String → String → Exec (Reconciler W) Reply (Unit {0})
  unfolding take_labels
  release_if_custom machine_pool node_name = do
    labels ← match_labels
    when (not (has_key (role_label machine_pool) labels)) (take_labels labels node_name)

  unfoldable pub release_node : String → String → Exec (Reconciler W) Reply (Unit {0})
  unfolding release_if_custom
  release_node machine_pool node_name = do
    kc ← current
    when (not (contains kc.status.un_installation_status.completed.completed_nodes_list node_name))
        (release_if_custom machine_pool node_name)

  unfoldable pub release_uninstalled : String → KataConfig → Exec (Reconciler W) Reply (Unit {0})
  unfolding release_node for_each
  release_uninstalled machine_pool kc = do
    made ← ensure_client_set c
    or_return reply_error made
    for_each (uninstalled_nodes kc) (release_node machine_pool)

  unfoldable pub release_nodes : String → Exec (Reconciler W) Reply (Unit {0})
  unfolding release_uninstalled
  release_nodes machine_pool = do
    kc ← current
    when
        (not (
            kc.status.un_installation_status.completed.completed_nodes_count
            == kc.status.total_nodes_count)
          && has_labels kc.spec.kata_config_pool_selector)
        (release_uninstalled machine_pool kc)

  -- The machine config goes, if it is there, and the pool must be in step again.
  unfoldable pub remove_mc_if_found : Result MachineConfig → Exec (Reconciler W) Reply (Unit {0})
  remove_mc_if_found (ok mc) = do deleted ← delete_machine_config c mc; sleep c 60
  remove_mc_if_found (err e) = if is_not_found e then pure tt else return (reply_error e)

  unfoldable pub sync_role_pool : String → Exec (Reconciler W) Reply (Unit {0})
  unfolding remove_mc_if_found await_ready
  sync_role_pool machine_pool = do
    made ← called (new_mc_for_cr c machine_pool)
    mc ← deref (not_nil made)
    found ← get_machine_config c mc.metadata.name
    remove_mc_if_found found
    answer ← get_pool c machine_pool
    worker_mcp ← or_return reply_error answer
    await_ready worker_mcp

  unfoldable pub sync_custom_pool : String → Exec (Reconciler W) Reply (Unit {0})
  unfolding await_ready
  sync_custom_pool machine_pool = do
    kc ← current
    when (not (ltb 0 (length (uninstalled_nodes kc)))) (return (reply_requeue_after 15 none))
    sleep c 60
    answer ← get_pool c machine_pool
    parent_mcp ←
        or_return
          (λ e.
            if is_not_found e
            then reply_requeue_after 15 (some (parent_pool_not_found ""))
            else reply_error e)
          answer
    await_ready parent_mcp
    mcp_deleted ← delete_pool c (new_mcp_for_cr kc)
    made ← called (new_mc_for_cr c machine_pool)
    mc ← deref (not_nil made)
    mc_deleted ← delete_machine_config c mc
    pure tt

  unfoldable pub sync_parent_pool : String → Exec (Reconciler W) Reply (Unit {0})
  unfolding sync_role_pool sync_custom_pool
  sync_parent_pool machine_pool = do
    labels ← match_labels
    (if has_key (role_label machine_pool) labels
        then sync_role_pool machine_pool
        else sync_custom_pool machine_pool)

  -- the daemon set of the uninstallation, which has no owner
  unfoldable pub ensure_uninstall_daemonset : Exec (Reconciler W) Reply (Unit {0})
  unfolding create_if_missing
  ensure_uninstall_daemonset = do
    kc ← current
    let ds = process_daemonset_for_cr kc uninstall_operation
    answer ← get_daemon_set c ds.metadata.name ds.metadata.namespace
    create_if_missing answer (create_daemon_set c ds)

  unfoldable pub drop_finalizer : Exec (Reconciler W) Reply (Unit {0})
  drop_finalizer = do
    assign (λ kc. record kc {
      metadata = record kc.metadata {
        finalizers = c.remove_finalizer kc.metadata.finalizers kata_config_finalizer;
      };
    })
    updated ← update_kata_config c
    or_return reply_error updated

  -- The body of `if contains(finalizers, kataConfigFinalizer)`.
  unfoldable pub finalize : String → Exec (Reconciler W) Reply (Unit {0})
  unfolding ensure_uninstall_daemonset release_nodes sync_parent_pool complete_nodes drop_finalizer
  finalize machine_pool = do
    pods ← called (list_kata_pods c)
    or_return (λ e. reply_requeue_after 15 (some e)) pods
    ensure_uninstall_daemonset
    release_nodes machine_pool
    sync_parent_pool machine_pool
    assign complete_uninstalled
    saved ← update_status c
    or_return reply_error saved
    deleted ← called (delete_kata_daemonset c uninstall_operation)
    or_return reply_error deleted
    drop_finalizer

  unfoldable pub process_kata_config_delete_request : Exec (Reconciler W) Reply Reply
  process_kata_config_delete_request = do
    pool ← called (worker_or_master c)
    machine_pool ← or_return (λ e. reply_requeue_after 15 (some e)) pool
    kc ← current
    when (contains kc.metadata.finalizers kata_config_finalizer) (finalize machine_pool)
    pure reply_done
