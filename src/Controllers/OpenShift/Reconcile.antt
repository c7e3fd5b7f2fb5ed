-- ===== src/Controllers/OpenShift/Reconcile.antt =====
-- Reconcile of controllers/openshift_controller.go, over the handlers of the other modules.
pub mod Refusal
pub mod Alone
use kata_operator.Base.{
  String, Bool, true, false, not, ◌&&◌, Option, none, some, ◌==◌, nat_eq, string_eq, if◌then◌else◌,
  length,
}
use kata_operator.Base.GoInt.{of_len, is_positive}
use kata_operator.Api.Kata.{KataConfigStatus}
use kata_operator.Api.Errors.{Error, is_not_found}
use kata_operator.Effect.{◌>>=◌, Exec, ◌>>◌, return, or_return, when, called}
use kata_operator.Cluster.{Cluster}
use kata_operator.Controllers.Common.{install_operation}
use kata_operator.Controllers.Reconciler.{
  Reply, reply_done, reply_error, reply_requeue, Reconciler, current, assign, get_kata_config,
}
use kata_operator.Api.Kata.{zero_kata_config}
use kata_operator.Controllers.OpenShift.Oldest.{is_oldest_cr}
use kata_operator.Controllers.OpenShift.Queries.{delete_kata_daemonset}
use kata_operator.Controllers.OpenShift.Install.{process_kata_config_install_request}
use kata_operator.Controllers.OpenShift.Runtime.{set_runtime_class}
use kata_operator.Controllers.OpenShift.Monitor.{monitor_kata_config_installation}
use kata_operator.Controllers.OpenShift.Delete.{process_kata_config_delete_request}

-- Are the binaries installed on as many nodes as the resource counts?
abbrev pub binaries_installed : KataConfigStatus → Bool
binaries_installed s =
    is_positive s.total_nodes_count
    && (of_len (length s.installation_status.in_progress.binaries_installed_nodes_list)
        == s.total_nodes_count)

-- Is the installation complete, and no runtime class made yet?
abbrev pub needs_runtime_class : KataConfigStatus → Bool
needs_runtime_class s =
    is_positive s.total_nodes_count
    && (s.installation_status.completed.completed_nodes_count == s.total_nodes_count)
    && (s.runtime_class == "")

abbrev pub is_some : {A : Type 0} → Option A → Bool
is_some none = false
is_some (some _) = true

-- the answer for a resource that is not the oldest
abbrev pub refusal : Option Error → Reply
refusal (some e) = reply_requeue (some e)
refusal none = reply_done

module _ {W : Type 0} (c : Cluster W) where
  -- the handler for the oldest resource
  unfoldable pub dispatch : Exec (Reconciler W) Reply Reply
  dispatch = do
    kc ← current
    (if is_some kc.metadata.deletion_timestamp
        then process_kata_config_delete_request c
        else if binaries_installed kc.status
        then monitor_kata_config_installation c
        else if needs_runtime_class kc.status
        then (do
          deleted ← called (delete_kata_daemonset c install_operation)
          or_return reply_error deleted
          set_runtime_class c)
        else process_kata_config_install_request c)

  -- the anonymous function that Reconcile calls
  unfoldable pub reconcile_oldest : Exec (Reconciler W) Reply Reply
  reconcile_oldest = do
    verdict ← called (is_oldest_cr c)
    when (not verdict.0) (return (refusal verdict.1))
    dispatch

  unfoldable pub reconcile : String → Exec (Reconciler W) Reply Reply
  reconcile name = do
    assign (λ _. zero_kata_config)
    answer ← get_kata_config c name
    or_return (λ e. if is_not_found e then reply_done else reply_error e) answer
    reconcile_oldest
