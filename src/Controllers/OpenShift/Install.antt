-- ===== src/Controllers/OpenShift/Install.antt =====
-- processKataConfigInstallRequest of controllers/openshift_controller.go.
pub mod Safe
use kata_operator.Base.{
  ℕ, String, Bool, not, ◌&&◌, Option, none, some, [], ◌∷◌, ◌==◌, nat_eq, string_eq, if◌then◌else◌,
  length,
}
use kata_operator.Base.GoInt.{of_len, is_positive}
use kata_operator.Api.Kata.{LabelSelector, KataConfig, KataConfigStatus, over_status}
use kata_operator.Api.Errors.{no_suitable_nodes}
use kata_operator.Effect.{Exec, ◌>>=◌, ◌>>◌, pure, return, or_return, when, called}
use kata_operator.Cluster.{Cluster}
use kata_operator.Controllers.Common.{install_operation, contains, kata_config_finalizer}
use kata_operator.Controllers.Reconciler.{
  Reply, reply_done, reply_error, reply_requeue_after, Reconciler, current, assign, update_status,
  get_daemon_set, create_daemon_set, list_nodes, match_labels,
}
use kata_operator.Controllers.OpenShift.Objects.{role_label, process_daemonset_for_cr}
use kata_operator.Controllers.Reconciler.Create.{create_if_missing}
use kata_operator.Controllers.OpenShift.Queries.{worker_or_master, add_finalizer}

abbrev pub kata_image : String
kata_image = "quay.io/kata-operator/kata-artifacts:1.0"

-- a selector of all the nodes of the role, where the resource has none
abbrev pub selected : String → Option LabelSelector → LabelSelector
selected machine_pool (some selector) = selector
selected machine_pool none = record {
  match_labels = (role_label machine_pool, "") ∷ [];
  match_expressions = [];
}

abbrev pub default_selector : String → KataConfig → KataConfig
default_selector machine_pool kc = record kc {
  spec = record kc.spec {
    kata_config_pool_selector = some (selected machine_pool kc.spec.kata_config_pool_selector);
  };
}

abbrev pub with_total : ℕ → KataConfig → KataConfig
with_total n = over_status (λ s. record s { total_nodes_count = n })

abbrev pub with_default_image : KataConfig → KataConfig
with_default_image =
    over_status
      (λ s. record s { kata_image = if s.kata_image == "" then kata_image else s.kata_image })

-- is kata still to be installed on some of the nodes?
abbrev pub installing : KataConfigStatus → Bool
installing s =
    is_positive s.total_nodes_count
    && not (s.installation_status.completed.completed_nodes_count == s.total_nodes_count)

module _ {W : Type 0} (c : Cluster W) where
  -- the first `if`: the number of nodes
  unfoldable pub count_nodes : Exec (Reconciler W) Reply (Unit {0})
  unfolding worker_or_master
  count_nodes = do
    pool ← called (worker_or_master c)
    machine_pool ← or_return reply_error pool
    assign (default_selector machine_pool)
    labels ← match_labels
    listed ← list_nodes c labels
    nodes ← or_return reply_error listed
    assign (with_total (of_len (length nodes)))
    when (of_len (length nodes) == 0) (return (reply_requeue_after 15 (some no_suitable_nodes)))
    saved ← update_status c
    or_return reply_error saved

  -- the daemon set of the installation, owned by the resource
  unfoldable pub ensure_install_daemonset : Exec (Reconciler W) Reply (Unit {0})
  unfolding create_if_missing
  ensure_install_daemonset = do
    kc ← current
    let ds = process_daemonset_for_cr kc install_operation
    metadata ← or_return reply_error (c.set_controller_reference kc ds.metadata)
    answer ← get_daemon_set c ds.metadata.name ds.metadata.namespace
    create_if_missing answer (create_daemon_set c (record ds { metadata = metadata }))

  unfoldable pub ensure_finalizer : Exec (Reconciler W) Reply (Unit {0})
  unfolding add_finalizer
  ensure_finalizer = do
    kc ← current
    when (not (contains kc.metadata.finalizers kata_config_finalizer))
        (do added ← called (add_finalizer c); or_return reply_error added)

  unfoldable pub process_kata_config_install_request : Exec (Reconciler W) Reply Reply
  unfolding count_nodes ensure_install_daemonset ensure_finalizer
  process_kata_config_install_request = do
    kc ← current
    when (kc.status.total_nodes_count == 0) count_nodes
    assign with_default_image
    kc' ← current
    when (installing kc'.status) ensure_install_daemonset
    ensure_finalizer
    pure reply_done
