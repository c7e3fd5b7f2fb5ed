-- ===== src/Controllers/Kubernetes/Install.antt =====
-- Reconcile, processKataConfigInstallRequest and processKataConfigDeleteRequest of
-- controllers/kubernetes_controller.go.
pub mod Safe
pub mod Tally
use kata_operator.Base.{
  ℕ, String, Bool, true, false, not, ◌&&◌, Option, none, some, ◌==◌, nat_eq, string_eq,
  if◌then◌else◌, length,
}
use kata_operator.Base.GoInt.{of_len, is_positive}
use kata_operator.Api.Kata.{KataConfig, KataConfigStatus, over_status, zero_kata_config}
use kata_operator.Api.Errors.{is_not_found, no_suitable_nodes, source_image_missing}
use kata_operator.Effect.{Exec, ◌>>=◌, ◌>>◌, pure, return, or_return, when}
use kata_operator.Cluster.{Cluster}
use kata_operator.Controllers.Common.{install_operation}
use kata_operator.Controllers.Reconciler.{
  Reply, reply_done, reply_error, reply_requeue_after, Reconciler, current, assign, match_labels,
  get_kata_config, update_status, list_nodes, get_daemon_set, create_daemon_set,
}
use kata_operator.Controllers.Reconciler.Create.{create_if_missing}
use kata_operator.Controllers.Kubernetes.Objects.{process_daemonset}
use kata_operator.Controllers.Kubernetes.Monitor.{
  default_selector, monitor_kata_config_installation,
}

abbrev pub with_total : ℕ → KataConfig → KataConfig
with_total n = over_status (λ s. record s { total_nodes_count = n })

abbrev pub with_source_image : KataConfig → KataConfig
with_source_image kc = record kc {
  status = record kc.status {
    kata_image =
        if kc.status.kata_image == "" then kc.spec.config.source_image else kc.status.kata_image;
  };
}

-- is kata still to be installed on some of the nodes?
abbrev pub installing : KataConfigStatus → Bool
installing s =
    is_positive s.total_nodes_count
    && not (s.installation_status.completed.completed_nodes_count == s.total_nodes_count)

abbrev is_some : {A : Type 0} → Option A → Bool
is_some none = false
is_some (some _) = true

module _ {W : Type 0} (c : Cluster W) where
  -- the first `if`: the number of nodes, and the image
  unfoldable pub count_nodes : Exec (Reconciler W) Reply (Unit {0})
  count_nodes = do
    assign default_selector
    labels ← match_labels
    listed ← list_nodes c labels
    nodes ← or_return reply_error listed
    assign (with_total (of_len (length nodes)))
    when (of_len (length nodes) == 0) (return (reply_requeue_after 15 (some no_suitable_nodes)))
    kc ← current
    when (kc.spec.config.source_image == "")
        (return (reply_requeue_after 15 (some source_image_missing)))
    assign with_source_image
    saved ← update_status c
    or_return reply_error saved

  -- the daemon set of the installation, owned by the resource
  unfoldable pub ensure_daemonset : Exec (Reconciler W) Reply (Unit {0})
  unfolding create_if_missing
  ensure_daemonset = do
    kc ← current
    let ds = process_daemonset kc install_operation
    metadata ← or_return reply_error (c.set_controller_reference kc ds.metadata)
    answer ← get_daemon_set c ds.metadata.name ds.metadata.namespace
    create_if_missing answer (create_daemon_set c (record ds { metadata = metadata }))

  unfoldable pub process_kata_config_install_request : Exec (Reconciler W) Reply Reply
  unfolding count_nodes ensure_daemonset
  process_kata_config_install_request = do
    kc ← current
    when (kc.status.total_nodes_count == 0) count_nodes
    kc' ← current
    (if installing kc'.status
        then (do ensure_daemonset; monitor_kata_config_installation c)
        else pure reply_done)

  -- Nothing is done.
  unfoldable pub process_kata_config_delete_request : Exec (Reconciler W) Reply Reply
  process_kata_config_delete_request = pure reply_done

  unfoldable pub reconcile : String → Exec (Reconciler W) Reply Reply
  unfolding process_kata_config_delete_request
  reconcile name = do
    assign (λ _. zero_kata_config)
    answer ← get_kata_config c name
    or_return (λ e. if is_not_found e then reply_done else reply_error e) answer
    kc ← current
    (if is_some kc.metadata.deletion_timestamp
        then process_kata_config_delete_request
        else process_kata_config_install_request)
