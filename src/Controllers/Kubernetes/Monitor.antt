-- ===== src/Controllers/Kubernetes/Monitor.antt =====
-- monitorKataConfigInstallation of controllers/kubernetes_controller.go.
pub mod Marks
pub mod Tally
use kata_operator.Base.{
  String, Bool, true, false, not, ◌&&◌, Option, none, some, [], ◌∷◌, ◌++◌, ◌==◌, nat_eq, string_eq,
  if◌then◌else◌, length,
}
use kata_operator.Base.GoInt.{inc, of_len, is_positive}
use kata_operator.Api.Kata.{
  Labels, LabelSelector, KataConfig, KataConfigStatus, KataInstallationStatus, over_status,
  over_installation,
}
use kata_operator.Api.Objects.{Node}
use kata_operator.Api.Errors.{Error, Result}
use kata_operator.Effect.{Exec, ◌>>=◌, ◌>>◌, pure, return, or_return, when, called, for_each}
use kata_operator.Cluster.{Cluster}
use kata_operator.Controllers.Common.{contains}
use kata_operator.Controllers.Reconciler.{
  Reply, reply_done, reply_error, reply_requeue, Reconciler, current, assign, match_labels,
  update_status, list_nodes,
}
use kata_operator.Controllers.Kubernetes.Objects.{worker_label}
use kata_operator.Controllers.Kubernetes.Runtime.{set_runtime_class}

-- a selector of all the workers, where the resource has none
abbrev pub selected : Option LabelSelector → LabelSelector
selected (some selector) = selector
selected none = record { match_labels = (worker_label, "") ∷ []; match_expressions = [] }

abbrev pub default_selector : KataConfig → KataConfig
default_selector kc = record kc {
  spec = record kc.spec {
    kata_config_pool_selector = some (selected kc.spec.kata_config_pool_selector);
  };
}

-- are the binaries on as many nodes as the resource counts?
abbrev pub all_installed : KataConfigStatus → Bool
all_installed s =
    is_positive s.total_nodes_count
    && (s.installation_status.in_progress.in_progress_nodes_count == s.total_nodes_count)

-- The nodes with binaries become the completed ones.
unfoldable pub complete_all : KataInstallationStatus → KataInstallationStatus
complete_all s = record s {
  completed = record {
    completed_nodes_count = of_len (length s.in_progress.binaries_installed_nodes_list);
    completed_nodes_list = s.in_progress.binaries_installed_nodes_list;
  };
  in_progress = record { in_progress_nodes_count = 0; binaries_installed_nodes_list = [] };
}

-- A node has the binaries.
unfoldable pub node_installed : String → KataInstallationStatus → KataInstallationStatus
node_installed name s = record s {
  in_progress = record {
    in_progress_nodes_count = inc s.in_progress.in_progress_nodes_count;
    binaries_installed_nodes_list = s.in_progress.binaries_installed_nodes_list ++ name ∷ [];
  };
}

-- the label that the installation puts on a node
abbrev pub is_runtime_label : String × String → Bool
is_runtime_label (k, v) = (k == "katacontainers.io/kata-runtime") && (v == "true")

abbrev is_error : Option Error → Bool
is_error none = false
is_error (some _) = true

module _ {W : Type 0} (c : Cluster W) where
  -- the first `if`: the runtime classes, and the end of the installation
  unfoldable pub finish_installation : Exec (Reconciler W) Reply Reply
  finish_installation = do
    rs ← called (set_runtime_class c)
    when (is_error rs.error) (return rs)
    assign (over_status (over_installation complete_all))
    saved ← update_status c
    or_return reply_error saved
    return reply_done

  -- the loop over the labels of a node
  unfoldable pub read_label : String → String × String → Exec (Reconciler W) Reply (Unit {0})
  read_label name label = when (is_runtime_label label) (do
    assign (over_status (over_installation (node_installed name)))
    saved ← update_status c
    or_return reply_error saved)

  -- the loop over the nodes
  unfoldable pub read_node : Node → Exec (Reconciler W) Reply (Unit {0})
  unfolding read_label
  read_node node = do
    kc ← current
    when
        (not (
          contains kc.status.installation_status.in_progress.binaries_installed_nodes_list
            node.name))
        (for_each node.labels (read_label node.name))
    kc' ← current
    when
        (kc'.status.installation_status.in_progress.in_progress_nodes_count
          == kc'.status.total_nodes_count)
        (return (reply_requeue none))

  unfoldable pub monitor_kata_config_installation : Exec (Reconciler W) Reply Reply
  unfolding finish_installation read_node
  monitor_kata_config_installation = do
    kc ← current
    (if all_installed kc.status then finish_installation else (do
      assign default_selector
      labels ← match_labels
      listed ← list_nodes c labels
      nodes ← or_return reply_error listed
      for_each nodes read_node
      pure reply_done))
