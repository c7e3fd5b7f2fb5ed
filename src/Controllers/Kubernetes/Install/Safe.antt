-- ===== src/Controllers/Kubernetes/Install/Safe.antt =====
-- Reads through nil pointers in the requests of controllers/kubernetes_controller.go.
use kata_operator.Base.{refl, String}
use kata_operator.Api.Objects.{Node, RuntimeClass}
use kata_operator.Api.Errors.{Result, ok, err}
use kata_operator.Effect.Safe.{IsSafe, Runs, IsSafe-bind, IsSafe-when, IsSafe-if, IsSafe-pure}
use kata_operator.Cluster.{Cluster}
use kata_operator.Controllers.Reconciler.{Reconciler, reply_done}
use kata_operator.Controllers.Reconciler.Safe.{
  IsSafe-current, IsSafe-labels, IsSafe-create_if_missing, safe_call_rules,
}
use kata_operator.Controllers.Kubernetes.Runtime.{
  create_class_if_missing, set_one_class, set_runtime_class,
}
use kata_operator.Controllers.Kubernetes.Monitor.{
  selected, default_selector, finish_installation, read_label, read_node,
  monitor_kata_config_installation,
}
use kata_operator.Controllers.Kubernetes.Install.{
  count_nodes, ensure_daemonset, process_kata_config_install_request,
}

module _ {W : Type 0} (c : Cluster W) where
  IsSafe-create_class_if_missing :
      (found : Result RuntimeClass) (rc : RuntimeClass)
      → IsSafe (create_class_if_missing c found rc)
  unfolding create_class_if_missing
  IsSafe-create_class_if_missing (ok _) rc = search safe_call_rules depth 20
  IsSafe-create_class_if_missing (err e) rc = search safe_call_rules depth 20

  IsSafe-set_one_class : (name : String) → IsSafe (set_one_class c name)
  unfolding set_one_class
  IsSafe-set_one_class name = search (safe_call_rules, IsSafe-create_class_if_missing) depth 20

  IsSafe-set_runtime_class : IsSafe (set_runtime_class c)
  unfolding set_runtime_class
  IsSafe-set_runtime_class = search (safe_call_rules, IsSafe-set_one_class) depth 20

  IsSafe-finish_installation : IsSafe (finish_installation c)
  unfolding finish_installation
  IsSafe-finish_installation = search (safe_call_rules, IsSafe-set_runtime_class) depth 25

  IsSafe-read_label : (name : String) (label : String × String) → IsSafe (read_label c name label)
  unfolding read_label
  IsSafe-read_label name label = search safe_call_rules depth 20

  IsSafe-read_node : (node : Node) → IsSafe (read_node c node)
  unfolding read_node
  IsSafe-read_node node = search (safe_call_rules, IsSafe-read_label) depth 20

  IsSafe-monitor : IsSafe (monitor_kata_config_installation c)
  unfolding monitor_kata_config_installation
  IsSafe-monitor = IsSafe-bind _ _ IsSafe-current λ kc. IsSafe-if _ _ _ IsSafe-finish_installation (
      IsSafe-labels (λ kc'. selected kc'.spec.kata_config_pool_selector) default_selector _
        (λ kc'. refl) (λ labels. search (safe_call_rules, IsSafe-read_node) depth 25))

  IsSafe-count_nodes : IsSafe (count_nodes c)
  unfolding count_nodes
  IsSafe-count_nodes =
      IsSafe-labels (λ kc. selected kc.spec.kata_config_pool_selector) default_selector _
        (λ kc. refl) (λ labels. search safe_call_rules depth 25)

  IsSafe-ensure_daemonset : IsSafe (ensure_daemonset c)
  unfolding ensure_daemonset
  IsSafe-ensure_daemonset = search (safe_call_rules, IsSafe-create_if_missing) depth 25

  IsSafe-process : IsSafe (process_kata_config_install_request c)
  unfolding process_kata_config_install_request
  IsSafe-process = IsSafe-bind _ _ IsSafe-current λ kc.
      IsSafe-bind _ _ (IsSafe-when _ _ IsSafe-count_nodes) λ _.
        IsSafe-bind _ _ IsSafe-current λ kc'.
          IsSafe-if _ _ _ (IsSafe-bind _ _ IsSafe-ensure_daemonset (λ _. IsSafe-monitor))
            (IsSafe-pure reply_done)

  -- Whatever the cluster answers, an installation request of the Kubernetes controller reads no nil
  -- pointer: it goes on to its end or returns, also where the resource has no selector of its nodes.
  pub kubernetes_install_request-Runs :
      (s : Reconciler W) → Runs (process_kata_config_install_request c s).0
  kubernetes_install_request-Runs s = IsSafe-process.runs s
