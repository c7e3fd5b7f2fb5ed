-- ===== src/Controllers/OpenShift/Install/Safe.antt =====
-- Reads through nil pointers in processKataConfigInstallRequest of
-- controllers/openshift_controller.go.
use kata_operator.Base.{refl}
use kata_operator.Effect.Safe.{
  IsSafe, Runs, IsSafe-bind, IsSafe-when, IsSafe-pure, IsSafe-called, IsSafe-or_return,
}
use kata_operator.Cluster.{Cluster}
use kata_operator.Controllers.Reconciler.{Reconciler, reply_done}
use kata_operator.Controllers.Reconciler.Safe.{
  IsSafe-current, IsSafe-assign, IsSafe-labels, IsSafe-create_if_missing, safe_call_rules,
}
use kata_operator.Controllers.OpenShift.Queries.{worker_or_master, add_finalizer}
use kata_operator.Controllers.OpenShift.Install.{
  selected, default_selector, count_nodes, ensure_install_daemonset, ensure_finalizer,
  with_default_image, process_kata_config_install_request,
}

module _ {W : Type 0} (c : Cluster W) where
  IsSafe-worker_or_master : IsSafe (worker_or_master c)
  unfolding worker_or_master
  IsSafe-worker_or_master = search safe_call_rules depth 20

  IsSafe-add_finalizer : IsSafe (add_finalizer c)
  unfolding add_finalizer
  IsSafe-add_finalizer = search safe_call_rules depth 20

  IsSafe-count_nodes : IsSafe (count_nodes c)
  unfolding count_nodes
  IsSafe-count_nodes = IsSafe-bind _ _ (IsSafe-called _ IsSafe-worker_or_master) λ pool.
      IsSafe-bind _ _ (IsSafe-or_return _ pool) λ machine_pool.
        IsSafe-labels (λ kc. selected machine_pool kc.spec.kata_config_pool_selector)
          (default_selector machine_pool) _ (λ kc. refl) (λ labels. search safe_call_rules depth 25)

  IsSafe-ensure_install_daemonset : IsSafe (ensure_install_daemonset c)
  unfolding ensure_install_daemonset
  IsSafe-ensure_install_daemonset = search (safe_call_rules, IsSafe-create_if_missing) depth 25

  IsSafe-ensure_finalizer : IsSafe (ensure_finalizer c)
  unfolding ensure_finalizer
  IsSafe-ensure_finalizer = search (safe_call_rules, IsSafe-add_finalizer) depth 25

  IsSafe-process : IsSafe (process_kata_config_install_request c)
  unfolding process_kata_config_install_request
  IsSafe-process = IsSafe-bind _ _ IsSafe-current λ kc.
      IsSafe-bind _ _ (IsSafe-when _ _ IsSafe-count_nodes) λ _.
        IsSafe-bind _ _ (IsSafe-assign with_default_image) λ _.
          IsSafe-bind _ _ IsSafe-current λ kc'.
            IsSafe-bind _ _ (IsSafe-when _ _ IsSafe-ensure_install_daemonset)
              λ _. IsSafe-bind _ _ IsSafe-ensure_finalizer λ _. IsSafe-pure reply_done

  -- Whatever the cluster answers, an installation request of the OpenShift controller reads no nil
  -- pointer: it goes on to its end or returns, also where the resource has no selector of its nodes.
  pub install_request-Runs : (s : Reconciler W) → Runs (process_kata_config_install_request c s).0
  install_request-Runs s = IsSafe-process.runs s
