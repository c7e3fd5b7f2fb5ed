-- ===== src/Controllers/Kubernetes/Install/Tally.antt =====
-- The counts of the installation status over a whole request of the Kubernetes controller.
use kata_operator.Base.{ℕ}
use kata_operator.Api.Errors.{Result, ok, err}
use kata_operator.Effect.{Exec}
use kata_operator.Effect.Keeps.{Keeps, Keeps-bind, Keeps-when, Keeps-if, Keeps-pure}
use kata_operator.Cluster.{Cluster, EchoesStatus}
use kata_operator.Controllers.Reconciler.{Reconciler, Reply, reply_done, assign}
use kata_operator.Controllers.Reconciler.Create.{create_if_missing}
use kata_operator.Controllers.Kubernetes.Monitor.{default_selector}
use kata_operator.Controllers.Kubernetes.Monitor.Tally.{
  IsTallied, HoldsTally, Keeps-current, Keeps-assign, Keeps-monitor, Keeps-update_status,
  tally_rules,
}
use kata_operator.Controllers.Kubernetes.Install.{
  with_total, with_source_image, count_nodes, ensure_daemonset, process_kata_config_install_request,
}

module _ {W : Type 0} (c : Cluster W) (echoes : EchoesStatus c) where
  Keeps-default : Keeps HoldsTally (assign {W = W} {R = Reply} default_selector)
  Keeps-default = Keeps-assign default_selector (λ kc t. t)

  Keeps-total : (n : ℕ) → Keeps HoldsTally (assign {W = W} {R = Reply} (with_total n))
  Keeps-total n = Keeps-assign (with_total n) (λ kc t. t)

  Keeps-source : Keeps HoldsTally (assign {W = W} {R = Reply} with_source_image)
  Keeps-source = Keeps-assign with_source_image (λ kc t. t)

  Keeps-count_nodes : Keeps HoldsTally (count_nodes c)
  unfolding count_nodes
  Keeps-count_nodes =
      search (tally_rules, Keeps-update_status c echoes, Keeps-default, Keeps-total, Keeps-source)
        depth 25

  Keeps-create_if_missing :
      {A : Type 0} (answer : Result A) (create : Exec (Reconciler W) Reply (Result (Unit {0})))
      → Keeps HoldsTally create
      → Keeps HoldsTally (create_if_missing answer create)
  unfolding create_if_missing
  Keeps-create_if_missing (ok _) create k = search tally_rules depth 20
  Keeps-create_if_missing (err e) create k = search tally_rules depth 20

  Keeps-ensure_daemonset : Keeps HoldsTally (ensure_daemonset c)
  unfolding ensure_daemonset
  Keeps-ensure_daemonset = search (tally_rules, Keeps-create_if_missing) depth 20

  Keeps-install_request : Keeps HoldsTally (process_kata_config_install_request c)
  unfolding process_kata_config_install_request
  Keeps-install_request = Keeps-bind _ _ Keeps-current λ kc.
      Keeps-bind _ _ (Keeps-when _ _ (λ _. Keeps-count_nodes)) λ _.
        Keeps-bind _ _ Keeps-current λ kc'.
          Keeps-if _ _ _ (Keeps-bind _ _ Keeps-ensure_daemonset (λ _. Keeps-monitor c echoes))
            (Keeps-pure reply_done)

  -- However an installation request of the Kubernetes controller ends, the resource that it holds has
  -- its nodes with binaries and its completed nodes counted by their lists, where it had them so
  -- before. An accepted update of the status is supposed to be answered by the status that was
  -- sent.
  pub install_request-IsTallied :
      (s : Reconciler W)
      → IsTallied s.kata_config.status.installation_status
      → IsTallied (process_kata_config_install_request c s).1.kata_config.status.installation_status
  install_request-IsTallied s t = (Keeps-install_request.at s (record { held = t })).held
