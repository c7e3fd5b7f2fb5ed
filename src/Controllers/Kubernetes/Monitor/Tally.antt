-- ===== src/Controllers/Kubernetes/Monitor/Tally.antt =====
-- The counts of the installation status in the handlers of controllers/kubernetes_controller.go.
use mathlib.Core.Path.{subst}
use kata_operator.Base.{◌≡◌, refl, sym, String, [], ◌∷◌, length, length-append, arith}
use kata_operator.Base.GoInt.{of_len}
use kata_operator.Api.Kata.{KataConfig, KataInstallationStatus, over_status, over_installation}
use kata_operator.Api.Objects.{Node, RuntimeClass}
use kata_operator.Api.Errors.{Result, ok, err}
use kata_operator.Effect.Keeps.{Keeps, keeps_rules}
use kata_operator.Cluster.{Cluster, EchoesStatus}
use kata_operator.Cluster.Calls.{Call}
use kata_operator.Controllers.Reconciler.{
  Reconciler, current, assign, match_labels, ask, stored, update_status,
}
use kata_operator.Controllers.Kubernetes.Runtime.{
  create_class_if_missing, set_one_class, set_runtime_class, join, runtime_class_names,
}
use kata_operator.Controllers.Kubernetes.Monitor.{
  complete_all, node_installed, default_selector, finish_installation, read_label, read_node,
  monitor_kata_config_installation,
}

-- The nodes with binaries and the completed nodes are counted by their lists.
pub record IsTallied (s : KataInstallationStatus) : Type 0 where
  pub in_progress :
      s.in_progress.in_progress_nodes_count
      ≡ of_len (length s.in_progress.binaries_installed_nodes_list)
  pub completed :
      s.completed.completed_nodes_count ≡ of_len (length s.completed.completed_nodes_list)

pub complete_all-IsTallied : (s : KataInstallationStatus) → IsTallied s → IsTallied (complete_all s)
unfolding complete_all
complete_all-IsTallied s t = record { in_progress = refl; completed = refl }

pub node_installed-IsTallied :
    (name : String) (s : KataInstallationStatus) → IsTallied s → IsTallied (node_installed name s)
unfolding node_installed
node_installed-IsTallied name s t = record {
  in_progress =
      omega (
        arith,
        t.in_progress,
        length-append s.in_progress.binaries_installed_nodes_list (name ∷ []),
      );
  completed = t.completed;
}

-- The resource that the reconciler holds is tallied.
pub record HoldsTally {W : Type 0} (s : Reconciler W) : Type 0 where
  pub held : IsTallied s.kata_config.status.installation_status

module _ {W R : Type 0} where
  pub Keeps-current : Keeps HoldsTally (current {W = W} {R = R})
  unfolding current
  Keeps-current = record { at = λ s h. h }

  pub Keeps-assign :
      (f : KataConfig → KataConfig)
      → ((kc : KataConfig)
          → IsTallied kc.status.installation_status
          → IsTallied (f kc).status.installation_status)
      → Keeps HoldsTally (assign {W = W} {R = R} f)
  unfolding assign
  Keeps-assign f k = record { at = λ s h. record { held = k s.kata_config h.held } }

  pub Keeps-match_labels : Keeps HoldsTally (match_labels {W = W} {R = R})
  unfolding match_labels
  Keeps-match_labels = search (keeps_rules, Keeps-current)

  pub Keeps-ask :
      {A : Type 0} (f : W → Result A × W) (note : Result A → Call)
      → Keeps HoldsTally (ask {R = R} f note)
  unfolding ask
  Keeps-ask f note = record { at = λ s h. record { held = h.held } }

  pub Keeps-over :
      (f : KataInstallationStatus → KataInstallationStatus)
      → ((s : KataInstallationStatus) → IsTallied s → IsTallied (f s))
      → Keeps HoldsTally (assign {W = W} {R = R} (over_status (over_installation f)))
  Keeps-over f k =
      Keeps-assign (over_status (over_installation f)) (λ kc. k kc.status.installation_status)

pub ruleset tally_rules = (keeps_rules, Keeps-current, Keeps-match_labels, Keeps-ask)

module _ {W : Type 0} (c : Cluster W) (echoes : EchoesStatus c) where
  stored-IsTallied :
      (kc : KataConfig) (w : W) (a : Result KataConfig)
      → (c.update_kata_config_status kc w).0 ≡ a
      → IsTallied kc.status.installation_status
      → IsTallied (stored a kc).status.installation_status
  stored-IsTallied kc w (err e) q t = t
  stored-IsTallied kc w (ok answer) q t =
      subst (λ ks. IsTallied ks.installation_status) (sym (echoes.echo kc w answer q)) t

  pub Keeps-update_status : {R : Type 0} → Keeps HoldsTally (update_status c {R = R})
  unfolding update_status
  Keeps-update_status = record {
    at = λ s h. record { held = stored-IsTallied s.kata_config s.world _ refl h.held };
  }

  Keeps-create_class_if_missing :
      (found : Result RuntimeClass) (rc : RuntimeClass)
      → Keeps HoldsTally (create_class_if_missing c found rc)
  unfolding create_class_if_missing
  Keeps-create_class_if_missing (ok _) rc = search tally_rules depth 12
  Keeps-create_class_if_missing (err e) rc = search tally_rules depth 12

  Keeps-set_one_class : (name : String) → Keeps HoldsTally (set_one_class c name)
  unfolding set_one_class
  Keeps-set_one_class name = search (tally_rules, Keeps-create_class_if_missing) depth 20

  Keeps-set_runtime_class : Keeps HoldsTally (set_runtime_class c)
  unfolding set_runtime_class
  Keeps-set_runtime_class =
      search
        (
          tally_rules,
          Keeps-update_status,
          Keeps-set_one_class,
          Keeps-assign (over_status (λ ks. record ks { runtime_class = join runtime_class_names }))
              (λ kc t. t),
        )
        depth 20

  Keeps-finish_installation : Keeps HoldsTally (finish_installation c)
  unfolding finish_installation
  Keeps-finish_installation =
      search
        (
          tally_rules,
          Keeps-update_status,
          Keeps-set_runtime_class,
          Keeps-over complete_all complete_all-IsTallied,
        )
        depth 20

  Keeps-read_label :
      (name : String) (label : String × String) → Keeps HoldsTally (read_label c name label)
  unfolding read_label
  Keeps-read_label name label =
      search
        (
          tally_rules,
          Keeps-update_status,
          Keeps-over (node_installed name) (node_installed-IsTallied name),
        )
        depth 20

  Keeps-read_node : (node : Node) → Keeps HoldsTally (read_node c node)
  unfolding read_node
  Keeps-read_node node = search (tally_rules, Keeps-read_label) depth 20

  pub Keeps-monitor : Keeps HoldsTally (monitor_kata_config_installation c)
  unfolding monitor_kata_config_installation
  Keeps-monitor =
      search
        (
          tally_rules,
          Keeps-finish_installation,
          Keeps-read_node,
          Keeps-assign default_selector (λ kc t. t),
        )
        depth 20
