-- ===== src/Daemon/Uninstall.antt =====
-- Uninstall of images/daemon/pkg/daemon/kata_openshift.go. The function values of KataOpenShift are
-- arguments, as in Daemon/Install.
pub mod Records
use kata_operator.Base.{String, Option, none, some, if◌then◌else◌}
use kata_operator.Api.Kata.{
  KataConfigStatus, LabelSelector, Labels, over_un_installation, zero_kata_config,
}
use kata_operator.Api.Errors.{Error, Result, ok, err}
use kata_operator.Effect.{◌>>=◌, Exec, ◌>>◌, pure, return, or_return, called, when}
use kata_operator.Daemon.Host.{Host, Daemon, get_kata_config, get_node_name, set_fields}
use kata_operator.Daemon.Status.{
  uninstall_started, uninstall_ended, uninstall_failed, binaries_uninstalled,
}
use kata_operator.Daemon.Install.{Existence, Action, finds, change, update_or_fail}

abbrev labels_of : Option LabelSelector → Labels → Labels
labels_of none labels = labels
labels_of (some selector) labels = selector.match_labels

module _ {W : Type 0} (h : Host W) where
  -- the function that Uninstall sets where no checker is given
  unfoldable pub default_uninstall_checker : String → Action h Existence
  default_uninstall_checker name = do
    got ← get_kata_config h name zero_kata_config
    kata_config ← or_return (λ e. err e) got
    set_fields (λ s. record s {
      kata_config_pool_labels =
          labels_of kata_config.spec.kata_config_pool_selector s.kata_config_pool_labels;
    })
    asked ← get_node_name h
    node_name ← or_return (λ e. err e) asked
    let u = kata_config.status.un_installation_status
    pure (
        ok (
          finds u.in_progress.binaries_un_installed_nodes_list node_name,
          finds u.completed.completed_nodes_list node_name,
        ))

  abbrev pub checker_or_default : Option (Action h Existence) → String → Action h Existence
  checker_or_default none name = default_uninstall_checker name
  checker_or_default (some checker) name = checker

  -- the closure that reports a failed uninstallation
  unfoldable pub report_uninstall_failure :
      Error → KataConfigStatus → Exec (Daemon W) (Result (Unit {0})) KataConfigStatus
  report_uninstall_failure e ks = do
    asked ← get_node_name h
    pure (elim asked [
      | err _ ↦ over_un_installation uninstall_ended ks
      | ok name ↦
          over_un_installation
            (λ u.
              uninstall_failed (record { name = name; error = h.error_text e }) (uninstall_ended u))
            ks
    ])

  unfoldable pub report_if_failed :
      Result (Unit {0}) → String → Exec (Daemon W) (Result (Unit {0})) (Unit {0})
  report_if_failed (ok _) name = pure tt
  report_if_failed (err e) name =
      update_or_fail h "kata installation failed, error updating kataconfig status" name
        (report_uninstall_failure e)

  -- The binaries are to go. After a failure is reported the code goes on as after a success.
  unfoldable pub run_uninstall :
      Action h (Unit {0}) → String → String → Exec (Daemon W) (Result (Unit {0})) (Unit {0})
  run_uninstall uninstaller name node_name = do
    update_or_fail h "kata is not installed on the node, error updating kataconfig status" name
        (change h (over_un_installation uninstall_started))
    uninstalled ← called uninstaller
    report_if_failed uninstalled name
    update_or_fail h "kata uninstallation succeeded, but error updating kataconfig status" name
        (change h (over_un_installation (binaries_uninstalled node_name)))

  unfoldable pub uninstall :
      Option (Action h Existence) → Action h (Unit {0}) → String → Action h (Unit {0})
  uninstall checker uninstaller name = do
    checked ← called (checker_or_default checker name)
    existence ← or_return (λ e. err e) checked
    when existence.1 (return (ok tt))
    asked ← get_node_name h
    node_name ← or_return (λ e. err e) asked
    (if existence.0 then pure tt else run_uninstall uninstaller name node_name)
    pure (ok tt)
