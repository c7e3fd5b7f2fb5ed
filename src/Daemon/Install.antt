-- ===== src/Daemon/Install.antt =====
-- Install of images/daemon/pkg/daemon/kata_openshift.go. The function values of KataOpenShift are
-- arguments: `checker` is nil or given, `installer` is the one that Install uses.
pub mod Announced
pub mod Records
use kata_operator.Base.{String, Bool, Option, none, some, List, ◌==◌, string_eq, if◌then◌else◌, []}
use kata_operator.Api.Kata.{KataConfigStatus, over_installation, zero_kata_config}
use kata_operator.Api.Errors.{
  Error, Result, ok, err, is_not_found, status_update_failed, not_implemented,
}
use kata_operator.Effect.{◌>>=◌, Exec, ◌>>◌, pure, return, or_return, called, when}
use kata_operator.Controllers.Common.{contains}
use kata_operator.Daemon.Host.{
  Host, Daemon, get_kata_config, get_node_name, stat, set_fields, field,
}
use kata_operator.Base.Text.{Bytes}
use kata_operator.Daemon.Version.{get_cluster_version}
use kata_operator.Daemon.Actions.{update_kata_config_status}
use kata_operator.Daemon.Status.{
  install_started, install_ended, install_failed, binaries_installed, install_completed,
}

-- (bool, bool, error) of a KataExistance function: are the binaries there, is the drop-in there?
abbrev pub Existence : Type 0
Existence = Bool × Bool

-- what a loop over a list of nodes with `if n == nodeName { …; break }` finds
abbrev pub finds : List String → String → Bool
finds nodes node_name = contains nodes node_name

-- the text of `(string, error)`
abbrev pub tag_of : Result Bytes → Bytes
tag_of (ok tag) = tag
tag_of (err _) = []

abbrev pub dropin_path : String
dropin_path = "/host/etc/crio/crio.conf.d/50-kata.conf"

-- Upgrade
abbrev pub upgrade : Result (Unit {0})
upgrade = err not_implemented

module _ {W : Type 0} (h : Host W) where
  abbrev pub Action : Type 0 → Type 0
  Action A = Exec (Daemon W) (Result A) (Result A)

  -- a change of the status that asks nothing
  abbrev pub change :
      (KataConfigStatus → KataConfigStatus)
      → KataConfigStatus
      → Exec (Daemon W) (Result (Unit {0})) KataConfigStatus
  change f ks = pure (f ks)

  -- updateKataConfigStatus, its error wrapped in the message
  unfoldable pub update_or_fail :
      String
      → String
      → (KataConfigStatus → Exec (Daemon W) (Result (Unit {0})) KataConfigStatus)
      → Exec (Daemon W) (Result (Unit {0})) (Unit {0})
  update_or_fail message name us = do
    updated ← called (update_kata_config_status h name us)
    or_return (λ e. err (status_update_failed message e)) updated

  -- the function that Install sets where no checker is given
  unfoldable pub default_install_checker : String → Action Existence
  default_install_checker name = do
    got ← get_kata_config h name zero_kata_config
    kata_config ← or_return (λ e. err e) got
    asked ← get_node_name h
    node_name ← or_return (λ e. err e) asked
    let s = kata_config.status.installation_status
    pure (
        ok (
          finds s.in_progress.binaries_installed_nodes_list node_name,
          finds s.completed.completed_nodes_list node_name,
        ))

  abbrev pub checker_or_default : Option (Action Existence) → String → Action Existence
  checker_or_default none name = default_install_checker name
  checker_or_default (some checker) name = checker

  -- the closure that reports a failed installation
  unfoldable pub report_install_failure :
      Error → KataConfigStatus → Exec (Daemon W) (Result (Unit {0})) KataConfigStatus
  report_install_failure e ks = do
    asked ← get_node_name h
    pure (elim asked [
      | err _ ↦ over_installation install_ended ks
      | ok name ↦
          over_installation
            (λ s. install_failed (record { name = name; error = h.error_text e }) (install_ended s))
            ks
    ])

  -- the binaries are there: completed, once the drop-in is there too
  unfoldable pub complete_install : String → String → Exec (Daemon W) (Result (Unit {0})) (Unit {0})
  complete_install name node_name = do
    path ← field (λ s. s.crio_dropin_path)
    when (path == "") (set_fields (λ s. record s { crio_dropin_path = dropin_path }))
    path' ← field (λ s. s.crio_dropin_path)
    found ← stat h path'
    elim found [
      | ok _ ↦
          update_or_fail "kata exists on the node, error updating kataconfig status" name
            (change (over_installation (install_completed node_name)))
      | err e ↦ if is_not_found e then return (ok tt) else return (err e)
    ]

  -- the binaries are not there
  unfoldable pub run_install :
      Action (Unit {0}) → String → String → Exec (Daemon W) (Result (Unit {0})) (Unit {0})
  run_install installer name node_name = do
    update_or_fail "kata is not installed on the node, error updating kataconfig status" name
        (change (over_installation install_started))
    installed ← called installer
    elim installed [
      | err e ↦
          update_or_fail "kata installation failed, error updating kataconfig status" name
            (report_install_failure e)
      | ok _ ↦
          update_or_fail "kata installation succeeded, but error updating kataconfig status" name
            (change (over_installation (binaries_installed node_name)))
    ]

  unfoldable pub install :
      Option (Action Existence) → Action (Unit {0}) → String → Action (Unit {0})
  install checker installer name = do
    checked ← called (checker_or_default checker name)
    existence ← or_return (λ e. err e) checked
    when existence.1 (return (ok tt))
    version ← called (get_cluster_version h)
    set_fields (λ s. record s { payload_tag = tag_of version })
    tag ← or_return (λ e. err e) version
    asked ← get_node_name h
    node_name ← or_return (λ e. err e) asked
    (if existence.0 then complete_install name node_name else run_install installer name node_name)
    pure (ok tt)
