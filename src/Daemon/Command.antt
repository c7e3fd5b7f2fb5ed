-- ===== src/Daemon/Command.antt =====
-- main of images/daemon/cmd/daemon/main.go, after flag.Parse: its two flags are arguments.
pub mod Operations
use kata_operator.Base.{ℕ, String, Bool, none, ◌==◌, string_eq, if◌then◌else◌}
use kata_operator.Api.Errors.{Result}
use kata_operator.Effect.{Exec, ◌>>=◌, ◌>>◌, pure, return, or_return, called, when}
use kata_operator.Daemon.Events.{made_client}
use kata_operator.Daemon.Host.{Host, Daemon, ask}
use kata_operator.Daemon.Install.{install, upgrade}
use kata_operator.Daemon.Uninstall.{uninstall}
use kata_operator.Daemon.Rpm.{install_rpms, uninstall_rpms}

-- how the process ends: os.Exit, or the wait for the controller to kill it
pub data Ending : Type 0 where
  exited : ℕ → Ending
  waits : Ending

module _ {W : Type 0} (h : Host W) where
  -- The switch. The errors of the actions are only printed.
  unfoldable pub run_operation : String → String → Exec (Daemon W) Ending (Unit {0})
  run_operation operation resource =
      if operation == "install"
      then (do installed ← called (install h none (install_rpms h) resource); pure tt)
      else if operation == "upgrade"
      then (do let upgraded = upgrade; pure tt)
      else if operation == "uninstall"
      then (do uninstalled ← called (uninstall h none (uninstall_rpms h) resource); pure tt)
      else pure tt

  unfoldable pub main : String → String → Exec (Daemon W) Ending Ending
  unfolding run_operation
  main operation resource = do
    when (operation == "") (return (exited 1))
    when (resource == "") (return (exited 1))
    client ← ask h.new_client made_client
    or_return (λ e. exited 1) client
    run_operation operation resource
    pure waits
