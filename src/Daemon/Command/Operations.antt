-- ===== src/Daemon/Command/Operations.antt =====
-- The operations of controllers/common.go, on the command line of the daemon.
use kata_operator.Base.{◌≡◌, refl, String, false, none, ◌==◌, string_eq}
use kata_operator.Effect.{Exec, ◌>>=◌, ◌>>◌, pure, or_return, called}
use kata_operator.Controllers.Common.{
  DaemonOperation, install_operation, upgrade_operation, uninstall_operation, operation_text,
}
use kata_operator.Daemon.Events.{made_client}
use kata_operator.Daemon.Host.{Host, Daemon, ask}
use kata_operator.Daemon.Install.{install}
use kata_operator.Daemon.Uninstall.{uninstall}
use kata_operator.Daemon.Rpm.{install_rpms, uninstall_rpms}
use kata_operator.Daemon.Command.{Ending, exited, waits, run_operation, main}

module _ {W : Type 0} (h : Host W) where
  -- what each operation is to do on a node
  abbrev pub perform : DaemonOperation → String → Exec (Daemon W) Ending (Unit {0})
  perform install_operation resource = do
    installed ← called (install h none (install_rpms h) resource)
    pure tt
  perform uninstall_operation resource = do
    uninstalled ← called (uninstall h none (uninstall_rpms h) resource)
    pure tt
  perform upgrade_operation resource = pure tt

  -- the start of a client, the operation, and the wait for the controller
  abbrev pub performed : DaemonOperation → String → Exec (Daemon W) Ending Ending
  performed op resource = do
    client ← ask h.new_client made_client
    or_return (λ e. exited 1) client
    perform op resource
    pure waits

  -- For every operation that a controller asks for, by the text it puts on the daemon's command
  -- line, and a resource with a name, main makes its client and then performs that very operation:
  -- Install with installRPMs, Uninstall with uninstallRPMs, or nothing where it is an upgrade. Then
  -- it waits, whatever the operation answered; where there is no client it exits with 1 instead.
  pub main-operation_text :
      (op : DaemonOperation) (resource : String) (s : Daemon W)
      → (resource == "") ≡ false
      → main h (operation_text op) resource s ≡ performed op resource s
  unfolding main run_operation operation_text ◌>>=◌
  main-operation_text install_operation resource s e = rw e refl
  main-operation_text uninstall_operation resource s e = rw e refl
  main-operation_text upgrade_operation resource s e = rw e refl
