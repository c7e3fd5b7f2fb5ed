-- ===== src/Daemon/Uninstall/Records.antt =====
-- What an uninstallation leaves in the record of the cluster.
use mathlib.Core.Path.{subst}
use kata_operator.Base.{◌≡◌, String, string_eq}
use kata_operator.Api.Kata.{KataConfigStatus, over_un_installation}
use kata_operator.Api.Errors.{Result}
use kata_operator.Effect.{Exec}
use kata_operator.Daemon.Host.{Host, Daemon}
use kata_operator.Daemon.Status.{binaries_uninstalled}
use kata_operator.Effect.{done}
use kata_operator.Effect.Keeps.{After, Ensures, Ensures-bind, Ensures-kept}
use kata_operator.Daemon.Actions.Freshness.{Fresh, Any}
use kata_operator.Daemon.Install.{Action}
use kata_operator.Daemon.Install.Records.{Fresh-update_or_fail}
use kata_operator.Daemon.Uninstall.{run_uninstall}

-- the change that records a node as one without binaries
abbrev pub recorded : String → KataConfigStatus → KataConfigStatus
recorded node_name = over_un_installation (binaries_uninstalled node_name)

module _ {W : Type 0} (h : Host W) (uninstaller : Action h (Unit {0}))
    (name node_name : String) where
  Ensures-run_uninstall :
      Ensures
        (Any h name (recorded node_name))
        (run_uninstall h uninstaller name node_name)
        (λ _ s. Fresh name (recorded node_name) s.events)
        (Any h name (recorded node_name))
  unfolding run_uninstall
  Ensures-run_uninstall = Ensures-bind _ _ trivial λ _.
      Ensures-bind _ _ trivial
        λ _. Ensures-bind _ _ trivial λ _. Fresh-update_or_fail h _ name (recorded node_name)
    where
      trivial :
          {A : Type 0} {m : Exec (Daemon W) (Result (Unit {0})) A}
          → Ensures
              (Any h name (recorded node_name))
              m
              (λ _. Any h name (recorded node_name))
              (Any h name (recorded node_name))
      trivial = Ensures-kept _ (λ s p. tt) (record { at = λ s p. tt })

  -- Where the uninstallation of a node goes on to its end, the last thing asked is an accepted
  -- update that adds the node to those without binaries. This is so whatever the uninstaller
  -- answered, an error included: the code has no return after it reports a failure.
  pub run_uninstall_records :
      (s : Daemon W)
      → let run = run_uninstall h uninstaller name node_name s in
        run.0 ≡ done tt → Fresh name (recorded node_name) run.1.events
  run_uninstall_records s e =
      let run = run_uninstall h uninstaller name node_name s in
      subst
        (λ o.
          After (λ _ t. Fresh name (recorded node_name) t.events) (Any h name (recorded node_name))
            o run.1)
        e (Ensures-run_uninstall.at s tt)
