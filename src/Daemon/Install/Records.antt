-- ===== src/Daemon/Install/Records.antt =====
-- What the updates of the daemon leave in the record of the cluster.
use mathlib.Core.Path.{subst}
use kata_operator.Base.{String, string_eq}
use kata_operator.Api.Kata.{KataConfigStatus}
use kata_operator.Api.Errors.{Error, Result, ok, err}
use kata_operator.Effect.{◌>>=◌}
use kata_operator.Daemon.Host.{Host, Daemon}
use kata_operator.Effect.{done}
use kata_operator.Api.Errors.{is_not_found}
use kata_operator.Api.Kata.{over_installation}
use kata_operator.Daemon.Status.{install_completed}
use kata_operator.Effect.{Exec, return}
use kata_operator.Base.{if◌then◌else◌, ◌≡◌}
use kata_operator.Effect.Keeps.{
  Ensures-kept, Ensures-if, After, Ensures, Ensures-bind, Ensures-calls, Ensures-or_return,
}
use kata_operator.Daemon.Host.{ask}
use kata_operator.Daemon.Actions.Freshness.{Fresh, Any, Latest-update}
use kata_operator.Daemon.Actions.Retries.{IsQuiet, Never}
use kata_operator.Daemon.Actions.{UpdateStatus, update_kata_config_status}
use kata_operator.Daemon.Trace.{Ended}
use kata_operator.Daemon.Install.{change, complete_install, update_or_fail, report_install_failure}

module _ {W : Type 0} (h : Host W) (message name : String) where
  -- Code after an update runs only when the update was accepted.
  pub Ensures-update_or_fail :
      {P : Daemon W → Type 0} {Q : Result (Unit {0}) → Daemon W → Type 0} (us : UpdateStatus h)
      → Ensures P (update_kata_config_status h name us) Q Never
      → Ensures P (update_or_fail h message name us) (λ _. Q (ok tt)) Ended
  unfolding update_or_fail
  Ensures-update_or_fail {P} {Q} us updates =
      Ensures-bind _ _ (Ensures-calls _ updates)
        λ updated. Ensures-or_return _ updated (λ a s e q. subst (λ r. Q r s) e q) (λ s q. tt)

  -- The update was made on what had just been read.
  pub Fresh-update_or_fail :
      (f : KataConfigStatus → KataConfigStatus)
      → Ensures
          (Any h name f)
          (update_or_fail h message name (change h f))
          (λ _ s. Fresh name f s.events)
          (Any h name f)
  Fresh-update_or_fail f = Ensures-update_or_fail (change h f) (Latest-update h name f)

module _ {W : Type 0} (h : Host W) where
  -- Reporting a failed installation updates no status by itself.
  pub report_install_failure-IsQuiet : (e : Error) → IsQuiet h (report_install_failure h e)
  unfolding report_install_failure ◌>>=◌ ask
  report_install_failure-IsQuiet e = record { at = λ ks n. record { at = λ s p. p } }

-- the change that records a node as completed
abbrev pub completed : String → KataConfigStatus → KataConfigStatus
completed node_name = over_installation (install_completed node_name)

module _ {W : Type 0} (h : Host W) (name node_name : String) where
  trivial :
      {A : Type 0} {m : Exec (Daemon W) (Result (Unit {0})) A}
      → Ensures
          (Any h name (completed node_name))
          m
          (λ _. Any h name (completed node_name))
          (Any h name (completed node_name))
  trivial = Ensures-kept _ (λ s p. tt) (record { at = λ s p. tt })

  Ensures-exit :
      {A : Type 0} {Q : A → Daemon W → Type 0} (r : Result (Unit {0}))
      → Ensures (Any h name (completed node_name)) (return r) Q (Any h name (completed node_name))
  unfolding return
  Ensures-exit r = record { at = λ s p. tt }

  Ensures-complete_install :
      Ensures
        (Any h name (completed node_name))
        (complete_install h name node_name)
        (λ _ s. Fresh name (completed node_name) s.events)
        (Any h name (completed node_name))
  unfolding complete_install
  Ensures-complete_install = Ensures-bind _ _ trivial λ path.
      Ensures-bind _ _ trivial
        λ _. Ensures-bind _ _ trivial λ path'. Ensures-bind _ _ trivial λ found. recorded found
    where
      recorded :
          (found : Result (Unit {0}))
          → Ensures
              (Any h name (completed node_name))
              (elim found [
                | ok _ ↦
                    update_or_fail h "kata exists on the node, error updating kataconfig status"
                      name
                      (change h (completed node_name))
                | err e ↦ if is_not_found e then return (ok tt) else return (err e)
              ])
              (λ _ s. Fresh name (completed node_name) s.events)
              (Any h name (completed node_name))
      recorded (ok _) = Fresh-update_or_fail h _ name (completed node_name)
      recorded (err e) = Ensures-if _ _ _ (λ _. Ensures-exit (ok tt)) (λ _. Ensures-exit (err e))

  -- Where the completion of an installation goes on to its end, the last thing asked is an accepted
  -- update that records the node as completed, on the status just read. If the drop-in file is not
  -- there, or cannot be looked at, Install returns before.
  pub complete_install_records :
      (s : Daemon W)
      → let run = complete_install h name node_name s in
        run.0 ≡ done tt → Fresh name (completed node_name) run.1.events
  complete_install_records s e =
      let run = complete_install h name node_name s in
      subst
        (λ o.
          After (λ _ t. Fresh name (completed node_name) t.events)
            (Any h name (completed node_name)) o run.1)
        e (Ensures-complete_install.at s tt)
