-- ===== src/Daemon/Install/Announced.antt =====
-- The installation of a node with installRPMs as its installer, and what the node announces.
use mathlib.Core.Path.{subst}
use kata_operator.Base.{◌≡◌, refl, ap, String, ◌⊎◌, inl, inr, List, ◌∷◌}
use kata_operator.Api.Kata.{KataConfigStatus, over_installation}
use kata_operator.Api.Errors.{Error, Result, ok, err}
use kata_operator.Effect.{Outcome, done, exit, panic, called, result, pure, ◌>>=◌}
use kata_operator.Effect.Keeps.{
  After, Ensures, Ensures-bind, Ensures-kept, Ensures-called, Ensures-map, Ensures-both,
  Ensures-from, Keeps, Keeps-pure, Keeps-bind, Keeps-called, Keeps-or_return,
}
use kata_operator.Effect.Early.{Fails}
use kata_operator.Daemon.Events.{Event, asked_hostname}
use kata_operator.Daemon.Host.{Host, Daemon, ask}
use kata_operator.Daemon.Trace.{Once, OnEvents, Ended}
use kata_operator.Daemon.Status.{install_ended, install_failed, binaries_installed}
use kata_operator.Daemon.Actions.Freshness.{Fresh, Latest-update}
use kata_operator.Daemon.Actions.Memory.{Keeps-update}
use kata_operator.Daemon.Actions.Reports.{Change, Makes, FreshBy, Reported-update}
use kata_operator.Daemon.Install.{change, run_install, update_or_fail, report_install_failure}
use kata_operator.Daemon.Install.Records.{Ensures-update_or_fail}
use kata_operator.Daemon.Rpm.{install_rpms}
use kata_operator.Daemon.Rpm.Early.{FailsEarly-install_rpms}
use kata_operator.Daemon.Rpm.Order.{Installed, Ensures-install_rpms}

-- the change that records a node as one with the binaries
abbrev pub announced : String → KataConfigStatus → KataConfigStatus
announced node_name = over_installation (binaries_installed node_name)

module _ {W : Type 0} (h : Host W) where
  -- the change that records a failed node, by the name the node gave
  abbrev failed : Error → Result String → KataConfigStatus → KataConfigStatus
  failed e a ks = elim a [
    | err _ ↦ over_installation install_ended ks
    | ok name ↦
        over_installation
          (λ s. install_failed (record { name = name; error = h.error_text e }) (install_ended s))
          ks
  ]

  -- the node was asked for its name, and is recorded as failed
  abbrev pub FailsWith : Error → Change
  FailsWith e ks given before after =
      (a : Result String) × (given ≡ failed e a ks) × (after ≡ asked_hostname a ∷ before)

  Makes-report_install_failure : (e : Error) → Makes h (report_install_failure h e) (FailsWith e)
  unfolding report_install_failure ◌>>=◌ ask pure
  Makes-report_install_failure e = record {
    at = λ ks l. record {
      at = λ s q. (
        (h.hostname s.world).0,
        refl,
        ap (λ (l : List Event). asked_hostname (h.hostname s.world).0 ∷ l) q,
      );
    };
  }

  -- what installRPMs answered
  abbrev AfterInstall : Result (Unit {0}) → Daemon W → Type 0
  AfterInstall (ok _) s = OnEvents (Once (Installed h (λ _. Unit))) s
  AfterInstall (err _) s = Unit

  AfterInstall-result :
      (o : Outcome (Result (Unit {0})) (Result (Unit {0}))) (s : Daemon W)
      → Fails o
      → After (λ _. OnEvents (Once (Installed h (λ _. Unit)))) Ended o s
      → After AfterInstall Ended (result {R = Result (Unit {0})} o) s
  AfterInstall-result (done (ok _)) s f k = k
  AfterInstall-result (done (err _)) s f k = tt
  AfterInstall-result (exit (ok _)) s f k = absurd f
  AfterInstall-result (exit (err _)) s f k = tt
  AfterInstall-result panic s f k = tt

  Ensures-called_install :
      Ensures Ended (called {R = Result (Unit {0})} (install_rpms h)) AfterInstall Ended
  Ensures-called_install = Ensures-called (install_rpms h) λ s p.
      AfterInstall-result (install_rpms h s).0 (install_rpms h s).1
        ((FailsEarly-install_rpms h).fails s) ((Ensures-install_rpms h).at s (record { made = tt }))

module _ {W : Type 0} (h : Host W) (name node_name : String) where
  -- The last thing asked is an accepted update: the node has the binaries, and they were installed
  -- before; or the node failed.
  abbrev pub Announces : List Event → Type 0
  Announces events =
      (Fresh name (announced node_name) events × Once (Installed h (λ _. Unit)) events)
      ⊎ ((e : Error) × FreshBy name (FailsWith h e) events)

  Keeps-announced :
      {P : List Event → Type 0} (message : String) (f : KataConfigStatus → KataConfigStatus)
      → Keeps (OnEvents (Once P)) (update_or_fail h message name (change h f))
  unfolding update_or_fail
  Keeps-announced message f =
      Keeps-bind _ _ (Keeps-called _ (Keeps-update h name (change h f) _ (λ ks. Keeps-pure (f ks))))
        λ updated. Keeps-or_return _ updated

  Ensures-run_install :
      Ensures Ended
        (run_install h (install_rpms h) name node_name)
        (λ _ s. Announces s.events)
        Ended
  unfolding run_install
  Ensures-run_install =
      Ensures-bind _ _ (Ensures-kept _ (λ s p. tt) (record { at = λ s p. tt }))
        λ _. Ensures-bind _ _ (Ensures-called_install h) λ installed. told installed
    where
      told :
          (installed : Result (Unit {0}))
          → Ensures
              (AfterInstall h installed)
              (elim installed [
                | err e ↦
                    update_or_fail h "kata installation failed, error updating kataconfig status"
                      name
                      (report_install_failure h e)
                | ok _ ↦
                    update_or_fail h
                      "kata installation succeeded, but error updating kataconfig status" name
                      (change h (announced node_name))
              ])
              (λ _ s. Announces s.events)
              Ended
      told (ok _) =
          Ensures-map (λ a s (fresh, kept). inl (fresh, kept.made))
            (Ensures-both
              (Ensures-from (λ s p. tt)
                (Ensures-update_or_fail h _ name (change h (announced node_name))
                  (Latest-update h name (announced node_name))))
              (Ensures-kept _ (λ s p. tt) (Keeps-announced _ (announced node_name))))
      told (err e) =
          Ensures-map (λ a s report. inr (e, report))
            (Ensures-update_or_fail h _ name (report_install_failure h e) (
              Reported-update h name (report_install_failure h e) (FailsWith h e)
                (Makes-report_install_failure h e)))

  -- Where the installation of a node goes on to its end, with installRPMs as the installer, the last
  -- thing asked is an accepted update of the status just read. Either it adds the node to those with
  -- binaries, and then all commands of the installation have succeeded before; or it takes the node
  -- out of progress and, if the node gave its name, adds it to the failed ones.
  pub run_install-Announces :
      (s : Daemon W)
      → let run = run_install h (install_rpms h) name node_name s in
        run.0 ≡ done tt → Announces run.1.events
  run_install-Announces s e =
      let run = run_install h (install_rpms h) name node_name s in
      subst (λ o. After (λ _ t. Announces t.events) Ended o run.1) e (Ensures-run_install.at s tt)
