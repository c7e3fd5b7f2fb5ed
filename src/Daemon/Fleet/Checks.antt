-- ===== src/Daemon/Fleet/Checks.antt =====
-- The check of Install, and Install, on a node of the fleet.
use kata_operator.Base.{◌≡◌, refl, ap, ◌∙◌, ◌+◌, ℕ, ◌<◌, ◌^◌, String, none, true, ◌∷◌}
use kata_operator.Controllers.Common.{contains}
use kata_operator.Api.Kata.{KataConfig, KataInstallationStatus, zero_kata_config}
use kata_operator.Api.Errors.{ok}
use kata_operator.Effect.{done, exit, ◌>>=◌, pure, return, called}
use kata_operator.Daemon.Events.{got_kata_config, asked_hostname}
use kata_operator.Daemon.Host.{Host, Daemon, ask}
use kata_operator.Daemon.Install.{Existence, Action, finds, default_install_checker, install}
use kata_operator.Daemon.Fleet.{is_ready, is_complete, phase_of, Fleet, Reach}
use kata_operator.Daemon.Fleet.Reachable.{Reach-Summarises}

module _ {W : Type 0} (h : Host W) (name node_name : String) where
  -- what the checker reads of the resource and the node
  checker_reads :
      (s : Daemon W) (kc : KataConfig) (w w' : W)
      → h.get_kata_config name zero_kata_config s.world ≡ (ok kc, w)
      → h.hostname w ≡ (ok node_name, w')
      → let i = kc.status.installation_status in
        (default_install_checker h name s).0
        ≡ done (
            ok (
              finds i.in_progress.binaries_installed_nodes_list node_name,
              finds i.completed.completed_nodes_list node_name,
            ))
  unfolding default_install_checker ask pure ◌>>=◌
  checker_reads s kc w w' got asked = rw (got, asked) refl

  -- By the check of Install, a daemon finds out the phase of its own node: the check answers whether
  -- the node waits with its binaries and whether it is complete, in every reachable fleet. The
  -- resource that it reads holds the installation status of the fleet, the node gives its name,
  -- and `limit` with the number of the installations begun anew before their end is below 2^63.
  pub Reach-default_install_checker :
      {limit : ℕ} {f : Fleet} (s : Daemon W) (kc : KataConfig) (w w' : W)
      → limit + f.slips.reruns < 2 ^ 63
      → Reach limit f
      → kc.status.installation_status ≡ f.status
      → h.get_kata_config name zero_kata_config s.world ≡ (ok kc, w)
      → h.hostname w ≡ (ok node_name, w')
      → (default_install_checker h name s).0
        ≡ done
            (ok (is_ready (phase_of node_name f.ledger), is_complete (phase_of node_name f.ledger)))
  Reach-default_install_checker {limit} {f} s kc w w' small r e got asked =
      let k = Reach-Summarises small r in
      checker_reads s kc w w' got asked
      ∙ ap
          (λ (i : KataInstallationStatus). done (
            ok (
              finds i.in_progress.binaries_installed_nodes_list node_name,
              finds i.completed.completed_nodes_list node_name,
            )))
          e
      ∙ ap (λ (b : Existence). done (ok b))
          (λ j. (k.ready.exact node_name j, k.complete.exact node_name j))

  -- A daemon that is started on a complete node changes nothing: in every reachable fleet Install
  -- returns without an error after it has read the resource and the name of the node, whatever its
  -- installer is; it neither updates the status nor runs a command. The conditions are those of
  -- the check.
  pub Reach-install :
      {limit : ℕ} {f : Fleet} (installer : Action h (Unit {0})) (s : Daemon W) (kc : KataConfig)
      (w w' : W)
      → limit + f.slips.reruns < 2 ^ 63
      → Reach limit f
      → kc.status.installation_status ≡ f.status
      → h.get_kata_config name zero_kata_config s.world ≡ (ok kc, w)
      → h.hostname w ≡ (ok node_name, w')
      → is_complete (phase_of node_name f.ledger) ≡ true
      → let run = install h none installer name s in
        (run.0 ≡ exit (ok tt))
        × (run.1.events ≡ asked_hostname (ok node_name) ∷ got_kata_config name (ok kc) ∷ s.events)
  unfolding install default_install_checker ask pure return called ◌>>=◌
  Reach-install {limit} {f} installer s kc w w' small r e got asked finished =
      let listed : contains kc.status.installation_status.completed.completed_nodes_list node_name
          ≡ true =
        ap (λ (i : KataInstallationStatus). contains i.completed.completed_nodes_list node_name) e
        ∙ (Reach-Summarises small r).complete.exact node_name
        ∙ finished in
      rw (got, asked, listed) (refl, refl)
