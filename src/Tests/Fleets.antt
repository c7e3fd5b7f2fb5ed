-- ===== src/Tests/Fleets.antt =====
-- A fleet of three nodes, one of which fails.
use kata_operator.Base.{
  ◌≡◌, refl, ℕ, none, true, [], ◌∷◌, ◌<◌, ◌^◌, ◌+◌, ◌&&◌, ◌==◌, nat_eq, string_eq, arith,
}
use kata_operator.Api.Kata.{
  FailedNodeStatus, KataConfig, KataConfigStatus, zero_status, zero_kata_config,
}
use kata_operator.Controllers.OpenShift.Reconcile.{
  binaries_installed, needs_runtime_class, dispatch,
}
use kata_operator.Daemon.Fleet.{
  is_ready, is_complete, is_failed, phase_of, set_phase, number, start, restart, install, is_busy,
  finish, fail, Fleet, move, at_start, Reach, begun, later,
}
use kata_operator.Daemon.Status.{
  install_started, install_ended, install_failed, binaries_installed as add_binaries,
  install_completed,
}
use kata_operator.Api.Errors.{ok}
use kata_operator.Effect.{done, exit, panic}
use kata_operator.Daemon.Host.{Host}
use kata_operator.Daemon.Install.{Action, install as run_daemon, default_install_checker}
use kata_operator.Daemon.Fleet.Checks.{Reach-default_install_checker, Reach-install}
use kata_operator.Daemon.Events.{asked_hostname, got_kata_config}
use kata_operator.Tests.Daemons.{stubborn, fresh_run}
use kata_operator.Daemon.Fleet.Summary.{Summarises}
use kata_operator.Daemon.Fleet.Reachable.{Reach-Summarises, Reach-tests, failed_fleet-dispatch}
use kata_operator.Controllers.OpenShift.Install.{process_kata_config_install_request}
use kata_operator.Tests.Clusters.{calm, at_rest}

abbrev disk_full : FailedNodeStatus
disk_full = record { name = "node2"; error = "no space left" }

-- The daemon of the first node is started anew before its installation has ended.
abbrev fleet : Fleet
fleet = move (fail disk_full) (
    move (finish "node1") (
      move (install "node1")
        (move (restart "node1") (move (start "node2") (move (start "node1") at_start)))))

fleet-Reach : Reach 3 fleet
unfolding phase_of set_phase number
fleet-Reach = later (fail disk_full) refl (
    later (finish "node1") refl (
      later (install "node1") refl (
        later (restart "node1") refl
          (later (start "node2") refl (later (start "node1") refl begun)))))

few_reruns : 3 + fleet.slips.reruns < 2 ^ 63
unfolding phase_of set_phase
few_reruns = omega arith

-- No node is in progress any more, and one is counted.
leaked : (fleet.status.in_progress.in_progress_nodes_count ≡ 1) × (number is_busy fleet.ledger ≡ 0)
unfolding install_started install_ended install_failed add_binaries install_completed number
    phase_of set_phase
leaked = (refl, refl)

Reach-Summarises_example : Summarises fleet.ledger fleet.slips fleet.status
Reach-Summarises_example = Reach-Summarises few_reruns fleet-Reach

abbrev status : KataConfigStatus
status = record zero_status { installation_status = fleet.status; total_nodes_count = 3 }

Reach-tests_example :
    (binaries_installed status ≡ (number is_ready fleet.ledger == 3))
    × (needs_runtime_class status
        ≡ ((number is_complete fleet.ledger == 3) && (status.runtime_class == "")))
Reach-tests_example = Reach-tests status (omega arith) few_reruns fleet-Reach refl refl

one_failed : 0 < number is_failed fleet.ledger
unfolding number set_phase
one_failed = omega arith

abbrev failing : KataConfig
failing = record zero_kata_config { status = status }

failed_fleet-dispatch_example :
    dispatch calm (at_rest failing) ≡ process_kata_config_install_request calm (at_rest failing)
failed_fleet-dispatch_example =
    failed_fleet-dispatch calm (at_rest failing) (omega arith) few_reruns fleet-Reach refl refl
      one_failed refl

abbrev shared : KataConfig
shared = record zero_kata_config { status = status }

abbrev reading : Host ℕ
reading = record stubborn { get_kata_config = λ name into w. (ok shared, w) }

Reach-default_install_checker_example :
    (default_install_checker reading "kc" fresh_run).0
    ≡ done
        (ok (is_ready (phase_of "node1" fleet.ledger), is_complete (phase_of "node1" fleet.ledger)))
Reach-default_install_checker_example =
    Reach-default_install_checker reading "kc" "node1" fresh_run shared 0 0 few_reruns fleet-Reach
      refl refl refl

abbrev untouched : Action reading (Unit {0})
untouched s = (panic, s)

is_finished : is_complete (phase_of "node1" fleet.ledger) ≡ true
unfolding phase_of set_phase
is_finished = refl

Reach-install_example :
    let run = run_daemon reading none untouched "kc" fresh_run in
    (run.0 ≡ exit (ok tt))
    × (run.1.events ≡ asked_hostname (ok "node1") ∷ got_kata_config "kc" (ok shared) ∷ [])
Reach-install_example =
    Reach-install reading "kc" "node1" untouched fresh_run shared 0 0 few_reruns fleet-Reach refl
      refl refl is_finished
