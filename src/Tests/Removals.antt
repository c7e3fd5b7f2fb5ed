-- ===== src/Tests/Removals.antt =====
-- Two nodes that uninstall, and a controller that completes them as they are reported.
use kata_operator.Base.{◌≡◌, refl, ℕ, String}
use kata_operator.Base.GoInt.{of_len}
use kata_operator.Api.Kata.{FailedNodeStatus, KataConfig, zero_status, zero_kata_config}
use kata_operator.Api.Errors.{ok}
use kata_operator.Effect.{done}
use kata_operator.Base.{length}
use kata_operator.Controllers.Common.{contains}
use kata_operator.Controllers.OpenShift.Delete.{complete_node, complete_nodes}
use kata_operator.Daemon.Status.{
  uninstall_started, uninstall_ended, uninstall_failed, binaries_uninstalled,
}
use kata_operator.Daemon.Host.{Host}
use kata_operator.Daemon.Uninstall.{default_uninstall_checker}
use kata_operator.Daemon.Fleet.{is_complete, phase_of, set_phase, number}
use kata_operator.Daemon.Removal.{
  Removal, start, restart, remove, fail, complete_all, complete_ledger, step, at_start, Removing,
  begun, later, is_removed,
}
use kata_operator.Daemon.Removal.Records.{Records, Removing-Records}
use kata_operator.Daemon.Removal.Completion.{Removing-complete_nodes}
use kata_operator.Daemon.Removal.Checks.{Removing-default_uninstall_checker}
use kata_operator.Tests.Daemons.{stubborn, fresh_run}

abbrev stuck : FailedNodeStatus
stuck = record { name = "node2"; error = "rpm-ostree failed" }

-- The second node fails and is reported as one without binaries all the same, after the first one
-- has been completed.
abbrev removal : Removal
removal = step (remove "node2") (
    step complete_all (
      step (remove "node1") (
        step (fail stuck)
          (step (start "node2") (step (restart "node1") (step (start "node1") at_start))))))

removal-Removing : Removing 2 removal
unfolding phase_of set_phase number complete_ledger complete_nodes complete_node uninstall_started
    uninstall_ended uninstall_failed binaries_uninstalled
removal-Removing = later (remove "node2") refl (
    later complete_all refl (
      later (remove "node1") refl (
        later (fail stuck) refl (
          later (start "node2") refl
            (later (restart "node1") refl (later (start "node1") refl begun))))))

Removing-Records_example : Records removal.ledger removal.status
Removing-Records_example = Removing-Records removal-Removing

Removing-complete_nodes_example :
    let reported = removal.status.in_progress.binaries_un_installed_nodes_list in
    let v = complete_nodes reported removal.status in
    ((n : String) → contains v.completed.completed_nodes_list n ≡ contains reported n)
    × (v.completed.completed_nodes_count ≡ of_len (length reported))
Removing-complete_nodes_example = Removing-complete_nodes removal-Removing

-- The count is 2 in the end, and the first node is not counted twice.
both_completed :
    let v =
      complete_nodes removal.status.in_progress.binaries_un_installed_nodes_list removal.status in
    v.completed.completed_nodes_count ≡ 2
unfolding complete_nodes complete_node contains uninstall_started uninstall_ended uninstall_failed
    binaries_uninstalled
both_completed = refl

abbrev shared : KataConfig
shared = record zero_kata_config {
  status = record zero_status { un_installation_status = removal.status };
}

abbrev reading : Host ℕ
reading = record stubborn { get_kata_config = λ name into w. (ok shared, w) }

Removing-default_uninstall_checker_example :
    let p = phase_of "node1" removal.ledger in
    (default_uninstall_checker reading "kc" fresh_run).0 ≡ done (ok (is_removed p, is_complete p))
Removing-default_uninstall_checker_example =
    Removing-default_uninstall_checker reading "kc" "node1" fresh_run shared 0 0 removal-Removing
      refl refl refl
