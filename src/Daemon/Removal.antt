-- ===== src/Daemon/Removal.antt =====
-- The daemons that uninstall, and the controller that completes their nodes, at work on the
-- uninstallation status of one resource. As in Daemon/Fleet an accepted update is one change of the
-- status, and a run is a sequence of changes. Beside the status stands the phase of each node: idle;
-- running, from the start of its uninstallation; ready, where its binaries are reported as removed;
-- complete, where the controller has completed it. Uninstall goes on after a failure as after a
-- success, so a failure leaves the phase as it is.
pub mod Checks
pub mod Records
pub mod Completion
use kata_operator.Base.{ℕ, String, Bool, true, false, ◌&&◌, ◌||◌, List, [], ◌∷◌, ltb, ◌≡◌}
use kata_operator.Api.Kata.{FailedNodeStatus, KataUnInstallationStatus, zero_status}
use kata_operator.Controllers.OpenShift.Delete.{complete_nodes}
use kata_operator.Daemon.Status.{
  uninstall_started, uninstall_ended, uninstall_failed, binaries_uninstalled,
}
use kata_operator.Daemon.Fleet.{
  Phase, running, ready, complete, is_idle, is_running, is_ready, is_complete, is_known, Ledger,
  phase_of, set_phase, number,
}

-- an accepted update, with its node where a daemon makes it
pub data Step : Type 0 where
  start restart fail_unnamed remove : String → Step
  fail : FailedNodeStatus → Step
  complete_all : Step

pub record Removal : Type 0 where
  pub ledger : Ledger
  pub status : KataUnInstallationStatus

-- At most `limit` nodes run a daemon. The controller completes nodes at any time.
abbrev pub allowed : ℕ → Step → Ledger → Bool
allowed limit (start n) l = is_idle (phase_of n l) && ltb (number is_known l) limit
allowed limit (restart n) l = is_running (phase_of n l)
allowed limit (fail_unnamed n) l = is_running (phase_of n l)
allowed limit (remove n) l = is_running (phase_of n l)
allowed limit (fail fn) l = is_running (phase_of fn.name l)
allowed limit complete_all l = true

-- the nodes of a list, completed one after another
unfoldable pub complete_ledger : List String → Ledger → Ledger
complete_ledger [] l = l
complete_ledger (n ∷ ns) l = complete_ledger ns (set_phase n complete l)

-- the change of the status, by the functions that the daemon passes to updateKataConfigStatus and
-- by the last loop of the deletion
abbrev pub change : Step → KataUnInstallationStatus → KataUnInstallationStatus
change (start n) u = uninstall_started u
change (restart n) u = uninstall_started u
change (fail_unnamed n) u = uninstall_ended u
change (remove n) u = binaries_uninstalled n u
change (fail fn) u = uninstall_failed fn (uninstall_ended u)
change complete_all u = complete_nodes u.in_progress.binaries_un_installed_nodes_list u

-- what happens to the nodes
abbrev pub record_step : Step → KataUnInstallationStatus → Ledger → Ledger
record_step (start n) u = set_phase n running
record_step (restart n) u = λ l. l
record_step (fail_unnamed n) u = λ l. l
record_step (remove n) u = set_phase n ready
record_step (fail fn) u = λ l. l
record_step complete_all u = complete_ledger u.in_progress.binaries_un_installed_nodes_list

abbrev pub step : Step → Removal → Removal
step m f = record { ledger = record_step m f.status f.ledger; status = change m f.status }

abbrev pub at_start : Removal
at_start = record { ledger = []; status = zero_status.un_installation_status }

-- what a sequence of allowed steps reaches
pub data Removing (limit : ℕ) : Removal → Type 0 where
  begun : Removing limit at_start
  later :
      {f : Removal} (m : Step)
      → allowed limit m f.ledger ≡ true
      → Removing limit f
      → Removing limit (step m f)

-- the binaries are reported as removed
abbrev pub is_removed : Phase → Bool
is_removed p = is_ready p || is_complete p
