-- ===== src/Daemon/Fleet.antt =====
-- The daemons of all nodes at work on one resource. An accepted update of the installation status
-- is taken as one change of it, as it is where no update was refused before in the same run (see
-- Daemon/Actions/Atomicity), and a run of the fleet as a sequence of changes, in any order that the
-- nodes allow. Beside the status stands what it is to summarise: the phase of each node. A daemon
-- completes its node when it is started again after the reboot. One that is started again before its
-- installation has come to an end, or after a failure, installs anew.
pub mod Checks
pub mod Completion
pub mod Counting
pub mod Lists
pub mod Phases
pub mod Readiness
pub mod Summary
pub mod Reachable
use kata_operator.Base.{
  ℕ, suc, ◌+◌, String, Bool, true, false, ◌&&◌, ◌||◌, not, List, [], ◌∷◌, ◌==◌, string_eq,
  if◌then◌else◌, ltb, ◌≡◌,
}
use kata_operator.Api.Kata.{FailedNodeStatus, KataInstallationStatus, zero_status}
use kata_operator.Daemon.Status.{
  install_started, install_ended, install_failed, binaries_installed, install_completed,
}

-- idle; Install has announced itself; the binaries are there; the drop-in is there too; Install
-- has reported a failure
pub data Phase : Type 0 where
  idle running ready complete failed : Phase

abbrev pub is_idle : Phase → Bool
is_idle idle = true
is_idle _ = false

abbrev pub is_running : Phase → Bool
is_running running = true
is_running _ = false

abbrev pub is_ready : Phase → Bool
is_ready ready = true
is_ready _ = false

abbrev pub is_complete : Phase → Bool
is_complete complete = true
is_complete _ = false

abbrev pub is_failed : Phase → Bool
is_failed failed = true
is_failed _ = false

-- between the start of an installation and its end
abbrev pub is_busy : Phase → Bool
is_busy running = true
is_busy ready = true
is_busy _ = false

abbrev pub is_known : Phase → Bool
is_known p = not (is_idle p)

-- the phases of the nodes that have left the first one
abbrev pub Ledger : Type 0
Ledger = List (String × Phase)

unfoldable pub phase_of : String → Ledger → Phase
phase_of n [] = idle
phase_of n ((m, p) ∷ ledger) = if m == n then p else phase_of n ledger

unfoldable pub set_phase : String → Phase → Ledger → Ledger
set_phase n p [] = (n, p) ∷ []
set_phase n p ((m, q) ∷ ledger) =
    let rest = set_phase n p ledger in if m == n then (m, p) ∷ ledger else (m, q) ∷ rest

-- how many nodes are in a phase with the test
unfoldable pub number : (Phase → Bool) → Ledger → ℕ
number test [] = 0
number test ((m, p) ∷ ledger) = let rest = number test ledger in if test p then suc rest else rest

-- An accepted update, with its node. A failure is reported by the name of the node, or without one
-- where the node does not give it.
pub data Move : Type 0 where
  start restart install finish fail_unnamed : String → Move
  fail : FailedNodeStatus → Move

-- What the status cannot show: how often an installation was begun anew before it had ended, and how
-- often after a failure; and how many failures were reported without a name.
pub record Slips : Type 0 where
  pub reruns : ℕ
  pub revived : ℕ
  pub unnamed : ℕ

pub record Fleet : Type 0 where
  pub ledger : Ledger
  pub slips : Slips
  pub status : KataInstallationStatus

-- At most `limit` nodes run a daemon.
abbrev pub allowed : ℕ → Move → Ledger → Bool
allowed limit (start n) l = is_idle (phase_of n l) && ltb (number is_known l) limit
allowed limit (restart n) l = is_running (phase_of n l) || is_failed (phase_of n l)
allowed limit (install n) l = is_running (phase_of n l)
allowed limit (finish n) l = is_ready (phase_of n l)
allowed limit (fail_unnamed n) l = is_running (phase_of n l)
allowed limit (fail fn) l = is_running (phase_of fn.name l)

-- the change of the status, by the functions that the daemon passes to updateKataConfigStatus
abbrev pub change : Move → KataInstallationStatus → KataInstallationStatus
change (start n) s = install_started s
change (restart n) s = install_started s
change (install n) s = binaries_installed n s
change (finish n) s = install_completed n s
change (fail_unnamed n) s = install_ended s
change (fail fn) s = install_failed fn (install_ended s)

-- what happens to the node
abbrev pub record_move : Move → Ledger → Ledger
record_move (start n) = set_phase n running
record_move (restart n) = set_phase n running
record_move (install n) = set_phase n ready
record_move (finish n) = set_phase n complete
record_move (fail_unnamed n) = set_phase n failed
record_move (fail fn) = set_phase fn.name failed

-- a restart in a phase
abbrev slip : Phase → Slips → Slips
slip running k = record k { reruns = suc k.reruns }
slip _ k = record k { revived = suc k.revived }

abbrev pub record_slip : Move → Ledger → Slips → Slips
record_slip (restart n) l k = slip (phase_of n l) k
record_slip (fail_unnamed n) l k = record k { unnamed = suc k.unnamed }
record_slip _ l k = k

abbrev pub move : Move → Fleet → Fleet
move m f = record {
  ledger = record_move m f.ledger;
  slips = record_slip m f.ledger f.slips;
  status = change m f.status;
}

abbrev pub no_slips : Slips
no_slips = record { reruns = 0; revived = 0; unnamed = 0 }

abbrev pub at_start : Fleet
at_start = record { ledger = []; slips = no_slips; status = zero_status.installation_status }

-- the fleets that a sequence of allowed moves reaches
pub data Reach (limit : ℕ) : Fleet → Type 0 where
  begun : Reach limit at_start
  later :
      {f : Fleet} (m : Move)
      → allowed limit m f.ledger ≡ true
      → Reach limit f
      → Reach limit (move m f)
