-- ===== src/Daemon/Removal/Records.antt =====
-- What the uninstallation status says of the nodes, and the steps that change it.
use kata_operator.Base.{
  ◌≡◌, refl, sym, ap, ◌∙◌, ℕ, String, true, false, List, [], ◌∷◌, nat_eq, string_eq, length,
  length-append, arith, eq_iff, Bool-cases, inl, inr,
}
use kata_operator.Base.GoInt.{of_len}
use kata_operator.Api.Kata.{FailedNodeStatus, KataUnInstallationStatus, zero_status}
use kata_operator.Controllers.Common.{contains}
use kata_operator.Controllers.OpenShift.Delete.{complete_node, complete_nodes}
use kata_operator.Daemon.Status.{
  uninstall_started, uninstall_ended, uninstall_failed, binaries_uninstalled,
}
use kata_operator.Daemon.Fleet.{
  Phase, idle, running, ready, complete, failed, is_complete, Ledger, phase_of, set_phase, number,
}
use kata_operator.Daemon.Fleet.Counting.{phase_of-set_phase}
use kata_operator.Daemon.Fleet.Phases.{phase-idle, phase-running}
use kata_operator.Daemon.Fleet.Lists.{Lists, Lists-enter, Lists-same}
use kata_operator.Daemon.Removal.{
  start, restart, fail_unnamed, remove, fail, complete_all, Removal, complete_ledger, Removing,
  begun, later, is_removed,
}

-- The lists of the status name exactly the nodes in their phases, each once, and the completed ones
-- are counted.
pub record Records (l : Ledger) (u : KataUnInstallationStatus) : Type 0 where
  pub removed : Lists is_removed l u.in_progress.binaries_un_installed_nodes_list
  pub complete : Lists is_complete l u.completed.completed_nodes_list
  pub count : u.completed.completed_nodes_count ≡ of_len (length u.completed.completed_nodes_list)

removed_complete : (p : Phase) → is_complete p ≡ true → is_removed p ≡ true
removed_complete complete q = refl
removed_complete idle q = cc
removed_complete running q = cc
removed_complete ready q = cc
removed_complete failed q = cc

module _ (n : String) (l : Ledger) (u : KataUnInstallationStatus) (k : Records l u) where
  Records-start : phase_of n l ≡ idle → Records (set_phase n running l) (uninstall_started u)
  unfolding uninstall_started
  Records-start q = record {
    removed = Lists-same is_removed refl n running l _ (ap is_removed q) k.removed;
    complete = Lists-same is_complete refl n running l _ (ap is_complete q) k.complete;
    count = k.count;
  }

  Records-remove : phase_of n l ≡ running → Records (set_phase n ready l) (binaries_uninstalled n u)
  unfolding binaries_uninstalled
  Records-remove q = record {
    removed = Lists-enter is_removed refl n ready l _ (ap is_removed q) refl k.removed;
    complete = Lists-same is_complete refl n ready l _ (ap is_complete q) k.complete;
    count = k.count;
  }

  -- A node that is completed already is completed again.
  Records-old : is_complete (phase_of n l) ≡ true → Records (set_phase n complete l) u
  Records-old q = record {
    removed =
        Lists-same is_removed refl n complete l _ (removed_complete (phase_of n l) q) k.removed;
    complete = Lists-same is_complete refl n complete l _ q k.complete;
    count = k.count;
  }

  Records-new :
      is_removed (phase_of n l) ≡ true
      → is_complete (phase_of n l) ≡ false
      → Records (set_phase n complete l) (complete_node n u)
  unfolding complete_node
  Records-new r q = record {
    removed = Lists-same is_removed refl n complete l _ r k.removed;
    complete = Lists-enter is_complete refl n complete l _ q refl k.complete;
    count = ground (arith, k.count, length-append u.completed.completed_nodes_list (n ∷ []));
  }

-- A node whose binaries are off stays so when another node is completed.
removed-set_phase :
    (n m : String) (l : Ledger)
    → is_removed (phase_of m l) ≡ true
    → is_removed (phase_of m (set_phase n complete l)) ≡ true
removed-set_phase n m l r = ground (arith, phase_of-set_phase m n complete l, r)

-- The controller completes a list of nodes, all of them reported.
Records-complete_nodes :
    (ns : List String) (l : Ledger) (u : KataUnInstallationStatus)
    → ((m : String) → contains ns m ≡ true → is_removed (phase_of m l) ≡ true)
    → Records l u
    → Records (complete_ledger ns l) (complete_nodes ns u)
unfolding complete_ledger complete_nodes contains
Records-complete_nodes [] l u h k = k
Records-complete_nodes (n ∷ ns) l u h k =
    let rest : (m : String)
        → contains ns m ≡ true
        → is_removed (phase_of m (set_phase n complete l)) ≡ true =
      λ m c. removed-set_phase n m l (ground (arith, h m, c)) in
    elim (Bool-cases (contains u.completed.completed_nodes_list n)) [
      | inl old ↦ rw old (
          Records-complete_nodes ns (set_phase n complete l) u rest
            (Records-old n l u k (sym (k.complete.exact n) ∙ old)))
      | inr new ↦ rw new (
          Records-complete_nodes ns (set_phase n complete l) (complete_node n u) rest (
            Records-new n l u k (h n (ground (arith, eq_iff n n)))
              (sym (k.complete.exact n) ∙ new)))
    ]

Records-complete_all :
    (l : Ledger) (u : KataUnInstallationStatus)
    → Records l u
    → let done = u.in_progress.binaries_un_installed_nodes_list in
      Records (complete_ledger done l) (complete_nodes done u)
Records-complete_all l u k =
    Records-complete_nodes u.in_progress.binaries_un_installed_nodes_list l u
      (λ m c. sym (k.removed.exact m) ∙ c) k

Records-at_start : Records [] zero_status.un_installation_status
unfolding number contains phase_of
Records-at_start = record {
  removed = record { distinct = tt; exact = λ n. refl; counted = refl };
  complete = record { distinct = tt; exact = λ n. refl; counted = refl };
  count = refl;
}

-- The number in progress and the failures are beside the lists.
module _ (l : Ledger) (u : KataUnInstallationStatus) (k : Records l u) where
  Records-begun : Records l (uninstall_started u)
  unfolding uninstall_started
  Records-begun = record { removed = k.removed; complete = k.complete; count = k.count }

  Records-ended : Records l (uninstall_ended u)
  unfolding uninstall_ended
  Records-ended = record { removed = k.removed; complete = k.complete; count = k.count }

  Records-failed : (fn : FailedNodeStatus) → Records l (uninstall_failed fn u)
  unfolding uninstall_failed
  Records-failed fn = record { removed = k.removed; complete = k.complete; count = k.count }

-- The uninstallation status says how far each node is, however the daemons of the nodes and the
-- controller interleave, restarts and failures included: the list of the reported nodes names
-- exactly those whose binaries are reported as removed, the completed ones among them, each once; the
-- list of the completed ones names exactly the nodes that the controller has completed, each once;
-- and the number of completed nodes is the length of that list. The steps are those of
-- Daemon/Removal.
pub Removing-Records : {limit : ℕ} {f : Removal} → Removing limit f → Records f.ledger f.status
Removing-Records begun = Records-at_start
Removing-Records (later {f} (start n) h r) =
    Records-start n f.ledger f.status (Removing-Records r) (phase-idle _ (ground (arith, h)))
Removing-Records (later {f} (restart n) h r) = Records-begun f.ledger f.status (Removing-Records r)
Removing-Records (later {f} (fail_unnamed n) h r) =
    Records-ended f.ledger f.status (Removing-Records r)
Removing-Records (later {f} (remove n) h r) =
    Records-remove n f.ledger f.status (Removing-Records r) (phase-running _ h)
Removing-Records (later {f} (fail fn) h r) =
    Records-failed f.ledger (uninstall_ended f.status)
      (Records-ended f.ledger f.status (Removing-Records r)) fn
Removing-Records (later {f} complete_all h r) =
    Records-complete_all f.ledger f.status (Removing-Records r)
