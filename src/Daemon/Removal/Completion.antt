-- ===== src/Daemon/Removal/Completion.antt =====
-- The loop at the end of the deletion, on the status of the daemons that uninstall.
use kata_operator.Base.{
  ◌≡◌, refl, sym, ap, ◌∙◌, ℕ, String, ◌||◌, List, [], ◌∷◌, length, arith, eq_iff,
}
use kata_operator.Base.GoInt.{of_len}
use kata_operator.Controllers.Common.{contains}
use kata_operator.Controllers.OpenShift.Delete.{complete_nodes}
use kata_operator.Daemon.Fleet.{complete, Ledger, phase_of, set_phase, is_complete}
use kata_operator.Daemon.Fleet.Counting.{phase_of-set_phase, length_mono}
use kata_operator.Daemon.Removal.{Removal, complete_all, complete_ledger, step, Removing, later}
use kata_operator.Daemon.Removal.Records.{Removing-Records}

-- The nodes of the list are complete in the end, beside those that were.
phase_of-complete_ledger :
    (ns : List String) (m : String) (l : Ledger)
    → is_complete (phase_of m (complete_ledger ns l))
      ≡ (contains ns m || is_complete (phase_of m l))
unfolding complete_ledger contains
phase_of-complete_ledger [] m l = refl
phase_of-complete_ledger (n ∷ ns) m l = ground (
  arith,
  phase_of-complete_ledger ns m (set_phase n complete l),
  phase_of-set_phase m n complete l,
  eq_iff n m,
)

-- The loop at the end of the deletion takes every reported node over to the completed ones: after
-- it, in any order that the daemons and the controller have taken before, the list of the completed
-- nodes has exactly the names of the reported ones, and the number of completed nodes is the number of
-- reported ones. Nodes that were completed by an earlier deletion request are not counted again.
pub Removing-complete_nodes :
    {limit : ℕ} {f : Removal}
    → Removing limit f
    → let reported = f.status.in_progress.binaries_un_installed_nodes_list in
      let v = complete_nodes reported f.status in
      ((n : String) → contains v.completed.completed_nodes_list n ≡ contains reported n)
      × (v.completed.completed_nodes_count ≡ of_len (length reported))
Removing-complete_nodes {limit} {f} r =
    let reported = f.status.in_progress.binaries_un_installed_nodes_list in
    let k = Removing-Records r in
    let after : Removing limit (step complete_all f) = later complete_all refl r in
    let j = Removing-Records after in
    let v = complete_nodes reported f.status in
    let same : (n : String) → contains v.completed.completed_nodes_list n ≡ contains reported n =
      λ n. ground (
        arith,
        j.complete.exact n,
        phase_of-complete_ledger reported n f.ledger,
        k.removed.exact n,
      ) in
    let many : length v.completed.completed_nodes_list ≡ length reported = omega (
      arith,
      length_mono v.completed.completed_nodes_list reported j.complete.distinct k.removed.distinct
          (λ n c. sym (same n) ∙ c),
      length_mono reported v.completed.completed_nodes_list k.removed.distinct j.complete.distinct
          (λ n c. same n ∙ c),
    ) in
    (same, j.count ∙ ap of_len many)
