-- ===== src/Controllers/OpenShift/Delete/Nodes.antt =====
-- The last loop of processKataConfigDeleteRequest, which moves the nodes without binaries to the
-- completed ones.
use kata_operator.Base.{
  ◌≡◌, ◌+◌, ◌-◌, ◌^◌, ◌<◌, ◌≤◌, String, Bool, true, false, ◌||◌, inl, inr, List, [], ◌∷◌, ◌==◌,
  string_eq, length, length-append, arith, Bool-cases, eq_iff,
}
use kata_operator.Base.GoInt.{of_len}
use kata_operator.Api.Kata.{KataUnInstallationStatus}
use kata_operator.Controllers.Common.{contains}
use kata_operator.Controllers.Common.Names.{
  IsDistinct, contains-append, contains-one, IsDistinct-snoc,
}
use kata_operator.Controllers.OpenShift.Delete.{complete_node, complete_nodes}

-- The completed nodes are counted by their list and are distinct, and the number of nodes in
-- progress is not negative.
pub record IsWellFormed (u : KataUnInstallationStatus) : Type 0 where
  pub counted : u.completed.completed_nodes_count ≡ of_len (length u.completed.completed_nodes_list)
  pub distinct : IsDistinct u.completed.completed_nodes_list
  pub in_progress : u.in_progress.in_progress_nodes_count < 2 ^ 63

complete_node-IsWellFormed :
    (n : String) (u : KataUnInstallationStatus)
    → contains u.completed.completed_nodes_list n ≡ false
    → IsWellFormed u
    → IsWellFormed (complete_node n u)
unfolding complete_node
complete_node-IsWellFormed n u new w = record {
  counted = omega (arith, length-append u.completed.completed_nodes_list (n ∷ []));
  distinct = IsDistinct-snoc u.completed.completed_nodes_list n new w.distinct;
  in_progress = ground arith;
}

-- The last loop of a deletion keeps the record of the completed nodes well formed, whatever the list
-- of the nodes without binaries is.
pub complete_nodes-IsWellFormed :
    (ns : List String) (u : KataUnInstallationStatus)
    → IsWellFormed u
    → IsWellFormed (complete_nodes ns u)
unfolding complete_nodes
complete_nodes-IsWellFormed [] u w = w
complete_nodes-IsWellFormed (n ∷ ns) u w =
    elim (Bool-cases (contains u.completed.completed_nodes_list n)) [
      | inl old ↦ rw old (complete_nodes-IsWellFormed ns u w)
      | inr new ↦ rw new (
          complete_nodes-IsWellFormed ns (complete_node n u) (complete_node-IsWellFormed n u new w))
    ]

-- what the loop has completed, by name
abbrev completed : KataUnInstallationStatus → String → Bool
completed u n = contains u.completed.completed_nodes_list n

contains-complete_node :
    (x : String) (u : KataUnInstallationStatus) (n : String)
    → completed (complete_node x u) n ≡ (completed u n || (x == n))
unfolding complete_node
contains-complete_node x u n =
    ground (arith, contains-append u.completed.completed_nodes_list (x ∷ []) n, contains-one x n)

-- After the loop a node is among the completed ones exactly when it was there before or is in the
-- list of the nodes without binaries.
pub contains-complete_nodes :
    (ns : List String) (u : KataUnInstallationStatus) (n : String)
    → contains (complete_nodes ns u).completed.completed_nodes_list n
      ≡ (contains u.completed.completed_nodes_list n || contains ns n)
unfolding complete_nodes contains
contains-complete_nodes [] u n = ground arith
contains-complete_nodes (x ∷ ns) u n = ground (
  arith,
  contains-complete_nodes ns u n,
  contains-complete_nodes ns (complete_node x u) n,
  contains-complete_node x u n,
  eq_iff x n,
)

length-complete_node :
    (x : String) (u : KataUnInstallationStatus)
    → length (complete_node x u).completed.completed_nodes_list
      ≡ length u.completed.completed_nodes_list + 1
unfolding complete_node
length-complete_node x u = omega (arith, length-append u.completed.completed_nodes_list (x ∷ []))

in_progress-complete_node :
    (x : String) (u : KataUnInstallationStatus)
    → u.in_progress.in_progress_nodes_count < 2 ^ 63
    → (complete_node x u).in_progress.in_progress_nodes_count
      ≡ u.in_progress.in_progress_nodes_count - 1
unfolding complete_node
in_progress-complete_node x u h = ground arith

module _ (x : String) (ns : List String) (u : KataUnInstallationStatus) where
  complete_nodes-old :
      contains u.completed.completed_nodes_list x ≡ true
      → complete_nodes (x ∷ ns) u ≡ complete_nodes ns u
  unfolding complete_nodes
  complete_nodes-old e = rw e

  complete_nodes-new :
      contains u.completed.completed_nodes_list x ≡ false
      → complete_nodes (x ∷ ns) u ≡ complete_nodes ns (complete_node x u)
  unfolding complete_nodes
  complete_nodes-new e = rw e

length-complete_nodes-le :
    (ns : List String) (u : KataUnInstallationStatus)
    → length u.completed.completed_nodes_list
      ≤ length (complete_nodes ns u).completed.completed_nodes_list
length-complete_nodes-le [] u = unfold complete_nodes in omega arith
length-complete_nodes-le (x ∷ ns) u =
    elim (Bool-cases (contains u.completed.completed_nodes_list x)) [
      | inl old ↦ rw (complete_nodes-old x ns u old) (length-complete_nodes-le ns u)
      | inr new ↦
          rw (complete_nodes-new x ns u new) (
            omega
              (arith, length-complete_nodes-le ns (complete_node x u), length-complete_node x u))
    ]

-- The number of nodes in progress falls by one for each node that the last loop of a deletion
-- completes, and stops at 0. It is supposed not to be negative before.
pub in_progress-complete_nodes :
    (ns : List String) (u : KataUnInstallationStatus)
    → u.in_progress.in_progress_nodes_count < 2 ^ 63
    → (complete_nodes ns u).in_progress.in_progress_nodes_count
      ≡ u.in_progress.in_progress_nodes_count
        - (length (complete_nodes ns u).completed.completed_nodes_list
            - length u.completed.completed_nodes_list)
in_progress-complete_nodes [] u h = unfold complete_nodes in omega arith
in_progress-complete_nodes (x ∷ ns) u h =
    elim (Bool-cases (contains u.completed.completed_nodes_list x)) [
      | inl old ↦ rw (complete_nodes-old x ns u old) (in_progress-complete_nodes ns u h)
      | inr new ↦
          let one = in_progress-complete_node x u h in
          rw (complete_nodes-new x ns u new) (
            omega (
              arith,
              one,
              in_progress-complete_nodes ns (complete_node x u) (omega (arith, one)),
              length-complete_nodes-le ns (complete_node x u),
              length-complete_node x u,
            ))
    ]
