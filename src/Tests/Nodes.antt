-- ===== src/Tests/Nodes.antt =====
-- The loops over nodes and labels, on the resource that is being deleted.
use kata_operator.Base.{◌≡◌, refl, ◌-◌, String, ◌||◌, List, [], ◌∷◌, length, arith}
use kata_operator.Api.Kata.{KataUnInstallationStatus}
use kata_operator.Controllers.Common.{contains}
use kata_operator.Controllers.OpenShift.Delete.{complete_nodes}
use kata_operator.Controllers.OpenShift.Delete.Nodes.{
  IsWellFormed, complete_nodes-IsWellFormed, contains-complete_nodes, in_progress-complete_nodes,
}
use kata_operator.Tests.Clusters.{deleting}

abbrev two_nodes : List String
two_nodes = "node1" ∷ "node2" ∷ []

abbrev running : KataUnInstallationStatus
running = deleting.status.un_installation_status

running-IsWellFormed : IsWellFormed running
running-IsWellFormed = record { counted = refl; distinct = tt; in_progress = omega arith }

complete_nodes-IsWellFormed_example : IsWellFormed (complete_nodes two_nodes running)
complete_nodes-IsWellFormed_example =
    complete_nodes-IsWellFormed two_nodes running running-IsWellFormed

contains-complete_nodes_example :
    contains (complete_nodes two_nodes running).completed.completed_nodes_list "node2"
    ≡ (contains running.completed.completed_nodes_list "node2" || contains two_nodes "node2")
contains-complete_nodes_example = contains-complete_nodes two_nodes running "node2"

in_progress-complete_nodes_example :
    (complete_nodes two_nodes running).in_progress.in_progress_nodes_count
    ≡ 1
      - (length (complete_nodes two_nodes running).completed.completed_nodes_list
          - length running.completed.completed_nodes_list)
in_progress-complete_nodes_example = in_progress-complete_nodes two_nodes running (omega arith)
