-- ===== src/Tests/Marks.antt =====
-- Two nodes of a Kubernetes cluster, one of which carries the label of the installation.
use kata_operator.Base.{◌≡◌, refl, sym, ap, [], ◌∷◌, List}
use kata_operator.Api.Kata.{KataConfig, KataConfigStatus, zero_status, zero_meta, zero_kata_config}
use kata_operator.Api.Objects.{Node}
use kata_operator.Api.Errors.{Result, ok, err}
use kata_operator.Effect.{done, for_each, ◌>>=◌}
use kata_operator.Cluster.{Cluster, EchoesStatus}
use kata_operator.Controllers.Common.{contains}
use kata_operator.Controllers.Reconciler.{
  reply_done, current, assign, ask, match_labels, update_status,
}
use kata_operator.Controllers.Kubernetes.Monitor.{node_installed, monitor_kata_config_installation}
use kata_operator.Controllers.Kubernetes.Monitor.Marks.{
  with_binaries, Shows, Within, to_find, monitor-finds,
}
use kata_operator.Effect.Keeps.{After}
use kata_operator.Tests.Clusters.{calm, at_rest}

abbrev nodes : List Node
nodes =
    record { name = "node1"; labels = ("katacontainers.io/kata-runtime", "true") ∷ [] }
    ∷ record { name = "node2"; labels = ("katacontainers.io/kata-runtime", "false") ∷ [] }
    ∷ []

abbrev marking : Cluster (Unit {0})
marking = record calm { list_nodes = λ labels w. (ok nodes, w) }

abbrev status_of : Result KataConfig → KataConfigStatus
status_of (ok kc) = kc.status
status_of (err _) = zero_status

marking-EchoesStatus : EchoesStatus marking
marking-EchoesStatus = record { echo = λ kc w answer e. sym (ap status_of e) }

abbrev counted : KataConfig
counted = record zero_kata_config {
  metadata = record zero_meta { name = "kc" };
  status = record zero_status { total_nodes_count = 2 };
}

-- the loop goes on to its end, with one node
search_ends :
    let run = monitor_kata_config_installation marking (at_rest counted) in
    (run.0 ≡ done reply_done) × (with_binaries run.1.kata_config ≡ "node1" ∷ [])
unfolding monitor_kata_config_installation node_installed for_each current assign ask match_labels
    update_status contains ◌>>=◌
search_ends = (refl, refl)

monitor-finds_example :
    let run = monitor_kata_config_installation marking (at_rest counted) in
    After (λ _. Shows (to_find nodes counted)) (Within (to_find nodes counted)) run.0 run.1
monitor-finds_example = monitor-finds marking (at_rest counted) nodes marking-EchoesStatus refl refl
