-- ===== src/Tests/Endings.antt =====
-- The end of the installation on a cluster of one node.
use kata_operator.Base.{List, ◌≡◌, refl, ◌<◌, ◌+◌, ◌^◌, some, [], ◌∷◌, arith}
use kata_operator.Api.Kata.{LabelSelector, KataConfig, zero_meta, zero_kata_config, zero_status}
use kata_operator.Api.Errors.{ok}
use kata_operator.Effect.{done}
use kata_operator.Cluster.{Cluster}
use kata_operator.Controllers.Reconciler.{reply_done}
use kata_operator.Controllers.OpenShift.Reconcile.{reconcile}
use kata_operator.Controllers.OpenShift.Runtime.Named.{Supports}
use kata_operator.Daemon.Fleet.{
  is_ready, is_complete, phase_of, set_phase, number, start, install, finish, Fleet, move, at_start,
  Reach, begun, later,
}
use kata_operator.Daemon.Fleet.Readiness.{ready_fleet-reconcile}
use kata_operator.Controllers.OpenShift.Monitor.Evidence.{Placement}
use kata_operator.Cluster.Calls.{Call}
use kata_operator.Controllers.OpenShift.Monitor.Placement.{Hosts}
use kata_operator.Daemon.Fleet.Completion.{Ending, complete_fleet-reconcile}
use kata_operator.Tests.Clusters.{calm, at_rest}

abbrev waiting : Fleet
waiting = move (install "node1") (move (start "node1") at_start)

waiting-Reach : Reach 1 waiting
unfolding phase_of set_phase number
waiting-Reach = later (install "node1") refl (later (start "node1") refl begun)

abbrev finished : Fleet
finished = move (finish "node1") waiting

finished-Reach : Reach 1 finished
unfolding phase_of set_phase
finished-Reach = later (finish "node1") refl waiting-Reach

-- the resource with the status of a fleet
abbrev resource : Fleet → KataConfig
resource f = record zero_kata_config {
  metadata = record zero_meta { name = "kc" };
  status = record zero_status { installation_status = f.status; total_nodes_count = 1 };
}

-- the calm cluster with the resource
abbrev holding : KataConfig → Cluster (Unit {0})
holding kc = record calm { get_kata_config = λ name into w. (ok kc, w) }

holding-Supports : (kc : KataConfig) → Supports (holding kc) "kc" kc
holding-Supports kc = record {
  gets = λ w. refl;
  lists = λ w. refl;
  daemon_sets = λ name namespace w. refl;
  deletes = λ ds w. tt;
  owners = λ k m. tt;
  classes = λ name w. refl;
  creates = λ rc w. tt;
  statuses = λ k w. refl;
}

few_reruns : 1 + finished.slips.reruns < 2 ^ 63
unfolding phase_of set_phase
few_reruns = omega arith

all_complete : number is_complete finished.ledger ≡ 1
unfolding number set_phase
all_complete = refl

complete_fleet-reconcile_example :
    let run = reconcile (holding (resource finished)) "kc" (at_rest zero_kata_config) in
    (run.0 ≡ done reply_done)
    × (run.1.kata_config.status.runtime_class ≡ "kata")
    × Ending (holding (resource finished)) (resource finished) run.1.calls
complete_fleet-reconcile_example =
    complete_fleet-reconcile (holding (resource finished)) (at_rest zero_kata_config) "kc"
      (resource finished) (holding-Supports (resource finished)) (omega arith) few_reruns
      finished-Reach refl refl all_complete refl refl

abbrev own_labels : LabelSelector
own_labels = record { match_labels = ("custom-kata1", "test") ∷ []; match_expressions = [] }

abbrev with_labels : KataConfig → KataConfig
with_labels kc = record kc { spec = record kc.spec { kata_config_pool_selector = some own_labels } }

holding-Hosts : (kc : KataConfig) → Hosts (holding kc) "kc" kc
holding-Hosts kc = record {
  gets = λ w. refl;
  lists = λ w. refl;
  pools = λ pool w. refl;
  machines = λ pool w. refl;
  machine_configs = λ name w. refl;
  creates = λ mc w. tt;
  marshals = λ x. tt;
}

no_reruns : 1 + waiting.slips.reruns < 2 ^ 63
unfolding phase_of set_phase
no_reruns = omega arith

all_ready : number is_ready waiting.ledger ≡ 1
unfolding number set_phase
all_ready = refl

abbrev labelled : KataConfig
labelled = with_labels (resource waiting)

ready_fleet-reconcile_example :
    let run = reconcile (holding labelled) "kc" (at_rest zero_kata_config) in
    (run.0 ≡ done reply_done)
    × ((before : List Call) × Placement (holding labelled) labelled before run.1.calls)
ready_fleet-reconcile_example =
    ready_fleet-reconcile (holding labelled) (at_rest zero_kata_config) "kc" labelled own_labels
      (holding-Hosts labelled) refl (omega arith) no_reruns waiting-Reach refl refl all_ready refl
