-- ===== src/Tests/Deletion.antt =====
-- The deletion of a resource on a calm cluster.
use kata_operator.Base.{◌≡◌, refl, true, [], arith}
use kata_operator.Effect.{done, ◌>>=◌}
use kata_operator.Effect.{for_each}
use kata_operator.Controllers.Common.{contains, has_key}
use kata_operator.Controllers.Reconciler.{
  reply_done, current, assign, ask, match_labels, usable_client_set, ensure_client_set, sleep,
  update_status, update_kata_config,
}
use kata_operator.Controllers.OpenShift.Objects.{
  process_daemonset_for_cr, new_mcp_for_cr, machine_config_for,
}
use kata_operator.Controllers.OpenShift.Queries.{
  worker_or_master, list_kata_pods, new_mc_for_cr, delete_kata_daemonset,
}
use kata_operator.Controllers.OpenShift.Delete.{process_kata_config_delete_request, finalize}
use kata_operator.Controllers.OpenShift.Delete.Evidence.{Guarded}
use kata_operator.Controllers.OpenShift.Delete.Safety.{delete_request-Guarded}
use kata_operator.Api.Kata.{KataConfig, LabelSelector}
use kata_operator.Controllers.Common.{kata_config_finalizer}
use kata_operator.Controllers.OpenShift.Queries.{uses_runtime_class}
use kata_operator.Controllers.OpenShift.Cooperation.{Cooperates}
use kata_operator.Controllers.OpenShift.Delete.Liveness.{Released, delete_request_finishes}
use kata_operator.Base.{◌∷◌}
use kata_operator.Tests.Clusters.{calm, deleting, at_rest}

delete_request-Guarded_example :
    Guarded "kata" (process_kata_config_delete_request calm (at_rest deleting)).1.calls
delete_request-Guarded_example = delete_request-Guarded calm (at_rest deleting) tt

-- the run drops the finalizer
deletion_ends :
    let run = process_kata_config_delete_request calm (at_rest deleting) in
    (run.0 ≡ done reply_done) × (run.1.kata_config.metadata.finalizers ≡ [])
unfolding process_kata_config_delete_request finalize worker_or_master list_kata_pods new_mc_for_cr
    delete_kata_daemonset process_daemonset_for_cr new_mcp_for_cr machine_config_for contains
    has_key current assign ask match_labels usable_client_set ensure_client_set sleep update_status
    update_kata_config for_each ◌>>=◌
deletion_ends = (refl, refl)

-- The calm cluster cooperates.
calm-Cooperates : Cooperates calm "kata"
unfolding uses_runtime_class
calm-Cooperates = record {
  pods = λ w. refl;
  pools = λ name w. refl;
  daemon_sets = λ name namespace w. refl;
  creates = λ ds w. tt;
  deletes = λ ds w. tt;
  machine_configs = λ name w. refl;
  marshals = λ x. tt;
  nodes = λ name w. tt;
  node_updates = λ node w. tt;
  client_sets = λ w. tt;
  statuses = λ kc w. refl;
  updates = λ kc w. refl;
}

-- one of two nodes has no binaries any more
abbrev half_way : KataConfig
half_way = record deleting { status = record deleting.status { total_nodes_count = 2 } }

abbrev own_pool : LabelSelector
own_pool = record { match_labels = ("custom-kata1", "test") ∷ []; match_expressions = [] }

half_way-contains : contains half_way.metadata.finalizers kata_config_finalizer ≡ true
unfolding contains
half_way-contains = refl

delete_request_finishes_example :
    let run = process_kata_config_delete_request calm (at_rest half_way) in
    (run.0 ≡ done reply_done)
    × (run.1.kata_config.metadata.finalizers
        ≡ calm.remove_finalizer half_way.metadata.finalizers kata_config_finalizer)
    × Released
        (calm.remove_finalizer half_way.metadata.finalizers kata_config_finalizer)
        run.1.calls
delete_request_finishes_example =
    delete_request_finishes calm (at_rest half_way) own_pool calm-Cooperates refl (omega arith)
      half_way-contains tt
