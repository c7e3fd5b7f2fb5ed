-- ===== src/Tests/Monitoring.antt =====
-- The machine config of a resource on a calm cluster.
use kata_operator.Base.{◌≡◌, refl, []}
use kata_operator.Effect.{done, ◌>>=◌}
use kata_operator.Controllers.Common.{has_key}
use kata_operator.Controllers.Reconciler.{reply_done, current, ask, match_labels}
use kata_operator.Controllers.OpenShift.Objects.{new_mcp_for_cr, machine_config_for}
use kata_operator.Controllers.OpenShift.Queries.{worker_or_master, new_mc_for_cr}
use kata_operator.Controllers.OpenShift.Monitor.{monitor_kata_config_installation}
use kata_operator.Controllers.OpenShift.Monitor.Evidence.{Placement}
use kata_operator.Controllers.OpenShift.Monitor.Order.{monitor_kata_config_installation_lem}
use kata_operator.Tests.Clusters.{calm, deleting, at_rest}

config_is_made : (monitor_kata_config_installation calm (at_rest deleting)).0 ≡ done reply_done
unfolding monitor_kata_config_installation worker_or_master new_mc_for_cr new_mcp_for_cr
    machine_config_for has_key current ask match_labels ◌>>=◌
config_is_made = refl

monitor_kata_config_installation_lem_example :
    let run = monitor_kata_config_installation calm (at_rest deleting) in
    Placement calm deleting [] run.1.calls
monitor_kata_config_installation_lem_example =
    monitor_kata_config_installation_lem calm (at_rest deleting) reply_done config_is_made
