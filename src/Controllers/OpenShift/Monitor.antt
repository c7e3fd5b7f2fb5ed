-- ===== src/Controllers/OpenShift/Monitor.antt =====
-- monitorKataConfigInstallation of controllers/openshift_controller.go.
pub mod Evidence
pub mod Making
pub mod Order
pub mod Placement
pub mod Waiting
use kata_operator.Base.{not, none, ◌==◌, nat_eq, string_eq, if◌then◌else◌}
use kata_operator.Api.Objects.{MachineConfigPool, MachineConfig}
use kata_operator.Api.Errors.{Result, ok, err, is_not_found}
use kata_operator.Effect.{Exec, ◌>>=◌, ◌>>◌, pure, return, or_return, when, called}
use kata_operator.Cluster.{Cluster}
use kata_operator.Controllers.Common.{has_key}
use kata_operator.Controllers.Reconciler.{
  Reply, reply_done, reply_error, reply_requeue_after, Reconciler, current, get_pool, create_pool,
  get_machine_config, create_machine_config, match_labels,
}
use kata_operator.Controllers.OpenShift.Objects.{role_label, new_mcp_for_cr}
use kata_operator.Controllers.OpenShift.Queries.{worker_or_master, new_mc_for_cr}

module _ {W : Type 0} (c : Cluster W) where
  -- The pool kata-oc is made, or waited for. Each branch that ends the request is a return.
  unfoldable pub await_pool :
      MachineConfigPool → Result MachineConfigPool → Exec (Reconciler W) Reply (Unit {0})
  await_pool mcp (ok found) = do
    when (found.machine_count == 0) (return (reply_requeue_after 15 none))
    when (not (found.machine_count == found.ready_machine_count))
        (return (reply_requeue_after 15 none))
  await_pool mcp (err e) =
      if is_not_found e
      then (do
        created ← create_pool c mcp
        or_return reply_error created
        return (reply_requeue_after 20 none))
      else return (reply_error e)

  -- The machine config is created if it is not there; every branch ends the request.
  unfoldable pub create_mc_if_missing :
      MachineConfig → Result MachineConfig → Exec (Reconciler W) Reply Reply
  create_mc_if_missing mc (ok _) = pure reply_done
  create_mc_if_missing mc (err e) =
      if is_not_found e
      then (do created ← create_machine_config c mc; or_return reply_error created; pure reply_done)
      else return (reply_error e)

  unfoldable pub monitor_kata_config_installation : Exec (Reconciler W) Reply Reply
  unfolding await_pool create_mc_if_missing
  monitor_kata_config_installation = do
    pool ← called (worker_or_master c)
    machine_pool ← or_return reply_error pool
    labels ← match_labels
    when (not (has_key (role_label machine_pool) labels)) (do
      kc ← current
      let mcp = new_mcp_for_cr kc
      found ← get_pool c mcp.metadata.name
      await_pool mcp found)
    made ← called (new_mc_for_cr c machine_pool)
    mc ← or_return reply_error made
    found ← get_machine_config c mc.metadata.name
    create_mc_if_missing mc found
