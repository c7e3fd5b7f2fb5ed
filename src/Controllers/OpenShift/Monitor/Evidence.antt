-- ===== src/Controllers/OpenShift/Monitor/Evidence.antt =====
-- What the calls of monitorKataConfigInstallation are where it goes on to its end.
use kata_operator.Base.{
  ◌≡◌, if◌then◌else◌, String, Bool, true, false, some, List, ◌∷◌, ◌⊎◌, ◌==◌, nat_eq, string_eq,
}
use kata_operator.Api.Kata.{KataConfig, LabelSelector}
use kata_operator.Api.Objects.{MachineConfigPool, MachineConfig}
use kata_operator.Api.Errors.{Error, Result, ok, err, is_not_found}
use kata_operator.Cluster.{Cluster}
use kata_operator.Cluster.Calls.{
  Call, got_machine_config_pool, got_machine_config, created_machine_config,
}
use kata_operator.Controllers.Common.{has_key}
use kata_operator.Controllers.OpenShift.Objects.{
  role_label, kata_oc, new_mcp_for_cr, machine_config_for, ignition_config,
}
use kata_operator.Controllers.OpenShift.Queries.{role_of, found as found_pool}

-- The pool of the nodes: the selector has the label of the role, and nothing is asked; or it has
-- not, and the pool of the resource is read, with machines, all of them ready.
abbrev pub Awaited : KataConfig → String → List Call → List Call → Type 0
Awaited kc machine_pool before after =
    (selector : LabelSelector) × (kc.spec.kata_config_pool_selector ≡ some selector)
    × (((has_key (role_label machine_pool) selector.match_labels ≡ true) × (after ≡ before))
        ⊎ ((mcp : MachineConfigPool) × (has_key (role_label machine_pool) selector.match_labels
              ≡ false)
            × ((mcp.machine_count == 0) ≡ false)
            × (mcp.machine_count ≡ mcp.ready_machine_count)
            × (after
                ≡ got_machine_config_pool (new_mcp_for_cr kc).metadata.name (ok mcp) ∷ before)))

-- The machine config is found by its name, or not found and created.
abbrev pub Placed : MachineConfig → List Call → List Call → Type 0
Placed mc before after =
    ((found : MachineConfig) × (after ≡ got_machine_config mc.metadata.name (ok found) ∷ before))
    ⊎ ((e : Error) × (is_not_found e ≡ true)
        × (after
            ≡ created_machine_config mc (ok tt)
              ∷ got_machine_config mc.metadata.name (err e)
              ∷ before))

-- All calls after those before: the pool that tells the role, the pool of the nodes, the pool that
-- the machine config is made for, and the machine config of the resource.
abbrev pub Placement : {W : Type 0} → Cluster W → KataConfig → List Call → List Call → Type 0
Placement c kc before after =
    (worker : Result MachineConfigPool) × (machine_pool : String) × (role_of worker
      ≡ ok machine_pool)
    × (waited : List Call) × Awaited kc machine_pool
        (got_machine_config_pool "worker" worker ∷ before) waited
    × (answer : Result MachineConfigPool) × (exists : Bool) × (found_pool answer ≡ ok exists)
    × (raw : String) × (c.marshal (ignition_config kc.status.runtime_class) ≡ ok raw)
    × Placed (machine_config_for kc (if exists then kata_oc else machine_pool) raw)
        (got_machine_config_pool kata_oc answer ∷ waited) after
