-- ===== src/Tests/Managers.antt =====
-- A start of the manager on a cluster of OpenShift.
use kata_operator.Base.{[], ◌∷◌}
use kata_operator.Api.Errors.{ok}
use kata_operator.Manager.{Platform, Process}

abbrev cluster : Platform (Unit {0})
cluster = record {
  new_manager = λ metrics_addr elect w. (ok tt, w);
  get_config = λ w. (ok tt, w);
  new_discovery_client = λ w. (ok tt, w);
  server_groups = λ w. (ok ("apps" ∷ "config.openshift.io" ∷ []), w);
  setup_with_manager = λ controller w. (ok tt, w);
  start = λ w. (ok tt, w);
}

abbrev begin : Process (Unit {0})
begin = record { world = tt; events = [] }
