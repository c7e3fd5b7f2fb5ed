-- ===== src/Tests/Clusters.antt =====
-- A cluster whose calls all succeed, with constant answers, and resources to run on it.
use kata_operator.Base.{String, none, some, List, [], ◌∷◌, ◌==◌, string_eq, if◌then◌else◌, ltb}
use kata_operator.Api.Kata.{KataConfig, zero_meta, zero_kata_config, zero_status}
use kata_operator.Api.Objects.{MachineConfigPool, Node}
use kata_operator.Api.Errors.{ok, err, not_found}
use kata_operator.Cluster.{Cluster}
use kata_operator.Controllers.Common.{kata_config_finalizer}
use kata_operator.Controllers.Reconciler.{Reconciler, no_client_set}

-- controllerutil.RemoveFinalizer, over a list
abbrev pub without : List String → String → List String
without [] f = []
without (x ∷ l) f = let rest = without l f in if x == f then rest else x ∷ rest

abbrev pub ready_pool : MachineConfigPool
ready_pool = record {
  api_version = "machineconfiguration.openshift.io/v1";
  kind = "MachineConfigPool";
  metadata = record zero_meta { name = "worker" };
  machine_config_selector = none;
  node_selector = none;
  machine_count = 2;
  ready_machine_count = 2;
}

abbrev pub worker_nodes : List Node
worker_nodes =
    record { name = "node1"; labels = ("custom-kata1", "test") ∷ [] }
    ∷ record { name = "node2"; labels = [] }
    ∷ []

-- Every update is answered by the object that was sent.
abbrev pub calm : Cluster (Unit {0})
calm = record {
  get_kata_config = λ name kc w. (ok kc, w);
  list_kata_configs = λ w. (ok (zero_kata_config ∷ []), w);
  update_kata_config = λ kc w. (ok kc, w);
  update_kata_config_status = λ kc w. (ok kc, w);
  get_daemon_set = λ name namespace w. (err not_found, w);
  create_daemon_set = λ ds w. (ok tt, w);
  delete_daemon_set = λ ds w. (ok tt, w);
  get_machine_config_pool = λ name w. (ok ready_pool, w);
  create_machine_config_pool = λ mcp w. (ok tt, w);
  delete_machine_config_pool = λ mcp w. (ok tt, w);
  get_machine_config = λ name w. (err not_found, w);
  create_machine_config = λ mc w. (ok tt, w);
  delete_machine_config = λ mc w. (ok tt, w);
  get_runtime_class = λ name w. (err not_found, w);
  create_runtime_class = λ rc w. (ok tt, w);
  list_pods = λ w. (ok (record { name = "web"; runtime_class_name = none } ∷ []), w);
  list_nodes = λ labels w. (ok worker_nodes, w);
  get_node = λ name w. (ok (record { name = name; labels = [] }), w);
  update_node = λ node w. (ok tt, w);
  get_client_set = λ w. (ok tt, w);
  sleep = λ n w. w;
  set_controller_reference =
      λ kc metadata. ok (record metadata { owner_references = kc.metadata.name ∷ [] });
  add_finalizer = λ l f. f ∷ l;
  remove_finalizer = without;
  marshal = λ ignition. ok ignition.version;
  before = ltb;
}

-- A resource that is being deleted, one of whose nodes has no binaries any more.
abbrev pub deleting : KataConfig
deleting = record {
  metadata = record zero_meta {
    name = "example-kataconfig";
    finalizers = kata_config_finalizer ∷ [];
    deletion_timestamp = some 7;
  };
  spec = record {
    kata_config_pool_selector =
        some (record { match_labels = ("custom-kata1", "test") ∷ []; match_expressions = [] });
    config = record { source_image = "" };
  };
  status = record zero_status {
    runtime_class = "kata";
    total_nodes_count = 1;
    un_installation_status = record {
      in_progress = record {
        in_progress_nodes_count = 1;
        binaries_un_installed_nodes_list = "node1" ∷ [];
      };
      completed = record { completed_nodes_count = 0; completed_nodes_list = [] };
      failed = record { failed_nodes_count = 0; failed_nodes_list = [] };
    };
  };
}

-- a reconciler that has made no call yet
abbrev pub at_rest : KataConfig → Reconciler (Unit {0})
at_rest kc = record { world = tt; kata_config = kc; clientset = no_client_set; calls = [] }
