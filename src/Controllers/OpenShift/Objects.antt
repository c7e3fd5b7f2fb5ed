-- ===== src/Controllers/OpenShift/Objects.antt =====
-- The objects that controllers/openshift_controller.go makes: the daemon sets of
-- processDaemonsetForCR, the pool of newMCPforCR, the runtime class of setRuntimeClass, and the
-- parts of the machine config of newMCForCR.
use Prim.Native.String.{◌++◌}
use kata_operator.Base.{String, true, Option, none, some, [], ◌∷◌}
use kata_operator.Api.Kata.{Labels, LabelSelector, KataConfig, zero_meta}
use kata_operator.Api.Objects.{
  config_map_key_ref, Container, DaemonSet, MachineConfigPool, MachineConfig, Ignition,
  RuntimeClass,
}
use kata_operator.Controllers.Common.{DaemonOperation, operation_text}
use kata_operator.Controllers.OpenShift.Dropin.{dropin_source}

abbrev pub worker_label : String
worker_label = "node-role.kubernetes.io/worker"

-- "node-role.kubernetes.io/" + machinePool
abbrev pub role_label : String → String
role_label pool = "node-role.kubernetes.io/" ++ pool

abbrev pub daemon_set_name : DaemonOperation → String
daemon_set_name op = "kata-operator-daemon-" ++ operation_text op

abbrev pub daemon_set_namespace : String
daemon_set_namespace = "kata-operator-system"

-- the nodes of the daemon set: the selected ones, or all workers
abbrev pub daemon_node_selector : Option LabelSelector → Labels
daemon_node_selector (some selector) = selector.match_labels
daemon_node_selector none = (worker_label, "") ∷ []

daemon_container : String → DaemonOperation → Container
daemon_container resource op = record {
  name = "kata-install-pod";
  image =
      "quay.io/isolatedcontainers/kata-operator-daemon@sha256:528c7f6b9495f4ac13c156f79f59023b46b1817250f51ac88c73fd4163d45f8f";
  image_pull_policy = "Always";
  privileged = true;
  run_as_user = 0;
  pre_stop = "/bin/sh" ∷ "-c" ∷ "rm -rf /host/opt/kata-install /host/usr/local/kata/" ∷ [];
  command =
      "/bin/sh"
      ∷ "-c"
      ∷ ("/daemon --resource " ++ (resource ++ (" --operation " ++ operation_text op)))
      ∷ [];
  volume_mounts = record { name = "hostroot"; mount_path = "/host" } ∷ [];
  env =
      record {
        name = "KATA_PAYLOAD_IMAGE";
        value_from = config_map_key_ref "payload-config" "daemon.payload" true;
      }
      ∷ [];
}

unfoldable pub process_daemonset_for_cr : KataConfig → DaemonOperation → DaemonSet
unfolding daemon_container
process_daemonset_for_cr kc op =
    let labels : Labels = ("name", daemon_set_name op) ∷ [] in
    record {
      api_version = "apps/v1";
      kind = "DaemonSet";
      metadata = record zero_meta { name = daemon_set_name op; namespace = daemon_set_namespace };
      selector = record { match_labels = labels; match_expressions = [] };
      max_unavailable = none;
      template = record {
        labels = labels;
        service_account_name = "default";
        node_selector = daemon_node_selector kc.spec.kata_config_pool_selector;
        containers = daemon_container kc.metadata.name op ∷ [];
        volumes = record { name = "hostroot"; path = "/"; host_path_type = none } ∷ [];
        host_network = true;
        host_pid = true;
      };
    }

abbrev pub kata_oc : String
kata_oc = "kata-oc"

unfoldable pub new_mcp_for_cr : KataConfig → MachineConfigPool
new_mcp_for_cr kc = record {
  api_version = "machineconfiguration.openshift.io/v1";
  kind = "MachineConfigPool";
  metadata = record zero_meta { name = kata_oc };
  machine_config_selector = some (record {
    match_labels = [];
    match_expressions =
        record {
          key = "machineconfiguration.openshift.io/role";
          operator = "In";
          values = kata_oc ∷ "worker" ∷ [];
        }
        ∷ [];
  });
  node_selector = kc.spec.kata_config_pool_selector;
  machine_count = 0;
  ready_machine_count = 0;
}

abbrev osbuilder_unit : String
osbuilder_unit =
    "\n[Unit]\nDescription=Hacky service to enable kata-osbuilder-generate.service\nConditionPathExists=/usr/lib/systemd/system/kata-osbuilder-generate.service\n[Service]\nType=oneshot\nExecStart=/usr/libexec/kata-containers/osbuilder/kata-osbuilder.sh\nExecRestart=/usr/libexec/kata-containers/osbuilder/kata-osbuilder.sh\n[Install]\nWantedBy=multi-user.target\n"

-- the Ignition configuration that newMCForCR marshals
pub ignition_config : String → Ignition
ignition_config runtime_class = record {
  version = "2.2.0";
  unit_name = "kata-osbuilder-generate.service";
  unit_enabled = true;
  unit_contents = osbuilder_unit;
  file_filesystem = "root";
  file_path = "/etc/crio/crio.conf.d/50-kata.conf";
  file_mode = 420;
  file_source = dropin_source runtime_class;
}

abbrev pub machine_config_name : String
machine_config_name = "50-kata-crio-dropin"

-- the object at the end of newMCForCR
unfoldable pub machine_config_for : KataConfig → String → String → MachineConfig
machine_config_for kc machine_pool raw = record {
  api_version = "machineconfiguration.openshift.io/v1";
  kind = "MachineConfig";
  metadata = record zero_meta {
    name = machine_config_name;
    labels =
        ("machineconfiguration.openshift.io/role", machine_pool) ∷ ("app", kc.metadata.name) ∷ [];
    namespace = "kata-operator";
  };
  raw = raw;
}

-- the labels of the pods that may use the runtime class
abbrev scheduling_of : Option LabelSelector → Option Labels
scheduling_of none = none
scheduling_of (some selector) = some selector.match_labels

unfoldable pub runtime_class_for : KataConfig → String → RuntimeClass
runtime_class_for kc runtime_class_name = record {
  api_version = "node.k8s.io/v1beta1";
  kind = "RuntimeClass";
  metadata = record zero_meta { name = runtime_class_name };
  handler = runtime_class_name;
  overhead = some ("250m", "160Mi");
  node_selector = scheduling_of kc.spec.kata_config_pool_selector;
}
