-- ===== src/Controllers/Kubernetes/Objects.antt =====
-- The objects that controllers/kubernetes_controller.go makes: the daemon set of processDaemonset,
-- and the runtime classes of setRuntimeClass.
use Prim.Native.String.{◌++◌}
use kata_operator.Base.{String, true, false, Option, none, some, List, [], ◌∷◌}
use kata_operator.Api.Kata.{Labels, LabelSelector, KataConfig, zero_meta}
use kata_operator.Api.Objects.{field_ref, VolumeMount, Volume, Container, DaemonSet, RuntimeClass}
use kata_operator.Controllers.Common.{DaemonOperation, operation_text}

abbrev pub worker_label : String
worker_label = "node-role.kubernetes.io/worker"

abbrev pub daemon_set_name : DaemonOperation → String
daemon_set_name op = "kata-operator-daemon-" ++ operation_text op

abbrev pub daemon_set_namespace : String
daemon_set_namespace = "kata-operator"

-- the nodes of the daemon set: the selected ones, or all workers
abbrev pub daemon_node_selector : Option LabelSelector → Labels
daemon_node_selector (some selector) = selector.match_labels
daemon_node_selector none = (worker_label, "") ∷ []

abbrev mount : String → String → VolumeMount
mount name path = record { name = name; mount_path = path }

abbrev volume : String → String → Volume
volume name path = record { name = name; path = path; host_path_type = none }

abbrev daemon_mounts : List VolumeMount
daemon_mounts =
    mount "crio-conf" "/etc/crio/"
    ∷ mount "containerd-conf" "/etc/containerd/"
    ∷ mount "kata-artifacts" "/opt/kata/"
    ∷ mount "dbus" "/var/run/dbus"
    ∷ mount "systemd" "/run/systemd"
    ∷ mount "local-bin" "/usr/local/bin/"
    ∷ []

abbrev daemon_volumes : List Volume
daemon_volumes =
    volume "crio-conf" "/etc/crio/"
    ∷ volume "containerd-conf" "/etc/containerd/"
    ∷ record {
      name = "kata-artifacts";
      path = "/opt/kata/";
      host_path_type = some "DirectoryOrCreate";
    }
    ∷ volume "dbus" "/var/run/dbus"
    ∷ volume "systemd" "/run/systemd"
    ∷ volume "local-bin" "/usr/local/bin/"
    ∷ []

kata_deploy_container : String → Container
kata_deploy_container image = record {
  name = "kata-install-pod";
  image = image;
  image_pull_policy = "Always";
  privileged = true;
  run_as_user = 0;
  pre_stop = "bash" ∷ "-c" ∷ "/opt/kata-artifacts/scripts/kata-deploy.sh cleanup" ∷ [];
  command = "bash" ∷ "-c" ∷ "/opt/kata-artifacts/scripts/kata-deploy.sh install" ∷ [];
  volume_mounts = daemon_mounts;
  env = record { name = "NODE_NAME"; value_from = field_ref "spec.nodeName" } ∷ [];
}

-- The operation is in the name only: the command is always the installation.
unfoldable pub process_daemonset : KataConfig → DaemonOperation → DaemonSet
unfolding kata_deploy_container
process_daemonset kc op =
    let labels : Labels = ("name", daemon_set_name op) ∷ [] in
    record {
      api_version = "apps/v1";
      kind = "DaemonSet";
      metadata = record zero_meta { name = daemon_set_name op; namespace = daemon_set_namespace };
      selector = record { match_labels = labels; match_expressions = [] };
      max_unavailable = some 1;
      template = record {
        labels = labels;
        service_account_name = "kata-operator";
        node_selector = daemon_node_selector kc.spec.kata_config_pool_selector;
        containers = kata_deploy_container kc.status.kata_image ∷ [];
        volumes = daemon_volumes;
        host_network = false;
        host_pid = false;
      };
    }

abbrev scheduling_of : Option LabelSelector → Option Labels
scheduling_of none = none
scheduling_of (some selector) = some selector.match_labels

unfoldable pub runtime_class_for : KataConfig → String → RuntimeClass
runtime_class_for kc runtime_class_name = record {
  api_version = "node.k8s.io/v1beta1";
  kind = "RuntimeClass";
  metadata = record zero_meta { name = runtime_class_name };
  handler = runtime_class_name;
  overhead = none;
  node_selector = scheduling_of kc.spec.kata_config_pool_selector;
}
