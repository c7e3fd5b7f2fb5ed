-- ===== src/Cluster/Calls.antt =====
-- The record of the calls that a run makes, each with its answer. A run keeps it, newest first,
-- beside the state; the program does not read it.
use kata_operator.Base.{ℕ, String, List}
use kata_operator.Api.Kata.{KataConfig, Labels}
use kata_operator.Api.Objects.{DaemonSet, MachineConfigPool, MachineConfig, RuntimeClass, Pod, Node}
use kata_operator.Api.Errors.{Result}

pub data Call : Type 0 where
  got_kata_config : String → Result KataConfig → Call
  listed_kata_configs : Result (List KataConfig) → Call
  updated_kata_config : KataConfig → Result KataConfig → Call
  updated_kata_config_status : KataConfig → Result KataConfig → Call
  got_daemon_set : String → String → Result DaemonSet → Call
  created_daemon_set : DaemonSet → Result (Unit {0}) → Call
  deleted_daemon_set : DaemonSet → Result (Unit {0}) → Call
  got_machine_config_pool : String → Result MachineConfigPool → Call
  created_machine_config_pool : MachineConfigPool → Result (Unit {0}) → Call
  deleted_machine_config_pool : MachineConfigPool → Result (Unit {0}) → Call
  got_machine_config : String → Result MachineConfig → Call
  created_machine_config : MachineConfig → Result (Unit {0}) → Call
  deleted_machine_config : MachineConfig → Result (Unit {0}) → Call
  got_runtime_class : String → Result RuntimeClass → Call
  created_runtime_class : RuntimeClass → Result (Unit {0}) → Call
  listed_pods : Result (List Pod) → Call
  listed_nodes : Labels → Result (List Node) → Call
  got_node : String → Result Node → Call
  updated_node : Node → Result (Unit {0}) → Call
  got_client_set : Result (Unit {0}) → Call
  slept : ℕ → Call
