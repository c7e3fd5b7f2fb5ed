-- ===== src/Cluster.antt =====
-- What the program calls and does not implement: the API server behind client.Client and the
-- clientset, controllerutil, and the node that the daemon runs on. Each is a parameter, with the
-- state `W` of everything outside the process; every call may answer with an error.
-- The laws that some theorems need are named here, and are hypotheses there.
pub mod Calls
use kata_operator.Base.{◌≡◌, ℕ, String, Bool, List, ltb}
use kata_operator.Api.Kata.{KataConfig, Labels, ObjectMeta}
use kata_operator.Api.Objects.{
  DaemonSet, MachineConfigPool, MachineConfig, Ignition, RuntimeClass, Pod, Node,
}
use kata_operator.Api.Errors.{Result, ok}

pub record Cluster (W : Type 0) : Type 0 where
  -- Get(ctx, key, obj): the answer is what `obj` holds after the call
  pub get_kata_config : String → KataConfig → W → Result KataConfig × W
  pub list_kata_configs : W → Result (List KataConfig) × W
  -- Update(ctx, obj) and Status().Update(ctx, obj): the answer of the server goes into `obj`
  pub update_kata_config : KataConfig → W → Result KataConfig × W
  pub update_kata_config_status : KataConfig → W → Result KataConfig × W
  pub get_daemon_set : String → String → W → Result DaemonSet × W
  pub create_daemon_set : DaemonSet → W → Result (Unit {0}) × W
  pub delete_daemon_set : DaemonSet → W → Result (Unit {0}) × W
  pub get_machine_config_pool : String → W → Result MachineConfigPool × W
  pub create_machine_config_pool : MachineConfigPool → W → Result (Unit {0}) × W
  pub delete_machine_config_pool : MachineConfigPool → W → Result (Unit {0}) × W
  pub get_machine_config : String → W → Result MachineConfig × W
  pub create_machine_config : MachineConfig → W → Result (Unit {0}) × W
  pub delete_machine_config : MachineConfig → W → Result (Unit {0}) × W
  pub get_runtime_class : String → W → Result RuntimeClass × W
  pub create_runtime_class : RuntimeClass → W → Result (Unit {0}) × W
  pub list_pods : W → Result (List Pod) × W
  pub list_nodes : Labels → W → Result (List Node) × W
  pub get_node : String → W → Result Node × W
  pub update_node : Node → W → Result (Unit {0}) × W
  -- getClientSet, which reads the configuration of the process
  pub get_client_set : W → Result (Unit {0}) × W
  -- time.Sleep, in seconds
  pub sleep : ℕ → W → W
  -- controllerutil.SetControllerReference, on the metadata of the owned object
  pub set_controller_reference : KataConfig → ObjectMeta → Result ObjectMeta
  pub add_finalizer : List String → String → List String
  pub remove_finalizer : List String → String → List String
  -- json.Marshal of an ignTypes.Config
  pub marshal : Ignition → Result String
  -- metav1.Time.Before
  pub before : ℕ → ℕ → Bool

-- The documented behaviour of metav1.Time.Before, on instants as numbers.
pub record OrdersTime {W : Type 0} (c : Cluster W) : Type 0 where
  pub before_lem : (a b : ℕ) → c.before a b ≡ ltb a b

-- An update of the status, when it is accepted, is answered by the status that was sent.
pub record EchoesStatus {W : Type 0} (c : Cluster W) : Type 0 where
  pub echo :
      (kc : KataConfig) (w : W) (answer : KataConfig)
      → (c.update_kata_config_status kc w).0 ≡ ok answer
      → answer.status ≡ kc.status
