-- ===== src/Api/Objects.antt =====
-- The objects of the cluster that the program reads or writes, with the fields that it reads or
-- sets. Counts of machines are Go's `int32`, as bit patterns.
use kata_operator.Base.{ℕ, String, Bool, Option, List}
use kata_operator.Api.Kata.{Labels, LabelSelector, ObjectMeta}

-- corev1.EnvVarSource, in the two forms that the program sets
pub data EnvVarSource : Type 0 where
  config_map_key_ref : String → String → Bool → EnvVarSource  -- name, key, optional
  field_ref : String → EnvVarSource

pub record EnvVar : Type 0 where
  pub name : String
  pub value_from : EnvVarSource

pub record VolumeMount : Type 0 where
  pub name : String
  pub mount_path : String

-- corev1.Volume over a HostPath
pub record Volume : Type 0 where
  pub name : String
  pub path : String
  pub host_path_type : Option String

pub record Container : Type 0 where
  pub name : String
  pub image : String
  pub image_pull_policy : String
  pub privileged : Bool
  pub run_as_user : ℕ
  pub pre_stop : List String
  pub command : List String
  pub volume_mounts : List VolumeMount
  pub env : List EnvVar

-- corev1.PodTemplateSpec with its PodSpec
pub record PodTemplate : Type 0 where
  pub labels : Labels
  pub service_account_name : String
  pub node_selector : Labels
  pub containers : List Container
  pub volumes : List Volume
  pub host_network : Bool
  pub host_pid : Bool

pub record DaemonSet : Type 0 where
  pub api_version : String
  pub kind : String
  pub metadata : ObjectMeta
  pub selector : LabelSelector
  pub max_unavailable : Option ℕ
  pub template : PodTemplate

pub record MachineConfigPool : Type 0 where
  pub api_version : String
  pub kind : String
  pub metadata : ObjectMeta
  pub machine_config_selector : Option LabelSelector
  pub node_selector : Option LabelSelector
  pub machine_count : ℕ
  pub ready_machine_count : ℕ

-- mcfgv1.MachineConfig, its configuration as the marshalled text
pub record MachineConfig : Type 0 where
  pub api_version : String
  pub kind : String
  pub metadata : ObjectMeta
  pub raw : String

-- the parts of an Ignition configuration that the program sets
pub record Ignition : Type 0 where
  pub version : String
  pub unit_name : String
  pub unit_enabled : Bool
  pub unit_contents : String
  pub file_filesystem : String
  pub file_path : String
  pub file_mode : ℕ
  pub file_source : List ℕ  -- bytes

pub record RuntimeClass : Type 0 where
  pub api_version : String
  pub kind : String
  pub metadata : ObjectMeta
  pub handler : String
  pub overhead : Option (String × String)  -- cpu, memory
  pub node_selector : Option Labels

pub record Pod : Type 0 where
  pub name : String
  pub runtime_class_name : Option String

pub record Node : Type 0 where
  pub name : String
  pub labels : Labels
