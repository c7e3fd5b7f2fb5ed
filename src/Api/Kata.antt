-- ===== src/Api/Kata.antt =====
-- api/v1/kataconfig_types.go: the KataConfig custom resource. A Go `int` is the bit pattern of
-- Base/GoInt; a nil pointer is `none`; a map is an association list, and a nil map the empty one.
use kata_operator.Base.{ℕ, String, Option, List, none, []}

abbrev pub Labels : Type 0
Labels = List (String × String)

-- metav1.LabelSelectorRequirement
pub record LabelSelectorRequirement : Type 0 where
  pub key : String
  pub operator : String
  pub values : List String

-- metav1.LabelSelector
pub record LabelSelector : Type 0 where
  pub match_labels : Labels
  pub match_expressions : List LabelSelectorRequirement

-- the fields of metav1.ObjectMeta that the program reads or writes
pub record ObjectMeta : Type 0 where
  pub name : String
  pub namespace : String
  pub resource_version : ℕ  -- an opaque token of the server
  pub labels : Labels
  pub finalizers : List String
  pub owner_references : List String
  pub creation_timestamp : ℕ
  pub deletion_timestamp : Option ℕ

pub record KataInstallConfig : Type 0 where
  pub source_image : String

pub record KataConfigSpec : Type 0 where
  pub kata_config_pool_selector : Option LabelSelector
  pub config : KataInstallConfig

pub record FailedNodeStatus : Type 0 where
  pub name : String
  pub error : String

pub record KataFailedNodeStatus : Type 0 where
  pub failed_nodes_count : ℕ
  pub failed_nodes_list : List FailedNodeStatus

pub record KataConfigCompletedStatus : Type 0 where
  pub completed_nodes_count : ℕ
  pub completed_nodes_list : List String

pub record KataInstallationInProgressStatus : Type 0 where
  pub in_progress_nodes_count : ℕ
  pub binaries_installed_nodes_list : List String

pub record KataInstallationStatus : Type 0 where
  pub in_progress : KataInstallationInProgressStatus
  pub completed : KataConfigCompletedStatus
  pub failed : KataFailedNodeStatus

pub record KataUnInstallationInProgressStatus : Type 0 where
  pub in_progress_nodes_count : ℕ
  pub binaries_un_installed_nodes_list : List String

pub record KataUnInstallationStatus : Type 0 where
  pub in_progress : KataUnInstallationInProgressStatus
  pub completed : KataConfigCompletedStatus
  pub failed : KataFailedNodeStatus

pub data KataUpgradeStatus : Type 0 where
  kata_upgrade_status : KataUpgradeStatus

pub record KataConfigStatus : Type 0 where
  pub runtime_class : String
  pub kata_image : String
  pub total_nodes_count : ℕ
  pub installation_status : KataInstallationStatus
  pub un_installation_status : KataUnInstallationStatus
  pub upgradestatus : KataUpgradeStatus

pub record KataConfig : Type 0 where
  pub metadata : ObjectMeta
  pub spec : KataConfigSpec
  pub status : KataConfigStatus

-- Assignment to a field of a field.
abbrev pub over_status : (KataConfigStatus → KataConfigStatus) → KataConfig → KataConfig
over_status f kc = record kc { status = f kc.status }

abbrev pub over_installation :
    (KataInstallationStatus → KataInstallationStatus) → KataConfigStatus → KataConfigStatus
over_installation f ks = record ks { installation_status = f ks.installation_status }

abbrev pub over_un_installation :
    (KataUnInstallationStatus → KataUnInstallationStatus) → KataConfigStatus → KataConfigStatus
over_un_installation f ks = record ks { un_installation_status = f ks.un_installation_status }

-- The zero values of Go.
abbrev pub zero_meta : ObjectMeta
zero_meta = record {
  name = "";
  namespace = "";
  resource_version = 0;
  labels = [];
  finalizers = [];
  owner_references = [];
  creation_timestamp = 0;
  deletion_timestamp = none;
}

abbrev zero_completed : KataConfigCompletedStatus
zero_completed = record { completed_nodes_count = 0; completed_nodes_list = [] }

abbrev zero_failed : KataFailedNodeStatus
zero_failed = record { failed_nodes_count = 0; failed_nodes_list = [] }

abbrev pub zero_status : KataConfigStatus
zero_status = record {
  runtime_class = "";
  kata_image = "";
  total_nodes_count = 0;
  installation_status = record {
    in_progress = record { in_progress_nodes_count = 0; binaries_installed_nodes_list = [] };
    completed = zero_completed;
    failed = zero_failed;
  };
  un_installation_status = record {
    in_progress = record { in_progress_nodes_count = 0; binaries_un_installed_nodes_list = [] };
    completed = zero_completed;
    failed = zero_failed;
  };
  upgradestatus = kata_upgrade_status;
}

-- `KataConfig{}`
abbrev pub zero_kata_config : KataConfig
zero_kata_config = record {
  metadata = zero_meta;
  spec = record { kata_config_pool_selector = none; config = record { source_image = "" } };
  status = zero_status;
}
