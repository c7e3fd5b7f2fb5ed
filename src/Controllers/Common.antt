-- ===== src/Controllers/Common.antt =====
-- controllers/common.go, and the maps of labels that the controllers read.
pub mod Names
use kata_operator.Base.{String, Bool, true, false, List, [], ◌∷◌, ◌==◌, string_eq, if◌then◌else◌}
use kata_operator.Api.Kata.{Labels}

pub data DaemonOperation : Type 0 where
  install_operation uninstall_operation upgrade_operation : DaemonOperation

-- the text of the operation
unfoldable pub operation_text : DaemonOperation → String
operation_text install_operation = "install"
operation_text uninstall_operation = "uninstall"
operation_text upgrade_operation = "upgrade"

abbrev pub kata_config_finalizer : String
kata_config_finalizer = "finalizer.kataconfiguration.openshift.io"

unfoldable pub contains : List String → String → Bool
contains [] s = false
contains (v ∷ list) s = if v == s then true else contains list s

-- `_, ok := labels[key]`
unfoldable pub has_key : String → Labels → Bool
has_key key [] = false
has_key key ((k, v) ∷ labels) = if k == key then true else has_key key labels

-- `delete(labels, key)`
unfoldable pub delete_key : String → Labels → Labels
delete_key key [] = []
delete_key key ((k, v) ∷ labels) =
    let rest = delete_key key labels in if k == key then rest else (k, v) ∷ rest
