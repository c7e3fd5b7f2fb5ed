-- ===== src/Daemon/Status.antt =====
-- The changes of a status that Install and Uninstall of
-- images/daemon/pkg/daemon/kata_openshift.go pass to updateKataConfigStatus.
use kata_operator.Base.{String, List, [], ◌∷◌, ◌++◌, ◌==◌, string_eq, if◌then◌else◌, length}
use kata_operator.Base.GoInt.{inc, dec, of_len, is_positive}
use kata_operator.Api.Kata.{
  FailedNodeStatus, KataFailedNodeStatus, KataInstallationStatus, KataUnInstallationStatus,
}

-- `append(list[:i], list[i+1:]...)` at the first `i` that holds the node
unfoldable pub remove_first : String → List String → List String
remove_first node_name [] = []
remove_first node_name (node ∷ nodes) =
    if node == node_name then nodes else node ∷ remove_first node_name nodes

-- a node that failed, and the count of the list
abbrev pub add_failed : FailedNodeStatus → KataFailedNodeStatus → KataFailedNodeStatus
add_failed fn failed = record {
  failed_nodes_count = of_len (length (failed.failed_nodes_list ++ fn ∷ []));
  failed_nodes_list = failed.failed_nodes_list ++ fn ∷ [];
}

-- Install: `InProgressNodesCount++`
unfoldable pub install_started : KataInstallationStatus → KataInstallationStatus
install_started s = record s {
  in_progress = record s.in_progress {
    in_progress_nodes_count = inc s.in_progress.in_progress_nodes_count;
  };
}

-- Install failed: `InProgressNodesCount--`, then the failed node unless its name is not known
unfoldable pub install_ended : KataInstallationStatus → KataInstallationStatus
install_ended s = record s {
  in_progress = record s.in_progress {
    in_progress_nodes_count = dec s.in_progress.in_progress_nodes_count;
  };
}

unfoldable pub install_failed : FailedNodeStatus → KataInstallationStatus → KataInstallationStatus
install_failed fn s = record s { failed = add_failed fn s.failed }

-- Install: the binaries are on the node
unfoldable pub binaries_installed : String → KataInstallationStatus → KataInstallationStatus
binaries_installed node_name s = record s {
  in_progress = record s.in_progress {
    binaries_installed_nodes_list = s.in_progress.binaries_installed_nodes_list ++ node_name ∷ [];
  };
}

-- Install: the CRI-O drop-in is there too
unfoldable pub install_completed : String → KataInstallationStatus → KataInstallationStatus
unfolding remove_first
install_completed node_name s = record s {
  completed = record {
    completed_nodes_count = of_len (length (s.completed.completed_nodes_list ++ node_name ∷ []));
    completed_nodes_list = s.completed.completed_nodes_list ++ node_name ∷ [];
  };
  in_progress = record {
    in_progress_nodes_count =
        if is_positive s.in_progress.in_progress_nodes_count
        then dec s.in_progress.in_progress_nodes_count
        else s.in_progress.in_progress_nodes_count;
    binaries_installed_nodes_list =
        remove_first node_name s.in_progress.binaries_installed_nodes_list;
  };
}

-- Uninstall: `InProgressNodesCount++`, and `InProgressNodesCount--` when it failed
unfoldable pub uninstall_started : KataUnInstallationStatus → KataUnInstallationStatus
uninstall_started u = record u {
  in_progress = record u.in_progress {
    in_progress_nodes_count = inc u.in_progress.in_progress_nodes_count;
  };
}

unfoldable pub uninstall_ended : KataUnInstallationStatus → KataUnInstallationStatus
uninstall_ended u = record u {
  in_progress = record u.in_progress {
    in_progress_nodes_count = dec u.in_progress.in_progress_nodes_count;
  };
}

unfoldable pub uninstall_failed :
    FailedNodeStatus → KataUnInstallationStatus → KataUnInstallationStatus
uninstall_failed fn u = record u { failed = add_failed fn u.failed }

-- Uninstall: the binaries are off the node
unfoldable pub binaries_uninstalled : String → KataUnInstallationStatus → KataUnInstallationStatus
binaries_uninstalled node_name u = record u {
  in_progress = record u.in_progress {
    binaries_un_installed_nodes_list =
        u.in_progress.binaries_un_installed_nodes_list ++ node_name ∷ [];
  };
}
