-- ===== src/Lib.antt =====
-- The kata operator installs the Kata Containers runtime on the nodes of an OpenShift or Kubernetes
-- cluster. A controller reconciles KataConfig resources; a daemon set that it creates runs a daemon
-- on each selected node, which installs or removes the binaries and reports to the status of the
-- resource. The two meet only there and through the machine config pools of the cluster.
--
-- Files, with the code they model:
--   Api/Kata                          api/v1/kataconfig_types.go
--   Api/Objects, Api/Errors           the Kubernetes objects that the code fills in; errors
--   Base/Text                         fmt.Sprint, strings.Replace and strings.Trim on bytes
--   Effect, Effect/Keeps, Safe, Early Go functions with state, early return and nil dereference,
--                                     and the rules to reason on them
--   Cluster, Cluster/Calls            the API server and libraries that the controllers call: a
--                                     record of parameters over a world `W`, and the trace of calls
--   Controllers/Common                controllers/common.go
--   Controllers/Reconciler            the reconcilers' fields and their calls through the client
--   Controllers/OpenShift/...         controllers/openshift_controller.go
--     Dropin, Objects                 generateDropinConfig, processDaemonsetForCR, newMCPforCR, and
--                                     the objects of newMCForCR and setRuntimeClass
--     Queries                         listKataPods, kataOcExists, workerOrMaster, newMCForCR,
--                                     addFinalizer, deleteKataDaemonset
--     Oldest                          isOldestCR
--     Install, Runtime, Monitor       processKataConfigInstallRequest, setRuntimeClass,
--                                     monitorKataConfigInstallation
--     Delete                          processKataConfigDeleteRequest
--     Reconcile                       Reconcile
--   Controllers/Kubernetes/...        controllers/kubernetes_controller.go
--     Objects, Runtime, Monitor       processDaemonset, setRuntimeClass,
--                                     monitorKataConfigInstallation
--     Install, Watch                  Reconcile and its two handlers; the requests of
--                                     SetupWithManager
--   Daemon/Host, Daemon/Events        what the daemon calls, and the trace of it
--   Daemon/Actions                    updateKataConfigStatus, getNodeName
--                                     (images/daemon/pkg/daemon/kata_actions.go)
--   Daemon/Status, Install, Uninstall the status changes, Install and Uninstall
--                                     (images/daemon/pkg/daemon/kata_openshift.go)
--   Daemon/Version, Daemon/Rpm        getClusterVersion; installRPMs, uninstallRPMs, cleanupHost
--                                     and doCmd of the same file
--   Daemon/Command                    main of images/daemon/cmd/daemon/main.go
--   Daemon/Trace                      predicates on the events of a run
--   Daemon/Fleet                      the daemons of all nodes at work on one resource, as a step
--                                     relation on the installation status
--   Daemon/Removal                    the daemons that uninstall, and the last loop of the deletion,
--                                     as a step relation on the uninstallation status
--   Manager                           main of main.go, IsOpenShift of controllers/utils.go
--   Tests/...                         concrete clusters and daemon hosts, and the theorems on them
-- A child module that is named for what it proves (Safety, Refusal, Verdict, Search, Nodes, Tally,
-- Safe, Early, Retries, Freshness, Recovery, Reports, Memory, Atomicity, Records, Announced, Order,
-- RoundTrip, Operations, Checks, Counting, Lists, Phases, Summary, Reachable, Readiness,
-- Completion, Choice, Cooperation, Traced, Placement, Waiting, Making, Marks, Named, Alone,
-- Answered, Removal, Answers, Release, Sync, Liveness) has the lemmas on the definitions of its
-- parent.
--
-- The controller and the daemons meet in the status of the resource. Daemon/Actions/Atomicity is
-- about a status update as one change of what the server holds. It is one where no update was refused
-- before; after a refusal Get decodes into the object of the refused update, whose fields may stay.
-- Daemon/Fleet takes changes of the status as its steps, and relates the status, and the tests of
-- Reconcile on it, to the phases of the nodes. A daemon may be started again at any time between its
-- updates. Daemon/Removal does the same for the uninstallation, where the controller changes the
-- status too.
--
-- A handler is an `Exec`: it takes the state and returns an outcome (it went on, it returned, or it
-- read a nil pointer) with the state at that moment. The state has the fields of the Go struct, the
-- world outside, and a list of the calls made with their answers, newest first, which the code does
-- not read. Each call of the client is a parameter and may answer with anything. A Go `int` is its
-- 64-bit pattern (Base/GoInt), a nil pointer is `none`, a map is an association list.
-- Two functions have a bound: the retry of updateKataConfigStatus, whose fuel is the number of
-- attempts of the source, 5; and the digits of a decimal number, 20, which is enough for every int64.
-- All other loops range over a list.
--
-- Not modelled: the logging; the registration of schemes; the parsing of flags; generated code; the
-- scaffold controllers/kataconfig_controller.go, which has no logic and is not set up by main.
-- Watches and the queue of the manager are outside: a request is one run of `reconcile`.
mod Base
pub mod Api
pub mod Effect
pub mod Cluster
pub mod Controllers
pub mod Daemon
pub mod Manager
mod Tests
