-- ===== src/Manager.antt =====
-- main of main.go, after flag.Parse, and IsOpenShift of controllers/utils.go: which controller the
-- process runs. The libraries for flags, the manager and the discovery are parameters.
pub mod Choice
use kata_operator.Base.{ℕ, String, Bool, true, false, List, [], ◌∷◌, ◌==◌, string_eq, if◌then◌else◌}
use kata_operator.Api.Errors.{Error, Result, ok, err}
use kata_operator.Effect.{Exec, done, ◌>>=◌, ◌>>◌, pure, return, or_return, called, when}

pub data Controller : Type 0 where
  openshift_controller kubernetes_controller : Controller

-- what the process asks, with its answer
pub data Event : Type 0 where
  made_manager : String → Bool → Result (Unit {0}) → Event
  got_config : Result (Unit {0}) → Event
  made_discovery_client : Result (Unit {0}) → Event
  listed_groups : Result (List String) → Event
  set_up : Controller → Result (Unit {0}) → Event
  ran_manager : Result (Unit {0}) → Event

pub record Platform (W : Type 0) : Type 0 where
  -- ctrl.NewManager, by the address of the metrics and the leader election
  pub new_manager : String → Bool → W → Result (Unit {0}) × W
  -- config.GetConfig and discovery.NewDiscoveryClientForConfig
  pub get_config : W → Result (Unit {0}) × W
  pub new_discovery_client : W → Result (Unit {0}) × W
  -- ServerGroupsAndResources, the names of its groups
  pub server_groups : W → Result (List String) × W
  -- SetupWithManager of the reconciler
  pub setup_with_manager : Controller → W → Result (Unit {0}) × W
  -- mgr.Start, which runs until a signal
  pub start : W → Result (Unit {0}) × W

pub record Process (W : Type 0) : Type 0 where
  pub world : W
  pub events : List Event

-- os.Exit, or the end of main
pub data Ending : Type 0 where
  exited : ℕ → Ending
  returned : Ending

unfoldable pub ask :
    {W R A : Type 0} → (W → Result A × W) → (Result A → Event) → Exec (Process W) R (Result A)
ask f note s = let (a, w) = f s.world in (done a, record { world = w; events = note a ∷ s.events })

-- the loop of IsOpenShift over the groups
unfoldable pub has_config_group : List String → Bool
has_config_group [] = false
has_config_group (group ∷ groups) =
    if group == "config.openshift.io" then true else has_config_group groups

abbrev pub controller_for : Bool → Controller
controller_for true = openshift_controller
controller_for false = kubernetes_controller

module _ {W : Type 0} (p : Platform W) where
  -- IsOpenShift
  unfoldable pub is_openshift : Exec (Process W) (Result Bool) (Result Bool)
  unfolding has_config_group
  is_openshift = do
    config ← ask p.get_config got_config
    or_return (λ e. err e) config
    client ← ask p.new_discovery_client made_discovery_client
    or_return (λ e. err e) client
    listed ← ask p.server_groups listed_groups
    groups ← or_return (λ e. err e) listed
    when (has_config_group groups) (return (ok true))
    pure (ok false)

  unfoldable pub main : String → Bool → Exec (Process W) Ending Ending
  main metrics_addr enable_leader_election = do
    manager ←
        ask (p.new_manager metrics_addr enable_leader_election)
          (made_manager metrics_addr enable_leader_election)
    or_return (λ e. exited 1) manager
    found ← called is_openshift
    openshift ← or_return (λ e. exited 1) found
    ready ←
        ask (p.setup_with_manager (controller_for openshift)) (set_up (controller_for openshift))
    or_return (λ e. exited 1) ready
    ran ← ask p.start ran_manager
    or_return (λ e. exited 1) ran
    pure returned
