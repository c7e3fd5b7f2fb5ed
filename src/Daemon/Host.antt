-- ===== src/Daemon/Host.antt =====
-- What the daemon calls and does not implement: the API server, the node it runs on, and the
-- libraries for images and versions; and the state of a run, over the fields of KataOpenShift.
use kata_operator.Base.{◌≡◌, ℕ, String, List, ◌∷◌}
use kata_operator.Base.Text.{Bytes}
use kata_operator.Api.Kata.{KataConfig, Labels, zero_kata_config}
use kata_operator.Api.Errors.{Error, Result, ok}
use kata_operator.Effect.{Exec, done}
use kata_operator.Daemon.Events.{
  Event, got_kata_config, updated_status, asked_hostname, checked_file, slept,
}

pub record Host (W : Type 0) : Type 0 where
  -- Get(ctx, key, obj): the answer is what `obj` holds after the call
  pub get_kata_config : String → KataConfig → W → Result KataConfig × W
  pub update_kata_config_status : KataConfig → W → Result KataConfig × W
  -- os.Hostname
  pub hostname : W → Result String × W
  -- os.Stat; a file that is not there is `not_found`
  pub stat : String → W → Result (Unit {0}) × W
  -- clientcmd.BuildConfigFromFlags and confv1client.NewForConfig, which answer with a pointer or
  -- an error
  pub build_config : W → Result (Unit {0}) × W
  pub new_version_client : W → Result (Unit {0}) × W
  -- ClusterVersions().Get, the field Status.Desired.Version of its answer
  pub cluster_version : String → W → Result String × W
  -- semver.NewVersion, with the Slice of its answer: major, minor, patch
  pub new_version : String → Result (ℕ × ℕ × ℕ)
  -- exec.Command and Run
  pub run : List String → W → Result (Unit {0}) × W
  -- syscall.Chroot and syscall.Chdir
  pub chroot : String → W → Result (Unit {0}) × W
  pub chdir : String → W → Result (Unit {0}) × W
  -- os.Getenv("KATA_PAYLOAD_IMAGE")
  pub payload_image_variable : Bytes
  -- signature.DefaultPolicy and signature.NewPolicyContext
  pub default_policy : W → Result (Unit {0}) × W
  pub new_policy_context : Result (Unit {0}) → W → Result (Unit {0}) × W
  -- alltransports.ParseImageName, the reference by its name
  pub parse_image_name : Bytes → Result Bytes
  -- copy.Image: the policy context, the source, the destination
  pub copy_image : Result (Unit {0}) → Bytes → Bytes → W → Result (Unit {0}) × W
  -- image.CreateRuntimeBundleLayout, by its first two arguments
  pub create_runtime_bundle_layout : String → String → W → Result (Unit {0}) × W
  -- ctrl.GetConfigOrDie and client.New
  pub new_client : W → Result (Unit {0}) × W
  -- fmt.Sprintf("%+v", err)
  pub error_text : Error → String
  pub sleep : ℕ → W → W

-- The documented behaviour of the API server on the resources, which other clients may change at any
-- time, and of the client. Get decodes the object held into the object that it is given: into a zero
-- object this is the object held; of another one, fields that the server leaves out may stay, but the
-- name and the resourceVersion are always sent. An update is refused if the object has changed since
-- its resourceVersion, and two states with the same resourceVersion hold the same object.
pub record Versioned {W : Type 0} (h : Host W) : Type 0 where
  pub held : W → String → KataConfig
  pub named : (w : W) (name : String) → (held w name).metadata.name ≡ name
  pub decode : KataConfig → KataConfig → KataConfig
  pub into_zero : (kc : KataConfig) → decode kc zero_kata_config ≡ kc
  pub sends_name : (kc into : KataConfig) → (decode kc into).metadata.name ≡ kc.metadata.name
  pub sends_version :
      (kc into : KataConfig)
      → (decode kc into).metadata.resource_version ≡ kc.metadata.resource_version
  pub answers :
      (name : String) (into : KataConfig) (w : W) (kc : KataConfig)
      → (h.get_kata_config name into w).0 ≡ ok kc
      → kc ≡ decode (held w name) into
  pub refuses :
      (kc answer : KataConfig) (w : W)
      → (h.update_kata_config_status kc w).0 ≡ ok answer
      → kc.metadata.resource_version ≡ (held w kc.metadata.name).metadata.resource_version
  pub identifies :
      (w w' : W) (name : String)
      → (held w name).metadata.resource_version ≡ (held w' name).metadata.resource_version
      → held w name ≡ held w' name

-- a run of the daemon, with the fields of KataOpenShift that it assigns
pub record Daemon (W : Type 0) : Type 0 where
  pub world : W
  pub kata_config_pool_labels : Labels
  pub crio_dropin_path : String
  pub payload_tag : Bytes
  pub events : List Event

module _ {W R : Type 0} where
  -- a call, which is recorded with its answer
  unfoldable pub ask :
      {A : Type 0} → (W → Result A × W) → (Result A → Event) → Exec (Daemon W) R (Result A)
  ask f note s =
      let (a, w) = f s.world in (done a, record s { world = w; events = note a ∷ s.events })

  unfoldable pub rest : (W → W) → ℕ → Exec (Daemon W) R (Unit {0})
  rest f n s = (done tt, record s { world = f s.world; events = slept n ∷ s.events })

  -- a field of KataOpenShift
  unfoldable pub field : {A : Type 0} → (Daemon W → A) → Exec (Daemon W) R A
  field f s = (done (f s), s)

  unfoldable pub set_fields : (Daemon W → Daemon W) → Exec (Daemon W) R (Unit {0})
  set_fields f s = (done tt, f s)

module _ {W : Type 0} (h : Host W) {R : Type 0} where
  abbrev pub get_kata_config : String → KataConfig → Exec (Daemon W) R (Result KataConfig)
  get_kata_config name into = ask (h.get_kata_config name into) (got_kata_config name)

  abbrev pub update_status : KataConfig → Exec (Daemon W) R (Result KataConfig)
  update_status kc = ask (h.update_kata_config_status kc) (updated_status kc)

  -- getNodeName, by getHostName
  abbrev pub get_node_name : Exec (Daemon W) R (Result String)
  get_node_name = ask h.hostname asked_hostname

  -- os.Stat
  abbrev pub stat : String → Exec (Daemon W) R (Result (Unit {0}))
  stat path = ask (h.stat path) (checked_file path)

  abbrev pub sleep : ℕ → Exec (Daemon W) R (Unit {0})
  sleep n = rest (h.sleep n) n
