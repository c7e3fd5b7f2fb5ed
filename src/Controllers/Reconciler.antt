-- ===== src/Controllers/Reconciler.antt =====
-- The state of a reconciler (KataConfigOpenShiftReconciler, KataConfigKubernetesReconciler), its
-- answers to the manager, and its calls through the client.
pub mod Create
pub mod Keeps
pub mod Safe
pub mod Traced
use kata_operator.Base.{ℕ, String, Bool, true, false, Option, none, some, List, ◌∷◌}
use kata_operator.Api.Kata.{KataConfig, Labels}
use kata_operator.Api.Objects.{DaemonSet, MachineConfigPool, MachineConfig, RuntimeClass, Pod, Node}
use kata_operator.Api.Errors.{Error, Result, ok, err}
use kata_operator.Effect.{◌>>=◌, done, Exec, deref, abort, pure}
use kata_operator.Cluster.{Cluster}
use kata_operator.Cluster.Calls.{
  Call, got_kata_config, listed_kata_configs, updated_kata_config, updated_kata_config_status,
  got_daemon_set, created_daemon_set, deleted_daemon_set, got_machine_config_pool,
  created_machine_config_pool, deleted_machine_config_pool, got_machine_config,
  created_machine_config, deleted_machine_config, got_runtime_class, created_runtime_class,
  listed_pods, listed_nodes, got_node, updated_node, got_client_set, slept,
}

-- ctrl.Result, its delay in seconds
pub record CtrlResult : Type 0 where
  pub requeue : Bool
  pub requeue_after : ℕ

-- what Reconcile returns: (ctrl.Result, error)
pub record Reply : Type 0 where
  pub result : CtrlResult
  pub error : Option Error

abbrev pub reply_done : Reply
reply_done = record { result = record { requeue = false; requeue_after = 0 }; error = none }

-- `return ctrl.Result{}, err`
abbrev pub reply_error : Error → Reply
reply_error e = record { result = record { requeue = false; requeue_after = 0 }; error = some e }

-- `return ctrl.Result{Requeue: true}, err`
abbrev pub reply_requeue : Option Error → Reply
reply_requeue e = record { result = record { requeue = true; requeue_after = 0 }; error = e }

-- `return ctrl.Result{Requeue: true, RequeueAfter: n * time.Second}, err`
abbrev pub reply_requeue_after : ℕ → Option Error → Reply
reply_requeue_after n e = record {
  result = record { requeue = true; requeue_after = n };
  error = e;
}

-- r.clientset, an interface. After a failed getClientSet it holds a nil pointer, and is itself not
-- nil: a call through it panics.
pub data ClientSet : Type 0 where
  no_client_set nil_client_set client_set : ClientSet

pub record Reconciler (W : Type 0) : Type 0 where
  pub world : W
  pub kata_config : KataConfig
  pub clientset : ClientSet
  pub calls : List Call

module _ {W R : Type 0} where
  unfoldable pub current : Exec (Reconciler W) R KataConfig
  current s = (done s.kata_config, s)

  -- assignment through the pointer r.kataConfig
  unfoldable pub assign : (KataConfig → KataConfig) → Exec (Reconciler W) R (Unit {0})
  assign f s = (done tt, record s { kata_config = f s.kata_config })

  -- the labels that the pool selector matches, through its pointer
  unfoldable pub match_labels : Exec (Reconciler W) R Labels
  unfolding current
  match_labels = do
    kc ← current
    selector ← deref kc.spec.kata_config_pool_selector
    pure selector.match_labels

  -- r.clientset.CoreV1()
  unfoldable pub through : ClientSet → Exec (Reconciler W) R (Unit {0})
  through client_set = pure tt
  through _ = abort

  unfoldable pub usable_client_set : Exec (Reconciler W) R (Unit {0})
  unfolding through
  usable_client_set s = through s.clientset s

  -- a call, which is recorded with its answer
  unfoldable pub ask :
      {A : Type 0} → (W → Result A × W) → (Result A → Call) → Exec (Reconciler W) R (Result A)
  ask f note s =
      let (a, w) = f s.world in (done a, record s { world = w; calls = note a ∷ s.calls })

abbrev pub client_set_of : Result (Unit {0}) → ClientSet
client_set_of (ok _) = client_set
client_set_of (err _) = nil_client_set

-- The answer of the server to an update goes into r.kataConfig.
abbrev pub stored : Result KataConfig → KataConfig → KataConfig
stored (ok kc) old = kc
stored (err e) old = old

abbrev pub outcome_of : Result KataConfig → Result (Unit {0})
outcome_of (ok kc) = ok tt
outcome_of (err e) = err e

module _ {W : Type 0} (c : Cluster W) {R : Type 0} where
  -- r.Client.Get(ctx, key, r.kataConfig)
  unfoldable pub get_kata_config : String → Exec (Reconciler W) R (Result (Unit {0}))
  get_kata_config name s =
      let (a, w) = c.get_kata_config name s.kata_config s.world in
      (
        done (outcome_of a),
        record s {
          world = w;
          kata_config = stored a s.kata_config;
          calls = got_kata_config name a ∷ s.calls;
        },
      )

  -- r.Client.Update(ctx, r.kataConfig)
  unfoldable pub update_kata_config : Exec (Reconciler W) R (Result (Unit {0}))
  update_kata_config s =
      let (a, w) = c.update_kata_config s.kata_config s.world in
      (
        done (outcome_of a),
        record s {
          world = w;
          kata_config = stored a s.kata_config;
          calls = updated_kata_config s.kata_config a ∷ s.calls;
        },
      )

  -- r.Client.Status().Update(ctx, r.kataConfig)
  unfoldable pub update_status : Exec (Reconciler W) R (Result (Unit {0}))
  update_status s =
      let (a, w) = c.update_kata_config_status s.kata_config s.world in
      (
        done (outcome_of a),
        record s {
          world = w;
          kata_config = stored a s.kata_config;
          calls = updated_kata_config_status s.kata_config a ∷ s.calls;
        },
      )

  abbrev pub get_daemon_set : String → String → Exec (Reconciler W) R (Result DaemonSet)
  get_daemon_set name namespace =
      ask (c.get_daemon_set name namespace) (got_daemon_set name namespace)

  abbrev pub create_daemon_set : DaemonSet → Exec (Reconciler W) R (Result (Unit {0}))
  create_daemon_set ds = ask (c.create_daemon_set ds) (created_daemon_set ds)

  abbrev pub delete_daemon_set : DaemonSet → Exec (Reconciler W) R (Result (Unit {0}))
  delete_daemon_set ds = ask (c.delete_daemon_set ds) (deleted_daemon_set ds)

  abbrev pub get_pool : String → Exec (Reconciler W) R (Result MachineConfigPool)
  get_pool name = ask (c.get_machine_config_pool name) (got_machine_config_pool name)

  abbrev pub create_pool : MachineConfigPool → Exec (Reconciler W) R (Result (Unit {0}))
  create_pool mcp = ask (c.create_machine_config_pool mcp) (created_machine_config_pool mcp)

  abbrev pub delete_pool : MachineConfigPool → Exec (Reconciler W) R (Result (Unit {0}))
  delete_pool mcp = ask (c.delete_machine_config_pool mcp) (deleted_machine_config_pool mcp)

  abbrev pub get_machine_config : String → Exec (Reconciler W) R (Result MachineConfig)
  get_machine_config name = ask (c.get_machine_config name) (got_machine_config name)

  abbrev pub create_machine_config : MachineConfig → Exec (Reconciler W) R (Result (Unit {0}))
  create_machine_config mc = ask (c.create_machine_config mc) (created_machine_config mc)

  abbrev pub delete_machine_config : MachineConfig → Exec (Reconciler W) R (Result (Unit {0}))
  delete_machine_config mc = ask (c.delete_machine_config mc) (deleted_machine_config mc)

  abbrev pub get_runtime_class : String → Exec (Reconciler W) R (Result RuntimeClass)
  get_runtime_class name = ask (c.get_runtime_class name) (got_runtime_class name)

  abbrev pub create_runtime_class : RuntimeClass → Exec (Reconciler W) R (Result (Unit {0}))
  create_runtime_class rc = ask (c.create_runtime_class rc) (created_runtime_class rc)

  abbrev pub list_pods : Exec (Reconciler W) R (Result (List Pod))
  list_pods = ask c.list_pods listed_pods

  abbrev pub list_nodes : Labels → Exec (Reconciler W) R (Result (List Node))
  list_nodes labels = ask (c.list_nodes labels) (listed_nodes labels)

  abbrev pub list_kata_configs : Exec (Reconciler W) R (Result (List KataConfig))
  list_kata_configs = ask c.list_kata_configs listed_kata_configs

  abbrev pub get_node : String → Exec (Reconciler W) R (Result Node)
  get_node name = ask (c.get_node name) (got_node name)

  abbrev pub update_node : Node → Exec (Reconciler W) R (Result (Unit {0}))
  update_node node = ask (c.update_node node) (updated_node node)

  -- time.Sleep
  unfoldable pub sleep : ℕ → Exec (Reconciler W) R (Unit {0})
  sleep n s = (done tt, record s { world = c.sleep n s.world; calls = slept n ∷ s.calls })

  -- `if r.clientset == nil { r.clientset, err = getClientSet() }`
  unfoldable pub make_if_nil : ClientSet → Exec (Reconciler W) R (Result (Unit {0}))
  make_if_nil no_client_set s =
      let (a, w) = c.get_client_set s.world in
      (
        done a,
        record s { world = w; clientset = client_set_of a; calls = got_client_set a ∷ s.calls },
      )
  make_if_nil _ s = (done (ok tt), s)

  unfoldable pub ensure_client_set : Exec (Reconciler W) R (Result (Unit {0}))
  unfolding make_if_nil
  ensure_client_set s = make_if_nil s.clientset s
