-- ===== src/Controllers/Kubernetes/Monitor/Marks.antt =====
-- The nodes that the loop of monitorKataConfigInstallation finds, by their labels.
use mathlib.Core.Path.{subst}
use kata_operator.Base.{
  All, ◌≡◌, refl, sym, ap, ◌∙◌, String, Bool, true, false, not, ◌&&◌, ◌||◌, List, [], ◌∷◌, ◌==◌,
  nat_eq, string_eq, if◌then◌else◌, arith, eq_iff,
}
use kata_operator.Api.Kata.{Labels, KataConfig, KataConfigStatus, over_status, over_installation}
use kata_operator.Api.Objects.{Node}
use kata_operator.Api.Errors.{Result, ok, err}
use kata_operator.Effect.{Outcome, ◌>>=◌, ◌>>◌, pure, for_each}
use kata_operator.Effect.Keeps.{
  After, Ensures, Ensures-bind, Ensures-map, Ensures-from, Ensures-when, Ensures-or_return,
  Ensures-return, Ensures-pure,
}
use kata_operator.Cluster.{Cluster, EchoesStatus}
use kata_operator.Controllers.Common.{contains}
use kata_operator.Controllers.Common.Names.{contains-append, contains-one}
use kata_operator.Controllers.Reconciler.{
  Reply, reply_done, Reconciler, current, assign, update_status, stored, match_labels, ask,
}
use kata_operator.Cluster.Calls.{listed_nodes}
use kata_operator.Controllers.Kubernetes.Monitor.{
  is_runtime_label, all_installed, node_installed, default_selector, selected, read_label,
  read_node, monitor_kata_config_installation,
}

-- does the node carry the label that the installation puts on it?
abbrev pub is_marked : List (String × String) → Bool
is_marked [] = false
is_marked ((k, v) ∷ labels) =
    ((k == "katacontainers.io/kata-runtime") && (v == "true")) || is_marked labels

-- the names of the nodes that do
abbrev pub marked_names : List Node → List String
marked_names [] = []
marked_names (node ∷ nodes) =
    if is_marked node.labels then node.name ∷ marked_names nodes else marked_names nodes

abbrev pub with_binaries : KataConfig → List String
with_binaries kc = kc.status.installation_status.in_progress.binaries_installed_nodes_list

-- The nodes with binaries, as the status lists them, are those with the test.
pub record Shows {W : Type 0} (test : String → Bool) (s : Reconciler W) : Type 0 where
  pub at : (n : String) → contains (with_binaries s.kata_config) n ≡ test n

abbrev or_name : Bool → String → (String → Bool) → String → Bool
or_name b name test n = (b && (name == n)) || test n

-- all of them pass the test
abbrev pub Within : {W : Type 0} → (String → Bool) → Reconciler W → Type 0
Within test s = All (λ n. test n ≡ true) (with_binaries s.kata_config)

-- a test that implies another one
abbrev Implies : (String → Bool) → (String → Bool) → Type 0
Implies test other = (n : String) → test n ≡ true → other n ≡ true

Shows-same :
    {W : Type 0} {test test' : String → Bool} {s : Reconciler W}
    → ((n : String) → test n ≡ test' n)
    → Shows test s
    → Shows test' s
Shows-same same h = record { at = λ n. h.at n ∙ same n }

All-contains :
    {P : String → Type 0} (xs : List String)
    → ((n : String) → contains xs n ≡ true → P n)
    → All P xs
unfolding contains
All-contains [] h = tt
All-contains (x ∷ xs) h =
    (h x (ground (arith, eq_iff x x)), All-contains xs (λ n e. h n (ground (arith, e))))

Shows-Within :
    {W : Type 0} {test found : String → Bool} {s : Reconciler W}
    → Implies test found
    → Shows test s
    → Within found s
Shows-Within sub h = All-contains _ (λ n e. sub n (sym (h.at n) ∙ e))

module _ {W : Type 0} (c : Cluster W) (echoes : EchoesStatus c) (found : String → Bool) where
  stored-Shows :
      (kc : KataConfig) (w : W) (a : Result KataConfig)
      → (c.update_kata_config_status kc w).0 ≡ a
      → with_binaries (stored a kc) ≡ with_binaries kc
  stored-Shows kc w (err e) q = refl
  stored-Shows kc w (ok answer) q =
      ap
        (λ (ks : KataConfigStatus).
          ks.installation_status.in_progress.binaries_installed_nodes_list)
        (echoes.echo kc w answer q)

  Shows-update_status :
      {R : Type 0} (test : String → Bool)
      → Ensures (Shows test) (update_status c {R = R}) (λ _. Shows test) (Within found)
  unfolding update_status
  Shows-update_status test = record {
    at = λ s h. record {
      at = λ n. ap (λ l. contains l n) (stored-Shows s.kata_config s.world _ refl) ∙ h.at n;
    };
  }

  Shows-assign :
      {R : Type 0} (name : String) (test : String → Bool)
      → Ensures {S = Reconciler W}
          (Shows test)
          (assign {R = R} (over_status (over_installation (node_installed name))))
          (λ _. Shows (or_name true name test))
          (Within found)
  unfolding assign node_installed
  Shows-assign name test = record {
    at = λ s h. record {
      at = λ n. ground (
        arith,
        contains-append (with_binaries s.kata_config) (name ∷ []) n,
        contains-one name n,
        h.at n,
      );
    };
  }

  Shows-read_label :
      (name : String) (label : String × String) (test : String → Bool)
      → Implies (or_name (is_runtime_label label) name test) found
      → Ensures
          (Shows test)
          (read_label c name label)
          (λ _. Shows (or_name (is_runtime_label label) name test))
          (Within found)
  unfolding read_label
  Shows-read_label name label test sub =
      Ensures-when (is_runtime_label label) _
        (λ e. Ensures-bind _ _ (Shows-assign name test) λ _.
          Ensures-bind _ _ (Shows-update_status _) λ saved.
            Ensures-or_return _ saved
              (λ a t q. Shows-same (λ n. ap (λ b. or_name b name test n) (sym e)))
              (λ t h. Shows-Within (λ n p. sub n (ap (λ b. or_name b name test n) e ∙ p)) h))
        (λ e t. Shows-same (λ n. ap (λ b. or_name b name test n) (sym e)))

  Shows-read_labels :
      (name : String) (labels : List (String × String)) (test : String → Bool)
      → Implies (or_name (is_marked labels) name test) found
      → Ensures
          (Shows test)
          (for_each labels (read_label c name))
          (λ _. Shows (or_name (is_marked labels) name test))
          (Within found)
  unfolding for_each pure
  Shows-read_labels name [] test sub = record { at = λ s h. h }
  Shows-read_labels name ((k, v) ∷ labels) test sub =
      Ensures-bind _ _ (Shows-read_label name (k, v) test (λ n p. sub n (ground (arith, p)))) λ _.
        Ensures-map (λ _ t. Shows-same (λ n. ground arith))
          (Shows-read_labels name labels _ (λ n p. sub n (ground (arith, p))))

  Shows-read_node :
      (node : Node) (test : String → Bool)
      → Implies (or_name (is_marked node.labels) node.name test) found
      → Ensures
          (Shows test)
          (read_node c node)
          (λ _. Shows (or_name (is_marked node.labels) node.name test))
          (Within found)
  unfolding read_node
  Shows-read_node node test sub = Ensures-bind _ _ (held test) λ kc.
      Ensures-bind {Q = λ _. Shows (or_name (is_marked node.labels) node.name test)} _ _
        (Ensures-when (not (contains (with_binaries kc) node.name)) _
          (λ _. Ensures-from (λ t h. h.1) (Shows-read_labels node.name node.labels test sub))
          (λ out t h. Shows-same (λ n. ground (arith, out, h.0 node.name, eq_iff node.name n)) h.1))
        λ _. Ensures-bind _ _ (held _) λ kc'.
          Ensures-when
            (kc'.status.installation_status.in_progress.in_progress_nodes_count
              == kc'.status.total_nodes_count)
            _ (λ _. Ensures-return _ (λ t h. Shows-Within sub h.1)) (λ _ t h. h.1)
    where
      held :
          {R : Type 0} (test : String → Bool)
          → Ensures {S = Reconciler W}
              (Shows test)
              (current {R = R})
              (λ kc t. ((n : String) → contains (with_binaries kc) n ≡ test n) × Shows test t)
              (Within found)
      held test = record { at = λ s h. unfold current in (h.at, h) }

  Shows-read_nodes :
      (nodes : List Node) (test : String → Bool)
      → Implies (λ n. contains (marked_names nodes) n || test n) found
      → Ensures
          (Shows test)
          (for_each nodes (read_node c))
          (λ _. Shows (λ n. contains (marked_names nodes) n || test n))
          (Within found)
  unfolding for_each pure contains
  Shows-read_nodes [] test sub = record { at = λ s h. h }
  Shows-read_nodes (node ∷ nodes) test sub =
      Ensures-bind _ _ (Shows-read_node node test (λ n p. sub n (ground (arith, p)))) λ _.
        Ensures-map (λ _ t. Shows-same (λ n. ground arith))
          (Shows-read_nodes nodes _ (λ n p. sub n (ground (arith, p))))

-- the labels of the nodes to ask for
abbrev pub wanted : KataConfig → Labels
wanted kc = (selected kc.spec.kata_config_pool_selector).match_labels

module _ {W : Type 0} (c : Cluster W) (s : Reconciler W) where
  -- the state once the nodes are listed
  abbrev listing : Reconciler W
  listing =
      let (a, w) = c.list_nodes (wanted s.kata_config) s.world in
      record s {
        world = w;
        kata_config = default_selector s.kata_config;
        calls = listed_nodes (wanted s.kata_config) a ∷ s.calls;
      }

  starts :
      (nodes : List Node)
      → all_installed s.kata_config.status ≡ false
      → (c.list_nodes (wanted s.kata_config) s.world).0 ≡ ok nodes
      → monitor_kata_config_installation c s
        ≡ (for_each nodes (read_node c) >> pure reply_done) listing
  unfolding monitor_kata_config_installation ◌>>=◌ current assign match_labels ask
  starts nodes unfinished listed = rw (unfinished, listed) refl

-- the nodes that the search is to find: those known before, and those listed with the label
abbrev pub to_find : List Node → KataConfig → String → Bool
to_find nodes kc n = contains (marked_names nodes) n || contains (with_binaries kc) n

-- While nodes are still to be installed, monitorKataConfigInstallation finds them by their labels.
-- Where it goes on to its end, the status lists as those with binaries exactly the nodes that it
-- listed before and those of the listed nodes that carry the label of the installation. Where it
-- returns early, after an error of an update or because the number is reached, it lists no others. An
-- accepted update of the status is supposed to be answered by the status that was sent.
pub monitor-finds :
    {W : Type 0} (c : Cluster W) (s : Reconciler W) (nodes : List Node)
    → EchoesStatus c
    → all_installed s.kata_config.status ≡ false
    → (c.list_nodes (wanted s.kata_config) s.world).0 ≡ ok nodes
    → let run = monitor_kata_config_installation c s in
      After
        (λ _. Shows (to_find nodes s.kata_config))
        (Within (to_find nodes s.kata_config))
        run.0
        run.1
monitor-finds {W} c s nodes echoes unfinished listed =
    subst
      (λ (r : Outcome Reply Reply × Reconciler W). After (λ _. Shows found) (Within found) r.0 r.1)
      (sym (starts c s nodes unfinished listed))
      (looped.at (listing c s) (record { at = λ n. refl }))
  where
    found : String → Bool
    found = to_find nodes s.kata_config

    looped :
        Ensures {S = Reconciler W}
          (Shows (contains (with_binaries s.kata_config)))
          (for_each nodes (read_node c) >> pure reply_done)
          (λ _. Shows found)
          (Within found)
    looped =
        Ensures-bind _ _ (Shows-read_nodes c echoes found nodes _ (λ n p. p))
          λ _. Ensures-pure reply_done
