-- ===== src/Controllers/OpenShift/Delete/Release.antt =====
-- The labels that a deletion takes off the nodes, on a cluster that cooperates.
use kata_operator.Base.{◌≡◌, refl, String, nat_eq, string_eq, some}
use kata_operator.Api.Kata.{KataConfig, Labels, LabelSelector}
use kata_operator.Api.Errors.{Result, ok, err}
use kata_operator.Effect.{pure}
use kata_operator.Effect.Keeps.{After, Ensures, Ensures-bind, Ensures-map, Ensures-from}
use kata_operator.Cluster.{Cluster}
use kata_operator.Controllers.Reconciler.{
  Reply, Reconciler, ClientSet, no_client_set, nil_client_set, client_set, client_set_of,
  make_if_nil, ensure_client_set, through, usable_client_set,
}
use kata_operator.Controllers.OpenShift.Delete.{
  take_labels, release_if_custom, release_node, release_uninstalled, release_nodes,
  ensure_uninstall_daemonset,
}
use kata_operator.Controllers.OpenShift.Cooperation.{
  Succeeds, Cooperates, Calm, NotNil, IsMade, Never, Calm-ask, Calm-current, Ensures-given,
  Ensures-ok, Ensures-goes_on, Ensures-for_each,
}
use kata_operator.Controllers.OpenShift.Queries.Answered.{Calm-match_labels}
use kata_operator.Controllers.OpenShift.Delete.Answers.{At, Calm-create_if_missing}

IsMade-client_set_of : (a : Result (Unit {0})) → Succeeds (λ _. Unit) a → IsMade (client_set_of a)
IsMade-client_set_of (ok _) g = tt
IsMade-client_set_of (err _) g = absurd g

NotNil-IsMade : (x : ClientSet) → IsMade x → NotNil x
NotNil-IsMade no_client_set h = absurd h
NotNil-IsMade nil_client_set h = absurd h
NotNil-IsMade client_set h = tt

module _ {W : Type 0} (c : Cluster W) (kc : KataConfig)
    (coop : Cooperates c kc.status.runtime_class) where
  -- the client set has been made
  abbrev Armed : Reconciler W → Type 0
  Armed = Calm (λ k. k ≡ kc) IsMade

  made_if_nil :
      (R : Type 0) (x : ClientSet) (s : Reconciler W)
      → s.clientset ≡ x
      → NotNil x
      → s.kata_config ≡ kc
      → let run = make_if_nil c {R = R} x s in
        After (λ a t. Succeeds (λ _. Unit) a × Armed t) Never run.0 run.1
  unfolding make_if_nil
  made_if_nil R no_client_set s e n q =
      let g = coop.client_sets s.world in
      (g, record { resource = q; set = IsMade-client_set_of (c.get_client_set s.world).0 g })
  made_if_nil R nil_client_set s e n q = absurd n
  made_if_nil R client_set s e n q = (tt, record { resource = q; set = rw e tt })

  Armed-ensure_client_set :
      {R : Type 0}
      → Ensures
          (At c kc coop)
          (ensure_client_set c {R = R})
          (λ a s. Succeeds (λ _. Unit) a × Armed s)
          Never
  unfolding ensure_client_set
  Armed-ensure_client_set = record { at = λ s h. made_if_nil _ s.clientset s refl h.set h.resource }

  Armed-usable_client_set : Ensures Armed (usable_client_set {W = W} {R = Reply}) (λ _. Armed) Never
  unfolding usable_client_set
  Armed-usable_client_set = record { at = λ s h. armed s.clientset s h.set h }
    where
      armed :
          (x : ClientSet) (s : Reconciler W)
          → IsMade x
          → Armed s
          → let run = through {R = Reply} x s in After (λ _. Armed) Never run.0 run.1
      armed no_client_set s m h = absurd m
      armed nil_client_set s m h = absurd m
      armed client_set s m h = unfold through pure in h

  Armed-take_labels :
      (labels : Labels) (name : String)
      → Ensures Armed (take_labels c labels name) (λ _. Armed) Never
  unfolding take_labels
  Armed-take_labels labels name = Ensures-bind _ _ Armed-usable_client_set λ _.
      Ensures-bind _ _ (Calm-ask _ _ (coop.nodes name)) λ answer.
        Ensures-bind _ _ (Ensures-ok {Q = λ _. Unit {0}} _ answer) λ node.
          Ensures-bind _ _ (Ensures-from (λ s h. h.1) (Calm-ask _ _ (coop.node_updates _)))
            λ updated. Ensures-map (λ a s h. h.1) (Ensures-ok {Q = λ _. Unit {0}} _ updated)

  Armed-release_node :
      (selector : LabelSelector)
      → kc.spec.kata_config_pool_selector ≡ some selector
      → (pool name : String) → Ensures Armed (release_node c pool name) (λ _. Armed) Never
  unfolding release_node release_if_custom
  Armed-release_node selector e pool name = Ensures-bind _ _ Calm-current λ now. Ensures-given λ q.
      Ensures-goes_on _ (release_if_custom c pool name) λ new.
        Ensures-bind _ _ (Calm-match_labels kc IsMade selector e) λ labels.
          Ensures-goes_on _ (take_labels c labels name) λ custom. Armed-take_labels labels name

  At-release_uninstalled :
      (selector : LabelSelector)
      → kc.spec.kata_config_pool_selector ≡ some selector
      → (pool : String) (now : KataConfig)
      → Ensures (At c kc coop) (release_uninstalled c pool now) (λ _. At c kc coop) Never
  unfolding release_uninstalled
  At-release_uninstalled selector e pool now = Ensures-bind _ _ Armed-ensure_client_set λ made.
      Ensures-bind _ _ (Ensures-ok _ made) λ _.
        Ensures-map
          (λ a s h. record { resource = h.resource; set = NotNil-IsMade s.clientset h.set })
          (Ensures-from (λ s h. h.1)
            (Ensures-for_each _ _ (λ name. Armed-release_node selector e pool name)))

  pub At-release_nodes :
      (selector : LabelSelector)
      → kc.spec.kata_config_pool_selector ≡ some selector
      → (pool : String) → Ensures (At c kc coop) (release_nodes c pool) (λ _. At c kc coop) Never
  unfolding release_nodes
  At-release_nodes selector e pool = Ensures-bind _ _ Calm-current λ now. Ensures-given λ q.
      Ensures-goes_on _ (release_uninstalled c pool now)
        λ left. At-release_uninstalled selector e pool now

  pub At-ensure_uninstall_daemonset :
      Ensures (At c kc coop) (ensure_uninstall_daemonset c) (λ _. At c kc coop) Never
  unfolding ensure_uninstall_daemonset
  At-ensure_uninstall_daemonset = Ensures-bind _ _ Calm-current λ now. Ensures-given λ q.
      Ensures-bind _ _ (Calm-ask _ _ (λ w. coop.daemon_sets _ _ w))
        λ answer. Calm-create_if_missing c kc coop answer _ (Calm-ask _ _ (λ w. coop.creates _ w))
