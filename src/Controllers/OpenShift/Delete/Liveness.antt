-- ===== src/Controllers/OpenShift/Delete/Liveness.antt =====
-- The deletion on a cluster that cooperates.
use kata_operator.Base.{
  ◌∷◌, ◌≡◌, refl, ap, ◌∙◌, ◌<◌, true, false, some, String, List, ltb, length, arith, nat_eq,
  string_eq,
}
use kata_operator.Api.Kata.{KataConfig, LabelSelector}
use kata_operator.Api.Errors.{Result, ok, err}
use kata_operator.Effect.{done}
use kata_operator.Effect.Keeps.{Ensures, Ensures-bind, Ensures-map, Ensures-when}
use kata_operator.Cluster.{Cluster}
use kata_operator.Cluster.Calls.{Call, updated_kata_config}
use kata_operator.Controllers.Common.{uninstall_operation, contains, kata_config_finalizer}
use kata_operator.Controllers.Reconciler.{
  Reply, reply_done, Reconciler, assign, update_status, update_kata_config, outcome_of, stored,
}
use kata_operator.Controllers.OpenShift.Queries.Removal.{Ensures-delete_kata_daemonset}
use kata_operator.Controllers.OpenShift.Delete.{
  complete_uninstalled, uninstalled_nodes, drop_finalizer, finalize,
  process_kata_config_delete_request,
}
use kata_operator.Controllers.OpenShift.Cooperation.{
  Succeeds, Cooperates, NotNil, Never, Calm-current, Ensures-given, Ensures-ok, Ensures-gives,
  finished,
}
use kata_operator.Controllers.OpenShift.Queries.Answered.{Calm-worker_or_master}
use kata_operator.Controllers.OpenShift.Delete.Answers.{At, Calm-list_kata_pods}
use kata_operator.Controllers.OpenShift.Delete.Release.{
  At-release_nodes, At-ensure_uninstall_daemonset,
}
use kata_operator.Controllers.OpenShift.Delete.Sync.{At-sync_parent_pool}

-- The last call is an update that the server accepted, of a resource with these finalizers.
abbrev pub Released : List String → List Call → Type 0
Released finalizers calls =
    (sent : KataConfig) × (answer : KataConfig) × (older : List Call) × (calls
      ≡ updated_kata_config sent (ok answer) ∷ older)
    × (sent.metadata.finalizers ≡ finalizers)

module _ {W : Type 0} (c : Cluster W) (kc : KataConfig)
    (coop : Cooperates c kc.status.runtime_class) where
  -- the resource holds these finalizers
  abbrev Holds : List String → Reconciler W → Type 0
  Holds l s = s.kata_config.metadata.finalizers ≡ l

  Holds-complete :
      Ensures
        (At c kc coop)
        (assign {R = Reply} complete_uninstalled)
        (λ _. Holds kc.metadata.finalizers)
        Never
  unfolding assign
  Holds-complete = record { at = λ s h. ap (λ (k : KataConfig). k.metadata.finalizers) h.resource }

  -- an update whose answer has the finalizers that were sent
  stored_finalizers :
      (sent : KataConfig) (a : Result KataConfig) (l : List String)
      → Succeeds (λ answer. answer.metadata.finalizers ≡ sent.metadata.finalizers) a
      → sent.metadata.finalizers ≡ l
      → Succeeds (λ _. Unit) (outcome_of a) × ((stored a sent).metadata.finalizers ≡ l)
  stored_finalizers sent (ok answer) l g e = (tt, g ∙ e)
  stored_finalizers sent (err x) l g e = absurd g

  Holds-update_status :
      (l : List String)
      → Ensures
          (Holds l)
          (update_status c {R = Reply})
          (λ r s. Succeeds (λ _. Unit) r × Holds l s)
          Never
  unfolding update_status
  Holds-update_status l = record {
    at = λ s h. stored_finalizers s.kata_config _ l (coop.statuses s.kata_config s.world) h;
  }

  -- what the reconciler holds, and what it has sent
  abbrev Drops : List String → Reconciler W → Type 0
  Drops l s = Holds l s × Released l s.calls

  sent_finalizers :
      (sent : KataConfig) (a : Result KataConfig) (l : List String) (calls : List Call)
      → Succeeds (λ answer. answer.metadata.finalizers ≡ sent.metadata.finalizers) a
      → sent.metadata.finalizers ≡ l
      → Succeeds (λ _. Unit) (outcome_of a)
        × ((stored a sent).metadata.finalizers ≡ l)
        × Released l (updated_kata_config sent a ∷ calls)
  sent_finalizers sent (ok answer) l calls g e = (tt, g ∙ e, (sent, answer, calls, refl, e))
  sent_finalizers sent (err x) l calls g e = absurd g

  Drops-update :
      (l : List String)
      → Ensures
          (Holds l)
          (update_kata_config c {R = Reply})
          (λ r s. Succeeds (λ _. Unit) r × Drops l s)
          Never
  unfolding update_kata_config
  Drops-update l = record {
    at = λ s h.
        let sent =
          sent_finalizers s.kata_config _ l s.calls (coop.updates s.kata_config s.world) h in
        (sent.0, (sent.1, sent.2));
  }

  Drops-drop_finalizer :
      (l : List String)
      → Ensures
          (Holds l)
          (drop_finalizer c)
          (λ _. Drops (c.remove_finalizer l kata_config_finalizer))
          Never
  unfolding drop_finalizer assign
  Drops-drop_finalizer l =
      Ensures-bind _ _
        (record {
          at = λ s h. ap (λ (x : List String). c.remove_finalizer x kata_config_finalizer) h;
        })
        λ _.
          Ensures-bind _ _ (Drops-update _)
            λ updated. Ensures-map (λ a s h. h.1) (Ensures-ok {Q = λ _. Unit {0}} _ updated)

  Holds-finalize :
      (selector : LabelSelector)
      → kc.spec.kata_config_pool_selector ≡ some selector
      → ltb 0 (length (uninstalled_nodes kc)) ≡ true
      → (pool : String)
      → Ensures
          (At c kc coop)
          (finalize c pool)
          (λ _. Drops (c.remove_finalizer kc.metadata.finalizers kata_config_finalizer))
          Never
  unfolding finalize
  Holds-finalize selector e some_node pool =
      Ensures-bind _ _ (Calm-list_kata_pods c kc coop) λ pods.
        Ensures-bind _ _ (Ensures-ok {Q = λ _. Unit {0}} _ pods) λ _. Ensures-given λ _.
          Ensures-bind _ _ (At-ensure_uninstall_daemonset c kc coop) λ _.
            Ensures-bind _ _ (At-release_nodes c kc coop selector e pool) λ _.
              Ensures-bind _ _ (At-sync_parent_pool c kc coop selector e some_node pool) λ _.
                Ensures-bind _ _ Holds-complete λ _.
                  Ensures-bind _ _ (Holds-update_status _) λ saved.
                    Ensures-bind _ _ (Ensures-ok {Q = λ _. Unit {0}} _ saved) λ _.
                      Ensures-given λ _.
                        Ensures-bind _ _
                          (Ensures-delete_kata_daemonset c uninstall_operation coop.daemon_sets
                            coop.deletes (λ k. k.metadata.finalizers ≡ _))
                          λ deleted.
                            Ensures-bind _ _ (Ensures-ok {Q = λ _. Unit {0}} _ deleted)
                              λ _. Ensures-given λ _. Drops-drop_finalizer _

  Holds-process :
      (selector : LabelSelector)
      → kc.spec.kata_config_pool_selector ≡ some selector
      → ltb 0 (length (uninstalled_nodes kc)) ≡ true
      → contains kc.metadata.finalizers kata_config_finalizer ≡ true
      → Ensures
          (At c kc coop)
          (process_kata_config_delete_request c)
          (λ reply s.
            (reply ≡ reply_done)
            × Drops (c.remove_finalizer kc.metadata.finalizers kata_config_finalizer) s)
          Never
  unfolding process_kata_config_delete_request
  Holds-process selector e some_node guarded =
      Ensures-bind _ _ (Calm-worker_or_master c kc NotNil coop.pools) λ pool.
        Ensures-bind _ _ (Ensures-ok {Q = λ _. Unit {0}} _ pool) λ machine_pool. Ensures-given λ _.
          Ensures-bind _ _ Calm-current λ now. Ensures-given λ q.
            Ensures-bind _ _
              (Ensures-when _ (finalize c machine_pool)
                (λ _. Holds-finalize selector e some_node machine_pool)
                (λ out s h. absurd (unguarded now q out)))
              λ _. Ensures-gives reply_done refl
    where
      unguarded :
          (now : KataConfig)
          → now ≡ kc
          → contains now.metadata.finalizers kata_config_finalizer ≡ false
          → ⊥
      unguarded now q out =
          let held : contains now.metadata.finalizers kata_config_finalizer ≡ true =
            ap (λ (k : KataConfig). contains k.metadata.finalizers kata_config_finalizer) q
            ∙ guarded in
          cc

-- On a cluster that cooperates a deletion comes to its end in one request: it answers without an
-- error or a new request; its last call is an update of the resource without the finalizer, which the
-- server accepts; and the reconciler then holds the resource without the finalizer. The
-- resource has the finalizer and a pool selector, at least one node without binaries has been
-- reported, whatever the number of all nodes is, and the client set is not a nil pointer from an
-- earlier failure. The cluster cooperates where every call succeeds or does not find its object, all
-- machines of every pool are ready, no pod uses the runtime class, and updates are answered with the
-- finalizers sent.
pub delete_request_finishes :
    {W : Type 0} (c : Cluster W) (s : Reconciler W) (selector : LabelSelector)
    → Cooperates c s.kata_config.status.runtime_class
    → s.kata_config.spec.kata_config_pool_selector ≡ some selector
    → 0 < length (uninstalled_nodes s.kata_config)
    → contains s.kata_config.metadata.finalizers kata_config_finalizer ≡ true
    → NotNil s.clientset
    → let run = process_kata_config_delete_request c s in
      (run.0 ≡ done reply_done)
      × (run.1.kata_config.metadata.finalizers
          ≡ c.remove_finalizer s.kata_config.metadata.finalizers kata_config_finalizer)
      × Released
          (c.remove_finalizer s.kata_config.metadata.finalizers kata_config_finalizer)
          run.1.calls
delete_request_finishes c s selector coop e some_node guarded made =
    let kc = s.kata_config in
    let run = process_kata_config_delete_request c s in
    let ended =
      finished _ run.0 run.1 (λ reply h. h.0)
        ((Holds-process c kc coop selector e (ground (arith, some_node)) guarded).at s
          (record { resource = refl; set = made })) in
    let drops = ended.1.1 in (ended.0, drops.0, drops.1)
