-- ===== src/Controllers/OpenShift/Delete/Safety.antt =====
-- The finalizer of a resource and the steps of its deletion.
use kata_operator.Base.{refl, String, List, nat_eq, string_eq}
use kata_operator.Api.Errors.{Error, Result, ok, err}
use kata_operator.Effect.{Exec, ◌>>=◌, or_return, called}
use kata_operator.Cluster.{Cluster}
use kata_operator.Controllers.Reconciler.{
  Reply, reply_done, Reconciler, current, update_kata_config, ask,
}
use mathlib.Core.Path.{subst}
use kata_operator.Cluster.Calls.{Call}
use kata_operator.Effect.Keeps.{
  Keeps, Ensures, Ensures-bind, Ensures-kept, Ensures-when, Ensures-or_return, Keeps-or_return,
  Ensures-weaken, After-always, Keeps-pure,
}
use kata_operator.Controllers.Reconciler.Keeps.{OnCalls, Keeps-assign}
use kata_operator.Controllers.OpenShift.Queries.{worker_or_master}
use kata_operator.Controllers.OpenShift.Delete.{
  finalize, drop_finalizer, process_kata_config_delete_request,
}
use kata_operator.Controllers.OpenShift.Delete.Evidence.{Guarded}
use kata_operator.Controllers.OpenShift.Delete.Trace.{
  Keeps-ensure_uninstall_daemonset, Keeps-release_nodes,
}
use kata_operator.Controllers.OpenShift.Delete.Pool.{Ensures-sync_parent_pool}
use kata_operator.Controllers.OpenShift.Delete.Stages.{
  G, Out, Start, G1, Listed, Ensures-list_kata_pods, G4, Saved, stable1, Ensures-update_status,
  Ensures-complete, Gone, Ensures-delete_kata_daemonset,
}

module _ {W : Type 0} (c : Cluster W) (rc : String) where
  -- 5: the finalizer goes
  Ensures-update_kata_config :
      Ensures (OnCalls (G4 c rc)) (update_kata_config c {R = Reply}) (λ _. (Out c rc)) (Out c rc)
  unfolding update_kata_config
  Ensures-update_kata_config = record {
    at = λ s h. record {
      made = (
        λ _. record {
          pods = h.made.0.0.0.1;
          pool = h.made.0.0.1;
          status = h.made.0.1;
          daemon_set = h.made.1;
        },
        h.made.0.0.0.0,
      );
    };
  }

  Ensures-drop_finalizer :
      Ensures (OnCalls (G4 c rc)) (drop_finalizer c) (λ _. (Out c rc)) (Out c rc)
  unfolding drop_finalizer
  Ensures-drop_finalizer =
      Ensures-bind _ _ (Ensures-kept _ (λ s h. record { made = h.made.0.0.0.0 }) (Keeps-assign _))
        λ _.
          Ensures-bind _ _ Ensures-update_kata_config
            λ updated. Ensures-kept _ (λ s h. h) (Keeps-or_return _ _)

  -- An error among the answers ends the request, and an answer without one has its evidence.
  Ensures-answer :
      {Q : Result (Unit {0}) → List Call → Type 0} (e : Error → Reply) (r : Result (Unit {0}))
      → ((x : Result (Unit {0})) (l : List Call) → Q x l → (G c rc) l)
      → Ensures (OnCalls (Q r)) (or_return e r) (λ _. OnCalls (Q (ok tt))) (Out c rc)
  Ensures-answer {Q} e r out =
      Ensures-or_return e r (λ a s q h. record { made = subst (λ x. Q x s.calls) q h.made })
        (λ s h. record { made = out r s.calls h.made })

  Listed-G : (x : Result (Unit {0})) (l : List Call) → (Listed c rc) x l → (G c rc) l
  Listed-G (ok _) l h = h.0
  Listed-G (err _) l h = h

  Saved-G : (x : Result (Unit {0})) (l : List Call) → (Saved c rc) x l → (G c rc) l
  Saved-G (ok _) l h = h.0.0.0
  Saved-G (err _) l h = h.0.0

  Gone-G : (x : Result (Unit {0})) (l : List Call) → (Gone c rc) x l → (G c rc) l
  Gone-G (ok _) l h = h.0.0.0.0
  Gone-G (err _) l h = h.0.0.0

  Ensures-finalize :
      (pool : String) → Ensures (Start c rc) (finalize c pool) (λ _. (Out c rc)) (Out c rc)
  unfolding finalize
  Ensures-finalize pool = Ensures-bind _ _ (Ensures-list_kata_pods c rc) λ pods.
      Ensures-bind _ _ (Ensures-answer {Q = (Listed c rc)} _ pods Listed-G) λ _.
        Ensures-bind _ _ (kept1 (Keeps-ensure_uninstall_daemonset c (stable1 c rc))) λ _.
          Ensures-bind _ _ (kept1 (Keeps-release_nodes c (stable1 c rc) pool)) λ _.
            Ensures-bind _ _
              (Ensures-weaken (λ s h. record { made = h.made.0 })
                (Ensures-sync_parent_pool c (stable1 c rc) pool))
              λ _. Ensures-bind _ _ (Ensures-complete c rc) λ _.
                Ensures-bind _ _ (Ensures-update_status c rc) λ saved.
                  Ensures-bind _ _ (Ensures-answer {Q = (Saved c rc)} _ saved Saved-G) λ _.
                    Ensures-bind _ _ (Ensures-delete_kata_daemonset c rc) λ deleted.
                      Ensures-bind _ _ (Ensures-answer {Q = (Gone c rc)} _ deleted Gone-G)
                        λ _. Ensures-drop_finalizer
    where
      kept1 :
          {m : Exec (Reconciler W) Reply (Unit {0})}
          → Keeps (OnCalls (G1 c rc)) m
          → Ensures (OnCalls (G1 c rc)) m (λ _. OnCalls (G1 c rc)) (Out c rc)
      kept1 k = Ensures-kept _ (λ s h. record { made = h.made.0 }) k

  Ensures-worker_or_master :
      Ensures (Start c rc) (called {R = Reply} (worker_or_master c)) (λ _. (Start c rc)) (Out c rc)
  unfolding worker_or_master ◌>>=◌ ask
  Ensures-worker_or_master = record {
    at = λ s h. record { guarded = (λ u. cc, h.guarded); class = h.class };
  }

  Ensures-current :
      Ensures (Start c rc) (current {W = W} {R = Reply}) (λ _. (Start c rc)) (Out c rc)
  unfolding current
  Ensures-current = record { at = λ s h. h }

  out : (s : Reconciler W) → (Start c rc) s → (Out c rc) s
  out s h = record { made = h.guarded }

  Ensures-process :
      Ensures (Start c rc) (process_kata_config_delete_request c) (λ _. (Out c rc)) (Out c rc)
  unfolding process_kata_config_delete_request
  Ensures-process = Ensures-bind _ _ Ensures-worker_or_master λ pool.
      Ensures-bind _ _ (Ensures-kept _ out (Keeps-or_return _ pool)) λ machine_pool.
        Ensures-bind _ _ Ensures-current λ kc.
          Ensures-bind _ _ (Ensures-when _ _ (λ _. Ensures-finalize machine_pool) (λ _. out))
            λ _. Ensures-kept _ (λ s h. h) (Keeps-pure reply_done)

-- However a deletion request ends, with a reply, an early return or a panic, and whatever the
-- cluster answers: an update of the resource, which drops the finalizer, stands among its calls
-- only after a listing of the pods in which none uses the runtime class of the resource, and after,
-- in this order, a pool read with all its machines ready, a saved status with all the nodes without
-- binaries completed, and a daemon set deleted or that of the uninstallation not found. The calls
-- before the request are supposed to be so too; a run that starts with none is.
pub delete_request-Guarded :
    {W : Type 0} (c : Cluster W) (s : Reconciler W)
    → Guarded s.kata_config.status.runtime_class s.calls
    → Guarded s.kata_config.status.runtime_class (process_kata_config_delete_request c s).1.calls
delete_request-Guarded c s g =
    let rc = s.kata_config.status.runtime_class in
    let run = process_kata_config_delete_request c s in
    (After-always (Out c rc) run.0 run.1
      ((Ensures-process c rc).at s (record { guarded = g; class = refl }))).made
