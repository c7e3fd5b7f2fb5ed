-- ===== src/Controllers/OpenShift/Queries/Removal.antt =====
-- deleteKataDaemonset of controllers/openshift_controller.go, where its questions are answered.
use mathlib.Core.Path.{subst}
use kata_operator.Base.{◌≡◌, sym, String, arith, nat_eq, string_eq, List}
use kata_operator.Api.Kata.{KataConfig}
use kata_operator.Api.Objects.{DaemonSet}
use kata_operator.Api.Errors.{Result, ok, err}
use kata_operator.Effect.{◌>>=◌, called}
use kata_operator.Effect.Keeps.{Ensures, Ensures-called}
use kata_operator.Cluster.{Cluster}
use kata_operator.Cluster.Calls.{Call, got_daemon_set, deleted_daemon_set}
use kata_operator.Controllers.Reconciler.Traced.{Is}
use kata_operator.Base.{refl, ◌∙◌, true, ◌∷◌, ◌⊎◌, inl, inr}
use kata_operator.Api.Errors.{Error, is_not_found}
use kata_operator.Controllers.Common.{DaemonOperation}
use kata_operator.Controllers.Reconciler.{Reply, Reconciler, current, ask}
use kata_operator.Controllers.OpenShift.Objects.{
  process_daemonset_for_cr, daemon_set_name, daemon_set_namespace,
}
use kata_operator.Controllers.OpenShift.Queries.{delete_kata_daemonset}
use kata_operator.Controllers.OpenShift.Queries.Answers.{
  delete_kata_daemonset_lem, calls-delete_kata_daemonset, deletion,
}
use kata_operator.Controllers.OpenShift.Cooperation.{Succeeds, IsAnswered, Never, Has}

-- The daemon set of the operation was not there, or it was deleted; nothing else was asked.
abbrev pub Gone : DaemonOperation → List Call → List Call → Type 0
Gone operation before after =
    ((e : Error) × (is_not_found e ≡ true)
      × (after ≡ got_daemon_set (daemon_set_name operation) daemon_set_namespace (err e) ∷ before))
    ⊎ ((ds : DaemonSet) × (after
          ≡ deleted_daemon_set ds (ok tt)
            ∷ got_daemon_set (daemon_set_name operation) daemon_set_namespace (ok ds)
            ∷ before))

module _ {W : Type 0} (c : Cluster W) (operation : DaemonOperation)
    (looks : (name namespace : String) (w : W) → IsAnswered (c.get_daemon_set name namespace w).0)
    (deletes : (ds : DaemonSet) (w : W) → Succeeds (λ _. Unit) (c.delete_daemon_set ds w).0) where
  -- the daemon set is deleted or was not there
  deleted-Succeeds :
      (a : Result DaemonSet) (w : W) (calls : List Call)
      → IsAnswered a
      → Succeeds (λ _. Unit) (deletion c a w calls).0
  deleted-Succeeds (ok ds) w calls g = deletes ds w
  deleted-Succeeds (err e) w calls g = rw g tt

  resource-delete_kata_daemonset :
      (s : Reconciler W) → (delete_kata_daemonset c operation s).1.kata_config ≡ s.kata_config
  unfolding delete_kata_daemonset ◌>>=◌ ask current process_daemonset_for_cr
  resource-delete_kata_daemonset s = ground arith

  -- The call succeeds, and leaves the resource as it is.
  pub Ensures-delete_kata_daemonset :
      (Q : KataConfig → Type 0)
      → Ensures
          (λ s. Q s.kata_config)
          (called {R = Reply} (delete_kata_daemonset c operation))
          (λ r s. Succeeds (λ _. Unit) r × Q s.kata_config)
          Never
  Ensures-delete_kata_daemonset Q = Ensures-called _ λ s h.
      rw (delete_kata_daemonset_lem c operation s) (
        deleted-Succeeds _ _ _ (looks (daemon_set_name operation) daemon_set_namespace s.world),
        subst Q (sym (resource-delete_kata_daemonset s)) h,
      )

  abbrev asks : Result DaemonSet → List Call → List Call
  asks a before = got_daemon_set (daemon_set_name operation) daemon_set_namespace a ∷ before

  with_answer :
      (ds : DaemonSet) (a : Result (Unit {0})) (before : List Call)
      → Succeeds (λ _. Unit) a
      → Gone operation before (deleted_daemon_set ds a ∷ asks (ok ds) before)
  with_answer ds (ok _) before g = inr (ds, refl)
  with_answer ds (err e) before g = absurd g

  deletion-Gone :
      (a : Result DaemonSet) (w : W) (before : List Call)
      → IsAnswered a
      → Gone operation before (deletion c a w (asks a before)).1
  deletion-Gone (ok ds) w before g = with_answer ds _ before (deletes ds w)
  deletion-Gone (err e) w before g = inl (e, g, refl)

  -- The calls between the start and the state.
  abbrev pub HasGone : KataConfig → Reconciler W → Type 0
  HasGone kc s =
      (gone : (before : List Call) × (after : List Call) × Gone operation before after) × Is kc
        gone.1 s

  pub HasGone-delete_kata_daemonset :
      (kc : KataConfig)
      → Ensures
          (Has kc)
          (called {R = Reply} (delete_kata_daemonset c operation))
          (λ r s. Succeeds (λ _. Unit) r × HasGone kc s)
          Never
  HasGone-delete_kata_daemonset kc = Ensures-called _ λ s h.
      let found = looks (daemon_set_name operation) daemon_set_namespace s.world in
      rw (delete_kata_daemonset_lem c operation s) (
        deleted-Succeeds _ _ _ found,
        (
          (s.calls, _, deletion-Gone _ _ s.calls found),
          record {
            resource = resource-delete_kata_daemonset s ∙ h.resource;
            trace = calls-delete_kata_daemonset c operation s;
          },
        ),
      )
