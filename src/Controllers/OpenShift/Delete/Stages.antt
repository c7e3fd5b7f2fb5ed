-- ===== src/Controllers/OpenShift/Delete/Stages.antt =====
-- The stages of a deletion: what the calls show after each of its steps.
use kata_operator.Base.{◌≡◌, refl, String, List, ◌∷◌, nat_eq, string_eq}
use kata_operator.Api.Kata.{KataConfig}
use kata_operator.Api.Objects.{DaemonSet, Pod}
use kata_operator.Api.Errors.{Result, ok, err}
use kata_operator.Effect.{called}
use kata_operator.Cluster.{Cluster}
use kata_operator.Controllers.Common.{uninstall_operation}
use kata_operator.Controllers.Reconciler.{Reply, Reconciler, assign, update_status}
use mathlib.Core.List.{Memᴰ}
use mathlib.Core.Path.{subst, sym}
use kata_operator.Controllers.Reconciler.{outcome_of}
use kata_operator.Controllers.OpenShift.Objects.{daemon_set_name, daemon_set_namespace}
use kata_operator.Base.{inl, inr, Bool-cases}
use kata_operator.Api.Errors.{not_found, api}
use kata_operator.Cluster.Calls.{
  Call, listed_pods, got_daemon_set, deleted_daemon_set, updated_kata_config_status,
}
use kata_operator.Effect.Keeps.{Ensures, Ensures-called}
use kata_operator.Controllers.Reconciler.Keeps.{OnCalls, IsStable}
use kata_operator.Controllers.OpenShift.Queries.{
  list_kata_pods, delete_kata_daemonset, uses_runtime_class,
}
use kata_operator.Controllers.OpenShift.Delete.{complete_uninstalled}
use kata_operator.Controllers.OpenShift.Queries.Answers.{
  pods_verdict, calls-list_kata_pods, list_kata_pods_lem, calls-delete_kata_daemonset,
  delete_kata_daemonset_lem, deletion,
}
use kata_operator.Controllers.OpenShift.Delete.Evidence.{
  PodsClear, PoolReady, StatusSaved, DaemonSetGone, Guarded, Guarded-IsStable, PodsClear-IsStable,
  PoolReady-IsStable, Then-IsStable, ×-IsStable,
}

module _ {W : Type 0} (c : Cluster W) (rc : String) where
  abbrev pub G : List Call → Type 0
  G = Guarded rc

  abbrev pub Out : Reconciler W → Type 0
  Out = OnCalls G

  -- the state in which the deletion starts
  pub record Start (s : Reconciler W) : Type 0 where
    pub guarded : G s.calls
    pub class : s.kata_config.status.runtime_class ≡ rc

  -- 1: the pods are clear
  abbrev pub G1 : List Call → Type 0
  G1 l = G l × PodsClear rc l

  abbrev pub Listed : Result (Unit {0}) → List Call → Type 0
  Listed (ok _) l = G1 l
  Listed (err _) l = G l

  pub listed :
      (a : Result (List Pod)) (l : List Call) → G l → Listed (pods_verdict rc a) (listed_pods a ∷ l)
  listed (err e) l g = (λ u. cc, g)
  listed (ok pods) l g = elim (Bool-cases (uses_runtime_class rc pods)) [
    | inl used ↦ rw used (λ u. cc, g)
    | inr clear ↦ rw clear ((λ u. cc, g), (pods, Memᴰ.head refl, clear))
  ]

  pub Ensures-list_kata_pods :
      Ensures Start (called {R = Reply} (list_kata_pods c)) (λ r. OnCalls (Listed r)) Out
  Ensures-list_kata_pods = Ensures-called _ λ s h.
      simp (list_kata_pods_lem c s, h.class)
        (record { made = rw (calls-list_kata_pods c s) (listed _ s.calls h.guarded) })

  -- 3: the status is saved
  abbrev pub G2 : List Call → Type 0
  G2 l = G1 l × PoolReady l

  abbrev pub G3 : List Call → Type 0
  G3 l = G2 l × StatusSaved l

  abbrev pub G4 : List Call → Type 0
  G4 l = G3 l × DaemonSetGone l

  abbrev pub Saved : Result (Unit {0}) → List Call → Type 0
  Saved (ok _) l = G3 l
  Saved (err _) l = G2 l

  -- the status that is sent has the nodes completed
  pub record Completed (s : Reconciler W) : Type 0 where
    pub known : G2 s.calls
    pub before : KataConfig
    pub sent : s.kata_config ≡ complete_uninstalled before

  pub stable1 : IsStable G1
  stable1 = ×-IsStable (Guarded-IsStable rc) (PodsClear-IsStable rc)

  pub stable2 : IsStable G2
  stable2 = ×-IsStable stable1 PoolReady-IsStable

  pub stable3 : IsStable G3
  stable3 = ×-IsStable stable2 Then-IsStable

  pub saved :
      (kc : KataConfig) (a : Result KataConfig) (l : List Call)
      → G2 l
      → Saved (outcome_of a) (updated_kata_config_status (complete_uninstalled kc) a ∷ l)
  saved kc (ok answer) l g = (stable2.grow _ l refl g, inl ((kc, answer, refl), g.1))
  saved kc (err e) l g = stable2.grow _ l refl g

  pub Ensures-update_status :
      Ensures Completed (update_status c {R = Reply}) (λ r. OnCalls (Saved r)) Out
  unfolding update_status
  Ensures-update_status = record {
    at = λ s h. record {
      made =
          subst
            (λ kc. Saved (outcome_of (c.update_kata_config_status s.kata_config s.world).0) (
              updated_kata_config_status kc (c.update_kata_config_status s.kata_config s.world).0
              ∷ s.calls))
            (sym h.sent) (saved h.before _ s.calls h.known);
    };
  }

  pub Ensures-complete :
      Ensures (OnCalls G2) (assign {R = Reply} complete_uninstalled) (λ _. Completed) Out
  unfolding assign
  Ensures-complete = record {
    at = λ s h. record { known = h.made; before = s.kata_config; sent = refl };
  }

  -- 4: the daemon set is gone
  abbrev pub Gone : Result (Unit {0}) → List Call → Type 0
  Gone (ok _) l = G4 l
  Gone (err _) l = G3 l

  pub Gone-if_deleted :
      (a : Result (Unit {0})) (ds : DaemonSet) (l : List Call)
      → G3 l
      → Gone a (deleted_daemon_set ds a ∷ l)
  Gone-if_deleted (ok tt) ds l g = (stable3.grow _ l refl g, inl (inr (ds, refl), g.1))
  Gone-if_deleted (err e) ds l g = stable3.grow _ l refl g

  abbrev pub lookup : Result DaemonSet → Call
  lookup = got_daemon_set (daemon_set_name uninstall_operation) daemon_set_namespace

  pub gone :
      (a : Result DaemonSet) (w : W) (l : List Call)
      → G3 l
      → let d = deletion c a w (lookup a ∷ l) in Gone d.0 d.1
  gone (ok ds) w l g = Gone-if_deleted _ ds _ (stable3.grow _ l refl g)
  gone (err not_found) w l g = (stable3.grow _ l refl g, inl (inl refl, g.1))
  gone (err (api t)) w l g = stable3.grow _ l refl g
  gone (err _) w l g = stable3.grow _ l refl g

  pub Ensures-delete_kata_daemonset :
      Ensures
        (OnCalls G3)
        (called {R = Reply} (delete_kata_daemonset c uninstall_operation))
        (λ r. OnCalls (Gone r))
        Out
  Ensures-delete_kata_daemonset = Ensures-called _ λ s h.
      simp (delete_kata_daemonset_lem c uninstall_operation s) (record {
        made = rw (calls-delete_kata_daemonset c uninstall_operation s) (gone _ _ s.calls h.made);
      })
