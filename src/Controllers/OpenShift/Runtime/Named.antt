-- ===== src/Controllers/OpenShift/Runtime/Named.antt =====
-- setRuntimeClass on a cluster that supports it.
use mathlib.Core.Path.{subst}
use kata_operator.Base.{
  ◌≡◌, refl, ap, ◌∙◌, String, true, false, ◌==◌, string_eq, List, ◌∷◌, length, nat_eq, ◌⊎◌, inl,
  inr,
}
use kata_operator.Api.Kata.{KataConfig, ObjectMeta, over_status, zero_kata_config}
use kata_operator.Api.Objects.{DaemonSet, RuntimeClass}
use kata_operator.Api.Errors.{Error, Result, ok, err, is_not_found}
use kata_operator.Effect.{pure, or_return}
use kata_operator.Effect.Keeps.{
  Ensures, Ensures-bind, Ensures-map, Ensures-from, Ensures-when, Ensures-where,
}
use kata_operator.Cluster.{Cluster}
use kata_operator.Cluster.Calls.{
  Call, got_runtime_class, created_runtime_class, updated_kata_config_status,
}
use kata_operator.Controllers.Reconciler.{
  Reply, reply_done, reply_error, Reconciler, assign, update_status, outcome_of, stored,
}
use kata_operator.Controllers.Reconciler.Traced.{Is, Is-ask, Is-current}
use kata_operator.Controllers.OpenShift.Objects.{runtime_class_for}
use kata_operator.Controllers.OpenShift.Runtime.{
  runtime_class_name, create_class_if_missing, set_runtime_class,
}
use kata_operator.Controllers.OpenShift.Cooperation.{
  Succeeds, IsAnswered, Never, Ensures-given, Ensures-ok, Ensures-gives,
}

-- The calls at the end of an installation succeed: the resource is read as `kc`, and is the only one;
-- a daemon set and a runtime class are there or not found, and can be deleted and created; an update
-- of the status is answered with the runtime class that was sent.
pub record Supports {W : Type 0} (c : Cluster W) (name : String) (kc : KataConfig) : Type 0 where
  pub gets : (w : W) → Succeeds (λ k. k ≡ kc) (c.get_kata_config name zero_kata_config w).0
  pub lists : (w : W) → Succeeds (λ items. length items ≡ 1) (c.list_kata_configs w).0
  pub daemon_sets :
      (ds_name namespace : String) (w : W) → IsAnswered (c.get_daemon_set ds_name namespace w).0
  pub deletes : (ds : DaemonSet) (w : W) → Succeeds (λ _. Unit) (c.delete_daemon_set ds w).0
  pub owners :
      (k : KataConfig) (m : ObjectMeta) → Succeeds (λ _. Unit) (c.set_controller_reference k m)
  pub classes : (rc_name : String) (w : W) → IsAnswered (c.get_runtime_class rc_name w).0
  pub creates : (rc : RuntimeClass) (w : W) → Succeeds (λ _. Unit) (c.create_runtime_class rc w).0
  pub statuses :
      (k : KataConfig) (w : W)
      → Succeeds
          (λ answer. answer.status.runtime_class ≡ k.status.runtime_class)
          (c.update_kata_config_status k w).0

-- the status names the runtime class
abbrev pub Named : {W : Type 0} → Reconciler W → Type 0
Named s = s.kata_config.status.runtime_class ≡ runtime_class_name

-- The runtime class was found by its name, or not found and created for the resource.
abbrev ClassThere : {W : Type 0} → Cluster W → KataConfig → List Call → List Call → Type 0
ClassThere c kc before after =
    let rc = runtime_class_for kc runtime_class_name in
    ((found : RuntimeClass) × (after ≡ got_runtime_class rc.metadata.name (ok found) ∷ before))
    ⊎ ((e : Error) × (metadata : ObjectMeta) × (is_not_found e ≡ true)
        × (c.set_controller_reference kc rc.metadata ≡ ok metadata)
        × (after
            ≡ created_runtime_class (record rc { metadata = metadata }) (ok tt)
              ∷ got_runtime_class rc.metadata.name (err e)
              ∷ before))

-- The last calls: the runtime class, then an accepted update of the status, which names it.
abbrev pub Closed : {W : Type 0} → Cluster W → KataConfig → List Call → List Call → Type 0
Closed c kc before after =
    (classed : List Call) × ClassThere c kc before classed
    × (sent : KataConfig) × (answer : KataConfig) × (sent.status.runtime_class ≡ runtime_class_name)
    × (after ≡ updated_kata_config_status sent (ok answer) ∷ classed)

module _ {W : Type 0} (c : Cluster W) (name : String) (kc : KataConfig)
    (k : Supports c name kc) where
  -- the state with the class
  abbrev Classed : KataConfig → List Call → Reconciler W → Type 0
  Classed now l s = (there : (after : List Call) × ClassThere c now l after) × Is kc there.0 s

  itself : {A : Type 0} (x : Result A) → Succeeds (λ _. Unit) x → Succeeds (λ a. x ≡ ok a) x
  itself (ok a) g = refl
  itself (err e) g = g

  Classed-create_class_if_missing :
      (now : KataConfig) (l : List Call) (metadata : ObjectMeta) (answer : Result RuntimeClass)
      → let rc = runtime_class_for now runtime_class_name in
        c.set_controller_reference now rc.metadata ≡ ok metadata
        → IsAnswered answer
        → Ensures
            (Is kc (got_runtime_class rc.metadata.name answer ∷ l))
            (create_class_if_missing c answer (record rc { metadata = metadata }))
            (λ _. Classed now l)
            Never
  unfolding create_class_if_missing pure
  Classed-create_class_if_missing now l metadata (ok found) owned g = record {
    at = λ s h. ((_, inl (found, refl)), h);
  }
  Classed-create_class_if_missing now l metadata (err e) owned g =
      rw g (Ensures-bind _ _ (Is-ask _ _ (k.creates _)) created_or_out)
    where
      rc : RuntimeClass
      rc = runtime_class_for now runtime_class_name

      created_or_out :
          (created : Result (Unit {0}))
          → Ensures {S = Reconciler W}
              (λ s.
                Succeeds (λ _. Unit) created
                × Is kc
                    (created_runtime_class (record rc { metadata = metadata }) created
                      ∷ got_runtime_class rc.metadata.name (err e)
                      ∷ l)
                    s)
              (or_return reply_error created)
              (λ _. Classed now l)
              Never
      created_or_out (ok _) = record {
        at = λ s (_, h). ((_, inr (e, metadata, g, owned, refl)), h);
      }
      created_or_out (err x) = record { at = λ s (out, h). absurd out }

  -- The status names the class, and has yet to be sent.
  record Sets (l : List Call) (s : Reconciler W) : Type 0 where
    named : Named s
    trace : s.calls ≡ l

  Sets-assign :
      (l : List Call)
      → Ensures
          (Is kc l)
          (assign {W = W} {R = Reply}
            (over_status (λ s. record s { runtime_class = runtime_class_name })))
          (λ _. Sets l)
          Never
  unfolding assign
  Sets-assign l = record { at = λ s h. record { named = refl; trace = h.trace } }

  -- an update of a status that names the class
  stored-Named :
      (now sent : KataConfig) (a : Result KataConfig) (l classed calls : List Call)
      → Succeeds (λ answer. answer.status.runtime_class ≡ sent.status.runtime_class) a
      → sent.status.runtime_class ≡ runtime_class_name
      → ClassThere c now l classed
      → calls ≡ classed
      → Succeeds (λ _. Unit) (outcome_of a)
        × ((stored a sent).status.runtime_class ≡ runtime_class_name)
        × Closed c now l (updated_kata_config_status sent a ∷ calls)
  stored-Named now sent (ok answer) l classed calls g e there t = (
    tt,
    g ∙ e,
    (classed, there, sent, answer, e, ap (λ x. updated_kata_config_status sent (ok answer) ∷ x) t),
  )
  stored-Named now sent (err x) l classed calls g e there t = absurd g

  Closed-update_status :
      (now : KataConfig) (l : List Call) (there : (after : List Call) × ClassThere c now l after)
      → Ensures
          (Sets there.0)
          (update_status c {R = Reply})
          (λ r s. Succeeds (λ _. Unit) r × (Named s × Closed c now l s.calls))
          Never
  unfolding update_status
  Closed-update_status now l there = record {
    at = λ s h.
        let ended =
          stored-Named now s.kata_config _ l there.0 s.calls (k.statuses s.kata_config s.world)
            h.named there.1 h.trace in
        (ended.0, (ended.1, ended.2));
  }

  -- The call comes to its end without an error, and the status then names the runtime class.
  pub Named-set_runtime_class :
      (l : List Call)
      → kc.status.runtime_class ≡ ""
      → Ensures
          (Is kc l)
          (set_runtime_class c)
          (λ reply s. (reply ≡ reply_done) × (Named s × Closed c kc l s.calls))
          Never
  unfolding set_runtime_class
  Named-set_runtime_class l none_yet = Ensures-bind _ _ Is-current λ now. Ensures-given λ same.
      Ensures-bind _ _ (Ensures-from (λ s h. (itself _ (k.owners _ _), h)) (Ensures-ok _ _))
        λ metadata. Ensures-given λ owned. Ensures-bind _ _ (Is-ask _ _ (k.classes _)) λ found.
          Ensures-given λ answered.
            Ensures-bind _ _ (Classed-create_class_if_missing now l metadata found owned answered)
              λ _. Ensures-where {P = λ there s. Is kc there.0 s} λ there.
                Ensures-bind _ _ Is-current λ kc'. Ensures-given λ q.
                  Ensures-bind _ _
                    (Ensures-when {Q = λ s. Named s × Closed c now l s.calls}
                      (kc'.status.runtime_class == "") _
                      (λ _. Ensures-bind _ _ (Sets-assign _) λ _.
                        Ensures-bind _ _ (Closed-update_status now l there) λ saved.
                          Ensures-map (λ a s h. h.1) (Ensures-ok {Q = λ _. Unit {0}} _ saved))
                      (λ out s h. absurd (named_before kc' q out)))
                    λ _.
                      Ensures-map
                        (λ reply s h. (h.0, (h.1.0, subst (λ x. Closed c x l s.calls) same h.1.1)))
                        (Ensures-gives reply_done refl)
    where
      named_before : (now : KataConfig) → now ≡ kc → (now.status.runtime_class == "") ≡ false → ⊥
      named_before now q out =
          let empty : (now.status.runtime_class == "") ≡ true =
            ap (λ (x : KataConfig). x.status.runtime_class == "") q
            ∙ ap (λ (x : String). x == "") none_yet in
          cc
