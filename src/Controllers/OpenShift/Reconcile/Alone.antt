-- ===== src/Controllers/OpenShift/Reconcile/Alone.antt =====
-- The way of Reconcile to the handlers, for a resource that is the only one of its kind.
use kata_operator.Base.{not, ◌≡◌, refl, ap, String, true, none, string_eq, nat_eq, List, length}
use kata_operator.Api.Kata.{KataConfig, zero_kata_config}
use kata_operator.Api.Errors.{Result, ok, err}
use kata_operator.Effect.{exit, result, called, ◌>>=◌}
use kata_operator.Effect.Keeps.{After, Ensures, Ensures-bind, Ensures-called}
use kata_operator.Cluster.{Cluster}
use kata_operator.Controllers.Reconciler.{
  Reply, Reconciler, current, ask, assign, get_kata_config, outcome_of, stored,
}
use kata_operator.Controllers.OpenShift.Oldest.{is_oldest_cr}
use kata_operator.Controllers.OpenShift.Oldest.Verdict.{after_list}
use kata_operator.Controllers.OpenShift.Cooperation.{
  Succeeds, Has, Never, Ensures-given, Ensures-ok, Ensures-skip,
}
use kata_operator.Controllers.OpenShift.Reconcile.{dispatch, reconcile_oldest, reconcile}

module _ {W : Type 0} (c : Cluster W) (s : Reconciler W) (items : List KataConfig) where
  -- a resource that is the only one
  alone-is_oldest_cr :
      (c.list_kata_configs s.world).0 ≡ ok items
      → length items ≡ 1
      → is_oldest_cr c s ≡ (exit (true, none), after_list c s)
  unfolding is_oldest_cr ◌>>=◌ ask current
  alone-is_oldest_cr answer one = simp (answer, one)

module _ {W : Type 0} (c : Cluster W) (name : String) (kc : KataConfig)
    (gets : (w : W) → Succeeds (λ k. k ≡ kc) (c.get_kata_config name zero_kata_config w).0)
    (lists : (w : W) → Succeeds (λ items. length items ≡ 1) (c.list_kata_configs w).0) where
  Has-is_oldest_cr :
      Ensures (Has kc) (called {R = Reply} (is_oldest_cr c)) (λ v s. (v.0 ≡ true) × Has kc s) Never
  Has-is_oldest_cr = Ensures-called _ λ s h. answered s h _ refl (lists s.world)
    where
      answered :
          (s : Reconciler W)
          → Has kc s
          → (a : Result (List KataConfig)) → (c.list_kata_configs s.world).0 ≡ a
          → Succeeds (λ items. length items ≡ 1) a
          → After
              (λ v t. (v.0 ≡ true) × Has kc t)
              Never
              (result {R = Reply} (is_oldest_cr c s).0)
              (is_oldest_cr c s).1
      answered s h (ok items) e one =
          rw (alone-is_oldest_cr c s items e one) (refl, record { resource = h.resource; set = tt })
      answered s h (err x) e one = absurd one

  Has-get_kata_config :
      Ensures {S = Reconciler W}
        (λ s. s.kata_config ≡ zero_kata_config)
        (get_kata_config c {R = Reply} name)
        (λ r s. Succeeds (λ _. Unit) r × Has kc s)
        Never
  unfolding get_kata_config
  Has-get_kata_config = record {
    at = λ s h. let (g, e) = got _ (gets s.world) in rw h (g, record { resource = e; set = tt });
  }
    where
      got :
          (a : Result KataConfig)
          → Succeeds (λ x. x ≡ kc) a
          → Succeeds (λ _. Unit) (outcome_of a) × (stored a zero_kata_config ≡ kc)
      got (ok x) g = (tt, g)
      got (err x) g = absurd g

  -- what the handler ensures on the resource, the request does
  pub Ensures-reconcile :
      {Q : Reply → Reconciler W → Type 0}
      → Ensures (Has kc) (dispatch c) Q Never
      → Ensures (λ s. Unit {0}) (reconcile c name) Q Never
  unfolding reconcile reconcile_oldest assign
  Ensures-reconcile handled =
      Ensures-bind {Q = λ _ s. s.kata_config ≡ zero_kata_config} _ _ (record { at = λ s h. refl })
        λ _. Ensures-bind _ _ Has-get_kata_config λ answer.
          Ensures-bind _ _ (Ensures-ok {Q = λ _. Unit {0}} _ answer) λ _. Ensures-given λ _.
            Ensures-bind _ _ Has-is_oldest_cr λ verdict.
              Ensures-given λ first. Ensures-bind _ _ (Ensures-skip _ _ (ap not first)) λ _. handled
