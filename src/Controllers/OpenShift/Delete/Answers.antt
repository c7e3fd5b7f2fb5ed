-- ===== src/Controllers/OpenShift/Delete/Answers.antt =====
-- The shared functions of controllers/openshift_controller.go on a cluster that cooperates.
use kata_operator.Base.{◌≡◌, ap, ◌∙◌, false, List}
use kata_operator.Api.Kata.{KataConfig}
use kata_operator.Api.Objects.{Pod}
use kata_operator.Api.Errors.{Result, ok, err}
use kata_operator.Effect.{Exec, pure, called}
use kata_operator.Effect.Keeps.{Ensures, Ensures-bind, Ensures-calls, Ensures-map}
use kata_operator.Cluster.{Cluster}
use kata_operator.Controllers.Reconciler.{Reply, Reconciler}
use kata_operator.Controllers.Reconciler.Create.{create_if_missing}
use kata_operator.Controllers.OpenShift.Queries.{uses_runtime_class, list_kata_pods}
use kata_operator.Controllers.OpenShift.Cooperation.{
  Succeeds, IsAnswered, Cooperates, Calm, Never, Calm-ask, Calm-current, Ensures-given, Ensures-ok,
  Ensures-gives, Ensures-skip, NotNil,
}

module _ {W : Type 0} (c : Cluster W) (kc : KataConfig)
    (coop : Cooperates c kc.status.runtime_class) where
  abbrev pub At : Reconciler W → Type 0
  At = Calm (λ k. k ≡ kc) NotNil

  pub Calm-list_kata_pods :
      {R : Type 0}
      → Ensures At (called {R = R} (list_kata_pods c)) (λ r s. Succeeds (λ _. Unit) r × At s) Never
  unfolding list_kata_pods
  Calm-list_kata_pods = Ensures-calls _ (
      Ensures-bind _ _ (Calm-ask _ _ coop.pods) λ listed.
        Ensures-bind _ _ (Ensures-ok _ listed) λ pods. Ensures-given λ clear.
          Ensures-bind _ _ Calm-current λ now. Ensures-given λ q.
            Ensures-bind _ _ (Ensures-skip _ _ (unused now pods q clear))
              λ _. Ensures-gives (ok tt) tt)
    where
      unused :
          (now : KataConfig) (pods : List Pod)
          → now ≡ kc
          → uses_runtime_class kc.status.runtime_class pods ≡ false
          → uses_runtime_class now.status.runtime_class pods ≡ false
      unused now pods q clear =
          ap (λ (k : KataConfig). uses_runtime_class k.status.runtime_class pods) q ∙ clear

  pub Calm-create_if_missing :
      {A : Type 0} (answer : Result A) (create : Exec (Reconciler W) Reply (Result (Unit {0})))
      → Ensures At create (λ r s. Succeeds (λ _. Unit) r × At s) Never
      → Ensures (λ s. IsAnswered answer × At s) (create_if_missing answer create) (λ _. At) Never
  unfolding create_if_missing pure
  Calm-create_if_missing (ok _) create k = record { at = λ s (g, h). h }
  Calm-create_if_missing (err e) create k =
      Ensures-given
        λ g. rw g (Ensures-bind _ _ k λ made. Ensures-map (λ a s (g, h). h) (Ensures-ok _ made))
