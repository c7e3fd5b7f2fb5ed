-- ===== src/Controllers/Reconciler/Safe.antt =====
-- The calls of a reconciler read no nil pointer; nor does a read of the selector after a default.
use kata_operator.Base.{◌≡◌, some}
use kata_operator.Api.Kata.{KataConfig, LabelSelector, Labels}
use kata_operator.Api.Errors.{Result, ok, err}
use kata_operator.Effect.{Exec, ◌>>=◌, ◌>>◌}
use kata_operator.Effect.Safe.{IsSafe, safe_rules}
use kata_operator.Cluster.{Cluster}
use kata_operator.Cluster.Calls.{Call}
use kata_operator.Controllers.Reconciler.{
  Reconciler, Reply, current, assign, ask, match_labels, update_status, update_kata_config,
}
use kata_operator.Controllers.Reconciler.Create.{create_if_missing}

module _ {W R : Type 0} where
  pub IsSafe-current : IsSafe (current {W = W} {R = R})
  unfolding current
  IsSafe-current = record { runs = λ s. tt }

  pub IsSafe-assign : (f : KataConfig → KataConfig) → IsSafe (assign {W = W} {R = R} f)
  unfolding assign
  IsSafe-assign f = record { runs = λ s. tt }

  pub IsSafe-ask :
      {A : Type 0} (f : W → Result A × W) (note : Result A → Call) → IsSafe (ask {R = R} f note)
  unfolding ask
  IsSafe-ask f note = record { runs = λ s. tt }

  -- The labels are read after a selector was set.
  pub IsSafe-labels :
      {A : Type 0} (of : KataConfig → LabelSelector) (f : KataConfig → KataConfig)
      (next : Labels → Exec (Reconciler W) R A)
      → ((kc : KataConfig) → (f kc).spec.kata_config_pool_selector ≡ some (of kc))
      → ((labels : Labels) → IsSafe (next labels))
      → IsSafe (assign f >> (match_labels >>= next))
  unfolding assign match_labels current ◌>>=◌
  IsSafe-labels of f next set safe = record {
    runs = λ s. rw (set s.kata_config) ((safe (of s.kata_config).match_labels).runs _);
  }

module _ {W : Type 0} (c : Cluster W) {R : Type 0} where
  pub IsSafe-update_status : IsSafe (update_status c {R = R})
  unfolding update_status
  IsSafe-update_status = record { runs = λ s. tt }

  pub IsSafe-update_kata_config : IsSafe (update_kata_config c {R = R})
  unfolding update_kata_config
  IsSafe-update_kata_config = record { runs = λ s. tt }

pub ruleset safe_call_rules = (
  safe_rules, IsSafe-current, IsSafe-assign, IsSafe-ask, IsSafe-update_status,
  IsSafe-update_kata_config,
)

module _ {W A : Type 0} where
  pub IsSafe-create_if_missing :
      (answer : Result A) (create : Exec (Reconciler W) Reply (Result (Unit {0})))
      → IsSafe create
      → IsSafe (create_if_missing answer create)
  unfolding create_if_missing
  IsSafe-create_if_missing (ok _) create safe = search safe_call_rules depth 20
  IsSafe-create_if_missing (err e) create safe = search safe_call_rules depth 20
