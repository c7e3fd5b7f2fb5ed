-- ===== src/Tests/Competition.antt =====
-- A resource that competes with an older one.
use kata_operator.Base.{
  ◌≡◌, refl, String, false, none, some, List, [], ◌∷◌, ◌↔◌, All, ◌==◌, string_eq, if◌then◌else◌,
}
use kata_operator.Api.Kata.{KataConfig, zero_meta, zero_kata_config}
use kata_operator.Api.Errors.{ok}
use kata_operator.Effect.{exit}
use kata_operator.Cluster.{Cluster, OrdersTime}
use kata_operator.Controllers.Reconciler.{reply_done}
use kata_operator.Controllers.OpenShift.Oldest.{older, oldest_other, mark_rejected}
use kata_operator.Controllers.OpenShift.Oldest.Search.{
  IsOldestOther, is_other, oldest_other_sound, oldest_other-eq-none_iff,
}
use kata_operator.Controllers.OpenShift.Oldest.Verdict.{after_list}
use kata_operator.Controllers.OpenShift.Reconcile.{dispatch, reconcile_oldest}
use kata_operator.Controllers.OpenShift.Reconcile.Refusal.{
  refused, marked-reconcile_oldest, must_reject-reconcile_oldest,
}
use kata_operator.Tests.Clusters.{calm, at_rest}

abbrev named : String → KataConfig
named name = record zero_kata_config {
  metadata = record zero_meta {
    name = name;
    creation_timestamp = if name == "first" then 3 else 8;
  };
}

abbrev items : List KataConfig
items = named "second" ∷ named "first" ∷ named "third" ∷ []

-- a calm cluster with the three resources
abbrev crowded : Cluster (Unit {0})
crowded = record calm { list_kata_configs = λ w. (ok items, w) }

crowded-OrdersTime : OrdersTime crowded
crowded-OrdersTime = record { before_lem = λ a b. refl }

first_found : oldest_other crowded.before "second" none items ≡ some (named "first")
unfolding oldest_other older
first_found = refl

oldest_other_sound_example : IsOldestOther "second" items (named "first")
oldest_other_sound_example =
    oldest_other_sound crowded crowded-OrdersTime "second" items (named "first") first_found

oldest_other-eq-none_iff_example :
    (oldest_other crowded.before "second" none (named "second" ∷ []) ≡ none)
    ↔ All (λ item. is_other "second" item ≡ false) (named "second" ∷ [])
oldest_other-eq-none_iff_example =
    oldest_other-eq-none_iff crowded crowded-OrdersTime "second" (named "second" ∷ [])

must_reject-reconcile_oldest_example : reconcile_oldest crowded (at_rest (named "second")) ≡ (
  exit reply_done,
  refused crowded (at_rest (named "second")) items (named "first") refl refl first_found,
)
must_reject-reconcile_oldest_example =
    must_reject-reconcile_oldest crowded (at_rest (named "second")) items (named "first") refl refl
      first_found crowded-OrdersTime refl

-- the resource after its refusal
abbrev rejected : KataConfig
rejected = mark_rejected "first" (named "second")

marked-reconcile_oldest_example :
    reconcile_oldest crowded (at_rest rejected)
    ≡ dispatch crowded (after_list crowded (at_rest rejected))
marked-reconcile_oldest_example =
    marked-reconcile_oldest crowded (at_rest rejected) items (named "first") refl refl first_found
      refl
