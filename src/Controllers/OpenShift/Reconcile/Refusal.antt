-- ===== src/Controllers/OpenShift/Reconcile/Refusal.antt =====
-- What Reconcile does with a resource that isOldestCR has compared with the others.
use kata_operator.Base.{
  ◌≡◌, refl, true, false, not, none, some, List, ◌∷◌, ◌==◌, nat_eq, string_eq, length, arith,
}
use kata_operator.Base.GoInt.{minus_one}
use kata_operator.Api.Kata.{KataConfig}
use kata_operator.Api.Errors.{Result, ok, err}
use kata_operator.Effect.{◌>>=◌, exit, when, return}
use kata_operator.Cluster.{Cluster, OrdersTime}
use kata_operator.Cluster.Calls.{updated_kata_config_status}
use kata_operator.Controllers.Reconciler.{Reconciler, stored, assign, update_status}
use kata_operator.Controllers.OpenShift.Oldest.{
  marked, created, oldest_other, mark_rejected, compare_with,
}
use kata_operator.Controllers.OpenShift.Oldest.Verdict.{
  rejection, after_list, rejecting, must_reject, is_oldest_cr-compare, marked-is_oldest_cr,
}
use kata_operator.Controllers.OpenShift.Reconcile.{refusal, dispatch, reconcile_oldest}

module _ {W : Type 0} (c : Cluster W) (s : Reconciler W) (items : List KataConfig)
    (oldest : KataConfig) (answer : (c.list_kata_configs s.world).0 ≡ ok items)
    (several : (length items == 1) ≡ false)
    (found : oldest_other c.before s.kata_config.metadata.name none items ≡ some oldest) where
  -- Where the list has several resources, a resource that is already marked as rejected is handled
  -- as the oldest one at the next request: Reconcile goes on to the installation, the monitoring or
  -- the deletion with no call between, although `oldest` is another listed resource.
  pub marked-reconcile_oldest :
      marked s.kata_config ≡ minus_one → reconcile_oldest c s ≡ dispatch c (after_list c s)
  unfolding reconcile_oldest ◌>>=◌
  marked-reconcile_oldest m = rw (marked-is_oldest_cr c s items oldest answer several found m) refl

  -- the state after the refusal
  abbrev pub refused : Reconciler W
  refused =
      let (a, w) = rejecting c s oldest in
      let sent = mark_rejected oldest.metadata.name s.kata_config in
      record s {
        world = w;
        kata_config = stored a sent;
        calls = updated_kata_config_status sent a ∷ (after_list c s).calls;
      }

  compare_with-rejects :
      OrdersTime c
      → must_reject oldest s.kata_config ≡ true
      → compare_with c oldest s.kata_config (after_list c s)
        ≡ (exit (rejection (rejecting c s oldest).0), refused)
  unfolding compare_with assign update_status ◌>>=◌
  compare_with-rejects t m = ground (arith, t.before_lem (created s.kata_config) (created oldest))

  -- Where the list has several resources, one that was not created before the oldest other one and
  -- is not marked yet is refused: Reconcile lists the resources, saves the mark in the status, and
  -- ends, with the error of the update if there is one. No handler runs. Time.Before is supposed to
  -- order the dates.
  pub must_reject-reconcile_oldest :
      OrdersTime c
      → must_reject oldest s.kata_config ≡ true
      → reconcile_oldest c s ≡ (exit (refusal (rejection (rejecting c s oldest).0).1), refused)
  unfolding reconcile_oldest ◌>>=◌
  must_reject-reconcile_oldest t m =
      rw (is_oldest_cr-compare c s items oldest answer several found, compare_with-rejects t m)
        (refuses (rejecting c s oldest).0)
    where
      refuses :
          (a : Result KataConfig)
          → (when {S = Reconciler W} (not (rejection a).0) (return (refusal (rejection a).1))
                >>= λ _. dispatch c)
              refused
            ≡ (exit (refusal (rejection a).1), refused)
      refuses (ok _) = refl
      refuses (err _) = refl
