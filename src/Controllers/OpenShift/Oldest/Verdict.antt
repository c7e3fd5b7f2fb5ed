-- ===== src/Controllers/OpenShift/Oldest/Verdict.antt =====
-- What isOldestCR decides once the list of the resources has been answered.
use kata_operator.Base.{
  ◌≡◌, Bool, true, false, not, ◌&&◌, Option, none, some, List, ◌∷◌, ◌==◌, nat_eq, string_eq, length,
  ltb,
}
use kata_operator.Api.Kata.{KataConfig}
use kata_operator.Api.Errors.{Error, Result, ok, err}
use kata_operator.Effect.{◌>>=◌}
use kata_operator.Cluster.{Cluster}
use kata_operator.Controllers.Reconciler.{Reconciler, current, ask}
use kata_operator.Base.{arith}
use kata_operator.Base.GoInt.{minus_one}
use kata_operator.Effect.{done}
use kata_operator.Cluster.Calls.{listed_kata_configs}
use kata_operator.Controllers.OpenShift.Oldest.{
  created, marked, oldest_other, mark_rejected, compare_with, is_oldest_cr,
}

-- the answer `(bool, error)` after the status has been saved
abbrev pub rejection : Result KataConfig → Bool × Option Error
rejection (ok _) = (false, none)
rejection (err e) = (false, some e)

module _ {W : Type 0} (c : Cluster W) (s : Reconciler W) where
  -- the state after the list was asked for
  abbrev pub after_list : Reconciler W
  after_list =
      let (a, w) = c.list_kata_configs s.world in
      record s { world = w; calls = listed_kata_configs a ∷ s.calls }

  -- the update that rejects the resource
  abbrev pub rejecting : KataConfig → Result KataConfig × W
  rejecting oldest =
      c.update_kata_config_status (mark_rejected oldest.metadata.name s.kata_config)
        after_list.world

-- the decision: a resource that is not older than the oldest other one, and not marked yet
abbrev pub must_reject : KataConfig → KataConfig → Bool
must_reject oldest kc = not (ltb (created kc) (created oldest)) && not (marked kc == minus_one)

module _ {W : Type 0} (c : Cluster W) (s : Reconciler W) (items : List KataConfig)
    (oldest : KataConfig) (answer : (c.list_kata_configs s.world).0 ≡ ok items)
    (several : (length items == 1) ≡ false)
    (found : oldest_other c.before s.kata_config.metadata.name none items ≡ some oldest) where
  pub is_oldest_cr-compare : is_oldest_cr c s ≡ compare_with c oldest s.kata_config (after_list c s)
  unfolding is_oldest_cr ◌>>=◌ ask current
  is_oldest_cr-compare = simp (answer, several, found)

  -- A resource that is marked as rejected counts as the oldest at every later request, whatever the
  -- dates are, and the request writes nothing.
  pub marked-is_oldest_cr :
      marked s.kata_config ≡ minus_one → is_oldest_cr c s ≡ (done (true, none), after_list c s)
  unfolding compare_with ◌>>=◌
  marked-is_oldest_cr m = rw is_oldest_cr-compare (ground arith)
