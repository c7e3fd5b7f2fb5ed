-- ===== src/Daemon/Fleet/Completion.antt =====
-- Reconcile, where the fleet has come to the end of the installation.
use mathlib.Core.Path.{subst}
use kata_operator.Base.{
  sym, ◌≡◌, ◌∙◌, ℕ, ◌+◌, ◌^◌, ◌<◌, ◌≤◌, String, true, false, none, string_eq, nat_eq, arith, eq_iff,
}
use kata_operator.Api.Kata.{KataConfig}
use kata_operator.Effect.{done}
use kata_operator.Effect.Keeps.{Ensures, Ensures-bind}
use kata_operator.Cluster.{Cluster}
use kata_operator.Cluster.Calls.{Call}
use kata_operator.Controllers.Reconciler.Traced.{Is}
use kata_operator.Effect.Keeps.{Ensures-where}
use kata_operator.Base.{List}
use kata_operator.Effect.Keeps.{Ensures-map}
use kata_operator.Controllers.Common.{install_operation}
use kata_operator.Controllers.Reconciler.{reply_done, Reconciler}
use kata_operator.Controllers.OpenShift.Cooperation.{
  Has, Never, Calm-current, Ensures-given, Ensures-ok, finished,
}
use kata_operator.Controllers.OpenShift.Runtime.Named.{
  Supports, Named, Closed, Named-set_runtime_class,
}
use kata_operator.Controllers.OpenShift.Queries.Removal.{Gone, HasGone-delete_kata_daemonset}
use kata_operator.Controllers.OpenShift.Reconcile.Alone.{Ensures-reconcile}
use kata_operator.Controllers.OpenShift.Reconcile.{
  binaries_installed, needs_runtime_class, dispatch, reconcile,
}
use kata_operator.Daemon.Fleet.{is_ready, is_complete, is_known, Phase, number, Fleet, Reach}
use kata_operator.Daemon.Fleet.Counting.{weight}
use kata_operator.Daemon.Fleet.Reachable.{Reach-tests, Reach-le-limit, number_disjoint}

-- the end of an installation, by the tests of Reconcile
pub record Awaits (kc : KataConfig) : Type 0 where
  pub alive : kc.metadata.deletion_timestamp ≡ none
  pub placed : binaries_installed kc.status ≡ false
  pub due : needs_runtime_class kc.status ≡ true
  pub unnamed : kc.status.runtime_class ≡ ""

-- The calls at the end of an installation: the daemon set of the installation goes, then the runtime
-- class is there, then the status that names it is saved.
abbrev pub Ending : {W : Type 0} → Cluster W → KataConfig → List Call → Type 0
Ending c kc calls =
    (before : List Call) × (gone : List Call) × Gone install_operation before gone
    × Closed c kc gone calls

module _ {W : Type 0} (c : Cluster W) (name : String) (kc : KataConfig)
    (k : Supports c name kc) where
  -- the end of the installation is handled, and no other request
  Named-dispatch :
      Awaits kc
      → Ensures
          (Has kc)
          (dispatch c)
          (λ reply s. (reply ≡ reply_done) × (Named s × Ending c kc s.calls))
          Never
  unfolding dispatch
  Named-dispatch a = Ensures-bind _ _ Calm-current λ now. Ensures-given λ q.
      let b : Awaits now = subst Awaits (sym q) a in
      rw (b.alive, b.placed, b.due)
        (Ensures-bind _ _
          (HasGone-delete_kata_daemonset c install_operation k.daemon_sets k.deletes kc)
          λ deleted. Ensures-bind _ _ (Ensures-ok {Q = λ _. Unit {0}} _ deleted) λ _.
            Ensures-given λ _. Ensures-where {P = λ gone s. Is kc gone.1 s} λ gone.
              Ensures-map (λ reply s h. (h.0, (h.1.0, (gone.0, gone.1, gone.2, h.1.1))))
                (Named-set_runtime_class c name kc k gone.1 a.unnamed))

-- A node waits for the drop-in or is complete, not both.
either_end : (p : Phase) → weight is_ready p + weight is_complete p ≤ weight is_known p
either_end p = ground arith

Awaits-complete :
    {limit : ℕ} {f : Fleet} (kc : KataConfig)
    → 0 < limit
    → limit + f.slips.reruns < 2 ^ 63
    → Reach limit f
    → kc.status.installation_status ≡ f.status
    → kc.status.total_nodes_count ≡ limit
    → number is_complete f.ledger ≡ limit
    → kc.status.runtime_class ≡ ""
    → kc.metadata.deletion_timestamp ≡ none
    → Awaits kc
Awaits-complete {limit} {f} kc least small r e t full unnamed alive =
    let (ready_test, complete_test) = Reach-tests kc.status least small r e t in
    let bound = Reach-le-limit r in
    let shared = number_disjoint is_ready is_complete f.ledger (λ p. either_end p) in
    record {
      alive = alive;
      placed = ready_test ∙ ground (arith, shared, bound, full, least);
      due = complete_test ∙ ground (arith, full, unnamed, eq_iff kc.status.runtime_class "");
      unnamed = unnamed;
    }

-- Once all nodes are complete, one request brings the installation to its end: where the daemons
-- have reached a fleet with `limit` complete nodes, Reconcile answers without an error or a new
-- request, and its last calls are, in this order: the daemon set of the installation was not there or
-- is deleted; the runtime class "kata" is found by its name, or not found and created for the
-- resource; and the server accepts an update of the status that names this class. The resource that
-- the reconciler holds then names it, too. Before, the resource holds the installation status of the
-- fleet, counts `limit` nodes, one at least, names no runtime class yet, is not being deleted and is
-- the only one of its kind; `limit` with the number of the installations begun anew before their end
-- is below 2^63. The cluster reads this resource by its name; a daemon set and a runtime class are
-- there or not found, and can be deleted and created; the owner of the class can be set; and an update
-- of the status is answered with the runtime class that was sent.
pub complete_fleet-reconcile :
    {W : Type 0} (c : Cluster W) (s : Reconciler W) (name : String) (kc : KataConfig) {limit : ℕ}
    {f : Fleet}
    → Supports c name kc
    → 0 < limit
    → limit + f.slips.reruns < 2 ^ 63
    → Reach limit f
    → kc.status.installation_status ≡ f.status
    → kc.status.total_nodes_count ≡ limit
    → number is_complete f.ledger ≡ limit
    → kc.status.runtime_class ≡ ""
    → kc.metadata.deletion_timestamp ≡ none
    → let run = reconcile c name s in
      (run.0 ≡ done reply_done)
      × (run.1.kata_config.status.runtime_class ≡ "kata")
      × Ending c kc run.1.calls
complete_fleet-reconcile c s name kc k least small r e t full unnamed alive =
    let run = reconcile c name s in
    let ended =
      finished _ run.0 run.1 (λ reply h. h.0)
        ((Ensures-reconcile c name kc k.gets k.lists (
            Named-dispatch c name kc k
              (Awaits-complete kc least small r e t full unnamed alive))).at
          s tt) in
    let closed = ended.1.1 in (ended.0, closed.0, closed.1)
