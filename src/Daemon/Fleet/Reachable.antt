-- ===== src/Daemon/Fleet/Reachable.antt =====
-- The fleets that the daemons reach together, and the controller's tests of their status.
use kata_operator.Base.{
  ◌≡◌, refl, ap, ◌∙◌, ℕ, ◌+◌, ◌^◌, ◌≤◌, ◌<◌, String, Bool, true, false, ◌&&◌, ◌||◌, ◌⊎◌, inl, inr,
  none, [], ◌∷◌, ◌==◌, nat_eq, string_eq, length, arith,
}
use kata_operator.Base.GoInt.{of_len}
use kata_operator.Api.Kata.{KataConfigStatus, KataInstallationStatus, zero_status}
use kata_operator.Controllers.Common.{contains}
use kata_operator.Effect.{◌>>=◌}
use kata_operator.Cluster.{Cluster}
use kata_operator.Controllers.Reconciler.{Reconciler, current}
use kata_operator.Controllers.OpenShift.Install.{process_kata_config_install_request}
use kata_operator.Controllers.OpenShift.Reconcile.{
  binaries_installed, needs_runtime_class, dispatch,
}
use kata_operator.Daemon.Fleet.{
  Phase, idle, running, ready, complete, failed, is_running, is_ready, is_complete, is_failed,
  is_busy, is_known, Ledger, no_slips, phase_of, number, Move, start, restart, install, finish,
  fail_unnamed, fail, Fleet, allowed, record_move, move, Reach, begun, later,
}
use kata_operator.Daemon.Fleet.Counting.{weight, known-set_phase, number-set_phase, number_mono}
use kata_operator.Daemon.Fleet.Phases.{
  phase-idle, phase-running, phase-ready, phase-failed, restarts,
}
use kata_operator.Daemon.Fleet.Summary.{
  Summarises, Summarises-start, Summarises-rerun, Summarises-revive, Summarises-fail_unnamed,
  Summarises-install, Summarises-finish, Summarises-fail,
}

known_running : (p : Phase) → is_running p ≡ true → is_known p ≡ true
known_running p h = ap is_known (phase-running p h)

known_ready : (p : Phase) → is_ready p ≡ true → is_known p ≡ true
known_ready p h = ap is_known (phase-ready p h)

known_failed : (p : Phase) → is_failed p ≡ true → is_known p ≡ true
known_failed p h = ap is_known (phase-failed p h)

known_restarts : (p : Phase) → (is_running p || is_failed p) ≡ true → is_known p ≡ true
known_restarts p h = elim (restarts p h) [ inl q ↦ ap is_known q | inr q ↦ ap is_known q ]

number-record_move :
    (limit : ℕ) (m : Move) (l : Ledger)
    → allowed limit m l ≡ true
    → number is_known l ≤ limit
    → number is_known (record_move m l) ≤ limit
number-record_move limit (start n) l h b =
    ground (arith, number-set_phase is_known n running l refl, h, b)
number-record_move limit (restart n) l h b =
    omega (arith, known-set_phase n running l refl (known_restarts (phase_of n l) h))
number-record_move limit (install n) l h b =
    omega (arith, known-set_phase n ready l refl (known_running (phase_of n l) h))
number-record_move limit (finish n) l h b =
    omega (arith, known-set_phase n complete l refl (known_ready (phase_of n l) h))
number-record_move limit (fail_unnamed n) l h b =
    omega (arith, known-set_phase n failed l refl (known_running (phase_of n l) h))
number-record_move limit (fail fn) l h b =
    omega (arith, known-set_phase fn.name failed l refl (known_running (phase_of fn.name l) h))

pub Reach-le-limit : {limit : ℕ} {f : Fleet} → Reach limit f → number is_known f.ledger ≤ limit
Reach-le-limit begun = unfold number in omega arith
Reach-le-limit {limit} (later {f} m h r) = number-record_move limit m f.ledger h (Reach-le-limit r)

busy_known : (p : Phase) → is_busy p ≡ true → is_known p ≡ true
busy_known idle h = cc
busy_known running h = refl
busy_known ready h = refl
busy_known complete h = cc
busy_known failed h = cc

known_complete : (p : Phase) → is_complete p ≡ true → is_known p ≡ true
known_complete idle h = cc
known_complete running h = refl
known_complete ready h = refl
known_complete complete h = cc
known_complete failed h = cc

-- Two phases that exclude each other share the known nodes.
pub number_disjoint :
    (test other : Phase → Bool) (l : Ledger)
    → ((p : Phase) → weight test p + weight other p ≤ weight is_known p)
    → number test l + number other l ≤ number is_known l
unfolding number
number_disjoint test other [] h = omega arith
number_disjoint test other ((n, p) ∷ l) h = ground (arith, number_disjoint test other l h, h p)

either_ready : (p : Phase) → weight is_ready p + weight is_failed p ≤ weight is_known p
either_ready p = ground arith

either_complete : (p : Phase) → weight is_complete p + weight is_failed p ≤ weight is_known p
either_complete p = ground arith

Summarises-restart :
    (n : String) (f : Fleet)
    → (phase_of n f.ledger ≡ running) ⊎ (phase_of n f.ledger ≡ failed)
    → Summarises f.ledger f.slips f.status
    → let g = move (restart n) f in Summarises g.ledger g.slips g.status
Summarises-restart n f (inl q) k = rw q (Summarises-rerun n f.ledger f.slips f.status k q)
Summarises-restart n f (inr q) k = rw q (Summarises-revive n f.ledger f.slips f.status k q)

Summarises-move :
    (limit : ℕ) (m : Move) (f : Fleet)
    → limit + f.slips.reruns < 2 ^ 63
    → allowed limit m f.ledger ≡ true
    → number is_known f.ledger ≤ limit
    → Summarises f.ledger f.slips f.status
    → let g = move m f in Summarises g.ledger g.slips g.status
Summarises-move limit (start n) f small h b k =
    Summarises-start n f.ledger f.slips f.status k
      (phase-idle (phase_of n f.ledger) (ground (arith, h)))
Summarises-move limit (restart n) f small h b k =
    Summarises-restart n f (restarts (phase_of n f.ledger) h) k
Summarises-move limit (install n) f small h b k =
    Summarises-install n f.ledger f.slips f.status k (phase-running (phase_of n f.ledger) h)
Summarises-move limit (finish n) f small h b k =
    Summarises-finish n f.ledger f.slips f.status k (phase-ready (phase_of n f.ledger) h)
      (omega (arith, number_mono is_busy is_known f.ledger busy_known))
Summarises-move limit (fail_unnamed n) f small h b k =
    Summarises-fail_unnamed n f.ledger f.slips f.status k (phase-running (phase_of n f.ledger) h)
      (omega (arith, number_mono is_busy is_known f.ledger busy_known))
Summarises-move limit (fail fn) f small h b k =
    Summarises-fail fn.name f.ledger f.slips f.status k fn.error
      (phase-running (phase_of fn.name f.ledger) h)
      (omega (arith, number_mono is_busy is_known f.ledger busy_known))

Summarises-at_start : Summarises [] no_slips zero_status.installation_status
unfolding number contains phase_of
Summarises-at_start = record {
  busy = refl;
  ready = record { distinct = tt; exact = λ n. refl; counted = refl };
  complete = record { distinct = tt; exact = λ n. refl; counted = refl };
  complete_count = refl;
  failed = refl;
  failed_count = refl;
}

-- Slips are not taken back.
reruns-move : (m : Move) (f : Fleet) → f.slips.reruns ≤ (move m f).slips.reruns
reruns-move (start n) f = omega arith
reruns-move (restart n) f = ground arith
reruns-move (install n) f = omega arith
reruns-move (finish n) f = omega arith
reruns-move (fail_unnamed n) f = omega arith
reruns-move (fail fn) f = omega arith

-- However the daemons of the nodes interleave, restarts and failures included, the installation
-- status is a summary of the phases of the nodes. The list of those with binaries and that of the
-- completed ones name exactly the nodes in these phases, each once, and the completed ones are
-- counted. The number in progress counts the nodes between the start and the end of their
-- installation, and beside them every installation that was begun anew before it had ended. The
-- list of failures has the nodes that failed and every failure before a new installation, but for
-- those reported without a name, and its count is its length. At most `limit` nodes run a daemon,
-- by the moves of Daemon/Fleet, and `limit` with the number of the installations begun anew before
-- their end is below 2^63.
pub Reach-Summarises :
    {limit : ℕ} {f : Fleet}
    → limit + f.slips.reruns < 2 ^ 63
    → Reach limit f
    → Summarises f.ledger f.slips f.status
Reach-Summarises small begun = Summarises-at_start
Reach-Summarises {limit} small (later {f} m h r) =
    let before : limit + f.slips.reruns < 2 ^ 63 = omega (arith, reruns-move m f, small) in
    Summarises-move limit m f before h (Reach-le-limit r) (Reach-Summarises before r)

-- The tests by which Reconcile chooses what to do next, in a status with the installation status of
-- a reachable fleet of `limit` nodes: the machine config is looked after exactly when all nodes have
-- their binaries and wait for the drop-in, and the runtime class is made exactly when all nodes are
-- complete and there is none. There is at least one node, at most `limit` nodes run a daemon, by the
-- moves of Daemon/Fleet, and `limit` with the number of the installations begun anew before their
-- end is below 2^63.
pub Reach-tests :
    {limit : ℕ} {f : Fleet} (s : KataConfigStatus)
    → 0 < limit
    → limit + f.slips.reruns < 2 ^ 63
    → Reach limit f
    → s.installation_status ≡ f.status
    → s.total_nodes_count ≡ limit
    → (binaries_installed s ≡ (number is_ready f.ledger == limit))
      × (needs_runtime_class s
          ≡ ((number is_complete f.ledger == limit) && (s.runtime_class == "")))
Reach-tests {limit} {f} s some small r e t =
    let k = Reach-Summarises small r in
    let bound = Reach-le-limit r in
    let ready_nodes : length s.installation_status.in_progress.binaries_installed_nodes_list
        ≡ number is_ready f.ledger =
      ap (λ (x : KataInstallationStatus). length x.in_progress.binaries_installed_nodes_list) e
      ∙ k.ready.counted in
    let complete_nodes : s.installation_status.completed.completed_nodes_count
        ≡ of_len (number is_complete f.ledger) =
      ap (λ (x : KataInstallationStatus). x.completed.completed_nodes_count) e ∙ k.complete_count in
    let few_ready = number_mono is_ready is_known f.ledger known_ready in
    let few_complete = number_mono is_complete is_known f.ledger known_complete in
    (ground arith, ground arith)

-- With a failed node neither of the two tests passes.
failed_tests :
    {limit : ℕ} {f : Fleet} (s : KataConfigStatus)
    → 0 < limit
    → limit + f.slips.reruns < 2 ^ 63
    → Reach limit f
    → s.installation_status ≡ f.status
    → s.total_nodes_count ≡ limit
    → 0 < number is_failed f.ledger
    → (binaries_installed s ≡ false) × (needs_runtime_class s ≡ false)
failed_tests {limit} {f} s some small r e t h =
    let (ready_test, complete_test) = Reach-tests s some small r e t in
    let bound = Reach-le-limit r in
    let rest_ready = number_disjoint is_ready is_failed f.ledger (λ p. either_ready p) in
    let rest_complete = number_disjoint is_complete is_failed f.ledger (λ p. either_complete p) in
    (
      ready_test ∙ ground (arith, rest_ready, bound, h),
      complete_test ∙ ground (arith, rest_complete, bound, h),
    )

-- While a node has failed, the handler that Reconcile chooses for the oldest resource is that of an
-- installation request, whatever the nodes do: it neither looks after the machine config nor makes
-- the runtime class. The resource is not being deleted, has the installation status of a reachable
-- fleet of `limit` nodes, one at least, and counts `limit` nodes; `limit` with the number of the
-- installations begun anew before their end is below 2^63.
pub failed_fleet-dispatch :
    {W : Type 0} (c : Cluster W) (s : Reconciler W) {limit : ℕ} {f : Fleet}
    → 0 < limit
    → limit + f.slips.reruns < 2 ^ 63
    → Reach limit f
    → s.kata_config.status.installation_status ≡ f.status
    → s.kata_config.status.total_nodes_count ≡ limit
    → 0 < number is_failed f.ledger
    → s.kata_config.metadata.deletion_timestamp ≡ none
    → dispatch c s ≡ process_kata_config_install_request c s
unfolding dispatch current ◌>>=◌
failed_fleet-dispatch c s least small r e t h alive =
    let (no_monitor, no_class) = failed_tests s.kata_config.status least small r e t h in
    rw (alive, no_monitor, no_class) refl
