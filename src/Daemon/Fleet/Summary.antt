-- ===== src/Daemon/Fleet/Summary.antt =====
-- What it means for an installation status to be a summary of the phases of the nodes, and the
-- changes of the daemons on one that is.
use kata_operator.Base.{
  ◌≡◌, refl, ap, suc, ◌+◌, ◌^◌, ◌<◌, String, false, [], ◌∷◌, string_eq, length, length-append,
  arith,
}
use kata_operator.Base.GoInt.{of_len, dec}
use kata_operator.Api.Kata.{KataInstallationStatus}
use kata_operator.Daemon.Status.{
  install_started, install_ended, install_failed, binaries_installed, install_completed,
}
use kata_operator.Daemon.Fleet.{
  Phase, idle, running, ready, complete, failed, is_ready, is_complete, is_failed, is_busy, Ledger,
  Slips, phase_of, set_phase, number,
}
use kata_operator.Daemon.Fleet.Lists.{Lists, Lists-enter, Lists-leave, Lists-stay}
use kata_operator.Daemon.Fleet.Counting.{number-set_phase, weight-le-number}

-- What the status says is what the ledger holds, up to the slips.
pub record Summarises (l : Ledger) (x : Slips) (s : KataInstallationStatus) : Type 0 where
  pub busy : s.in_progress.in_progress_nodes_count ≡ of_len (number is_busy l + x.reruns)
  pub ready : Lists is_ready l s.in_progress.binaries_installed_nodes_list
  pub complete : Lists is_complete l s.completed.completed_nodes_list
  pub complete_count : s.completed.completed_nodes_count ≡ of_len (number is_complete l)
  pub failed : length s.failed.failed_nodes_list + x.unnamed ≡ number is_failed l + x.revived
  pub failed_count : s.failed.failed_nodes_count ≡ of_len (length s.failed.failed_nodes_list)

-- A move that leaves a node out of the lists, and the counts that go with it.
module _ (n : String) (p : Phase) (l : Ledger) (x : Slips) (s : KataInstallationStatus)
    (k : Summarises l x s) where
  Lists-ready :
      is_ready (phase_of n l) ≡ false
      → is_ready p ≡ false
      → Lists is_ready (set_phase n p l) s.in_progress.binaries_installed_nodes_list
  Lists-ready out still = Lists-stay is_ready refl n p l _ out still k.ready

  Lists-complete :
      is_complete (phase_of n l) ≡ false
      → is_complete p ≡ false
      → Lists is_complete (set_phase n p l) s.completed.completed_nodes_list
  Lists-complete out still = Lists-stay is_complete refl n p l _ out still k.complete

  number_complete :
      is_complete (phase_of n l) ≡ false
      → is_complete p ≡ false
      → s.completed.completed_nodes_count ≡ of_len (number is_complete (set_phase n p l))
  number_complete out still =
      ground (arith, k.complete_count, number-set_phase is_complete n p l refl, out, still)

module _ (n : String) (l : Ledger) (x : Slips) (s : KataInstallationStatus)
    (k : Summarises l x s) where
  pub Summarises-start :
      phase_of n l ≡ idle → Summarises (set_phase n running l) x (install_started s)
  unfolding install_started
  Summarises-start q = record {
    busy = ground (arith, k.busy, q, number-set_phase is_busy n running l refl);
    ready = Lists-ready n running l x s k (ap is_ready q) refl;
    complete = Lists-complete n running l x s k (ap is_complete q) refl;
    complete_count = number_complete n running l x s k (ap is_complete q) refl;
    failed = ground (arith, k.failed, q, number-set_phase is_failed n running l refl);
    failed_count = k.failed_count;
  }

  -- An installation that is begun anew before its end is counted twice.
  pub Summarises-rerun :
      phase_of n l ≡ running
      → Summarises (set_phase n running l) (record x { reruns = suc x.reruns }) (install_started s)
  unfolding install_started
  Summarises-rerun q = record {
    busy = ground (arith, k.busy, q, number-set_phase is_busy n running l refl);
    ready = Lists-ready n running l x s k (ap is_ready q) refl;
    complete = Lists-complete n running l x s k (ap is_complete q) refl;
    complete_count = number_complete n running l x s k (ap is_complete q) refl;
    failed = ground (arith, k.failed, q, number-set_phase is_failed n running l refl);
    failed_count = k.failed_count;
  }

  -- A node that installs anew after a failure stays among those that failed.
  pub Summarises-revive :
      phase_of n l ≡ failed
      → Summarises
          (set_phase n running l)
          (record x { revived = suc x.revived })
          (install_started s)
  unfolding install_started
  Summarises-revive q = record {
    busy = ground (arith, k.busy, q, number-set_phase is_busy n running l refl);
    ready = Lists-ready n running l x s k (ap is_ready q) refl;
    complete = Lists-complete n running l x s k (ap is_complete q) refl;
    complete_count = number_complete n running l x s k (ap is_complete q) refl;
    failed = ground (arith, k.failed, q, number-set_phase is_failed n running l refl);
    failed_count = k.failed_count;
  }

  pub Summarises-install :
      phase_of n l ≡ running → Summarises (set_phase n ready l) x (binaries_installed n s)
  unfolding binaries_installed
  Summarises-install q = record {
    busy = ground (arith, k.busy, q, number-set_phase is_busy n ready l refl);
    ready = Lists-enter is_ready refl n ready l _ (ap is_ready q) refl k.ready;
    complete = Lists-complete n ready l x s k (ap is_complete q) refl;
    complete_count = number_complete n ready l x s k (ap is_complete q) refl;
    failed = ground (arith, k.failed, q, number-set_phase is_failed n ready l refl);
    failed_count = k.failed_count;
  }

  pub Summarises-finish :
      phase_of n l ≡ ready
      → number is_busy l + x.reruns < 2 ^ 63
      → Summarises (set_phase n complete l) x (install_completed n s)
  unfolding install_completed
  Summarises-finish q small =
      let c = Lists-enter is_complete refl n complete l _ (ap is_complete q) refl k.complete in
      record {
        busy = ground (
          arith,
          k.busy,
          q,
          small,
          number-set_phase is_busy n complete l refl,
          weight-le-number is_busy n l refl,
        );
        ready = Lists-leave is_ready refl n complete l _ (ap is_ready q) refl k.ready;
        complete = c;
        complete_count = ap of_len c.counted;
        failed = ground (arith, k.failed, q, number-set_phase is_failed n complete l refl);
        failed_count = k.failed_count;
      }

  -- The end of an installation that failed, before the node is named.
  busy-fail :
      phase_of n l ≡ running
      → number is_busy l + x.reruns < 2 ^ 63
      → dec s.in_progress.in_progress_nodes_count
        ≡ of_len (number is_busy (set_phase n failed l) + x.reruns)
  busy-fail q small = ground (
    arith,
    k.busy,
    q,
    small,
    number-set_phase is_busy n failed l refl,
    weight-le-number is_busy n l refl,
  )

  pub Summarises-fail_unnamed :
      phase_of n l ≡ running
      → number is_busy l + x.reruns < 2 ^ 63
      → Summarises (set_phase n failed l) (record x { unnamed = suc x.unnamed }) (install_ended s)
  unfolding install_ended
  Summarises-fail_unnamed q small = record {
    busy = busy-fail q small;
    ready = Lists-ready n failed l x s k (ap is_ready q) refl;
    complete = Lists-complete n failed l x s k (ap is_complete q) refl;
    complete_count = number_complete n failed l x s k (ap is_complete q) refl;
    failed = ground (arith, k.failed, q, number-set_phase is_failed n failed l refl);
    failed_count = k.failed_count;
  }

  pub Summarises-fail :
      (error : String)
      → phase_of n l ≡ running
      → number is_busy l + x.reruns < 2 ^ 63
      → Summarises
          (set_phase n failed l)
          x
          (install_failed (record { name = n; error = error }) (install_ended s))
  unfolding install_failed install_ended
  Summarises-fail error q small = record {
    busy = busy-fail q small;
    ready = Lists-ready n failed l x s k (ap is_ready q) refl;
    complete = Lists-complete n failed l x s k (ap is_complete q) refl;
    complete_count = number_complete n failed l x s k (ap is_complete q) refl;
    failed = ground (
      arith,
      k.failed,
      q,
      number-set_phase is_failed n failed l refl,
      length-append s.failed.failed_nodes_list (record { name = n; error = error } ∷ []),
    );
    failed_count = refl;
  }
