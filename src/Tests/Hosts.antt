-- ===== src/Tests/Hosts.antt =====
-- Runs of the daemon's commands on a node, its version text, and a server that counts its updates.
use kata_operator.Base.{
  ◌≡◌, refl, false, ℕ, zero, suc, String, List, [], ◌∷◌, ◌==◌, nat_eq, if◌then◌else◌, arith,
}
use kata_operator.Base.Text.{codes}
use kata_operator.Api.Kata.{
  KataConfig, KataConfigStatus, over_status, over_installation, zero_kata_config, zero_meta,
  zero_status,
}
use kata_operator.Api.Errors.{ok, err, api}
use kata_operator.Effect.{done, ◌>>=◌, pure, return, abort, called}
use kata_operator.Daemon.Events.{Event, ran, updated_status}
use kata_operator.Daemon.Host.{Host, ask, rest, field}
use kata_operator.Daemon.Trace.{Next, Once}
use kata_operator.Daemon.Install.{run_install, update_or_fail}
use kata_operator.Daemon.Install.Announced.{Announces, run_install-Announces}
use kata_operator.Daemon.Status.{install_started}
use kata_operator.Daemon.Actions.{update_kata_config_status, attempt, after_get, after_update}
use kata_operator.Daemon.Actions.Recovery.{Costs, Recovers, update_kata_config_status_recovers}
use kata_operator.Daemon.Rpm.{
  install_rpms, uninstall_rpms, uninstall_packages, do_cmd, or_fatal, cleanup_host, enter_host,
  unpack_payload, install_payload, payload_image,
}
use kata_operator.Daemon.Rpm.Order.{Entered, Installed, install_rpms_lem, uninstall_rpms_lem}
use kata_operator.Controllers.Common.{install_operation, operation_text}
use kata_operator.Daemon.Command.{main}
use kata_operator.Daemon.Command.Operations.{performed, main-operation_text}
use kata_operator.Daemon.Version.{version_text}
use kata_operator.Daemon.Version.RoundTrip.{read_numbers, read_numbers-version_text}
use kata_operator.Tests.Daemons.{stubborn, fresh_run}

-- The image was not copied, and the installation succeeds nevertheless.
installed_without_image : (install_rpms stubborn fresh_run).0 ≡ done (ok tt)
unfolding install_rpms do_cmd enter_host or_fatal unpack_payload install_payload cleanup_host
    payload_image codes ask field pure return abort called ◌>>=◌
installed_without_image = refl

install_rpms_lem_example :
    Once (Installed stubborn (λ l. l ≡ [])) (install_rpms stubborn fresh_run).1.events
install_rpms_lem_example = install_rpms_lem stubborn fresh_run installed_without_image

announced_without_image :
    (run_install stubborn (install_rpms stubborn) "kc" "node1" fresh_run).0 ≡ done tt
unfolding run_install update_or_fail update_kata_config_status attempt after_get after_update
    install_rpms do_cmd enter_host or_fatal unpack_payload install_payload cleanup_host
    payload_image codes ask field rest pure return abort called ◌>>=◌
announced_without_image = refl

run_install-Announces_example :
    Announces stubborn "kc" "node1"
      (run_install stubborn (install_rpms stubborn) "kc" "node1" fresh_run).1.events
run_install-Announces_example =
    run_install-Announces stubborn "kc" "node1" fresh_run announced_without_image

uninstalled : (uninstall_rpms stubborn fresh_run).0 ≡ done (ok tt)
unfolding uninstall_rpms do_cmd enter_host or_fatal cleanup_host ask pure return abort called ◌>>=◌
uninstalled = refl

uninstall_rpms_lem_example :
    Next
      (ran uninstall_packages (ok tt))
      (Once (Entered (λ l. l ≡ [])))
      (uninstall_rpms stubborn fresh_run).1.events
uninstall_rpms_lem_example = uninstall_rpms_lem stubborn fresh_run uninstalled

main-operation_text_example :
    main stubborn (operation_text install_operation) "kc" fresh_run
    ≡ performed stubborn install_operation "kc" fresh_run
main-operation_text_example = main-operation_text stubborn install_operation "kc" fresh_run refl

read_numbers-version_text_example : read_numbers (version_text (4, 6, 12)) 0 ≡ 4 ∷ 6 ∷ 12 ∷ []
read_numbers-version_text_example =
    read_numbers-version_text 4 6 12 (omega arith) (omega arith) (omega arith)

abbrev start : KataConfigStatus → KataConfigStatus
start = over_installation install_started

abbrev count_of : KataConfig → ℕ
count_of kc = kc.status.installation_status.in_progress.in_progress_nodes_count

abbrev with_count : ℕ → KataConfig → KataConfig
with_count n = over_status (
    over_installation
      (λ i. record i { in_progress = record i.in_progress { in_progress_nodes_count = n } }))

-- A number that is 0 is left out by the server, and that of the object decoded into stays.
abbrev merged : KataConfig → KataConfig → KataConfig
merged kc into = with_count (if count_of kc == 0 then count_of into else count_of kc) kc

-- After the first read another client names the runtime class, by which the resourceVersion grows.
abbrev named_class : ℕ → KataConfigStatus
named_class zero = zero_status
named_class (suc n) = record zero_status { runtime_class = "kata" }

abbrev stored : ℕ → String → KataConfig
stored w name = record zero_kata_config {
  metadata = record zero_meta { name = name; resource_version = w };
  status = named_class w;
}

abbrev crossed : Host ℕ
crossed = record stubborn {
  get_kata_config = λ name into w. (ok (merged (stored w name) into), if w == 0 then suc w else w);
  update_kata_config_status = λ kc w. (
    if kc.metadata.resource_version == w then ok kc else err (api "conflict"),
    if kc.metadata.resource_version == w then suc w else w,
  );
}

abbrev last_sent : List Event → ℕ
last_sent (updated_status kc answer ∷ events) = count_of kc
last_sent _ = 0

-- The server holds the number 0 all the time, and the one start of an installation is sent as 2: the
-- refused attempt is counted, too.
counted_twice :
    last_sent (update_kata_config_status crossed "kc" (λ ks. pure (start ks)) fresh_run).1.events
    ≡ 2
unfolding update_kata_config_status attempt after_get after_update ask rest pure install_started
    ◌>>=◌
counted_twice = refl

not_zero : (w : ℕ) → (suc w == 0) ≡ false
not_zero w = ground arith

-- the one conflict of the stubborn server is the fault that is to come
stubborn_updates :
    (kc : KataConfig) (w : ℕ)
    → let (a, w') = stubborn.update_kata_config_status kc w in
      Costs a (if w == 0 then 1 else 0) (if w' == 0 then 1 else 0)
stubborn_updates kc zero = omega arith
stubborn_updates kc (suc w) = rw (not_zero w, not_zero (suc w)) (omega arith)

abbrev stubborn_recovers : Recovers stubborn
stubborn_recovers = record {
  faults = λ w. if w == 0 then 1 else 0;
  gets = λ name into w. omega arith;
  updates = stubborn_updates;
  sleeps = λ n w. omega arith;
}

update_kata_config_status_recovers_example :
    (update_kata_config_status stubborn "kc" (λ ks. pure (start ks)) fresh_run).0 ≡ done (ok tt)
update_kata_config_status_recovers_example =
    update_kata_config_status_recovers stubborn stubborn_recovers "kc" start fresh_run (omega arith)
