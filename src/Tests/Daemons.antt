-- ===== src/Tests/Daemons.antt =====
-- Runs of the daemon on a server that refuses the first update.
use kata_operator.Base.{◌≡◌, refl, ℕ, suc, [], ◌==◌, nat_eq, if◌then◌else◌}
use kata_operator.Api.Kata.{KataConfigStatus, zero_kata_config, over_installation}
use kata_operator.Api.Errors.{Result, ok, err, api}
use kata_operator.Effect.{done, ◌>>=◌, pure}
use kata_operator.Daemon.Host.{Host, Daemon, ask, rest}
use kata_operator.Daemon.Status.{install_started}
use kata_operator.Daemon.Actions.{update_kata_config_status, attempt, after_get, after_update}
use kata_operator.Daemon.Actions.Freshness.{Fresh, update_kata_config_status-Fresh}
use kata_operator.Daemon.Actions.Retries.{
  Applied, applied, change-IsQuiet, update_kata_config_status_once,
}
use kata_operator.Daemon.Install.{Action, update_or_fail, complete_install}
use kata_operator.Daemon.Install.Records.{completed, complete_install_records}
use kata_operator.Daemon.Host.{field, set_fields}
use kata_operator.Daemon.Uninstall.{run_uninstall, report_if_failed, report_uninstall_failure}
use kata_operator.Daemon.Uninstall.Records.{recorded, run_uninstall_records}

-- The state counts the updates that were sent; the first one is refused.
abbrev pub stubborn : Host ℕ
stubborn = record {
  get_kata_config = λ name kc w. (ok zero_kata_config, w);
  update_kata_config_status =
      λ kc w. if w == 0 then (err (api "conflict"), suc w) else (ok kc, suc w);
  hostname = λ w. (ok "node1", w);
  stat = λ path w. (ok tt, w);
  build_config = λ w. (ok tt, w);
  new_version_client = λ w. (ok tt, w);
  cluster_version = λ name w. (ok "4.6.12", w);
  new_version = λ text. ok (4, 6, 12);
  run = λ arguments w. (ok tt, w);
  chroot = λ path w. (ok tt, w);
  chdir = λ path w. (ok tt, w);
  payload_image_variable = [];
  default_policy = λ w. (ok tt, w);
  new_policy_context = λ policy w. (ok tt, w);
  parse_image_name = λ name. ok name;
  copy_image = λ context source destination w. (err (api "no such image"), w);
  create_runtime_bundle_layout = λ source target w. (ok tt, w);
  new_client = λ w. (ok tt, w);
  error_text = λ e. "failed";
  sleep = λ n w. w;
}

abbrev pub fresh_run : Daemon ℕ
fresh_run = record {
  world = 0;
  kata_config_pool_labels = [];
  crio_dropin_path = "";
  payload_tag = [];
  events = [];
}

abbrev start : KataConfigStatus → KataConfigStatus
start = over_installation install_started

update_kata_config_status_once_example :
    let run = update_kata_config_status stubborn "kc" (λ ks. pure (start ks)) fresh_run in
    (r : Result (Unit {0})) × (run.0 ≡ done r) × Applied r 0 (applied run.1.events)
update_kata_config_status_once_example =
    update_kata_config_status_once stubborn "kc" (λ ks. pure (start ks)) fresh_run
      (change-IsQuiet stubborn start)

retried :
    (update_kata_config_status stubborn "kc" (λ ks. pure (start ks)) fresh_run).0 ≡ done (ok tt)
unfolding update_kata_config_status attempt after_get after_update ask rest pure ◌>>=◌
retried = refl

update_kata_config_status-Fresh_example :
    Fresh "kc" start
      (update_kata_config_status stubborn "kc" (λ ks. pure (start ks)) fresh_run).1.events
update_kata_config_status-Fresh_example =
    update_kata_config_status-Fresh stubborn "kc" start fresh_run retried

-- an uninstaller that fails
abbrev broken : Action stubborn (Unit {0})
broken s = (done (err (api "no space left")), s)

uninstall_goes_on : (run_uninstall stubborn broken "kc" "node1" fresh_run).0 ≡ done tt
unfolding run_uninstall report_if_failed report_uninstall_failure update_or_fail
    update_kata_config_status attempt after_get after_update ask rest pure ◌>>=◌
uninstall_goes_on = refl

run_uninstall_records_example :
    Fresh "kc" (recorded "node1") (run_uninstall stubborn broken "kc" "node1" fresh_run).1.events
run_uninstall_records_example =
    run_uninstall_records stubborn broken "kc" "node1" fresh_run uninstall_goes_on

install_completes : (complete_install stubborn "kc" "node1" fresh_run).0 ≡ done tt
unfolding complete_install update_or_fail update_kata_config_status attempt after_get after_update
    field set_fields ask rest pure ◌>>=◌
install_completes = refl

complete_install_records_example :
    Fresh "kc" (completed "node1") (complete_install stubborn "kc" "node1" fresh_run).1.events
complete_install_records_example =
    complete_install_records stubborn "kc" "node1" fresh_run install_completes
