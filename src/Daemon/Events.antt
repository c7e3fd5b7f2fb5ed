-- ===== src/Daemon/Events.antt =====
-- The record of what the daemon asks, each with its answer, newest first. The program does not
-- read it.
use kata_operator.Base.{ℕ, String, List}
use kata_operator.Base.Text.{Bytes}
use kata_operator.Api.Kata.{KataConfig}
use kata_operator.Api.Errors.{Result}

pub data Event : Type 0 where
  got_kata_config : String → Result KataConfig → Event
  updated_status : KataConfig → Result KataConfig → Event
  asked_hostname : Result String → Event
  checked_file : String → Result (Unit {0}) → Event
  built_config : Result (Unit {0}) → Event
  made_version_client : Result (Unit {0}) → Event
  got_cluster_version : String → Result String → Event
  ran : List String → Result (Unit {0}) → Event
  changed_root : String → Result (Unit {0}) → Event
  changed_directory : String → Result (Unit {0}) → Event
  made_policy : Result (Unit {0}) → Event
  made_policy_context : Result (Unit {0}) → Event
  copied_image : Bytes → Bytes → Result (Unit {0}) → Event  -- source, destination
  made_bundle : String → String → Result (Unit {0}) → Event
  made_client : Result (Unit {0}) → Event
  slept : ℕ → Event
