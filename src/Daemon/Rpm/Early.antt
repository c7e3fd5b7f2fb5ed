-- ===== src/Daemon/Rpm/Early.antt =====
-- The early returns of installRPMs are errors.
use kata_operator.Api.Errors.{Result, ok, err}
use kata_operator.Effect.Early.{FailsEarly, FailsEarly-pure, FailsEarly-abort, early_rules}
use kata_operator.Daemon.Events.{Event}
use kata_operator.Daemon.Host.{Host, Daemon, ask, field}
use kata_operator.Daemon.Rpm.{
  do_cmd, or_fatal, enter_host, unpack_payload, install_payload, install_rpms,
}

module _ {W R A : Type 0} where
  FailsEarly-ask :
      (f : W → Result A × W) (note : Result A → Event) → FailsEarly (ask {R = Result R} f note)
  unfolding ask
  FailsEarly-ask f note = record { fails = λ s. tt }

  FailsEarly-field : (f : Daemon W → A) → FailsEarly (field {R = Result R} f)
  unfolding field
  FailsEarly-field f = record { fails = λ s. tt }

FailsEarly-or_fatal :
    {W R : Type 0} (x : Result (Unit {0})) → FailsEarly (or_fatal {W = W} {R = Result R} x)
unfolding or_fatal
FailsEarly-or_fatal (ok _) = FailsEarly-pure tt
FailsEarly-or_fatal (err _) = FailsEarly-abort

ruleset command_rules = (early_rules, FailsEarly-ask, FailsEarly-field, FailsEarly-or_fatal)

module _ {W : Type 0} (h : Host W) where
  FailsEarly-enter_host : {R : Type 0} → FailsEarly (enter_host h {R = Result R})
  unfolding enter_host
  FailsEarly-enter_host = search command_rules depth 20

  FailsEarly-unpack_payload : FailsEarly (unpack_payload h)
  unfolding unpack_payload
  FailsEarly-unpack_payload = search command_rules depth 20

  FailsEarly-install_payload : FailsEarly (install_payload h)
  unfolding install_payload do_cmd
  FailsEarly-install_payload = search command_rules depth 20

  pub FailsEarly-install_rpms : FailsEarly (install_rpms h)
  unfolding install_rpms do_cmd
  FailsEarly-install_rpms =
      search
        (
          command_rules, FailsEarly-enter_host, FailsEarly-unpack_payload,
          FailsEarly-install_payload,
        )
        depth 20
