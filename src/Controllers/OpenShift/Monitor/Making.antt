-- ===== src/Controllers/OpenShift/Monitor/Making.antt =====
-- The machine config of monitorKataConfigInstallation: how it is made, and that it is there.
use kata_operator.Base.{
  ◌≡◌, refl, sym, ap, ◌∙◌, String, Bool, true, false, Option, none, some, inl, inr, nat_eq,
  string_eq, List, ◌∷◌, Bool-cases, if◌then◌else◌,
}
use kata_operator.Api.Kata.{KataConfig, LabelSelector}
use kata_operator.Api.Objects.{MachineConfigPool, MachineConfig}
use kata_operator.Api.Errors.{Error, Result, ok, err, is_not_found}
use kata_operator.Effect.{result, called, ◌>>=◌, pure, or_return}
use kata_operator.Effect.Keeps.{
  After, After-map, Ensures, Ensures-bind, Ensures-called, Ensures-if, Ensures-return,
}
use kata_operator.Cluster.{Cluster}
use kata_operator.Cluster.Calls.{
  Call, got_machine_config_pool, got_machine_config, created_machine_config,
}
use kata_operator.Controllers.Reconciler.{
  Reply, reply_error, Reconciler, ask, current, match_labels,
}
use kata_operator.Controllers.Reconciler.Traced.{Is, Is-call}
use kata_operator.Controllers.OpenShift.Objects.{kata_oc, machine_config_for, ignition_config}
use kata_operator.Controllers.OpenShift.Queries.{found as found_pool, new_mc_for_cr}
use kata_operator.Controllers.OpenShift.Monitor.Evidence.{Placed}
use kata_operator.Controllers.OpenShift.Monitor.{create_mc_if_missing}
use kata_operator.Controllers.OpenShift.Monitor.Waiting.{Ended}

-- what newMCForCR has made, from the state before
abbrev Made :
    {W : Type 0} → Cluster W → String → Reconciler W → Result MachineConfig → Reconciler W → Type 0
Made c machine_pool s (ok mc) t =
    (answer : Result MachineConfigPool) × (exists : Bool) × (found_pool answer ≡ ok exists)
    × (raw : String) × (c.marshal (ignition_config s.kata_config.status.runtime_class) ≡ ok raw)
    × (mc ≡ machine_config_for s.kata_config (if exists then kata_oc else machine_pool) raw)
    × (t.kata_config ≡ s.kata_config)
    × (t.calls ≡ got_machine_config_pool kata_oc answer ∷ s.calls)
Made c machine_pool s (err e) t = Unit

module _ {W : Type 0} (c : Cluster W) (machine_pool : String) (s : Reconciler W) where
  abbrev IsMade : Type 0
  IsMade =
      let run = new_mc_for_cr c machine_pool s in
      After (Made c machine_pool s) Ended (result {R = Reply} run.0) run.1

  abbrev Asked : Result MachineConfigPool → Type 0
  Asked a = (c.get_machine_config_pool kata_oc s.world).0 ≡ a

  abbrev Raw : Result String → Type 0
  Raw b = c.marshal (ignition_config s.kata_config.status.runtime_class) ≡ b

  made_missing :
      (x : Error) (selector : Option LabelSelector) (b : Result String)
      → is_not_found x ≡ true
      → Asked (err x)
      → s.kata_config.spec.kata_config_pool_selector ≡ selector
      → Raw b
      → IsMade
  unfolding new_mc_for_cr ◌>>=◌ ask current match_labels
  made_missing x none b out e o q = rw (e, out, o) tt
  made_missing x (some selector) (ok raw) out e o q =
      rw (e, out, o, q) (err x, false, rw out refl, raw, q, refl, refl, refl)
  made_missing x (some selector) (err y) out e o q = rw (e, out, o, q) tt

  made : (a : Result MachineConfigPool) (b : Result String) → Asked a → Raw b → IsMade
  unfolding new_mc_for_cr ◌>>=◌ ask current
  made (ok mcp) (ok raw) e q = rw (e, q) (ok mcp, true, refl, raw, q, refl, refl, refl)
  made (ok mcp) (err x) e q = rw (e, q) tt
  made (err x) b e q = elim (Bool-cases (is_not_found x)) [
    | inl out ↦ made_missing x s.kata_config.spec.kata_config_pool_selector b out e refl q
    | inr other ↦ rw (e, other) tt
  ]

module _ {W : Type 0} (c : Cluster W) (kc : KataConfig) where
  -- the machine config is there when the request ends
  pub Ensures-create_mc_if_missing :
      (l : List Call) (mc : MachineConfig) (answer : Result MachineConfig)
      → Ensures
          (Is kc (got_machine_config mc.metadata.name answer ∷ l))
          (create_mc_if_missing c mc answer)
          (λ _ s. Placed mc l s.calls)
          Ended
  unfolding create_mc_if_missing pure
  Ensures-create_mc_if_missing l mc (ok found) = record { at = λ s h. inl (found, h.trace) }
  Ensures-create_mc_if_missing l mc (err e) =
      Ensures-if (is_not_found e) _ _
        (λ out. Ensures-bind _ _ (Is-call _ _) λ created.
          Ensures-bind
            {Q = λ _ s.
              Is kc
                (created_machine_config mc (ok tt)
                  ∷ got_machine_config mc.metadata.name (err e)
                  ∷ l)
                s}
            _ _ (created_or_out created) λ _. record { at = λ s h. inr (e, out, h.trace) })
        (λ _. Ensures-return _ (λ s p. tt))
    where
      created_or_out :
          (created : Result (Unit {0}))
          → Ensures {S = Reconciler W}
              (Is kc (
                created_machine_config mc created
                ∷ got_machine_config mc.metadata.name (err e)
                ∷ l))
              (or_return reply_error created)
              (λ _. Is kc (
                created_machine_config mc (ok tt)
                ∷ got_machine_config mc.metadata.name (err e)
                ∷ l))
              Ended
      created_or_out (ok tt) = record { at = λ s h. h }
      created_or_out (err x) = Ensures-return _ (λ s p. tt)

  -- how the machine config is made
  abbrev pub Origin : String → MachineConfig → Type 0
  Origin machine_pool mc =
      (answer : Result MachineConfigPool) × (exists : Bool) × (found_pool answer ≡ ok exists)
      × (raw : String) × (c.marshal (ignition_config kc.status.runtime_class) ≡ ok raw)
      × (mc ≡ machine_config_for kc (if exists then kata_oc else machine_pool) raw)

  abbrev pub Configured :
      (machine_pool : String)
      → List Call
      → (mc : MachineConfig) → Origin machine_pool mc
      → Reconciler W
      → Type 0
  Configured machine_pool l mc origin s = Is kc (got_machine_config_pool kata_oc origin.0 ∷ l) s

  abbrev pub Config : String → List Call → MachineConfig → Reconciler W → Type 0
  Config machine_pool l mc s =
      (origin : Origin machine_pool mc) × Configured machine_pool l mc origin s

  abbrev ConfigOrOut : String → List Call → Result MachineConfig → Reconciler W → Type 0
  ConfigOrOut machine_pool l (ok mc) s = Config machine_pool l mc s
  ConfigOrOut machine_pool l (err e) s = Unit

  pub Ensures-new_mc :
      (machine_pool : String) (l : List Call)
      → Ensures
          (Is kc l)
          (called {R = Reply} (new_mc_for_cr c machine_pool))
          (ConfigOrOut machine_pool l)
          Ended
  Ensures-new_mc machine_pool l = Ensures-called _ λ s h.
      After-map (Made c machine_pool s) (ConfigOrOut machine_pool l) Ended
        (result {R = Reply} (new_mc_for_cr c machine_pool s).0) (new_mc_for_cr c machine_pool s).1
        (λ a t. known s h a t) (made c machine_pool s _ _ refl refl)
    where
      known :
          (s : Reconciler W)
          → Is kc l s
          → (a : Result MachineConfig) (t : Reconciler W) → Made c machine_pool s a t
          → ConfigOrOut machine_pool l a t
      known s h (err e) t k = tt
      known s h (ok mc) t (answer, exists, e, raw, m, own, same, calls) = (
        (
          answer,
          exists,
          e,
          raw,
          ap (λ (k : KataConfig). c.marshal (ignition_config k.status.runtime_class))
                (sym h.resource)
              ∙ m,
          own
              ∙ ap (λ k. machine_config_for k (if exists then kata_oc else machine_pool) raw)
                  h.resource,
        ),
        record {
          resource = same ∙ h.resource;
          trace = calls ∙ ap (λ x. got_machine_config_pool kata_oc answer ∷ x) h.trace;
        },
      )

  pub Ensures-made_mc :
      (machine_pool : String) (l : List Call) (made_mc : Result MachineConfig)
      → Ensures {R = Reply}
          (ConfigOrOut machine_pool l made_mc)
          (or_return reply_error made_mc)
          (Config machine_pool l)
          Ended
  unfolding pure
  Ensures-made_mc machine_pool l (ok mc) = record { at = λ s h. h }
  Ensures-made_mc machine_pool l (err e) = Ensures-return _ (λ s h. tt)
