-- ===== src/Controllers/OpenShift/Delete/Sync.antt =====
-- The waits of a deletion for the pools, on a cluster that cooperates.
use kata_operator.Base.{
  ◌≡◌, ap, ◌∙◌, ℕ, true, false, not, String, nat_eq, string_eq, ◌==◌, some, ltb, length, arith,
}
use kata_operator.Api.Kata.{KataConfig, LabelSelector}
use kata_operator.Api.Objects.{MachineConfigPool, MachineConfig}
use kata_operator.Api.Errors.{Result, ok, err}
use kata_operator.Effect.{pure, deref}
use kata_operator.Effect.Keeps.{Ensures, Ensures-bind, Ensures-from, Ensures-if, Ensures-pure}
use kata_operator.Cluster.{Cluster}
use kata_operator.Controllers.Reconciler.{Reconciler}
use kata_operator.Controllers.OpenShift.Delete.{
  not_nil, await_ready, uninstalled_nodes, remove_mc_if_found, sync_role_pool, sync_custom_pool,
  sync_parent_pool,
}
use kata_operator.Controllers.OpenShift.Cooperation.{
  Succeeds, IsAnswered, InStep, Cooperates, NotNil, Never, Calm-ask, Calm-current, Calm-sleep,
  Ensures-given, Ensures-ok, Ensures-skip,
}
use kata_operator.Controllers.OpenShift.Delete.Answers.{At}
use kata_operator.Controllers.OpenShift.Queries.Answered.{Calm-match_labels, Calm-new_mc_for_cr}

in_step : (a b : ℕ) → a ≡ b → not (a == b) ≡ false
in_step a b e = ground arith

module _ {W : Type 0} (c : Cluster W) (kc : KataConfig)
    (coop : Cooperates c kc.status.runtime_class) where
  abbrev Here : Reconciler W → Type 0
  Here = At c kc coop

  Here-await_ready :
      (mcp : MachineConfigPool) → InStep mcp → Ensures Here (await_ready mcp) (λ _. Here) Never
  unfolding await_ready
  Here-await_ready mcp e = Ensures-skip _ _ (in_step mcp.ready_machine_count mcp.machine_count e)

  Here-not_nil :
      {R : Type 0} (made : Result MachineConfig)
      → Ensures
          (λ s. Succeeds (λ _. Unit) made × Here s)
          (deref {R = R} (not_nil made))
          (λ _. Here)
          Never
  unfolding pure
  Here-not_nil (ok mc) = record { at = λ s (g, h). h }
  Here-not_nil (err e) = record { at = λ s (g, h). absurd g }

  -- a call whose answer is not looked at
  any_answer : {A : Type 0} (f : W → Result A × W) (w : W) → Unit {0}
  any_answer f w = tt

  Here-remove_mc_if_found :
      (answer : Result MachineConfig)
      → Ensures (λ s. IsAnswered answer × Here s) (remove_mc_if_found c answer) (λ _. Here) Never
  unfolding remove_mc_if_found pure
  Here-remove_mc_if_found (ok mc) = Ensures-given λ g.
      Ensures-bind _ _ (Calm-ask {G = λ _. Unit {0}} _ _ (λ w. tt))
        λ deleted. Ensures-given λ _. Calm-sleep c 60
  Here-remove_mc_if_found (err e) = Ensures-given λ g. rw g (record { at = λ s h. h })

  Here-sync_role_pool : (pool : String) → Ensures Here (sync_role_pool c pool) (λ _. Here) Never
  unfolding sync_role_pool
  Here-sync_role_pool pool =
      Ensures-bind _ _ (Calm-new_mc_for_cr c kc NotNil coop.pools coop.marshals pool) λ made.
        Ensures-bind _ _ (Here-not_nil made) λ mc.
          Ensures-bind _ _ (Calm-ask _ _ (coop.machine_configs _)) λ found.
            Ensures-bind _ _ (Here-remove_mc_if_found found) λ _.
              Ensures-bind _ _ (Calm-ask _ _ (coop.pools _)) λ answer.
                Ensures-bind _ _ (Ensures-ok _ answer)
                  λ mcp. Ensures-given λ e. Here-await_ready mcp e

  Here-sync_custom_pool :
      ltb 0 (length (uninstalled_nodes kc)) ≡ true
      → (pool : String) → Ensures Here (sync_custom_pool c pool) (λ _. Here) Never
  unfolding sync_custom_pool
  Here-sync_custom_pool some_node pool = Ensures-bind _ _ Calm-current λ now. Ensures-given λ q.
      Ensures-bind _ _ (Ensures-skip _ _ (begun now q)) λ _. Ensures-bind _ _ (Calm-sleep c 60) λ _.
        Ensures-bind _ _ (Calm-ask _ _ (coop.pools _)) λ answer.
          Ensures-bind _ _ (Ensures-ok _ answer) λ mcp. Ensures-given λ e.
            Ensures-bind _ _ (Here-await_ready mcp e) λ _.
              Ensures-bind _ _ (Calm-ask {G = λ _. Unit {0}} _ _ (λ w. tt)) λ deleted.
                Ensures-given λ _.
                  Ensures-bind _ _ (Calm-new_mc_for_cr c kc NotNil coop.pools coop.marshals pool)
                    λ made. Ensures-bind _ _ (Here-not_nil made) λ mc.
                      Ensures-bind _ _ (Calm-ask {G = λ _. Unit {0}} _ _ (λ w. tt))
                        λ mc_deleted. Ensures-from (λ s h. h.1) (Ensures-pure tt)
    where
      begun : (now : KataConfig) → now ≡ kc → not (ltb 0 (length (uninstalled_nodes now))) ≡ false
      begun now q =
          ap (λ (k : KataConfig). not (ltb 0 (length (uninstalled_nodes k)))) q ∙ ap not some_node

  pub At-sync_parent_pool :
      (selector : LabelSelector)
      → kc.spec.kata_config_pool_selector ≡ some selector
      → ltb 0 (length (uninstalled_nodes kc)) ≡ true
      → (pool : String) → Ensures Here (sync_parent_pool c pool) (λ _. Here) Never
  unfolding sync_parent_pool
  At-sync_parent_pool selector e some_node pool =
      Ensures-bind _ _ (Calm-match_labels kc NotNil selector e) λ labels.
        Ensures-if _ _ _ (λ _. Here-sync_role_pool pool) (λ _. Here-sync_custom_pool some_node pool)
