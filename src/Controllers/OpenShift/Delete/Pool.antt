-- ===== src/Controllers/OpenShift/Delete/Pool.antt =====
-- The waits of the deletion for the machine config pools.
use kata_operator.Base.{◌≡◌, refl, ℕ, String, false, not, List, ◌==◌, nat_eq, string_eq}
use kata_operator.Api.Objects.{MachineConfigPool}
use kata_operator.Api.Errors.{Error, Result, ok}
use kata_operator.Effect.{Exec, return, or_return}
use kata_operator.Cluster.{Cluster}
use kata_operator.Controllers.Reconciler.{Reply, Reconciler}
use mathlib.Core.List.{Memᴰ}
use mathlib.Core.Path.{subst}
use kata_operator.Base.{arith}
use kata_operator.Cluster.Calls.{Call, got_machine_config_pool}
use kata_operator.Effect.Keeps.{
  Keeps, Ensures, Ensures-bind, Ensures-kept, Ensures-if, Ensures-when, Ensures-or_return,
  Keeps-deref, Keeps-called, Keeps-pure, keeps_rules,
}
use kata_operator.Controllers.Reconciler.Keeps.{
  OnCalls, IsStable, Keeps-ask, Ensures-ask, Keeps-match_labels, Keeps-current, Keeps-sleep,
}
use kata_operator.Controllers.OpenShift.Delete.{
  not_nil, await_ready, sync_role_pool, sync_custom_pool, sync_parent_pool,
}
use kata_operator.Controllers.OpenShift.Delete.Evidence.{PoolReady, PoolReady-IsStable, ×-IsStable}
use kata_operator.Controllers.OpenShift.Delete.Trace.{Keeps-new_mc_for_cr, Keeps-remove_mc_if_found}

in_step : (a b : ℕ) → not (a == b) ≡ false → a ≡ b
in_step a b h = ground arith

module _ {W : Type 0} (c : Cluster W) {P : List Call → Type 0} (p : IsStable P) where
  abbrev Before : Reconciler W → Type 0
  Before = OnCalls P

  abbrev Read : String → MachineConfigPool → Reconciler W → Type 0
  Read pool mcp = OnCalls (λ l. P l × Memᴰ (got_machine_config_pool pool (ok mcp)) l)

  abbrev WithPool : Reconciler W → Type 0
  WithPool = OnCalls (λ l. P l × PoolReady l)

  pool_stable : IsStable (λ l. P l × PoolReady l)
  pool_stable = ×-IsStable p PoolReady-IsStable

  -- `await_ready` goes on at a pool in step
  Ensures-await_ready :
      (pool : String) (mcp : MachineConfigPool)
      → Ensures (Read pool mcp) (await_ready {W = W} mcp) (λ _. WithPool) Before
  unfolding await_ready return
  Ensures-await_ready pool mcp =
      Ensures-when (not (mcp.ready_machine_count == mcp.machine_count)) _
        (λ _. record { at = λ s h. record { made = h.made.0 } })
        (λ e s h. record { made = (h.made.0, (pool, mcp, h.made.1, in_step _ _ e)) })

  -- what a pool that was read leaves behind
  Ensures-answer :
      (pool : String) (e : Error → Reply) (answer : Result MachineConfigPool)
      → Ensures
          (OnCalls (λ l. P l × Memᴰ (got_machine_config_pool pool answer) l))
          (or_return e answer)
          (Read pool)
          Before
  Ensures-answer pool e answer =
      Ensures-or_return e answer
        (λ mcp s q h. record {
          made = (h.made.0, subst (λ a. Memᴰ (got_machine_config_pool pool a) s.calls) q h.made.1);
        })
        (λ s h. record { made = h.made.0 })

  -- steps that only keep what is known, before and after a pool was in step
  kept :
      {A : Type 0} {m : Exec (Reconciler W) Reply A}
      → Keeps Before m
      → Ensures Before m (λ _. Before) Before
  kept k = Ensures-kept _ (λ s h. h) k

  kept_on :
      {A : Type 0} {m : Exec (Reconciler W) Reply A}
      → Keeps WithPool m
      → Ensures WithPool m (λ _. WithPool) Before
  kept_on k = Ensures-kept _ (λ s h. record { made = h.made.0 }) k

  Ensures-sync_role_pool :
      (pool : String) → Ensures Before (sync_role_pool c pool) (λ _. WithPool) Before
  unfolding sync_role_pool
  Ensures-sync_role_pool pool =
      Ensures-bind _ _ (kept (Keeps-called _ (Keeps-new_mc_for_cr c p pool))) λ made.
        Ensures-bind _ _ (kept (Keeps-deref (not_nil made))) λ mc.
          Ensures-bind _ _ (kept (Keeps-ask _ _ p (λ a. refl))) λ found.
            Ensures-bind _ _ (kept (Keeps-remove_mc_if_found c p found)) λ _.
              Ensures-bind _ _ (Ensures-ask _ _ p (λ a. refl)) λ answer.
                Ensures-bind _ _ (Ensures-answer pool _ answer) λ mcp. Ensures-await_ready pool mcp

  Ensures-sync_custom_pool :
      (pool : String) → Ensures Before (sync_custom_pool c pool) (λ _. WithPool) Before
  unfolding sync_custom_pool
  Ensures-sync_custom_pool pool = Ensures-bind _ _ (kept Keeps-current) λ kc.
      Ensures-bind _ _ (kept (search keeps_rules)) λ _.
        Ensures-bind _ _ (kept (Keeps-sleep c 60 p)) λ _.
          Ensures-bind _ _ (Ensures-ask _ _ p (λ a. refl)) λ answer.
            Ensures-bind _ _ (Ensures-answer pool _ answer) λ mcp.
              Ensures-bind _ _ (Ensures-await_ready pool mcp) λ _.
                Ensures-bind _ _ (kept_on (Keeps-ask _ _ pool_stable (λ a. refl))) λ _.
                  Ensures-bind _ _
                    (kept_on (Keeps-called _ (Keeps-new_mc_for_cr c pool_stable pool)))
                    λ made. Ensures-bind _ _ (kept_on (Keeps-deref (not_nil made))) λ mc.
                      Ensures-bind _ _ (kept_on (Keeps-ask _ _ pool_stable (λ a. refl)))
                        λ _. kept_on (Keeps-pure tt)

  pub Ensures-sync_parent_pool :
      (pool : String) → Ensures Before (sync_parent_pool c pool) (λ _. WithPool) Before
  unfolding sync_parent_pool
  Ensures-sync_parent_pool pool = Ensures-bind _ _ (kept Keeps-match_labels) λ labels.
      Ensures-if _ _ _ (λ _. Ensures-sync_role_pool pool) (λ _. Ensures-sync_custom_pool pool)
