-- ===== src/Controllers/OpenShift/Delete/Evidence.antt =====
-- What the calls of a deletion must show before the finalizer may go.
use kata_operator.Base.{◌≡◌, String, true, false, List, [], ◌∷◌, nat_eq, string_eq}
use kata_operator.Api.Kata.{KataConfig}
use kata_operator.Api.Objects.{DaemonSet, MachineConfigPool, Pod}
use kata_operator.Api.Errors.{ok, err}
use kata_operator.Controllers.Common.{uninstall_operation}
use mathlib.Core.List.{Memᴰ}
use kata_operator.Base.{◌⊎◌, inr}
use kata_operator.Api.Errors.{not_found}
use kata_operator.Cluster.Calls.{
  Call, listed_pods, got_machine_config_pool, updated_kata_config_status, got_daemon_set,
  deleted_daemon_set,
}
use kata_operator.Controllers.Reconciler.Keeps.{IsStable, is_update}
use kata_operator.Controllers.OpenShift.Objects.{daemon_set_name, daemon_set_namespace}
use kata_operator.Controllers.OpenShift.Queries.{uses_runtime_class}
use kata_operator.Controllers.OpenShift.Delete.{complete_uninstalled}

-- All pods were listed, and none of them uses the runtime class.
abbrev pub PodsClear : String → List Call → Type 0
PodsClear runtime_class calls =
    (pods : List Pod) × Memᴰ (listed_pods (ok pods)) calls
    × (uses_runtime_class runtime_class pods ≡ false)

-- A machine config pool was read in which as many machines are ready as there are.
abbrev pub PoolReady : List Call → Type 0
PoolReady calls =
    (pool : String) × (mcp : MachineConfigPool) × Memᴰ (got_machine_config_pool pool (ok mcp)) calls
    × (mcp.ready_machine_count ≡ mcp.machine_count)

-- A call with `Q` was made after calls with `P`.
abbrev pub Then : (List Call → Type 0) → (Call → Type 0) → List Call → Type 0
Then P Q [] = ⊥
Then P Q (x ∷ calls) = (Q x × P calls) ⊎ Then P Q calls

-- The call saved a status in which all the nodes without binaries are recorded as completed.
abbrev pub IsSave : Call → Type 0
IsSave x =
    (kc answer : KataConfig) × (x
      ≡ updated_kata_config_status (complete_uninstalled kc) (ok answer))

-- such a call, after the pool was read
abbrev pub StatusSaved : List Call → Type 0
StatusSaved = Then PoolReady IsSave

-- The call did not find the daemon set of the uninstallation, or deleted a daemon set.
abbrev pub IsGone : Call → Type 0
IsGone x =
    (x ≡ got_daemon_set (daemon_set_name uninstall_operation) daemon_set_namespace (err not_found))
    ⊎ ((ds : DaemonSet) × (x ≡ deleted_daemon_set ds (ok tt)))

-- such a call, after the status was saved
abbrev pub DaemonSetGone : List Call → Type 0
DaemonSetGone = Then StatusSaved IsGone

pub record Evidence (runtime_class : String) (calls : List Call) : Type 0 where
  pub pods : PodsClear runtime_class calls
  pub pool : PoolReady calls
  pub status : StatusSaved calls
  pub daemon_set : DaemonSetGone calls

-- Every update of the resource comes after the evidence; the newest call stands first.
abbrev pub Guarded : String → List Call → Type 0
Guarded runtime_class [] = Unit
Guarded runtime_class (x ∷ calls) =
    (is_update x ≡ true → Evidence runtime_class calls) × Guarded runtime_class calls

pub Guarded-IsStable : (rc : String) → IsStable (Guarded rc)
Guarded-IsStable rc = record { grow = λ x l q g. (λ u. cc, g) }

pub PodsClear-IsStable : (rc : String) → IsStable (PodsClear rc)
PodsClear-IsStable rc = record { grow = λ x l q h. (h.0, Memᴰ.tail h.1, h.2) }

pub PoolReady-IsStable : IsStable PoolReady
PoolReady-IsStable = record { grow = λ x l q h. (h.0, h.1, Memᴰ.tail h.2, h.3) }

pub Then-IsStable : {P : List Call → Type 0} {Q : Call → Type 0} → IsStable (Then P Q)
Then-IsStable = record { grow = λ x l q h. inr h }

pub made-IsStable : (y : Call) → IsStable (Memᴰ y)
made-IsStable y = record { grow = λ x l q h. Memᴰ.tail h }

pub ×-IsStable : {P Q : List Call → Type 0} → IsStable P → IsStable Q → IsStable (λ l. P l × Q l)
×-IsStable p q = record { grow = λ x l e h. (p.grow x l e h.0, q.grow x l e h.1) }
