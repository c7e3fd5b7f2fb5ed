-- ===== src/Controllers/OpenShift/Oldest.antt =====
-- isOldestCR of controllers/openshift_controller.go.
pub mod Search
pub mod Verdict
use Prim.Native.String.{◌++◌}
use kata_operator.Base.{
  ℕ, String, Bool, true, false, not, ◌&&◌, Option, none, some, List, [], ◌∷◌, ◌==◌, nat_eq,
  string_eq, if◌then◌else◌, length,
}
use kata_operator.Base.GoInt.{minus_one}
use kata_operator.Api.Kata.{KataConfig, over_status, over_installation}
use kata_operator.Api.Errors.{Error, list_kata_configs_failed}
use kata_operator.Effect.{◌>>=◌, Exec, ◌>>◌, pure, return, or_return, deref, when}
use kata_operator.Cluster.{Cluster}
use kata_operator.Controllers.Reconciler.{
  Reconciler, current, assign, list_kata_configs, update_status,
}

abbrev pub marked : KataConfig → ℕ
marked kc = kc.status.installation_status.failed.failed_nodes_count

abbrev pub created : KataConfig → ℕ
created kc = kc.metadata.creation_timestamp

-- `if oldestCR == nil … else …`: at equal dates the later one in the list is kept.
unfoldable pub older : (ℕ → ℕ → Bool) → Option KataConfig → KataConfig → KataConfig
older before none item = item
older before (some o) item = if not (before (created o) (created item)) then item else o

-- The loop: the oldest of the listed resources with another name than this one.
unfoldable pub oldest_other :
    (ℕ → ℕ → Bool) → String → Option KataConfig → List KataConfig → Option KataConfig
oldest_other before name oldest [] = oldest
oldest_other before name oldest (item ∷ items) =
    oldest_other before name
      (if item.metadata.name == name then oldest else some (older before oldest item)) items

abbrev pub multiple_error : String → String
multiple_error name = "Multiple KataConfig CRs are not supported, " ++ (name ++ " already exists")

-- The mark of a resource that is not the oldest.
abbrev pub mark_rejected : String → KataConfig → KataConfig
mark_rejected name = over_status (
    over_installation (λ s. record s {
      failed = record {
        failed_nodes_count = minus_one;
        failed_nodes_list = record { name = ""; error = multiple_error name } ∷ [];
      };
    }))

-- `(bool, error)`
abbrev pub Verdict : Type 0
Verdict = Bool × Option Error

module _ {W : Type 0} (c : Cluster W) where
  -- the test after the loop
  unfoldable pub compare_with : KataConfig → KataConfig → Exec (Reconciler W) Verdict Verdict
  compare_with oldest kc = do
    let first = c.before (created kc) (created oldest)
    when (not first && not (marked kc == minus_one)) (do
      assign (mark_rejected oldest.metadata.name)
      saved ← update_status c
      or_return (λ e. (false, some e)) saved
      return (false, none))
    pure (true, none)

  unfoldable pub is_oldest_cr : Exec (Reconciler W) Verdict Verdict
  is_oldest_cr = do
    listed ← list_kata_configs c
    items ← or_return (λ e. (false, some (list_kata_configs_failed e))) listed
    when (length items == 1) (return (true, none))
    kc ← current
    oldest ← deref (oldest_other c.before kc.metadata.name none items)
    compare_with oldest kc
