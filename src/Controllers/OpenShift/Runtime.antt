-- ===== src/Controllers/OpenShift/Runtime.antt =====
-- setRuntimeClass of controllers/openshift_controller.go.
pub mod Named
use kata_operator.Base.{String, ◌==◌, nat_eq, string_eq}
use kata_operator.Api.Kata.{over_status}
use kata_operator.Api.Objects.{RuntimeClass}
use kata_operator.Api.Errors.{Result, ok, err, is_not_found}
use kata_operator.Effect.{Exec, ◌>>=◌, ◌>>◌, pure, or_return, when}
use kata_operator.Cluster.{Cluster}
use kata_operator.Controllers.Reconciler.{
  Reply, reply_done, reply_error, Reconciler, current, assign, update_status, get_runtime_class,
  create_runtime_class,
}
use kata_operator.Controllers.OpenShift.Objects.{runtime_class_for}

abbrev pub runtime_class_name : String
runtime_class_name = "kata"

module _ {W : Type 0} (c : Cluster W) where
  -- The class is created if it is not found; any other error of the call is passed over.
  unfoldable pub create_class_if_missing :
      Result RuntimeClass → RuntimeClass → Exec (Reconciler W) Reply (Unit {0})
  create_class_if_missing (ok _) rc = pure tt
  create_class_if_missing (err e) rc =
      when (is_not_found e) (do created ← create_runtime_class c rc; or_return reply_error created)

  unfoldable pub set_runtime_class : Exec (Reconciler W) Reply Reply
  unfolding create_class_if_missing
  set_runtime_class = do
    kc ← current
    let rc = runtime_class_for kc runtime_class_name
    metadata ← or_return reply_error (c.set_controller_reference kc rc.metadata)
    found_rc ← get_runtime_class c rc.metadata.name
    create_class_if_missing found_rc (record rc { metadata = metadata })
    kc' ← current
    when (kc'.status.runtime_class == "") (do
      assign (over_status (λ s. record s { runtime_class = runtime_class_name }))
      saved ← update_status c
      or_return reply_error saved)
    pure reply_done
