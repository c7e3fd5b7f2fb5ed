-- ===== src/Controllers/Reconciler/Create.antt =====
-- How both controllers create an object that Get did not find.
use kata_operator.Base.{if◌then◌else◌}
use kata_operator.Api.Errors.{Result, ok, err, is_not_found}
use kata_operator.Effect.{Exec, ◌>>=◌, pure, return, or_return}
use kata_operator.Controllers.Reconciler.{Reply, reply_error, Reconciler}

-- `if err != nil && errors.IsNotFound(err) { Create } else if err != nil { return }`, after Get
unfoldable pub create_if_missing :
    {W A : Type 0}
    → Result A
    → Exec (Reconciler W) Reply (Result (Unit {0}))
    → Exec (Reconciler W) Reply (Unit {0})
create_if_missing (ok _) create = pure tt
create_if_missing (err e) create =
    if is_not_found e
    then (do made ← create; or_return reply_error made)
    else return (reply_error e)
