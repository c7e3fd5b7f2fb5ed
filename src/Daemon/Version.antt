-- ===== src/Daemon/Version.antt =====
-- getClusterVersion of images/daemon/pkg/daemon/kata_openshift.go.
pub mod RoundTrip
use kata_operator.Base.{ℕ, String, Option, none, some, List, [], ◌∷◌}
use kata_operator.Base.Text.{Bytes, sprint, replace, trim}
use kata_operator.Api.Errors.{Error, Result, ok, err}
use kata_operator.Effect.{Exec, ◌>>=◌, pure, or_return, deref}
use kata_operator.Daemon.Events.{built_config, made_version_client, got_cluster_version}
use kata_operator.Daemon.Host.{Host, Daemon, ask}

-- the text of a version, from its slice
unfoldable pub version_text : ℕ × ℕ × ℕ → Bytes
unfolding sprint replace trim
version_text (major, minor, patch) = trim (replace b' ' b'.' (sprint (major ∷ minor ∷ patch ∷ [])))

-- The error of NewForConfig is overwritten: what it made is used, nil or not.
abbrev client_or_nil : Result (Unit {0}) → Option (Unit {0})
client_or_nil (ok client) = some client
client_or_nil (err _) = none

module _ {W : Type 0} (h : Host W) where
  unfoldable pub get_cluster_version : Exec (Daemon W) (Result Bytes) (Result Bytes)
  unfolding version_text
  get_cluster_version = do
    config ← ask h.build_config built_config
    built ← or_return (λ e. err e) config
    client ← ask h.new_version_client made_version_client
    usable ← deref (client_or_nil client)
    got ← ask (h.cluster_version "version") (got_cluster_version "version")
    desired ← or_return (λ e. err e) got
    slice ← or_return (λ e. err e) (h.new_version desired)
    pure (ok (version_text slice))
