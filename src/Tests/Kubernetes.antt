-- ===== src/Tests/Kubernetes.antt =====
-- The installation requests of both controllers on a calm cluster.
use kata_operator.Base.{◌≡◌, refl, sym, ap, [], ◌∷◌, ◌+◌, length}
use kata_operator.Api.Kata.{KataConfig, KataConfigStatus, zero_status, zero_meta, zero_kata_config}
use kata_operator.Api.Errors.{Result, ok, err}
use kata_operator.Cluster.{EchoesStatus}
use kata_operator.Controllers.Kubernetes.Monitor.Tally.{IsTallied}
use kata_operator.Controllers.Kubernetes.Install.{process_kata_config_install_request}
use kata_operator.Controllers.OpenShift.Install.Safe.{install_request-Runs}
use kata_operator.Controllers.OpenShift.Install
use kata_operator.Controllers.Kubernetes.Install.Safe.{kubernetes_install_request-Runs}
use kata_operator.Effect.Safe.{Runs}
use kata_operator.Controllers.Kubernetes.Install.Tally.{install_request-IsTallied}
use kata_operator.Controllers.Kubernetes.Watch.{
  to_requests, times, resources_named, times-to_requests,
}
use kata_operator.Tests.Clusters.{calm, at_rest}

abbrev with_image : KataConfig
with_image = record zero_kata_config {
  metadata = record zero_meta { name = "kc" };
  spec = record zero_kata_config.spec { config = record { source_image = "quay.io/kata:1.0" } };
}

abbrev status_of : Result KataConfig → KataConfigStatus
status_of (ok kc) = kc.status
status_of (err _) = zero_status

calm-EchoesStatus : EchoesStatus calm
calm-EchoesStatus = record { echo = λ kc w answer e. sym (ap status_of e) }

install_request-IsTallied_example :
    IsTallied
      (process_kata_config_install_request calm (at_rest with_image)
        ).1.kata_config.status.installation_status
install_request-IsTallied_example =
    install_request-IsTallied calm calm-EchoesStatus (at_rest with_image)
      (record { in_progress = refl; completed = refl })

-- one request for the empty name, and one for the resource
times-to_requests_example :
    times "" (to_requests (ok (with_image ∷ [])))
    ≡ resources_named "" (with_image ∷ []) + length (with_image ∷ [])
times-to_requests_example = times-to_requests "" (with_image ∷ [])

kubernetes_install_request-Runs_example :
    Runs (process_kata_config_install_request calm (at_rest with_image)).0
kubernetes_install_request-Runs_example = kubernetes_install_request-Runs calm (at_rest with_image)

install_request-Runs_example :
    Runs (Install.process_kata_config_install_request calm (at_rest with_image)).0
install_request-Runs_example = install_request-Runs calm (at_rest with_image)
