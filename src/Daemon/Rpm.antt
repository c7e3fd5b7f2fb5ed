-- ===== src/Daemon/Rpm.antt =====
-- installRPMs, uninstallRPMs, cleanupHost and doCmd of
-- images/daemon/pkg/daemon/kata_openshift.go: the commands that a node runs.
pub mod Early
pub mod Order
use kata_operator.Base.{String, Option, none, some, List, [], ◌∷◌, ◌++◌}
use kata_operator.Base.Text.{Bytes, codes}
use kata_operator.Api.Errors.{Error, Result, ok, err}
use kata_operator.Effect.{Exec, ◌>>=◌, ◌>>◌, pure, or_return, called, abort}
use kata_operator.Daemon.Events.{
  ran, changed_root, changed_directory, made_policy, made_policy_context, copied_image, made_bundle,
}
use kata_operator.Daemon.Host.{Host, Daemon, ask, field}
use kata_operator.Daemon.Install.{Action}

abbrev pub remove_install : List String
remove_install = "/usr/bin/rm" ∷ "-rf" ∷ "/opt/kata-install" ∷ []

abbrev pub remove_local : List String
remove_local = "/usr/bin/rm" ∷ "-rf" ∷ "/usr/local/kata" ∷ []

abbrev pub make_install : List String
make_install = "mkdir" ∷ "-p" ∷ "/host/opt/kata-install" ∷ []

abbrev pub make_repos : List String
make_repos = "mkdir" ∷ "-p" ∷ "/etc/yum.repos.d/" ∷ []

abbrev pub copy_repo : List String
copy_repo = "/usr/bin/cp" ∷ "-f" ∷ "/usr/local/kata/latest/packages.repo" ∷ "/etc/yum.repos.d/" ∷ []

abbrev pub copy_packages : List String
copy_packages =
    "/usr/bin/cp" ∷ "-a" ∷ "/usr/local/kata/latest/packages" ∷ "/opt/kata-install/packages" ∷ []

abbrev pub install_packages : List String
install_packages =
    "/bin/bash" ∷ "-c" ∷ "/usr/bin/rpm-ostree install --idempotent kata-runtime kata-osbuilder" ∷ []

abbrev pub uninstall_packages : List String
uninstall_packages = "rpm-ostree" ∷ "uninstall" ∷ "--idempotent" ∷ "--all" ∷ []

-- the image of the payload: the variable of the environment, or the one of the cluster's version
unfoldable pub payload_image : Bytes → Bytes → Bytes
unfolding codes
payload_image [] tag = codes "docker://quay.io/isolatedcontainers/kata-operator-payload:" ++ tag
payload_image (c ∷ variable) tag = codes "docker://" ++ c ∷ variable

pub destination_image : Bytes
unfolding codes
destination_image = codes "oci:/opt/kata-install/kata-image:latest"

module _ {W R : Type 0} where
  -- `if err != nil { log.Fatalf(…) }`
  unfoldable pub or_fatal : Result (Unit {0}) → Exec (Daemon W) R (Unit {0})
  or_fatal (ok _) = pure tt
  or_fatal (err _) = abort

module _ {W : Type 0} (h : Host W) where
  -- doCmd, whose output is the process's
  unfoldable pub do_cmd : {R : Type 0} → List String → Exec (Daemon W) R (Result (Unit {0}))
  do_cmd arguments = ask (h.run arguments) (ran arguments)

  unfoldable pub cleanup_host : Action h (Unit {0})
  unfolding do_cmd
  cleanup_host = do
    installed ← do_cmd remove_install
    or_return (λ e. err e) installed
    local ← do_cmd remove_local
    or_return (λ e. err e) local
    pure (ok tt)

  -- the process goes on inside the file system of the node
  unfoldable pub enter_host : {R : Type 0} → Exec (Daemon W) R (Unit {0})
  unfolding or_fatal
  enter_host = do
    root ← ask (h.chroot "/host") (changed_root "/host")
    or_fatal root
    directory ← ask (h.chdir "/") (changed_directory "/")
    or_fatal directory

  -- an error of the cleaning is only logged
  unfoldable pub uninstall_rpms : Action h (Unit {0})
  unfolding cleanup_host enter_host
  uninstall_rpms = do
    enter_host
    cleaned ← called cleanup_host
    uninstalled ← do_cmd uninstall_packages
    or_return (λ e. err e) uninstalled
    pure (ok tt)

  -- The payload is unpacked: the errors of the policy are printed, and that of the copy is
  -- overwritten.
  unfoldable pub unpack_payload : Exec (Daemon W) (Result (Unit {0})) (Unit {0})
  unfolding payload_image
  unpack_payload = do
    policy ← ask h.default_policy made_policy
    context ← ask (h.new_policy_context policy) made_policy_context
    tag ← field (λ s. s.payload_tag)
    source ←
        or_return (λ e. err e) (h.parse_image_name (payload_image h.payload_image_variable tag))
    destination ← or_return (λ e. err e) (h.parse_image_name destination_image)
    copied ← ask (h.copy_image context source destination) (copied_image source destination)
    laid_out ←
        ask (h.create_runtime_bundle_layout "/opt/kata-install/kata-image/" "/usr/local/kata")
          (made_bundle "/opt/kata-install/kata-image/" "/usr/local/kata")
    or_return (λ e. err e) laid_out

  -- the packages of the payload, from its place on the node
  unfoldable pub install_payload : Exec (Daemon W) (Result (Unit {0})) (Unit {0})
  unfolding do_cmd
  install_payload = do
    made ← do_cmd make_repos
    or_return (λ e. err e) made
    repo ← do_cmd copy_repo
    or_return (λ e. err e) repo
    packages ← do_cmd copy_packages
    or_return (λ e. err e) packages
    installed ← do_cmd install_packages
    or_return (λ e. err e) installed

  unfoldable pub install_rpms : Action h (Unit {0})
  unfolding cleanup_host enter_host unpack_payload install_payload
  install_rpms = do
    made ← do_cmd make_install
    or_return (λ e. err e) made
    enter_host
    unpack_payload
    install_payload
    cleaned ← called cleanup_host
    pure (ok tt)
