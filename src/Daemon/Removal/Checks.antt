-- ===== src/Daemon/Removal/Checks.antt =====
-- The check of Uninstall on a node.
use kata_operator.Base.{◌≡◌, refl, ap, ◌∙◌, ℕ, String}
use kata_operator.Api.Kata.{KataConfig, KataUnInstallationStatus, zero_kata_config}
use kata_operator.Api.Errors.{ok}
use kata_operator.Effect.{done, ◌>>=◌, pure}
use kata_operator.Daemon.Host.{Host, Daemon, ask, set_fields}
use kata_operator.Daemon.Install.{Existence, finds}
use kata_operator.Daemon.Uninstall.{default_uninstall_checker}
use kata_operator.Daemon.Fleet.{is_complete, phase_of}
use kata_operator.Daemon.Removal.{Removal, Removing, is_removed}
use kata_operator.Daemon.Removal.Records.{Removing-Records}

module _ {W : Type 0} (h : Host W) (name node_name : String) where
  checker_reads :
      (s : Daemon W) (kc : KataConfig) (w w' : W)
      → h.get_kata_config name zero_kata_config s.world ≡ (ok kc, w)
      → h.hostname w ≡ (ok node_name, w')
      → let u = kc.status.un_installation_status in
        (default_uninstall_checker h name s).0
        ≡ done (
            ok (
              finds u.in_progress.binaries_un_installed_nodes_list node_name,
              finds u.completed.completed_nodes_list node_name,
            ))
  unfolding default_uninstall_checker set_fields ask pure ◌>>=◌
  checker_reads s kc w w' got asked = rw (got, asked) refl

  -- By the check of Uninstall, a daemon finds out how far its own node is: the check answers whether
  -- its binaries are reported as removed and whether the controller has completed it, whatever the
  -- daemons and the controller have done before. The resource that it reads holds a status that the
  -- steps of Daemon/Removal reach, and the node gives its name.
  pub Removing-default_uninstall_checker :
      {limit : ℕ} {f : Removal} (s : Daemon W) (kc : KataConfig) (w w' : W)
      → Removing limit f
      → kc.status.un_installation_status ≡ f.status
      → h.get_kata_config name zero_kata_config s.world ≡ (ok kc, w)
      → h.hostname w ≡ (ok node_name, w')
      → let p = phase_of node_name f.ledger in
        (default_uninstall_checker h name s).0 ≡ done (ok (is_removed p, is_complete p))
  Removing-default_uninstall_checker {limit} {f} s kc w w' r e got asked =
      let k = Removing-Records r in
      checker_reads s kc w w' got asked
      ∙ ap
          (λ (u : KataUnInstallationStatus). done (
            ok (
              finds u.in_progress.binaries_un_installed_nodes_list node_name,
              finds u.completed.completed_nodes_list node_name,
            )))
          e
      ∙ ap (λ (b : Existence). done (ok b))
          (λ j. (k.removed.exact node_name j, k.complete.exact node_name j))
