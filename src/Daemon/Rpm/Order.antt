-- ===== src/Daemon/Rpm/Order.antt =====
-- The order of the calls of installRPMs and uninstallRPMs.
use mathlib.Core.Path.{subst}
use kata_operator.Base.{◌≡◌, refl, List}
use kata_operator.Base.Text.{Bytes}
use kata_operator.Api.Errors.{Result, ok, err}
use kata_operator.Effect.{done, pure, abort, called}
use kata_operator.Effect.Keeps.{
  After, Keeps, Keeps-called, Ensures, Ensures-bind, Ensures-kept, Ensures-or_return, Ensures-pure,
}
use kata_operator.Daemon.Events.{
  Event, ran, changed_root, changed_directory, made_policy, made_policy_context, copied_image,
  made_bundle,
}
use kata_operator.Daemon.Host.{Host, Daemon, field}
use kata_operator.Daemon.Trace.{
  Next, Once, now, OnEvents, Ended, Ensures-asked, Ensures-answered, event_rules,
}
use kata_operator.Daemon.Rpm.{
  make_install, make_repos, copy_repo, copy_packages, install_packages, uninstall_packages,
  or_fatal, do_cmd, cleanup_host, enter_host, uninstall_rpms, unpack_payload, install_payload,
  install_rpms,
}

-- the root of the process is the file system of the node
abbrev pub Entered : (List Event → Type 0) → List Event → Type 0
Entered P = Next (changed_directory "/" (ok tt)) (Next (changed_root "/host" (ok tt)) P)

-- The payload was laid out after an attempt to copy it, whatever that answered.
abbrev pub Unpacked : (List Event → Type 0) → List Event → Type 0
Unpacked P events =
    (source destination : Bytes) × (copied context policy : Result (Unit {0})) × Next
      (made_bundle "/opt/kata-install/kata-image/" "/usr/local/kata" (ok tt))
      (Next (copied_image source destination copied)
        (Next (made_policy_context context) (Next (made_policy policy) P)))
      events

-- the commands that install the packages, each with success
abbrev pub Packaged : (List Event → Type 0) → List Event → Type 0
Packaged P = Next (ran install_packages (ok tt)) (
    Next (ran copy_packages (ok tt))
      (Next (ran copy_repo (ok tt)) (Next (ran make_repos (ok tt)) P)))

module _ {W : Type 0} {P : List Event → Type 0} where
  -- a test of an answer that ends the process
  Ensures-or_fatal :
      {R : Type 0} (note : Result (Unit {0}) → Event) (a : Result (Unit {0}))
      → Ensures {S = Daemon W}
          (OnEvents (Next (note a) P))
          (or_fatal {R = R} a)
          (λ _. OnEvents (Next (note (ok tt)) P))
          Ended
  unfolding or_fatal pure abort
  Ensures-or_fatal note (ok tt) = record { at = λ s h. h }
  Ensures-or_fatal note (err e) = record { at = λ s h. tt }

module _ {W : Type 0} (h : Host W) where
  Keeps-cleanup_host : {P : List Event → Type 0} → Keeps (OnEvents (Once P)) (cleanup_host h)
  unfolding cleanup_host
  Keeps-cleanup_host = search event_rules depth 20

  -- the cleaning adds to the events
  Ensures-cleanup_host :
      {R : Type 0} {P : List Event → Type 0}
      → Ensures (OnEvents (Once P)) (called {R = R} (cleanup_host h)) (λ _. OnEvents (Once P)) Ended
  Ensures-cleanup_host = Ensures-kept _ (λ s p. tt) (Keeps-called _ Keeps-cleanup_host)

  Ensures-enter_host :
      {R : Type 0} {P : List Event → Type 0}
      → Ensures (OnEvents P) (enter_host h {R = R}) (λ _. OnEvents (Entered P)) Ended
  unfolding enter_host
  Ensures-enter_host = Ensures-bind _ _ (Ensures-asked _ _) λ root.
      Ensures-bind _ _ (Ensures-or_fatal (changed_root "/host") root) λ _.
        Ensures-bind _ _ (Ensures-asked _ _)
          λ directory. Ensures-or_fatal (changed_directory "/") directory

  Ensures-unpack_payload :
      {P : List Event → Type 0}
      → Ensures (OnEvents P) (unpack_payload h) (λ _. OnEvents (Unpacked P)) Ended
  unfolding unpack_payload field
  Ensures-unpack_payload {P} = Ensures-bind _ _ (Ensures-asked _ _) λ policy.
      Ensures-bind _ _ (Ensures-asked _ _) λ context.
        Ensures-bind _ _ (record { at = λ s p. p })
          λ tag. Ensures-bind _ _ (Ensures-or_return _ _ (λ a s q p. p) (λ s p. tt)) λ source.
            Ensures-bind _ _ (Ensures-or_return _ _ (λ a s q p. p) (λ s p. tt)) λ destination.
              Ensures-bind _ _ (Ensures-asked _ _) λ copied.
                Ensures-bind _ _ (Ensures-asked _ _) λ laid_out.
                  Ensures-or_return _ laid_out
                    (λ x s q p. record {
                      made = (
                        source,
                        destination,
                        copied,
                        context,
                        policy,
                        subst
                            (λ r.
                              Next (made_bundle "/opt/kata-install/kata-image/" "/usr/local/kata" r)
                                (Next (copied_image source destination copied) (
                                  Next (made_policy_context context) (Next (made_policy policy) P)))
                                s.events)
                            q p.made,
                      );
                    })
                    (λ s p. tt)

  Ensures-install_payload :
      {P : List Event → Type 0}
      → Ensures (OnEvents P) (install_payload h) (λ _. OnEvents (Packaged P)) Ended
  unfolding install_payload do_cmd
  Ensures-install_payload = Ensures-bind _ _ (Ensures-asked _ _) λ made.
      Ensures-bind _ _ (Ensures-answered _ (ran make_repos) made) λ _.
        Ensures-bind _ _ (Ensures-asked _ _) λ repo.
          Ensures-bind _ _ (Ensures-answered _ (ran copy_repo) repo) λ _.
            Ensures-bind _ _ (Ensures-asked _ _) λ packages.
              Ensures-bind _ _ (Ensures-answered _ (ran copy_packages) packages) λ _.
                Ensures-bind _ _ (Ensures-asked _ _)
                  λ installed. Ensures-answered _ (ran install_packages) installed

  -- the events of an installation that succeeds, after those with `P`
  abbrev pub Installed : (List Event → Type 0) → List Event → Type 0
  Installed P = Packaged (Unpacked (Entered (Next (ran make_install (ok tt)) P)))

  pub Ensures-install_rpms :
      {P : List Event → Type 0}
      → Ensures (OnEvents P) (install_rpms h) (λ _. OnEvents (Once (Installed P))) Ended
  unfolding install_rpms do_cmd
  Ensures-install_rpms {P} = Ensures-bind _ _ (Ensures-asked _ _) λ made.
      Ensures-bind _ _ (Ensures-answered _ (ran make_install) made) λ _.
        Ensures-bind _ _ Ensures-enter_host λ _. Ensures-bind _ _ Ensures-unpack_payload λ _.
          Ensures-bind _ _ Ensures-install_payload λ _.
            Ensures-bind _ _
              (record { at = λ s p. Ensures-cleanup_host.at s (record { made = now p.made }) })
              λ _. Ensures-pure (ok tt)

  -- Where installRPMs returns without an error, the following were asked in this order: the
  -- directory for the payload was made, the process entered the file system of the node, a policy
  -- and its context were asked for, a copy of the payload's image was tried, its layout was made, the
  -- repository and the packages were copied, and rpm-ostree installed the packages. All of these
  -- succeeded but the policy, its context and the copy of the image, whose answers do not matter.
  -- What was asked afterwards stands before these as newer events.
  pub install_rpms_lem :
      (s : Daemon W)
      → let run = install_rpms h s in
        run.0 ≡ done (ok tt) → Once (Installed (λ l. l ≡ s.events)) run.1.events
  install_rpms_lem s e =
      let run = install_rpms h s in
      (subst (λ o. After (λ _. OnEvents (Once (Installed (λ l. l ≡ s.events)))) Ended o run.1) e
        (Ensures-install_rpms.at s (record { made = refl }))).made

  Ensures-uninstall_rpms :
      {P : List Event → Type 0}
      → Ensures
          (OnEvents P)
          (uninstall_rpms h)
          (λ _. OnEvents (Next (ran uninstall_packages (ok tt)) (Once (Entered P))))
          Ended
  unfolding uninstall_rpms do_cmd
  Ensures-uninstall_rpms = Ensures-bind _ _ Ensures-enter_host λ _.
      Ensures-bind _ _
        (record { at = λ s p. Ensures-cleanup_host.at s (record { made = now p.made }) })
        λ cleaned. Ensures-bind _ _ (Ensures-asked _ _) λ uninstalled.
          Ensures-bind _ _ (Ensures-answered _ (ran uninstall_packages) uninstalled)
            λ _. Ensures-pure (ok tt)

  -- Where uninstallRPMs returns without an error, the last thing asked is that rpm-ostree uninstalls
  -- the packages, with success, and before that the process had entered the file system of the
  -- node, both calls with success. What was asked in between, the cleaning, may have failed.
  pub uninstall_rpms_lem :
      (s : Daemon W)
      → let run = uninstall_rpms h s in
        run.0 ≡ done (ok tt)
        → Next (ran uninstall_packages (ok tt)) (Once (Entered (λ l. l ≡ s.events))) run.1.events
  uninstall_rpms_lem s e =
      let run = uninstall_rpms h s in
      (subst
        (λ o.
          After
            (λ _.
              OnEvents (Next (ran uninstall_packages (ok tt)) (Once (Entered (λ l. l ≡ s.events)))))
            Ended o run.1)
        e (Ensures-uninstall_rpms.at s (record { made = refl }))).made
