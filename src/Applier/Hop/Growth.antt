-- ===== src/Applier/Hop/Growth.antt =====
-- What a longer history keeps, every operation on a machine keeps.
use fluxlite.Common.{
  ℕ, Text, text_eq, Bool, true, false, ◌∷◌, inl, inr, Bool-cases, Result, ok, err, ◌==◌,
}
use fluxlite.Model.{Node, InitSystem, systemd, openrc, unknown}
use fluxlite.Applier.Remote.{
  Command, shell, Exchange, History, Remote, Remotely, wrap, wrapped, after, ◌>>=◌, dial, run,
  run_check, write_file, binary, pause,
}
use fluxlite.Applier.Units.{Commands, commands_for, systemd_template_unit, openrc_script}
use fluxlite.Applier.Accounting.{AcctState, lifted, ensure_acct_family, ensure_accounting}
use fluxlite.Applier.Hop.{
  from_result, ensure_realm, current_config, ensure_unit, is_active, service_detail, restart,
  install, if_outdated, renew_systemd, renew_openrc, install_unit, say, restarted, alive,
  attempt_restart,
}

module _ (P : History → Type 0) where
  abbrev pub Keeps : {A : Type 0} → Remotely A → Type 0
  Keeps m = (h : History) → P h → P (m h).1

  wrapped-keeps :
      {A : Type 0} (prefix : Text) (x : Result Text A × History) → P x.1 → P (wrapped prefix x).1
  wrapped-keeps prefix (ok a, t) p = p
  wrapped-keeps prefix (err e, t) p = p

  pub wrap-Keeps : {A : Type 0} (prefix : Text) (m : Remotely A) → Keeps m → Keeps (wrap prefix m)
  unfolding wrap
  wrap-Keeps prefix m k h p = wrapped-keeps prefix (m h) (k h p)

  after-keeps :
      {A B : Type 0} (k : A → Remotely B) (x : Result Text A × History)
      → ((a : A) → Keeps (k a))
      → P x.1
      → P (after k x).1
  after-keeps k (ok a, t) q p = q a t p
  after-keeps k (err e, t) q p = p

  pub then-Keeps :
      {A B : Type 0} (m : Remotely A) (k : A → Remotely B)
      → Keeps m
      → ((a : A) → Keeps (k a))
      → Keeps (m >>= k)
  unfolding ◌>>=◌
  then-Keeps m k p q h ph = after-keeps k (m h) q (p h ph)

module _ (r : Remote) (P : History → Type 0)
    (longer : (e : Exchange) (h : History) → P h → P (e ∷ h)) where
  pub dial-Keeps : (id : ℕ) → Keeps P (dial r id)
  unfolding dial
  dial-Keeps id h p = longer _ h p

  pub run-Keeps : (id : ℕ) (c : Command) → Keeps P (run r id c)
  unfolding run
  run-Keeps id c h p = longer _ h p

  pub write_file-Keeps :
      (id : ℕ) (path content mode : Text) → Keeps P (write_file r id path content mode)
  unfolding write_file
  write_file-Keeps id path content mode h p = longer _ h p

  binary-Keeps : (arch : Text) → Keeps P (binary r arch)
  unfolding binary
  binary-Keeps arch h p = longer _ h p

  pub pause-Keeps : Keeps P (pause r)
  unfolding pause
  pause-Keeps h p = longer _ h p

  run_check-Keeps : (id : ℕ) (c : Command) → Keeps P (run_check r id c)
  unfolding run_check
  run_check-Keeps id c =
      then-Keeps P (run r id c) _ (run-Keeps id c)
        (λ o h p. elim (Bool-cases (o.exit_code == 0)) [ inl e ↦ rw e p | inr e ↦ rw e p ])

  from_result-Keeps : {A : Type 0} (x : Result Text A) → Keeps P (from_result x)
  from_result-Keeps (ok a) h p = p
  from_result-Keeps (err e) h p = p

  pub current_config-Keeps : (node : Node) (path : Text) → Keeps P (current_config r node path)
  unfolding current_config
  current_config-Keeps node path =
      then-Keeps P _ _ (wrap-Keeps P _ _ (run-Keeps node.id _)) (λ o h p. p)

  pub is_active-Keeps : (node : Node) (slug : Text) → Keeps P (is_active r node slug)
  unfolding is_active
  is_active-Keeps node slug =
      then-Keeps P _ _ (from_result-Keeps (commands_for node.init_system slug))
        (λ cmds. then-Keeps P _ _ (wrap-Keeps P _ _ (run-Keeps node.id _)) (λ o h p. p))

  said-Keeps : (node : Node) (cmd : Text) → Keeps P (say r node cmd)
  unfolding run
  said-Keeps node cmd h p = longer _ h p

  service_detail-Keeps : (node : Node) (cmds : Commands) → Keeps P (service_detail r node cmds)
  unfolding service_detail
  service_detail-Keeps node cmds =
      then-Keeps P _ _ (said-Keeps node cmds.status)
        (λ a. then-Keeps P _ _ (said-Keeps node cmds.recent_log) (λ b h p. p))

  restarted-Keeps :
      (node : Node) (cmds : Commands) (a : Result Text Text) → Keeps P (restarted r node cmds a)
  restarted-Keeps node cmds (ok out) h p = p
  restarted-Keeps node cmds (err e) h p =
      then-Keeps P _ _ (service_detail-Keeps node cmds) (λ detail t q. q) h p

  pub attempt_restart-Keeps :
      (node : Node) (cmds : Commands) → Keeps P (attempt_restart r node cmds)
  attempt_restart-Keeps node cmds h p =
      restarted-Keeps node cmds _ _ (run_check-Keeps node.id (shell cmds.restart) h p)

  pub restart-Keeps : (node : Node) (slug : Text) → Keeps P (restart r node slug)
  unfolding restart
  restart-Keeps node slug =
      then-Keeps P _ _ (from_result-Keeps (commands_for node.init_system slug)) (λ cmds.
        then-Keeps P _ _ (attempt_restart-Keeps node cmds) (λ _.
          then-Keeps P _ _ pause-Keeps
            (λ _. then-Keeps P _ _ (is_active-Keeps node slug) (alive-Keeps cmds))))
    where
      alive-Keeps : (cmds : Commands) (b : Bool) → Keeps P (alive r node cmds b)
      alive-Keeps cmds true h p = p
      alive-Keeps cmds false h p =
          then-Keeps P _ _ (service_detail-Keeps node cmds) (λ detail t q. q) h p

  pub ensure_accounting-Keeps :
      (id : ℕ) (slug : Text) (listen : ℕ) (ipv6 : Bool)
      → Keeps P (ensure_accounting r id slug listen ipv6)
  unfolding ensure_accounting ensure_acct_family
  ensure_accounting-Keeps id slug listen ipv6 =
      then-Keeps P _ _ (wrap-Keeps P _ _ (run-Keeps id _)) (λ o. lifted-Keeps _)
    where
      lifted-Keeps : (x : Result Text AcctState) → Keeps P (lifted x)
      lifted-Keeps (ok a) h p = p
      lifted-Keeps (err e) h p = p

  pub ensure_realm-Keeps : (node : Node) → Keeps P (ensure_realm r node)
  unfolding ensure_realm
  ensure_realm-Keeps node =
      then-Keeps P _ _ (wrap-Keeps P _ _ (run_check-Keeps node.id _))
        (λ _. then-Keeps P _ _ (wrap-Keeps P _ _ (run-Keeps node.id _)) (λ o. outdated-Keeps _))
    where
      install-Keeps : (installed : Text) → Keeps P (install r node installed)
      install-Keeps installed = then-Keeps P _ _ (wrap-Keeps P _ _ (binary-Keeps node.arch)) (λ bin.
          then-Keeps P _ _ (wrap-Keeps P _ _ (write_file-Keeps node.id _ _ _))
            (λ _. then-Keeps P _ _ (wrap-Keeps P _ _ (run_check-Keeps node.id _)) (λ _ h p. p)))

      outdated-Keeps : (installed : Text) → Keeps P (if_outdated r node installed)
      outdated-Keeps installed h p = elim (Bool-cases (text_eq installed r.version)) [
        | inl e ↦ rw e p
        | inr e ↦ rw e (install-Keeps installed h p)
      ]

  pub ensure_unit-Keeps : (node : Node) (slug : Text) → Keeps P (ensure_unit r node slug)
  unfolding ensure_unit
  ensure_unit-Keeps node slug =
      then-Keeps P _ _ (from_result-Keeps (commands_for node.init_system slug)) (λ cmds.
        then-Keeps P _ _ (install-Keeps node.init_system cmds)
          (λ _. then-Keeps P _ _ (wrap-Keeps P _ _ (run-Keeps node.id _)) (λ _ h p. p)))
    where
      systemd-Keeps :
          (cmds : Commands) (current : Text) → Keeps P (renew_systemd r node cmds current)
      systemd-Keeps cmds current h p = elim (Bool-cases (text_eq current systemd_template_unit)) [
        | inl e ↦ rw e p
        | inr e ↦ rw e (
            then-Keeps P _ _ (wrap-Keeps P _ _ (write_file-Keeps node.id _ _ _))
              (λ _. then-Keeps P _ _ (wrap-Keeps P _ _ (run_check-Keeps node.id _)) (λ _ h p. p)) h
              p)
      ]

      openrc-Keeps : (current : Text) → Keeps P (renew_openrc r node slug current)
      openrc-Keeps current h p = elim (Bool-cases (text_eq current (openrc_script slug))) [
        | inl e ↦ rw e p
        | inr e ↦ rw e (wrap-Keeps P _ _ (write_file-Keeps node.id _ _ _) h p)
      ]

      install-Keeps :
          (init : InitSystem) (cmds : Commands) → Keeps P (install_unit r init node cmds slug)
      install-Keeps systemd cmds h p =
          then-Keeps P _ _ (current_config-Keeps node _) (systemd-Keeps cmds) h p
      install-Keeps openrc cmds h p =
          then-Keeps P _ _ (current_config-Keeps node _) openrc-Keeps h p
      install-Keeps unknown cmds h p = p
