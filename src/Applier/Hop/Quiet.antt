-- ===== src/Applier/Hop/Quiet.antt =====
-- What is done on a machine before its configuration is compared restarts nothing and writes no
-- configuration.
use fluxlite.Common.{
  ℕ, ◌≡◌, refl, subst, Text, codes, text_eq, All, Bool, false, [], ◌∷◌, ◌++◌, inl, inr, Bool-cases,
  ◌==◌, Result, ok, err, arith,
}
use fluxlite.Model.{InitSystem, systemd, openrc, unknown}
use fluxlite.Planner.Config.{HopPlan, config_path}
use fluxlite.Applier.Remote.{
  shell, Exchange, ran, wrote, History, Remote, Remotely, wrap, ◌>>=◌, after, shell_quote, dial,
  run, run_check, write_file, binary,
}
use fluxlite.Applier.Units.{
  Commands, commands_for, service_name, systemd_commands, openrc_commands, systemd_template_unit,
  systemd_unit_path, openrc_script, openrc_script_path,
}
use fluxlite.Applier.Accounting.{AcctState, lifted, ensure_acct_family, ensure_accounting}
use fluxlite.Applier.Hop.{
  from_result, ensure_realm, current_config, ensure_unit, is_active, install, if_outdated,
  renew_systemd, renew_openrc, install_unit,
}
use fluxlite.Applier.Hop.Growth.{Keeps, wrap-Keeps, then-Keeps}

abbrev is_restart : Result Text Commands → Text → Bool
is_restart (ok cmds) c = text_eq c cmds.restart
is_restart (err e) c = false

-- The command that restarts the relay of a hop.
unfoldable pub restarts : InitSystem → Text → Text → Bool
restarts init slug c = is_restart (commands_for init slug) c

-- A call that restarts the relay of a hop, or writes its configuration.
unfoldable pub disturbs : HopPlan → Exchange → Bool
unfolding restarts
disturbs p (ran id (shell c) a) = restarts p.node.init_system p.route_slug c
disturbs p (wrote id path content mode a) = text_eq path p.path
disturbs p e = false

abbrev pub Quiet : HopPlan → History → Type 0
Quiet p = All (λ e. disturbs p e ≡ false)

-- Commands that differ from a restart in their first words.
restarts_other :
    (init : InitSystem) (slug rest : Text)
    → (restarts init slug (codes "mkdir -p /etc/fluxlite/realm /var/log/fluxlite") ≡ false)
      × (restarts init slug (codes "/usr/local/bin/realm --version" ++ rest) ≡ false)
      × (restarts init slug (codes "cat " ++ rest) ≡ false)
unfolding restarts commands_for text_eq
restarts_other systemd slug rest = (refl, refl, refl)
restarts_other openrc slug rest = (refl, refl, refl)
restarts_other unknown slug rest = (refl, refl, refl)

text_eq-append : (a s t : Text) → text_eq s t ≡ false → text_eq (a ++ s) (a ++ t) ≡ false
unfolding text_eq
text_eq-append [] s t h = h
text_eq-append (c ∷ a) s t h = ground (arith, text_eq-append a s t)

restarts_own :
    (init : InitSystem) (slug : Text) (cmds : Commands)
    → commands_for init slug ≡ ok cmds
    → (restarts init slug cmds.reload_units ≡ false)
      × (restarts init slug cmds.enable ≡ false)
      × (restarts init slug cmds.is_active ≡ false)
unfolding restarts commands_for text_eq
restarts_own systemd slug cmds e =
    let same : systemd_commands (shell_quote (service_name systemd slug)) ≡ cmds = cc e in
    subst
      (λ c.
        (restarts systemd slug c.reload_units ≡ false)
        × (restarts systemd slug c.enable ≡ false)
        × (restarts systemd slug c.is_active ≡ false))
      same (refl, refl, refl)
restarts_own openrc slug cmds e =
    let same : openrc_commands (shell_quote (service_name openrc slug)) ≡ cmds = cc e in
    subst
      (λ c.
        (restarts openrc slug c.reload_units ≡ false)
        × (restarts openrc slug c.enable ≡ false)
        × (restarts openrc slug c.is_active ≡ false))
      same (refl, refl, text_eq-append (shell_quote (service_name openrc slug)) _ _ refl)
restarts_own unknown slug cmds e = cc e

module _ (r : Remote) (p : HopPlan) (placed : p.path ≡ config_path p.route_slug) where
  abbrev KeepsQuiet : {A : Type 0} → Remotely A → Type 0
  KeepsQuiet = Keeps (Quiet p)

  run-Quiet :
      (id : ℕ) (c : Text)
      → restarts p.node.init_system p.route_slug c ≡ false
      → KeepsQuiet (run r id (shell c))
  unfolding run disturbs
  run-Quiet id c q h k = (q, k)

  run_check-Quiet :
      (id : ℕ) (c : Text)
      → restarts p.node.init_system p.route_slug c ≡ false
      → KeepsQuiet (run_check r id (shell c))
  unfolding run_check
  run_check-Quiet id c q =
      then-Keeps (Quiet p) _ _ (run-Quiet id c q)
        (λ o h k. elim (Bool-cases (o.exit_code == 0)) [ inl e ↦ rw e k | inr e ↦ rw e k ])

  write_file-Quiet :
      (id : ℕ) (path content mode : Text)
      → text_eq path (config_path p.route_slug) ≡ false
      → KeepsQuiet (write_file r id path content mode)
  unfolding write_file disturbs
  write_file-Quiet id path content mode q h k = (rw placed q, k)

  pub dial-Quiet : (id : ℕ) → KeepsQuiet (dial r id)
  unfolding dial disturbs
  dial-Quiet id h k = (refl, k)

  binary-Quiet : (arch : Text) → KeepsQuiet (binary r arch)
  unfolding binary disturbs
  binary-Quiet arch h k = (refl, k)

  pub current_config-Quiet : (path : Text) → KeepsQuiet (current_config r p.node path)
  unfolding current_config
  current_config-Quiet path =
      then-Keeps (Quiet p) _ _
        (wrap-Keeps (Quiet p) _ _
          (run-Quiet p.node.id _ (restarts_other p.node.init_system p.route_slug _).2))
        (λ o h k. k)

  -- The commands of a service are those that the applier found for it.
  known_Quiet :
      {A : Type 0} (slug : Text) (k : Commands → Remotely A)
      → ((cmds : Commands) → commands_for p.node.init_system slug ≡ ok cmds → KeepsQuiet (k cmds))
      → KeepsQuiet (from_result (commands_for p.node.init_system slug) >>= k)
  unfolding ◌>>=◌
  known_Quiet {A} slug k q h w = go (commands_for p.node.init_system slug) refl
    where
      go :
          (x : Result Text Commands)
          → commands_for p.node.init_system slug ≡ x
          → Quiet p (after k (from_result x h)).1
      go (ok cmds) e = q cmds e h w
      go (err e') e = w

  pub is_active-Quiet : KeepsQuiet (is_active r p.node p.route_slug)
  unfolding is_active
  is_active-Quiet = known_Quiet p.route_slug _ (λ cmds e.
      then-Keeps (Quiet p) _ _
        (wrap-Keeps (Quiet p) _ _
          (run-Quiet p.node.id _ (restarts_own p.node.init_system p.route_slug cmds e).2))
        (λ o h k. k))

  pub ensure_accounting-Quiet :
      (listen : ℕ) (ipv6 : Bool)
      → KeepsQuiet (ensure_accounting r p.node.id p.route_slug listen ipv6)
  unfolding ensure_accounting ensure_acct_family run disturbs
  ensure_accounting-Quiet listen ipv6 =
      then-Keeps (Quiet p) _ _ (wrap-Keeps (Quiet p) _ _ (λ h k. (refl, k))) (λ o. answered _)
    where
      answered : (x : Result Text AcctState) → KeepsQuiet (lifted x)
      answered (ok a) h k = k
      answered (err e) h k = k

  install-Quiet : (installed : Text) → KeepsQuiet (install r p.node installed)
  unfolding text_eq config_path
  install-Quiet installed =
      then-Keeps (Quiet p) _ _ (wrap-Keeps (Quiet p) _ _ (binary-Quiet p.node.arch)) (λ bin.
        then-Keeps (Quiet p) _ _ (wrap-Keeps (Quiet p) _ _ (write_file-Quiet p.node.id _ _ _ refl))
          (λ _.
            then-Keeps (Quiet p) _ _
              (wrap-Keeps (Quiet p) _ _
                (run_check-Quiet p.node.id _ (restarts_other p.node.init_system p.route_slug []).1))
              (λ _ h k. k)))

  pub ensure_realm-Quiet : KeepsQuiet (ensure_realm r p.node)
  unfolding ensure_realm
  ensure_realm-Quiet =
      then-Keeps (Quiet p) _ _
        (wrap-Keeps (Quiet p) _ _
          (run_check-Quiet p.node.id _ (restarts_other p.node.init_system p.route_slug []).0))
        (λ _.
          then-Keeps (Quiet p) _ _
            (wrap-Keeps (Quiet p) _ _
              (run-Quiet p.node.id _ (restarts_other p.node.init_system p.route_slug _).1))
            (λ o. outdated _))
    where
      outdated : (installed : Text) → KeepsQuiet (if_outdated r p.node installed)
      outdated installed h k = elim (Bool-cases (text_eq installed r.version)) [
        | inl e ↦ rw e k
        | inr e ↦ rw e (install-Quiet installed h k)
      ]

  write_unit-Quiet :
      (prefix path content mode : Text)
      → text_eq path (config_path p.route_slug) ≡ false
      → KeepsQuiet (wrap prefix (write_file r p.node.id path content mode))
  write_unit-Quiet prefix path content mode q =
      wrap-Keeps (Quiet p) _ _ (write_file-Quiet p.node.id path content mode q)

  unit_elsewhere :
      (text_eq systemd_unit_path (config_path p.route_slug) ≡ false)
      × (text_eq (openrc_script_path p.route_slug) (config_path p.route_slug) ≡ false)
  unfolding text_eq config_path systemd_unit_path openrc_script_path
  unit_elsewhere = (refl, refl)

  systemd-Quiet :
      (cmds : Commands) (current : Text)
      → restarts p.node.init_system p.route_slug cmds.reload_units ≡ false
      → KeepsQuiet (renew_systemd r p.node cmds current)
  systemd-Quiet cmds current q h k = elim (Bool-cases (text_eq current systemd_template_unit)) [
    | inl e ↦ rw e k
    | inr e ↦ rw e (
        then-Keeps (Quiet p) _ _ (write_unit-Quiet _ _ _ _ unit_elsewhere.0)
          (λ _.
            then-Keeps (Quiet p) _ _ (wrap-Keeps (Quiet p) _ _ (run_check-Quiet p.node.id _ q))
              (λ _ h' k'. k'))
          h k)
  ]

  openrc-Quiet : (current : Text) → KeepsQuiet (renew_openrc r p.node p.route_slug current)
  openrc-Quiet current h k = elim (Bool-cases (text_eq current (openrc_script p.route_slug))) [
    | inl e ↦ rw e k
    | inr e ↦ rw e (write_unit-Quiet _ _ _ _ unit_elsewhere.1 h k)
  ]

  unit-Quiet :
      (init : InitSystem) (cmds : Commands)
      → restarts p.node.init_system p.route_slug cmds.reload_units ≡ false
      → KeepsQuiet (install_unit r init p.node cmds p.route_slug)
  unit-Quiet systemd cmds q h k =
      then-Keeps (Quiet p) _ _ (current_config-Quiet _) (λ c. systemd-Quiet cmds c q) h k
  unit-Quiet openrc cmds q h k = then-Keeps (Quiet p) _ _ (current_config-Quiet _) openrc-Quiet h k
  unit-Quiet unknown cmds q h k = k

  pub ensure_unit-Quiet : KeepsQuiet (ensure_unit r p.node p.route_slug)
  unfolding ensure_unit
  ensure_unit-Quiet = known_Quiet p.route_slug _ (λ cmds e.
      let own = restarts_own p.node.init_system p.route_slug cmds e in
      then-Keeps (Quiet p) _ _ (unit-Quiet p.node.init_system cmds own.0) (λ _.
        then-Keeps (Quiet p) _ _ (wrap-Keeps (Quiet p) _ _ (run-Quiet p.node.id _ own.1))
          (λ _ h k. k)))
