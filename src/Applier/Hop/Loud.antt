-- ===== src/Applier/Hop/Loud.antt =====
-- Every error of a hop has a text: an empty one would pass for none.
use fluxlite.Common.{
  ℕ, ◌≡◌, ◌≢◌, refl, Text, text_eq, Bool, true, false, [], ◌∷◌, inl, inr, Bool-cases, Result, ok,
  err,
}
use fluxlite.Common.Exec.{raise}
use fluxlite.Model.{Node, InitSystem, systemd, openrc, unknown}
use fluxlite.Applier.Remote.{
  shell, History, Remote, Remotely, wrap, wrapped, after, ◌>>=◌, run_check, write_file, pause,
}
use fluxlite.Applier.Units.{Commands, commands_for, systemd_template_unit, openrc_script}
use fluxlite.Applier.Hop.{
  from_result, ensure_realm, current_config, ensure_unit, is_active, service_detail, restart,
  install, if_outdated, renew_systemd, renew_openrc, install_unit, say, restarted, alive,
  attempt_restart,
}

-- What the errors of a remote say: those of a write, and of a pause that the context ended.
pub record Speaks (r : Remote) : Type 0 where
  pub writing :
      (h : History) (id : ℕ) (path content mode e : Text)
      → r.write h id path content mode ≡ err e
      → e ≢ []
  pub pausing : (h : History) (e : Text) → r.pause h ≡ err e → e ≢ []

unfoldable pub Loud : {A : Type 0} → Remotely A → Type 0
Loud m = (h t : History) (e : Text) → m h ≡ (err e, t) → e ≢ []

pub wrap-Loud : {A : Type 0} (c : ℕ) (rest : Text) (m : Remotely A) → Loud (wrap (c ∷ rest) m)
unfolding Loud wrap
wrap-Loud {A} c rest m h t e = go (m h)
  where
    go : (x : Result Text A × History) → wrapped (c ∷ rest) x ≡ (err e, t) → e ≢ []
    go (ok a, s) q z = cc
    go (err w, s) q z = cc

then-Loud :
    {A B : Type 0} (m : Remotely A) (k : A → Remotely B)
    → Loud m
    → ((a : A) → Loud (k a))
    → Loud (m >>= k)
unfolding Loud ◌>>=◌
then-Loud {A} {B} m k l n h t e = go (m h) refl
  where
    go : (x : Result Text A × History) → m h ≡ x → after k x ≡ (err e, t) → e ≢ []
    go (ok a, s) q w z = n a s t e w z
    go (err v, s) q w z = l h s v q (cc)

quiet-Loud : {A : Type 0} (a : A) → Loud (λ h. (ok a, h))
unfolding Loud
quiet-Loud a h t e q z = cc

raise-Loud :
    (A : Type 0) (c : ℕ) (rest : Text) → Loud (raise {S = History} {E = Text} {A = A} (c ∷ rest))
unfolding Loud
raise-Loud A c rest h t e q z = cc

commands_for-Loud : (init : InitSystem) (slug : Text) → Loud (from_result (commands_for init slug))
unfolding commands_for
commands_for-Loud systemd slug = quiet-Loud _
commands_for-Loud openrc slug = quiet-Loud _
commands_for-Loud unknown slug = raise-Loud _ _ _

module _ (r : Remote) (speaks : Speaks r) where
  pub write_file-Loud :
      (id : ℕ) (path content mode : Text) → Loud (write_file r id path content mode)
  unfolding Loud write_file
  write_file-Loud id path content mode h t e q = speaks.writing h id path content mode e (cc)

  pause-Loud : Loud (pause r)
  unfolding Loud pause
  pause-Loud h t e q = speaks.pausing h e (cc)

  pub current_config-Loud : (node : Node) (path : Text) → Loud (current_config r node path)
  unfolding current_config
  current_config-Loud node path = then-Loud _ _ (wrap-Loud _ _ _) (λ o. quiet-Loud _)

  pub is_active-Loud : (node : Node) (slug : Text) → Loud (is_active r node slug)
  unfolding is_active
  is_active-Loud node slug =
      then-Loud _ _ (commands_for-Loud node.init_system slug)
        (λ cmds. then-Loud _ _ (wrap-Loud _ _ _) (λ o. quiet-Loud _))

  said-Loud : (node : Node) (cmd : Text) → Loud (say r node cmd)
  unfolding Loud
  said-Loud node cmd h t e q z = cc

  service_detail-Loud : (node : Node) (cmds : Commands) → Loud (service_detail r node cmds)
  unfolding service_detail
  service_detail-Loud node cmds =
      then-Loud _ _ (said-Loud node cmds.status)
        (λ a. then-Loud _ _ (said-Loud node cmds.recent_log) (λ b. quiet-Loud _))

  alive-Loud : (node : Node) (cmds : Commands) (b : Bool) → Loud (alive r node cmds b)
  alive-Loud node cmds true = quiet-Loud _
  alive-Loud node cmds false =
      then-Loud _ _ (service_detail-Loud node cmds) (λ detail. raise-Loud _ _ _)

  restarted-Loud :
      (node : Node) (cmds : Commands) (a : Result Text Text) → Loud (restarted r node cmds a)
  restarted-Loud node cmds (ok out) = quiet-Loud _
  restarted-Loud node cmds (err e) =
      then-Loud _ _ (service_detail-Loud node cmds) (λ detail. raise-Loud _ _ _)

  attempt_restart-Loud : (node : Node) (cmds : Commands) → Loud (attempt_restart r node cmds)
  unfolding Loud
  attempt_restart-Loud node cmds h t e q =
      restarted-Loud node cmds (run_check r node.id (shell cmds.restart) h).0 _ t e q

  pub restart-Loud : (node : Node) (slug : Text) → Loud (restart r node slug)
  unfolding restart
  restart-Loud node slug = then-Loud _ _ (commands_for-Loud node.init_system slug) (λ cmds.
      then-Loud _ _ (attempt_restart-Loud node cmds) (λ _.
        then-Loud _ _ pause-Loud
          (λ _. then-Loud _ _ (is_active-Loud node slug) (alive-Loud node cmds))))

  install-Loud : (node : Node) (installed : Text) → Loud (install r node installed)
  install-Loud node installed = then-Loud _ _ (wrap-Loud _ _ _) (λ bin.
      then-Loud _ _ (wrap-Loud _ _ _) (λ _. then-Loud _ _ (wrap-Loud _ _ _) (λ _. quiet-Loud _)))

  if_outdated-Loud : (node : Node) (installed : Text) → Loud (if_outdated r node installed)
  if_outdated-Loud node installed = elim (Bool-cases (text_eq installed r.version)) [
    | inl e ↦ rw e (quiet-Loud _)
    | inr e ↦ rw e (install-Loud node installed)
  ]

  pub ensure_realm-Loud : (node : Node) → Loud (ensure_realm r node)
  unfolding ensure_realm
  ensure_realm-Loud node =
      then-Loud _ _ (wrap-Loud _ _ _)
        (λ _. then-Loud _ _ (wrap-Loud _ _ _) (λ o. if_outdated-Loud node _))

  renew_systemd-Loud :
      (node : Node) (cmds : Commands) (current : Text) → Loud (renew_systemd r node cmds current)
  renew_systemd-Loud node cmds current = elim (Bool-cases (text_eq current systemd_template_unit)) [
    | inl e ↦ rw e (quiet-Loud _)
    | inr e ↦
        rw e (
          then-Loud _ _ (wrap-Loud _ _ _)
            (λ _. then-Loud _ _ (wrap-Loud _ _ _) (λ _. quiet-Loud _)))
  ]

  renew_openrc-Loud : (node : Node) (slug current : Text) → Loud (renew_openrc r node slug current)
  renew_openrc-Loud node slug current = elim (Bool-cases (text_eq current (openrc_script slug))) [
    | inl e ↦ rw e (quiet-Loud _)
    | inr e ↦ rw e (wrap-Loud _ _ _)
  ]

  install_unit-Loud :
      (init : InitSystem) (node : Node) (cmds : Commands) (slug : Text)
      → Loud (install_unit r init node cmds slug)
  install_unit-Loud systemd node cmds slug =
      then-Loud _ _ (current_config-Loud node _) (renew_systemd-Loud node cmds)
  install_unit-Loud openrc node cmds slug =
      then-Loud _ _ (current_config-Loud node _) (renew_openrc-Loud node slug)
  install_unit-Loud unknown node cmds slug = raise-Loud _ _ _

  pub ensure_unit-Loud : (node : Node) (slug : Text) → Loud (ensure_unit r node slug)
  unfolding ensure_unit
  ensure_unit-Loud node slug = then-Loud _ _ (commands_for-Loud node.init_system slug) (λ cmds.
      then-Loud _ _ (install_unit-Loud node.init_system node cmds slug)
        (λ _. then-Loud _ _ (wrap-Loud _ _ _) (λ _. quiet-Loud _)))
