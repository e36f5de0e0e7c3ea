-- ===== src/Applier/Hop.antt =====
-- internal/applier/applier.go: what is done on the machine of one hop.
pub mod Growth
pub mod Loud
pub mod Quiet
use mathlib.Core.List
use fluxlite.Common.{
  ℕ, Text, codes, text_eq, trim_space, Bool, true, false, not, ◌&&◌, ◌||◌, List, [], ◌∷◌, ◌++◌,
  Option, none, some, is_space, if◌then◌else◌, Result, ok, err,
}
use fluxlite.Common.Exec.{pure, raise}
use fluxlite.Model.{Node, InitSystem, systemd, openrc, unknown}
use fluxlite.Planner.Config.{HopPlan, config_path}
use fluxlite.Applier.Remote.{
  Command, shell, Output, History, Remote, Remotely, wrap, ◌>>=◌, ◌>>◌, shell_quote, dial, run,
  run_check, write_file, binary, pause,
}
use fluxlite.Applier.Units.{
  Commands, commands_for, systemd_template_unit, systemd_unit_path, openrc_script,
  openrc_script_path,
}
use fluxlite.Applier.Accounting.{AcctState, unavailable, ensure_accounting, remove_accounting}

abbrev realm_path : Text
realm_path = codes "/usr/local/bin/realm"

abbrev add_to : ℕ → List Text → List Text
add_to c [] = (c ∷ []) ∷ []
add_to c (w ∷ ws) = (c ∷ w) ∷ ws

-- Between white space, with the empty pieces.
pieces : Text → List Text
unfolding is_space
pieces [] = [] ∷ []
pieces (c ∷ s) = let rest = pieces s in if is_space c then [] ∷ rest else add_to c rest

drop_empty : List Text → List Text
drop_empty [] = []
drop_empty ([] ∷ ws) = drop_empty ws
drop_empty ((c ∷ w) ∷ ws) = (c ∷ w) ∷ drop_empty ws

-- `strings.Fields`
unfoldable pub fields : Text → List Text
unfolding pieces drop_empty
fields s = drop_empty (pieces s)

-- The version that `realm --version` prints, empty where there is none.
abbrev version_field : List Text → Text
version_field [] = []
version_field (a ∷ []) = []
version_field (a ∷ b ∷ rest) = b

abbrev pub from_result : {A : Type 0} → Result Text A → Remotely A
from_result (ok a) = pure a
from_result (err e) = raise e

module _ (r : Remote) where
  abbrev pub install : Node → Text → Remotely Bool
  install node installed = do
    bin ← wrap (codes "obtain realm for " ++ node.arch ++ codes ": ") (binary r node.arch)
    _ ← wrap (codes "upload realm: ") (write_file r node.id realm_path bin (codes "0755"))
    _ ←
        wrap (codes "verify realm after upload: ")
          (run_check r node.id (shell (realm_path ++ codes " --version")))
    pure (not (text_eq installed []))

  abbrev pub if_outdated : Node → Text → Remotely Bool
  if_outdated node installed =
      if text_eq installed r.version then pure false else install node installed

  -- `ensureRealm`
  unfoldable pub ensure_realm : Node → Remotely Bool
  unfolding fields
  ensure_realm node = do
    _ ←
        wrap (codes "create directories: ")
          (run_check r node.id (shell (codes "mkdir -p /etc/fluxlite/realm /var/log/fluxlite")))
    o ←
        wrap (codes "check realm: ")
          (run r node.id (shell (realm_path ++ codes " --version 2>/dev/null | head -1")))
    if_outdated node (version_field (fields (trim_space o.stdout)))

  -- `currentConfig`
  unfoldable pub current_config : Node → Text → Remotely Text
  current_config node path = do
    o ←
        wrap (codes "read " ++ path ++ codes ": ")
          (run r node.id (shell (codes "cat " ++ shell_quote path ++ codes " 2>/dev/null")))
    pure o.stdout

  abbrev pub renew_systemd : Node → Commands → Text → Remotely (Unit {0})
  renew_systemd node cmds current = if text_eq current systemd_template_unit then pure tt else do
    _ ←
        wrap (codes "write systemd unit: ")
          (write_file r node.id systemd_unit_path systemd_template_unit (codes "0644"))
    _ ← wrap (codes "daemon-reload: ") (run_check r node.id (shell cmds.reload_units))
    pure tt

  abbrev pub renew_openrc : Node → Text → Text → Remotely (Unit {0})
  renew_openrc node slug current =
      if text_eq current (openrc_script slug)
      then pure tt
      else wrap (codes "write openrc script: ")
          (write_file r node.id (openrc_script_path slug) (openrc_script slug) (codes "0755"))

  abbrev pub install_unit : InitSystem → Node → Commands → Text → Remotely (Unit {0})
  install_unit systemd node cmds slug = do
    current ← current_config node systemd_unit_path
    renew_systemd node cmds current
  install_unit openrc node cmds slug = do
    current ← current_config node (openrc_script_path slug)
    renew_openrc node slug current
  install_unit unknown node cmds slug =
      raise (codes "unsupported init system on node " ++ node.name)

  -- `ensureUnit`
  unfoldable pub ensure_unit : Node → Text → Remotely (Unit {0})
  unfolding current_config
  ensure_unit node slug = do
    cmds ← from_result (commands_for node.init_system slug)
    _ ← install_unit node.init_system node cmds slug
    _ ← wrap (codes "enable service: ") (run r node.id (shell cmds.enable))
    pure tt

  -- `isActive`
  unfoldable pub is_active : Node → Text → Remotely Bool
  is_active node slug = do
    cmds ← from_result (commands_for node.init_system slug)
    o ← wrap (codes "check service state: ") (run r node.id (shell cmds.is_active))
    pure (text_eq (trim_space o.stdout) (codes "active"))

  -- The trimmed output, or nothing where the command could not be run.
  abbrev pub said : Result Text Output → Text
  said (err e) = []
  said (ok o) = trim_space o.stdout

  abbrev pub say : Node → Text → Remotely Text
  say node cmd h = let (a, h') = run r node.id (shell cmd) h in (ok (said a), h')

  abbrev joined : Text → Text → Text
  joined [] b = b
  joined a [] = a
  joined a b = a ++ codes " | " ++ b

  -- `serviceDetail`
  unfoldable pub service_detail : Node → Commands → Remotely Text
  service_detail node cmds = do
    a ← say node cmds.status
    b ← say node cmds.recent_log
    pure (joined a b)

  abbrev pub restarted : Node → Commands → Result Text Text → Remotely (Unit {0})
  restarted node cmds (ok out) = pure tt
  restarted node cmds (err e) = do
    detail ← service_detail node cmds
    raise (codes "restart service: " ++ e ++ codes " (" ++ detail ++ codes ")")

  abbrev pub alive : Node → Commands → Bool → Remotely (Unit {0})
  alive node cmds true = pure tt
  alive node cmds false = do
    detail ← service_detail node cmds
    raise (codes "service did not stay running after restart: " ++ detail)

  abbrev pub attempt_restart : Node → Commands → Remotely (Unit {0})
  attempt_restart node cmds h =
      let (a, h') = run_check r node.id (shell cmds.restart) h in restarted node cmds a h'

  -- `restart`
  unfoldable pub restart : Node → Text → Remotely (Unit {0})
  unfolding service_detail is_active
  restart node slug = do
    cmds ← from_result (commands_for node.init_system slug)
    _ ← attempt_restart node cmds
    _ ← pause r
    active ← is_active node slug
    alive node cmds active
