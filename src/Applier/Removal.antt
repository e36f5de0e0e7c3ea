-- ===== src/Applier/Removal.antt =====
-- internal/applier/applier.go: the removal of a relay, and what a machine carries.
pub mod Names
use fluxlite.Common.{
  ℕ, Text, codes, text_eq, trim_space, Bool, true, false, not, ◌&&◌, ◌||◌, List, [], ◌∷◌, ◌++◌, leb,
  if◌then◌else◌,
}
use fluxlite.Common.Decimal.{is_digit}
use fluxlite.Common.Exec.{pure}
use fluxlite.Common.Sorting.{sort_by}
use fluxlite.Common.Tables.{exists_where}
use fluxlite.Model.{Node, InitSystem, systemd, openrc, unknown}
use fluxlite.Planner.Config.{config_path}
use fluxlite.Ports.{split, newline}
use fluxlite.Store.{text_leq}
use fluxlite.Applier.Remote.{
  Command, shell, list_relays, Remote, Remotely, wrap, ◌>>=◌, ◌>>◌, shell_quote, dial, run,
  run_check,
}
use fluxlite.Applier.Units.{Commands, commands_for, openrc_script_path}
use fluxlite.Applier.Accounting.{remove_accounting}
use fluxlite.Applier.Hop.{from_result, ensure_realm, is_active}

module _ (r : Remote) where
  abbrev quietly : ℕ → Text → Text → Remotely (Unit {0})
  quietly id prefix cmd = do _ ← wrap prefix (run r id (shell cmd)); pure tt

  abbrev remove_files : ℕ → List Text → Remotely (Unit {0})
  remove_files id [] = pure tt
  remove_files id (p ∷ ps) =
      quietly id (codes "remove " ++ p ++ codes ": ") (codes "rm -f " ++ shell_quote p)
      >> remove_files id ps

  abbrev paths : InitSystem → Text → List Text
  paths openrc slug = config_path slug ∷ openrc_script_path slug ∷ []
  paths _ slug = config_path slug ∷ []

  abbrev reload : InitSystem → ℕ → Commands → Remotely (Unit {0})
  reload systemd id cmds = quietly id (codes "daemon-reload: ") cmds.reload_units
  reload _ id cmds = pure tt

  -- `Remove`
  unfoldable pub remove : Node → Text → Remotely (Unit {0})
  remove node slug = do
    _ ← wrap (codes "connect to " ++ node.name ++ codes ": ") (dial r node.id)
    cmds ← from_result (commands_for node.init_system slug)
    _ ← quietly node.id (codes "stop service: ") cmds.stop
    _ ← quietly node.id (codes "disable service: ") cmds.disable
    _ ← remove_files node.id (paths node.init_system slug)
    _ ← reload node.init_system node.id cmds
    remove_accounting r node.id slug

  -- `Status`
  unfoldable pub status : Node → Text → Remotely Bool
  status node slug = do
    _ ← wrap (codes "connect to " ++ node.name ++ codes ": ") (dial r node.id)
    is_active r node slug

  -- `InstallRealm`
  unfoldable pub install_realm : Node → Remotely Bool
  install_realm node = do
    _ ← wrap (codes "connect to " ++ node.name ++ codes ": ") (dial r node.id)
    ensure_realm r node

-- `slugPattern`
abbrev is_first : ℕ → Bool
is_first c = (leb b'a' c && leb c b'z') || is_digit c

all_slug : Text → Bool
all_slug [] = true
all_slug (c ∷ s) = (is_first c || text_eq (c ∷ []) (codes "-")) && all_slug s

unfoldable pub slug_pattern : Text → Bool
unfolding all_slug
slug_pattern [] = false
slug_pattern (c ∷ s) = is_first c && all_slug s

-- The lines that are slugs, the first of each; what was seen before stands first.
collect : List Text → List Text → List Text
collect seen [] = seen
collect seen (line ∷ lines) =
    let slug = trim_space line in
    collect
      (if not (slug_pattern slug) || exists_where (text_eq slug) seen
        then seen
        else seen ++ slug ∷ [])
      lines

-- `parseDeployed`
unfoldable pub parse_deployed : Text → List Text
unfolding split collect slug_pattern
parse_deployed out = sort_by text_leq (collect [] (split newline out))

module _ (r : Remote) where
  -- `Deployed`
  unfoldable pub deployed : Node → Remotely (List Text)
  unfolding parse_deployed
  deployed node = do
    _ ← wrap (codes "connect to " ++ node.name ++ codes ": ") (dial r node.id)
    out ←
        wrap (codes "list relays on " ++ node.name ++ codes ": ") (run_check r node.id list_relays)
    pure (parse_deployed out)
