-- ===== src/Applier/Route.antt =====
-- internal/applier/applier.go: the deployment of a route, its removal, and the relays of a machine.
pub mod Growth
pub mod Loud
pub mod Verdict
pub mod Idle
pub mod Chain
use fluxlite.Common.{
  ℕ, ◌≡◌, refl, Text, codes, text_eq, trim_space, Bool, true, false, not, ◌&&◌, ◌||◌, List, [], ◌∷◌,
  ◌++◌, map, Option, none, some, leb, if◌then◌else◌, Result, ok, err,
}
use fluxlite.Common.Decimal.{is_digit}
use fluxlite.Common.Sorting.{sort_by}
use fluxlite.Common.Tables.{exists_where}
use fluxlite.Model.{Node, InitSystem, systemd, openrc, unknown}
use fluxlite.Planner.Config.{HopPlan, config_path}
use fluxlite.Store.{text_leq}
use fluxlite.Applier.Remote.{
  Command, shell, list_relays, Output, History, Remote, Remotely, wrap, shell_quote, dial, run,
  run_check, write_file,
}
use fluxlite.Applier.Units.{Commands, commands_for, openrc_script_path}
use fluxlite.Applier.Accounting.{AcctState, unavailable, ensure_accounting, remove_accounting}
use fluxlite.Applier.Hop.{
  from_result, ensure_realm, ensure_unit, current_config, is_active, restart,
}

-- The action of an outcome, by the text that the source gives it.
pub data HopAction : Type 0 where
  unreachable realm_install_failed unit_install_failed read_config_failed restart_failed : HopAction
  realm_upgraded status_check_failed unchanged restarted_dead_service : HopAction
  write_config_failed applied skipped : HopAction

-- `acctResult`
pub record AcctResult : Type 0 where
  pub state : AcctState
  pub detail : Text

-- What `applyHop` returns.
pub record HopRun : Type 0 where
  pub changed : Bool
  pub action : HopAction
  pub acct : AcctResult
  pub error : Option Text

abbrev pub no_counters : AcctResult
no_counters = record { state = unavailable; detail = [] }

-- A return with an error, and one without.
abbrev pub hop_failed : HopAction → AcctResult → Text → HopRun
hop_failed action acct e = record { changed = false; action = action; acct = acct; error = some e }

abbrev pub done : Bool → HopAction → AcctResult → HopRun
done changed action acct = record { changed = changed; action = action; acct = acct; error = none }

abbrev pub Steps : Type 0
Steps = History → HopRun × History

abbrev pub proceed :
    {A : Type 0} → (Text → HopRun) → (A → Steps) → Result Text A × History → HopRun × History
proceed stop next (err e, h) = (stop e, h)
proceed stop next (ok a, h) = next a h

-- A call, and `if err != nil { return … }`.
unfoldable pub or_return : {A : Type 0} → Remotely A → (Text → HopRun) → (A → Steps) → Steps
or_return m stop next h = proceed stop next (m h)

abbrev pub finished : HopRun → Steps
finished o h = (o, h)

-- A node that takes no counters still forwards.
abbrev pub acct_of : Result Text AcctState → AcctResult
acct_of (ok s) = record { state = s; detail = [] }
acct_of (err e) = record { state = unavailable; detail = e }

module _ (r : Remote) where
  abbrev pub with_counters : HopPlan → (AcctResult → Steps) → Steps
  with_counters p next h =
      let (a, h') = ensure_accounting r p.node.id p.route_slug p.listen p.listen_ipv6 h in
      next (acct_of a) h'

  abbrev pub restart_then : HopPlan → AcctResult → HopRun → Steps
  restart_then p acct o =
      or_return (restart r p.node p.route_slug) (hop_failed restart_failed acct) (λ _. finished o)

  abbrev pub revive : HopPlan → AcctResult → Bool → Steps
  revive p acct true = finished (done false unchanged acct)
  revive p acct false = restart_then p acct (done true restarted_dead_service acct)

  -- The file is as wanted.
  abbrev pub confirm : HopPlan → AcctResult → Bool → Steps
  confirm p acct true = restart_then p acct (done true realm_upgraded acct)
  confirm p acct false =
      or_return (is_active r p.node p.route_slug) (hop_failed status_check_failed acct)
        (revive p acct)

  abbrev pub write_config : HopPlan → AcctResult → Steps
  write_config p acct =
      or_return (write_file r p.node.id p.path p.config (codes "0600"))
        (hop_failed write_config_failed acct) (λ _. restart_then p acct (done true applied acct))

  abbrev pub settle_config : HopPlan → AcctResult → Bool → Text → Steps
  settle_config p acct replaced current =
      if text_eq current p.config then confirm p acct replaced else write_config p acct

  abbrev pub configure : HopPlan → Bool → AcctResult → Steps
  configure p replaced acct =
      or_return (current_config r p.node p.path) (hop_failed read_config_failed acct)
        (settle_config p acct replaced)

  -- `applyHop`
  unfoldable pub apply_hop : HopPlan → Steps
  apply_hop p =
      or_return (wrap (codes "connect: ") (dial r p.node.id)) (hop_failed unreachable no_counters)
        (λ _.
          or_return (ensure_realm r p.node) (hop_failed realm_install_failed no_counters)
            (λ replaced.
              or_return (ensure_unit r p.node p.route_slug)
                (hop_failed unit_install_failed no_counters)
                (λ _. with_counters p (configure p replaced))))

-- `HopOutcome`; the state of the counters of a hop that was skipped is the empty string, here `none`.
pub record HopOutcome : Type 0 where
  pub node_name : Text
  pub hop_order : ℕ
  pub listen : ℕ
  pub remote : Text
  pub changed : Bool
  pub action : HopAction
  pub error : Text
  pub accounting : Option AcctState
  pub accounting_error : Text

abbrev error_text : Option Text → Text
error_text none = []
error_text (some e) = e

unfoldable pub outcome_of : HopPlan → HopRun → HopOutcome
outcome_of p o = record {
  node_name = p.node.name;
  hop_order = p.hop_order;
  listen = p.listen;
  remote = p.remote;
  changed = o.changed;
  action = o.action;
  error = error_text o.error;
  accounting = some o.acct.state;
  accounting_error = o.acct.detail;
}

unfoldable pub skipped_outcome : HopPlan → HopOutcome
skipped_outcome p = record {
  node_name = p.node.name;
  hop_order = p.hop_order;
  listen = p.listen;
  remote = p.remote;
  changed = false;
  action = skipped;
  error = codes "upstream hop failed";
  accounting = none;
  accounting_error = [];
}

-- `Failed`
unfoldable pub has_failed : List HopOutcome → Bool
has_failed outcomes = exists_where (λ o. not (text_eq o.error [])) outcomes

abbrev pub is_none : Option Text → Bool
is_none none = true
is_none (some e) = false

-- The outcomes so far, and whether the loop goes on.
pub record Progress : Type 0 where
  pub outcomes : List HopOutcome
  pub up : Bool

abbrev pub put_first : HopPlan → List HopOutcome → HopRun × History → Progress × History
put_first p outs (o, h) = (record { outcomes = outcome_of p o ∷ outs; up = is_none o.error }, h)

module _ (r : Remote) where
  -- One round of the loop: after a failure it is broken off, and the hops left are skipped.
  abbrev pub next_hop : HopPlan → Bool → List HopOutcome → History → Progress × History
  next_hop p true outs h = put_first p outs (apply_hop r p h)
  next_hop p false outs h = (record { outcomes = skipped_outcome p ∷ outs; up = false }, h)

  -- The loop of `Apply`, which runs from the last hop backwards.
  unfoldable pub apply_back : List HopPlan → History → Progress × History
  unfolding apply_hop
  apply_back [] h = (record { outcomes = []; up = true }, h)
  apply_back (p ∷ ps) h = let (b, h') = apply_back ps h in next_hop p b.up b.outcomes h'

  -- `Apply`
  unfoldable pub apply : List HopPlan → History → List HopOutcome × History
  unfolding apply_back
  apply ps h = let (b, h') = apply_back ps h in (b.outcomes, h')
