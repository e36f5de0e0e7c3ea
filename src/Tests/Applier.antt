-- ===== src/Tests/Applier.antt =====
-- Deployments and scans at concrete inputs.
use fluxlite.Common.{
  ℕ, ◌≡◌, refl, Text, codes, text_eq, trim_space, All, Bool, true, false, [], ◌∷◌, none,
  if◌then◌else◌, ◌==◌, Result, ok, err,
}
use fluxlite.Applier.Remote.{
  Command, shell, list_relays, Output, Remote, wrap, dial, run as session_run, ◌>>=◌, run_check,
  write_file, pause, shell_quote,
}
use fluxlite.Applier.Hop.Loud.{Speaks}
use fluxlite.Applier.Removal.{parse_deployed}
use fluxlite.Applier.Hop.{ensure_realm, ensure_unit, current_config, is_active, restart}
use fluxlite.Applier.Accounting.{ensure_accounting}
use fluxlite.Applier.Units.{commands_for, systemd_template_unit, systemd_unit_path, service_name}
use fluxlite.Ports.{strip_prefix}
use fluxlite.Common.Sorting.{sort_by}
use fluxlite.Store.{text_leq}
use fluxlite.Applier.Route.{or_return, apply_hop, outcome_of, skipped, has_failed, apply}
use fluxlite.Applier.Route.Chain.{Seen, apply-Seen, apply_stopped}
use fluxlite.Orphans.{Scan}
use fluxlite.Orphans.Justified.{Justified}
use fluxlite.Planner.Config.{HopPlan, config_path}
use fluxlite.Applier.Hop.Quiet.{Quiet}
use fluxlite.Applier.Route.Idle.{unchanged-Quiet}
use fluxlite.Store.Sound.Run.{run}
use fluxlite.Tests.Store.{tokyo}

abbrev plan : ℕ → ℕ → HopPlan
plan order node = record {
  route_id = 1;
  route_name = codes "main";
  route_slug = codes "main";
  hop_order = order;
  node = record tokyo { id = node };
  listen = 20000;
  listen_ipv6 = false;
  remote = codes "10.0.0.9:443";
  config = codes "x";
  path = codes "/c";
  unit_name = codes "fluxlite-main";
  hash = [];
}

abbrev says : Text → Result Text Output
says t = ok (record { stdout = t; exit_code = 0 })

-- A machine that carries realm 2 and runs what it is told to; node 2 cannot be reached if `down`.
answer : Command → Result Text Output
answer (shell cmd) =
    if text_eq cmd (codes "systemctl is-active 'fluxlite-relay@main'")
    then says (codes "active")
    else if text_eq cmd (codes "/usr/local/bin/realm --version 2>/dev/null | head -1")
    then says (codes "realm 2")
    else says []
answer list_relays = says (codes "gone")
answer _ = says (codes "ok-unchanged")

abbrev machines : Bool → Remote
machines down = record {
  dial = λ h id. if down then (if id == 2 then err (codes "timeout") else ok tt) else ok tt;
  run = λ h id c. answer c;
  write = λ h id path content mode. ok tt;
  binary = λ h arch. ok [];
  pause = λ h. ok tt;
  version = codes "2";
}

speaks : (down : Bool) → Speaks (machines down)
speaks down = record { writing = λ h id path content mode e q z. cc; pausing = λ h e q z. cc }

deployed_well : has_failed (apply (machines false) (plan 0 1 ∷ plan 1 2 ∷ []) []).0 ≡ false
unfolding apply has_failed answer or_return wrap dial session_run ◌>>=◌ run_check text_eq trim_space
    ensure_realm ensure_unit commands_for systemd_template_unit systemd_unit_path shell_quote
    service_name ensure_accounting strip_prefix current_config write_file restart pause outcome_of
deployed_well = refl

apply-Seen_example :
    All
      (λ p. Seen p (apply (machines false) (plan 0 1 ∷ plan 1 2 ∷ []) []).1)
      (plan 0 1 ∷ plan 1 2 ∷ [])
apply-Seen_example =
    apply-Seen (machines false) (plan 0 1 ∷ plan 1 2 ∷ []) (speaks false) deployed_well

exit_down : has_failed (apply (machines true) (plan 1 2 ∷ []) []).0 ≡ true
unfolding apply has_failed text_eq outcome_of or_return wrap dial
exit_down = refl

apply_stopped_example : apply (machines true) (plan 0 1 ∷ plan 1 2 ∷ []) [] ≡ (
  record {
    node_name = (plan 0 1).node.name;
    hop_order = 0;
    listen = (plan 0 1).listen;
    remote = (plan 0 1).remote;
    changed = false;
    action = skipped;
    error = codes "upstream hop failed";
    accounting = none;
    accounting_error = [];
  }
      ∷ (apply (machines true) (plan 1 2 ∷ []) []).0,
  (apply (machines true) (plan 1 2 ∷ []) []).1,
)
apply_stopped_example =
    apply_stopped (machines true) (plan 0 1 ∷ []) (plan 1 2 ∷ []) [] (speaks true) exit_down

-- A machine that has the configuration already.
abbrev settled : Remote
settled = record (machines false) {
  run = λ h id c. elim c [
    | shell cmd ↦
        if text_eq cmd (codes "cat '/etc/fluxlite/realm/main.toml' 2>/dev/null")
        then says (codes "x")
        else answer (shell cmd)
    | other ↦ answer other
  ];
}

abbrev placed_plan : HopPlan
placed_plan = record (plan 0 1) { path = config_path (codes "main") }

left_alone :
    ((apply_hop settled placed_plan []).0.error ≡ none)
    × ((apply_hop settled placed_plan []).0.changed ≡ false)
unfolding apply_hop answer or_return wrap dial session_run ◌>>=◌ run_check text_eq trim_space
    ensure_realm ensure_unit commands_for systemd_template_unit systemd_unit_path shell_quote
    service_name ensure_accounting strip_prefix current_config write_file config_path is_active
left_alone = (refl, refl)

unchanged-Quiet_example : Quiet placed_plan (apply_hop settled placed_plan []).1
unchanged-Quiet_example = unchanged-Quiet settled placed_plan refl left_alone.0 left_alone.1

parse_deployed_test :
    parse_deployed (codes "old-9\ndmit-tw\n dmit-tw\n\n*\nHand Made\n../etc\n-lead\n")
    ≡ codes "dmit-tw" ∷ codes "old-9" ∷ []
unfolding parse_deployed sort_by trim_space text_eq text_leq
parse_deployed_test = refl

abbrev scan : Scan
scan = record { history = []; cleanups = [] }
