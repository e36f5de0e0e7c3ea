-- ===== src/Applier/Route/Idle.antt =====
-- A hop that is reported as unchanged was left alone.
use fluxlite.Common.{
  ◌≡◌, refl, Text, codes, text_eq, Bool, true, false, [], none, inl, inr, Bool-cases, Result, ok,
  err,
}
use fluxlite.Planner.Config.{HopPlan, config_path}
use fluxlite.Applier.Remote.{History, Remote, Remotely, write_file}
use fluxlite.Applier.Hop.Growth.{wrap-Keeps}
use fluxlite.Applier.Hop.Quiet.{
  Quiet, dial-Quiet, ensure_realm-Quiet, ensure_unit-Quiet, ensure_accounting-Quiet,
  current_config-Quiet, is_active-Quiet,
}
use fluxlite.Applier.Route.{
  HopAction, HopRun, AcctResult, hop_failed, proceed, Steps, or_return, restart_then, revive,
  confirm, settle_config, apply_hop,
}

abbrev Calm : HopPlan → HopRun × History → Type 0
Calm p x = x.0.error ≡ none → x.0.changed ≡ false → Quiet p x.1

or_return-Calm :
    {A : Type 0} (p : HopPlan) (m : Remotely A) (action : HopAction) (acct : AcctResult)
    (next : A → Steps) (h : History)
    → Quiet p (m h).1
    → ((a : A) (s : History) → Quiet p s → Calm p (next a s))
    → Calm p (or_return m (hop_failed action acct) next h)
unfolding or_return
or_return-Calm {A} p m action acct next h q k = go (m h) q
  where
    go :
        (x : Result Text A × History)
        → Quiet p x.1
        → Calm p (proceed (hop_failed action acct) next x)
    go (ok a, s) q e c = k a s q e c
    go (err w, s) q e c = cc

module _ (r : Remote) where
  -- What ends with a restart counts as a change.
  restart_then-Calm :
      (p : HopPlan) (acct : AcctResult) (o : HopRun) (h : History)
      → o.changed ≡ true
      → Calm p (restart_then r p acct o h)
  unfolding or_return
  restart_then-Calm p acct o h t = go _
    where
      go :
          (x : Result Text (Unit {0}) × History)
          → Calm p (proceed (hop_failed HopAction.restart_failed acct) (λ _ s. (o, s)) x)
      go (ok a, s) e c = cc
      go (err w, s) e c = cc

  confirm-Calm :
      (p : HopPlan) (acct : AcctResult) (replaced : Bool) (h : History)
      → p.path ≡ config_path p.route_slug
      → Quiet p h
      → Calm p (confirm r p acct replaced h)
  confirm-Calm p acct true h placed q = restart_then-Calm p acct _ h refl
  confirm-Calm p acct false h placed q =
      or_return-Calm p _ _ acct _ h (is_active-Quiet r p placed h q) revived
    where
      revived : (b : Bool) (s : History) → Quiet p s → Calm p (revive r p acct b s)
      revived true s q e c = q
      revived false s q e c = restart_then-Calm p acct _ s refl e c

  settle-Calm :
      (p : HopPlan) (acct : AcctResult) (replaced : Bool) (current : Text) (h : History)
      → p.path ≡ config_path p.route_slug
      → Quiet p h
      → Calm p (settle_config r p acct replaced current h)
  unfolding or_return
  settle-Calm p acct replaced current h placed q = elim (Bool-cases (text_eq current p.config)) [
    | inl e ↦ rw e (confirm-Calm p acct replaced h placed q)
    | inr e ↦ rw e (rewritten (write_file r p.node.id p.path p.config (codes "0600") h))
  ]
    where
      rewritten :
          (x : Result Text (Unit {0}) × History)
          → Calm p (
              proceed
                (hop_failed HopAction.write_config_failed acct)
                (λ _. restart_then r p acct (record {
                  changed = true;
                  action = HopAction.applied;
                  acct = acct;
                  error = none;
                }))
                x)
      rewritten (ok a, s) = restart_then-Calm p acct _ s refl
      rewritten (err w, s) = λ e c. cc

  -- A hop that is reported as unchanged, and without an error, was left alone: none of the calls restarted
  -- its relay or wrote its configuration. Its configuration lies where the planner puts it.
  pub unchanged-Quiet :
      (p : HopPlan)
      → p.path ≡ config_path p.route_slug
      → (apply_hop r p []).0.error ≡ none
      → (apply_hop r p []).0.changed ≡ false
      → Quiet p (apply_hop r p []).1
  unfolding apply_hop
  unchanged-Quiet p placed =
      or_return-Calm p _ _ _ _ [] (wrap-Keeps (Quiet p) _ _ (dial-Quiet r p placed p.node.id) [] tt)
        (λ _ h1 q1.
          or_return-Calm p _ _ _ _ h1 (ensure_realm-Quiet r p placed h1 q1) (λ replaced h2 q2.
            or_return-Calm p _ _ _ _ h2 (ensure_unit-Quiet r p placed h2 q2) (λ _ h3 q3.
              or_return-Calm p _ _ _ _ _
                (current_config-Quiet r p placed p.path _
                  (ensure_accounting-Quiet r p placed p.listen p.listen_ipv6 h3 q3))
                (λ current s q. settle-Calm p _ replaced current s placed q))))
