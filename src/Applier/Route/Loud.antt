-- ===== src/Applier/Route/Loud.antt =====
-- A hop that fails says why.
use fluxlite.Common.{
  ◌≡◌, ◌≢◌, refl, Text, text_eq, Bool, true, false, [], none, some, inl, inr, Bool-cases, Result,
  ok, err,
}
use fluxlite.Planner.Config.{HopPlan}
use fluxlite.Applier.Remote.{History, Remote, Remotely}
use fluxlite.Applier.Hop.Loud.{
  Speaks, Loud, wrap-Loud, ensure_realm-Loud, ensure_unit-Loud, current_config-Loud, is_active-Loud,
  restart-Loud, write_file-Loud,
}
use fluxlite.Applier.Route.{
  HopAction, HopRun, AcctResult, hop_failed, proceed, Steps, or_return, restart_then, revive,
  confirm, settle_config, apply_hop,
}

abbrev Told : HopRun × History → Type 0
Told x = (e : Text) → x.0.error ≡ some e → e ≢ []

attempt-Told :
    {A : Type 0} (m : Remotely A) (action : HopAction) (acct : AcctResult) (next : A → Steps)
    (h : History)
    → Loud m
    → ((a : A) (s : History) → Told (next a s))
    → Told (or_return m (hop_failed action acct) next h)
unfolding or_return Loud
attempt-Told {A} m action acct next h l k = go (m h) refl
  where
    go : (x : Result Text A × History) → m h ≡ x → Told (proceed (hop_failed action acct) next x)
    go (ok a, s) q e w z = k a s e w z
    go (err v, s) q e w z = l h s v q (cc)

module _ (r : Remote) (speaks : Speaks r) where
  restart_then-Told :
      (p : HopPlan) (acct : AcctResult) (o : HopRun) (h : History)
      → o.error ≡ none
      → Told (restart_then r p acct o h)
  restart_then-Told p acct o h n =
      attempt-Told _ _ acct _ h (restart-Loud r speaks p.node p.route_slug) (λ _ s e w z. cc)

  revive-Told :
      (p : HopPlan) (acct : AcctResult) (b : Bool) (h : History) → Told (revive r p acct b h)
  revive-Told p acct true h e w z = cc
  revive-Told p acct false h e w z = restart_then-Told p acct _ h refl e w z

  confirm-Told :
      (p : HopPlan) (acct : AcctResult) (b : Bool) (h : History) → Told (confirm r p acct b h)
  confirm-Told p acct true h = restart_then-Told p acct _ h refl
  confirm-Told p acct false h =
      attempt-Told _ _ acct _ h (is_active-Loud r speaks p.node p.route_slug) (revive-Told p acct)

  settle-Told :
      (p : HopPlan) (acct : AcctResult) (b : Bool) (current : Text) (h : History)
      → Told (settle_config r p acct b current h)
  settle-Told p acct b current h = elim (Bool-cases (text_eq current p.config)) [
    | inl e ↦ rw e (confirm-Told p acct b h)
    | inr e ↦ rw e (
        attempt-Told _ _ acct _ h (write_file-Loud r speaks p.node.id _ _ _)
          (λ _ s. restart_then-Told p acct _ s refl))
  ]

  pub apply_hop-Told :
      (p : HopPlan) (h : History) (e : Text) → (apply_hop r p h).0.error ≡ some e → e ≢ []
  unfolding apply_hop
  apply_hop-Told p h = attempt-Told _ _ _ _ h (wrap-Loud _ _ _) (λ _ h1.
      attempt-Told _ _ _ _ h1 (ensure_realm-Loud r speaks p.node) (λ replaced h2.
        attempt-Told _ _ _ _ h2 (ensure_unit-Loud r speaks p.node p.route_slug) (λ _ h3.
          attempt-Told _ _ _ _ _ (current_config-Loud r speaks p.node p.path)
            (λ current s. settle-Told p _ replaced current s))))
