-- ===== src/Applier/Route/Growth.antt =====
-- What a longer history keeps, the deployment of a hop keeps.
use fluxlite.Common.{Text, text_eq, Bool, true, false, ◌∷◌, inl, inr, Bool-cases, Result, ok, err}
use fluxlite.Planner.Config.{HopPlan}
use fluxlite.Applier.Remote.{Exchange, History, Remote, Remotely}
use fluxlite.Applier.Hop.Growth.{
  wrap-Keeps, dial-Keeps, ensure_realm-Keeps, ensure_unit-Keeps, ensure_accounting-Keeps,
  current_config-Keeps, is_active-Keeps, restart-Keeps, write_file-Keeps,
}
use fluxlite.Applier.Route.{
  HopRun, AcctResult, proceed, Steps, or_return, restart_then, revive, confirm, settle_config,
  apply_hop,
}

module _ (r : Remote) (P : History → Type 0)
    (longer : (e : Exchange) (h : History) → P h → P (e ∷ h)) where
  attempt-keeps :
      {A : Type 0} (m : Remotely A) (stop : Text → HopRun) (next : A → Steps) (h : History)
      → P (m h).1
      → ((a : A) (s : History) → P s → P (next a s).1)
      → P (or_return m stop next h).1
  unfolding or_return
  attempt-keeps {A} m stop next h p k = go (m h) p
    where
      go : (x : Result Text A × History) → P x.1 → P (proceed stop next x).1
      go (ok a, s) p = k a s p
      go (err e, s) p = p

  restart_then-keeps :
      (p : HopPlan) (acct : AcctResult) (o : HopRun) (h : History)
      → P h
      → P (restart_then r p acct o h).1
  restart_then-keeps p acct o h k =
      attempt-keeps _ _ _ h (restart-Keeps r P longer p.node p.route_slug h k) (λ _ s q. q)

  revive-keeps :
      (p : HopPlan) (acct : AcctResult) (b : Bool) (h : History) → P h → P (revive r p acct b h).1
  revive-keeps p acct true h k = k
  revive-keeps p acct false h k = restart_then-keeps p acct _ h k

  confirm-keeps :
      (p : HopPlan) (acct : AcctResult) (b : Bool) (h : History) → P h → P (confirm r p acct b h).1
  confirm-keeps p acct true h k = restart_then-keeps p acct _ h k
  confirm-keeps p acct false h k =
      attempt-keeps _ _ _ h (is_active-Keeps r P longer p.node p.route_slug h k)
        (revive-keeps p acct)

  settle-keeps :
      (p : HopPlan) (acct : AcctResult) (b : Bool) (current : Text) (h : History)
      → P h
      → P (settle_config r p acct b current h).1
  settle-keeps p acct b current h k = elim (Bool-cases (text_eq current p.config)) [
    | inl e ↦ rw e (confirm-keeps p acct b h k)
    | inr e ↦ rw e (
        attempt-keeps _ _ _ h (write_file-Keeps r P longer p.node.id _ _ _ h k)
          (λ _ s q. restart_then-keeps p acct _ s q))
  ]

  pub apply_hop-keeps : (p : HopPlan) (h : History) → P h → P (apply_hop r p h).1
  unfolding apply_hop
  apply_hop-keeps p h k =
      attempt-keeps _ _ _ h (wrap-Keeps P _ _ (dial-Keeps r P longer p.node.id) h k) (λ _ h1 k1.
        attempt-keeps _ _ _ h1 (ensure_realm-Keeps r P longer p.node h1 k1) (λ replaced h2 k2.
          attempt-keeps _ _ _ h2 (ensure_unit-Keeps r P longer p.node p.route_slug h2 k2)
            (λ _ h3 k3.
              attempt-keeps _ _ _ _
                (current_config-Keeps r P longer p.node p.path _ (
                  ensure_accounting-Keeps r P longer p.node.id p.route_slug p.listen p.listen_ipv6
                    h3 k3))
                (λ current s q. settle-keeps p _ replaced current s q))))
