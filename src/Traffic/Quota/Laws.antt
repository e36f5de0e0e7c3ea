-- ===== src/Traffic/Quota/Laws.antt =====
-- The quota loop over all the listed routes, failures included.
use fluxlite.Common.{
  ℕ, ◌≡◌, refl, ap, ◌⊎◌, ◌∙◌, Bool, true, false, List, [], ◌∷◌, ◌++◌, none, some, map, ◌==◌,
  Bool-cases, inl, inr, arith, All, ok,
}
use fluxlite.Common.Int.{ℤ, pos, ltb_ℤ}
use fluxlite.Common.Tables.{
  find_where, exists_where, update_where, find-update_self, find-update_other, exists-find,
}
use fluxlite.Model.{Route}
use fluxlite.Traffic.Period.{Date, day_key, quota_period_start}
use fluxlite.Traffic.Db.{period_usage}
use fluxlite.Traffic.Quota.{
  Panel, has_id, decide_quota, enforce_route, enforce_quotas, usage_of, pause_for_quota,
  resume_from_quota, set_route_enabled, set_quota_paused, clear_hop_running, removals,
  forget_running,
}

-- The route as the quota leaves it.
pub stopped : ℕ → Route → Route
stopped now r = record r {
  enabled = false;
  quota_paused_at = some now;
  updated_at = now;
  hops = map forget_running r.hops;
}

module _ (r : Route) (p : Panel) (id : ℕ) (h : (r.id == id) ≡ false) where
  other_row :
      (f : Route → Route) (q : List Route)
      → ((x : Route) → (f x).id ≡ x.id)
      → find_where (has_id id) (update_where (has_id r.id) f q) ≡ find_where (has_id id) q
  other_row f q k =
      find-update_other (has_id id) (has_id r.id) f q
        (λ x e. (ground (arith, e, h), rw (k x) (ground (arith, e, h))))

  pause_other :
      (now : ℕ)
      → find_where (has_id id) (pause_for_quota now r p).1.routes ≡ find_where (has_id id) p.routes
  unfolding pause_for_quota set_route_enabled set_quota_paused clear_hop_running
  pause_other now = elim (Bool-cases (exists_where (has_id r.id) p.routes)) [
    | inl e ↦
        rw e (other_row _ _ (λ x. refl) ∙ other_row _ _ (λ x. refl) ∙ other_row _ _ (λ x. refl))
    | inr e ↦ rw e refl
  ]

  resume_other :
      (now : ℕ)
      → find_where (has_id id) (resume_from_quota now r.id p).1.routes
        ≡ find_where (has_id id) p.routes
  unfolding resume_from_quota set_route_enabled set_quota_paused
  resume_other now = elim (Bool-cases (exists_where (has_id r.id) p.routes)) [
    | inl e ↦ rw e (other_row _ _ (λ x. refl) ∙ other_row _ _ (λ x. refl))
    | inr e ↦ rw e refl
  ]

module _ (r : Route) (p : Panel) {row : Route}
    (found : find_where (has_id r.id) p.routes ≡ some row) where
  own_row :
      (f : Route → Route) (q : List Route) {x : Route}
      → ((y : Route) → (f y).id ≡ y.id)
      → find_where (has_id r.id) q ≡ some x
      → find_where (has_id r.id) (update_where (has_id r.id) f q) ≡ some (f x)
  own_row f q k e = find-update_self (has_id r.id) f q (λ y e. rw (k y) e) e

  pause_own :
      (now : ℕ)
      → (find_where (has_id r.id) (pause_for_quota now r p).1.routes ≡ some (stopped now row))
        × ((pause_for_quota now r p).0 ≡ ok tt)
        × ((pause_for_quota now r p).1.removed ≡ p.removed ++ removals p.node_known r.slug r.hops)
  unfolding pause_for_quota set_route_enabled set_quota_paused clear_hop_running stopped
  pause_own now =
      let known : exists_where (has_id r.id) p.routes ≡ true =
        rw (exists-find (has_id r.id) p.routes, found) refl in
      rw known (
        own_row _ _ (λ x. refl) (own_row _ _ (λ x. refl) (own_row _ p.routes (λ x. refl) found)),
        refl,
        refl,
      )

module _ (near : ℤ → ℕ → Bool) (now : ℕ) (today : Date) where
  enforce_cases :
      (r : Route) (p : Panel)
      → ((enforce_route near now today r p).1 ≡ p)
        ⊎ ((enforce_route near now today r p).1 ≡ (pause_for_quota now r p).1)
        ⊎ ((enforce_route near now today r p).1 ≡ (resume_from_quota now r.id p).1)
  unfolding enforce_route decide_quota
  enforce_cases r p = ground arith

  enforce_other :
      (r : Route) (p : Panel) (id : ℕ)
      → (r.id == id) ≡ false
      → find_where (has_id id) (enforce_route near now today r p).1.routes
        ≡ find_where (has_id id) p.routes
  enforce_other r p id h = elim (enforce_cases r p) [
    | inl e ↦ rw e refl
    | inr (inl e) ↦ rw e (pause_other r p id h now)
    | inr (inr e) ↦ rw e (resume_other r p id h now)
  ]

  enforce_traffic :
      (r : Route) (p : Panel) → (enforce_route near now today r p).1.traffic ≡ p.traffic
  unfolding enforce_route pause_for_quota resume_from_quota set_route_enabled set_quota_paused
      clear_hop_running
  enforce_traffic r p = ground arith

  -- A route that its operator stopped.
  unfoldable pub OperatorStopped : Route → Type 0
  OperatorStopped r = (r.enabled ≡ false) × (r.quota_paused_at ≡ none)

  enforce_stopped :
      (r : Route) (p : Panel) → OperatorStopped r → (enforce_route near now today r p).1 ≡ p
  unfolding OperatorStopped enforce_route decide_quota
  enforce_stopped r p h = ground arith

  -- A route whose listing shows it disabled and not paused for its quota has its row left exactly as it
  -- is by a whole round over any list of routes, whatever happens to the others, its traffic and its
  -- quota: the panel never starts a route that its operator stopped, nor marks it as paused.
  pub operator_stop_kept :
      (routes : List Route) (p : Panel) (id : ℕ)
      → All (λ r. (r.id == id) ≡ true → OperatorStopped r) routes
      → find_where (has_id id) (enforce_quotas near now today routes p).1.routes
        ≡ find_where (has_id id) p.routes
  unfolding enforce_quotas
  operator_stop_kept [] p id a = refl
  operator_stop_kept (r ∷ routes) p id (k, a) =
      operator_stop_kept routes (enforce_route near now today r p).1 id a
      ∙ elim (Bool-cases (r.id == id)) [
        | inl e ↦ ap (λ q. find_where (has_id id) q.routes) (enforce_stopped r p (k e))
        | inr e ↦ enforce_other r p id e
      ]

  enforce_over :
      (r : Route) (p : Panel) (quota : ℕ) (used : ℤ)
      → r.quota_bytes ≡ some quota
      → usage_of near now today r p ≡ some (used, true)
      → ltb_ℤ used (pos quota) ≡ false
      → r.enabled ≡ true
      → (enforce_route near now today r p).1 ≡ (pause_for_quota now r p).1
  unfolding enforce_route decide_quota
  enforce_over r p quota used h u over on = rw (h, u, over, on) refl

  usage-traffic :
      (r : Route) (p q : Panel)
      → p.traffic ≡ q.traffic
      → usage_of near now today r p ≡ usage_of near now today r q
  usage-traffic r p q e =
      let today = quota_period_start today r.quota_reset_day in
      ap (period_usage r.id (day_key today)) e

  enforce_after :
      (routes : List Route) (p : Panel) (id : ℕ)
      → All (λ r. (r.id == id) ≡ false) routes
      → find_where (has_id id) (enforce_quotas near now today routes p).1.routes
        ≡ find_where (has_id id) p.routes
  unfolding enforce_quotas
  enforce_after [] p id a = refl
  enforce_after (r ∷ routes) p id (k, a) =
      enforce_after routes (enforce_route near now today r p).1 id a ∙ enforce_other r p id k

  -- A route that is enabled and has a quota, and whose measured usage in its billing period has reached
  -- it, is stopped by a round over any list that names it once, whatever the other routes are and
  -- whether they fail: its row is found disabled, marked as paused at this time, and its hops' running
  -- states are forgotten.
  pub over_quota_stopped :
      (before after : List Route) (r row : Route) (p : Panel) (quota : ℕ) (used : ℤ)
      → r.quota_bytes ≡ some quota
      → r.enabled ≡ true
      → usage_of near now today r p ≡ some (used, true)
      → ltb_ℤ used (pos quota) ≡ false
      → All (λ o. (o.id == r.id) ≡ false) before
      → All (λ o. (o.id == r.id) ≡ false) after
      → find_where (has_id r.id) p.routes ≡ some row
      → find_where (has_id r.id) (enforce_quotas near now today (before ++ r ∷ after) p).1.routes
        ≡ some (stopped now row)
  unfolding enforce_quotas
  over_quota_stopped [] after r row p quota used q on u over a b found =
      enforce_after after (enforce_route near now today r p).1 r.id b
      ∙ ap (λ z. find_where (has_id r.id) z.routes) (enforce_over r p quota used q u over on)
      ∙ (pause_own r p found now).0
  over_quota_stopped (o ∷ before) after r row p quota used q on u over (k, a) b found =
      let p' = (enforce_route near now today o p).1 in
      over_quota_stopped before after r row p' quota used q on
        (usage-traffic r p' p (enforce_traffic o p) ∙ u) over a b (enforce_other o p r.id k ∙ found)
