-- ===== src/Traffic/Quota.antt =====
-- internal/service/traffic.go: routes are stopped at their quota, and resumed when it allows again.
-- With it internal/store/routes.go and traffic.go: the marks on the route's row.
pub mod Laws
use fluxlite.Common.{
  ℕ, ◌+◌, Text, Bool, true, false, not, ◌&&◌, ◌||◌, List, [], ◌∷◌, ◌++◌, Option, none, some, map,
  ltb, ◌==◌, if◌then◌else◌, is_some, Result, ok, err,
}
use fluxlite.Common.Exec.{Exec, pure, raise, ◌>>=◌, ◌>>◌}
use fluxlite.Common.Int.{ℤ, pos, ltb_ℤ}
use fluxlite.Common.Tables.{find_where, update_where, exists_where}
use fluxlite.Model.{Route, RouteHop}
use fluxlite.Traffic.Db.{TrafficDb, period_usage}
use fluxlite.Traffic.Period.{Date, day_key, quota_period_start}

pub data Error : Type 0 where
  not_found : Error

-- The routes with their hops, the traffic, which nodes are known, and the relays that the applier was
-- told to remove, latest last: the node and the slug. A removal that fails is only logged.
pub record Panel : Type 0 where
  pub routes : List Route
  pub traffic : TrafficDb
  pub node_known : ℕ → Bool
  pub removed : List (ℕ × Text)

abbrev pub has_id : ℕ → Route → Bool
has_id id r = r.id == id

abbrev pub update_route : ℕ → (Route → Route) → Panel → Panel
update_route id f p = record p { routes = update_where (has_id id) f p.routes }

-- `SetRouteEnabled`: a missing row is ErrNotFound.
unfoldable pub set_route_enabled : ℕ → ℕ → Bool → Exec Panel Error (Unit {0})
set_route_enabled now id enabled p =
    if exists_where (has_id id) p.routes
    then (ok tt, update_route id (λ r. record r { enabled = enabled; updated_at = now }) p)
    else (err not_found, p)

-- `SetQuotaPaused`
unfoldable pub set_quota_paused : ℕ → Option ℕ → Panel → Panel
set_quota_paused id at = update_route id (λ r. record r { quota_paused_at = at })

abbrev pub forget_running : RouteHop → RouteHop
forget_running h = record h { running = none; checked_at = none }

-- `ClearHopRunning`
unfoldable pub clear_hop_running : ℕ → Panel → Panel
clear_hop_running id = update_route id (λ r. record r { hops = map forget_running r.hops })

-- The teardown loop: the hops whose node is still known.
unfoldable pub removals : (ℕ → Bool) → Text → List RouteHop → List (ℕ × Text)
removals known slug [] = []
removals known slug (h ∷ hops) =
    let rest = removals known slug hops in
    if known h.node_id then (h.node_id, slug) ∷ rest else rest

abbrev tear_down : Route → Panel → Panel
tear_down r p = record p { removed = p.removed ++ removals p.node_known r.slug r.hops }

-- `pauseForQuota`
unfoldable pub pause_for_quota : ℕ → Route → Exec Panel Error (Unit {0})
unfolding set_route_enabled set_quota_paused clear_hop_running
pause_for_quota now r = do
  set_route_enabled now r.id false
  λ p. (ok tt, tear_down r (clear_hop_running r.id (set_quota_paused r.id (some now) p)))

-- `resumeFromQuota`
unfoldable pub resume_from_quota : ℕ → ℕ → Exec Panel Error (Unit {0})
unfolding set_route_enabled set_quota_paused
resume_from_quota now id = do
  set_route_enabled now id true
  λ p. (ok tt, set_quota_paused id none p)

-- What the switch decides for a route with a quota.
pub data Decision : Type 0 where
  pause resume leave : Decision

unfoldable pub decide_quota : ℤ × Bool → ℕ → Bool → Option ℕ → Decision
decide_quota (used, measured) quota enabled paused_at =
    if not measured
    then leave
    else if not (ltb_ℤ used (pos quota)) && enabled
    then pause
    else if ltb_ℤ used (pos quota) && is_some paused_at
    then resume
    else leave

abbrev act : ℕ → Route → Decision → Exec Panel Error (Unit {0})
act now r pause = pause_for_quota now r
act now r resume = resume_from_quota now r.id
act now r leave = pure tt

abbrev is_failed : Result Error (Unit {0}) → Bool
is_failed (ok _) = false
is_failed (err _) = true

-- `near` is the comparison `float64(used) >= float64(quota)*quotaNearRatio`.
module _ (near : ℤ → ℕ → Bool) (now : ℕ) (today : Date) where
  abbrev pub usage_of : Route → Panel → Option (ℤ × Bool)
  usage_of r p = period_usage r.id (day_key (quota_period_start today r.quota_reset_day)) p.traffic

  -- A route whose usage cannot be read has failed, and is passed over.
  abbrev enforce_usage : Route → ℕ → Option (ℤ × Bool) → Panel → (Bool × Bool) × Panel
  enforce_usage r quota none p = ((false, true), p)
  enforce_usage r quota (some (used, measured)) p =
      let (res, p') =
        act now r (decide_quota (used, measured) quota r.enabled r.quota_paused_at) p in
      ((measured && near used quota, is_failed res), p')

  -- One round of the loop: whether the route is near its limit, and whether it failed.
  unfoldable pub enforce_route : Route → Panel → (Bool × Bool) × Panel
  unfolding pause_for_quota resume_from_quota decide_quota
  enforce_route r p = elim r.quota_bytes [
    | none ↦ ((false, false), p)
    | some quota ↦ enforce_usage r quota (usage_of r p) p
  ]

  -- `EnforceQuotas`, over the routes as they were listed.
  pub enforce_quotas : List Route → Panel → (Bool × Bool) × Panel
  enforce_quotas [] p = ((false, false), p)
  enforce_quotas (r ∷ routes) p =
      let ((near_r, failed_r), p') = enforce_route r p in
      let ((near_rest, failed_rest), p'') = enforce_quotas routes p' in
      ((near_r || near_rest, failed_r || failed_rest), p'')
