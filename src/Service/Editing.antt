-- ===== src/Service/Editing.antt =====
-- `UpdateRoute` against the tables and the machines: what it saves, and why it refuses.
use fluxlite.Common.{
  ℕ, ◌≡◌, Text, true, false, List, [], ◌++◌, map, Option, some, if◌then◌else◌, All, Result, ok, err,
}
use fluxlite.Common.Tables.{exists_where, update_where, delete_where}
use fluxlite.Model.{Node, Route, RouteHop, validate_display_name, validate_route, normalise_quota}
use fluxlite.Planner
use fluxlite.Planner.{allocate}
use fluxlite.Ports.{live_lookup}
use fluxlite.Store.{Store, conflict, port_claimed, foreign_key, not_found, invalid}
use fluxlite.Store.Routes
use fluxlite.Store.Routes.{
  is_route, of_route, at_hop, same_name, bare_hop, set_row, save_row, save_route, path_unchanged,
  insert_hops, clear_hops, update_row, route_by_id, load_route,
}
use fluxlite.Service.{
  Error, of_store, of_model, of_plan, of_slug, needs_hops, ipv6_unprobed, ipv6_unavailable, Removal,
  World, Action,
}
use fluxlite.Service.Routes.{RouteInput, chain, edited, remove_orphaned_hops}
use fluxlite.Service.Placement.{IsFree, Ascending}

-- Why an edit is refused, for each error that may come back. Of the keys and references of the tables
-- only the names in a family can be in the way.
abbrev pub IsRefused : (Node → Option Text) → ℕ → RouteInput → Store → Error → Type 0
IsRefused run id input s (of_store conflict) =
    exists_where (same_name input.listen_ipv6 input.name id) s.routes ≡ true
IsRefused run id input s (of_store not_found) = exists_where (is_route id) s.routes ≡ false
IsRefused run id input s (of_store port_claimed) = ⊥
IsRefused run id input s (of_store foreign_key) = ⊥
IsRefused run id input s (of_store (invalid e)) =
    (old : Route) × (hops : List RouteHop) × (route_by_id id s ≡ ok old)
    × All (IsFree run (some id) s) hops
    × (validate_route (normalise_quota (edited input hops old)) ≡ err e)
IsRefused run id input s (of_model e) = validate_display_name input.name ≡ err e
IsRefused run id input s (of_plan e) =
    allocate (live_lookup run (some id) s) input.protocol (chain id 0 input.node_ids)
      input.entry_port
    ≡ err e
IsRefused run id input s (of_slug e) = ⊥
IsRefused run id input s needs_hops = input.node_ids ≡ []
IsRefused run id input s ipv6_unprobed = input.listen_ipv6 ≡ true
IsRefused run id input s ipv6_unavailable = input.listen_ipv6 ≡ true
IsRefused run id input s _ = ⊥

-- The hops of the route give way to new ones, unless they are the same.
abbrev pub with_edit : ℕ → ℕ → Route → Store → Store
with_edit now id r s = record s {
  routes = update_where (is_route id) (set_row now (normalise_quota r)) s.routes;
  hops =
      if path_unchanged (normalise_quota r) s
      then s.hops
      else delete_where (of_route id) s.hops ++ map (bare_hop id) r.hops;
}

pub record IsSaved (run : Node → Option Text) (now id : ℕ) (input : RouteInput) (w : World)
    (r : Route) (t : World) : Type 0 where
  pub old : Route
  pub hops : List RouteHop
  pub loaded : route_by_id id w.tables ≡ ok old
  pub changed : r ≡ edited input hops old
  pub saved : t.tables ≡ with_edit now id r w.tables
  pub along : map (λ h. h.node_id) hops ≡ input.node_ids
  pub in_order : Ascending 0 hops
  pub free : All (IsFree run (some id) w.tables) hops

abbrev pub IsOutcome :
    (Node → Option Text) → ℕ → ℕ → RouteInput → World → Result Error Route × World → Type 0
IsOutcome run now id input w (ok r, t) = IsSaved run now id input w r t
IsOutcome run now id input w (err e, t) = IsRefused run id input w.tables e × (t ≡ w)

module _ (run : Node → Option Text) (attempt : ℕ → Node → Text → Removal) (now : ℕ)
    (input : RouteInput) (w : World) (old : Route) (hops : List RouteHop) where
  abbrev finish : Action Route
  finish u = (ok (edited input hops old), remove_orphaned_hops attempt old.hops hops old.slug u)
