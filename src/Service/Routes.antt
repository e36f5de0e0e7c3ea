-- ===== src/Service/Routes.antt =====
-- internal/service/service.go: routes are planned, changed, stopped and deleted.
use fluxlite.Common.{
  ℕ, zero, suc, Text, length, Bool, true, false, not, ◌&&◌, List, [], ◌∷◌, ◌++◌, Option, none, some,
  ◌==◌, if◌then◌else◌, Result, ok, err,
}
use fluxlite.Common.Exec.{guard, ◌>>=◌, ◌>>◌}
use fluxlite.Common.Int.{ℤ, pos, negsuc}
use fluxlite.Common.Tables.{exists_where}
use fluxlite.Model.{Node, Route, RouteHop, Protocol, validate_display_name}
use fluxlite.Planner.{allocate}
use fluxlite.Ports.{live_lookup}
use fluxlite.Slug.{make_slug}
use fluxlite.Store
use fluxlite.Store.{Store, node_by_id, on_node}
use fluxlite.Store.Routes
use fluxlite.Store.Routes.{route_by_id, routes_on_node, first_port, list_routes}
use fluxlite.Service.{
  of_store, of_model, of_plan, of_slug, needs_hops, Removal, World, Action, stored, looked_up,
  check_entry_ipv6,
}

pub record RouteInput : Type 0 where
  pub name : Text
  pub target : Text
  pub protocol : Protocol
  pub node_ids : List ℕ
  pub entry_port : Option ℕ
  pub enabled : Bool
  pub listen_ipv6 : Bool
  pub quota_bytes : Option ℕ
  pub quota_reset_day : ℤ

abbrev day_or_first : ℤ → ℤ
day_or_first (pos zero) = pos 1
day_or_first (pos (suc n)) = pos (suc n)
day_or_first (negsuc n) = negsuc n

-- `resetDayOr`
abbrev pub reset_day_or : RouteInput → ℤ
reset_day_or input = day_or_first input.quota_reset_day

-- The hops before a port is given to them, from an order on.
abbrev pub chain : ℕ → ℕ → List ℕ → List RouteHop
chain id order [] = []
chain id order (node ∷ nodes) =
    record {
      route_id = id;
      hop_order = order;
      node_id = node;
      relay_port = 0;
      latency_ms = none;
      latency_at = none;
      running = none;
      checked_at = none;
    }
    ∷ chain id (suc order) nodes

abbrev pub is_empty : List ℕ → Bool
is_empty [] = true
is_empty (x ∷ xs) = false

abbrev pub new_route : RouteInput → Text → List RouteHop → Route
new_route input slug hops = record {
  id = 0;
  name = input.name;
  slug = slug;
  target = input.target;
  protocol = input.protocol;
  entry_port = first_port hops;
  listen_ipv6 = input.listen_ipv6;
  enabled = input.enabled;
  quota_bytes = input.quota_bytes;
  quota_reset_day = reset_day_or input;
  quota_paused_at = none;
  created_at = 0;
  updated_at = 0;
  hops = hops;
}

-- What `UpdateRoute` changes of the route that it loaded.
abbrev pub edited : RouteInput → List RouteHop → Route → Route
edited input hops r = record r {
  name = input.name;
  target = input.target;
  protocol = input.protocol;
  enabled = input.enabled;
  listen_ipv6 = input.listen_ipv6;
  quota_bytes = input.quota_bytes;
  quota_reset_day = reset_day_or input;
  hops = hops;
  entry_port = first_port hops;
}

-- `ipv6EntryInUse`
abbrev starts_at : ℕ → List RouteHop → Bool
starts_at node [] = false
starts_at node (h ∷ hops) = h.node_id == node

unfoldable pub ipv6_entry_in_use : ℕ → Store → Bool
ipv6_entry_in_use node s =
    exists_where (λ r. r.listen_ipv6 && starts_at node r.hops) (routes_on_node node s)

-- `run` is what the port script prints on a node, `lower` and `sum` are for slugs.
module _ (run : Node → Option Text) (lower : ℕ → ℕ) (sum : Text → List ℕ) where
  -- `CreateRoute`: the id of the new route.
  unfoldable pub create_route : ℕ → (ℕ → Option (List ℕ)) → RouteInput → Action ℕ
  create_route now draws input = do
    looked_up of_model (λ s. validate_display_name input.name)
    guard (not (is_empty input.node_ids)) needs_hops
    name ← looked_up of_slug (λ s. make_slug lower sum draws s input.name)
    hops ← looked_up of_plan (λ s.
        allocate (live_lookup run none s) input.protocol (chain 0 0 input.node_ids)
          input.entry_port)
    looked_up (λ e. e) (check_entry_ipv6 hops false input.listen_ipv6)
    stored (Routes.create_route now (new_route input name hops))

abbrev pub uses : List RouteHop → ℕ → Bool
uses hops node = exists_where (on_node node) hops

-- `attempt` is what the applier answers to a removal, given how many were asked for before it.
module _ (attempt : ℕ → Node → Text → Removal) where
  -- `applier.Remove`
  abbrev pub remove : Node → Text → World → Removal × World
  remove n slug w =
      let outcome = attempt (length w.attempts) n slug in
      (
        outcome,
        record w {
          attempts = w.attempts ++ record { node_id = n.id; slug = slug; outcome = outcome } ∷ [];
        },
      )

  abbrev remove_if_known : Result Store.Error Node → Text → World → World
  remove_if_known (err e) slug w = w
  remove_if_known (ok n) slug w = (remove n slug w).1

  -- `removeOrphanedHops`: failures are not looked at.
  unfoldable pub remove_orphaned_hops : List RouteHop → List RouteHop → Text → World → World
  remove_orphaned_hops [] current slug w = w
  remove_orphaned_hops (h ∷ previous) current slug w =
      remove_orphaned_hops previous current slug (
        if uses current h.node_id
        then w
        else remove_if_known (node_by_id h.node_id w.tables) slug w)

  module _ (run : Node → Option Text) where
    -- `UpdateRoute`: the route as it is saved.
    unfoldable pub update_route : ℕ → ℕ → RouteInput → Action Route
    unfolding remove_orphaned_hops
    update_route now id input = do
      route ← looked_up of_store (route_by_id id)
      looked_up of_model (λ s. validate_display_name input.name)
      guard (not (is_empty input.node_ids)) needs_hops
      hops ← looked_up of_plan (λ s.
          allocate (live_lookup run (some id) s) input.protocol (chain id 0 input.node_ids)
            input.entry_port)
      looked_up (λ e. e) (check_entry_ipv6 hops route.listen_ipv6 input.listen_ipv6)
      stored (Routes.update_route now (edited input hops route))
      λ w. (ok (edited input hops route), remove_orphaned_hops route.hops hops route.slug w)
