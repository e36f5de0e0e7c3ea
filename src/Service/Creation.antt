-- ===== src/Service/Creation.antt =====
-- `CreateRoute` against the tables and the machines: what it stores, and why it refuses.
use fluxlite.Common.{
  ℕ, suc, ◌≡◌, Text, true, false, List, [], ◌∷◌, ◌++◌, map, Option, none, All, Result, ok, err,
}
use fluxlite.Common.Tables.{exists_where}
use fluxlite.Model.{Node, RouteHop, validate_display_name, validate_route, normalise_quota}
use fluxlite.Planner.{allocate}
use fluxlite.Ports.{live_lookup}
use fluxlite.Slug.{make_slug}
use fluxlite.Store.{Store, conflict, port_claimed, foreign_key, not_found, invalid}
use fluxlite.Store.Routes
use fluxlite.Store.Routes.{
  is_route, at_hop, has_slug, same_name, bare_hop, new_row, insert_route, insert_hops, put_route,
}
use fluxlite.Service.{
  Error, of_store, of_model, of_plan, of_slug, needs_hops, ipv6_unprobed, ipv6_unavailable, World,
}
use fluxlite.Service.Routes.{RouteInput, chain, new_route}
use fluxlite.Service.Placement.{IsFree, Ascending}

-- Why a route is refused, for each error that may come back. Of the keys and references of the tables
-- only the names in a family can be in the way.
abbrev pub IsRefused :
    (Node → Option Text)
    → (ℕ → ℕ)
    → (Text → List ℕ)
    → (ℕ → Option (List ℕ))
    → RouteInput
    → Store
    → Error
    → Type 0
IsRefused run lower sum draws input s (of_store conflict) =
    exists_where (same_name input.listen_ipv6 input.name s.next_route) s.routes ≡ true
IsRefused run lower sum draws input s (of_store not_found) = ⊥
IsRefused run lower sum draws input s (of_store port_claimed) = ⊥
IsRefused run lower sum draws input s (of_store foreign_key) = ⊥
IsRefused run lower sum draws input s (of_store (invalid e)) =
    (slug : Text) × (hops : List RouteHop) × (make_slug lower sum draws s input.name ≡ ok slug)
    × All (IsFree run none s) hops
    × (validate_route (normalise_quota (new_route input slug hops)) ≡ err e)
IsRefused run lower sum draws input s (of_model e) = validate_display_name input.name ≡ err e
IsRefused run lower sum draws input s (of_plan e) =
    allocate (live_lookup run none s) input.protocol (chain 0 0 input.node_ids) input.entry_port
    ≡ err e
IsRefused run lower sum draws input s (of_slug e) = make_slug lower sum draws s input.name ≡ err e
IsRefused run lower sum draws input s needs_hops = input.node_ids ≡ []
IsRefused run lower sum draws input s ipv6_unprobed = input.listen_ipv6 ≡ true
IsRefused run lower sum draws input s ipv6_unavailable = input.listen_ipv6 ≡ true
IsRefused run lower sum draws input s _ = ⊥

-- A route that is stored, on hops that nothing else holds.
pub record IsCreated (run : Node → Option Text) (now : ℕ) (input : RouteInput) (w : World) (id : ℕ)
    (t : World) : Type 0 where
  pub slug : Text
  pub hops : List RouteHop
  pub new_id : id ≡ w.tables.next_route
  pub saved : t ≡ record w {
    tables = record w.tables {
      routes = w.tables.routes ++ new_row now id (normalise_quota (new_route input slug hops)) ∷ [];
      hops = w.tables.hops ++ map (bare_hop id) hops;
      next_route = suc w.tables.next_route;
    };
  }
  pub unused : exists_where (has_slug slug) w.tables.routes ≡ false
  pub along : map (λ h. h.node_id) hops ≡ input.node_ids
  pub in_order : Ascending 0 hops
  pub free : All (IsFree run none w.tables) hops

abbrev pub IsOutcome :
    (Node → Option Text)
    → (ℕ → ℕ)
    → (Text → List ℕ)
    → (ℕ → Option (List ℕ))
    → ℕ
    → RouteInput
    → World
    → Result Error ℕ × World
    → Type 0
IsOutcome run lower sum draws now input w (ok id, t) = IsCreated run now input w id t
IsOutcome run lower sum draws now input w (err e, t) =
    IsRefused run lower sum draws input w.tables e × (t ≡ w)
