-- ===== src/Store/Sound.antt =====
-- What the keys and references of the tables promise.
pub mod Hops
pub mod Routes
pub mod Nodes
pub mod Run
use fluxlite.Common.{
  ℕ, zero, suc, ◌+◌, ◌≤◌, ◌<◌, ◌≡◌, refl, ap, ◌∙◌, sym, Text, text_eq, Bool, true, false, not, ◌&&◌,
  ◌||◌, List, [], ◌∷◌, ◌++◌, map, Option, none, some, ◌==◌, if◌then◌else◌, Bool-cases, Option-cases,
  inl, inr, arith, All, All-append, All-map, Result, ok, err, Result-cases,
}
use fluxlite.Common.Exec.{◌>>=◌, ◌>>◌, pure, keeps-bind, keeps-in_tx}
use fluxlite.Common.Tables.{
  find_where, update_where, delete_where, exists_where, All-update, All-delete,
}
use fluxlite.Common.Keys.{
  none_exist, exists-append, exists-append_last, exists-update, exists-delete, All-delete_both,
  Pairwise, Pairwise-append, Pairwise-delete, Pairwise-update,
}
use fluxlite.Model.{Node, Route, RouteHop, validate_node, validate_route, normalise_quota}
use fluxlite.Store.{
  Error, RouteRow, Store, has_id, claims, on_node, goes_via, refers, create_node, update_node,
  delete_node, set_node_host_key, set_node_status, set_node,
}
use fluxlite.Store.Routes.{
  is_route, of_route, at_hop, has_slug, bare_hop, insert_hop, insert_hops, insert_route,
  create_route, update_route, save_row, update_row, clear_hops, update_hops, set_route_enabled,
  set_quota_paused, delete_route, set_hop_latencies, set_hop_running, clear_hop_running,
  path_unchanged, add_hops, put_route, replace_hops, save_route, same_name, new_row, set_row,
}

abbrev pub same_port : RouteHop → RouteHop → Bool
same_port a b = claims b.node_id b.relay_port a

abbrev pub same_order : RouteHop → RouteHop → Bool
same_order a b = at_hop b.route_id b.hop_order a

abbrev pub same_route : RouteRow → RouteRow → Bool
same_route a b = a.id == b.id

abbrev pub same_slug : RouteRow → RouteRow → Bool
same_slug a b = text_eq a.slug b.slug

abbrev pub same_node : Node → Node → Bool
same_node a b = a.id == b.id

abbrev pub NodeKnown : List Node → RouteHop → Type 0
NodeKnown nodes h = exists_where (has_id h.node_id) nodes ≡ true

abbrev pub RouteKnown : List RouteRow → RouteHop → Type 0
RouteKnown routes h = exists_where (is_route h.route_id) routes ≡ true

pub record ValidHops (nodes : List Node) (routes : List RouteRow) (hops : List RouteHop)
    : Type 0 where
  pub one_port : Pairwise same_port hops
  pub one_order : Pairwise same_order hops
  pub nodes_known : All (NodeKnown nodes) hops
  pub routes_known : All (RouteKnown routes) hops

pub record ValidRoutes (routes : List RouteRow) (next : ℕ) : Type 0 where
  pub route_ids : Pairwise same_route routes
  pub slugs : Pairwise same_slug routes
  pub route_bound : All (λ r. r.id < next) routes

pub record ValidNodes (nodes : List Node) (next : ℕ) : Type 0 where
  pub node_ids : Pairwise same_node nodes
  pub node_bound : All (λ n. n.id < next) nodes
  pub vias_known : All (λ n. refers n.via_node_id nodes ≡ true) nodes

pub record Valid (s : Store) : Type 0 where
  pub hops : ValidHops s.nodes s.routes s.hops
  pub routes : ValidRoutes s.routes s.next_route
  pub nodes : ValidNodes s.nodes s.next_node
