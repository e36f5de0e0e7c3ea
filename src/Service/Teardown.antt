-- ===== src/Service/Teardown.antt =====
-- internal/service/service.go: routes are stopped and deleted, and their state is reported.
pub mod Leftovers
use fluxlite.Common.{
  ℕ, Text, Bool, true, false, List, [], ◌∷◌, ◌++◌, map, Option, none, some, if◌then◌else◌, Result,
  ok, err,
}
use fluxlite.Common.Exec.{pure, ◌>>=◌, ◌>>◌}
use fluxlite.Model.{Node, Route, RouteHop, NodeStatus, unknown_status, online, offline}
use fluxlite.Store
use fluxlite.Store.{Store, node_by_id}
use fluxlite.Store.Routes
use fluxlite.Store.Routes.{route_by_id, list_routes, set_route_enabled, clear_hop_running}
use fluxlite.Service.{
  Error, of_store, stop_failed, Removal, removed, timed_out, failed, Attempt, World, Action, stored,
  looked_up,
}
use fluxlite.Service.Routes.{remove}

-- Why a relay is still there.
pub data Reason : Type 0 where
  node_offline no_answer : Reason
  refused : Text → Reason

-- `RouteLeftover`
pub record Leftover : Type 0 where
  pub node_id : ℕ
  pub node_name : Text
  pub reason : Reason

abbrev pub is_offline : NodeStatus → Bool
is_offline offline = true
is_offline _ = false

abbrev pub is_removed : Removal → Bool
is_removed removed = true
is_removed _ = false

abbrev pub left_by : Node → Removal → List Leftover
left_by n removed = []
left_by n timed_out = record { node_id = n.id; node_name = n.name; reason = no_answer } ∷ []
left_by n (failed why) = record { node_id = n.id; node_name = n.name; reason = refused why } ∷ []

abbrev pub left_offline : Node → List Leftover
left_offline n = record { node_id = n.id; node_name = n.name; reason = node_offline } ∷ []

-- A hop's state as `RouteStatuses` reports it; the node's name is its, or the error of the lookup.
pub record HopStatus : Type 0 where
  pub node_id : ℕ
  pub node_name : Result Store.Error Text
  pub hop_order : ℕ
  pub listen : ℕ
  pub running : Option Bool
  pub checked_at : Option ℕ

pub record RouteStatus : Type 0 where
  pub route_id : ℕ
  pub name : Text
  pub hops : List HopStatus

abbrev name_of : Result Store.Error Node → Result Store.Error Text
name_of (ok n) = ok n.name
name_of (err e) = err e

abbrev pub hop_status : Store → RouteHop → HopStatus
hop_status s h = record {
  node_id = h.node_id;
  node_name = name_of (node_by_id h.node_id s);
  hop_order = h.hop_order;
  listen = h.relay_port;
  running = h.running;
  checked_at = h.checked_at;
}

-- `RouteStatuses`
unfoldable pub route_statuses : Store → List RouteStatus
route_statuses s =
    map (λ r. record { route_id = r.id; name = r.name; hops = map (hop_status s) r.hops })
      (list_routes s)

module _ (attempt : ℕ → Node → Text → Removal) where
  -- One hop of the teardown of `DeleteRoute`: what is left there.
  abbrev pub clean_node : Text → Result Store.Error Node → World → List Leftover × World
  clean_node slug (err e) w = ([], w)
  clean_node slug (ok n) w =
      if is_offline n.status
      then (left_offline n, w)
      else (let (outcome, w') = remove attempt n slug w in (left_by n outcome, w'))

  -- The loop of `DeleteRoute` over the hops.
  unfoldable pub clean_hops : Text → List RouteHop → World → List Leftover × World
  clean_hops slug [] w = ([], w)
  clean_hops slug (h ∷ hops) w =
      let (left, w') = clean_node slug (node_by_id h.node_id w.tables) w in
      let (rest, w'') = clean_hops slug hops w' in (left ++ rest, w'')

  abbrev pub drop_route : ℕ → Route → Action (List Leftover)
  drop_route id route w =
      let (left, w') = clean_hops route.slug route.hops w in
      (stored (Routes.delete_route id) >> λ t. (ok left, t)) w'

  -- `DeleteRoute`
  unfoldable pub delete_route : ℕ → Action (List Leftover)
  unfolding clean_hops
  delete_route id = looked_up of_store (route_by_id id) >>= drop_route id

  -- One hop of `StopRoute`.
  abbrev pub stop_hop : Text → ℕ → Action (Unit {0})
  stop_hop slug node w = elim (node_by_id node w.tables) [
    | err e ↦ (ok tt, w)
    | ok n ↦
        let (outcome, w') = remove attempt n slug w in
        (if is_removed outcome then ok tt else err (stop_failed n.id), w')
  ]

  unfoldable pub stop_hops : Text → List RouteHop → Action (Unit {0})
  stop_hops slug [] = pure tt
  stop_hops slug (h ∷ hops) = stop_hop slug h.node_id >> stop_hops slug hops

  -- `StopRoute`
  unfoldable pub stop_route : ℕ → ℕ → Action (Unit {0})
  unfolding stop_hops
  stop_route now id = do
    route ← looked_up of_store (route_by_id id)
    stop_hops route.slug route.hops
    λ w. (ok tt, record w { tables = clear_hop_running id w.tables })
    stored (set_route_enabled now id false)
