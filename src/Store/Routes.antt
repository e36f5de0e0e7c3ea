-- ===== src/Store/Routes.antt =====
-- internal/store/routes.go: routes and their hops.
use fluxlite.Common.{
  ℕ, suc, Text, text_eq, Bool, true, false, not, ◌&&◌, ◌||◌, List, [], ◌∷◌, ◌++◌, Option, none,
  some, map, ltb, leb, ◌==◌, if◌then◌else◌, Result, ok, err,
}
use fluxlite.Common.Exec.{pure, in_tx, ◌>>=◌, ◌>>◌}
use fluxlite.Common.Sorting.{sort_by}
use fluxlite.Common.Tables.{find_where, select_where, update_where, delete_where, exists_where}
use fluxlite.Model.{Route, RouteHop, validate_route, normalise_quota}
use fluxlite.Store.{
  text_leq, Error, not_found, conflict, port_claimed, foreign_key, invalid, RouteRow, Store, Op,
  has_id, on_node, claims,
}

abbrev pub is_route : ℕ → RouteRow → Bool
is_route id r = r.id == id

abbrev pub of_route : ℕ → RouteHop → Bool
of_route id h = h.route_id == id

abbrev pub at_hop : ℕ → ℕ → RouteHop → Bool
at_hop id order h = h.route_id == id && h.hop_order == order

-- The columns that an INSERT INTO route_hops sets.
abbrev pub bare_hop : ℕ → RouteHop → RouteHop
bare_hop id h = record h {
  route_id = id;
  latency_ms = none;
  latency_at = none;
  running = none;
  checked_at = none;
}

-- One INSERT INTO route_hops: the primary key and the index on the node's port, then the references.
unfoldable pub insert_hop : RouteHop → Op (Unit {0})
insert_hop h s =
    if exists_where (at_hop h.route_id h.hop_order) s.hops
      || exists_where (claims h.node_id h.relay_port) s.hops
    then (err port_claimed, s)
    else if not (exists_where (is_route h.route_id) s.routes)
        || not (exists_where (has_id h.node_id) s.nodes)
    then (err foreign_key, s)
    else (ok tt, record s { hops = s.hops ++ h ∷ [] })

-- `insertHops`
unfoldable pub insert_hops : List RouteHop → Op (Unit {0})
unfolding insert_hop
insert_hops [] = pure tt
insert_hops (h ∷ hops) = insert_hop h >> insert_hops hops

-- The unique indexes on the slug, and on the name in its family.
abbrev pub same_name : Bool → Text → ℕ → RouteRow → Bool
same_name v6 name id r =
    (text_eq r.name name && (if v6 then r.listen_ipv6 else not r.listen_ipv6)) && not (r.id == id)

abbrev pub has_slug : Text → RouteRow → Bool
has_slug slug r = text_eq r.slug slug

abbrev pub new_row : ℕ → ℕ → Route → RouteRow
new_row now id r = record {
  id = id;
  name = r.name;
  slug = r.slug;
  target = r.target;
  protocol = r.protocol;
  enabled = r.enabled;
  listen_ipv6 = r.listen_ipv6;
  quota_bytes = r.quota_bytes;
  quota_reset_day = r.quota_reset_day;
  quota_paused_at = none;
  sort_order = none;
  created_at = now;
  updated_at = now;
}

-- INSERT INTO routes: the id of the new row.
unfoldable pub insert_route : ℕ → Route → Op ℕ
insert_route now r s =
    if exists_where (has_slug r.slug) s.routes
      || exists_where (same_name r.listen_ipv6 r.name s.next_route) s.routes
    then (err conflict, s)
    else (
      ok s.next_route,
      record s {
        routes = s.routes ++ new_row now s.next_route r ∷ [];
        next_route = suc s.next_route;
      },
    )

abbrev pub add_hops : Route → ℕ → Op ℕ
add_hops r id = do insert_hops (map (bare_hop id) r.hops); pure id

abbrev pub put_route : ℕ → Route → Op ℕ
put_route now r = do id ← insert_route now r; add_hops r id

-- `CreateRoute`
unfoldable pub create_route : ℕ → Route → Op ℕ
unfolding insert_route insert_hops
create_route now r s = elim (validate_route (normalise_quota r)) [
  | err e ↦ (err (invalid e), s)
  | ok _ ↦ in_tx (put_route now (normalise_quota r)) s
]

-- `loadHops`
unfoldable pub load_hops : ℕ → Store → List RouteHop
load_hops id s = sort_by (λ a b. leb a.hop_order b.hop_order) (select_where (of_route id) s.hops)

abbrev pub first_port : List RouteHop → ℕ
first_port [] = 0
first_port (h ∷ hops) = h.relay_port

-- `scanRoute`, with the hops.
unfoldable pub load_route : Store → RouteRow → Route
unfolding load_hops
load_route s r = record {
  id = r.id;
  name = r.name;
  slug = r.slug;
  target = r.target;
  protocol = r.protocol;
  entry_port = first_port (load_hops r.id s);
  listen_ipv6 = r.listen_ipv6;
  enabled = r.enabled;
  quota_bytes = r.quota_bytes;
  quota_reset_day = r.quota_reset_day;
  quota_paused_at = r.quota_paused_at;
  created_at = r.created_at;
  updated_at = r.updated_at;
  hops = load_hops r.id s;
}

abbrev pub loaded : Store → Option RouteRow → Result Error Route
loaded s none = err not_found
loaded s (some r) = ok (load_route s r)

-- `RouteByID`
unfoldable pub route_by_id : ℕ → Store → Result Error Route
route_by_id id s = loaded s (find_where (is_route id) s.routes)

-- `RouteBySlug`
unfoldable pub route_by_slug : Text → Store → Result Error Route
route_by_slug slug s = loaded s (find_where (has_slug slug) s.routes)

abbrev by_name : RouteRow → RouteRow → Bool
by_name a b = text_leq a.name b.name

-- ORDER BY sort_order IS NULL, sort_order, name, id
abbrev by_order : Option ℕ → Option ℕ → Bool → Bool
by_order none none rest = rest
by_order none (some y) rest = false
by_order (some x) none rest = true
by_order (some x) (some y) rest = ltb x y || x == y && rest

abbrev in_order : RouteRow → RouteRow → Bool
in_order a b =
    by_order a.sort_order b.sort_order
      (text_leq a.name b.name && (not (text_eq a.name b.name) || leb a.id b.id))

-- `ListRoutes`
unfoldable pub list_routes : Store → List Route
unfolding load_route
list_routes s = map (load_route s) (sort_by in_order s.routes)

-- `RoutesOnNode`
unfoldable pub routes_on_node : ℕ → Store → List Route
unfolding load_route
routes_on_node node s = map (load_route s) (
    sort_by by_name
      (select_where (λ r. exists_where (λ h. of_route r.id h && on_node node h) s.hops) s.routes))

abbrev same_leg : RouteHop → RouteHop → Bool
same_leg a b = a.hop_order == b.hop_order && a.node_id == b.node_id && a.relay_port == b.relay_port

abbrev pub same_legs : List RouteHop → List RouteHop → Bool
same_legs [] [] = true
same_legs [] (b ∷ ks) = false
same_legs (a ∷ hs) [] = false
same_legs (a ∷ hs) (b ∷ ks) = same_leg a b && same_legs hs ks

-- `pathUnchanged`
unfoldable pub path_unchanged : Route → Store → Bool
unfolding load_hops
path_unchanged r s = elim (find_where (is_route r.id) s.routes) [
  | none ↦ false
  | some old ↦ text_eq old.target r.target && same_legs (load_hops r.id s) r.hops
]

abbrev pub set_row : ℕ → Route → RouteRow → RouteRow
set_row now r old = record old {
  name = r.name;
  target = r.target;
  protocol = r.protocol;
  enabled = r.enabled;
  listen_ipv6 = r.listen_ipv6;
  quota_bytes = r.quota_bytes;
  quota_reset_day = r.quota_reset_day;
  updated_at = now;
}

abbrev pub clear_hops : ℕ → Store → Store
clear_hops id s = record s { hops = delete_where (of_route id) s.hops }

abbrev pub replace_hops : Bool → Route → Op (Unit {0})
replace_hops keep r s =
    if keep then (ok tt, s) else insert_hops (map (bare_hop r.id) r.hops) (clear_hops r.id s)

-- UPDATE routes
unfoldable pub save_row : ℕ → Route → Op (Unit {0})
save_row now r s =
    if not (exists_where (is_route r.id) s.routes)
    then (err not_found, s)
    else if exists_where (same_name r.listen_ipv6 r.name r.id) s.routes
    then (err conflict, s)
    else (ok tt, record s { routes = update_where (is_route r.id) (set_row now r) s.routes })

-- The transaction, with whether the path was unchanged when it began.
abbrev pub save_route : ℕ → Route → Bool → Op (Unit {0})
save_route now r keep = save_row now r >> replace_hops keep r

-- `UpdateRoute`
unfoldable pub update_route : ℕ → Route → Op (Unit {0})
unfolding insert_hops path_unchanged save_row
update_route now r s = elim (validate_route (normalise_quota r)) [
  | err e ↦ (err (invalid e), s)
  | ok _ ↦ in_tx (save_route now (normalise_quota r) (path_unchanged (normalise_quota r) s)) s
]

abbrev pub update_row : ℕ → (RouteRow → RouteRow) → Store → Store
update_row id f s = record s { routes = update_where (is_route id) f s.routes }

-- `SetRouteEnabled`
unfoldable pub set_route_enabled : ℕ → ℕ → Bool → Op (Unit {0})
set_route_enabled now id enabled s =
    if exists_where (is_route id) s.routes
    then (ok tt, update_row id (λ r. record r { enabled = enabled; updated_at = now }) s)
    else (err not_found, s)

-- `SetQuotaPaused` of internal/store/traffic.go.
unfoldable pub set_quota_paused : ℕ → Option ℕ → Store → Store
set_quota_paused id at = update_row id (λ r. record r { quota_paused_at = at })

-- `DeleteRoute`: the hops go with the row.
unfoldable pub delete_route : ℕ → Op (Unit {0})
delete_route id s =
    if exists_where (is_route id) s.routes
    then (ok tt, record (clear_hops id s) { routes = delete_where (is_route id) s.routes })
    else (err not_found, s)

abbrev pub update_hops : (RouteHop → Bool) → (RouteHop → RouteHop) → Store → Store
update_hops p f s = record s { hops = update_where p f s.hops }

-- `SetHopLatencies`: the entries of the map, one for each hop order.
unfoldable pub set_hop_latencies : ℕ → ℕ → List (ℕ × ℕ) → Store → Store
set_hop_latencies now id [] s = s
set_hop_latencies now id ((order, ms) ∷ rest) s = set_hop_latencies now id rest (
    update_hops (at_hop id order) (λ h. record h { latency_ms = some ms; latency_at = some now }) s)

-- `SetHopRunning`
unfoldable pub set_hop_running : ℕ → ℕ → ℕ → Bool → Store → Store
set_hop_running now id order running =
    update_hops (at_hop id order) (λ h. record h { running = some running; checked_at = some now })

-- `ClearHopRunning`
unfoldable pub clear_hop_running : ℕ → Store → Store
clear_hop_running id =
    update_hops (of_route id) (λ h. record h { running = none; checked_at = none })
