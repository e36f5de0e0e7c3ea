-- ===== src/Service/Placement/Fresh.antt =====
-- A new route's row and hops, against what is stored.
use fluxlite.Common.{
  ℕ, suc, ◌<◌, ◌≡◌, refl, ap, ◌∙◌, sym, inl, inr, Text, true, false, not, ◌&&◌, List, [], ◌∷◌, ◌++◌,
  map, Option, none, Bool-cases, Option-cases, arith, All, ok, err, is_some,
}
use fluxlite.Common.Keys.{exists-append_last, Pairwise}
use fluxlite.Common.Tables.{find_where, exists_where, exists-find}
use fluxlite.Model.{Node, Protocol, Route, RouteHop, normalise_quota, is_unset}
use fluxlite.Planner.{allocate}
use fluxlite.Planner.Allocation.{allocate_sound}
use fluxlite.Ports.{live_lookup}
use fluxlite.Store.{
  Store, RouteRow, conflict, has_id, claims, node_by_id, used_ports_on_node, is_excluded,
}
use fluxlite.Store.Routes.{
  is_route, at_hop, has_slug, same_name, bare_hop, new_row, insert_route, put_route,
}
use fluxlite.Store.Sound.{Valid, same_port, RouteKnown}
use fluxlite.Service.Routes.{chain}
use fluxlite.Service.Placement.{
  Fits, IsFree, Ascending, by_id, insert_hops_ok, ArePlaced-IsFree, bare-same_port, bare-same_order,
}

-- Hops of a new id meet nothing.
pub exists_bound :
    (id next : ℕ) (routes : List RouteRow)
    → All (λ r. r.id < next) routes
    → exists_where (is_route id) routes ≡ true
    → id < next
exists_bound id next [] a h = cc
exists_bound id next (r ∷ routes) (l, a) h = elim (Bool-cases (is_route id r)) [
  | inl e ↦ ground (arith, e, l)
  | inr e ↦ exists_bound id next routes a (rw e at h)
]

pub fresh_place :
    (next order : ℕ) (routes : List RouteRow) (hops : List RouteHop)
    → All (λ r. r.id < next) routes
    → All (RouteKnown routes) hops
    → exists_where (at_hop next order) hops ≡ false
fresh_place next order routes [] a h = refl
fresh_place next order routes (k ∷ hops) a (known, h) =
    let below = exists_bound k.route_id next routes a known in
    let other : at_hop next order k ≡ false = ground (arith, below) in
    rw other (fresh_place next order routes hops a h)

pub none_excluded :
    (node port : ℕ) (hops : List RouteHop)
    → exists_where (λ h. claims node port h && not (is_excluded none h)) hops
      ≡ exists_where (claims node port) hops
none_excluded node port [] = refl
none_excluded node port (h ∷ hops) = elim (Bool-cases (claims node port h)) [
  | inl e ↦ rw e refl
  | inr e ↦ rw e (none_excluded node port hops)
]

pub known_node :
    (id : ℕ) (s : Store) {n : Node}
    → node_by_id id s ≡ ok n
    → exists_where (has_id id) s.nodes ≡ true
unfolding node_by_id
known_node id s {n} h = elim (Option-cases (find_where (has_id id) s.nodes)) [
  | inl e ↦ cc (rw (node_by_id, e) at h)
  | inr (m, e) ↦ exists-find (has_id id) s.nodes ∙ ap is_some e
]

module _ (run : Node → Option Text) (s : Store) (v : Valid s) where
  abbrev with_row : RouteRow → Store
  with_row r = record s { routes = s.routes ++ r ∷ []; next_route = suc s.next_route }

  free-Fits :
      (row : RouteRow)
      → row.id ≡ s.next_route
      → (hops : List RouteHop) → All (IsFree run none s) hops
      → All (Fits (with_row row)) (map (bare_hop s.next_route) hops)
  unfolding used_ports_on_node
  free-Fits row here [] a = tt
  free-Fits row here (h ∷ hops) (free, a) = (
    (
      exists-append_last (is_route s.next_route) s.routes row (ground (arith, here)),
      known_node h.node_id s free.found,
      fresh_place s.next_route h.hop_order s.routes s.hops v.routes.route_bound v.hops.routes_known,
      sym (none_excluded h.node_id h.relay_port s.hops) ∙ free.not_stored,
    ),
    free-Fits row here hops a,
  )

  -- The transaction of the store, on a slug that is unused and a name that is.
  pub put_route_ok :
      (now : ℕ) (r : Route)
      → exists_where (has_slug r.slug) s.routes ≡ false
      → exists_where (same_name r.listen_ipv6 r.name s.next_route) s.routes ≡ false
      → All (IsFree run none s) r.hops
      → Pairwise same_port (map (bare_hop s.next_route) r.hops)
      → Ascending 0 r.hops
      → put_route now r s ≡ (
        ok s.next_route,
        record s {
          routes = s.routes ++ new_row now s.next_route r ∷ [];
          hops = s.hops ++ map (bare_hop s.next_route) r.hops;
          next_route = suc s.next_route;
        },
      )
  unfolding insert_route
  put_route_ok now r slug name free ports places =
      let row = new_row now s.next_route r in
      let hops = map (bare_hop s.next_route) r.hops in
      let stored =
        insert_hops_ok hops (with_row row) (free-Fits row refl r.hops free) ports
          (bare-same_order s.next_route 0 r.hops places) in
      rw (slug, name) (rw stored refl)

  pub put_route_taken :
      (now : ℕ) (r : Route)
      → exists_where (has_slug r.slug) s.routes ≡ false
      → exists_where (same_name r.listen_ipv6 r.name s.next_route) s.routes ≡ true
      → put_route now r s ≡ (err conflict, s)
  unfolding insert_route
  put_route_taken now r slug name = rw (slug, name) refl

pub normalise_keeps :
    (r : Route)
    → ((normalise_quota r).slug ≡ r.slug)
      × ((normalise_quota r).name ≡ r.name)
      × ((normalise_quota r).listen_ipv6 ≡ r.listen_ipv6)
      × ((normalise_quota r).hops ≡ r.hops)
      × ((normalise_quota r).id ≡ r.id)
unfolding normalise_quota
normalise_keeps r = elim (Bool-cases (is_unset r.quota_reset_day)) [
  | inl e ↦ rw e (refl, refl, refl, refl, refl)
  | inr e ↦ rw e (refl, refl, refl, refl, refl)
]

-- What an allocation for hops in a row gives.
pub allocate_facts :
    (run : Node → Option Text) (exclude : Option ℕ) (s : Store) (protocol : Protocol) (id : ℕ)
    (nodes : List ℕ) (entry_port : Option ℕ) {hops : List RouteHop}
    → allocate (live_lookup run exclude s) protocol (chain id 0 nodes) entry_port ≡ ok hops
    → All (IsFree run exclude s) hops
      × (map (λ h. h.node_id) hops ≡ nodes)
      × Ascending 0 hops
      × ((next : ℕ) → Pairwise same_port (map (bare_hop next) hops))
allocate_facts run exclude s protocol id nodes entry_port {hops} h =
    let lookup = live_lookup run exclude s in
    let (placed, apart) =
      allocate_sound lookup protocol (λ i n e. (by_id run exclude s protocol i n e).1)
        (chain id 0 nodes) entry_port h in
    let (free, along, places) = ArePlaced-IsFree run exclude s protocol 0 placed (rising 0 nodes) in
    (free, along ∙ on 0 nodes, places, λ next. bare-same_port next lookup protocol hops apart)
  where
    rising : (n : ℕ) (nodes : List ℕ) → Ascending n (chain id n nodes)
    rising n [] = tt
    rising n (x ∷ nodes) = (refl, rising (suc n) nodes)

    on : (n : ℕ) (nodes : List ℕ) → map (λ h. h.node_id) (chain id n nodes) ≡ nodes
    on n [] = refl
    on n (x ∷ nodes) = ap (λ t. x ∷ t) (on (suc n) nodes)
