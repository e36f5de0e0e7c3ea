-- ===== src/Service/Placement/Cleared.antt =====
-- The tables without the hops of a route, which new ones replace.
use fluxlite.Common.{
  ℕ, ◌≡◌, refl, ap, ◌∙◌, sym, inl, inr, Text, Bool, true, false, not, ◌&&◌, List, [], ◌∷◌, ◌++◌,
  map, Option, some, ◌==◌, if◌then◌else◌, Bool-cases, Option-cases, arith, All, Result, ok, err,
  is_some,
}
use fluxlite.Common.Keys.{exists-update, Pairwise}
use fluxlite.Common.Tables.{
  find_where, exists_where, update_where, delete_where, exists-find, find-holds,
}
use fluxlite.Model.{Node, Route, RouteHop}
use fluxlite.Store
use fluxlite.Store.{
  Store, RouteRow, conflict, port_claimed, foreign_key, not_found, invalid, has_id, claims,
  node_by_id, used_ports_on_node, is_excluded,
}
use fluxlite.Store.Routes.{
  is_route, of_route, at_hop, same_name, bare_hop, set_row, save_row, save_route, clear_hops,
  route_by_id, load_route,
}
use fluxlite.Store.Sound.{same_port}
use fluxlite.Service.Placement.{Fits, IsFree, Ascending, insert_hops_ok, bare-same_order}
use fluxlite.Service.Placement.Fresh.{known_node}

-- The tables without the hops of a route.
cleared_place :
    (id order : ℕ) (hops : List RouteHop)
    → exists_where (at_hop id order) (delete_where (of_route id) hops) ≡ false
cleared_place id order [] = refl
cleared_place id order (h ∷ hops) = elim (Bool-cases (of_route id h)) [
  | inl e ↦ rw e (cleared_place id order hops)
  | inr e ↦ rw (e, e) (cleared_place id order hops)
]

cleared_ports :
    (id node port : ℕ) (hops : List RouteHop)
    → exists_where (claims node port) (delete_where (of_route id) hops)
      ≡ exists_where (λ h. claims node port h && not (is_excluded (some id) h)) hops
cleared_ports id node port [] = refl
cleared_ports id node port (h ∷ hops) = elim (Bool-cases (of_route id h)) [
  | inl e ↦ elim (Bool-cases (claims node port h)) [
    | inl e' ↦ rw (e, e') (cleared_ports id node port hops)
    | inr e' ↦ rw (e, e') (cleared_ports id node port hops)
  ]
  | inr e ↦ elim (Bool-cases (claims node port h)) [
    | inl e' ↦ rw (e, e') refl
    | inr e' ↦ rw (e, e') (cleared_ports id node port hops)
  ]
]

module _ (run : Node → Option Text) (now : ℕ) (s : Store) (r : Route) where
  abbrev row_saved : Store
  row_saved = record s { routes = update_where (is_route r.id) (set_row now r) s.routes }

  cleared-Fits :
      exists_where (is_route r.id) s.routes ≡ true
      → (hops : List RouteHop) → All (IsFree run (some r.id) s) hops
      → All (Fits (clear_hops r.id row_saved)) (map (bare_hop r.id) hops)
  unfolding used_ports_on_node
  cleared-Fits known [] a = tt
  cleared-Fits known (h ∷ hops) (free, a) = (
    (
      exists-update (is_route r.id) (is_route r.id) (set_row now r) s.routes (λ o. refl) ∙ known,
      known_node h.node_id s free.found,
      cleared_place r.id h.hop_order s.hops,
      cleared_ports r.id h.node_id h.relay_port s.hops ∙ free.not_stored,
    ),
    cleared-Fits known hops a,
  )

  -- The transaction of the store, on a route that is stored and a name that no other has.
  pub save_route_ok :
      (keep : Bool)
      → exists_where (is_route r.id) s.routes ≡ true
      → exists_where (same_name r.listen_ipv6 r.name r.id) s.routes ≡ false
      → All (IsFree run (some r.id) s) r.hops
      → Pairwise same_port (map (bare_hop r.id) r.hops)
      → Ascending 0 r.hops
      → save_route now r keep s ≡ (
        ok tt,
        record row_saved {
          hops =
              if keep
              then s.hops
              else delete_where (of_route r.id) s.hops ++ map (bare_hop r.id) r.hops;
        },
      )
  unfolding save_row
  save_route_ok true known name free ports places = rw (known, name) refl
  save_route_ok false known name free ports places =
      rw (known, name)
        (insert_hops_ok (map (bare_hop r.id) r.hops) (clear_hops r.id row_saved)
          (cleared-Fits known r.hops free) ports (bare-same_order r.id 0 r.hops places))

  pub save_route_unknown :
      (keep : Bool)
      → exists_where (is_route r.id) s.routes ≡ true
      → exists_where (same_name r.listen_ipv6 r.name r.id) s.routes ≡ true
      → save_route now r keep s ≡ (err conflict, s)
  unfolding save_row
  save_route_unknown keep known name = rw (known, name) refl

-- The row that a lookup by id finds.
pub row_found :
    (id : ℕ) (s : Store) (old : Route)
    → route_by_id id s ≡ ok old
    → (old.id ≡ id) × (exists_where (is_route id) s.routes ≡ true)
unfolding route_by_id load_route
row_found id s old h = elim (Option-cases (find_where (is_route id) s.routes)) [
  | inl e ↦ cc (rw (route_by_id, e) at h)
  | inr (r, e) ↦
      let found : (r.id == id) ≡ true = find-holds (is_route id) s.routes e in
      let same : load_route s r ≡ old = ok_inj (rw (route_by_id, e) at h) in
      (
        sym (ap (λ (o : Route). o.id) same) ∙ ground (arith, found),
        exists-find (is_route id) s.routes ∙ ap is_some e,
      )
]
  where
    ok_inj : {a b : Route} → ◌≡◌ {A = Result Store.Error Route} (ok a) (ok b) → a ≡ b
    ok_inj e = cc

pub not_there :
    (id : ℕ) (s : Store) (e : Store.Error)
    → route_by_id id s ≡ err e
    → (e ≡ not_found) × (exists_where (is_route id) s.routes ≡ false)
unfolding route_by_id
not_there id s e h = elim (Option-cases (find_where (is_route id) s.routes)) [
  | inl k ↦
      (err_inj (sym (rw (route_by_id, k) at h)), exists-find (is_route id) s.routes ∙ ap is_some k)
  | inr (r, k) ↦ cc (rw (route_by_id, k) at h)
]
  where
    err_inj : {a b : Store.Error} → ◌≡◌ {A = Result Store.Error Route} (err a) (err b) → a ≡ b
    err_inj e = cc
