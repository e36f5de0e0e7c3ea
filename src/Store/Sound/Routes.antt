-- ===== src/Store/Sound/Routes.antt =====
-- Routes are created, changed and deleted, and the promises hold.
use fluxlite.Common.{
  ℕ, suc, ◌<◌, ◌≡◌, refl, ap, ◌∙◌, Bool, true, false, not, ◌||◌, [], ◌∷◌, map, ◌==◌, Bool-cases,
  inl, inr, arith, All-append, All-map, Result-cases,
}
use fluxlite.Common.Exec.{pure, keeps-bind, keeps-in_tx}
use fluxlite.Common.Tables.{exists_where, All-update, All-delete}
use fluxlite.Common.Keys.{
  none_exist, exists-append, exists-update, exists-delete, All-delete_both, Pairwise-append,
  Pairwise-delete, Pairwise-update,
}
use fluxlite.Model.{Route, validate_route, normalise_quota}
use fluxlite.Store.{RouteRow, Store}
use fluxlite.Store.Routes.{
  is_route, of_route, has_slug, bare_hop, insert_hops, insert_route, create_route, update_route,
  save_row, update_row, clear_hops, delete_route, path_unchanged, add_hops, put_route, replace_hops,
  save_route, same_name, new_row, set_row,
}
use fluxlite.Store.Sound.{same_route, same_slug, RouteKnown, Valid}
use fluxlite.Store.Sound.Hops.{insert_hops-Valid, clear_hops-Valid}

-- Rows of routes.
pub update_row-Valid :
    (id : ℕ) (f : RouteRow → RouteRow) (s : Store)
    → ((r : RouteRow) → ((f r).id ≡ r.id) × ((f r).slug ≡ r.slug))
    → Valid s
    → Valid (update_row id f s)
update_row-Valid id f s k v = record {
  hops = record {
    one_port = v.hops.one_port;
    one_order = v.hops.one_order;
    nodes_known = v.hops.nodes_known;
    routes_known =
        All-map {P = RouteKnown s.routes}
          (λ h w.
            exists-update (is_route h.route_id) (is_route id) f s.routes
              (λ r. ap (λ i. i == h.route_id) (k r).0)
            ∙ w)
          s.hops v.hops.routes_known;
  };
  routes = record {
    route_ids =
        Pairwise-update same_route (is_route id) f s.routes (λ a b. rw (k a).0 refl)
          (λ a b. rw (k b).0 refl) v.routes.route_ids;
    slugs =
        Pairwise-update same_slug (is_route id) f s.routes (λ a b. rw (k a).1 refl)
          (λ a b. rw (k b).1 refl) v.routes.slugs;
    route_bound =
        All-update (λ r. r.id < s.next_route) (is_route id) f s.routes (λ r q w. rw (k r).0 w)
          v.routes.route_bound;
  };
  nodes = v.nodes;
}

insert_route-Valid : (now : ℕ) (r : Route) (s : Store) → Valid s → Valid (insert_route now r s).1
unfolding insert_route
insert_route-Valid now r s v =
    elim (Bool-cases (
      exists_where (has_slug r.slug) s.routes
      || exists_where (same_name r.listen_ipv6 r.name s.next_route) s.routes)) [
        | inl e ↦ rw e v
        | inr e ↦ rw e (record {
          hops = record {
            one_port = v.hops.one_port;
            one_order = v.hops.one_order;
            nodes_known = v.hops.nodes_known;
            routes_known =
                All-map (λ h w. exists-append (is_route h.route_id) s.routes _ w) s.hops
                  v.hops.routes_known;
          };
          routes = record {
            route_ids =
                Pairwise-append same_route s.routes (new_row now s.next_route r) v.routes.route_ids
                  (All-map (λ o lt. ground (arith, lt)) s.routes v.routes.route_bound);
            slugs =
                Pairwise-append same_slug s.routes (new_row now s.next_route r) v.routes.slugs
                  (none_exist (has_slug r.slug) s.routes (ground (arith, e)));
            route_bound =
                All-append (λ o. o.id < suc s.next_route) s.routes (new_row now s.next_route r ∷ [])
                  (All-map (λ o lt. omega (arith, lt)) s.routes v.routes.route_bound)
                  (omega arith, tt);
          };
          nodes = v.nodes;
        })
      ]

pub delete_route-Valid : (id : ℕ) (s : Store) → Valid s → Valid (delete_route id s).1
unfolding delete_route
delete_route-Valid id s v = elim (Bool-cases (exists_where (is_route id) s.routes)) [
  | inl e ↦
      let w = clear_hops-Valid id s v in
      rw e (record {
        hops = record {
          one_port = w.hops.one_port;
          one_order = w.hops.one_order;
          nodes_known = w.hops.nodes_known;
          routes_known =
              All-map
                (λ h (known, other).
                  exists-delete (is_route h.route_id) (is_route id) s.routes
                    (λ r k. ground (arith, k, other))
                  ∙ known)
                _ (All-delete_both (RouteKnown s.routes) (of_route id) s.hops v.hops.routes_known);
        };
        routes = record {
          route_ids = Pairwise-delete same_route (is_route id) s.routes v.routes.route_ids;
          slugs = Pairwise-delete same_slug (is_route id) s.routes v.routes.slugs;
          route_bound =
              All-delete (λ o. o.id < s.next_route) (is_route id) s.routes v.routes.route_bound;
        };
        nodes = v.nodes;
      })
  | inr e ↦ rw e v
]

add_hops-Valid : (r : Route) (id : ℕ) (s : Store) → Valid s → Valid (add_hops r id s).1
add_hops-Valid r id s v =
    let hops = map (bare_hop id) r.hops in
    keeps-bind Valid (insert_hops hops) (λ _. pure id) s (insert_hops-Valid hops s v) (λ _ t w. w)

pub create_route-Valid :
    (now : ℕ) (r : Route) (s : Store) → Valid s → Valid (create_route now r s).1
unfolding create_route
create_route-Valid now r s v = elim (Result-cases (validate_route (normalise_quota r))) [
  | inr (e, bad) ↦ rw (bad, create_route) v
  | inl (_, fine) ↦
      let r' = normalise_quota r in
      let put =
        keeps-bind Valid (insert_route now r') (add_hops r') s (insert_route-Valid now r' s v)
          (λ id t w. add_hops-Valid r' id t w) in
      rw (fine, create_route) (keeps-in_tx Valid (put_route now r') s v put)
]

save_row-Valid : (now : ℕ) (r : Route) (s : Store) → Valid s → Valid (save_row now r s).1
unfolding save_row
save_row-Valid now r s v = elim (Bool-cases (not (exists_where (is_route r.id) s.routes))) [
  | inl e ↦ rw e v
  | inr e ↦ elim (Bool-cases (exists_where (same_name r.listen_ipv6 r.name r.id) s.routes)) [
    | inl e' ↦ rw (e, e') v
    | inr e' ↦ rw (e, e') (update_row-Valid r.id (set_row now r) s (λ o. (refl, refl)) v)
  ]
]

replace_hops-Valid :
    (keep : Bool) (r : Route) (s : Store) → Valid s → Valid (replace_hops keep r s).1
replace_hops-Valid true r s v = v
replace_hops-Valid false r s v =
    insert_hops-Valid (map (bare_hop r.id) r.hops) (clear_hops r.id s) (clear_hops-Valid r.id s v)

pub update_route-Valid :
    (now : ℕ) (r : Route) (s : Store) → Valid s → Valid (update_route now r s).1
unfolding update_route
update_route-Valid now r s v = elim (Result-cases (validate_route (normalise_quota r))) [
  | inr (e, bad) ↦ rw (bad, update_route) v
  | inl (_, fine) ↦
      let r' = normalise_quota r in
      let keep = path_unchanged r' s in
      let saved =
        keeps-bind Valid (save_row now r') (λ _. replace_hops keep r') s (save_row-Valid now r' s v)
          (λ _ t w. replace_hops-Valid keep r' t w) in
      rw (fine, update_route) (keeps-in_tx Valid (save_route now r' keep) s v saved)
]
