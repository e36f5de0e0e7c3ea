-- ===== src/Store/Sound/Hops.antt =====
-- Hops are inserted, measured and cleared, and the promises hold.
use fluxlite.Common.{
  ℕ, ◌≡◌, refl, Bool, not, ◌||◌, List, [], ◌∷◌, Bool-cases, inl, inr, arith, All-append,
}
use fluxlite.Common.Exec.{keeps-bind}
use fluxlite.Common.Tables.{exists_where, All-update, All-delete}
use fluxlite.Common.Keys.{none_exist, Pairwise-append, Pairwise-delete, Pairwise-update}
use fluxlite.Model.{RouteHop}
use fluxlite.Store.{Store, has_id, claims}
use fluxlite.Store.Routes.{
  is_route, of_route, at_hop, insert_hop, insert_hops, clear_hops, update_hops, set_hop_latencies,
}
use fluxlite.Store.Sound.{same_port, same_order, NodeKnown, RouteKnown, Valid}

-- Hops.
pub insert_hop-Valid : (h : RouteHop) (s : Store) → Valid s → Valid (insert_hop h s).1
unfolding insert_hop
insert_hop-Valid h s v =
    elim (Bool-cases (
      exists_where (at_hop h.route_id h.hop_order) s.hops
      || exists_where (claims h.node_id h.relay_port) s.hops)) [
        | inl e ↦ rw e v
        | inr e ↦
            elim (Bool-cases (
              not (exists_where (is_route h.route_id) s.routes)
              || not (exists_where (has_id h.node_id) s.nodes))) [
                | inl e' ↦ rw (e, e') v
                | inr e' ↦
                    rw (e, e')
                      (record {
                        hops = record {
                          one_port = Pairwise-append same_port s.hops h v.hops.one_port (
                              none_exist (claims h.node_id h.relay_port) s.hops
                                (ground (arith, e)));
                          one_order = Pairwise-append same_order s.hops h v.hops.one_order (
                              none_exist (at_hop h.route_id h.hop_order) s.hops
                                (ground (arith, e)));
                          nodes_known =
                              All-append (NodeKnown s.nodes) s.hops (h ∷ []) v.hops.nodes_known
                                (ground (arith, e'), tt);
                          routes_known =
                              All-append (RouteKnown s.routes) s.hops (h ∷ []) v.hops.routes_known
                                (ground (arith, e'), tt);
                        };
                        routes = v.routes;
                        nodes = v.nodes;
                      })
              ]
      ]

pub insert_hops-Valid : (hops : List RouteHop) (s : Store) → Valid s → Valid (insert_hops hops s).1
unfolding insert_hops
insert_hops-Valid [] s v = v
insert_hops-Valid (h ∷ hops) s v =
    keeps-bind Valid (insert_hop h) (λ _. insert_hops hops) s (insert_hop-Valid h s v)
      (λ _ t w. insert_hops-Valid hops t w)

pub clear_hops-Valid : (id : ℕ) (s : Store) → Valid s → Valid (clear_hops id s)
clear_hops-Valid id s v = record {
  hops = record {
    one_port = Pairwise-delete same_port (of_route id) s.hops v.hops.one_port;
    one_order = Pairwise-delete same_order (of_route id) s.hops v.hops.one_order;
    nodes_known = All-delete (NodeKnown s.nodes) (of_route id) s.hops v.hops.nodes_known;
    routes_known = All-delete (RouteKnown s.routes) (of_route id) s.hops v.hops.routes_known;
  };
  routes = v.routes;
  nodes = v.nodes;
}

-- A measurement on some hops.
pub update_hops-Valid :
    (p : RouteHop → Bool) (f : RouteHop → RouteHop) (s : Store)
    → ((h : RouteHop)
        → ((f h).route_id ≡ h.route_id)
          × ((f h).hop_order ≡ h.hop_order)
          × ((f h).node_id ≡ h.node_id)
          × ((f h).relay_port ≡ h.relay_port))
    → Valid s
    → Valid (update_hops p f s)
update_hops-Valid p f s k v = record {
  hops = record {
    one_port =
        Pairwise-update same_port p f s.hops
          (λ a b. let (e, e', e'', e4) = k a in rw (e'', e4) refl)
          (λ a b. let (e, e', e'', e4) = k b in rw (e'', e4) refl) v.hops.one_port;
    one_order =
        Pairwise-update same_order p f s.hops (λ a b. let (e, e', e'', e4) = k a in rw (e, e') refl)
          (λ a b. let (e, e', e'', e4) = k b in rw (e, e') refl) v.hops.one_order;
    nodes_known =
        All-update (NodeKnown s.nodes) p f s.hops (λ h q w. let (e, e', e'', e4) = k h in rw e'' w)
          v.hops.nodes_known;
    routes_known =
        All-update (RouteKnown s.routes) p f s.hops (λ h q w. let (e, e', e'', e4) = k h in rw e w)
          v.hops.routes_known;
  };
  routes = v.routes;
  nodes = v.nodes;
}

pub latencies-Valid :
    (now id : ℕ) (entries : List (ℕ × ℕ)) (s : Store)
    → Valid s
    → Valid (set_hop_latencies now id entries s)
unfolding set_hop_latencies
latencies-Valid now id [] s v = v
latencies-Valid now id ((order, ms) ∷ rest) s v =
    latencies-Valid now id rest _
      (update_hops-Valid (at_hop id order) _ s (λ h. (refl, refl, refl, refl)) v)
