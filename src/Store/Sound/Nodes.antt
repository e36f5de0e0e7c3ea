-- ===== src/Store/Sound/Nodes.antt =====
-- The operations on nodes keep the keys and references.
use fluxlite.Common.{
  ℕ, suc, ◌<◌, ◌≡◌, refl, ap, ◌∙◌, text_eq, Bool, true, false, not, ◌||◌, List, [], ◌∷◌, ◌++◌,
  Option, none, some, ◌==◌, Bool-cases, inl, inr, arith, All-append, All-map, All-map_both,
  Result-cases,
}
use fluxlite.Common.Tables.{update_where, delete_where, exists_where, All-update, All-delete}
use fluxlite.Common.Keys.{
  none_exist, exists-append, exists-update, exists-delete, Pairwise-append, Pairwise-delete,
  Pairwise-update,
}
use fluxlite.Model.{Node, validate_node}
use fluxlite.Store.{
  Store, node_row, has_id, named, on_node, goes_via, refers, create_node, update_node, delete_node,
  set_node,
}
use fluxlite.Store.Sound.{Valid, NodeKnown, same_node}

refers-append :
    (via : Option ℕ) (nodes more : List Node)
    → refers via nodes ≡ true
    → refers via (nodes ++ more) ≡ true
refers-append none nodes more h = refl
refers-append (some id) nodes more h = exists-append (has_id id) nodes more h

refers-update :
    (via : Option ℕ) (id : ℕ) (f : Node → Node) (nodes : List Node)
    → ((n : Node) → (f n).id ≡ n.id)
    → refers via (update_where (has_id id) f nodes) ≡ refers via nodes
refers-update none id f nodes k = refl
refers-update (some v) id f nodes k =
    exists-update (has_id v) (has_id id) f nodes (λ n. ap (λ i. i == v) (k n))

pub update_nodes-Valid :
    (id : ℕ) (f : Node → Node) (s : Store)
    → ((n : Node) → (f n).id ≡ n.id)
    → ((n : Node) → refers n.via_node_id s.nodes ≡ true → refers (f n).via_node_id s.nodes ≡ true)
    → Valid s
    → Valid (record s { nodes = update_where (has_id id) f s.nodes })
update_nodes-Valid id f s k via v =
    let kept : (w : Option ℕ) → refers w (update_where (has_id id) f s.nodes) ≡ refers w s.nodes =
      λ w. refers-update w id f s.nodes k in
    record {
      hops = record {
        one_port = v.hops.one_port;
        one_order = v.hops.one_order;
        nodes_known =
            All-map {P = NodeKnown s.nodes} (λ h w. kept (some h.node_id) ∙ w) s.hops
              v.hops.nodes_known;
        routes_known = v.hops.routes_known;
      };
      routes = v.routes;
      nodes = record {
        node_ids =
            Pairwise-update same_node (has_id id) f s.nodes (λ a b. ap (λ i. i == b.id) (k a))
              (λ a b. ap (λ i. a.id == i) (k b)) v.nodes.node_ids;
        node_bound =
            All-update (λ n. n.id < s.next_node) (has_id id) f s.nodes (λ n q w. rw (k n) w)
              v.nodes.node_bound;
        vias_known =
            All-map {P = λ n. refers n.via_node_id s.nodes ≡ true} (λ n w. kept n.via_node_id ∙ w) _
              (All-update (λ n. refers n.via_node_id s.nodes ≡ true) (has_id id) f s.nodes
                (λ n q w. via n w) v.nodes.vias_known);
      };
    }

pub create_node-Valid : (now : ℕ) (n : Node) (s : Store) → Valid s → Valid (create_node now n s).1
unfolding create_node
create_node-Valid now n s v = elim (Result-cases (validate_node n)) [
  | inr (e, bad) ↦ rw (bad, create_node) v
  | inl (_, fine) ↦ elim (Bool-cases (exists_where (λ o. text_eq o.name n.name) s.nodes)) [
    | inl e ↦ rw (fine, create_node, e) v
    | inr e ↦
        elim (Bool-cases
          (not (refers n.via_node_id (s.nodes ++ node_row now s.next_node n ∷ [])))) [
            | inl e' ↦ rw (fine, create_node, e, e') v
            | inr e' ↦
                let row : Node = record n {
                  id = s.next_node;
                  created_at = now;
                  updated_at = now;
                } in
                rw (fine, create_node, e, e')
                  (record {
                    hops = record {
                      one_port = v.hops.one_port;
                      one_order = v.hops.one_order;
                      nodes_known =
                          All-map {P = NodeKnown s.nodes}
                            (λ h w. exists-append (has_id h.node_id) s.nodes _ w) s.hops
                            v.hops.nodes_known;
                      routes_known = v.hops.routes_known;
                    };
                    routes = v.routes;
                    nodes = record {
                      node_ids = Pairwise-append same_node s.nodes row v.nodes.node_ids (
                          All-map {P = λ o. o.id < s.next_node} (λ o lt. ground (arith, lt)) s.nodes
                            v.nodes.node_bound);
                      node_bound =
                          All-append (λ o. o.id < suc s.next_node) s.nodes (row ∷ [])
                            (All-map {P = λ o. o.id < s.next_node} (λ o lt. omega (arith, lt))
                              s.nodes v.nodes.node_bound)
                            (omega arith, tt);
                      vias_known =
                          All-append (λ o. refers o.via_node_id (s.nodes ++ row ∷ []) ≡ true)
                            s.nodes (row ∷ [])
                            (All-map {P = λ o. refers o.via_node_id s.nodes ≡ true}
                              (λ o w. refers-append o.via_node_id s.nodes (row ∷ []) w) s.nodes
                              v.nodes.vias_known)
                            (ground (arith, e'), tt);
                    };
                  })
          ]
  ]
]

pub update_node-Valid : (now : ℕ) (n : Node) (s : Store) → Valid s → Valid (update_node now n s).1
unfolding update_node
update_node-Valid now n s v = elim (Result-cases (validate_node n)) [
  | inr (e, bad) ↦ rw (bad, update_node) v
  | inl (_, fine) ↦ elim (Bool-cases (not (exists_where (has_id n.id) s.nodes))) [
    | inl e ↦ rw (fine, update_node, e) v
    | inr e ↦ elim (Bool-cases (exists_where (named n.name n.id) s.nodes)) [
      | inl e' ↦ rw (fine, update_node, e, e') v
      | inr e' ↦ elim (Bool-cases (not (refers n.via_node_id s.nodes))) [
        | inl e'' ↦ rw (fine, update_node, e, e', e'') v
        | inr e'' ↦
            rw (fine, update_node, e, e', e'')
              (update_nodes-Valid n.id (set_node now n) s (λ o. refl) (λ o w. ground (arith, e''))
                v)
      ]
    ]
  ]
]

refers-delete :
    (via : Option ℕ) (id : ℕ) (nodes : List Node)
    → refers via nodes ≡ true
    → (via ≡ some id → ⊥)
    → refers via (delete_where (has_id id) nodes) ≡ true
refers-delete none id nodes h apart = refl
refers-delete (some v) id nodes h apart =
    let other : (v == id) ≡ false = elim (Bool-cases (v == id)) [
      | inl e ↦ absurd (apart (ap some (ground arith)))
      | inr e ↦ e
    ] in
    exists-delete (has_id v) (has_id id) nodes (λ n k. ground (arith, other, k)) ∙ h

via_apart : (id : ℕ) (n : Node) → goes_via id n ≡ false → n.via_node_id ≡ some id → ⊥
via_apart id n h e = ground (arith, h, e)

pub delete_node-Valid :
    (held : ℕ → Bool) (id : ℕ) (s : Store) → Valid s → Valid (delete_node held id s).1
unfolding delete_node
delete_node-Valid held id s v = elim (Bool-cases (not (exists_where (has_id id) s.nodes))) [
  | inl e ↦ rw e v
  | inr e ↦
      elim (Bool-cases
        (exists_where (on_node id) s.hops || exists_where (goes_via id) s.nodes || held id)) [
          | inl e' ↦ rw (e, e') v
          | inr e' ↦
              let unused = none_exist (on_node id) s.hops (ground (arith, e')) in
              let behind = none_exist (goes_via id) s.nodes (ground (arith, e')) in
              rw (e, e')
                (record {
                  hops = record {
                    one_port = v.hops.one_port;
                    one_order = v.hops.one_order;
                    nodes_known =
                        All-map_both {P = NodeKnown s.nodes} {Q = λ h. on_node id h ≡ false}
                          (λ h w other.
                            exists-delete (has_id h.node_id) (has_id id) s.nodes
                              (λ n k. ground (arith, k, other))
                            ∙ w)
                          s.hops v.hops.nodes_known unused;
                    routes_known = v.hops.routes_known;
                  };
                  routes = v.routes;
                  nodes = record {
                    node_ids = Pairwise-delete same_node (has_id id) s.nodes v.nodes.node_ids;
                    node_bound =
                        All-delete (λ n. n.id < s.next_node) (has_id id) s.nodes v.nodes.node_bound;
                    vias_known =
                        All-delete
                          (λ n. refers n.via_node_id (delete_where (has_id id) s.nodes) ≡ true)
                          (has_id id) s.nodes
                          (All-map_both {P = λ n. refers n.via_node_id s.nodes ≡ true}
                            {Q = λ n. goes_via id n ≡ false}
                            (λ n w other.
                              refers-delete n.via_node_id id s.nodes w (via_apart id n other))
                            s.nodes v.nodes.vias_known behind);
                  };
                })
        ]
]
