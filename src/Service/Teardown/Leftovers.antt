-- ===== src/Service/Teardown/Leftovers.antt =====
-- What a deletion leaves behind, and what it reports.
use fluxlite.Common.{
  ℕ, ◌≡◌, refl, ◌⊎◌, inl, inr, Text, text_eq, text_eq_refl, Bool, true, false, ◌&&◌, List, [], ◌∷◌,
  ◌++◌, ◌==◌, Bool-cases, arith, All, All-map, Option-cases, Result, ok, err, is_some, ap, ◌∙◌,
}
use fluxlite.Common.Exec.{◌>>◌}
use fluxlite.Common.Keys.{exists-append}
use fluxlite.Common.Tables.{find_where, exists_where, delete_where, exists-find}
use fluxlite.Model.{Node, Route, RouteHop}
use fluxlite.Store
use fluxlite.Store.{Store, not_found, node_by_id}
use fluxlite.Store.Routes
use fluxlite.Store.Routes.{is_route, of_route, load_route, route_by_id}
use fluxlite.Service.{Error, of_store, Removal, removed, timed_out, failed, Attempt, World, stored}
use fluxlite.Service.Teardown.{
  Leftover, left_by, is_offline, is_removed, clean_node, clean_hops, delete_route,
}

abbrev pub is_left : ℕ → Leftover → Bool
is_left node l = l.node_id == node

abbrev pub is_gone : ℕ → Text → Attempt → Bool
is_gone node slug a = (a.node_id == node && text_eq a.slug slug) && is_removed a.outcome

-- The node of a hop is reported, or its relay was removed.
abbrev pub IsAccounted : Store → Text → List Leftover → List Attempt → RouteHop → Type 0
IsAccounted s slug left attempts h =
    (n : Node)
    → node_by_id h.node_id s ≡ ok n
    → (exists_where (is_left n.id) left ≡ true) ⊎ (exists_where (is_gone n.id slug) attempts ≡ true)

exists-append_right :
    {A : Type 0} (p : A → Bool) (xs ys : List A)
    → exists_where p ys ≡ true
    → exists_where p (xs ++ ys) ≡ true
exists-append_right p [] ys h = h
exists-append_right p (x ∷ xs) ys h = elim (Bool-cases (p x)) [
  | inl e ↦ rw e refl
  | inr e ↦ rw e (exists-append_right p xs ys h)
]

AccountedFor : Result Store.Error Node → Text → List Leftover → List Attempt → Type 0
AccountedFor r slug left attempts =
    (n : Node)
    → r ≡ ok n
    → (exists_where (is_left n.id) left ≡ true) ⊎ (exists_where (is_gone n.id slug) attempts ≡ true)

-- What a hop's cleanup keeps of the tables and the removals.
Keeps : Text → World → World → Type 0
Keeps slug w t =
    (t.tables ≡ w.tables)
    × ((node : ℕ)
        → exists_where (is_gone node slug) w.attempts ≡ true
        → exists_where (is_gone node slug) t.attempts ≡ true)

removal_lem :
    (n : Node) (slug : Text) (attempts : List Attempt) (outcome : Removal)
    → AccountedFor
        (ok n)
        slug
        (left_by n outcome)
        (attempts ++ record { node_id = n.id; slug = slug; outcome = outcome } ∷ [])
unfolding AccountedFor
removal_lem n slug attempts removed m e =
    let same : n.id ≡ m.id = ap id_or_zero e in
    inr
      (exists-append_right (is_gone m.id slug) attempts _ (ground (arith, same, text_eq_refl slug)))
  where
    id_or_zero : Result Store.Error Node → ℕ
    id_or_zero (ok k) = k.id
    id_or_zero (err _) = 0
removal_lem n slug attempts timed_out m e = inl (ground (arith))
removal_lem n slug attempts (failed why) m e = inl (ground (arith))

abbrev pub without : ℕ → Store → Store
without id s = record s {
  routes = delete_where (is_route id) s.routes;
  hops = delete_where (of_route id) s.hops;
}

-- What a deletion comes to.
abbrev pub IsDeleted : ℕ → World → Result Error (List Leftover) × World → Type 0
IsDeleted id w out =
    ((out ≡ (err (of_store not_found), w)) × (exists_where (is_route id) w.tables.routes ≡ false))
    ⊎ ((route : Route) × (left : List Leftover) × (t : World) × (route_by_id id w.tables ≡ ok route)
        × (out ≡ (ok left, t))
        × (t.tables ≡ without id w.tables)
        × All (IsAccounted w.tables route.slug left t.attempts) route.hops)

drop_lem :
    {A : Type 0} (id : ℕ) (left : A) (s : Store) (t : World)
    → t.tables ≡ s
    → exists_where (is_route id) s.routes ≡ true
    → (stored (Routes.delete_route id) >> λ u. (ok left, u)) t
      ≡ (ok left, record t { tables = without id s })
unfolding Routes.delete_route
drop_lem id left s t same e =
    let here : exists_where (is_route id) t.tables.routes ≡ true = rw same e in
    rw here (rw same refl)

module _ (attempt : ℕ → Node → Text → Removal) where
  clean_node_lem :
      (slug : Text) (r : Result Store.Error Node) (w : World)
      → Keeps slug w (clean_node attempt slug r w).1
        × AccountedFor r slug
            (clean_node attempt slug r w).0
            (clean_node attempt slug r w).1.attempts
  unfolding Keeps AccountedFor
  clean_node_lem slug (err e) w = ((refl, λ node k. k), λ n k. cc)
  clean_node_lem slug (ok n) w = elim (Bool-cases (is_offline n.status)) [
    | inl e ↦ rw e ((refl, λ node k. k), λ m k. inl (ground (arith)))
    | inr e ↦ rw e (
      (refl, λ node k. exists-append (is_gone node slug) w.attempts _ k),
      removal_lem n slug w.attempts _,
    )
  ]

  -- The loop leaves the tables alone, only adds to the removals, and accounts for each hop.
  clean_hops_lem :
      (slug : Text) (hops : List RouteHop) (w : World)
      → Keeps slug w (clean_hops attempt slug hops w).1
        × All
            (IsAccounted w.tables slug
              (clean_hops attempt slug hops w).0
              (clean_hops attempt slug hops w).1.attempts)
            hops
  unfolding clean_hops Keeps AccountedFor
  clean_hops_lem slug [] w = ((refl, λ node k. k), tt)
  clean_hops_lem slug (h ∷ hops) w =
      let first = clean_node attempt slug (node_by_id h.node_id w.tables) w in
      let ((same, more), here) = clean_node_lem slug (node_by_id h.node_id w.tables) w in
      let ((same', more'), rest) = clean_hops_lem slug hops first.1 in
      (
        (same' ∙ same, λ node k. more' node (more node k)),
        (
          λ n e. elim (here n e) [
            | inl k ↦ inl (exists-append (is_left n.id) first.0 _ k)
            | inr k ↦ inr (more' n.id k)
          ],
          All-map
              (λ k acc n e. elim (acc n (ap (λ t. node_by_id k.node_id t) same ∙ e)) [
                | inl l ↦ inl (exists-append_right (is_left n.id) first.0 _ l)
                | inr l ↦ inr l
              ])
              hops rest,
        ),
      )

  -- Whatever the nodes answer, a stored route is deleted: its row and its hops are gone from the tables
  -- and nothing else of them changes, and for each of its hops whose node is stored, either the applier
  -- removed the relay there or the leftovers name the node. A route that is not stored is not found, and
  -- nothing is done.
  pub delete_route-Accounted : (id : ℕ) (w : World) → IsDeleted id w (delete_route attempt id w)
  unfolding delete_route Routes.delete_route route_by_id Keeps
  delete_route-Accounted id w = elim (Option-cases (find_where (is_route id) w.tables.routes)) [
    | inl e ↦ inl (rw e refl, exists-find (is_route id) w.tables.routes ∙ ap is_some e)
    | inr (r, e) ↦
        let route = load_route w.tables r in
        let ((same, _), accounted) = clean_hops_lem route.slug route.hops w in
        let (left, t) = clean_hops attempt route.slug route.hops w in
        let known = exists-find (is_route id) w.tables.routes ∙ ap is_some e in
        inr (
          route,
          left,
          record t { tables = without id w.tables },
          rw e refl,
          rw e (drop_lem id left w.tables t same known),
          refl,
          accounted,
        )
  ]
