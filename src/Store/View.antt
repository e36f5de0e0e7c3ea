-- ===== src/Store/View.antt =====
-- The tables against the plain view of them: a list of routes, each with its hops.
use fluxlite.Common.{
  ℕ, ◌≡◌, refl, ap, ◌∙◌, sym, Bool, true, false, ◌&&◌, List, [], ◌∷◌, map, Option, some, leb, ◌==◌,
  Bool-cases, inl, inr, arith, All, Result, ok, err,
}
use fluxlite.Common.Sorting.{sort_by, sort_by-map}
use fluxlite.Common.Mapping.{
  touch, select_All, sort_by-All, select-touch, map_agree, map_id, map-update_where, map_apart,
  map-delete_where, exists-map, delete_absent,
}
use fluxlite.Common.Tables.{select_where, update_where, delete_where, exists_where, select-delete}
use fluxlite.Model.{Route, RouteHop}
use fluxlite.Store.{RouteRow, Store}
use fluxlite.Traffic.Quota
use fluxlite.Traffic.Quota.{Panel, has_id, forget_running}
use fluxlite.Store.Routes.{
  is_route, of_route, at_hop, load_hops, load_route, set_route_enabled, set_quota_paused,
  delete_route, set_hop_running, set_hop_latencies, clear_hop_running, update_row, update_hops,
  clear_hops, first_port,
}

-- The view: the routes as `RouteByID` loads them, in the table's order.
pub view : Store → List Route
view s = map (load_route s) s.routes

loaded_All : (id : ℕ) (s : Store) → All (λ h. of_route id h ≡ true) (load_hops id s)
unfolding load_hops
loaded_All id s =
    sort_by-All (λ h. of_route id h ≡ true) _ (select_where (of_route id) s.hops)
      (select_All (of_route id) s.hops)

-- A change that leaves a hop where it is.
abbrev Stays : (RouteHop → RouteHop) → Type 0
Stays f =
    (h : RouteHop)
    → ((f h).route_id ≡ h.route_id)
      × ((f h).hop_order ≡ h.hop_order)
      × ((f h).relay_port ≡ h.relay_port)

load_hops-touch :
    (id : ℕ) (q : RouteHop → Bool) (f : RouteHop → RouteHop) (s : Store)
    → Stays f
    → load_hops id (update_hops q f s) ≡ map (touch q f) (load_hops id s)
unfolding load_hops
load_hops-touch id q f s k =
    ap (sort_by (λ a b. leb a.hop_order b.hop_order))
      (select-touch (of_route id) q f s.hops (λ h. ap (λ i. i == id) (k h).0))
    ∙ sort_by-map (λ a b. leb a.hop_order b.hop_order) (touch q f) same_place
        (select_where (of_route id) s.hops)
  where
    order : (h : RouteHop) → (touch q f h).hop_order ≡ h.hop_order
    order h = elim (Bool-cases (q h)) [ inl e ↦ rw e (k h).1 | inr e ↦ rw e refl ]

    same_place :
        (a b : RouteHop)
        → leb (touch q f a).hop_order (touch q f b).hop_order ≡ leb a.hop_order b.hop_order
    same_place a b = λ i. leb (order a i) (order b i)

-- The writes to a stored route but that of its own row and path.
pub data Write : Type 0 where
  enable : ℕ → ℕ → Bool → Write
  pause : ℕ → Option ℕ → Write
  forget : ℕ → Write
  running : ℕ → ℕ → ℕ → Bool → Write
  measured : ℕ → ℕ → List (ℕ × ℕ) → Write
  drop : ℕ → Write

abbrev succeeded : {E : Type 0} → Result E (Unit {0}) → Bool
succeeded (ok _) = true
succeeded (err _) = false

-- What a write does to the tables, and whether it succeeds.
pub write : Write → Store → Bool × Store
write (enable now id enabled) s =
    let (r, s') = set_route_enabled now id enabled s in (succeeded r, s')
write (pause id at) s = (true, set_quota_paused id at s)
write (forget id) s = (true, clear_hop_running id s)
write (running now id order up) s = (true, set_hop_running now id order up s)
write (measured now id ms) s = (true, set_hop_latencies now id ms s)
write (drop id) s = let (r, s') = delete_route id s in (succeeded r, s')

abbrev mark_running : ℕ → ℕ → Bool → RouteHop → RouteHop
mark_running now order up =
    touch (λ h. h.hop_order == order) (λ h. record h { running = some up; checked_at = some now })

-- The latency of the hop at a place.
abbrev timed : ℕ → ℕ → RouteHop → RouteHop
timed now ms h = record h { latency_ms = some ms; latency_at = some now }

time_hops : ℕ → ℕ → List (ℕ × ℕ) → Panel → Panel
time_hops now id [] p = p
time_hops now id ((order, ms) ∷ rest) p = time_hops now id rest (
    Quota.update_route id
      (λ r. record r { hops = map (touch (λ h. h.hop_order == order) (timed now ms)) r.hops }) p)

-- What it promises for the plain list of routes that the quotas work on.
pub promise : Write → Panel → Bool × Panel
promise (enable now id enabled) p =
    let (r, p') = Quota.set_route_enabled now id enabled p in (succeeded r, p')
promise (pause id at) p = (true, Quota.set_quota_paused id at p)
promise (forget id) p = (true, Quota.clear_hop_running id p)
promise (running now id order up) p = (
  true,
  Quota.update_route id (λ r. record r { hops = map (mark_running now order up) r.hops }) p,
)
promise (measured now id ms) p = (true, time_hops now id ms p)
promise (drop id) p =
    (exists_where (has_id id) p.routes, record p { routes = delete_where (has_id id) p.routes })

pub write_all : List Write → Store → List Bool × Store
write_all [] s = ([], s)
write_all (w ∷ ws) s =
    let (done, s') = write w s in let (rest, s'') = write_all ws s' in (done ∷ rest, s'')

pub promise_all : List Write → Panel → List Bool × Panel
promise_all [] p = ([], p)
promise_all (w ∷ ws) p =
    let (done, p') = promise w p in let (rest, p'') = promise_all ws p' in (done ∷ rest, p'')

abbrev pub seen : Panel → Store → Panel
seen p s = record p { routes = view s }

row_view :
    (id : ℕ) (f : RouteRow → RouteRow) (f' : Route → Route) (s : Store)
    → ((r : RouteRow) → load_route s (f r) ≡ f' (load_route s r))
    → view (update_row id f s) ≡ update_where (has_id id) f' (view s)
unfolding view load_route load_hops
row_view id f f' s k =
    map-update_where (load_route s) (is_route id) f (has_id id) f' s.routes (λ r. refl) k

first_port-touch :
    (q : RouteHop → Bool) (f : RouteHop → RouteHop) (hs : List RouteHop)
    → Stays f
    → first_port (map (touch q f) hs) ≡ first_port hs
first_port-touch q f [] k = refl
first_port-touch q f (h ∷ hs) k = elim (Bool-cases (q h)) [
  | inl e ↦ rw e (k h).2
  | inr e ↦ rw e refl
]

-- A change to hops of one route is a change to that route of the view.
hops_view :
    (id : ℕ) (q q' : RouteHop → Bool) (f : RouteHop → RouteHop) (s : Store)
    → Stays f
    → ((h : RouteHop) → q h ≡ (of_route id h && q' h))
    → view (update_hops q f s)
      ≡ update_where (has_id id) (λ r. record r { hops = map (touch q' f) r.hops }) (view s)
unfolding view load_route
hops_view id q q' f s k l =
    map_apart (load_route s) (load_route (update_hops q f s)) (is_route id) (has_id id) _ s.routes
      (λ r. refl) inside outside
  where
    touch_same :
        (r : RouteRow)
        → is_route id r ≡ true
        → (h : RouteHop) → of_route r.id h ≡ true
        → touch q f h ≡ touch q' f h
    touch_same r e h o = let here : (of_route id h ≡ true) = ground (arith) in rw (l h, here) refl

    touch_none :
        (r : RouteRow)
        → is_route id r ≡ false
        → (h : RouteHop) → of_route r.id h ≡ true
        → touch q f h ≡ h
    touch_none r e h o = let away : (of_route id h ≡ false) = ground (arith) in rw (l h, away) refl

    inside :
        (r : RouteRow)
        → is_route id r ≡ true
        → load_route (update_hops q f s) r
          ≡ record (load_route s r) { hops = map (touch q' f) (load_route s r).hops }
    inside r e =
        let hops : load_hops r.id (update_hops q f s) ≡ map (touch q' f) (load_hops r.id s) =
          load_hops-touch r.id q f s k
          ∙ map_agree _ (touch q f) (touch q' f) (load_hops r.id s) (touch_same r e)
              (loaded_All r.id s) in
        rw hops (rw (first_port-touch q' f (load_hops r.id s) k) refl)

    outside :
        (r : RouteRow) → is_route id r ≡ false → load_route (update_hops q f s) r ≡ load_route s r
    outside r e =
        let hops : load_hops r.id (update_hops q f s) ≡ load_hops r.id s =
          load_hops-touch r.id q f s k
          ∙ map_id _ (touch q f) (load_hops r.id s) (touch_none r e) (loaded_All r.id s) in
        rw hops refl

drop_view :
    (id : ℕ) (s : Store)
    → view (record (clear_hops id s) { routes = delete_where (is_route id) s.routes })
      ≡ delete_where (has_id id) (view s)
unfolding view load_route load_hops
drop_view id s =
    map-delete_where (load_route s) (load_route (clear_hops id s)) (is_route id) (has_id id)
      s.routes (λ r. refl) others
  where
    others :
        (r : RouteRow) → is_route id r ≡ false → load_route (clear_hops id s) r ≡ load_route s r
    others r e =
        rw (select-delete (of_route r.id) (of_route id) s.hops (λ h o. ground (arith))) refl

row_exists :
    (id : ℕ) (s : Store) → exists_where (has_id id) (view s) ≡ exists_where (is_route id) s.routes
unfolding view load_route
row_exists id s = exists-map (load_route s) (is_route id) (has_id id) s.routes (λ r. refl)

time_view :
    (now id : ℕ) (ms : List (ℕ × ℕ)) (p : Panel) (s : Store)
    → time_hops now id ms (seen p s) ≡ seen p (set_hop_latencies now id ms s)
unfolding time_hops set_hop_latencies
time_view now id [] p s = refl
time_view now id ((order, ms) ∷ rest) p s =
    ap (λ v. time_hops now id rest (record p { routes = v }))
      (sym (
        hops_view id (at_hop id order) (λ h. h.hop_order == order) (timed now ms) s
          (λ h. (refl, refl, refl)) (λ h. refl)))
    ∙ time_view now id rest p (update_hops (at_hop id order) (timed now ms) s)

view-write :
    (w : Write) (p : Panel) (s : Store)
    → promise w (seen p s) ≡ ((write w s).0, seen p (write w s).1)
unfolding promise write set_route_enabled set_quota_paused clear_hop_running set_hop_running
    delete_route Quota.set_route_enabled Quota.set_quota_paused Quota.clear_hop_running load_route
view-write (enable now id enabled) p s = elim (Bool-cases (exists_where (is_route id) s.routes)) [
  | inl e ↦
      rw (row_exists id s, e)
        (ap (λ v. (true, record p { routes = v }))
          (sym (
            row_view id (λ r. record r { enabled = enabled; updated_at = now })
              (λ r. record r { enabled = enabled; updated_at = now }) s (λ r. refl))))
  | inr e ↦ rw (row_exists id s, e) refl
]
view-write (pause id at) p s =
    ap (λ v. (true, record p { routes = v }))
      (sym (
        row_view id (λ r. record r { quota_paused_at = at })
          (λ r. record r { quota_paused_at = at }) s (λ r. refl)))
view-write (forget id) p s =
    ap (λ v. (true, record p { routes = v }))
      (sym (
        hops_view id (of_route id) (λ h. true) forget_running s (λ h. (refl, refl, refl))
          (λ h. ground (arith))))
view-write (running now id order up) p s =
    ap (λ v. (true, record p { routes = v }))
      (sym (
        hops_view id (at_hop id order) (λ h. h.hop_order == order)
          (λ h. record h { running = some up; checked_at = some now }) s (λ h. (refl, refl, refl))
          (λ h. refl)))
view-write (measured now id ms) p s = ap (λ q. (true, q)) (time_view now id ms p s)
view-write (drop id) p s = elim (Bool-cases (exists_where (is_route id) s.routes)) [
  | inl e ↦
      rw (row_exists id s, e) (ap (λ v. (true, record p { routes = v })) (sym (drop_view id s)))
  | inr e ↦
      rw (row_exists id s, e)
        (ap (λ v. (false, record p { routes = v }))
          (delete_absent (has_id id) (view s) (row_exists id s ∙ e)))
]

-- Any sequence of these writes to stored routes, whether they succeed or fail: switching a route on or off,
-- setting or clearing its quota mark, forgetting the states of its hops, setting the state of one hop,
-- storing the latencies of hops, and deleting a route. Each does to the routes as they are loaded what it promises for the plain list: it
-- reports the same, and the routes that are loaded afterwards are those of the list, in the same order,
-- with their hops in theirs.
pub view-run :
    (ws : List Write) (p : Panel) (s : Store)
    → promise_all ws (seen p s) ≡ ((write_all ws s).0, seen p (write_all ws s).1)
unfolding promise_all write_all
view-run [] p s = refl
view-run (w ∷ ws) p s = rw (view-write w p s, view-run ws p (write w s).1) refl
