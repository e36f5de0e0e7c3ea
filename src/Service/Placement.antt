-- ===== src/Service/Placement.antt =====
-- Hops that were given free ports are stored.
pub mod Fresh
pub mod Cleared
use fluxlite.Common.{
  ℕ, zero, suc, ◌+◌, ◌≤◌, ◌<◌, ◌≡◌, refl, ap, ◌∙◌, sym, subst, ◌⊎◌, inl, inr, Text, Bool, true,
  false, not, ◌&&◌, ◌||◌, List, [], ◌∷◌, ◌++◌, map, Option, none, some, ◌==◌, if◌then◌else◌,
  Bool-cases, Option-cases, arith, All, All-map, All-append, Result, ok, err, is_some,
}
use mathlib.Core.List.{append_assoc, append-nil}
use fluxlite.Common.Exec.{◌>>=◌, ◌>>◌, pure}
use fluxlite.Common.Keys.{none_exist, exists-append, Pairwise}
use fluxlite.Common.Tables.{find_where, exists_where, delete_where, find-holds, exists-find}
use fluxlite.Model.{Node, RouteHop, Protocol}
use fluxlite.Planner
use fluxlite.Planner.{Reserved, NodeLookup}
use fluxlite.Planner.Allocation.{IsPlaced, ArePlaced, NoTwoAlike, none_left, one_more}
use fluxlite.Ports.{
  PortClaims, live_lookup, live_used_ports, live_ports, claimed_ports, own_ports_on,
}
use fluxlite.Store.{Store, has_id, claims, node_by_id, used_ports_on_node, is_excluded}
use fluxlite.Store.Routes.{
  is_route, of_route, at_hop, bare_hop, insert_hop, insert_hops, clear_hops,
}
use fluxlite.Store.Sound.{same_port, same_order, NodeKnown, RouteKnown}

-- A hop that meets no key of a table, and whose references are in the tables.
abbrev pub Fits : Store → RouteHop → Type 0
Fits s h =
    RouteKnown s.routes h
    × NodeKnown s.nodes h
    × (exists_where (at_hop h.route_id h.hop_order) s.hops ≡ false)
    × (exists_where (claims h.node_id h.relay_port) s.hops ≡ false)

abbrev with_hops : Store → List RouteHop → Store
with_hops s hops = record s { hops = hops }

insert_one :
    (h : RouteHop) (s : Store) → Fits s h → insert_hop h s ≡ (ok tt, with_hops s (s.hops ++ h ∷ []))
unfolding insert_hop
insert_one h s (known, on, place, port) = rw (known, on, place, port) refl

exists_last :
    (p : RouteHop → Bool) (hs : List RouteHop) (h : RouteHop)
    → exists_where p hs ≡ false
    → p h ≡ false
    → exists_where p (hs ++ h ∷ []) ≡ false
exists_last p [] h e k = rw k refl
exists_last p (x ∷ hs) h e k = elim (Bool-cases (p x)) [
  | inl e' ↦ cc (rw e' at e)
  | inr e' ↦ rw e' (exists_last p hs h (rw e' at e) k)
]

later-Fits :
    (s : Store) (h : RouteHop) (hs : List RouteHop)
    → All (λ k. same_port h k ≡ false) hs
    → All (λ k. same_order h k ≡ false) hs
    → All (Fits s) hs
    → All (Fits (with_hops s (s.hops ++ h ∷ []))) hs
later-Fits s h [] a b c = tt
later-Fits s h (k ∷ hs) (p, a) (q, b) ((known, on, place, port), c) = (
  (known, on, exists_last _ s.hops h place q, exists_last _ s.hops h port p),
  later-Fits s h hs a b c,
)

-- Hops that fit, no two at one place or on one port, are all stored after those that are there.
pub insert_hops_ok :
    (hops : List RouteHop) (s : Store)
    → All (Fits s) hops
    → Pairwise same_port hops
    → Pairwise same_order hops
    → insert_hops hops s ≡ (ok tt, with_hops s (s.hops ++ hops))
unfolding insert_hops
insert_hops_ok [] s a p o = ap (λ hs. (ok tt, with_hops s hs)) (sym (append-nil s.hops))
insert_hops_ok (h ∷ hops) s (fit, a) (p, ps) (o, os) = rw (insert_one h s fit) (
    insert_hops_ok hops (with_hops s (s.hops ++ h ∷ [])) (later-Fits s h hops p o a) ps os
    ∙ ap (λ hs. (ok tt, with_hops s hs)) (append_assoc s.hops (h ∷ []) hops))

-- A hop whose port nothing holds: it lies in the pool of its node, which is stored; no hop but those of
-- the route that is left out claims it there; and what is read of the machine claims it by no NAT rule,
-- and by no socket either unless that route has a hop there.
pub record IsFree (run : Node → Option Text) (exclude : Option ℕ) (s : Store) (h : RouteHop)
    : Type 0 where
  pub node : Node
  pub read : PortClaims
  pub found : node_by_id h.node_id s ≡ ok node
  pub in_pool : (node.port_start ≤ h.relay_port) × (h.relay_port ≤ node.port_end)
  pub claimed : claimed_ports run exclude s h.node_id ≡ some read
  pub not_stored : used_ports_on_node h.node_id exclude s h.relay_port ≡ false
  pub not_listening :
      (read.sockets h.relay_port && not (own_ports_on exclude s h.node_id h.relay_port)) ≡ false
  pub not_diverted : read.nat h.relay_port ≡ false

-- Places in a row, from one on.
abbrev pub Ascending : ℕ → List RouteHop → Type 0
Ascending n [] = Unit
Ascending n (h ∷ hs) = (h.hop_order ≡ n) × Ascending (suc n) hs

module _ (run : Node → Option Text) (exclude : Option ℕ) (s : Store) (protocol : Protocol) where
  pub by_id :
      (id : ℕ) (n : Node)
      → (live_lookup run exclude s).node_by_id id ≡ ok n
      → (node_by_id id s ≡ ok n) × (n.id ≡ id)
  unfolding node_by_id
  by_id id n h = elim (Option-cases (find_where (has_id id) s.nodes)) [
    | inl e ↦ cc (rw (node_by_id, e) at h)
    | inr (m, e) ↦
        let same : m ≡ n = ok_inj (rw (node_by_id, e) at h) in
        let found : (m.id == id) ≡ true = find-holds (has_id id) s.nodes e in
        (
          rw (node_by_id, e) (ap ok same),
          subst (λ (k : Node). k.id ≡ id) same (ground (arith, found)),
        )
  ]
    where
      ok_inj : {a b : Node} → ◌≡◌ {A = Result Planner.Error Node} (ok a) (ok b) → a ≡ b
      ok_inj e = cc

  used_lem :
      (node : ℕ) (used : ℕ → Bool) (port : ℕ)
      → live_used_ports run exclude s node ≡ ok used
      → used port ≡ false
      → (c : PortClaims) × (claimed_ports run exclude s node ≡ some c)
        × (live_ports run exclude s node c port ≡ false)
  unfolding live_used_ports
  used_lem node used port h free = elim (Option-cases (claimed_ports run exclude s node)) [
    | inl e ↦ cc (rw (live_used_ports, e) at h)
    | inr (c, e) ↦
        let same : live_ports run exclude s node c ≡ used = ok_inj (rw (live_used_ports, e) at h) in
        (c, e, ap (λ f. f port) same ∙ free)
  ]
    where
      ok_inj : {a b : ℕ → Bool} → ◌≡◌ {A = Result Planner.Error (ℕ → Bool)} (ok a) (ok b) → a ≡ b
      ok_inj e = cc

  placed-IsFree :
      {reserved : Reserved} {wanted : Option ℕ} {node : Node} {hop out : RouteHop}
      → IsPlaced (live_lookup run exclude s) protocol reserved wanted node hop out
      → IsFree run exclude s out × (out.node_id ≡ hop.node_id) × (out.hop_order ≡ hop.hop_order)
  placed-IsFree {node} {hop} {out} p =
      let (found, same) = by_id hop.node_id node p.found in
      let here : out.node_id ≡ hop.node_id = ap (λ (o : RouteHop). o.node_id) p.only_port in
      let there : node.id ≡ out.node_id = same ∙ sym here in
      let (c, read, free) = used_lem node.id p.used out.relay_port p.ports p.unused in
      let free' : live_ports run exclude s out.node_id c out.relay_port ≡ false =
        subst (λ i. live_ports run exclude s i c out.relay_port ≡ false) there free in
      (
        record {
          node = node;
          read = c;
          found = ap (λ i. node_by_id i s) here ∙ found;
          in_pool = p.in_pool;
          claimed = ap (claimed_ports run exclude s) (sym there) ∙ read;
          not_stored = ground (arith, free');
          not_listening = ground (arith, free');
          not_diverted = ground (arith, free');
        },
        here,
        ap (λ (o : RouteHop). o.hop_order) p.only_port,
      )

  pub ArePlaced-IsFree :
      {reserved : Reserved} {wanted : Option ℕ} {hops outs : List RouteHop} (n : ℕ)
      → ArePlaced (live_lookup run exclude s) protocol reserved wanted hops outs
      → Ascending n hops
      → All (IsFree run exclude s) outs
        × (map (λ h. h.node_id) outs ≡ map (λ h. h.node_id) hops)
        × Ascending n outs
  ArePlaced-IsFree n none_left a = (tt, refl, tt)
  ArePlaced-IsFree n (one_more p ps) (e, a) =
      let (free, on, place) = placed-IsFree p in
      let (rest, ons, places) = ArePlaced-IsFree (suc n) ps a in
      ((free, rest), λ i. on i ∷ ons i, (place ∙ e, places))

-- The hops of one route, as they are stored.
module _ (id : ℕ) where
  apart_ports :
      (a : RouteHop) (outs : List RouteHop)
      → All (λ b. ¬ ((b.node_id ≡ a.node_id) × (b.relay_port ≡ a.relay_port))) outs
      → All (λ b. same_port (bare_hop id a) b ≡ false) (map (bare_hop id) outs)
  apart_ports a [] h = tt
  apart_ports a (b ∷ outs) (d, h) = (one, apart_ports a outs h)
    where
      one : same_port (bare_hop id a) (bare_hop id b) ≡ false
      one = elim (Bool-cases (a.node_id == b.node_id && a.relay_port == b.relay_port)) [
        | inl e ↦ absurd (d (ground (arith, e), ground (arith, e)))
        | inr e ↦ e
      ]

  later_order :
      (n : ℕ) (outs : List RouteHop) (a : RouteHop)
      → a.hop_order < n
      → Ascending n outs
      → All (λ b. same_order (bare_hop id a) b ≡ false) (map (bare_hop id) outs)
  later_order n [] a l h = tt
  later_order n (b ∷ outs) a l (e, h) = (one, later_order (suc n) outs a (omega (arith, l)) h)
    where
      one : same_order (bare_hop id a) (bare_hop id b) ≡ false
      one = ground (arith, e, l)

  pub bare-same_order :
      (n : ℕ) (outs : List RouteHop)
      → Ascending n outs
      → Pairwise same_order (map (bare_hop id) outs)
  bare-same_order n [] a = tt
  bare-same_order n (h ∷ outs) (e, a) =
      (later_order (suc n) outs h (omega (arith, e)) a, bare-same_order (suc n) outs a)

  module _ (l : NodeLookup) (protocol : Protocol) where
    pub bare-same_port :
        (outs : List RouteHop)
        → NoTwoAlike l protocol outs
        → Pairwise same_port (map (bare_hop id) outs)
    bare-same_port [] a = tt
    bare-same_port (h ∷ outs) (d, a) = (apart_ports h outs d, bare-same_port outs a)
