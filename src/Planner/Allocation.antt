-- ===== src/Planner/Allocation.antt =====
-- What an allocation gives: ports of each node's pool that nothing else holds, no two alike.
use fluxlite.Common.{
  ℕ, zero, suc, ◌+◌, ◌-◌, ◌≤◌, ◌<◌, ◌≡◌, refl, ◌⊎◌, inl, inr, true, false, not, ◌&&◌, ◌||◌, List,
  [], ◌∷◌, Option, none, some, ◌==◌, Bool-cases, Option-cases, ok, Result-cases, arith, ap, ◌∙◌,
  sym, subst, All-map, All,
}
use fluxlite.Model.{Node, RouteHop, Protocol, needs_udp, probed}
use fluxlite.Planner.{
  NodeLookup, Ports, Reserved, nothing_reserved, reserve, first_free_from, first_free, choose_port,
  known_no_udp, place, set_port, allocate_from, allocate,
}

-- The least port from `p` on, of the next `k`, that is in neither set.
first_free_from-some :
    (k p : ℕ) (used reserved : Ports) {q : ℕ}
    → first_free_from k p used reserved ≡ some q
    → (p ≤ q)
      × (q < p + k)
      × (used q ≡ false)
      × (reserved q ≡ false)
      × ((r : ℕ) → p ≤ r → r < q → (used r || reserved r) ≡ true)
unfolding first_free_from
first_free_from-some zero p used reserved h = cc
first_free_from-some (suc k) p used reserved {q} h =
    elim (Bool-cases (not (used p) && not (reserved p))) [
      | inl free ↦
          let same : p ≡ q = ground arith in
          rw (← same)
            (omega arith, omega arith, ground arith, ground arith, λ r a b. absurd (omega arith))
      | inr held ↦
          let (a, b, c, d, least) = first_free_from-some k (suc p) used reserved (ground arith) in
          let before : p ≤ q = omega (arith, a) in
          let within : q < p + suc k = omega (arith, b) in
          (before, within, c, d, λ r lo hi. step r lo hi held least)
    ]
  where
    step :
        (r : ℕ)
        → p ≤ r
        → r < q
        → (not (used p) && not (reserved p)) ≡ false
        → ((r : ℕ) → suc p ≤ r → r < q → (used r || reserved r) ≡ true)
        → (used r || reserved r) ≡ true
    step r lo hi held least = elim (Bool-cases (r == p)) [
      | inl e ↦ let same : r ≡ p = ground arith in rw same (ground arith)
      | inr e ↦ least r (ground arith) hi
    ]

first_free_from-none :
    (k p : ℕ) (used reserved : Ports)
    → first_free_from k p used reserved ≡ none
    → (r : ℕ) → p ≤ r
    → r < p + k
    → (used r || reserved r) ≡ true
unfolding first_free_from
first_free_from-none zero p used reserved h r lo hi = absurd (omega arith)
first_free_from-none (suc k) p used reserved h r lo hi = elim (Bool-cases (r == p)) [
  | inl e ↦ let same : r ≡ p = ground arith in rw same (ground arith)
  | inr e ↦
      first_free_from-none k (suc p) used reserved (ground arith) r (ground arith) (omega arith)
]

-- The port found is the least of the node's pool that nobody holds; none is found exactly if every
-- port of the pool is held.
pub first_free_least :
    (node : Node) (used reserved : Ports)
    → ((q : ℕ) × (first_free node used reserved ≡ some q)
        × (node.port_start ≤ q)
        × (q ≤ node.port_end)
        × (used q ≡ false)
        × (reserved q ≡ false)
        × ((r : ℕ) → node.port_start ≤ r → r < q → (used r || reserved r) ≡ true))
      ⊎ ((first_free node used reserved ≡ none)
          × ((r : ℕ) → node.port_start ≤ r → r ≤ node.port_end → (used r || reserved r) ≡ true))
unfolding first_free
first_free_least node used reserved =
    let k = suc node.port_end - node.port_start in
    elim (Option-cases (first_free_from k node.port_start used reserved)) [
      | inr (q, e) ↦
          let (a, b, c, d, least) = first_free_from-some k node.port_start used reserved e in
          inl (q, e, a, omega arith, c, d, least)
      | inl e ↦
          inr (
            e,
            λ r lo hi. first_free_from-none k node.port_start used reserved e r lo (omega arith),
          )
    ]

module _ (lookup : NodeLookup) (protocol : Protocol) where
  -- One hop of an allocation, against what is reserved before it.
  pub record IsPlaced (reserved : Reserved) (wanted : Option ℕ) (node : Node) (hop out : RouteHop)
      : Type 0 where
    pub used : Ports
    pub found : lookup.node_by_id hop.node_id ≡ ok node
    pub ports : lookup.used_ports_on_node node.id ≡ ok used
    pub is_probed : probed node ≡ true
    pub carries_udp : needs_udp protocol ≡ true → known_no_udp node ≡ false
    pub only_port : out ≡ set_port hop out.relay_port
    pub in_pool : (node.port_start ≤ out.relay_port) × (out.relay_port ≤ node.port_end)
    pub unused : used out.relay_port ≡ false
    pub unreserved : reserved node.id out.relay_port ≡ false
    pub honoured : (p : ℕ) → wanted ≡ some p → out.relay_port ≡ p

  choose_port_sound :
      (node : Node) (used reserved : Ports) (wanted : Option ℕ) {p : ℕ}
      → choose_port node used reserved wanted ≡ ok p
      → (node.port_start ≤ p)
        × (p ≤ node.port_end)
        × (used p ≡ false)
        × (reserved p ≡ false)
        × ((q : ℕ) → wanted ≡ some q → p ≡ q)
  unfolding choose_port
  choose_port_sound node used reserved none {p} h = elim (first_free_least node used reserved) [
    | inl (q, e, a, b, c, d, least) ↦
        let same : q ≡ p = ground arith in rw (← same) (a, b, c, d, λ r w. cc)
    | inr (e, all) ↦ ground arith
  ]
  choose_port_sound node used reserved (some w) {p} h =
      (ground arith, ground arith, ground arith, ground arith, λ r e. ground arith)

  place_sound :
      (hop : RouteHop) (reserved : Reserved) (wanted : Option ℕ) {node : Node} {port : ℕ}
      → place lookup protocol hop reserved wanted ≡ ok (node, port)
      → IsPlaced reserved wanted node hop (set_port hop port)
  unfolding place
  place_sound hop reserved wanted {node} {port} h =
      elim (Result-cases (lookup.node_by_id hop.node_id)) [
        | inr (e, missing) ↦ ground arith
        | inl (n, found) ↦ elim (Result-cases (lookup.used_ports_on_node n.id)) [
          | inr (e, unread) ↦ ground arith
          | inl (u, ports) ↦
              let same : n ≡ node = ground arith in
              let chosen : choose_port n u (reserved n.id) wanted ≡ ok port = ground arith in
              let (lo, hi, free, apart, asked) =
                choose_port_sound n u (reserved n.id) wanted chosen in
              subst (λ k. IsPlaced reserved wanted k hop (set_port hop port)) same
                (record {
                  used = u;
                  found = found;
                  ports = ports;
                  is_probed = ground arith;
                  carries_udp = λ needs. ground arith;
                  only_port = refl;
                  in_pool = (lo, hi);
                  unused = free;
                  unreserved = apart;
                  honoured = asked;
                })
        ]
      ]

  -- Each hop against the ports reserved by the hops before it; the requested port is the first's.
  pub data ArePlaced : Reserved → Option ℕ → List RouteHop → List RouteHop → Type 0 where
    none_left : {reserved : Reserved} {wanted : Option ℕ} → ArePlaced reserved wanted [] []
    one_more :
        {reserved : Reserved} {wanted : Option ℕ} {node : Node} {hop out : RouteHop}
        {hops outs : List RouteHop}
        → IsPlaced reserved wanted node hop out
        → ArePlaced (reserve reserved node.id out.relay_port) none hops outs
        → ArePlaced reserved wanted (hop ∷ hops) (out ∷ outs)

  allocate_from_sound :
      (hops : List RouteHop) (reserved : Reserved) (wanted : Option ℕ) {out : List RouteHop}
      → allocate_from lookup protocol hops reserved wanted ≡ ok out
      → ArePlaced reserved wanted hops out
  unfolding allocate_from
  allocate_from_sound [] reserved wanted {out} h =
      let same : [] ≡ out = ground arith in
      subst (λ o. ArePlaced reserved wanted [] o) same none_left
  allocate_from_sound (hop ∷ hops) reserved wanted {out} h =
      elim (Result-cases (place lookup protocol hop reserved wanted)) [
        | inr (e, failed) ↦ ground arith
        | inl ((node, port), at) ↦
            elim (Result-cases
              (allocate_from lookup protocol hops (reserve reserved node.id port) none)) [
                | inr (e, failed) ↦ ground arith
                | inl (outs, rest) ↦
                    let same : set_port hop port ∷ outs ≡ out = ground arith in
                    let later =
                      allocate_from_sound hops (reserve reserved node.id port) none rest in
                    subst (λ o. ArePlaced reserved wanted (hop ∷ hops) o) same
                      (one_more (place_sound hop reserved wanted at) later)
              ]
      ]

  -- The lookup answers with the node that was asked for.
  abbrev AnswersById : Type 0
  AnswersById = (id : ℕ) (n : Node) → lookup.node_by_id id ≡ ok n → n.id ≡ id

  abbrev IsUnreserved : Reserved → RouteHop → Type 0
  IsUnreserved reserved o = reserved o.node_id o.relay_port ≡ false

  abbrev Differs : RouteHop → RouteHop → Type 0
  Differs a b = ¬ ((b.node_id ≡ a.node_id) × (b.relay_port ≡ a.relay_port))

  abbrev pub NoTwoAlike : List RouteHop → Type 0
  NoTwoAlike [] = Unit
  NoTwoAlike (o ∷ outs) = All (Differs o) outs × NoTwoAlike outs

  module _ (by_id : AnswersById) where
    head-IsUnreserved :
        {reserved : Reserved} {wanted : Option ℕ} {node : Node} {hop out : RouteHop}
        → IsPlaced reserved wanted node hop out
        → (out.node_id ≡ node.id) × IsUnreserved reserved out
    head-IsUnreserved {reserved} {node} {hop} {out} placed =
        let here : out.node_id ≡ node.id =
          ap (λ (o : RouteHop). o.node_id) placed.only_port
          ∙ sym (by_id hop.node_id node placed.found) in
        (here, rw here placed.unreserved)

    reserve-keeps :
        (reserved : Reserved) (node port : ℕ) (o : RouteHop)
        → IsUnreserved (reserve reserved node port) o
        → IsUnreserved reserved o × ¬ ((o.node_id ≡ node) × (o.relay_port ≡ port))
    reserve-keeps reserved node port o h = (ground arith, λ (a, b). ground arith)

    ArePlaced-IsUnreserved :
        {reserved : Reserved} {wanted : Option ℕ} {hops outs : List RouteHop}
        → ArePlaced reserved wanted hops outs
        → All (IsUnreserved reserved) outs
    ArePlaced-IsUnreserved none_left = tt
    ArePlaced-IsUnreserved {reserved} (one_more {node} {out} {outs} placed rest) = (
      (head-IsUnreserved placed).1,
      All-map (λ o h. (reserve-keeps reserved node.id out.relay_port o h).0) outs
          (ArePlaced-IsUnreserved rest),
    )

    ArePlaced-NoTwoAlike :
        {reserved : Reserved} {wanted : Option ℕ} {hops outs : List RouteHop}
        → ArePlaced reserved wanted hops outs
        → NoTwoAlike outs
    ArePlaced-NoTwoAlike none_left = tt
    ArePlaced-NoTwoAlike {reserved} (one_more {node} {out} {outs} placed rest) =
        let here = (head-IsUnreserved placed).0 in
        (
          All-map
              (λ o h (a, b). (reserve-keeps reserved node.id out.relay_port o h).1 (a ∙ here, b))
              outs (ArePlaced-IsUnreserved rest),
          ArePlaced-NoTwoAlike rest,
        )

    -- An allocation that succeeds keeps the hops and their order and gives each a port: of its node's
    -- pool, in use by nothing else on that node, and the one that was asked for at the first hop if
    -- one was; every node is probed, and not known to drop UDP where the route needs it; and no two
    -- hops on one node share a port. The lookup answers an id with the node of that id.
    pub allocate_sound :
        (hops : List RouteHop) (entry_port : Option ℕ) {out : List RouteHop}
        → allocate lookup protocol hops entry_port ≡ ok out
        → ArePlaced nothing_reserved entry_port hops out × NoTwoAlike out
    unfolding allocate
    allocate_sound [] entry_port h = cc
    allocate_sound (hop ∷ hops) entry_port h =
        let placed = allocate_from_sound (hop ∷ hops) nothing_reserved entry_port h in
        (placed, ArePlaced-NoTwoAlike placed)
