-- ===== src/Planner/Config/Chain.antt =====
-- The hops of a plan link up, and what a rename leaves alone.
use fluxlite.Common.{
  ℕ, ◌^◌, ◌<◌, ◌≡◌, refl, ap, subst, ◌≢◌, ◌↔◌, ◌⊎◌, Text, codes, text_eq, text_eq_iff, true, false,
  ◌&&◌, ◌==◌, List, [], ◌∷◌, ◌++◌, map, Bool-cases, some, inl, inr, ok, Result-cases, arith, All,
}
use fluxlite.Common.Int.{pos}
use fluxlite.Common.Decimal.{itoa, atoi, atoi-itoa, itoa-digits, is_digit}
use fluxlite.Common.HostPort.{join_host_port, split_host_port, contains_byte, split-join}
use fluxlite.Model.{Node, Route, RouteHop}
use fluxlite.Planner.{NodeLookup}
use fluxlite.Planner.Config.{
  Format, HopPlan, head_text, is_bracketed, log_path, listen_address, render_config, plan_hop,
  plan_hops, load_nodes, build,
}

-- Digits hold none of the bytes that separate an address.
digits_free :
    (c : ℕ) (s : Text)
    → is_digit c ≡ false
    → All (λ r. is_digit r ≡ true) s
    → contains_byte c s ≡ false
unfolding contains_byte
digits_free c [] h d = refl
digits_free c (r ∷ s) h (e, d) = ground (arith, digits_free c s h d)

-- An address that a client can dial: it names the host, and the port on which it listens.
pub record Dials (remote host : Text) (port : ℕ) : Type 0 where
  pub digits : Text
  pub parts : split_host_port remote ≡ some (host, digits)
  pub number : atoi digits ≡ some (pos port)

abbrev pub IsHost : Text → Type 0
IsHost host = (contains_byte b'[' host ≡ false) × (contains_byte b']' host ≡ false)

join-Dials :
    (host : Text) (port : ℕ)
    → IsHost host
    → port < 2 ^ 63
    → Dials (join_host_port host (itoa port)) host port
join-Dials host port (left, right) small = record {
  digits = itoa port;
  parts = split-join host (itoa port) (record {
    host_left = left;
    host_right = right;
    port_colon = digits_free b':' (itoa port) refl (itoa-digits port);
    port_left = digits_free b'[' (itoa port) refl (itoa-digits port);
    port_right = digits_free b']' (itoa port) refl (itoa-digits port);
  });
  number = atoi-itoa port small;
}

-- The configuration ends in its one endpoint: it listens on `port`, over IPv4 or IPv6, on every address of
-- the machine, and forwards to what the plan calls the remote.
pub record Configured (quote : Text → Text) (p : HopPlan) : Type 0 where
  pub front : Text
  pub bound : Text
  pub any_address :
      (bound ≡ codes "0.0.0.0:" ++ itoa p.listen) ⊎ (bound ≡ codes "[::]:" ++ itoa p.listen)
  pub ends :
      p.config
      ≡ front
        ++ (codes "[[endpoints]]"
            ++ (10 ∷ [])
            ++ codes "listen = "
            ++ quote bound
            ++ (10 ∷ [])
            ++ codes "remote = "
            ++ quote p.remote
            ++ (10 ∷ []))

-- Every hop dials the next one's host and listen port, and the last one the landing address.
pub data Linked (quote : Text → Text) (target : Text) : List HopPlan → Type 0 where
  last : {p : HopPlan} → Configured quote p → p.remote ≡ target → Linked quote target (p ∷ [])
  link :
      {p q : HopPlan} {rest : List HopPlan}
      → Configured quote p
      → Dials p.remote q.node.host q.listen
      → Linked quote target (q ∷ rest)
      → Linked quote target (p ∷ q ∷ rest)

abbrev IsDialable : RouteHop × Node → Type 0
IsDialable (h, n) = IsHost n.host × (h.relay_port < 2 ^ 63)

module _ (f : Format) where
  plan_hop-fields :
      (route : Route) (h : RouteHop) (n : Node) (remote : Text)
      → let p = plan_hop f route h n remote in
        (p.node ≡ n) × (p.listen ≡ h.relay_port) × (p.remote ≡ remote) × (p.hop_order ≡ h.hop_order)
  unfolding plan_hop
  plan_hop-fields route h n remote = (refl, refl, refl, refl)

  listen_any :
      (route : Route) (n : Node) (order port : ℕ)
      → (listen_address route n order port ≡ codes "0.0.0.0:" ++ itoa port)
        ⊎ (listen_address route n order port ≡ codes "[::]:" ++ itoa port)
  unfolding listen_address join_host_port contains_byte
  listen_any route n order port =
      elim (Bool-cases (route.listen_ipv6 && order == 0 && text_eq n.ipv6_entry [])) [
        | inl e ↦ inr (rw e refl)
        | inr e ↦ inl (rw e refl)
      ]

  plan_hop-Configured :
      (route : Route) (h : RouteHop) (n : Node) (remote : Text)
      → Configured f.quote (plan_hop f route h n remote)
  unfolding plan_hop render_config log_path listen_address
  plan_hop-Configured route h n remote = record {
    front = head_text f route (is_bracketed (listen_address route n h.hop_order h.relay_port));
    bound = listen_address route n h.hop_order h.relay_port;
    any_address = listen_any route n h.hop_order h.relay_port;
    ends = refl;
  }

  -- The first plan of a chain stands for its first hop.
  plan_hops-Linked :
      (route : Route) (hn : RouteHop × Node) (rest : List (RouteHop × Node))
      → All IsDialable rest
      → Linked f.quote route.target (plan_hops f route (hn ∷ rest))
  unfolding plan_hops plan_hop
  plan_hops-Linked route (h, n) [] d = last (plan_hop-Configured route h n _) refl
  plan_hops-Linked route (h, n) ((h', n') ∷ []) ((host, small), d) =
      link (plan_hop-Configured route h n _) (join-Dials n'.host h'.relay_port host small)
        (last (plan_hop-Configured route h' n' _) refl)
  plan_hops-Linked route (h, n) ((h', n') ∷ x ∷ rest) ((host, small), d) =
      link (plan_hop-Configured route h n _) (join-Dials n'.host h'.relay_port host small)
        (plan_hops-Linked route (h', n') (x ∷ rest) d)

  module _ (lookup : NodeLookup) where
    -- Every node of the plan has a host that can stand in an address, and the ports are ints.
    abbrev AllDialable : List RouteHop → Type 0
    AllDialable = All (λ h.
        (h.relay_port < 2 ^ 63) × ((n : Node) → lookup.node_by_id h.node_id ≡ ok n → IsHost n.host))

    loaded-IsDialable :
        (hops : List RouteHop) {loaded : List (RouteHop × Node)}
        → AllDialable hops
        → load_nodes f lookup hops ≡ ok loaded
        → All IsDialable loaded
    unfolding load_nodes
    loaded-IsDialable [] {loaded} d h =
        let same : [] ≡ loaded = ground arith in subst (All IsDialable) same tt
    loaded-IsDialable (x ∷ hops) {loaded} ((small, host), d) h =
        elim (Result-cases (lookup.node_by_id x.node_id)) [
          | inr (e, missing) ↦ ground arith
          | inl (n, found) ↦ elim (Result-cases (load_nodes f lookup hops)) [
            | inr (e, missing) ↦ ground arith
            | inl (rest, later) ↦
                let same : (x, n) ∷ rest ≡ loaded = ground arith in
                subst (All IsDialable) same ((host n found, small), loaded-IsDialable hops d later)
          ]
        ]

    Linked-of_loaded :
        (route : Route) (loaded : List (RouteHop × Node))
        → loaded ≢ []
        → All IsDialable loaded
        → Linked f.quote route.target (plan_hops f route loaded)
    Linked-of_loaded route [] ne d = absurd (ne refl)
    Linked-of_loaded route (hn ∷ rest) ne (_, d) = plan_hops-Linked route hn rest d

    -- A plan that is built is a chain: the configuration of each hop ends in one endpoint, which
    -- listens on the hop's port and on every address of IPv4 or of IPv6, and forwards to its remote.
    -- That is the host of the next hop's node and the port on which that hop listens, read back as a
    -- dialler reads an address, and for the last hop the landing address. The hosts of the nodes
    -- found hold no bracket, and the ports of the hops are below 2 ^ 63.
    pub build-Linked :
        (route : Route) {plans : List HopPlan}
        → AllDialable route.hops
        → build f lookup route ≡ ok plans
        → Linked f.quote route.target plans
    unfolding build load_nodes
    build-Linked route {plans} d h = elim (Result-cases (load_nodes f lookup route.hops)) [
      | inr (e, failed) ↦ ground arith
      | inl (loaded, done) ↦
          let same : plan_hops f route loaded ≡ plans = ground arith in
          let some_hop : loaded ≢ [] = λ e. ground arith in
          subst (Linked f.quote route.target) same
            (Linked-of_loaded route loaded some_hop (loaded-IsDialable route.hops d done))
    ]

    abbrev pub renamed : Text → HopPlan → HopPlan
    renamed name p = record p { route_name = name }

    plan_hops-renamed :
        (route : Route) (name : Text) (loaded : List (RouteHop × Node))
        → plan_hops f (record route { name = name }) loaded
          ≡ map (renamed name) (plan_hops f route loaded)
    unfolding plan_hops plan_hop listen_address render_config
    plan_hops-renamed route name [] = refl
    plan_hops-renamed route name ((h, n) ∷ []) = refl
    plan_hops-renamed route name ((h, n) ∷ (h', n') ∷ rest) =
        ap
          (λ t.
            renamed name (plan_hop f route h n (join_host_port n'.host (itoa h'.relay_port))) ∷ t)
          (plan_hops-renamed route name ((h', n') ∷ rest))

    -- A rename of a route whose plan is built changes only the name in the plan: every
    -- configuration, its hash, its path and its unit name stay, so that no relay is restarted for
    -- it.
    pub build_rename :
        (route : Route) (name : Text) {plans : List HopPlan}
        → build f lookup route ≡ ok plans
        → build f lookup (record route { name = name }) ≡ ok (map (renamed name) plans)
    unfolding build
    build_rename route name {plans} h = elim (Result-cases (load_nodes f lookup route.hops)) [
      | inr (e, failed) ↦ ground arith
      | inl (loaded, done) ↦ ground (arith, plan_hops-renamed route name loaded)
    ]

  -- A hop is planned to listen on IPv6 alone exactly if it is the first, its route asks for it, and
  -- its node has no forwarded IPv6 entry.
  pub plan_hop_ipv6_iff :
      (route : Route) (h : RouteHop) (n : Node) (remote : Text)
      → ((plan_hop f route h n remote).listen_ipv6 ≡ true)
        ↔ ((route.listen_ipv6 ≡ true) × (h.hop_order ≡ 0) × (n.ipv6_entry ≡ []))
  unfolding plan_hop join_host_port contains_byte
  plan_hop_ipv6_iff route h n remote = (
    λ e. ground (arith, text_eq_iff n.ipv6_entry []),
    λ e. ground (arith, text_eq_iff n.ipv6_entry []),
  )
