-- ===== src/Planner.antt =====
-- internal/planner/planner.go: a listen port for every hop, and the relay's configuration on each.
pub mod Allocation
pub mod Config
use fluxlite.Common.{
  ℕ, zero, suc, ◌+◌, ◌-◌, Text, codes, text_eq, Bool, true, false, not, ◌&&◌, ◌||◌, List, [], ◌∷◌,
  ◌++◌, Option, none, some, ltb, leb, ◌==◌, if◌then◌else◌, Result, ok, err,
}
use fluxlite.Common.Decimal.{itoa}
use fluxlite.Common.HostPort.{join_host_port}
use fluxlite.Model.{Node, Route, RouteHop, Protocol, needs_udp, probed}

pub data Error : Type 0 where
  no_hops port_pool_empty entry_port_taken entry_out_of_pool udp_unsupported node_not_probed : Error
  lookup_failed : Error

-- A set of ports: map[int]bool.
abbrev pub Ports : Type 0
Ports = ℕ → Bool

-- `NodeLookup`: the nodes, and the ports claimed on each.
pub record NodeLookup : Type 0 where
  pub node_by_id : ℕ → Result Error Node
  pub used_ports_on_node : ℕ → Result Error Ports

-- Ports claimed within one allocation, by node.
abbrev pub Reserved : Type 0
Reserved = ℕ → Ports

abbrev pub nothing_reserved : Reserved
nothing_reserved node port = false

abbrev pub reserve : Reserved → ℕ → ℕ → Reserved
reserve r node port n p = (n == node && p == port) || r n p

-- The loop of `firstFree`, with the number of ports that are left to look at.
first_free_from : ℕ → ℕ → Ports → Ports → Option ℕ
first_free_from zero p used reserved = none
first_free_from (suc k) p used reserved =
    let rest = first_free_from k (suc p) used reserved in
    if not (used p) && not (reserved p) then some p else rest

unfoldable pub first_free : Node → Ports → Ports → Option ℕ
unfolding first_free_from
first_free node used reserved =
    first_free_from (suc node.port_end - node.port_start) node.port_start used reserved

abbrev set_port : RouteHop → ℕ → RouteHop
set_port hop port = record hop { relay_port = port }

-- `node.UDPCapable != nil && !*node.UDPCapable`
abbrev pub known_no_udp : Node → Bool
known_no_udp node = elim node.udp_capable [ none ↦ false | some b ↦ not b ]

-- The port of a hop: the requested one, or the first that is free.
unfoldable pub choose_port : Node → Ports → Ports → Option ℕ → Result Error ℕ
choose_port node used reserved none = elim (first_free node used reserved) [
  | none ↦ err port_pool_empty
  | some p ↦ ok p
]
choose_port node used reserved (some p) =
    if ltb p node.port_start || ltb node.port_end p
    then err entry_out_of_pool
    else if used p || reserved p
    then err entry_port_taken
    else ok p

module _ (lookup : NodeLookup) (protocol : Protocol) where
  abbrev pub check_node : Node → Result Error (Unit {0})
  check_node node =
      if not (probed node)
      then err node_not_probed
      else if needs_udp protocol && known_no_udp node
      then err udp_unsupported
      else ok tt

  abbrev choose :
      Node → Reserved → Option ℕ → Result Error (Unit {0}) → Result Error Ports → Result Error ℕ
  choose node reserved wanted (err e) used = err e
  choose node reserved wanted (ok _) (err e) = err e
  choose node reserved wanted (ok _) (ok used) = choose_port node used (reserved node.id) wanted

  abbrev on_node : Reserved → Option ℕ → Result Error Node → Result Error (Node × ℕ)
  on_node reserved wanted (err e) = err e
  on_node reserved wanted (ok node) =
      elim (choose node reserved wanted (check_node node) (lookup.used_ports_on_node node.id)) [
        | err e ↦ err e
        | ok port ↦ ok (node, port)
      ]

  -- One round of the loop of `Allocate`: the node of the hop, and its port.
  unfoldable pub place : RouteHop → Reserved → Option ℕ → Result Error (Node × ℕ)
  place hop reserved wanted = on_node reserved wanted (lookup.node_by_id hop.node_id)

  abbrev cons_hop : RouteHop → Result Error (List RouteHop) → Result Error (List RouteHop)
  cons_hop hop (err e) = err e
  cons_hop hop (ok hops) = ok (hop ∷ hops)

  abbrev then_place :
      RouteHop
      → (ℕ → ℕ → Result Error (List RouteHop))
      → Result Error (Node × ℕ)
      → Result Error (List RouteHop)
  then_place hop rest (err e) = err e
  then_place hop rest (ok (node, port)) = cons_hop (set_port hop port) (rest node.id port)

  -- The entry port is for the first hop alone.
  pub allocate_from : List RouteHop → Reserved → Option ℕ → Result Error (List RouteHop)
  allocate_from [] reserved wanted = ok []
  allocate_from (hop ∷ hops) reserved wanted =
      then_place hop (λ node port. allocate_from hops (reserve reserved node port) none)
        (place hop reserved wanted)

  -- `Allocate`
  unfoldable pub allocate : List RouteHop → Option ℕ → Result Error (List RouteHop)
  unfolding allocate_from
  allocate [] entry_port = err no_hops
  allocate (hop ∷ hops) entry_port = allocate_from (hop ∷ hops) nothing_reserved entry_port
