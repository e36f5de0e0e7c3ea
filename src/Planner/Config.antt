-- ===== src/Planner/Config.antt =====
-- internal/planner/planner.go: what each hop of a route runs.
pub mod Chain
use fluxlite.Common.{
  ℕ, zero, suc, Text, codes, text_eq, Bool, true, false, not, ◌&&◌, List, [], ◌∷◌, ◌++◌, Option,
  none, some, ltb, leb, ◌==◌, if◌then◌else◌, Result, ok, err,
}
use fluxlite.Common.Decimal.{itoa}
use fluxlite.Common.HostPort.{join_host_port}
use fluxlite.Model.{Node, Route, RouteHop, needs_udp}
use fluxlite.Planner.{Error, no_hops, NodeLookup}

-- `InstanceName`, `ConfigPath`, `LogPath`
unfoldable pub instance_name : Text → Text
instance_name slug = codes "fluxlite-" ++ slug

unfoldable pub config_path : Text → Text
config_path slug = codes "/etc/fluxlite/realm/" ++ slug ++ codes ".toml"

unfoldable pub log_path : Text → Text
log_path slug = codes "/var/log/fluxlite/" ++ slug ++ codes ".log"

-- `ListenAddress`: only the first hop widens, on a node that holds its own IPv6 address.
unfoldable pub listen_address : Route → Node → ℕ → ℕ → Text
listen_address route node hop_order port =
    if route.listen_ipv6 && hop_order == 0 && text_eq node.ipv6_entry []
    then join_host_port (codes "::") (itoa port)
    else join_host_port (codes "0.0.0.0") (itoa port)

abbrev pub bool_text : Bool → Text
bool_text true = codes "true"
bool_text false = codes "false"

abbrev nl : Text
nl = 10 ∷ []

-- `HopPlan`
pub record HopPlan : Type 0 where
  pub route_id : ℕ
  pub route_name : Text
  pub route_slug : Text
  pub hop_order : ℕ
  pub node : Node
  pub listen : ℕ
  pub listen_ipv6 : Bool
  pub remote : Text
  pub config : Text
  pub path : Text
  pub unit_name : Text
  pub hash : Text

-- `strings.HasPrefix(listen, "[")`
abbrev pub is_bracketed : Text → Bool
is_bracketed [] = false
is_bracketed (r ∷ s) = r == b'['

-- `%q` and SHA-256 with hex, which the text of a configuration goes through.
pub record Format : Type 0 where
  pub quote : Text → Text
  pub hash : Text → Text

module _ (f : Format) where
  -- What `renderConfig` writes before the endpoint, and the endpoint.
  abbrev pub head_text : Route → Bool → Text
  head_text route ipv6_only =
      codes "# Managed by fluxlite. Manual edits are overwritten on apply."
      ++ nl
      ++ codes "# route: "
      ++ route.slug
      ++ nl
      ++ nl
      ++ codes "[log]"
      ++ nl
      ++ codes "level = \"warn\""
      ++ nl
      ++ codes "output = "
      ++ f.quote (log_path route.slug)
      ++ nl
      ++ nl
      ++ codes "[network]"
      ++ nl
      ++ codes "no_tcp = false"
      ++ nl
      ++ codes "use_udp = "
      ++ bool_text (needs_udp route.protocol)
      ++ nl
      ++ (if ipv6_only then codes "ipv6_only = true" ++ nl else [])
      ++ nl

  abbrev endpoint_text : Text → Text → Text
  endpoint_text listen remote =
      codes "[[endpoints]]"
      ++ nl
      ++ codes "listen = "
      ++ f.quote listen
      ++ nl
      ++ codes "remote = "
      ++ f.quote remote
      ++ nl

  -- `renderConfig`
  unfoldable pub render_config : Route → Text → Bool → Text → Text
  unfolding log_path
  render_config route listen ipv6_only remote =
      head_text route ipv6_only ++ endpoint_text listen remote

  abbrev plan_with : Route → RouteHop → Node → Text → Text → Bool → HopPlan
  plan_with route h node remote listen ipv6_only =
      let cfg = render_config route listen ipv6_only remote in
      record {
        route_id = route.id;
        route_name = route.name;
        route_slug = route.slug;
        hop_order = h.hop_order;
        node = node;
        listen = h.relay_port;
        listen_ipv6 = ipv6_only;
        remote = remote;
        config = cfg;
        path = config_path route.slug;
        unit_name = instance_name route.slug;
        hash = f.hash cfg;
      }

  -- One round of the second loop of `Build`.
  unfoldable pub plan_hop : Route → RouteHop → Node → Text → HopPlan
  unfolding listen_address
  plan_hop route h node remote =
      let listen = listen_address route node h.hop_order h.relay_port in
      plan_with route h node remote listen (is_bracketed listen)

  -- A hop forwards to the next one, and the last to the landing address.
  pub plan_hops : Route → List (RouteHop × Node) → List HopPlan
  plan_hops route [] = []
  plan_hops route ((h, n) ∷ []) = plan_hop route h n route.target ∷ []
  plan_hops route ((h, n) ∷ (h', n') ∷ rest) =
      plan_hop route h n (join_host_port n'.host (itoa h'.relay_port))
      ∷ plan_hops route ((h', n') ∷ rest)

  module _ (lookup : NodeLookup) where
    abbrev with_node :
        RouteHop
        → Result Error Node
        → Result Error (List (RouteHop × Node))
        → Result Error (List (RouteHop × Node))
    with_node h (err e) rest = err e
    with_node h (ok n) (err e) = err e
    with_node h (ok n) (ok rest) = ok ((h, n) ∷ rest)

    -- The first loop of `Build`.
    load_nodes : List RouteHop → Result Error (List (RouteHop × Node))
    load_nodes [] = ok []
    load_nodes (h ∷ hops) = with_node h (lookup.node_by_id h.node_id) (load_nodes hops)

    abbrev plan_loaded : Route → Result Error (List (RouteHop × Node)) → Result Error (List HopPlan)
    plan_loaded route (err e) = err e
    plan_loaded route (ok loaded) = ok (plan_hops route loaded)

    abbrev is_empty : List RouteHop → Bool
    is_empty [] = true
    is_empty (h ∷ hops) = false

    -- `Build`: the hops of the plan.
    unfoldable pub build : Route → Result Error (List HopPlan)
    unfolding load_nodes
    build route =
        if is_empty route.hops then err no_hops else plan_loaded route (load_nodes route.hops)
