-- ===== src/Tests/Store.antt =====
-- The tables of nodes and routes at concrete inputs.
use fluxlite.Common.{ℕ, ◌≡◌, codes, true, false, [], ◌∷◌, List, none, some}
use fluxlite.Common.Int.{pos}
use fluxlite.Model.{Node, Route, RouteHop, tcp, key, systemd, online}
use fluxlite.Store.{Store}
use fluxlite.Store.Sound.{Valid}
use fluxlite.Store.Sound.Run.{Call, new_node, new_route, drop_node, run, run-Valid}
use fluxlite.Store.View
use fluxlite.Store.View.{Write, view, seen, write_all, promise_all, view-run}
use fluxlite.Traffic.Quota.{Panel}

abbrev pub no_tables : Store
no_tables = record { nodes = []; routes = []; hops = []; next_node = 1; next_route = 1 }

pub no_tables-Valid : Valid no_tables
no_tables-Valid = record {
  hops = record { one_port = tt; one_order = tt; nodes_known = tt; routes_known = tt };
  routes = record { route_ids = tt; slugs = tt; route_bound = tt };
  nodes = record { node_ids = tt; node_bound = tt; vias_known = tt };
}

abbrev pub tokyo : Node
tokyo = record {
  id = 0;
  name = codes "tyo";
  host = codes "tyo.example";
  ssh_port = 22;
  ssh_user = codes "root";
  auth_type = key;
  auth_secret = 7 ∷ [];
  via_node_id = none;
  port_start = 20000;
  port_end = 20002;
  host_key = [];
  arch = codes "x86_64";
  os_id = codes "debian";
  init_system = systemd;
  udp_capable = none;
  ipv6_capable = none;
  ipv6_address = [];
  ipv6_entry = [];
  skip_udp_probe = false;
  realm_version = [];
  status = online;
  last_seen = none;
  created_at = 0;
  updated_at = 0;
}

abbrev hop : ℕ → ℕ → ℕ → RouteHop
hop order node port = record {
  route_id = 0;
  hop_order = order;
  node_id = node;
  relay_port = port;
  latency_ms = none;
  latency_at = none;
  running = none;
  checked_at = none;
}

abbrev pub main_route : Route
main_route = record {
  id = 0;
  name = codes "main";
  slug = codes "main";
  target = codes "10.0.0.9:443";
  protocol = tcp;
  entry_port = 20000;
  listen_ipv6 = false;
  enabled = true;
  quota_bytes = none;
  quota_reset_day = pos 1;
  quota_paused_at = none;
  created_at = 0;
  updated_at = 0;
  hops = hop 0 1 20000 ∷ hop 1 2 20001 ∷ [];
}

-- Two nodes, a route over both, one that wants a port that is claimed, and a node that is in use.
abbrev pub calls : List Call
calls =
    new_node 1 tokyo
    ∷ new_node 2 (record tokyo { name = codes "osa"; via_node_id = some 1 })
    ∷ new_route 3 main_route
    ∷ new_route 4 (record main_route { name = codes "two"; slug = codes "two" })
    ∷ drop_node (λ id. false) 2
    ∷ []

abbrev pub panel_tables : Store
panel_tables = run calls no_tables

run-Valid_example : Valid (run calls no_tables)
run-Valid_example = run-Valid calls no_tables no_tables-Valid

abbrev quiet : Panel
quiet = record {
  routes = [];
  traffic = record { traffic = []; daily = [] };
  node_known = λ id. true;
  removed = [];
}

abbrev writes : List Write
writes = View.running 5 1 1 true ∷ View.enable 6 1 false ∷ View.enable 6 2 false ∷ View.drop 1 ∷ []

view-run_example :
    promise_all writes (seen quiet panel_tables)
    ≡ ((write_all writes panel_tables).0, seen quiet (write_all writes panel_tables).1)
view-run_example = view-run writes quiet panel_tables
