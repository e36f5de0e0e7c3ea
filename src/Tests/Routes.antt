-- ===== src/Tests/Routes.antt =====
-- Nodes, routes and plans at concrete inputs.
use fluxlite.Common.{
  ℕ, ◌<◌, ◌^◌, ◌≡◌, refl, ◌↔◌, inl, inr, codes, text_eq, true, false, List, [], ◌∷◌, ◌++◌, none,
  some, Result, ok, err, arith, All, ◌==◌, if◌then◌else◌, Bool-cases,
}
use fluxlite.Common.Int.{pos}
use fluxlite.Common.HostPort.{contains_byte}
use fluxlite.Model.{
  Node, Route, RouteHop, tcp, key, systemd, online, probed, validate_display_name, validate_route,
}
use fluxlite.Model.Laws.{IsStorable, validate_route_iff}
use fluxlite.Planner.{
  Error, Ports, NodeLookup, node_not_probed, nothing_reserved, first_free, allocate, choose_port,
  place,
}
use fluxlite.Planner.Allocation.{ArePlaced, NoTwoAlike, allocate_sound}
use fluxlite.Planner.Config.{Format, HopPlan, build}
use fluxlite.Planner.Config.Chain.{IsHost, Linked, build-Linked}

abbrev hong_kong : Node
hong_kong = record {
  id = 1;
  name = codes "hk";
  host = codes "hk.example";
  ssh_port = 22;
  ssh_user = codes "root";
  auth_type = key;
  auth_secret = [];
  via_node_id = none;
  port_start = 20000;
  port_end = 20002;
  host_key = [];
  arch = codes "x86_64";
  os_id = [];
  init_system = systemd;
  udp_capable = none;
  ipv6_capable = some true;
  ipv6_address = codes "2001:db8::1";
  ipv6_entry = [];
  skip_udp_probe = false;
  realm_version = [];
  status = online;
  last_seen = none;
  created_at = 0;
  updated_at = 0;
}

abbrev tokyo : Node
tokyo = record hong_kong {
  id = 2;
  name = codes "jp";
  host = codes "jp.example";
  port_start = 30000;
  port_end = 30009;
}

-- Port 20000 of the first node is taken.
abbrev ports_used : ℕ → Ports
ports_used node port = if node == 1 then port == 20000 else false

abbrev lookup : NodeLookup
lookup = record {
  node_by_id =
      λ id. if id == 1 then ok hong_kong else if id == 2 then ok tokyo else err node_not_probed;
  used_ports_on_node = λ id. ok (ports_used id);
}

abbrev hop : ℕ → ℕ → ℕ → RouteHop
hop order node port = record {
  route_id = 7;
  hop_order = order;
  node_id = node;
  relay_port = port;
  latency_ms = none;
  latency_at = none;
  running = none;
  checked_at = none;
}

abbrev route : Route
route = record {
  id = 7;
  name = codes "hk to jp";
  slug = codes "hk-jp";
  target = codes "landing.example:443";
  protocol = tcp;
  entry_port = 20001;
  listen_ipv6 = true;
  enabled = true;
  quota_bytes = some 1000;
  quota_reset_day = pos 1;
  quota_paused_at = none;
  created_at = 0;
  updated_at = 0;
  hops = hop 0 1 20001 ∷ hop 1 2 30000 ∷ [];
}

validate_route_iff_example :
    (validate_route route ≡ ok tt) ↔ ((validate_display_name route.name ≡ ok tt) × IsStorable route)
validate_route_iff_example = validate_route_iff route

-- Each node has the id under which it is found.
by_id : (id : ℕ) (n : Node) → lookup.node_by_id id ≡ ok n → n.id ≡ id
by_id id n h = elim (Bool-cases (id == 1)) [
  | inl e ↦ let here : ok hong_kong ≡ ok n = rw e at h in ground arith
  | inr e ↦ elim (Bool-cases (id == 2)) [
    | inl e' ↦ let here : ok tokyo ≡ ok n = rw (e, e') at h in ground arith
    | inr e' ↦ ground arith
  ]
]

allocate_sound_example :
    ArePlaced lookup tcp nothing_reserved none
      (hop 0 1 0 ∷ hop 1 2 0 ∷ hop 2 1 0 ∷ [])
      (hop 0 1 20001 ∷ hop 1 2 30000 ∷ hop 2 1 20002 ∷ [])
    × NoTwoAlike lookup tcp (hop 0 1 20001 ∷ hop 1 2 30000 ∷ hop 2 1 20002 ∷ [])
unfolding allocate place choose_port first_free probed text_eq
allocate_sound_example =
    allocate_sound lookup tcp by_id (hop 0 1 0 ∷ hop 1 2 0 ∷ hop 2 1 0 ∷ []) none refl

-- Quotes without escapes; not a real hash.
abbrev plain : Format
plain = record { quote = λ s. codes "\"" ++ s ++ codes "\""; hash = λ s. s }

dialable :
    All
      (λ h.
        (h.relay_port < 2 ^ 63) × ((n : Node) → lookup.node_by_id h.node_id ≡ ok n → IsHost n.host))
      route.hops
unfolding contains_byte
dialable = (
  (omega arith, λ n e. let same : hong_kong ≡ n = cc in rw (← same) (refl, refl)),
  ((omega arith, λ n e. let same : tokyo ≡ n = cc in rw (← same) (refl, refl)), tt),
)

abbrev plans_of : Result Error (List HopPlan) → List HopPlan
plans_of (ok plans) = plans
plans_of (err e) = []

build-Linked_example : Linked plain.quote route.target (plans_of (build plain lookup route))
unfolding build
build-Linked_example = build-Linked plain lookup route dialable refl
