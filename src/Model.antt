-- ===== src/Model.antt =====
-- internal/model/model.go: the domain types, and the checks before they are stored. A port or an id is
-- a natural number: a negative one takes the branch that 0 takes in each of these checks.
pub mod Laws
use fluxlite.Common.{
  ℕ, zero, suc, ◌+◌, ◌-◌, Text, text_eq, trim_space, codes, length, Bool, true, false, not, ◌&&◌,
  ◌||◌, List, [], ◌∷◌, Option, none, some, ltb, leb, ◌==◌, if◌then◌else◌, is_true, Result, ok, err,
}
use fluxlite.Common.Int.{ℤ, pos, negsuc, ltb_ℤ}
use fluxlite.Common.Decimal.{atoi}
use fluxlite.Common.HostPort.{split_host_port}

pub data Error : Type 0 where
  name_empty name_too_long name_control : Error
  host_empty user_empty auth_type_bad ssh_port_bad port_range_bad self_via : Error
  slug_empty target_bad protocol_bad entry_port_bad too_few_hops hop_repeat : Error
  quota_bytes_bad quota_reset_day_bad : Error

abbrev pub max_display_name_len : ℕ
max_display_name_len = 64

-- `unicode.IsControl`
abbrev is_control : ℕ → Bool
is_control r = ltb r 32 || (leb 127 r && ltb r 160)

unfoldable pub has_control : Text → Bool
has_control [] = false
has_control (r ∷ s) = is_control r || has_control s

unfoldable pub validate_display_name : Text → Result Error (Unit {0})
validate_display_name name =
    let trimmed = trim_space name in
    if text_eq trimmed []
    then err name_empty
    else if ltb max_display_name_len (length trimmed)
    then err name_too_long
    else if has_control trimmed
    then err name_control
    else ok tt

pub data InitSystem : Type 0 where
  systemd openrc unknown : InitSystem

abbrev pub init_valid : InitSystem → Bool
init_valid unknown = false
init_valid _ = true

-- `bad` is any other string.
pub data AuthType : Type 0 where
  key password bad : AuthType

abbrev pub auth_valid : AuthType → Bool
auth_valid bad = false
auth_valid _ = true

pub data Protocol : Type 0 where
  tcp tcp_udp other : Protocol

abbrev pub protocol_valid : Protocol → Bool
protocol_valid other = false
protocol_valid _ = true

abbrev pub needs_udp : Protocol → Bool
needs_udp tcp_udp = true
needs_udp _ = false

pub data NodeStatus : Type 0 where
  unknown_status online offline : NodeStatus

pub record Node : Type 0 where
  pub id : ℕ
  pub name : Text
  pub host : Text
  pub ssh_port : ℕ
  pub ssh_user : Text
  pub auth_type : AuthType
  pub auth_secret : List ℕ
  pub via_node_id : Option ℕ
  pub port_start : ℕ
  pub port_end : ℕ
  pub host_key : Text
  pub arch : Text
  pub os_id : Text
  pub init_system : InitSystem
  pub udp_capable : Option Bool
  pub ipv6_capable : Option Bool
  pub ipv6_address : Text
  pub ipv6_entry : Text
  pub skip_udp_probe : Bool
  pub realm_version : Text
  pub status : NodeStatus
  pub last_seen : Option ℕ
  pub created_at : ℕ
  pub updated_at : ℕ

unfoldable pub ipv6_reachable : Node → Bool
ipv6_reachable n = not (text_eq n.ipv6_entry []) || is_true n.ipv6_capable

unfoldable pub ipv6_dial_address : Node → Text
ipv6_dial_address n = if text_eq n.ipv6_entry [] then n.ipv6_address else n.ipv6_entry

unfoldable pub port_pool_size : Node → ℕ
port_pool_size n = if ltb n.port_end n.port_start then 0 else n.port_end - n.port_start + 1

unfoldable pub probed : Node → Bool
probed n = init_valid n.init_system && not (text_eq n.arch [])

abbrev is_port : ℕ → Bool
is_port p = leb 1 p && leb p 65535

abbrev via_self : Node → Bool
via_self n = elim n.via_node_id [ none ↦ false | some v ↦ v == n.id && not (n.id == 0) ]

abbrev check_node : Node → Result Error (Unit {0})
check_node n =
    if text_eq (trim_space n.host) []
    then err host_empty
    else if text_eq (trim_space n.ssh_user) []
    then err user_empty
    else if not (auth_valid n.auth_type)
    then err auth_type_bad
    else if not (is_port n.ssh_port)
    then err ssh_port_bad
    else if ltb n.port_start 1 || ltb 65535 n.port_end || ltb n.port_end n.port_start
    then err port_range_bad
    else if via_self n
    then err self_via
    else ok tt

-- `Node.Validate`
unfoldable pub validate_node : Node → Result Error (Unit {0})
unfolding validate_display_name
validate_node n = elim (validate_display_name n.name) [ err e ↦ err e | ok _ ↦ check_node n ]

pub record RouteHop : Type 0 where
  pub route_id : ℕ
  pub hop_order : ℕ
  pub node_id : ℕ
  pub relay_port : ℕ
  pub latency_ms : Option ℕ
  pub latency_at : Option ℕ
  pub running : Option Bool
  pub checked_at : Option ℕ

pub record Route : Type 0 where
  pub id : ℕ
  pub name : Text
  pub slug : Text
  pub target : Text
  pub protocol : Protocol
  pub entry_port : ℕ
  pub listen_ipv6 : Bool
  pub enabled : Bool
  pub quota_bytes : Option ℕ
  pub quota_reset_day : ℤ
  pub quota_paused_at : Option ℕ
  pub created_at : ℕ
  pub updated_at : ℕ
  pub hops : List RouteHop

-- Two hops in a row on one node.
unfoldable pub repeats : List RouteHop → Bool
repeats [] = false
repeats (a ∷ []) = false
repeats (a ∷ b ∷ rest) = b.node_id == a.node_id || repeats (b ∷ rest)

abbrev pub quota_ok : Option ℕ → Bool
quota_ok none = true
quota_ok (some q) = ltb 0 q

abbrev in_port_range : ℤ → Bool
in_port_range (pos p) = is_port p
in_port_range (negsuc p) = false

abbrev check_port : Text × Text → Result Error (Unit {0})
check_port (host, digits) = elim (atoi digits) [
  | none ↦ err target_bad
  | some p ↦ if in_port_range p then ok tt else err target_bad
]

abbrev check_target : Text × Text → Result Error (Unit {0})
check_target (host, digits) =
    if text_eq (trim_space host) [] then err target_bad else check_port (host, digits)

unfoldable pub validate_target : Text → Result Error (Unit {0})
validate_target target = elim (split_host_port (trim_space target)) [
  | none ↦ err target_bad
  | some parts ↦ check_target parts
]

abbrev check_route : Route → Result Error (Unit {0})
check_route r =
    if not (protocol_valid r.protocol)
    then err protocol_bad
    else if not (is_port r.entry_port)
    then err entry_port_bad
    else if ltb (length r.hops) 1
    then err too_few_hops
    else if repeats r.hops
    then err hop_repeat
    else if not (quota_ok r.quota_bytes)
    then err quota_bytes_bad
    else if ltb_ℤ r.quota_reset_day (pos 0) || ltb_ℤ (pos 28) r.quota_reset_day
    then err quota_reset_day_bad
    else ok tt

abbrev check_slug : Route → Result Error (Unit {0})
check_slug r =
    if text_eq r.slug []
    then err slug_empty
    else elim (validate_target r.target) [ err e ↦ err e | ok _ ↦ check_route r ]

-- `Route.Validate`
unfoldable pub validate_route : Route → Result Error (Unit {0})
validate_route r = elim (validate_display_name r.name) [ err e ↦ err e | ok _ ↦ check_slug r ]

abbrev pub is_unset : ℤ → Bool
is_unset (pos n) = n == 0
is_unset _ = false

-- `NormaliseQuota`
unfoldable pub normalise_quota : Route → Route
normalise_quota r = if is_unset r.quota_reset_day then record r { quota_reset_day = pos 1 } else r
