-- ===== src/Service/Nodes.antt =====
-- internal/service/service.go: nodes are described and changed by an operator.
pub mod Trust
use fluxlite.Common.{
  ℕ, Text, text_eq, trim_space, Bool, true, false, not, ◌&&◌, ◌||◌, List, [], ◌∷◌, Option, none,
  some, ◌==◌, is_true, if◌then◌else◌, Result, ok, err,
}
use fluxlite.Common.Exec.{guard, ◌>>=◌, ◌>>◌}
use fluxlite.Model
use fluxlite.Model.{Node, AuthType, unknown, unknown_status, validate_display_name, self_via}
use fluxlite.Store
use fluxlite.Store.{node_by_id}
use fluxlite.Service.{
  Error, of_store, of_model, secret_empty, seal_failed, entry_invalid, entry_not_public,
  entry_in_use, World, Action, stored, looked_up,
}
use fluxlite.Service.Routes.{ipv6_entry_in_use}

pub record NodeInput : Type 0 where
  pub name : Text
  pub host : Text
  pub ssh_port : ℕ
  pub ssh_user : Text
  pub auth_type : AuthType
  pub secret : Text
  pub via_node_id : Option ℕ
  pub port_start : ℕ
  pub port_end : ℕ
  pub skip_udp : Bool
  pub ipv6_entry : Text

-- What net.IP tells of an address: whether it has a form in IPv4, is global unicast, is private, and its
-- canonical text.
pub record Ip : Type 0 where
  pub has_v4 : Bool
  pub global_unicast : Bool
  pub private_use : Bool
  pub text : Text

abbrev is_bracket : ℕ → Bool
is_bracket r = r == b'[' || r == b']'

unfoldable pub open_left : Text → Text
open_left [] = []
open_left (r ∷ s) = let rest = open_left s in if is_bracket r then rest else r ∷ s

abbrev keep_end : ℕ → Text → Text
keep_end r [] = if is_bracket r then [] else r ∷ []
keep_end r (x ∷ s) = r ∷ x ∷ s

unfoldable pub open_right : Text → Text
open_right [] = []
open_right (r ∷ s) = keep_end r (open_right s)

abbrev public_text : Option Ip → Result Error Text
public_text none = err entry_invalid
public_text (some ip) =
    if ip.has_v4
    then err entry_invalid
    else if not ip.global_unicast || ip.private_use
    then err entry_not_public
    else ok ip.text

abbrev entry_text : (Text → Option Ip) → Text → Result Error Text
entry_text parse_ip [] = ok []
entry_text parse_ip (r ∷ s) = public_text (parse_ip (r ∷ s))

-- `normalizeIPv6Entry`; `parse_ip` is net.ParseIP.
unfoldable pub normalize_ipv6_entry : (Text → Option Ip) → Text → Result Error Text
unfolding open_left open_right
normalize_ipv6_entry parse_ip raw = entry_text parse_ip (open_right (open_left (trim_space raw)))

abbrev pub new_node : NodeInput → List ℕ → Text → Node
new_node input sealed entry = record {
  id = 0;
  name = input.name;
  host = input.host;
  ssh_port = input.ssh_port;
  ssh_user = input.ssh_user;
  auth_type = input.auth_type;
  auth_secret = sealed;
  via_node_id = input.via_node_id;
  port_start = input.port_start;
  port_end = input.port_end;
  host_key = [];
  arch = [];
  os_id = [];
  init_system = unknown;
  udp_capable = none;
  ipv6_capable = none;
  ipv6_address = [];
  ipv6_entry = entry;
  skip_udp_probe = input.skip_udp;
  realm_version = [];
  status = unknown_status;
  last_seen = none;
  created_at = 0;
  updated_at = 0;
}

abbrev pub same_address : NodeInput → Node → Bool
same_address input n = text_eq n.host input.host && n.ssh_port == input.ssh_port

-- What `UpdateNode` changes of the node that it loaded: a new address ends the trust in the host key.
abbrev pub edited_node : NodeInput → List ℕ → Text → Node → Node
edited_node input secret entry n = record n {
  host_key = if same_address input n then n.host_key else [];
  name = input.name;
  host = input.host;
  ssh_port = input.ssh_port;
  ssh_user = input.ssh_user;
  auth_type = input.auth_type;
  via_node_id = input.via_node_id;
  port_start = input.port_start;
  port_end = input.port_end;
  skip_udp_probe = input.skip_udp;
  ipv6_entry = entry;
  auth_secret = secret;
}

abbrev pub is_self : Option ℕ → ℕ → Bool
is_self none id = false
is_self (some via) id = via == id

abbrev pub clears_entry : Text → Node → Bool
clears_entry entry n =
    (text_eq entry [] && not (text_eq n.ipv6_entry [])) && not (is_true n.ipv6_capable)

-- `seal` encrypts a credential, `none` if it fails.
module _ (seal : Text → Option (List ℕ)) (parse_ip : Text → Option Ip) where
  abbrev pub sealed : Text → Result Error (List ℕ)
  sealed secret = elim (seal secret) [ none ↦ err seal_failed | some bytes ↦ ok bytes ]

  -- The credential that an edit leaves.
  abbrev pub new_secret : Text → Node → Result Error (List ℕ)
  new_secret [] n = ok n.auth_secret
  new_secret (r ∷ s) n = sealed (r ∷ s)

  -- `CreateNode`: the id of the new node.
  unfoldable pub create_node : ℕ → NodeInput → Action ℕ
  unfolding normalize_ipv6_entry
  create_node now input = do
    looked_up of_model (λ s. validate_display_name input.name)
    guard (not (text_eq input.secret [])) secret_empty
    secret ← looked_up (λ e. e) (λ s. sealed input.secret)
    entry ← looked_up (λ e. e) (λ s. normalize_ipv6_entry parse_ip input.ipv6_entry)
    stored (Store.create_node now (new_node input secret entry))

  -- `UpdateNode`: the node as it is saved.
  unfoldable pub update_node : ℕ → ℕ → NodeInput → Action Node
  unfolding normalize_ipv6_entry
  update_node now id input = do
    old ← looked_up of_store (node_by_id id)
    looked_up of_model (λ s. validate_display_name input.name)
    guard (not (is_self input.via_node_id id)) (of_model self_via)
    entry ← looked_up (λ e. e) (λ s. normalize_ipv6_entry parse_ip input.ipv6_entry)
    looked_up (λ e. e)
        (λ s. if clears_entry entry old && ipv6_entry_in_use id s then err entry_in_use else ok tt)
    secret ← looked_up (λ e. e) (λ s. new_secret input.secret old)
    stored (Store.update_node now (edited_node input secret entry old))
    λ w. (ok (edited_node input secret entry old), w)
