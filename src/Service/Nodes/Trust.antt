-- ===== src/Service/Nodes/Trust.antt =====
-- What an edit of a node keeps of its credential and of the trust in its host key.
use fluxlite.Common.{ℕ, ◌≡◌, Text, true, false, [], Option, Result, ok, err, ◌≢◌, some}
use fluxlite.Model.{Node}
use fluxlite.Store
use fluxlite.Store.{Store, node_by_id, save_node}
use fluxlite.Store.Saved.{IsRowSaved}
use fluxlite.Service.{Error, World}
use fluxlite.Service.Routes.{ipv6_entry_in_use}
use fluxlite.Service.Nodes.{NodeInput, Ip, normalize_ipv6_entry}

-- What an edit takes from its input.
pub record IsAsked (input : NodeInput) (n : Node) : Type 0 where
  pub name : n.name ≡ input.name
  pub host : n.host ≡ input.host
  pub ssh_port : n.ssh_port ≡ input.ssh_port
  pub ssh_user : n.ssh_user ≡ input.ssh_user
  pub auth_type : n.auth_type ≡ input.auth_type
  pub via_node_id : n.via_node_id ≡ input.via_node_id
  pub port_start : n.port_start ≡ input.port_start
  pub port_end : n.port_end ≡ input.port_end
  pub skip_udp_probe : n.skip_udp_probe ≡ input.skip_udp

-- What an edit leaves to the probes.
pub record IsLearned (old n : Node) : Type 0 where
  pub machine : (n.arch ≡ old.arch) × (n.os_id ≡ old.os_id) × (n.init_system ≡ old.init_system)
  pub reach :
      (n.udp_capable ≡ old.udp_capable)
      × (n.ipv6_capable ≡ old.ipv6_capable)
      × (n.ipv6_address ≡ old.ipv6_address)
  pub relay : n.realm_version ≡ old.realm_version
  pub seen : (n.status ≡ old.status) × (n.last_seen ≡ old.last_seen)

-- An edited node against the one that was stored.
pub record IsTrusted (parse_ip : Text → Option Ip) (now id : ℕ) (input : NodeInput) (before : Store)
    (n : Node) (after : Store) : Type 0 where
  pub old : Node
  pub found : node_by_id id before ≡ ok old
  pub own : n.id ≡ id
  pub asked : IsAsked input n
  pub learned : IsLearned old n
  pub entry : normalize_ipv6_entry parse_ip input.ipv6_entry ≡ ok n.ipv6_entry
  pub key_kept :
      (old.host ≡ input.host) × (old.ssh_port ≡ input.ssh_port) → n.host_key ≡ old.host_key
  pub key_dropped : ¬ ((old.host ≡ input.host) × (old.ssh_port ≡ input.ssh_port)) → n.host_key ≡ []
  pub secret_kept : input.secret ≡ [] → n.auth_secret ≡ old.auth_secret
  pub not_self : input.via_node_id ≢ some id
  pub entry_used :
      n.ipv6_entry ≡ []
      → old.ipv6_entry ≢ []
      → old.ipv6_capable ≢ some true
      → ipv6_entry_in_use id before ≡ false
  pub saved : IsRowSaved now id n old before after

abbrev pub IsOutcome :
    (Text → Option Ip) → ℕ → ℕ → NodeInput → World → Result Error Node × World → Type 0
IsOutcome parse_ip now id input w (ok n, t) = IsTrusted parse_ip now id input w.tables n t.tables
IsOutcome parse_ip now id input w (err e, t) = t ≡ w
