-- ===== src/Enrolment.antt =====
-- internal/service/enroll.go: a ticket for a machine, and the report that redeems it. The key pair, its
-- sealing, the draw of a token and the probe of a node are parameters. One clock reading serves a call.
pub mod Outcome
pub mod Tickets
use fluxlite.Common.{
  ℕ, suc, ◌+◌, ◌*◌, Text, codes, text_eq, Bool, true, false, not, ◌&&◌, ◌||◌, List, [], ◌∷◌, ◌++◌,
  Option, none, some, ltb, if◌then◌else◌, Result, ok, err,
}
use fluxlite.Model
use fluxlite.Model.{
  Node, InitSystem, init_valid, AuthType, key, NodeStatus, unknown_status, validate_display_name,
  host_empty, user_empty, ssh_port_bad, port_range_bad,
}
use fluxlite.Store
use fluxlite.Store.{Store, node_by_id, node_by_name, create_node, update_node}
use fluxlite.Enroll
use fluxlite.Enroll.{
  EnrollToken, Tokens, usable, create_enroll_token, enroll_token_by_value, mark_enroll_token_used,
}

-- `EnrollTTL`
abbrev pub enroll_ttl : ℕ
enroll_ttl = 60 * 60 * 1_000_000_000

pub data Error : Type 0 where
  token_invalid name_taken init_unsupported : Error
  of_store : Store.Error → Error
  of_tokens : Enroll.Error → Error
  of_model : Model.Error → Error
  of_keys : Text → Error

pub record EnrollRequest : Type 0 where
  pub name : Text
  pub host : Text
  pub ssh_port : ℕ
  pub ssh_user : Text
  pub port_start : ℕ
  pub port_end : ℕ
  pub via_node_id : Option ℕ
  pub skip_udp : Bool

pub record EnrollTicket : Type 0 where
  pub token : Text
  pub command : Text
  pub expires_at : ℕ

pub record EnrollReport : Type 0 where
  pub token : Text
  pub arch : Text
  pub os_id : Text
  pub init_system : InitSystem
  pub realm_version : Text

-- The tables that an enrolment reads and writes.
pub record Desk : Type 0 where
  pub tables : Store
  pub tokens : Tokens

-- The secrets drawn for a ticket: the public key, the sealed private key, and the token.
pub record Draw : Type 0 where
  pub authorized_key : Text
  pub sealed_key : Text
  pub token : Text

abbrev pub check_request : EnrollRequest → Result Model.Error (Unit {0})
check_request req = elim (validate_display_name req.name) [
  | err e ↦ err e
  | ok _ ↦
      if text_eq req.host []
      then err host_empty
      else if ltb req.ssh_port 1 || ltb 65535 req.ssh_port
      then err ssh_port_bad
      else if text_eq req.ssh_user []
      then err user_empty
      else if ltb req.port_start 1 || ltb 65535 req.port_end || ltb req.port_end req.port_start
      then err port_range_bad
      else ok tt
]

abbrev pub ticket_row : ℕ → EnrollRequest → Option ℕ → Draw → EnrollToken
ticket_row now req target d = record {
  token = d.token;
  name = req.name;
  host = req.host;
  ssh_port = req.ssh_port;
  ssh_user = req.ssh_user;
  port_start = req.port_start;
  port_end = req.port_end;
  via_node_id = req.via_node_id;
  skip_udp_probe = req.skip_udp;
  private_key = d.sealed_key;
  authorized_key = d.authorized_key;
  expires_at = now + enroll_ttl;
  used_at = none;
  node_id = none;
  created_at = now;
  target_node_id = target;
}

abbrev command_of : Text → Text → Text
command_of base token =
    codes "curl -fsSL " ++ base ++ codes "/enroll.sh | sh -s -- " ++ base ++ codes " " ++ token

abbrev pub issued :
    ℕ
    → Text
    → Draw
    → Desk
    → Result Enroll.Error (Unit {0}) × Tokens
    → Result Error EnrollTicket × Desk
issued now base d k (err e, rows) = (err (of_tokens e), record k { tokens = rows })
issued now base d k (ok _, rows) = (
  ok (record { token = d.token; command = command_of base d.token; expires_at = now + enroll_ttl }),
  record k { tokens = rows },
)

module _ (draw : Text → Result Text Draw) where
  -- `issueEnrollTicket`
  unfoldable pub issue_enroll_ticket :
      ℕ → Text → EnrollRequest → Option ℕ → Desk → Result Error EnrollTicket × Desk
  issue_enroll_ticket now base req target k = elim (check_request req) [
    | err e ↦ (err (of_model e), k)
    | ok _ ↦ elim (draw req.name) [
      | err e ↦ (err (of_keys e), k)
      | ok d ↦ issued now base d k (create_enroll_token now (ticket_row now req target d) k.tokens)
    ]
  ]

  -- `CreateEnrollTicket`: a lookup by name fails in no other way than by finding no node.
  unfoldable pub create_enroll_ticket :
      ℕ → Text → EnrollRequest → Desk → Result Error EnrollTicket × Desk
  unfolding issue_enroll_ticket
  create_enroll_ticket now base req k = elim (node_by_name req.name k.tables) [
    | ok n ↦ (err name_taken, k)
    | err e ↦ issue_enroll_ticket now base req none k
  ]

  abbrev request_of : Node → EnrollRequest
  request_of n = record {
    name = n.name;
    host = n.host;
    ssh_port = n.ssh_port;
    ssh_user = n.ssh_user;
    port_start = n.port_start;
    port_end = n.port_end;
    via_node_id = n.via_node_id;
    skip_udp = n.skip_udp_probe;
  }

  -- `CreateReenrollTicket`
  unfoldable pub create_reenroll_ticket : ℕ → Text → ℕ → Desk → Result Error EnrollTicket × Desk
  unfolding issue_enroll_ticket
  create_reenroll_ticket now base id k = elim (node_by_id id k.tables) [
    | err e ↦ (err (of_store e), k)
    | ok n ↦ issue_enroll_ticket now base (request_of n) (some n.id) k
  ]

-- `AuthorizedKeyForToken`
unfoldable pub authorized_key_for_token : ℕ → Text → Desk → Result Error Text
authorized_key_for_token now token k = elim (enroll_token_by_value token k.tokens) [
  | err e ↦ err token_invalid
  | ok t ↦ if usable t now then ok t.authorized_key else err token_invalid
]

-- The node that a ticket describes.
unfoldable pub new_node : EnrollToken → EnrollReport → Node
new_node t report = record {
  id = 0;
  name = t.name;
  host = t.host;
  ssh_port = t.ssh_port;
  ssh_user = t.ssh_user;
  auth_type = key;
  auth_secret = t.private_key;
  via_node_id = t.via_node_id;
  port_start = t.port_start;
  port_end = t.port_end;
  host_key = [];
  arch = report.arch;
  os_id = report.os_id;
  init_system = report.init_system;
  udp_capable = none;
  ipv6_capable = none;
  ipv6_address = [];
  ipv6_entry = [];
  skip_udp_probe = t.skip_udp_probe;
  realm_version = report.realm_version;
  status = unknown_status;
  last_seen = none;
  created_at = 0;
  updated_at = 0;
}

-- The node that a ticket names, with what the reinstall has made invalid replaced.
unfoldable pub renewed_node : EnrollToken → EnrollReport → Node → Node
renewed_node t report n = record n {
  auth_type = key;
  auth_secret = t.private_key;
  host_key = [];
  arch = report.arch;
  os_id = report.os_id;
  init_system = report.init_system;
  realm_version = report.realm_version;
  status = unknown_status;
  udp_capable = none;
  ipv6_capable = none;
}

abbrev pub created : Node → Desk → Result Store.Error ℕ × Store → Result Error (Node × Bool) × Desk
created n k (err e, s) = (err (of_store e), record k { tables = s })
created n k (ok id, s) = (ok (record n { id = id }, false), record k { tables = s })

abbrev pub saved :
    Node → Desk → Result Store.Error (Unit {0}) × Store → Result Error (Node × Bool) × Desk
saved n k (err e, s) = (err (of_store e), record k { tables = s })
saved n k (ok _, s) = (ok (n, true), record k { tables = s })

abbrev pub renew :
    ℕ
    → EnrollToken
    → EnrollReport
    → Desk
    → Result Store.Error Node
    → Result Error (Node × Bool) × Desk
renew now t report k (err e) = (err (of_store e), k)
renew now t report k (ok old) =
    let n = renewed_node t report old in saved n k (update_node now n k.tables)

abbrev pub apply_to :
    ℕ → EnrollToken → EnrollReport → Desk → Option ℕ → Result Error (Node × Bool) × Desk
apply_to now t report k none = let n = new_node t report in created n k (create_node now n k.tables)
apply_to now t report k (some id) = renew now t report k (node_by_id id k.tables)

-- `applyEnrollment`: the node, and whether it was there before.
unfoldable pub apply_enrollment :
    ℕ → EnrollToken → EnrollReport → Desk → Result Error (Node × Bool) × Desk
unfolding new_node renewed_node
apply_enrollment now t report k = apply_to now t report k t.target_node_id

abbrev pub mark_result :
    Node → Bool → Desk → Result Enroll.Error (Unit {0}) × Tokens → Result Error (Node × Bool) × Desk
mark_result n again k (err e, rows) = (err (of_tokens e), record k { tokens = rows })
mark_result n again k (ok _, rows) = (ok (n, again), record k { tokens = rows })

-- `between` is what other requests commit after the node was written.
abbrev pub mark_used :
    ℕ → (Desk → Desk) → Text → Result Error (Node × Bool) × Desk → Result Error (Node × Bool) × Desk
mark_used now between token (err e, k) = (err e, k)
mark_used now between token (ok (n, again), k) =
    let k' = between k in mark_result n again k' (mark_enroll_token_used now token n.id k'.tokens)

-- `CompleteEnroll`, up to the probe. The node stays written where the token cannot be marked.
unfoldable pub register :
    ℕ → (Desk → Desk) → EnrollReport → Desk → Result Error (Node × Bool) × Desk
unfolding apply_enrollment
register now between report k = elim (enroll_token_by_value report.token k.tokens) [
  | err e ↦ (err token_invalid, k)
  | ok t ↦
      if not (usable t now)
      then (err token_invalid, k)
      else if not (init_valid report.init_system)
      then (err init_unsupported, k)
      else mark_used now between report.token (apply_enrollment now t report k)
]

-- What a probe finds, as far as it is reported.
pub record Found : Type 0 where
  pub os_id : Text
  pub arch : Text
  pub init_name : Text
  pub realm_version : Text
  pub udp : Option Bool

pub record EnrollOutcome : Type 0 where
  pub node_id : ℕ
  pub name : Text
  pub verified : Bool
  pub detail : Text
  pub udp_status : Text
  pub reinstalled : Bool

-- `orNone`
or_none : Text → Text
or_none s = if text_eq s [] then codes "未安装" else s

abbrev udp_text : Option Bool → Text
udp_text none = codes "未知"
udp_text (some true) = codes "通"
udp_text (some false) = codes "不通"

abbrev lead : Bool → Text
lead true = codes "节点凭据已更新，但面板拨号失败："
lead false = codes "节点已登记，但面板拨号失败："

abbrev probed_outcome : Node → Bool → Result Text Found → EnrollOutcome
probed_outcome n again (err e) = record {
  node_id = n.id;
  name = n.name;
  verified = false;
  detail = lead again ++ e;
  udp_status = [];
  reinstalled = again;
}
probed_outcome n again (ok f) = record {
  node_id = n.id;
  name = n.name;
  verified = true;
  detail =
      codes "面板已成功连接："
      ++ f.os_id
      ++ codes "/"
      ++ f.arch
      ++ codes " "
      ++ f.init_name
      ++ codes "，realm "
      ++ or_none f.realm_version;
  udp_status = udp_text f.udp;
  reinstalled = again;
}

module _ (probe : ℕ → Desk → Result Text Found × Desk) where
  abbrev probe_after : Result Error (Node × Bool) × Desk → Result Error EnrollOutcome × Desk
  probe_after (err e, k) = (err e, k)
  probe_after (ok (n, again), k) =
      let (found, k') = probe n.id k in (ok (probed_outcome n again found), k')

  -- `CompleteEnroll`
  unfoldable pub complete_enroll :
      ℕ → (Desk → Desk) → EnrollReport → Desk → Result Error EnrollOutcome × Desk
  unfolding register or_none
  complete_enroll now between report k = probe_after (register now between report k)
