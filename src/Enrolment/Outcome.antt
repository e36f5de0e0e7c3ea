-- ===== src/Enrolment/Outcome.antt =====
-- What a report that redeems a ticket changes, on every branch.
use fluxlite.Common.{
  ℕ, suc, ◌<◌, ◌≡◌, ◌⊎◌, Bool, true, false, [], ◌∷◌, ◌++◌, none, some, Result, ok, err,
}
use fluxlite.Common.Tables.{update_where, exists_where}
use fluxlite.Store.Saved.{IsRowSaved}
use fluxlite.Model.{Node, key, unknown_status}
use fluxlite.Store
use fluxlite.Store.{Store, Op, node_by_id, save_node}
use fluxlite.Enroll.{EnrollToken, is_unused, spend, enroll_token_by_value}
use fluxlite.Enrolment.{Error, Desk, EnrollReport}

-- What the script on the machine told.
pub record IsReported (report : EnrollReport) (n : Node) : Type 0 where
  pub machine : (n.arch ≡ report.arch) × (n.os_id ≡ report.os_id)
  pub init : n.init_system ≡ report.init_system
  pub relay : n.realm_version ≡ report.realm_version

-- A new node, and what it takes from the ticket; every other row is as it was.
pub record IsAdded (now : ℕ) (t : EnrollToken) (report : EnrollReport) (n : Node)
    (before after : Store) : Type 0 where
  pub fresh : n.id ≡ before.next_node
  pub called : n.name ≡ t.name
  pub at : (n.host ≡ t.host) × (n.ssh_port ≡ t.ssh_port) × (n.via_node_id ≡ t.via_node_id)
  pub ports : (n.port_start ≡ t.port_start) × (n.port_end ≡ t.port_end)
  pub login : (n.ssh_user ≡ t.ssh_user) × (n.auth_type ≡ key)
  pub secret : n.auth_secret ≡ t.private_key
  pub unpinned : n.host_key ≡ []
  pub udp : n.skip_udp_probe ≡ t.skip_udp_probe
  pub reported : IsReported report n
  pub stored : after ≡ record before {
    nodes = before.nodes ++ record n { created_at = now; updated_at = now } ∷ [];
    next_node = suc before.next_node;
  }

-- The node that the ticket names, with its identity kept and its credential replaced.
pub record IsRenewed (now : ℕ) (t : EnrollToken) (report : EnrollReport) (n : Node)
    (before after : Store) : Type 0 where
  pub id : ℕ
  pub target : t.target_node_id ≡ some id
  pub old : Node
  pub found : node_by_id id before ≡ ok old
  pub kept : (n.id ≡ old.id) × (n.name ≡ old.name) × (n.via_node_id ≡ old.via_node_id)
  pub at : (n.host ≡ old.host) × (n.ssh_port ≡ old.ssh_port)
  pub ports : (n.port_start ≡ old.port_start) × (n.port_end ≡ old.port_end)
  pub secret : n.auth_secret ≡ t.private_key
  pub unpinned : n.host_key ≡ []
  pub doubted : (n.udp_capable ≡ none) × (n.ipv6_capable ≡ none) × (n.status ≡ unknown_status)
  pub login : (n.ssh_user ≡ old.ssh_user) × (n.auth_type ≡ key)
  pub entry :
      (n.ipv6_address ≡ old.ipv6_address)
      × (n.ipv6_entry ≡ old.ipv6_entry)
      × (n.skip_udp_probe ≡ old.skip_udp_probe)
      × (n.last_seen ≡ old.last_seen)
  pub reported : IsReported report n
  pub stored : IsRowSaved now id n old before after

abbrev pub Applied : ℕ → EnrollToken → EnrollReport → Node → Bool → Store → Store → Type 0
Applied now t report n false before after =
    (t.target_node_id ≡ none) × IsAdded now t report n before after
Applied now t report n true before after = IsRenewed now t report n before after

-- A ticket that is stored, unused and still in time, and the node that is written for it.
pub record IsWritten (now : ℕ) (report : EnrollReport) (n : Node) (again : Bool) (before : Desk)
    (written : Store) : Type 0 where
  pub ticket : EnrollToken
  pub known : enroll_token_by_value report.token before.tokens ≡ ok ticket
  pub unused : ticket.used_at ≡ none
  pub in_time : now < ticket.expires_at
  pub applied : Applied now ticket report n again before.tables written

-- A redeemed ticket: the node was written, and then the ticket was still unused, and spent on it.
pub record IsRedeemed (now : ℕ) (between : Desk → Desk) (report : EnrollReport) (n : Node)
    (again : Bool) (before after : Desk) : Type 0 where
  pub written : Store
  pub redeems : IsWritten now report n again before written
  pub was_unused :
      exists_where (is_unused report.token) (between (record before { tables = written })).tokens
      ≡ true
  pub spent :
      let k = between (record before { tables = written }) in
      after ≡ record k { tokens = update_where (is_unused report.token) (spend now n.id) k.tokens }

-- The node was written, but by then no unused ticket of the token was left.
pub record IsOvertaken (now : ℕ) (between : Desk → Desk) (report : EnrollReport)
    (before after : Desk) : Type 0 where
  pub node : Node
  pub again : Bool
  pub written : Store
  pub redeems : IsWritten now report node again before written
  pub left : after ≡ between (record before { tables = written })
  pub was_used : exists_where (is_unused report.token) after.tokens ≡ false

abbrev pub IsOutcome :
    ℕ → (Desk → Desk) → EnrollReport → Desk → Result Error (Node × Bool) × Desk → Type 0
IsOutcome now between report k (err e, k') = (k' ≡ k) ⊎ IsOvertaken now between report k k'
IsOutcome now between report k (ok (n, again), k') = IsRedeemed now between report n again k k'

abbrev IsStep : ℕ → EnrollToken → EnrollReport → Desk → Result Error (Node × Bool) × Desk → Type 0
IsStep now t report k (err e, k') = k' ≡ k
IsStep now t report k (ok (n, again), k') =
    (written : Store) × Applied now t report n again k.tables written
    × (k' ≡ record k { tables = written })
