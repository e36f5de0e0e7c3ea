-- ===== src/Enrolment/Tickets.antt =====
-- A ticket and the report that redeems it, together.
use fluxlite.Common.{ℕ, ◌+◌, ◌≡◌, Option, ok}
use fluxlite.Model.{Node}
use fluxlite.Store.{Store}
use fluxlite.Enroll.{enroll_token_by_value}
use fluxlite.Enrolment.{Desk, Draw, EnrollRequest, EnrollTicket, enroll_ttl, ticket_row}

-- What an issued ticket left in the table.
record IsIssued (now : ℕ) (req : EnrollRequest) (target : Option ℕ) (tk : EnrollTicket)
    (after : Desk) : Type 0 where
  draw : Draw
  token : tk.token ≡ draw.token
  expires : tk.expires_at ≡ now + enroll_ttl
  stored : enroll_token_by_value draw.token after.tokens ≡ ok (ticket_row now req target draw)

-- A node as a request describes it.
pub record IsRequested (req : EnrollRequest) (n : Node) : Type 0 where
  pub called : n.name ≡ req.name
  pub at : (n.host ≡ req.host) × (n.ssh_port ≡ req.ssh_port) × (n.via_node_id ≡ req.via_node_id)
  pub ports : (n.port_start ≡ req.port_start) × (n.port_end ≡ req.port_end)
