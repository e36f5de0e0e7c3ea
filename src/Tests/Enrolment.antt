-- ===== src/Tests/Enrolment.antt =====
-- Tickets and reports at concrete inputs.
use fluxlite.Common.{◌+◌, Text, codes, false, [], ◌∷◌, none, Result, ok}
use fluxlite.Enrolment.{
  Desk, Draw, EnrollRequest, EnrollReport, EnrollTicket, enroll_ttl, ticket_row,
}
use fluxlite.Model.{systemd}
use fluxlite.Tests.Store.{no_tables}

abbrev request : EnrollRequest
request = record {
  name = codes "tyo";
  host = codes "tyo.example";
  ssh_port = 22;
  ssh_user = codes "root";
  port_start = 20000;
  port_end = 20100;
  via_node_id = none;
  skip_udp = false;
}

abbrev drawn : Draw
drawn = record {
  authorized_key = codes "ssh-ed25519 A";
  sealed_key = codes "s";
  token = codes "tok";
}

abbrev draw : Text → Result Text Draw
draw name = ok drawn

abbrev desk : Desk
desk = record { tables = no_tables; tokens = [] }

abbrev issued_desk : Desk
issued_desk = record desk { tokens = ticket_row 5 request none drawn ∷ [] }

abbrev ticket : EnrollTicket
ticket = record {
  token = codes "tok";
  command = codes "curl -fsSL https://p/enroll.sh | sh -s -- https://p tok";
  expires_at = 5 + enroll_ttl;
}

abbrev report : EnrollReport
report = record {
  token = codes "tok";
  arch = codes "x86_64";
  os_id = codes "debian";
  init_system = systemd;
  realm_version = [];
}

-- Another request marks the ticket while the node is written.
abbrev overtaken : Desk → Desk
overtaken k = record k { tokens = [] }
