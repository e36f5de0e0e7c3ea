-- ===== src/Tests/Enroll.antt =====
-- Enrolments at a concrete input.
use fluxlite.Common.{◌≤◌, refl, codes, text_eq, false, [], ◌∷◌, none}
use fluxlite.Enroll.{EnrollToken}
use fluxlite.Enroll.Once.{create, mark, purge, NotIssued, times_spent, spent_once}

abbrev ticket : EnrollToken
ticket = record {
  token = codes "tok";
  name = codes "hk";
  host = codes "hk.example";
  ssh_port = 22;
  ssh_user = codes "root";
  port_start = 20000;
  port_end = 20010;
  via_node_id = none;
  skip_udp_probe = false;
  private_key = [];
  authorized_key = [];
  expires_at = 100;
  used_at = none;
  node_id = none;
  created_at = 1;
  target_node_id = none;
}

abbrev other : EnrollToken
other = record ticket { token = codes "two" }

spent_once_example :
    times_spent
      (codes "tok")
      (mark 5 (codes "tok") 3 ∷ create 6 other ∷ mark 7 (codes "tok") 4 ∷ purge 8 ∷ [])
      (ticket ∷ [])
    ≤ 1
unfolding NotIssued text_eq
spent_once_example =
    spent_once (codes "tok")
      (mark 5 (codes "tok") 3 ∷ create 6 other ∷ mark 7 (codes "tok") 4 ∷ purge 8 ∷ [])
      (ticket ∷ []) (tt, (refl, (tt, (tt, tt))))
