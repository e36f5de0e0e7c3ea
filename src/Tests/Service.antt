-- ===== src/Tests/Service.antt =====
-- Slugs, ports and the service's operations at concrete inputs.
use fluxlite.Common.{
  ℕ, ◌+◌, ◌<◌, ◌≡◌, refl, ◌∷◌, List, [], ◌++◌, Text, codes, text_eq, trim_space, length, true,
  false, ◌&&◌, Option, none, some, leb, ◌==◌, if◌then◌else◌, Bool-cases, inl, inr, arith, All, ok,
}
use fluxlite.Common.Int.{pos}
use fluxlite.Common.HostPort.{contains_byte}
use fluxlite.Common.Tables.{exists_where}
use fluxlite.Model.{Node, tcp, key}
use fluxlite.Ports.{newline, parse_listening_ports}
use fluxlite.Ports.Sockets.{print_sockets, parse-print}
use fluxlite.Service.{Removal, removed, failed, World}
use fluxlite.Service.Routes.{RouteInput}
use fluxlite.Service.Editing
use fluxlite.Service.Nodes.{NodeInput, Ip}
use fluxlite.Service.Nodes.Trust
use fluxlite.Service.Teardown.{delete_route}
use fluxlite.Service.Teardown.Leftovers.{IsDeleted, delete_route-Accounted}
use fluxlite.Slug.{make_slug}
use fluxlite.Slug.Plain.{IsSlug}
use fluxlite.Slug.Bounds.{make_slug-IsSlug}
use fluxlite.Store.Routes.{has_slug, new_row, route_by_slug}
use fluxlite.Store.{Store}
use fluxlite.Tests.Store.{no_tables, panel_tables, main_route}

abbrev lower : ℕ → ℕ
lower r = if leb b'A' r && leb r b'Z' then r + 32 else r

lower-not_capital : (r : ℕ) → (leb b'A' (lower r) && leb (lower r) b'Z') ≡ false
lower-not_capital r = elim (Bool-cases (leb b'A' r && leb r b'Z')) [
  | inl e ↦ rw e (ground arith)
  | inr e ↦ rw e e
]

-- Not a digest: four bytes.
abbrev sum : Text → List ℕ
sum t = 18 ∷ 52 ∷ 86 ∷ 120 ∷ []

sum-bytes : (t : Text) → All (λ b. b < 256) (sum t)
sum-bytes t = (omega arith, (omega arith, (omega arith, (omega arith, tt))))

abbrev bytes : List ℕ
bytes = 1 ∷ 2 ∷ 255 ∷ []

abbrev draws : ℕ → Option (List ℕ)
draws i = some bytes

draws-three : (i : ℕ) (bs : List ℕ) → draws i ≡ some bs → All (λ b. b < 256) bs × (length bs ≡ 3)
draws-three i bs h =
    let same : bytes ≡ bs = ground (arith) in
    rw (← same) ((omega arith, (omega arith, (omega arith, tt))), refl)

abbrev one_route : Store
one_route = record no_tables { routes = new_row 3 1 main_route ∷ [] }

-- The name alone is taken.
slug_made : make_slug lower sum draws one_route (codes " Main ") ≡ ok (codes "main-0102ff")
unfolding make_slug route_by_slug text_eq trim_space
slug_made = refl

make_slug-IsSlug_example :
    IsSlug (codes "main-0102ff")
    × (exists_where (has_slug (codes "main-0102ff")) one_route.routes ≡ false)
make_slug-IsSlug_example =
    make_slug-IsSlug lower sum lower-not_capital sum-bytes draws draws-three one_route
      (codes " Main ") slug_made

abbrev sockets : List (Text × ℕ)
sockets = (codes "127.0.0.53%lo", 53) ∷ (codes "[::]", 20000) ∷ []

parse-print_example : parse_listening_ports (print_sockets sockets) 20000 ≡ true
parse-print_example =
    parse-print sockets
      (
        (unfold contains_byte in refl, omega arith, omega arith),
        ((unfold contains_byte in refl, omega arith, omega arith), tt),
      )
      20000

-- Port 20000 listens on every node, and 20001 is diverted.
abbrev prints : Node → Option Text
prints n = some (
    codes "0.0.0.0:20000"
    ++ newline ∷ codes "#fluxlite-nat#"
    ++ newline ∷ codes "-A PREROUTING -p tcp --dport 20001 -j DNAT")

abbrev world : World
world = record { tables = panel_tables; attempts = [] }

abbrev input : RouteInput
input = record {
  name = codes "Third";
  target = codes "10.0.0.9:443";
  protocol = tcp;
  node_ids = 2 ∷ [];
  entry_port = none;
  enabled = true;
  listen_ipv6 = false;
  quota_bytes = none;
  quota_reset_day = pos 0;
}

-- The applier answers the first removal alone.
abbrev attempt : ℕ → Node → Text → Removal
attempt n node slug = if n == 0 then removed else failed (codes "dial")

delete_route-Accounted_example : IsDeleted 1 world (delete_route attempt 1 world)
delete_route-Accounted_example = delete_route-Accounted attempt 1 world

-- From two hops to the second node alone, where the route has a port already.
abbrev rerouted : RouteInput
rerouted = record input { name = codes "main"; node_ids = 2 ∷ []; entry_port = some 20001 }

-- Nothing is diverted.
abbrev prints_sockets : Node → Option Text
prints_sockets n = some (codes "0.0.0.0:20001")

-- Another host, and the credential as it is.
abbrev moved : NodeInput
moved = record {
  name = codes "tyo";
  host = codes "tyo2.example";
  ssh_port = 22;
  ssh_user = codes "root";
  auth_type = key;
  secret = [];
  via_node_id = none;
  port_start = 20000;
  port_end = 20009;
  skip_udp = false;
  ipv6_entry = [];
}

abbrev no_seal : Text → Option (List ℕ)
no_seal t = none

abbrev no_ip : Text → Option Ip
no_ip t = none
