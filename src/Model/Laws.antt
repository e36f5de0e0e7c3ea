-- ===== src/Model/Laws.antt =====
-- What a validated node or route satisfies.
use fluxlite.Common.{
  ℕ, ◌≤◌, ◌<◌, ◌≡◌, refl, ◌≢◌, ◌↔◌, inl, inr, Text, text_eq_iff, trim_space, length, true, false,
  ◌||◌, List, [], ◌∷◌, Option, none, some, ok, arith,
}
use fluxlite.Common.Int.{ℤ, pos, negsuc, ltb_ℤ}
use fluxlite.Common.{Option-cases}
use fluxlite.Common.Decimal.{atoi}
use fluxlite.Common.HostPort.{split_host_port}
use fluxlite.Model.{
  Node, Route, RouteHop, bad, other, validate_display_name, validate_node, validate_route,
  validate_target, repeats, port_pool_size, quota_ok,
}

-- A node that passes validation has a port range of real ports with at least one in it, a real SSH
-- port, a known way to log in, a host that is not blank, and, once it is stored, is not its own
-- jump host.
pub validate_node_sound :
    (n : Node)
    → validate_node n ≡ ok tt
    → (1 ≤ n.port_start)
      × (n.port_start ≤ n.port_end)
      × (n.port_end ≤ 65535)
      × (1 ≤ port_pool_size n)
      × (1 ≤ n.ssh_port)
      × (n.ssh_port ≤ 65535)
      × (n.auth_type ≢ bad)
      × (trim_space n.host ≢ [])
      × (n.id ≢ 0 → n.via_node_id ≢ some n.id)
unfolding validate_node port_pool_size
validate_node_sound n h = ground (arith, text_eq_iff (trim_space n.host) [])

-- The landing address of a stored route has a host that is not blank and a port.
pub record IsTarget (target : Text) : Type 0 where
  pub host : Text
  pub digits : Text
  pub port : ℕ
  pub parts : split_host_port (trim_space target) ≡ some (host, digits)
  pub host_named : trim_space host ≢ []
  pub number : atoi digits ≡ some (pos port)
  pub in_range : (1 ≤ port) × (port ≤ 65535)

abbrev NoRepeat : List RouteHop → Type 0
NoRepeat [] = Unit
NoRepeat (a ∷ []) = Unit
NoRepeat (a ∷ b ∷ rest) = (b.node_id ≢ a.node_id) × NoRepeat (b ∷ rest)

-- What Route.Validate promises of a stored route.
pub record IsStorable (r : Route) : Type 0 where
  pub named : r.slug ≢ []
  pub target : IsTarget r.target
  pub protocol_known : r.protocol ≢ other
  pub entry : (1 ≤ r.entry_port) × (r.entry_port ≤ 65535)
  pub has_hop : 1 ≤ length r.hops
  pub no_repeat : NoRepeat r.hops
  pub quota_positive : (q : ℕ) → r.quota_bytes ≡ some q → 0 < q
  pub reset_day : (d : ℕ) × (r.quota_reset_day ≡ pos d) × (d ≤ 28)

repeats→NoRepeat : (hops : List RouteHop) → repeats hops ≡ false → NoRepeat hops
unfolding repeats
repeats→NoRepeat [] h = tt
repeats→NoRepeat (a ∷ []) h = tt
repeats→NoRepeat (a ∷ b ∷ rest) h = (ground arith, repeats→NoRepeat (b ∷ rest) (ground arith))

NoRepeat→repeats : (hops : List RouteHop) → NoRepeat hops → repeats hops ≡ false
unfolding repeats
NoRepeat→repeats [] h = refl
NoRepeat→repeats (a ∷ []) h = refl
NoRepeat→repeats (a ∷ b ∷ rest) (ne, h) = ground (arith, NoRepeat→repeats (b ∷ rest) h)

validate_target_sound : (target : Text) → validate_target target ≡ ok tt → IsTarget target
unfolding validate_target
validate_target_sound target h = elim (Option-cases (split_host_port (trim_space target))) [
  | inl bad_parts ↦ ground arith
  | inr ((host, digits), parts) ↦ elim (Option-cases (atoi digits)) [
    | inl bad_port ↦ ground arith
    | inr (pos p, number) ↦ record {
      host = host;
      digits = digits;
      port = p;
      parts = parts;
      host_named = ground (arith, text_eq_iff (trim_space host) []);
      number = number;
      in_range = ground arith;
    }
    | inr (negsuc p, number) ↦ ground arith
  ]
]

validate_target_complete : (target : Text) → IsTarget target → validate_target target ≡ ok tt
unfolding validate_target
validate_target_complete target t =
    rw (t.parts, validate_target)
      (ground (arith, t.number, t.host_named, t.in_range, text_eq_iff (trim_space t.host) []))

day_in_range :
    (z : ℤ) → (ltb_ℤ z (pos 0) || ltb_ℤ (pos 28) z) ≡ false → (d : ℕ) × (z ≡ pos d) × (d ≤ 28)
day_in_range (pos d) h = (d, refl, ground arith)
day_in_range (negsuc d) h = ground arith

quota_ok_of : (q : Option ℕ) → ((n : ℕ) → q ≡ some n → 0 < n) → quota_ok q ≡ true
quota_ok_of none h = refl
quota_ok_of (some n) h = ground (arith, h n refl)

day_ok_of :
    (z : ℤ) → ((d : ℕ) × (z ≡ pos d) × (d ≤ 28)) → (ltb_ℤ z (pos 0) || ltb_ℤ (pos 28) z) ≡ false
day_ok_of z (d, e, le) = rw e (ground arith)

validate_route_complete :
    (r : Route) → validate_display_name r.name ≡ ok tt → IsStorable r → validate_route r ≡ ok tt
unfolding validate_route
validate_route_complete r named s =
    let target = validate_target_complete r.target s.target in
    let apart = NoRepeat→repeats r.hops s.no_repeat in
    let quota = quota_ok_of r.quota_bytes s.quota_positive in
    let day = day_ok_of r.quota_reset_day s.reset_day in
    let slug = s.named in
    let protocol = s.protocol_known in
    let entry = s.entry in let hop = s.has_hop in ground (arith, text_eq_iff r.slug [])

-- A route passes validation exactly if its name does and it has a slug, a landing address with a host
-- and a port, a known protocol, an entry port, at least one hop, no two hops in a row on one node, a
-- positive quota if any, and a reset day from 0 to 28.
pub validate_route_iff :
    (r : Route)
    → (validate_route r ≡ ok tt) ↔ ((validate_display_name r.name ≡ ok tt) × IsStorable r)
unfolding validate_route
validate_route_iff r = (
  λ h. (
    ground arith,
    record {
      named = ground (arith, text_eq_iff r.slug []);
      target = validate_target_sound r.target (ground arith);
      protocol_known = ground arith;
      entry = ground arith;
      has_hop = ground arith;
      no_repeat = repeats→NoRepeat r.hops (ground arith);
      quota_positive = λ q e. ground arith;
      reset_day = day_in_range r.quota_reset_day (ground arith);
    },
  ),
  λ h. validate_route_complete r h.0 h.1,
)
