-- ===== src/Ports.antt =====
-- internal/service/ports.go: the ports that a machine has spoken for, read from its tools' output.
pub mod Sockets
pub mod Claims
use fluxlite.Common.{
  ℕ, zero, suc, ◌+◌, ◌-◌, Text, codes, text_eq, trim_space, contains, Bool, true, false, not, ◌&&◌,
  ◌||◌, List, [], ◌∷◌, Option, none, some, ltb, leb, ◌==◌, if◌then◌else◌, Result, ok, err,
}
use fluxlite.Common.Decimal.{is_digit, atoi}
use fluxlite.Common.HostPort.{cut, cut_last}
use fluxlite.Common.Int.{ℤ, pos, negsuc}
use fluxlite.Common.Tables.{exists_where}
use fluxlite.Model.{Node, RouteHop}
use fluxlite.Planner
use fluxlite.Planner.{Ports, NodeLookup, lookup_failed}
use fluxlite.Store
use fluxlite.Store.{Store, claims, node_by_id, used_ports_on_node}
use fluxlite.Store.Routes.{route_by_id}

-- `portClaims`
pub record PortClaims : Type 0 where
  pub sockets : Ports
  pub nat : Ports

abbrev pub no_ports : Ports
no_ports p = false

abbrev pub union : Ports → Ports → Ports
union a b p = a p || b p

abbrev pub newline : ℕ
newline = 10

abbrev to_head : ℕ → List Text → List Text
to_head r [] = (r ∷ []) ∷ []
to_head r (t ∷ ts) = (r ∷ t) ∷ ts

-- `strings.Split` by one byte.
unfoldable pub split : ℕ → Text → List Text
split c [] = [] ∷ []
split c (r ∷ s) = let rest = split c s in if r == c then [] ∷ rest else to_head r rest

-- The number, if it is a port.
abbrev pub valid_port : ℤ → Option ℕ
valid_port (negsuc n) = none
valid_port (pos n) = if ltb n 1 || ltb 65535 n then none else some n

abbrev pub read_port : Text → Option ℕ
read_port s = elim (atoi s) [ none ↦ none | some n ↦ valid_port n ]

abbrev pub before : ℕ → Text → Text
before c s = elim (cut c s) [ none ↦ s | some (a, b) ↦ a ]

abbrev pub port_field : Option (Text × Text) → Option ℕ
port_field none = none
port_field (some (host, [])) = none
port_field (some (host, r ∷ field)) = read_port (before b'%' (r ∷ field))

-- One line of the local-address column: its port, if it has one.
unfoldable pub listening_port : Text → Option ℕ
listening_port line = port_field (cut_last b':' (trim_space line))

abbrev pub is_port : ℕ → Option ℕ → Bool
is_port p none = false
is_port p (some q) = q == p

-- `parseListeningPorts`
unfoldable pub parse_listening_ports : Text → Ports
unfolding split listening_port
parse_listening_ports out p =
    exists_where (λ line. is_port p (listening_port line)) (split newline out)

abbrev pub max_nat_range : ℕ
max_nat_range = 4096

-- The end of a range, which is its start where it cannot be read.
abbrev pub range_end : ℕ → Text → ℕ
range_end start hi = elim (atoi hi) [
  | none ↦ start
  | some (negsuc n) ↦ start
  | some (pos n) ↦ if leb start n && leb n 65535 then n else start
]

-- `addPortRange`, to an empty set.
unfoldable pub port_range : Text → Text → Ports
port_range lo hi p = elim (read_port lo) [
  | none ↦ false
  | some start ↦
      let end = if text_eq hi [] then start else range_end start hi in
      if ltb max_nat_range (end - start) then false else leb start p && leb p end
]

abbrev is_blank : ℕ → Bool
is_blank r = r == 9 || r == 10 || r == 12 || r == 13 || r == 32

-- The longest part at the front that is all of one class, and the rest.
unfoldable pub span : (ℕ → Bool) → Text → Text × Text
span p [] = ([], [])
span p (r ∷ s) = let (a, b) = span p s in if p r then (r ∷ a, b) else ([], r ∷ s)

unfoldable pub strip_prefix : Text → Text → Option Text
strip_prefix [] s = some s
strip_prefix (c ∷ q) [] = none
strip_prefix (c ∷ q) (r ∷ s) = if r == c then strip_prefix q s else none

-- What follows a flag and the blanks after it.
unfoldable pub argument : Text → Text → Option Text
unfolding strip_prefix span
argument flag s = elim (strip_prefix flag s) [
  | none ↦ none
  | some rest ↦
      let (blanks, value) = span is_blank rest in if text_eq blanks [] then none else some value
]

-- `(?::(\d+))?`
abbrev range_hi : Text → Text
range_hi [] = []
range_hi (r ∷ s) = if r == b':' then (span is_digit s).0 else []

-- `dportRe` at one place.
unfoldable pub match_dport : Text → Option (Text × Text)
unfolding argument span
match_dport s = elim (argument (codes "--dport") s) [
  | none ↦ none
  | some value ↦
      let (digits, rest) = span is_digit value in
      if text_eq digits [] then none else some (digits, range_hi rest)
]

abbrev in_list : ℕ → Bool
in_list r = is_digit r || r == b',' || r == b':'

-- `dportsRe` at one place.
unfoldable pub match_dports : Text → Option Text
unfolding argument span
match_dports s = elim (argument (codes "--dports") s) [
  | none ↦ none
  | some value ↦
      let (list, rest) = span in_list value in if text_eq list [] then none else some list
]

-- `FindStringSubmatch`: the leftmost place that matches.
unfoldable pub leftmost : {A : Type 0} → (Text → Option A) → Text → Option A
leftmost m [] = m []
leftmost m (r ∷ s) = let rest = leftmost m s in elim (m (r ∷ s)) [ none ↦ rest | some a ↦ some a ]

abbrev cut_range : Text → Text × Text
cut_range part = elim (cut b':' part) [ none ↦ (part, []) | some parts ↦ parts ]

unfoldable pub list_ports : List Text → Ports
unfolding port_range
list_ports [] = no_ports
list_ports (part ∷ parts) =
    let (lo, hi) = cut_range part in union (port_range lo hi) (list_ports parts)

abbrev is_divert : Text → Bool
is_divert line = contains line (codes "-j DNAT") || contains line (codes "-j REDIRECT")

-- One line of the nat table.
unfoldable pub rule_ports : Text → Ports
unfolding port_range list_ports match_dport match_dports leftmost split
rule_ports line p =
    is_divert line
    && (elim (leftmost match_dport line) [ none ↦ false | some (lo, hi) ↦ port_range lo hi p ]
        || elim (leftmost match_dports line) [
          | none ↦ false
          | some list ↦ list_ports (split b',' list) p
        ])

-- `parseNATPorts`
unfoldable pub parse_nat_ports : Text → Ports
unfolding rule_ports split
parse_nat_ports out p = exists_where (λ line. rule_ports line p) (split newline out)

abbrev pub nat_marker : Text
nat_marker = codes "#fluxlite-nat#"

abbrev prepend : ℕ → Text × Text → Text × Text
prepend r (a, b) = (r ∷ a, b)

-- `strings.Cut` by a text; without it, all stands before.
unfoldable pub cut_text : Text → Text → Text × Text
unfolding strip_prefix
cut_text q [] = ([], [])
cut_text q (r ∷ s) =
    let rest = cut_text q s in
    elim (strip_prefix q (r ∷ s)) [ none ↦ prepend r rest | some after ↦ ([], after) ]

-- The output of the script that `claimedPortsOn` runs, read; `none` is its error.
unfoldable pub read_claims : Text → Option PortClaims
unfolding cut_text parse_listening_ports parse_nat_ports
read_claims out =
    let (socket_out, nat_out) = cut_text nat_marker out in
    if text_eq (trim_space socket_out) (codes "NOTOOL")
    then none
    else some (record {
      sockets = parse_listening_ports (trim_space socket_out);
      nat = parse_nat_ports nat_out;
    })

abbrev pub hop_claims : ℕ → List RouteHop → Ports
hop_claims node hops p = exists_where (claims node p) hops

-- `ownPortsOn`: a route that is not stored has none.
unfoldable pub own_ports_on : Option ℕ → Store → ℕ → Ports
own_ports_on none s node = no_ports
own_ports_on (some id) s node = elim (route_by_id id s) [
  | err e ↦ no_ports
  | ok r ↦ hop_claims node r.hops
]

-- `run` is the output that the script has on a node, `none` if it cannot be reached. The caches keep one
-- answer of each node through an allocation, as a function does.
module _ (run : Node → Option Text) (exclude : Option ℕ) (s : Store) where
  -- `claimedPorts` and `claimedPortsOn`
  unfoldable pub claimed_ports : ℕ → Option PortClaims
  unfolding read_claims
  claimed_ports node = elim (node_by_id node s) [
    | err e ↦ none
    | ok n ↦ elim (run n) [ none ↦ none | some out ↦ read_claims out ]
  ]

  abbrev pub live_ports : ℕ → PortClaims → Ports
  live_ports node c p =
      (used_ports_on_node node exclude s p || (c.sockets p && not (own_ports_on exclude s node p)))
      || c.nat p

  -- `liveLookup.UsedPortsOnNode`
  unfoldable pub live_used_ports : ℕ → Result Planner.Error Ports
  unfolding claimed_ports own_ports_on
  live_used_ports node = elim (claimed_ports node) [
    | none ↦ err lookup_failed
    | some c ↦ ok (live_ports node c)
  ]

  abbrev to_lookup : {A : Type 0} → Result Store.Error A → Result Planner.Error A
  to_lookup (ok a) = ok a
  to_lookup (err e) = err lookup_failed

  -- `newLiveLookup`
  abbrev pub live_lookup : NodeLookup
  live_lookup = record {
    node_by_id = λ id. to_lookup (node_by_id id s);
    used_ports_on_node = live_used_ports;
  }
