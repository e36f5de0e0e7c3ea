-- ===== src/Ports/Claims.antt =====
-- The ports that a machine claims lie where ports do.
use fluxlite.Common.{
  ℕ, ◌-◌, ◌≤◌, ◌≡◌, Text, text_eq, trim_space, codes, Bool, true, false, ◌&&◌, ◌||◌, List, [], ◌∷◌,
  Option, none, some, Option-cases, ltb, leb, if◌then◌else◌, Bool-cases, inl, inr, arith, ap, sym,
  subst,
}
use fluxlite.Common.Decimal.{atoi}
use fluxlite.Common.HostPort.{cut_last}
use fluxlite.Common.Int.{ℤ, pos, negsuc}
use fluxlite.Common.Tables.{exists_where}
use fluxlite.Ports.{
  PortClaims, newline, split, valid_port, read_port, before, port_field, listening_port, is_port,
  parse_listening_ports, range_end, port_range, list_ports, cut_range, leftmost, match_dport,
  match_dports, rule_ports, parse_nat_ports, cut_text, nat_marker, read_claims, max_nat_range,
}

abbrev pub InRange : ℕ → Type 0
InRange p = (1 ≤ p) × (p ≤ 65535)

-- A set whose every member is a port.
abbrev Sound : (ℕ → Bool) → Type 0
Sound ports = (p : ℕ) → ports p ≡ true → InRange p

exists_some :
    {A : Type 0} (q : A → Bool) (P : Type 0) (xs : List A)
    → ((x : A) → q x ≡ true → P)
    → exists_where q xs ≡ true
    → P
exists_some q P [] k h = cc
exists_some q P (x ∷ xs) k h = elim (Bool-cases (q x)) [
  | inl e ↦ k x e
  | inr e ↦ exists_some q P xs k (rw e at h)
]

read_port_lem : (s : Text) {p : ℕ} → read_port s ≡ some p → InRange p
read_port_lem s {p} h = elim (Option-cases (atoi s)) [
  | inl e ↦ cc (rw (read_port, e) at h)
  | inr (n, e) ↦ go n (rw (read_port, e) at h)
]
  where
    go : (n : ℤ) → valid_port n ≡ some p → InRange p
    go (negsuc n) k = cc
    go (pos n) k = let same : n ≡ p = ground (arith) in (ground (arith), ground (arith))

port_field_lem : (parts : Option (Text × Text)) {p : ℕ} → port_field parts ≡ some p → InRange p
port_field_lem none h = cc
port_field_lem (some (host, [])) h = cc
port_field_lem (some (host, r ∷ field)) h = read_port_lem (before b'%' (r ∷ field)) h

is_port_lem : (r : Option ℕ) (p : ℕ) → is_port p r ≡ true → r ≡ some p
is_port_lem none p h = cc
is_port_lem (some q) p h = ap some (ground (arith))

sockets-Sound : (out : Text) → Sound (parse_listening_ports out)
unfolding parse_listening_ports listening_port
sockets-Sound out p h =
    exists_some _ (InRange p) (split newline out)
      (λ line k.
        port_field_lem (cut_last b':' (trim_space line)) (is_port_lem (listening_port line) p k))
      h

range_end_lem : (start : ℕ) (hi : Text) → InRange start → range_end start hi ≤ 65535
range_end_lem start hi (a, b) = elim (Option-cases (atoi hi)) [
  | inl e ↦ rw (range_end, e) b
  | inr (n, e) ↦ rw (range_end, e) (go n)
]
  where
    go :
        (n : ℤ)
        → (elim n [ negsuc m ↦ start | pos m ↦ if leb start m && leb m 65535 then m else start ])
          ≤ 65535
    go (negsuc m) = b
    go (pos m) = elim (Bool-cases (leb start m && leb m 65535)) [
      | inl e ↦ rw e (ground arith)
      | inr e ↦ rw e b
    ]

between_lem :
    (start end p : ℕ)
    → InRange start
    → end ≤ 65535
    → (if ltb max_nat_range (end - start) then false else leb start p && leb p end) ≡ true
    → InRange p
between_lem start end p (a, b) l h = (ground (arith), ground (arith))

port_range-Sound : (lo hi : Text) → Sound (port_range lo hi)
unfolding port_range
port_range-Sound lo hi p h = elim (Option-cases (read_port lo)) [
  | inl e ↦ cc (rw (port_range, e) at h)
  | inr (start, e) ↦
      let here = read_port_lem lo e in
      let end = if text_eq hi [] then start else range_end start hi in
      let last : end ≤ 65535 = elim (Bool-cases (text_eq hi [])) [
        | inl e' ↦ rw e' here.1
        | inr e' ↦ rw e' (range_end_lem start hi here)
      ] in
      between_lem start end p here last (rw (port_range, e) at h)
]

list-Sound : (parts : List Text) → Sound (list_ports parts)
unfolding list_ports
list-Sound [] p h = cc
list-Sound (part ∷ parts) p h =
    elim (Bool-cases (port_range (cut_range part).0 (cut_range part).1 p)) [
      | inl e ↦ port_range-Sound _ _ p e
      | inr e ↦ list-Sound parts p (ground (arith))
    ]

rule-Sound : (line : Text) → Sound (rule_ports line)
unfolding rule_ports
rule-Sound line p h =
    elim (Bool-cases
      (elim (leftmost match_dport line) [ none ↦ false | some (lo, hi) ↦ port_range lo hi p ])) [
        | inl e ↦ one (leftmost match_dport line) e
        | inr e ↦ many (leftmost match_dports line) (ground (arith))
      ]
  where
    one :
        (m : Option (Text × Text))
        → elim m [ none ↦ false | some (lo, hi) ↦ port_range lo hi p ] ≡ true
        → InRange p
    one none k = cc
    one (some (lo, hi)) k = port_range-Sound lo hi p k

    many :
        (m : Option Text)
        → elim m [ none ↦ false | some list ↦ list_ports (split b',' list) p ] ≡ true
        → InRange p
    many none k = cc
    many (some list) k = list-Sound (split b',' list) p k

nat-Sound : (out : Text) → Sound (parse_nat_ports out)
unfolding parse_nat_ports
nat-Sound out p h = exists_some _ (InRange p) (split newline out) (λ line k. rule-Sound line p k) h

-- Whatever a machine's tools print, a port that it is taken to claim, by a socket or by a NAT rule, is
-- between 1 and 65535.
pub read_claims-InRange :
    (out : Text) (c : PortClaims)
    → read_claims out ≡ some c
    → (p : ℕ) → (c.sockets p || c.nat p) ≡ true
    → InRange p
unfolding read_claims
read_claims-InRange out c h p claimed =
    elim (Bool-cases (text_eq (trim_space (cut_text nat_marker out).0) (codes "NOTOOL"))) [
      | inl e ↦ cc (rw (read_claims, e) at h)
      | inr e ↦
          let same : c ≡ record {
            sockets = parse_listening_ports (trim_space (cut_text nat_marker out).0);
            nat = parse_nat_ports (cut_text nat_marker out).1;
          } =
            some_inj (sym (rw (read_claims, e) at h)) in
          either _ _ (sockets-Sound (trim_space (cut_text nat_marker out).0))
            (nat-Sound (cut_text nat_marker out).1)
            (subst (λ k. (k.sockets p || k.nat p) ≡ true) same claimed)
    ]
  where
    some_inj : {a b : PortClaims} → some a ≡ some b → a ≡ b
    some_inj e = cc

    either : (a b : ℕ → Bool) → Sound a → Sound b → (a p || b p) ≡ true → InRange p
    either a b u v k = elim (Bool-cases (a p)) [ inl e ↦ u p e | inr e ↦ v p (ground (arith)) ]
