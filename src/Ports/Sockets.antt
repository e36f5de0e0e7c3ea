-- ===== src/Ports/Sockets.antt =====
-- The local-address column, read back from the addresses that it lists.
use mathlib.Core.List.{reverse, reverse-append, reverse-reverse, append_assoc}
use fluxlite.Common.{
  ℕ, ◌≤◌, ◌≡◌, refl, ap, ◌∙◌, sym, ◌≢◌, Text, trim_space, trim_left, is_space, true, false, List,
  [], ◌∷◌, ◌++◌, All, none, some, ◌==◌, Bool-cases, inl, inr, arith, subst,
}
use fluxlite.Common.Decimal.{is_digit, atoi, itoa, itoa-digits, itoa-ne-nil, atoi-itoa}
use fluxlite.Common.HostPort.{contains_byte, cut, cut_last, cut_last-append}
use fluxlite.Common.Int.{pos}
use fluxlite.Common.Tables.{exists_where}
use fluxlite.Ports.{
  newline, split, read_port, before, port_field, listening_port, parse_listening_ports,
}

-- What the tools print: each address and port on a line of its own.
pub print_sockets : List (Text × ℕ) → Text
print_sockets [] = []
print_sockets ((host, port) ∷ sockets) =
    (host ++ b':' ∷ itoa port) ++ newline ∷ print_sockets sockets

abbrev pub IsSocket : Text × ℕ → Type 0
IsSocket (host, port) = (contains_byte newline host ≡ false) × (1 ≤ port) × (port ≤ 65535)

no_newline :
    (host digits : Text)
    → contains_byte newline host ≡ false
    → All (λ r. is_digit r ≡ true) digits
    → contains_byte newline (host ++ b':' ∷ digits) ≡ false
unfolding contains_byte
no_newline [] [] h d = refl
no_newline [] (r ∷ digits) h (p, d) =
    let rest = no_newline [] digits refl d in ground (arith, p, rest)
no_newline (r ∷ host) digits h d = ground (arith, no_newline host digits (ground (arith)) d)

split_line :
    (line rest : Text)
    → contains_byte newline line ≡ false
    → split newline (line ++ newline ∷ rest) ≡ line ∷ split newline rest
unfolding split contains_byte
split_line [] rest h = refl
split_line (r ∷ line) rest h = elim (Bool-cases (r == newline)) [
  | inl e ↦ absurd (ground (arith))
  | inr e ↦ rw (e, split_line line rest (ground (arith))) refl
]

no_percent : (digits : Text) → All (λ r. is_digit r ≡ true) digits → before b'%' digits ≡ digits
unfolding cut
no_percent digits d = rw (before, none_cut digits d) refl
  where
    none_cut : (s : Text) → All (λ r. is_digit r ≡ true) s → cut b'%' s ≡ none
    none_cut [] a = refl
    none_cut (r ∷ s) (p, a) =
        let other : (r == b'%') ≡ false = ground (arith, p) in rw (other, none_cut s a) refl

-- Trimming.
trim_end :
    (s : Text) (d : ℕ)
    → is_space d ≡ false
    → reverse (trim_left (reverse (s ++ d ∷ []))) ≡ s ++ d ∷ []
unfolding trim_left
trim_end s d h =
    rw (reverse-append s (d ∷ []), h)
      (ap reverse (sym (reverse-append s (d ∷ []))) ∙ reverse-reverse (s ++ d ∷ []))

trim_start : (host rest : Text) → trim_left (host ++ b':' ∷ rest) ≡ trim_left host ++ b':' ∷ rest
unfolding trim_left is_space
trim_start [] rest = refl
trim_start (r ∷ host) rest = elim (Bool-cases (is_space r)) [
  | inl e ↦ rw e (trim_start host rest)
  | inr e ↦ rw e refl
]

trim_snoc :
    (host s : Text)
    → s ≢ []
    → All (λ r. is_digit r ≡ true) s
    → reverse (trim_left (reverse (host ++ s))) ≡ host ++ s
unfolding is_space
trim_snoc host [] ne a = absurd (ne refl)
trim_snoc host (r ∷ []) ne (p, _) = trim_end host r (ground (arith, p))
trim_snoc host (r ∷ x ∷ s) ne (p, a) =
    subst (λ t. reverse (trim_left (reverse t)) ≡ t) (append_assoc host (r ∷ []) (x ∷ s))
      (trim_snoc (host ++ r ∷ []) (x ∷ s) (λ e. cc) a)

no_colon : (s : Text) → All (λ r. is_digit r ≡ true) s → contains_byte b':' s ≡ false
unfolding contains_byte
no_colon [] a = refl
no_colon (r ∷ s) (p, a) = ground (arith, p, no_colon s a)

port_field_lem :
    (host s : Text) (port : ℕ)
    → s ≢ []
    → All (λ r. is_digit r ≡ true) s
    → atoi s ≡ some (pos port)
    → 1 ≤ port
    → port ≤ 65535
    → port_field (some (host, s)) ≡ some port
port_field_lem host [] port ne a e lo hi = absurd (ne refl)
port_field_lem host (r ∷ s) port ne a e lo hi =
    rw (no_percent (r ∷ s) a, read_port, e) (ground (arith))

listening_port_lem :
    (host : Text) (port : ℕ)
    → 1 ≤ port
    → port ≤ 65535
    → listening_port (host ++ b':' ∷ itoa port) ≡ some port
unfolding listening_port trim_space
listening_port_lem host port lo hi =
    let digits = itoa-digits port in
    let start = ap (λ t. reverse (trim_left (reverse t))) (trim_start host (itoa port)) in
    let end : reverse (trim_left (reverse (trim_left host ++ b':' ∷ itoa port)))
        ≡ trim_left host ++ b':' ∷ itoa port =
      subst (λ t. reverse (trim_left (reverse t)) ≡ t)
        (append_assoc (trim_left host) (b':' ∷ []) (itoa port))
        (trim_snoc (trim_left host ++ b':' ∷ []) (itoa port) (itoa-ne-nil port) digits) in
    rw
      (start ∙ end, cut_last-append b':' (trim_left host) (itoa port) (no_colon (itoa port) digits))
      (port_field_lem (trim_left host) (itoa port) port (itoa-ne-nil port) digits
        (atoi-itoa port (omega (arith, hi))) lo hi)

empty_line : listening_port [] ≡ none
unfolding listening_port trim_space trim_left cut_last
empty_line = refl

-- The ports that are read from a list of sockets are those of its entries, whatever the addresses look
-- like (with colons, brackets or blanks), as long as none holds a line break and every port is one.
pub parse-print :
    (sockets : List (Text × ℕ))
    → All IsSocket sockets
    → (p : ℕ)
    → parse_listening_ports (print_sockets sockets) p
      ≡ exists_where (λ (host, port). port == p) sockets
unfolding parse_listening_ports print_sockets split
parse-print [] a p = rw empty_line refl
parse-print ((host, port) ∷ sockets) ((plain, lo, hi), a) p =
    rw
      (split_line (host ++ b':' ∷ itoa port) (print_sockets sockets)
        (no_newline host (itoa port) plain (itoa-digits port)))
      (rw (listening_port_lem host port lo hi, parse-print sockets a p) refl)
