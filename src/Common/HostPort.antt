-- ===== src/Common/HostPort.antt =====
-- net.SplitHostPort and net.JoinHostPort.
use Prim.Native.Nat.{ℕ}
use mathlib.Core.Path.{◌≡◌, refl, sym, ap, subst, ◌∙◌}
use mathlib.Core.Logic.{inl, inr}
use mathlib.Core.Bool.{Bool, false, not, ◌||◌}
use mathlib.Core.Option.{Option, none, some}
use mathlib.Core.List.{[], ◌∷◌, ◌++◌, append_assoc}
use native.Mathlib.Omega.{arith}
use fluxlite.Common.Tests.{◌==◌, if◌then◌else◌, Bool-cases}
use fluxlite.Common.Strings.{Text, text_eq, text_eq_refl}

unfoldable pub contains_byte : ℕ → Text → Bool
contains_byte c [] = false
contains_byte c (r ∷ s) = r == c || contains_byte c s

abbrev prepend : ℕ → Option (Text × Text) → Option (Text × Text)
prepend r none = none
prepend r (some (a, b)) = some (r ∷ a, b)

-- `strings.Cut` by one byte.
unfoldable pub cut : ℕ → Text → Option (Text × Text)
cut c [] = none
cut c (r ∷ s) = let rest = cut c s in if r == c then some ([], s) else prepend r rest

abbrev later_cut : ℕ → ℕ → Text → Option (Text × Text) → Option (Text × Text)
later_cut c r s none = if r == c then some ([], s) else none
later_cut c r s (some (a, b)) = some (r ∷ a, b)

-- What stands before and after the last `c`.
unfoldable pub cut_last : ℕ → Text → Option (Text × Text)
cut_last c [] = none
cut_last c (r ∷ s) = later_cut c r s (cut_last c s)

abbrev split_plain : Text → Text → Option (Text × Text)
split_plain host port =
    if contains_byte b':' host
      || contains_byte b'[' host
      || contains_byte b']' host
      || contains_byte b'[' port
      || contains_byte b']' port
    then none
    else some (host, port)

abbrev split_bracketed : Text → Text → Option (Text × Text) → Option (Text × Text)
split_bracketed rest port none = none
split_bracketed rest port (some (host, after)) =
    if not (text_eq after (b':' ∷ port)) || contains_byte b'[' rest || contains_byte b']' after
    then none
    else some (host, port)

abbrev split_at : Text → Option (Text × Text) → Option (Text × Text)
split_at s none = none
split_at [] (some (host, port)) = none
split_at (r ∷ s) (some (host, port)) =
    if r == b'[' then split_bracketed s port (cut b']' s) else split_plain host port

-- `net.SplitHostPort`; every error is `none`.
unfoldable pub split_host_port : Text → Option (Text × Text)
unfolding cut cut_last contains_byte
split_host_port s = split_at s (cut_last b':' s)

-- `net.JoinHostPort`: an address with a colon is bracketed.
unfoldable pub join_host_port : Text → Text → Text
unfolding contains_byte
join_host_port host port =
    if contains_byte b':' host then b'[' ∷ host ++ b']' ∷ b':' ∷ port else host ++ b':' ∷ port

contains_byte-append :
    (c : ℕ) (a b : Text) → contains_byte c (a ++ b) ≡ (contains_byte c a || contains_byte c b)
unfolding contains_byte
contains_byte-append c [] b = refl
contains_byte-append c (r ∷ a) b = ground (arith, contains_byte-append c a b)

cut_last-none : (c : ℕ) (s : Text) → contains_byte c s ≡ false → cut_last c s ≡ none
unfolding contains_byte cut_last
cut_last-none c [] h = refl
cut_last-none c (r ∷ s) h = ground (arith, cut_last-none c s)

pub cut_last-append :
    (c : ℕ) (a p : Text) → contains_byte c p ≡ false → cut_last c (a ++ c ∷ p) ≡ some (a, p)
unfolding cut_last
cut_last-append c [] p h = ground (arith, cut_last-none c p)
cut_last-append c (r ∷ a) p h = ground (arith, cut_last-append c a p)

cut-append : (c : ℕ) (a t : Text) → contains_byte c a ≡ false → cut c (a ++ c ∷ t) ≡ some (a, t)
unfolding cut contains_byte
cut-append c [] t h = ground arith
cut-append c (r ∷ a) t h = ground (arith, cut-append c a t)

-- A host and a port that hold no bracket, the port no colon.
pub record IsSplittable (host port : Text) : Type 0 where
  pub host_left : contains_byte b'[' host ≡ false
  pub host_right : contains_byte b']' host ≡ false
  pub port_colon : contains_byte b':' port ≡ false
  pub port_left : contains_byte b'[' port ≡ false
  pub port_right : contains_byte b']' port ≡ false

module _ (host port : Text) (h : IsSplittable host port) where
  split_plain_lem :
      contains_byte b':' host ≡ false → split_host_port (host ++ b':' ∷ port) ≡ some (host, port)
  unfolding split_host_port
  split_plain_lem plain = rw (cut_last-append b':' host port h.port_colon) (first host refl)
    where
      first :
          (a : Text)
          → a ≡ host
          → split_at (a ++ b':' ∷ port) (some (host, port)) ≡ some (host, port)
      first [] e = ground arith
      first (r ∷ a) e =
          let head : contains_byte b'[' (r ∷ a) ≡ false =
            subst (λ t. contains_byte b'[' t ≡ false) (sym e) h.host_left in
          ground arith

  split_bracketed_lem : split_host_port (b'[' ∷ host ++ b']' ∷ b':' ∷ port) ≡ some (host, port)
  unfolding split_host_port
  split_bracketed_lem =
      let colon = cut_last-append b':' (b'[' ∷ host ++ b']' ∷ []) port h.port_colon in
      let whole : cut_last b':' (b'[' ∷ host ++ b']' ∷ b':' ∷ port)
          ≡ some (b'[' ∷ host ++ b']' ∷ [], port) =
        ap (λ t. cut_last b':' (b'[' ∷ t)) (sym (append_assoc host (b']' ∷ []) (b':' ∷ port)))
        ∙ colon in
      let right = cut-append b']' host (b':' ∷ port) h.host_right in
      let left = contains_byte-append b'[' host (b']' ∷ b':' ∷ port) in
      rw (whole, right) (ground (arith, text_eq_refl (b':' ∷ port)))

  -- A joined address is split again into its parts.
  pub split-join : split_host_port (join_host_port host port) ≡ some (host, port)
  unfolding join_host_port
  split-join = elim (Bool-cases (contains_byte b':' host)) [
    | inl colon ↦ rw colon split_bracketed_lem
    | inr plain ↦ rw plain (split_plain_lem plain)
  ]
