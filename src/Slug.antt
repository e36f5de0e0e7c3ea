-- ===== src/Slug.antt =====
-- internal/service/slug.go: an identifier of letters, digits and hyphens from a display name.
pub mod Plain
pub mod Unused
pub mod Bounds
use fluxlite.Common.{
  ℕ, zero, suc, ◌+◌, ◌-◌, ◌/◌, ◌%◌, Text, codes, text_eq, trim_space, length, take, Bool, true,
  false, not, ◌&&◌, ◌||◌, List, [], ◌∷◌, ◌++◌, map, Option, none, some, ltb, leb, ◌==◌,
  if◌then◌else◌, Result, ok, err,
}
use fluxlite.Common.Decimal.{is_digit}
use fluxlite.Store.{Store}
use fluxlite.Store.Routes.{route_by_slug}

pub data Error : Type 0 where
  no_random exhausted : Error

abbrev pub max_slug_len : ℕ
max_slug_len = 32

abbrev pub min_slug_base_len : ℕ
min_slug_base_len = 3

abbrev pub hyphen : ℕ
hyphen = b'-'

-- `unicode.IsLetter(r) || unicode.IsDigit(r)` below `unicode.MaxASCII`.
abbrev pub is_usable : ℕ → Bool
is_usable r =
    ltb r 127 && (((leb b'a' r && leb r b'z') || (leb b'A' r && leb r b'Z')) || is_digit r)

-- One round of the loop over the runes: what it writes, the length then, and `lastDash`.
abbrev pub next_rune : ℕ → Bool → ℕ → Text × (ℕ × Bool)
next_rune n last_dash r =
    if is_usable r
    then (r ∷ [], (suc n, false))
    else if not last_dash && ltb 0 n
    then (hyphen ∷ [], (suc n, true))
    else ([], (n, last_dash))

-- The loop, with what is written from here on; it breaks at the length limit.
unfoldable pub write_runes : ℕ → Bool → Text → Text
write_runes n last_dash [] = []
write_runes n last_dash (r ∷ s) =
    let (written, (n', last_dash')) = next_rune n last_dash r in
    let rest = write_runes n' last_dash' s in written ++ (if leb max_slug_len n' then [] else rest)

unfoldable pub drop_leading : Text → Text
drop_leading [] = []
drop_leading (r ∷ s) = let rest = drop_leading s in if r == hyphen then rest else r ∷ s

abbrev pub keep_last : ℕ → Text → Text
keep_last r [] = if r == hyphen then [] else r ∷ []
keep_last r (x ∷ s) = r ∷ x ∷ s

unfoldable pub drop_trailing : Text → Text
drop_trailing [] = []
drop_trailing (r ∷ s) = keep_last r (drop_trailing s)

-- `strings.Trim(s, "-")`
abbrev pub trim_hyphens : Text → Text
trim_hyphens s = drop_trailing (drop_leading s)

abbrev pub hex_digit : ℕ → ℕ
hex_digit n = if ltb n 10 then b'0' + n else b'a' + (n - 10)

-- `hex.EncodeToString`
unfoldable pub hex : List ℕ → Text
hex [] = []
hex (b ∷ bytes) = hex_digit (b / 16) ∷ hex_digit (b % 16) ∷ hex bytes

-- Of the base alone, or cut to what a suffix of that length leaves.
abbrev pub shortened : Text → ℕ → Text
shortened base limit = if ltb limit (length base) then trim_hyphens (take limit base) else base

abbrev pub or_route : Text → Text
or_route t = if text_eq t [] then codes "route" else t

-- The next candidate: the base and a suffix.
unfoldable pub suffixed : Text → Text → Text
unfolding drop_leading drop_trailing
suffixed base suffix =
    or_route (shortened base (max_slug_len - length suffix - 1)) ++ hyphen ∷ suffix

-- `lower` is `unicode.ToLower`, `sum` is SHA-256 of a text's bytes.
module _ (lower : ℕ → ℕ) (sum : Text → List ℕ) where
  -- `slugBase`; a base is ASCII, so that its length in bytes is its length.
  unfoldable pub slug_base : Text → Text
  unfolding write_runes drop_leading drop_trailing hex
  slug_base name =
      let base =
        shortened (trim_hyphens (write_runes 0 false (map lower (trim_space name)))) max_slug_len in
      let digest = hex (take 4 (sum (trim_space name))) in
      if ltb (length base) min_slug_base_len then or_route base ++ hyphen ∷ digest else base

  -- `slugAvailable`: any error of RouteBySlug is ErrNotFound.
  unfoldable pub slug_available : Store → Text → Bool
  slug_available s slug = elim (route_by_slug slug s) [ ok _ ↦ false | err _ ↦ true ]

  -- The attempts that are left, with the bytes that each draws: `none` if it fails.
  module _ (draws : ℕ → Option (List ℕ)) (s : Store) (base : Text) where
    unfoldable pub try_slug : ℕ → ℕ → Text → Result Error Text
    unfolding slug_available suffixed hex
    try_slug zero i candidate = err exhausted
    try_slug (suc left) i candidate = elim (slug_available s candidate) [
      | true ↦ ok candidate
      | false ↦ elim (draws i) [
        | none ↦ err no_random
        | some bytes ↦ try_slug left (suc i) (suffixed base (hex bytes))
      ]
    ]

  -- `makeSlug`
  unfoldable pub make_slug : (ℕ → Option (List ℕ)) → Store → Text → Result Error Text
  unfolding slug_base try_slug
  make_slug draws s name = try_slug draws s (slug_base name) 8 0 (slug_base name)
