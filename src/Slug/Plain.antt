-- ===== src/Slug/Plain.antt =====
-- What characters a slug is made of, through trimming and printing in base 16.
use fluxlite.Common.{
  ℕ, suc, ◌+◌, ◌/◌, ◌%◌, ◌≤◌, ◌<◌, ◌≡◌, refl, ◌≢◌, Text, text_eq, length, take, length-take, All,
  All-take, Bool, true, ◌&&◌, ◌||◌, List, [], ◌∷◌, ltb, leb, ◌==◌, Bool-cases, inl, inr, arith,
}
use fluxlite.Common.Decimal.{is_digit}
use fluxlite.Slug.{
  max_slug_len, hyphen, drop_leading, keep_last, drop_trailing, trim_hyphens, hex_digit, hex,
  shortened, or_route,
}

-- A lower-case letter, a digit or the hyphen.
abbrev pub is_slug_char : ℕ → Bool
is_slug_char r = ((leb b'a' r && leb r b'z') || is_digit r) || r == hyphen

abbrev pub Plain : Text → Type 0
Plain = All (λ r. is_slug_char r ≡ true)

pub record IsSlug (t : Text) : Type 0 where
  pub not_empty : t ≢ []
  pub short : length t ≤ max_slug_len
  pub plain : Plain t

-- Trimming.
pub drop_leading_lem :
    (s : Text) → Plain s → Plain (drop_leading s) × (length (drop_leading s) ≤ length s)
unfolding drop_leading
drop_leading_lem [] a = (tt, omega arith)
drop_leading_lem (r ∷ s) (p, a) =
    let (b, l) = drop_leading_lem s a in
    elim (Bool-cases (r == hyphen)) [
      | inl e ↦ rw e (b, omega (arith, l))
      | inr e ↦ rw e ((p, a), omega arith)
    ]

pub keep_last_lem :
    (r : ℕ) (s : Text)
    → is_slug_char r ≡ true
    → Plain s
    → Plain (keep_last r s) × (length (keep_last r s) ≤ suc (length s))
keep_last_lem r [] p a = elim (Bool-cases (r == hyphen)) [
  | inl e ↦ rw e (tt, omega arith)
  | inr e ↦ rw e ((p, tt), omega arith)
]
keep_last_lem r (x ∷ s) p a = ((p, a), omega arith)

pub drop_trailing_lem :
    (s : Text) → Plain s → Plain (drop_trailing s) × (length (drop_trailing s) ≤ length s)
unfolding drop_trailing
drop_trailing_lem [] a = (tt, omega arith)
drop_trailing_lem (r ∷ s) (p, a) =
    let (b, l) = drop_trailing_lem s a in
    let (c, m) = keep_last_lem r (drop_trailing s) p b in (c, omega (arith, l, m))

pub trim_hyphens_lem :
    (s : Text) → Plain s → Plain (trim_hyphens s) × (length (trim_hyphens s) ≤ length s)
trim_hyphens_lem s a =
    let (b, l) = drop_leading_lem s a in
    let (c, m) = drop_trailing_lem (drop_leading s) b in (c, omega (arith, l, m))

pub shortened_lem :
    (base : Text) (limit : ℕ)
    → Plain base
    → Plain (shortened base limit) × (length (shortened base limit) ≤ limit)
shortened_lem base limit a = elim (Bool-cases (ltb limit (length base))) [
  | inl e ↦
      let (b, l) =
        trim_hyphens_lem (take limit base) (All-take (λ r. is_slug_char r ≡ true) limit base a) in
      let cut : length (take limit base) ≤ limit = omega (arith, length-take limit base) in
      rw e (b, omega (arith, l, cut))
  | inr e ↦ rw e (a, ground arith)
]

pub or_route_lem :
    (t : Text) (limit : ℕ)
    → 5 ≤ limit
    → Plain t
    → length t ≤ limit
    → Plain (or_route t) × (length (or_route t) ≤ limit)
or_route_lem t limit five a l = elim (Bool-cases (text_eq t [])) [
  | inl e ↦ rw e ((refl, (refl, (refl, (refl, (refl, tt))))), five)
  | inr e ↦ rw e (a, l)
]

-- Hexadecimal digits.
pub hex_digit_plain : (n : ℕ) → n < 16 → is_slug_char (hex_digit n) ≡ true
hex_digit_plain n small = elim (Bool-cases (ltb n 10)) [
  | inl e ↦ rw e (ground arith)
  | inr e ↦ rw e (ground arith)
]

pub hex_lem :
    (bytes : List ℕ)
    → All (λ b. b < 256) bytes
    → Plain (hex bytes) × (length (hex bytes) ≡ length bytes + length bytes)
unfolding hex
hex_lem [] a = (tt, refl)
hex_lem (b ∷ bytes) (small, a) =
    let (p, l) = hex_lem bytes a in
    (
      (
        hex_digit_plain (b / 16) (omega (arith, small)),
        (hex_digit_plain (b % 16) (omega arith), p),
      ),
      omega (arith, l),
    )
