-- ===== src/Slug/Bounds.antt =====
-- What a slug holds, how long it is, and that nothing else has it.
use fluxlite.Common.{
  ℕ, zero, suc, ◌+◌, ◌-◌, ◌≤◌, ◌<◌, ◌≡◌, refl, ◌≢◌, Text, trim_space, length, take, length-append,
  length-take, All, All-append, All-take, Bool, true, false, not, ◌&&◌, List, [], ◌∷◌, ◌++◌, map,
  Option, some, Option-cases, ltb, leb, if◌then◌else◌, Bool-cases, inl, inr, arith, ok, subst,
}
use fluxlite.Common.Tables.{exists_where}
use fluxlite.Store.{Store}
use fluxlite.Store.Routes.{has_slug}
use fluxlite.Slug.{
  max_slug_len, hyphen, is_usable, write_runes, trim_hyphens, hex, shortened, or_route, suffixed,
  slug_base, slug_available, try_slug, make_slug,
}
use fluxlite.Slug.Plain.{
  is_slug_char, Plain, IsSlug, trim_hyphens_lem, shortened_lem, or_route_lem, hex_lem,
}
use fluxlite.Slug.Unused.{make_slug-Unused}

usable_plain :
    (r : ℕ) → is_usable r ≡ true → (leb b'A' r && leb r b'Z') ≡ false → is_slug_char r ≡ true
usable_plain r e low = ground arith

-- What follows in the loop, unless it breaks.
continue_lem :
    (n : ℕ) (w : Text)
    → n ≤ max_slug_len
    → (n < max_slug_len → Plain w × (n + length w ≤ max_slug_len))
    → Plain (if leb max_slug_len n then [] else w)
      × (n + length (if leb max_slug_len n then [] else w) ≤ max_slug_len)
continue_lem n w small h = elim (Bool-cases (leb max_slug_len n)) [
  | inl e ↦ rw e (tt, omega (arith, small))
  | inr e ↦ rw e (h (ground arith))
]

-- The loop over the runes.
module _ (lower : ℕ → ℕ)
    (lowered : (r : ℕ) → (leb b'A' (lower r) && leb (lower r) b'Z') ≡ false) where
  write_runes_lem :
      (n : ℕ) (last_dash : Bool) (s : Text)
      → n < max_slug_len
      → Plain (write_runes n last_dash (map lower s))
        × (n + length (write_runes n last_dash (map lower s)) ≤ max_slug_len)
  unfolding write_runes
  write_runes_lem n last_dash [] small = (tt, omega (arith, small))
  write_runes_lem n last_dash (r ∷ s) small = elim (Bool-cases (is_usable (lower r))) [
    | inl e ↦
        let (p, l) =
          continue_lem (suc n) _ (omega (arith, small)) (write_runes_lem (suc n) false s) in
        rw e ((usable_plain (lower r) e (lowered r), p), omega (arith, l))
    | inr e ↦ elim (Bool-cases (not last_dash && ltb 0 n)) [
      | inl e' ↦
          let (p, l) =
            continue_lem (suc n) _ (omega (arith, small)) (write_runes_lem (suc n) true s) in
          rw (e, e') ((refl, p), omega (arith, l))
      | inr e' ↦
          rw (e, e') (continue_lem n _ (omega (arith, small)) (write_runes_lem n last_dash s))
    ]
  ]

below : (t : Text) → ltb (length t) 3 ≡ true → length t ≤ 5
below t e = ground (arith, e)

long : (t : Text) → ltb (length t) 3 ≡ false → t ≢ []
long [] e n = ground (arith, e)
long (r ∷ t) e n = cc

ending_lem :
    (a : Text) (suffix : Text) (m k : ℕ)
    → Plain a
    → Plain suffix
    → length a ≤ m
    → length suffix ≤ k
    → m + suc k ≤ max_slug_len
    → IsSlug (a ++ hyphen ∷ suffix)
ending_lem a suffix m k p q l l' fits = record {
  not_empty = λ e. absurd (nonempty a e);
  short = omega (arith, length-append a (hyphen ∷ suffix), l, l', fits);
  plain = All-append (λ r. is_slug_char r ≡ true) a (hyphen ∷ suffix) p (refl, q);
}
  where
    nonempty : (a : Text) → (a ++ hyphen ∷ suffix) ≢ []
    nonempty [] e = cc
    nonempty (r ∷ a) e = cc

-- Any base, with a suffix of three bytes.
suffixed_lem :
    (base : Text) (bytes : List ℕ)
    → Plain base
    → All (λ b. b < 256) bytes
    → length bytes ≡ 3
    → IsSlug (suffixed base (hex bytes))
unfolding suffixed
suffixed_lem base bytes p small three =
    let (q, l) = hex_lem bytes small in
    let limit : max_slug_len - length (hex bytes) - 1 ≡ 25 = omega (arith, l, three) in
    let (cut, m) = shortened_lem base 25 p in
    let (named, m') = or_route_lem (shortened base 25) 25 (omega arith) cut m in
    rw limit (ending_lem _ (hex bytes) 25 6 named q m' (omega (arith, l, three)) (omega arith))

module _ (lower : ℕ → ℕ) (sum : Text → List ℕ)
    (lowered : (r : ℕ) → (leb b'A' (lower r) && leb (lower r) b'Z') ≡ false)
    (bytes : (t : Text) → All (λ b. b < 256) (sum t)) where
  slug_base_lem : (name : Text) → IsSlug (slug_base lower sum name)
  unfolding slug_base
  slug_base_lem name =
      let (p, _) = write_runes_lem lower lowered 0 false (trim_space name) (omega arith) in
      let (q, _) = trim_hyphens_lem _ p in
      let (r, l) = shortened_lem _ max_slug_len q in
      let base =
        shortened (trim_hyphens (write_runes 0 false (map lower (trim_space name)))) max_slug_len in
      let (d, m) =
        hex_lem (take 4 (sum (trim_space name)))
          (All-take (λ b. b < 256) 4 _ (bytes (trim_space name))) in
      elim (Bool-cases (ltb (length base) 3)) [
        | inl e ↦
            let (named, k) = or_route_lem base 5 (omega arith) r (below base e) in
            rw e (
              ending_lem (or_route base) _ 5 8 named d k
                (omega (arith, m, length-take 4 (sum (trim_space name)))) (omega arith))
        | inr e ↦ rw e (record { not_empty = λ n. absurd (long base e n); short = l; plain = r })
      ]

  module _ (draws : ℕ → Option (List ℕ))
      (drawn : (i : ℕ) (bs : List ℕ) → draws i ≡ some bs → All (λ b. b < 256) bs × (length bs ≡ 3))
      (s : Store) where
    try_slug_lem :
        (left i : ℕ) (base candidate : Text) {t : Text}
        → Plain base
        → IsSlug candidate
        → try_slug lower sum draws s base left i candidate ≡ ok t
        → IsSlug t
    unfolding try_slug
    try_slug_lem zero i base candidate p c h = cc
    try_slug_lem (suc left) i base candidate {t} p c h =
        elim (Bool-cases (slug_available lower sum s candidate)) [
          | inl e ↦ let same : candidate ≡ t = ground (arith) in subst IsSlug same c
          | inr e ↦ elim (Option-cases (draws i)) [
            | inl none_left ↦ ground arith
            | inr (bs, some_left) ↦
                let (small, three) = drawn i bs some_left in
                try_slug_lem left (suc i) base (suffixed base (hex bs)) p
                  (suffixed_lem base bs p small three) (rw (try_slug, e, some_left) at h)
          ]
        ]

    -- A slug that is made is not empty, of 32 characters at most, each a lower-case letter, a digit or a
    -- hyphen, and no stored route has it. It is assumed that lowering a rune never gives a capital of
    -- A to Z, that the digest is made of bytes, and that a draw that succeeds gives three bytes.
    pub make_slug-IsSlug :
        (name : Text) {t : Text}
        → make_slug lower sum draws s name ≡ ok t
        → IsSlug t × (exists_where (has_slug t) s.routes ≡ false)
    unfolding make_slug
    make_slug-IsSlug name h =
        let base = slug_base_lem name in
        (
          try_slug_lem 8 0 (slug_base lower sum name) (slug_base lower sum name) base.plain base h,
          make_slug-Unused lower sum draws s name h,
        )
