-- ===== src/Slug/Unused.antt =====
-- A slug that is made is one that no route has.
use fluxlite.Common.{
  ℕ, zero, suc, ◌≡◌, ap, ◌∙◌, Text, true, false, List, Option, Option-cases, Bool-cases, inl, inr,
  arith, ok, subst, is_some,
}
use fluxlite.Common.Tables.{find_where, exists_where, exists-find}
use fluxlite.Store.{Store}
use fluxlite.Store.Routes.{route_by_slug, has_slug}
use fluxlite.Slug.{hex, suffixed, slug_base, slug_available, try_slug, make_slug}

module _ (lower : ℕ → ℕ) (sum : Text → List ℕ) where
  available-Unused :
      (s : Store) (t : Text)
      → slug_available lower sum s t ≡ true
      → exists_where (has_slug t) s.routes ≡ false
  unfolding slug_available route_by_slug
  available-Unused s t h = elim (Option-cases (find_where (has_slug t) s.routes)) [
    | inl e ↦ exists-find (has_slug t) s.routes ∙ ap is_some e
    | inr (r, e) ↦ ground (arith)
  ]

  module _ (draws : ℕ → Option (List ℕ)) (s : Store) where
    try_slug-Unused :
        (left i : ℕ) (base candidate : Text) {t : Text}
        → try_slug lower sum draws s base left i candidate ≡ ok t
        → exists_where (has_slug t) s.routes ≡ false
    unfolding try_slug
    try_slug-Unused zero i base candidate h = cc
    try_slug-Unused (suc left) i base candidate {t} h =
        elim (Bool-cases (slug_available lower sum s candidate)) [
          | inl e ↦
              let same : candidate ≡ t = ground (arith) in
              subst (λ u. exists_where (has_slug u) s.routes ≡ false) same
                (available-Unused s candidate e)
          | inr e ↦ elim (Option-cases (draws i)) [
            | inl none_left ↦ ground arith
            | inr (bs, some_left) ↦
                try_slug-Unused left (suc i) base (suffixed base (hex bs))
                  (rw (try_slug, e, some_left) at h)
          ]
        ]

    -- Nothing has the slug that is made.
    pub make_slug-Unused :
        (name : Text) {t : Text}
        → make_slug lower sum draws s name ≡ ok t
        → exists_where (has_slug t) s.routes ≡ false
    unfolding make_slug
    make_slug-Unused name h =
        try_slug-Unused 8 0 (slug_base lower sum name) (slug_base lower sum name) h
