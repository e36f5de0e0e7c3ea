-- ===== src/Common/Sorting.antt =====
-- ORDER BY as insertion in front of what does not come before.
use mathlib.Core.Path.{◌≡◌, refl, ap, ◌∙◌}
use mathlib.Core.Bool.{Bool}
use mathlib.Core.Logic.{inl, inr}
use mathlib.Core.List.{List, [], ◌∷◌, map}
use fluxlite.Common.Tests.{if◌then◌else◌, Bool-cases}

module _ {A : Type 0} (leq : A → A → Bool) where
  unfoldable pub insert_by : A → List A → List A
  insert_by x [] = x ∷ []
  insert_by x (y ∷ ys) = let rest = insert_by x ys in if leq x y then x ∷ y ∷ ys else y ∷ rest

  unfoldable pub sort_by : List A → List A
  unfolding insert_by
  sort_by [] = []
  sort_by (x ∷ xs) = insert_by x (sort_by xs)

  module _ (f : A → A) (same : (x y : A) → leq (f x) (f y) ≡ leq x y) where
    insert_by-map : (x : A) (xs : List A) → insert_by (f x) (map f xs) ≡ map f (insert_by x xs)
    unfolding insert_by
    insert_by-map x [] = refl
    insert_by-map x (y ∷ ys) = rw (same x y) (elim (Bool-cases (leq x y)) [
      | inl e ↦ rw (e) refl
      | inr e ↦ rw (e) (ap (λ zs. f y ∷ zs) (insert_by-map x ys))
    ])

    -- A change that the order does not see is made before or after.
    pub sort_by-map : (xs : List A) → sort_by (map f xs) ≡ map f (sort_by xs)
    unfolding sort_by
    sort_by-map [] = refl
    sort_by-map (x ∷ xs) = ap (insert_by (f x)) (sort_by-map xs) ∙ insert_by-map x (sort_by xs)
