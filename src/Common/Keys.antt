-- ===== src/Common/Keys.antt =====
-- Keys and references of tables: no two rows alike, and a row that stays when others change.
use mathlib.Core.Path.{◌≡◌, refl, ◌∙◌}
use mathlib.Core.Logic.{inl, inr}
use mathlib.Core.Bool.{Bool, true, false}
use mathlib.Core.List.{List, [], ◌∷◌, ◌++◌}
use fluxlite.Common.Tests.{Bool-cases}
use fluxlite.Common.Lists.{All}
use fluxlite.Common.Tables.{update_where, delete_where, exists_where, All-update, All-delete}

module _ {A : Type 0} where
  pub none_exist :
      (p : A → Bool) (xs : List A) → exists_where p xs ≡ false → All (λ x. p x ≡ false) xs
  none_exist p [] h = tt
  none_exist p (x ∷ xs) h = elim (Bool-cases (p x)) [
    | inl e ↦ cc (rw e at h)
    | inr e ↦ (e, none_exist p xs (rw e at h))
  ]

  pub exists-append :
      (p : A → Bool) (xs ys : List A) → exists_where p xs ≡ true → exists_where p (xs ++ ys) ≡ true
  exists-append p [] ys h = cc
  exists-append p (x ∷ xs) ys h = elim (Bool-cases (p x)) [
    | inl e ↦ rw e refl
    | inr e ↦ rw e (exists-append p xs ys (rw e at h))
  ]

  pub exists-append_last :
      (p : A → Bool) (xs : List A) (y : A) → p y ≡ true → exists_where p (xs ++ y ∷ []) ≡ true
  exists-append_last p [] y h = rw h refl
  exists-append_last p (x ∷ xs) y h = elim (Bool-cases (p x)) [
    | inl e ↦ rw e refl
    | inr e ↦ rw e (exists-append_last p xs y h)
  ]

  pub exists-update :
      (p q : A → Bool) (f : A → A) (xs : List A)
      → ((x : A) → p (f x) ≡ p x)
      → exists_where p (update_where q f xs) ≡ exists_where p xs
  exists-update p q f [] k = refl
  exists-update p q f (x ∷ xs) k = elim (Bool-cases (q x)) [
    | inl e ↦ rw (e, k x, exists-update p q f xs k) refl
    | inr e ↦ rw (e, exists-update p q f xs k) refl
  ]

  pub exists-delete :
      (p q : A → Bool) (xs : List A)
      → ((x : A) → p x ≡ true → q x ≡ false)
      → exists_where p (delete_where q xs) ≡ exists_where p xs
  exists-delete p q [] k = refl
  exists-delete p q (x ∷ xs) k = elim (Bool-cases (q x)) [
    | inl e ↦ elim (Bool-cases (p x)) [
      | inl e' ↦ cc (k x e')
      | inr e' ↦ rw (e, e') (exists-delete p q xs k)
    ]
    | inr e ↦ rw (e, exists-delete p q xs k) refl
  ]

  -- A reference that another row holds stays where that row does not go.
  pub All-delete_both {κ} :
      (P : A → Type κ) (p : A → Bool) (xs : List A)
      → All P xs
      → All (λ x. P x × (p x ≡ false)) (delete_where p xs)
  All-delete_both P p [] a = tt
  All-delete_both P p (x ∷ xs) (q, a) = elim (Bool-cases (p x)) [
    | inl e ↦ rw e (All-delete_both P p xs a)
    | inr e ↦ rw e ((q, e), All-delete_both P p xs a)
  ]

module _ {A : Type 0} (same : A → A → Bool) where
  -- No two rows alike.
  abbrev pub Pairwise : List A → Type 0
  Pairwise [] = Unit
  Pairwise (x ∷ xs) = All (λ y. same x y ≡ false) xs × Pairwise xs

  All-last :
      (x y : A) (xs : List A)
      → All (λ z. same x z ≡ false) xs
      → same x y ≡ false
      → All (λ z. same x z ≡ false) (xs ++ y ∷ [])
  All-last x y [] a h = (h, tt)
  All-last x y (z ∷ xs) (e, a) h = (e, All-last x y xs a h)

  pub Pairwise-append :
      (xs : List A) (y : A) → Pairwise xs → All (λ x. same x y ≡ false) xs → Pairwise (xs ++ y ∷ [])
  Pairwise-append [] y p a = (tt, tt)
  Pairwise-append (x ∷ xs) y (q, p) (e, a) = (All-last x y xs q e, Pairwise-append xs y p a)

  pub Pairwise-delete : (p : A → Bool) (xs : List A) → Pairwise xs → Pairwise (delete_where p xs)
  Pairwise-delete p [] w = tt
  Pairwise-delete p (x ∷ xs) (q, w) = elim (Bool-cases (p x)) [
    | inl e ↦ rw e (Pairwise-delete p xs w)
    | inr e ↦ rw e (All-delete (λ y. same x y ≡ false) p xs q, Pairwise-delete p xs w)
  ]

  -- An update that leaves the key alone.
  pub Pairwise-update :
      (p : A → Bool) (f : A → A) (xs : List A)
      → ((x y : A) → same (f x) y ≡ same x y)
      → ((x y : A) → same x (f y) ≡ same x y)
      → Pairwise xs
      → Pairwise (update_where p f xs)
  Pairwise-update p f [] l r w = tt
  Pairwise-update p f (x ∷ xs) l r (q, w) =
      let rest = All-update (λ y. same x y ≡ false) p f xs (λ y h k. r x y ∙ k) q in
      elim (Bool-cases (p x)) [
        | inl e ↦ rw e (
          All-update (λ y. same (f x) y ≡ false) p f xs (λ y h k. r (f x) y ∙ k) (shift x xs q),
          Pairwise-update p f xs l r w,
        )
        | inr e ↦ rw e (rest, Pairwise-update p f xs l r w)
      ]
    where
      shift :
          (x : A) (ys : List A)
          → All (λ y. same x y ≡ false) ys
          → All (λ y. same (f x) y ≡ false) ys
      shift x [] a = tt
      shift x (y ∷ ys) (e, a) = (l x y ∙ e, shift x ys a)
