-- ===== src/Common/Tables.antt =====
-- Tables of the database as lists of rows: SELECT, UPDATE and DELETE with a WHERE clause.
use Prim.Native.Nat.{ℕ, suc}
use mathlib.Core.Path.{◌≡◌, refl, ap, subst}
use mathlib.Core.Bool.{Bool, true, false}
use mathlib.Core.Logic.{inl, inr}
use mathlib.Core.Option
use mathlib.Core.Option.{Option, none, some}
use mathlib.Core.List.{List, [], ◌∷◌}
use native.Mathlib.Omega.{arith}
use fluxlite.Common.Tests.{if◌then◌else◌, Bool-cases, is_some}
use fluxlite.Common.Lists.{All}

module _ {ℓ} {A : Type ℓ} where
  -- SELECT … WHERE p, the rows in order.
  abbrev pub select_where : (A → Bool) → List A → List A
  select_where p [] = []
  select_where p (x ∷ xs) = let rest = select_where p xs in if p x then x ∷ rest else rest

  -- The single row that a lookup by key scans, `none` for sql.ErrNoRows.
  abbrev pub find_where : (A → Bool) → List A → Option A
  find_where p [] = none
  find_where p (x ∷ xs) = let rest = find_where p xs in if p x then some x else rest

  -- UPDATE … SET f WHERE p
  abbrev pub update_where : (A → Bool) → (A → A) → List A → List A
  update_where p f [] = []
  update_where p f (x ∷ xs) = (if p x then f x else x) ∷ update_where p f xs

  -- DELETE … WHERE p
  abbrev pub delete_where : (A → Bool) → List A → List A
  delete_where p [] = []
  delete_where p (x ∷ xs) = let rest = delete_where p xs in if p x then rest else x ∷ rest

  -- SELECT COUNT(*) … WHERE p
  abbrev pub count_where : (A → Bool) → List A → ℕ
  count_where p [] = 0
  count_where p (x ∷ xs) = let rest = count_where p xs in if p x then suc rest else rest

  abbrev pub exists_where : (A → Bool) → List A → Bool
  exists_where p [] = false
  exists_where p (x ∷ xs) = let rest = exists_where p xs in if p x then true else rest

module _ {ℓ} {A : Type ℓ} where
  pub find-holds : (p : A → Bool) (xs : List A) {x : A} → find_where p xs ≡ some x → p x ≡ true
  find-holds p [] h = cc
  find-holds p (y ∷ xs) {x} h = elim (Bool-cases (p y)) [
    | inl e ↦ ground (arith)
    | inr e ↦ find-holds p xs (ground arith)
  ]

  pub find-All {κ} :
      (P : A → Type κ) (p : A → Bool) (xs : List A) {x : A}
      → All P xs
      → find_where p xs ≡ some x
      → P x
  find-All P p [] a h = cc
  find-All P p (y ∷ xs) {x} (q, a) h = elim (Bool-cases (p y)) [
    | inl e ↦ let same : some y ≡ some x = rw e at h in subst P (cc) q
    | inr e ↦ find-All P p xs a (ground arith)
  ]

  -- A row that the update leaves alone, and that no updated row becomes, is still the one found.
  pub find-update_other :
      (q p : A → Bool) (f : A → A) (xs : List A)
      → ((x : A) → p x ≡ true → (q x ≡ false) × (q (f x) ≡ false))
      → find_where q (update_where p f xs) ≡ find_where q xs
  find-update_other q p f [] h = refl
  find-update_other q p f (x ∷ xs) h = elim (Bool-cases (p x)) [
    | inl e ↦ rw (e, (h x e).0, (h x e).1) (find-update_other q p f xs h)
    | inr e ↦ rw (e, find-update_other q p f xs h)
  ]

  -- The row that the update's own key finds is the updated one.
  pub find-update_self :
      (p : A → Bool) (f : A → A) (xs : List A) {x : A}
      → ((y : A) → p y ≡ true → p (f y) ≡ true)
      → find_where p xs ≡ some x
      → find_where p (update_where p f xs) ≡ some (f x)
  find-update_self p f [] k h = cc
  find-update_self p f (y ∷ xs) {x} k h = elim (Bool-cases (p y)) [
    | inl e ↦ let same : some y ≡ some x = rw e at h in rw (e, k y e) (cc)
    | inr e ↦ rw (e, e) (find-update_self p f xs k (rw e at h))
  ]

  pub All-update {κ} :
      (P : A → Type κ) (p : A → Bool) (f : A → A) (xs : List A)
      → ((x : A) → p x ≡ true → P x → P (f x))
      → All P xs
      → All P (update_where p f xs)
  All-update P p f [] k a = tt
  All-update P p f (x ∷ xs) k (q, a) = elim (Bool-cases (p x)) [
    | inl e ↦ rw e (k x e q, All-update P p f xs k a)
    | inr e ↦ rw e (q, All-update P p f xs k a)
  ]

  pub All-delete {κ} :
      (P : A → Type κ) (p : A → Bool) (xs : List A) → All P xs → All P (delete_where p xs)
  All-delete P p [] a = tt
  All-delete P p (x ∷ xs) (q, a) = elim (Bool-cases (p x)) [
    | inl e ↦ rw e (All-delete P p xs a)
    | inr e ↦ rw e (q, All-delete P p xs a)
  ]

  -- No row that the condition selects is left.
  pub delete_gone : (p : A → Bool) (xs : List A) → All (λ x. p x ≡ false) (delete_where p xs)
  delete_gone p [] = tt
  delete_gone p (x ∷ xs) = elim (Bool-cases (p x)) [
    | inl e ↦ rw e (delete_gone p xs)
    | inr e ↦ rw e (e, delete_gone p xs)
  ]

  -- Rows outside the condition are kept, in order.
  pub select-delete :
      (q p : A → Bool) (xs : List A)
      → ((x : A) → q x ≡ true → p x ≡ false)
      → select_where q (delete_where p xs) ≡ select_where q xs
  select-delete q p [] h = refl
  select-delete q p (x ∷ xs) h = elim (Bool-cases (p x)) [
    | inl e ↦ elim (Bool-cases (q x)) [
      | inl e' ↦ cc (h x e')
      | inr e' ↦ rw (e, e') (select-delete q p xs h)
    ]
    | inr e ↦ rw e (ap (λ r. if q x then x ∷ r else r) (select-delete q p xs h))
  ]

  pub find-none_of_All :
      (p : A → Bool) (xs : List A) → All (λ x. p x ≡ false) xs → find_where p xs ≡ none
  find-none_of_All p [] a = refl
  find-none_of_All p (x ∷ xs) (e, a) = rw e (find-none_of_All p xs a)

  -- An update that does not touch what `q` reads.
  pub find-update :
      (q p : A → Bool) (f : A → A) (xs : List A)
      → ((x : A) → q (f x) ≡ q x)
      → find_where q (update_where p f xs)
        ≡ Option.map (λ x. if p x then f x else x) (find_where q xs)
  find-update q p f [] k = refl
  find-update q p f (x ∷ xs) k = elim (Bool-cases (p x)) [
    | inl e ↦ elim (Bool-cases (q x)) [
      | inl e' ↦ rw (e, k x, e') (rw (e))
      | inr e' ↦ rw (e, k x, e') (find-update q p f xs k)
    ]
    | inr e ↦ elim (Bool-cases (q x)) [
      | inl e' ↦ rw (e, e') (rw (e))
      | inr e' ↦ rw (e, e') (find-update q p f xs k)
    ]
  ]

  pub exists-find : (p : A → Bool) (xs : List A) → exists_where p xs ≡ is_some (find_where p xs)
  exists-find p [] = refl
  exists-find p (x ∷ xs) = elim (Bool-cases (p x)) [
    | inl e ↦ rw e
    | inr e ↦ rw e (exists-find p xs)
  ]
