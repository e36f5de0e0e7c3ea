-- ===== src/Common/Mapping.antt =====
-- Rows that are mapped, sorted and selected.
use mathlib.Core.Path.{◌≡◌, refl, ap}
use mathlib.Core.Logic.{inl, inr}
use mathlib.Core.Bool.{Bool, true, false}
use mathlib.Core.List.{List, [], ◌∷◌, map}
use fluxlite.Common.Tests.{if◌then◌else◌, Bool-cases}
use native.Mathlib.Omega.{arith}
use fluxlite.Common.Lists.{All}
use fluxlite.Common.Sorting.{insert_by, sort_by}
use fluxlite.Common.Tables.{select_where, update_where, delete_where, exists_where}

-- What an UPDATE does to one row.
abbrev pub touch : {A : Type 0} → (A → Bool) → (A → A) → A → A
touch q f h = if q h then f h else h

pub select_All :
    {A : Type 0} (p : A → Bool) (xs : List A) → All (λ x. p x ≡ true) (select_where p xs)
select_All p [] = tt
select_All p (x ∷ xs) = elim (Bool-cases (p x)) [
  | inl e ↦ rw e (e, select_All p xs)
  | inr e ↦ rw e (select_All p xs)
]

pub insert_by-All :
    {A : Type 0} (P : A → Type 0) (leq : A → A → Bool) (x : A) (xs : List A)
    → P x
    → All P xs
    → All P (insert_by leq x xs)
unfolding insert_by
insert_by-All P leq x [] p a = (p, tt)
insert_by-All P leq x (y ∷ ys) p (q, a) = elim (Bool-cases (leq x y)) [
  | inl e ↦ rw e (p, (q, a))
  | inr e ↦ rw e (q, insert_by-All P leq x ys p a)
]

pub sort_by-All :
    {A : Type 0} (P : A → Type 0) (leq : A → A → Bool) (xs : List A)
    → All P xs
    → All P (sort_by leq xs)
unfolding sort_by
sort_by-All P leq [] a = tt
sort_by-All P leq (x ∷ xs) (p, a) =
    insert_by-All P leq x (sort_by leq xs) p (sort_by-All P leq xs a)

pub select-touch :
    {A : Type 0} (p q : A → Bool) (f : A → A) (hs : List A)
    → ((h : A) → p (f h) ≡ p h)
    → select_where p (update_where q f hs) ≡ map (touch q f) (select_where p hs)
select-touch p q f [] k = refl
select-touch p q f (h ∷ hs) k = elim (Bool-cases (q h)) [
  | inl e ↦ elim (Bool-cases (p h)) [
    | inl e' ↦ rw (e, k h, e') (rw e (ap (λ t. f h ∷ t) (select-touch p q f hs k)))
    | inr e' ↦ rw (e, k h, e') (select-touch p q f hs k)
  ]
  | inr e ↦ elim (Bool-cases (p h)) [
    | inl e' ↦ rw (e, e') (rw e (ap (λ t. h ∷ t) (select-touch p q f hs k)))
    | inr e' ↦ rw (e, e') (select-touch p q f hs k)
  ]
]

pub map_agree :
    {A B : Type 0} (P : A → Type 0) (f g : A → B) (xs : List A)
    → ((x : A) → P x → f x ≡ g x)
    → All P xs
    → map f xs ≡ map g xs
map_agree P f g [] k a = refl
map_agree P f g (x ∷ xs) k (p, a) = λ i. k x p i ∷ map_agree P f g xs k a i

pub map_id :
    {A : Type 0} (P : A → Type 0) (f : A → A) (xs : List A)
    → ((x : A) → P x → f x ≡ x)
    → All P xs
    → map f xs ≡ xs
map_id P f [] k a = refl
map_id P f (x ∷ xs) k (p, a) = λ i. k x p i ∷ map_id P f xs k a i

pub map-update_where :
    {A B : Type 0} (g : A → B) (p : A → Bool) (f : A → A) (p' : B → Bool) (f' : B → B) (xs : List A)
    → ((x : A) → p' (g x) ≡ p x)
    → ((x : A) → g (f x) ≡ f' (g x))
    → map g (update_where p f xs) ≡ update_where p' f' (map g xs)
map-update_where g p f p' f' [] k l = refl
map-update_where g p f p' f' (x ∷ xs) k l = elim (Bool-cases (p x)) [
  | inl e ↦ rw (k x, e) (λ i. l x i ∷ map-update_where g p f p' f' xs k l i)
  | inr e ↦ rw (k x, e) (ap (λ t. g x ∷ t) (map-update_where g p f p' f' xs k l))
]

-- One map against another that the rows chosen by p pass through f.
pub map_apart :
    {A B : Type 0} (g g' : A → B) (p : A → Bool) (p' : B → Bool) (f' : B → B) (xs : List A)
    → ((x : A) → p' (g x) ≡ p x)
    → ((x : A) → p x ≡ true → g' x ≡ f' (g x))
    → ((x : A) → p x ≡ false → g' x ≡ g x)
    → map g' xs ≡ update_where p' f' (map g xs)
map_apart g g' p p' f' [] k l m = refl
map_apart g g' p p' f' (x ∷ xs) k l m = elim (Bool-cases (p x)) [
  | inl e ↦ rw (k x, e) (λ i. l x e i ∷ map_apart g g' p p' f' xs k l m i)
  | inr e ↦ rw (k x, e) (λ i. m x e i ∷ map_apart g g' p p' f' xs k l m i)
]

pub map-delete_where :
    {A B : Type 0} (g g' : A → B) (p : A → Bool) (p' : B → Bool) (xs : List A)
    → ((x : A) → p' (g x) ≡ p x)
    → ((x : A) → p x ≡ false → g' x ≡ g x)
    → map g' (delete_where p xs) ≡ delete_where p' (map g xs)
map-delete_where g g' p p' [] k m = refl
map-delete_where g g' p p' (x ∷ xs) k m = elim (Bool-cases (p x)) [
  | inl e ↦ rw (k x, e) (map-delete_where g g' p p' xs k m)
  | inr e ↦ rw (k x, e) (λ i. m x e i ∷ map-delete_where g g' p p' xs k m i)
]

pub exists-map :
    {A B : Type 0} (g : A → B) (p : A → Bool) (p' : B → Bool) (xs : List A)
    → ((x : A) → p' (g x) ≡ p x)
    → exists_where p' (map g xs) ≡ exists_where p xs
exists-map g p p' [] k = refl
exists-map g p p' (x ∷ xs) k = rw (k x, exists-map g p p' xs k) refl

pub delete_absent :
    {A : Type 0} (p : A → Bool) (xs : List A) → exists_where p xs ≡ false → delete_where p xs ≡ xs
delete_absent p [] h = refl
delete_absent p (x ∷ xs) h = elim (Bool-cases (p x)) [
  | inl e ↦ absurd (ground (arith))
  | inr e ↦ rw e (ap (λ t. x ∷ t) (delete_absent p xs (ground (arith))))
]
