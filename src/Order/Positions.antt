-- ===== src/Order/Positions.antt =====
-- What a reordering leaves in the table.
use fluxlite.Common.{
  ℕ, suc, ◌+◌, ◌≤◌, ◌≡◌, refl, subst, ap, ◌∙◌, ◌⊎◌, ◌≢◌, inl, inr, Bool, true, false, not, ◌||◌,
  List, [], ◌∷◌, map, some, Option-cases, Bool-cases, length, get_elem?, ◌==◌, if◌then◌else◌, ok,
  arith, All,
}
use fluxlite.Common.Tables.{update_where, exists_where}
use fluxlite.Order.{Row, Seen, mark, check_ids, all_seen, save, reorder}

pub Distinct : List ℕ → Type 0
Distinct [] = Unit
Distinct (i ∷ ids) = All (λ j. (j == i) ≡ false) ids × Distinct ids

abbrev is_listed : ℕ → List ℕ → Bool
is_listed j ids = exists_where (λ i. j == i) ids

record Checked (seen seen' : Seen) (ids : List ℕ) : Type 0 where
  distinct : Distinct ids
  fresh : All (λ i. seen i ≡ false) ids
  positive : All (λ i. 1 ≤ i) ids
  listed : (j : ℕ) → seen' j ≡ true → (seen j || is_listed j ids) ≡ true

apart_of :
    (i : ℕ) (seen : Seen) (ids : List ℕ)
    → All (λ j. mark i seen j ≡ false) ids
    → All (λ j. (j == i) ≡ false) ids × All (λ j. seen j ≡ false) ids
apart_of i seen [] a = (tt, tt)
apart_of i seen (j ∷ ids) (e, a) =
    let (b, c) = apart_of i seen ids a in ((ground (arith, e), b), (ground (arith, e), c))

check_ids-Checked :
    (seen : Seen) (ids : List ℕ) {seen' : Seen}
    → check_ids seen ids ≡ some seen'
    → Checked seen seen' ids
unfolding check_ids Distinct
check_ids-Checked seen [] {seen'} h = record {
  distinct = tt;
  fresh = tt;
  positive = tt;
  listed = λ j e. let same : seen ≡ seen' = cc in ground (arith, ap (λ (f : Seen). f j) same, e);
}
check_ids-Checked seen (i ∷ ids) {seen'} h =
    let here : (i == 0 || seen i) ≡ false = ground (arith) in
    let rest : check_ids (mark i seen) ids ≡ some seen' = rw here at h in
    let x = check_ids-Checked (mark i seen) ids rest in
    let (apart, fresh) = apart_of i seen ids x.fresh in
    record {
      distinct = (apart, x.distinct);
      fresh = (ground arith, fresh);
      positive = (ground arith, x.positive);
      listed = λ j e. ground (arith, x.listed j e);
    }

-- What all the UPDATE statements do to one row.
place : ℕ → List ℕ → Row → Row
place position [] r = r
place position (id ∷ ids) r =
    place (suc position) ids (if r.id == id then record r { sort_order = position } else r)

map-update :
    (i position : ℕ) (f : Row → Row) (rows : List Row)
    → map f (update_where (λ r. r.id == i) (λ r. record r { sort_order = position }) rows)
      ≡ map (λ r. f (if r.id == i then record r { sort_order = position } else r)) rows
map-update i position f [] = refl
map-update i position f (r ∷ rows) =
    ap (λ rest. f (if r.id == i then record r { sort_order = position } else r) ∷ rest)
      (map-update i position f rows)

map_same : (rows : List Row) → rows ≡ map (λ r. r) rows
map_same [] = refl
map_same (r ∷ rows) = ap (λ rest. r ∷ rest) (map_same rows)

save_lem :
    (position : ℕ) (ids : List ℕ) (rows : List Row)
    → save position ids rows ≡ map (place position ids) rows
unfolding save place
save_lem position [] rows = map_same rows
save_lem position (i ∷ ids) rows =
    save_lem (suc position) ids
      (update_where (λ r. r.id == i) (λ r. record r { sort_order = position }) rows)
    ∙ map-update i position (place (suc position) ids) rows

place_absent :
    (position : ℕ) (ids : List ℕ) (r : Row)
    → All (λ j. (j == r.id) ≡ false) ids
    → place position ids r ≡ r
unfolding place
place_absent position [] r a = refl
place_absent position (i ∷ ids) r (e, a) =
    let other : (r.id == i) ≡ false = ground (arith, e) in
    rw other (place_absent (suc position) ids r a)

record Put (ids : List ℕ) (position : ℕ) (r r' : Row) : Type 0 where
  index : ℕ
  listed : get_elem? ids index ≡ some r.id
  moved : r'.sort_order ≡ position + index
  same_id : r'.id ≡ r.id

place-Put :
    (position : ℕ) (ids : List ℕ) (r : Row)
    → Distinct ids
    → is_listed r.id ids ≡ true
    → Put ids position r (place position ids r)
unfolding place Distinct
place-Put position [] r d h = cc h
place-Put position (i ∷ ids) r (a, d) h = elim (Bool-cases (r.id == i)) [
  | inl e ↦
      let same : i ≡ r.id = ground arith in
      let moved : Row = record r { sort_order = position } in
      let absent =
        place_absent (suc position) ids moved
          (subst (λ k. All (λ j. (j == k) ≡ false) ids) same a) in
      rw (e, absent)
        (record { index = 0; listed = ap some same; moved = omega arith; same_id = refl })
  | inr e ↦ rw e (
      let x = place-Put (suc position) ids r d (ground (arith)) in
      record {
        index = suc x.index;
        listed = x.listed;
        moved = omega (arith, x.moved);
        same_id = x.same_id;
      })
]

-- A row stands at the position that its id has in the list.
pub IsAt : List ℕ → Row → Type 0
IsAt ids r = get_elem? ids r.sort_order ≡ some r.id

placed :
    (ids : List ℕ) (seen : Seen) (rows : List Row)
    → Distinct ids
    → ((j : ℕ) → seen j ≡ true → is_listed j ids ≡ true)
    → all_seen seen rows ≡ true
    → All (IsAt ids) (map (place 0 ids) rows)
unfolding IsAt
placed ids seen [] d k h = tt
placed ids seen (r ∷ rows) d k h =
    let x = place-Put 0 ids r d (k r.id (ground arith)) in
    let same : (place 0 ids r).sort_order ≡ x.index = x.moved ∙ omega arith in
    (rw (same, x.same_id) x.listed, placed ids seen rows d k (ground arith))

ids_kept : (position : ℕ) (ids : List ℕ) (r : Row) → (place position ids r).id ≡ r.id
unfolding place
ids_kept position [] r = refl
ids_kept position (i ∷ ids) r = elim (Bool-cases (r.id == i)) [
  | inl e ↦ rw (e, place) (ids_kept (suc position) ids (record r { sort_order = position }))
  | inr e ↦ rw (e, place) (ids_kept (suc position) ids r)
]

pub row_ids : List Row → List ℕ
row_ids rows = map (λ r. r.id) rows

rows_kept : (ids : List ℕ) (rows : List Row) → row_ids (map (place 0 ids) rows) ≡ row_ids rows
unfolding row_ids
rows_kept ids [] = refl
rows_kept ids (r ∷ rows) = λ i. ids_kept 0 ids r i ∷ rows_kept ids rows i

-- What an accepted list leaves: the same rows, each at its position, of a list that names no id twice,
-- no id below 1, and as many ids as there are rows.
pub record Reordered (ids : List ℕ) (rows rows' : List Row) : Type 0 where
  pub same_rows : row_ids rows' ≡ row_ids rows
  pub at : All (IsAt ids) rows'
  pub no_repeat : Distinct ids
  pub positive : All (λ i. 1 ≤ i) ids
  pub complete : length rows ≡ length ids

-- A reordering fails and leaves the table as it was, or it was given exactly as many ids as the table has
-- rows, all different and positive, and leaves the same rows, each with the position of its id in the
-- list.
pub reorder-Reordered :
    (ids : List ℕ) (rows : List Row)
    → ((reorder ids rows).0 ≡ ok tt × Reordered ids rows (reorder ids rows).1)
      ⊎ (((reorder ids rows).0 ≢ ok tt) × ((reorder ids rows).1 ≡ rows))
unfolding reorder
reorder-Reordered ids rows = elim (Option-cases (check_ids (λ i. false) ids)) [
  | inl n ↦ inr (rw n (ground arith, refl))
  | inr (seen, s) ↦
      elim (Bool-cases (not (all_seen seen rows) || not (length rows == length ids))) [
        | inl bad ↦ inr (rw (s, bad) (ground arith, refl))
        | inr good ↦
            let x = check_ids-Checked (λ i. false) ids s in
            inl (
              rw (s, good)
                (
                  refl,
                  rw (save_lem 0 ids rows) (record {
                    same_rows = rows_kept ids rows;
                    at = placed ids seen rows x.distinct x.listed (ground (arith, good));
                    no_repeat = x.distinct;
                    positive = x.positive;
                    complete = ground (arith, good);
                  }),
                ))
      ]
]
