-- ===== src/Audit/Ring/Bounds.antt =====
-- What every record that the ring takes in keeps: its size, its ids and its counts.
use fluxlite.Common.{
  ℕ, zero, suc, ◌+◌, ◌-◌, ◌∙◌, ◌≤◌, ◌<◌, ◌≡◌, ◌⊎◌, Text, refl, ap, subst, length, take, true, false,
  List, [], ◌∷◌, none, some, ◌==◌, if◌then◌else◌, Bool-cases, Option-cases, inl, inr, arith, All,
  All-take, All-map, length-take,
}
use fluxlite.Audit.Ring.{Record, Ring, capacity, merge_scan, repeats, folded, extract, add}

-- An id that is given, and a visit seen at least once.
unfoldable pub Given : ℕ → Record → Type 0
Given bound r = (r.id ≤ bound) × (1 ≤ r.id) × (1 ≤ r.count)

unfoldable pub Other : ℕ → Record → Type 0
Other id r = (r.id == id) ≡ false

-- The ids are different.
unfoldable pub Fresh : List Record → Type 0
Fresh [] = Unit
Fresh (r ∷ rs) = All (Other r.id) rs × Fresh rs

pub record Valid (ring : Ring) : Type 0 where
  pub bounded : length ring.records ≤ capacity
  pub given : All (Given ring.next_id) ring.records
  pub apart : Fresh ring.records

-- Some row of the list has this id, and stands for this visit.
pub Holds : ℕ → Text → Text → List Record → Type 0
Holds id node target [] = ⊥
Holds id node target (r ∷ rs) =
    ((r.id ≡ id) × (r.node ≡ node) × (r.target ≡ target)) ⊎ Holds id node target rs

-- The row was given its id before, for the visit that it stands for.
abbrev pub WasIn : List Record → Record → Type 0
WasIn rs r = Holds r.id r.node r.target rs

All-WasIn : (rs : List Record) → All (WasIn rs) rs
unfolding Holds
All-WasIn [] = tt
All-WasIn (r ∷ rs) = (inl (refl, refl, refl), All-map (λ o h. inr h) rs (All-WasIn rs))

pub total_count : List Record → ℕ
total_count [] = 0
total_count (r ∷ rs) = r.count + total_count rs

-- The rows that a scan took out and left are the rows it was given.
record Extracted (rec : Record) (rs : List Record) (old : Record) (rest : List Record)
    : Type 0 where
  hit : repeats rec old ≡ true
  size : suc (length rest) ≡ length rs
  count : old.count + total_count rest ≡ total_count rs
  given : (n : ℕ) → All (Given n) rs → Given n old × All (Given n) rest
  same : (q : List Record) → All (WasIn q) rs → WasIn q old × All (WasIn q) rest
  others : (id : ℕ) → All (Other id) rs → Other id old × All (Other id) rest
  apart : Fresh rs → All (Other old.id) rest × Fresh rest

Extracted-here :
    (rec r : Record) (rs : List Record) → repeats rec r ≡ true → Extracted rec (r ∷ rs) r rs
unfolding Fresh total_count
Extracted-here rec r rs e = record {
  hit = e;
  size = refl;
  count = refl;
  given = λ n a. a;
  same = λ q a. a;
  others = λ id a. a;
  apart = λ a. a;
}

Extracted-later :
    (rec r : Record) (rs : List Record) {old : Record} {rest : List Record}
    → Extracted rec rs old rest
    → Extracted rec (r ∷ rs) old (r ∷ rest)
unfolding Fresh total_count Other
Extracted-later rec r rs {old} {rest} x = record {
  hit = x.hit;
  size = ap suc x.size;
  count = omega (arith, x.count);
  given = λ n (g, a). let (h, b) = x.given n a in (h, (g, b));
  same = λ q (g, a). let (h, b) = x.same q a in (h, (g, b));
  others = λ id (g, a). let (h, b) = x.others id a in (h, (g, b));
  apart = λ (g, a).
      let (h, b) = x.others r.id g in
      let (h', b') = x.apart a in ((ground (arith, h), h'), (b, b'));
}

extract-Extracted :
    (k : ℕ) (rec : Record) (rs : List Record) {old : Record} {rest : List Record}
    → extract k rec rs ≡ some (old, rest)
    → Extracted rec rs old rest
unfolding extract
extract-Extracted zero rec rs h = cc
extract-Extracted (suc k) rec [] h = cc
extract-Extracted (suc k) rec (r ∷ rs) {old} {rest} h = elim (Bool-cases (repeats rec r)) [
  | inl e ↦
      let same : some (r, rs) ≡ some (old, rest) = rw e at h in
      subst {A = Record × List Record} (λ z. Extracted rec (r ∷ rs) z.0 z.1) (cc same)
        (Extracted-here rec r rs e)
  | inr e ↦ elim (Option-cases (extract k rec rs)) [
    | inl n ↦ let bad : none ≡ some (old, rest) = rw (e, n) at h in cc bad
    | inr ((found, left), s) ↦
        let same : some (found, r ∷ left) ≡ some (old, rest) = rw (e, s) at h in
        subst {A = Record × List Record} (λ z. Extracted rec (r ∷ rs) z.0 z.1) (cc same)
          (Extracted-later rec r rs (extract-Extracted k rec rs s))
  ]
]

All-fresh : (n : ℕ) (rs : List Record) → All (Given n) rs → All (Other (suc n)) rs
unfolding Given Other
All-fresh n rs = All-map (λ r g. ground (arith, g)) rs

All-older : (n : ℕ) (rs : List Record) → All (Given n) rs → All (Given (suc n)) rs
unfolding Given
All-older n rs = All-map (λ r (a, b, c). (omega (arith, a), b, c)) rs

Fresh-take : (n : ℕ) (rs : List Record) → Fresh rs → Fresh (take n rs)
unfolding Fresh
Fresh-take zero rs a = tt
Fresh-take (suc n) [] a = tt
Fresh-take (suc n) (r ∷ rs) (o, a) = (All-take (Other r.id) n rs o, Fresh-take n rs a)

total-take : (n : ℕ) (rs : List Record) → total_count (take n rs) ≤ total_count rs
unfolding total_count
total-take zero rs = omega arith
total-take (suc n) [] = omega arith
total-take (suc n) (r ∷ rs) = omega (arith, total-take n rs)

take-short : (n : ℕ) (rs : List Record) → length rs ≤ n → take n rs ≡ rs
take-short zero [] h = refl
take-short zero (r ∷ rs) h = absurd (omega arith)
take-short (suc n) [] h = refl
take-short (suc n) (r ∷ rs) h = ap (λ xs. r ∷ xs) (take-short n rs (omega arith))

-- The ring that `add` gives, for a record that is new and for one that repeats a visit.
fold-Valid :
    (ring : Ring) (rec old : Record) (rest : List Record)
    → Valid ring
    → Extracted rec ring.records old rest
    → Valid (record ring { records = folded rec old ∷ rest })
unfolding Given Fresh Other
fold-Valid ring rec old rest v x = record {
  bounded = omega (arith, x.size, v.bounded);
  given = let ((a, b, c), g) = x.given ring.next_id v.given in ((a, b, omega (arith, c)), g);
  apart = x.apart v.apart;
}

module _ (ring : Ring) (rec : Record) (v : Valid ring) where
  abbrev inserted : Record
  inserted = record rec { id = suc ring.next_id; count = if rec.count == 0 then 1 else rec.count }

  insert-Valid :
      Valid
        (record { records = take capacity (inserted ∷ ring.records); next_id = suc ring.next_id })
  unfolding Given Fresh
  insert-Valid = record {
    bounded = omega (arith, length-take capacity (inserted ∷ ring.records));
    given =
        All-take (Given (suc ring.next_id)) capacity (inserted ∷ ring.records)
          ((omega arith, omega arith, ground arith), All-older ring.next_id ring.records v.given);
    apart =
        Fresh-take capacity (inserted ∷ ring.records)
          (All-fresh ring.next_id ring.records v.given, v.apart);
  }

  insert_count :
      rec.count ≤ 1
      → length ring.records < capacity
      → total_count (take capacity (inserted ∷ ring.records)) ≡ suc (total_count ring.records)
  unfolding total_count
  insert_count small room =
      ap total_count (take-short capacity (inserted ∷ ring.records) (omega arith)) ∙ ground arith

  insert_total :
      total_count (take capacity (inserted ∷ ring.records))
      ≤ total_count ring.records + suc (rec.count - 1)
  unfolding total_count
  insert_total =
      let h = total-take capacity (inserted ∷ ring.records) in
      let g : (if rec.count == 0 then 1 else rec.count) ≡ suc (rec.count - 1) = ground arith in
      omega (arith, h, g)

  insert_new_id :
      All
        (λ r. r.id ≤ ring.next_id → WasIn ring.records r)
        (take capacity (inserted ∷ ring.records))
  insert_new_id =
      All-take (λ r. r.id ≤ ring.next_id → WasIn ring.records r) capacity (inserted ∷ ring.records)
        ((λ k. absurd (omega arith)), All-map (λ r w k. w) ring.records (All-WasIn ring.records))

  fold_count :
      {old : Record} {rest : List Record}
      → Extracted rec ring.records old rest
      → total_count (folded rec old ∷ rest) ≡ suc (total_count ring.records)
  unfolding total_count
  fold_count x = omega (arith, x.count)

  -- A ring of at most 1000 records whose ids are different, at least 1 and at most the last id given,
  -- and whose counts are at least 1, is still one after any record is added. If the record counts at
  -- most one visit and the ring is not full, the sum of the counts grows by exactly 1; whatever it
  -- counts and however full the ring is, the sum grows by no more than that count, or 1 if that is
  -- more. An id given before is not given to another visit: the last id given does not go down, and
  -- every row of the new ring that has one of the ids given before has the id, the node and the target
  -- of a row that was there.
  pub add_sound :
      Valid (add ring rec)
      × (rec.count ≤ 1
          → length ring.records < capacity
          → total_count (add ring rec).records ≡ suc (total_count ring.records))
      × (total_count (add ring rec).records ≤ total_count ring.records + suc (rec.count - 1))
      × (ring.next_id ≤ (add ring rec).next_id)
      × All (λ r. r.id ≤ ring.next_id → WasIn ring.records r) (add ring rec).records
  unfolding add extract total_count
  add_sound = elim (Option-cases (extract merge_scan rec ring.records)) [
    | inl n ↦ rw n (
      insert-Valid,
      λ small room. insert_count small room,
      insert_total,
      omega arith,
      insert_new_id,
    )
    | inr ((old, rest), s) ↦
        let x = extract-Extracted merge_scan rec ring.records s in
        rw s (
          fold-Valid ring rec old rest v x,
          λ small room. fold_count x,
          omega (arith, fold_count x),
          omega arith,
          let (h, b) = x.same ring.records (All-WasIn ring.records) in
              ((λ k. h), All-map (λ r w k. w) rest b),
        )
  ]
