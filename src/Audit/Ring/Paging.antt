-- ===== src/Audit/Ring/Paging.antt =====
-- A page of the ring against the plain description of one: filter, skip, take.
use fluxlite.Common.{
  ℕ, zero, suc, ◌+◌, ◌-◌, ◌*◌, ◌≤◌, ◌<◌, ◌≡◌, refl, ◌∙◌, length, take, drop, Bool, false, ◌&&◌,
  List, [], ◌∷◌, ltb, leb, if◌then◌else◌, Bool-cases, inl, inr, arith,
}
use fluxlite.Common.Tables.{select_where}
use fluxlite.Common.{Text, not, ◌^◌}
use fluxlite.Common.Int.{ℤ, pos, negsuc, pos_part, ltb_ℤ, wrap_int64-small}
use fluxlite.Audit.Ring.{Filter, matches, Record, Ring, page_from, page}

-- The part of the matches that is still to come, from a state of the loop.
abbrev rest_of_page : ℕ → ℕ → ℕ → ℕ → List Record → List Record
rest_of_page start size taken total matching = take (size - taken) (drop (start - total) matching)

module _ (start size taken total : ℕ) where
  rest-hit :
      (r : Record) (ms : List Record)
      → start ≤ total
      → taken < size
      → r ∷ rest_of_page start size (suc taken) (suc total) ms
        ≡ rest_of_page start size taken total (r ∷ ms)
  rest-hit r ms h k =
      let e : size - taken ≡ suc (size - suc taken) = omega arith in
      let e1 : start - total ≡ 0 = omega arith in
      let e2 : start - suc total ≡ 0 = omega arith in rw (e, e1, e2) refl

  rest-before :
      (r : Record) (ms : List Record)
      → total < start
      → rest_of_page start size taken (suc total) ms ≡ rest_of_page start size taken total (r ∷ ms)
  rest-before r ms h = let e : start - total ≡ suc (start - suc total) = omega arith in rw e refl

  rest-full :
      (r : Record) (ms : List Record)
      → size ≤ taken
      → rest_of_page start size taken (suc total) ms ≡ rest_of_page start size taken total (r ∷ ms)
  rest-full r ms h = let e : size - taken ≡ 0 = omega arith in rw e refl

  rest-miss :
      (r : Record) (ms : List Record)
      → (leb start total && ltb taken size) ≡ false
      → rest_of_page start size taken (suc total) ms ≡ rest_of_page start size taken total (r ∷ ms)
  rest-miss r ms h = elim (Bool-cases (leb start total)) [
    | inl e ↦ rest-full r ms (ground arith)
    | inr e ↦ rest-before r ms (ground arith)
  ]

pair-cong :
    {xs ys : List Record} {m n : ℕ} → xs ≡ ys → m ≡ n → ◌≡◌ {A = List Record × ℕ} (xs, m) (ys, n)
pair-cong e e' = cc (e, e')

take_none : (n m : ℕ) → [] ≡ take {A = Record} n (drop m [])
take_none zero zero = refl
take_none zero (suc m) = refl
take_none (suc n) zero = refl
take_none (suc n) (suc m) = refl

not_below : (start total : ℕ) → not (ltb_ℤ (pos total) (pos start)) ≡ leb start total
not_below start total = ground arith

page_from_lem :
    (test : Record → Bool) (start size taken total : ℕ) (rs : List Record)
    → page_from test (pos start) size taken total rs ≡ (
      rest_of_page start size taken total (select_where test rs),
      total + length (select_where test rs),
    )
unfolding page_from
page_from_lem test start size taken total [] =
    pair-cong (take_none (size - taken) (start - total)) (omega arith)
page_from_lem test start size taken total (r ∷ rs) = elim (Bool-cases (test r)) [
  | inl e ↦
      let from_start = not_below start total in
      elim (Bool-cases (leb start total && ltb taken size)) [
        | inl e' ↦
            rw (e, from_start, e', page_from_lem test start size (suc taken) (suc total) rs)
              (pair-cong
                (rest-hit start size taken total r (select_where test rs) (ground arith)
                  (ground arith))
                (omega arith))
        | inr e' ↦
            rw (e, from_start, e', page_from_lem test start size taken (suc total) rs)
              (pair-cong (rest-miss start size taken total r (select_where test rs) e')
                (omega arith))
      ]
  | inr e ↦ rw (e, page_from_lem test start size taken total rs) refl
]

pages_before :
    (number : ℤ) (before : ℕ)
    → ((n : ℕ) → number ≡ pos n → before ≡ n - 1)
    → ((n : ℕ) → number ≡ negsuc n → before ≡ 0)
    → (if ltb_ℤ number (pos 1) then 0 else pos_part number - 1) ≡ before
pages_before (pos n) before above below = ground (arith, above n refl)
pages_before (negsuc n) before above below = ground (arith, below n refl)

-- A page is the records that the filter lets through, in the order of the ring, less those of the pages
-- before, and no more than its size; a number below 1 asks for the first page. The total is the number
-- of all the records that the filter lets through. The pages before hold less than 2 ^ 63 records: the
-- product of their number and the size does not wrap around.
pub page_slice :
    (lower : Text → Text) (ring : Ring) (number : ℤ) (before size : ℕ) (f : Filter)
    → ((n : ℕ) → number ≡ pos n → before ≡ n - 1)
    → ((n : ℕ) → number ≡ negsuc n → before ≡ 0)
    → before * size < 2 ^ 63
    → let matching = select_where (matches lower f) ring.records in
      page lower ring number size f ≡ (take size (drop (before * size) matching), length matching)
unfolding page
page_slice lower ring number before size f above below fits =
    let start = before * size in
    let matching = select_where (matches lower f) ring.records in
    let e : (if ltb_ℤ number (pos 1) then 0 else pos_part number - 1) ≡ before =
      pages_before number before above below in
    let e1 : size - 0 ≡ size = omega arith in
    let e2 : start - 0 ≡ start = omega arith in
    rw (e, wrap_int64-small start fits)
      (page_from_lem (matches lower f) start size 0 0 ring.records
        ∙ pair-cong (rw (e1, e2) refl) (omega arith))
