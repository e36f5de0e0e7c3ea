-- ===== src/Traffic/Db/Daily.antt =====
-- The daily totals of a route, and what a billing period adds up to.
use fluxlite.Common.{
  ℕ, ◌+◌, ◌^◌, ◌≤◌, ◌<◌, ◌≡◌, some, ltb, refl, sym, ap, subst, ◌∙◌, Bool, true, false, ◌&&◌, ◌||◌,
  List, [], ◌∷◌, ◌++◌, leb, ◌==◌, if◌then◌else◌, Bool-cases, inl, inr, arith, All, All-append,
}
use fluxlite.Common.Int.{
  ℤ, pos, negsuc, ltb_ℤ, ◌+ℤ◌, pos-+ℤ, wrap_int64, wrap_int64-small, wrap_int64-pos,
}
use fluxlite.Common.Tables.{
  find_where, select_where, update_where, count_where, exists_where, All-update,
}
use fluxlite.Traffic.Db.{
  DailyRow, TrafficDb, counter_delta, at_hop, on_day, added, upsert_daily, baseline_in,
  baseline_out, record_traffic, in_period, sum_in, sum_out, sql_sum, usage_of_sums, period_usage,
}

-- Totals that are not negative.
pub record Counted (r : DailyRow) : Type 0 where
  pub n_in : ℕ
  pub n_out : ℕ
  pub is_in : r.bytes_in ≡ pos n_in
  pub is_out : r.bytes_out ≡ pos n_out

-- One row for each route and day, as the table's key has it.
abbrev pub Keyed : List DailyRow → Type 0
Keyed [] = Unit
Keyed (r ∷ rows) = All (λ o. on_day r.route_id r.day o ≡ false) rows × Keyed rows

abbrev value : ℤ → ℕ
value (pos n) = n
value (negsuc n) = 0

abbrev v_in : DailyRow → ℕ
v_in r = value r.bytes_in

abbrev v_out : DailyRow → ℕ
v_out r = value r.bytes_out

abbrev both : DailyRow → ℕ
both r = v_in r + v_out r

-- The bytes of the rows that a test selects, as a number.
abbrev total : (DailyRow → ℕ) → (DailyRow → Bool) → List DailyRow → ℕ
total v p [] = 0
total v p (r ∷ rows) = (if p r then v r else 0) + total v p rows

sum_in_lem :
    (p : DailyRow → Bool) (rows : List DailyRow)
    → All Counted rows
    → sum_in (select_where p rows) ≡ pos (total v_in p rows)
unfolding sum_in
sum_in_lem p [] a = refl
sum_in_lem p (r ∷ rows) (c, a) = elim (Bool-cases (p r)) [
  | inl e ↦ rw (e, c.is_in, sum_in_lem p rows a) (pos-+ℤ c.n_in (total v_in p rows))
  | inr e ↦ rw e (sum_in_lem p rows a ∙ ap pos (omega arith))
]

sum_out_lem :
    (p : DailyRow → Bool) (rows : List DailyRow)
    → All Counted rows
    → sum_out (select_where p rows) ≡ pos (total v_out p rows)
unfolding sum_out
sum_out_lem p [] a = refl
sum_out_lem p (r ∷ rows) (c, a) = elim (Bool-cases (p r)) [
  | inl e ↦ rw (e, c.is_out, sum_out_lem p rows a) (pos-+ℤ c.n_out (total v_out p rows))
  | inr e ↦ rw e (sum_out_lem p rows a ∙ ap pos (omega arith))
]

total-both :
    (p : DailyRow → Bool) (rows : List DailyRow)
    → total v_in p rows + total v_out p rows ≡ total both p rows
total-both p [] = refl
total-both p (r ∷ rows) = elim (Bool-cases (p r)) [
  | inl e ↦ rw e (omega (arith, total-both p rows))
  | inr e ↦ rw e (omega (arith, total-both p rows))
]

abbrev spent : ℕ → ℕ → TrafficDb → ℕ
spent j since db = total both (in_period j since) db.daily

module _ (j since : ℕ) (db : TrafficDb) (a : All Counted db.daily) where
  abbrev measured : Bool
  measured = ltb 0 (count_where (in_period j since) db.daily)

  usage_sums :
      period_usage j since db
      ≡ usage_of_sums measured
          (sql_sum (pos (total v_in (in_period j since) db.daily)))
          (sql_sum (pos (total v_out (in_period j since) db.daily)))
  unfolding period_usage
  usage_sums =
      rw (sum_in_lem (in_period j since) db.daily a, sum_out_lem (in_period j since) db.daily a)
        refl

  -- A usage that fits is the number of the bytes.
  usage_lem :
      spent j since db < 2 ^ 63 → period_usage j since db ≡ some (pos (spent j since db), measured)
  usage_lem h =
      let sum = total-both (in_period j since) db.daily in
      let i = total v_in (in_period j since) db.daily in
      let o = total v_out (in_period j since) db.daily in
      let i_fits : ltb i (2 ^ 63) ≡ true = ground (arith, sum, h) in
      let o_fits : ltb o (2 ^ 63) ≡ true = ground (arith, sum, h) in
      usage_sums ∙ rw (i_fits, o_fits, pos-+ℤ i o, sum, wrap_int64-small (spent j since db) h) refl

  -- A usage that is read, and is not negative, is the number of the bytes.
  usage_read : (n : ℕ) (m : Bool) → period_usage j since db ≡ some (pos n, m) → spent j since db ≡ n
  usage_read n m h =
      let sum = total-both (in_period j since) db.daily in
      let i = total v_in (in_period j since) db.daily in
      let o = total v_out (in_period j since) db.daily in
      let k = sym usage_sums ∙ h in
      elim (Bool-cases (ltb i (2 ^ 63))) [
        | inr e ↦ cc (rw e at k)
        | inl e ↦ elim (Bool-cases (ltb o (2 ^ 63))) [
          | inr e' ↦ cc (rw (e, e') at k)
          | inl e' ↦
              let small : i + o < 2 ^ 64 = ground (arith, e, e') in
              let same : some (wrap_int64 (pos i +ℤ pos o), measured) ≡ some (pos n, m) =
                rw (e, e') at k in
              let wrapped : wrap_int64 (pos (i + o)) ≡ pos n =
                ap wrap_int64 (sym (pos-+ℤ i o)) ∙ cc same in
              sym sum ∙ wrap_int64-pos (i + o) n small wrapped
        ]
      ]

module _ (route day a b : ℕ) where
  abbrev more : DailyRow → DailyRow
  more = added (pos a) (pos b)

  more-Counted : (r : DailyRow) → Counted r → Counted (more r)
  more-Counted r c = record {
    n_in = c.n_in + a;
    n_out = c.n_out + b;
    is_in = rw c.is_in (pos-+ℤ c.n_in a);
    is_out = rw c.is_out (pos-+ℤ c.n_out b);
  }

  both-more : (r : DailyRow) → Counted r → both (more r) ≡ both r + (a + b)
  both-more r c = rw (c.is_in, c.is_out, pos-+ℤ c.n_in a, pos-+ℤ c.n_out b) (omega arith)

  -- What the day adds to the usage of a route in a period.
  abbrev share : ℕ → ℕ → ℕ
  share j since = if route == j && leb since day then a + b else 0

  update_none :
      (rows : List DailyRow)
      → All (λ o. on_day route day o ≡ false) rows
      → update_where (on_day route day) more rows ≡ rows
  update_none [] h = refl
  update_none (r ∷ rows) (e, h) = rw (e, update_none rows h) refl

  hit :
      (j since : ℕ) (r : DailyRow)
      → Counted r
      → on_day route day r ≡ true
      → (if in_period j since (more r) then both (more r) else 0)
        ≡ (if in_period j since r then both r else 0) + share j since
  hit j since r c e =
      let same : r.route_id ≡ route = ground arith in
      let same_day : r.day ≡ day = ground arith in
      elim (Bool-cases (in_period j since r)) [
        | inl p ↦
            let q : (route == j && leb since day) ≡ true = ground arith in rw (p, q) (both-more r c)
        | inr p ↦
            let q : (route == j && leb since day) ≡ false = ground arith in rw (p, q) (omega arith)
      ]

  total-update :
      (j since : ℕ) (rows : List DailyRow)
      → All Counted rows
      → Keyed rows
      → exists_where (on_day route day) rows ≡ true
      → total both (in_period j since) (update_where (on_day route day) more rows)
        ≡ total both (in_period j since) rows + share j since
  total-update j since [] c k h = cc h
  total-update j since (r ∷ rows) (c, cs) (k, ks) h = elim (Bool-cases (on_day route day r)) [
    | inl e ↦
        let same : r.route_id ≡ route = ground arith in
        let same_day : r.day ≡ day = ground arith in
        let apart : All (λ o. on_day route day o ≡ false) rows =
          subst (λ n. All (λ o. on_day n day o ≡ false) rows) same
            (subst (λ n. All (λ o. on_day r.route_id n o ≡ false) rows) same_day k) in
        let one = hit j since r c e in rw (e, update_none rows apart) (omega (arith, one))
    | inr e ↦ rw e (let ih = total-update j since rows cs ks (ground arith) in omega (arith, ih))
  ]

  total-append :
      (j since : ℕ) (rows : List DailyRow)
      → let row : DailyRow = record {
        route_id = route;
        day = day;
        bytes_in = pos a;
        bytes_out = pos b;
      } in
        total both (in_period j since) (rows ++ row ∷ [])
        ≡ total both (in_period j since) rows + share j since
  total-append j since [] = ground arith
  total-append j since (r ∷ rows) = let ih = total-append j since rows in omega (arith, ih)

  upsert_total :
      (j since : ℕ) (rows : List DailyRow)
      → All Counted rows
      → Keyed rows
      → total both (in_period j since) (upsert_daily route day (pos a) (pos b) rows)
        ≡ total both (in_period j since) rows + share j since
  unfolding upsert_daily
  upsert_total j since rows c k = elim (Bool-cases (exists_where (on_day route day) rows)) [
    | inl e ↦ rw e (total-update j since rows c k e)
    | inr e ↦ rw e (total-append j since rows)
  ]

  upsert-Counted :
      (rows : List DailyRow)
      → All Counted rows
      → All Counted (upsert_daily route day (pos a) (pos b) rows)
  unfolding upsert_daily
  upsert-Counted rows c = elim (Bool-cases (exists_where (on_day route day) rows)) [
    | inl e ↦ rw e (All-update Counted (on_day route day) more rows (λ r t x. more-Counted r x) c)
    | inr e ↦ rw e (
        All-append Counted rows _ c
          (record { n_in = a; n_out = b; is_in = refl; is_out = refl }, tt))
  ]

-- A reading of an entry hop that finds `a` bytes in and `b` bytes out, not both none, adds exactly a + b to
-- the usage of its own route in every period that contains the day, and nothing to the usage of another
-- route or of a period that starts after the day. The usage is read without an error before, and with
-- what is added it stays below 2 ^ 63; it is then read without an error again. The daily totals are not
-- negative, with one row for each route and day.
pub usage_recorded :
    (now route hop raw_in raw_out day j since a b n : ℕ) (m : Bool) (db : TrafficDb)
    → let prev = find_where (at_hop route hop) db.traffic in
      let more = if route == j && leb since day then a + b else 0 in
      counter_delta (baseline_in prev) raw_in ≡ pos a
      → counter_delta (baseline_out prev) raw_out ≡ pos b
      → 1 ≤ a + b
      → All Counted db.daily
      → Keyed db.daily
      → period_usage j since db ≡ some (pos n, m)
      → n + more < 2 ^ 63
      → (m' : Bool) × (period_usage j since
            (record_traffic now route hop raw_in raw_out day true db)
          ≡ some (pos (n + more), m'))
unfolding record_traffic
usage_recorded now route hop raw_in raw_out day j since a b n m db d_in d_out some_bytes c k before
      fits =
    let moved : (ltb_ℤ (pos 0) (pos a) || ltb_ℤ (pos 0) (pos b)) ≡ true = ground arith in
    let after = record_traffic now route hop raw_in raw_out day true db in
    let daily : after.daily ≡ upsert_daily route day (pos a) (pos b) db.daily =
      rw (d_in, d_out, moved) refl in
    let counted : All Counted after.daily =
      subst (All Counted) (sym daily) (upsert-Counted route day a b db.daily c) in
    let total_now : spent j since after ≡ n + share route day a b j since =
      ap (total both (in_period j since)) daily
      ∙ upsert_total route day a b j since db.daily c k
      ∙ ap (λ t. t + share route day a b j since) (usage_read j since db c n m before) in
    (
      measured j since after counted,
      usage_lem j since after counted (rw total_now fits)
          ∙ ap (λ t. some (pos t, measured j since after counted)) total_now,
    )
