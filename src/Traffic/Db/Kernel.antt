-- ===== src/Traffic/Db/Kernel.antt =====
-- The stored totals against the traffic that really flowed: a kernel counter that grows, restarts
-- from zero at any time, and is read now and then.
use fluxlite.Common.{
  ℕ, suc, ◌+◌, ◌-◌, ◌^◌, ◌≤◌, ◌<◌, ◌≡◌, refl, Bool, true, List, [], ◌∷◌, some, ltb, if◌then◌else◌,
  Bool-cases, inl, inr, arith,
}
use fluxlite.Common.Int.{pos, int64-small, pos-+ℤ}
use fluxlite.Common.Tables.{find_where, exists_where, exists-find, find-update_self}
use fluxlite.Traffic.Db.{TrafficRow, TrafficDb, counter_delta, at_hop, counted, record_traffic}

-- `flow` moves bytes through the counter, `restart` sets it to zero, and `poll` reads it.
pub data Tick : Type 0 where
  flow : ℕ → ℕ → Tick
  restart : Tick
  poll : ℕ → ℕ → Bool → Tick

pub record World : Type 0 where
  pub k_in : ℕ
  pub k_out : ℕ
  pub flowed_in : ℕ
  pub flowed_out : ℕ
  pub restarts : ℕ
  pub db : TrafficDb

-- What a reading of `k` adds to a baseline of `r`.
abbrev growth : ℕ → ℕ → ℕ
growth r k = if ltb k r then k else k - r

counter_delta-growth : (r k : ℕ) → k < 2 ^ 63 → counter_delta (some r) k ≡ pos (growth r k)
unfolding counter_delta
counter_delta-growth r k h = elim (Bool-cases (ltb k r)) [
  | inl e ↦ rw e (int64-small k h)
  | inr e ↦ rw e (int64-small (k - r) (omega arith))
]

-- The bytes that the ticks let through, an upper bound on what the counters can come to.
abbrev pub volume : List Tick → ℕ
volume [] = 0
volume (flow i o ∷ ticks) = i + o + volume ticks
volume (restart ∷ ticks) = volume ticks
volume (poll now day entry ∷ ticks) = volume ticks

module _ (route hop : ℕ) where
  pub tick : Tick → World → World
  tick (flow i o) w = record w {
    k_in = w.k_in + i;
    k_out = w.k_out + o;
    flowed_in = w.flowed_in + i;
    flowed_out = w.flowed_out + o;
  }
  tick restart w = record w { k_in = 0; k_out = 0; restarts = suc w.restarts }
  tick (poll now day entry) w = record w {
    db = record_traffic now route hop w.k_in w.k_out day entry w.db;
  }

  pub run : List Tick → World → World
  run [] w = w
  run (t ∷ ticks) w = run ticks (tick t w)

  -- The hop's row, with a baseline, and totals that count from a number of bytes.
  pub record Booked (base_in base_out : ℕ) (w : World) : Type 0 where
    pub row : TrafficRow
    pub found : find_where (at_hop route hop) w.db.traffic ≡ some row
    pub b_in : ℕ
    pub b_out : ℕ
    pub r_in : ℕ
    pub r_out : ℕ
    pub total_in : row.bytes_in ≡ pos b_in
    pub total_out : row.bytes_out ≡ pos b_out
    pub last_in : row.raw_in ≡ some r_in
    pub last_out : row.raw_out ≡ some r_out
    pub owed_in : b_in + growth r_in w.k_in ≤ base_in + w.flowed_in
    pub owed_out : b_out + growth r_out w.k_out ≤ base_out + w.flowed_out
    pub exact_in :
        w.restarts ≡ 0 → (r_in ≤ w.k_in) × (b_in + growth r_in w.k_in ≡ base_in + w.flowed_in)
    pub exact_out :
        w.restarts ≡ 0
        → (r_out ≤ w.k_out) × (b_out + growth r_out w.k_out ≡ base_out + w.flowed_out)

  poll_row :
      (now k_in k_out day : ℕ) (entry : Bool) (db : TrafficDb) {row : TrafficRow}
      → find_where (at_hop route hop) db.traffic ≡ some row
      → find_where (at_hop route hop) (record_traffic now route hop k_in k_out day entry db).traffic
        ≡ some (
            counted now
              (counter_delta row.raw_in k_in)
              (counter_delta row.raw_out k_out)
              k_in
              k_out
              row)
  unfolding record_traffic
  poll_row now k_in k_out day entry db {row} found =
      let known : exists_where (at_hop route hop) db.traffic ≡ true =
        rw (exists-find (at_hop route hop) db.traffic, found) refl in
      rw (known, found) (find-update_self (at_hop route hop) _ db.traffic (λ y e. e) found)

  poll-Booked :
      (now day : ℕ) (entry : Bool) (base_in base_out : ℕ) (w : World)
      → w.k_in < 2 ^ 63
      → w.k_out < 2 ^ 63
      → Booked base_in base_out w
      → Booked base_in base_out (tick (poll now day entry) w)
  unfolding tick
  poll-Booked now day entry base_in base_out w small_in small_out b =
      let d_in = counter_delta-growth b.r_in w.k_in small_in in
      let d_out = counter_delta-growth b.r_out w.k_out small_out in
      record {
        row =
            counted now (counter_delta b.row.raw_in w.k_in) (counter_delta b.row.raw_out w.k_out)
              w.k_in w.k_out b.row;
        found = poll_row now w.k_in w.k_out day entry w.db b.found;
        b_in = b.b_in + growth b.r_in w.k_in;
        b_out = b.b_out + growth b.r_out w.k_out;
        r_in = w.k_in;
        r_out = w.k_out;
        total_in = rw (b.total_in, b.last_in, d_in) (pos-+ℤ b.b_in (growth b.r_in w.k_in));
        total_out = rw (b.total_out, b.last_out, d_out) (pos-+ℤ b.b_out (growth b.r_out w.k_out));
        last_in = refl;
        last_out = refl;
        owed_in = ground (arith, b.owed_in);
        owed_out = ground (arith, b.owed_out);
        exact_in = λ z. let e = b.exact_in z in (omega arith, ground (arith, e));
        exact_out = λ z. let e = b.exact_out z in (omega arith, ground (arith, e));
      }

  tick-Booked :
      (t : Tick) (base_in base_out : ℕ) (w : World)
      → w.k_in < 2 ^ 63
      → w.k_out < 2 ^ 63
      → Booked base_in base_out w
      → Booked base_in base_out (tick t w)
  unfolding tick
  tick-Booked (flow i o) base_in base_out w small_in small_out b = record {
    row = b.row;
    found = b.found;
    b_in = b.b_in;
    b_out = b.b_out;
    r_in = b.r_in;
    r_out = b.r_out;
    total_in = b.total_in;
    total_out = b.total_out;
    last_in = b.last_in;
    last_out = b.last_out;
    owed_in = ground (arith, b.owed_in);
    owed_out = ground (arith, b.owed_out);
    exact_in = λ z. let e = b.exact_in z in (omega (arith, e), ground (arith, e));
    exact_out = λ z. let e = b.exact_out z in (omega (arith, e), ground (arith, e));
  }
  tick-Booked restart base_in base_out w small_in small_out b = record {
    row = b.row;
    found = b.found;
    b_in = b.b_in;
    b_out = b.b_out;
    r_in = b.r_in;
    r_out = b.r_out;
    total_in = b.total_in;
    total_out = b.total_out;
    last_in = b.last_in;
    last_out = b.last_out;
    owed_in = ground (arith, b.owed_in);
    owed_out = ground (arith, b.owed_out);
    exact_in = λ z. absurd (omega (arith, z));
    exact_out = λ z. absurd (omega (arith, z));
  }
  tick-Booked (poll now day entry) base_in base_out w small_in small_out b =
      poll-Booked now day entry base_in base_out w small_in small_out b

  tick-volume :
      (t : Tick) (ticks : List Tick) (w : World)
      → w.k_in + w.k_out + volume (t ∷ ticks) < 2 ^ 63
      → (tick t w).k_in + (tick t w).k_out + volume ticks < 2 ^ 63
  unfolding tick
  tick-volume (flow i o) ticks w h = omega arith
  tick-volume restart ticks w h = omega arith
  tick-volume (poll now day entry) ticks w h = h

  run-Booked :
      (ticks : List Tick) (base_in base_out : ℕ) (w : World)
      → w.k_in + w.k_out + volume ticks < 2 ^ 63
      → Booked base_in base_out w
      → Booked base_in base_out (run ticks w)
  unfolding run
  run-Booked [] base_in base_out w fits b = b
  run-Booked (t ∷ ticks) base_in base_out w fits b =
      run-Booked ticks base_in base_out (tick t w) (tick-volume t ticks w fits)
        (tick-Booked t base_in base_out w (omega arith) (omega arith) b)

  run-small :
      (ticks : List Tick) (w : World)
      → w.k_in + w.k_out + volume ticks < 2 ^ 63
      → ((run ticks w).k_in < 2 ^ 63) × ((run ticks w).k_out < 2 ^ 63)
  unfolding run
  run-small [] w fits = (omega arith, omega arith)
  run-small (t ∷ ticks) w fits = run-small ticks (tick t w) (tick-volume t ticks w fits)

  -- The totals of a row, as numbers.
  pub record Totals (w : World) (n_in n_out : ℕ) : Type 0 where
    pub row : TrafficRow
    pub found : find_where (at_hop route hop) w.db.traffic ≡ some row
    pub total_in : row.bytes_in ≡ pos n_in
    pub total_out : row.bytes_out ≡ pos n_out

  -- However often a counter is read, and whenever it restarts, the totals that a reading stores for
  -- a hop with a booked row never exceed what they were at the baseline and the bytes that flowed
  -- since; if the counter did not restart, they are exactly that. What the counters hold at the
  -- start and all that flows later stay below 2 ^ 63 together.
  pub Totals-sound :
      (ticks : List Tick) (base_in base_out : ℕ) (w : World) (now day : ℕ) (entry : Bool)
      → w.k_in + w.k_out + volume ticks < 2 ^ 63
      → Booked base_in base_out w
      → let end = run ticks w in
        (n_in : ℕ) × (n_out : ℕ) × Totals (tick (poll now day entry) end) n_in n_out
        × (n_in ≤ base_in + end.flowed_in)
        × (n_out ≤ base_out + end.flowed_out)
        × (end.restarts ≡ 0
            → (n_in ≡ base_in + end.flowed_in) × (n_out ≡ base_out + end.flowed_out))
  unfolding poll-Booked tick
  Totals-sound ticks base_in base_out w now day entry fits b =
      let z = run-Booked ticks base_in base_out w fits b in
      let (small_in, small_out) = run-small ticks w fits in
      let p = poll-Booked now day entry base_in base_out (run ticks w) small_in small_out z in
      (
        p.b_in,
        p.b_out,
        record { row = p.row; found = p.found; total_in = p.total_in; total_out = p.total_out },
        omega (arith, p.owed_in),
        omega (arith, p.owed_out),
        λ quiet. (ground (arith, z.exact_in quiet), ground (arith, z.exact_out quiet)),
      )
