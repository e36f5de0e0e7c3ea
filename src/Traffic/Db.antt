-- ===== src/Traffic/Db.antt =====
-- internal/store/traffic.go: the running totals of each hop, the daily totals of each route, and the
-- quota marks. A day is the number yyyymmdd of its text, which sorts as the text does.
pub mod Kernel
pub mod Daily
use fluxlite.Common.{
  ℕ, zero, suc, ◌+◌, ◌-◌, Bool, true, false, not, ◌&&◌, ◌||◌, List, [], ◌∷◌, ◌++◌, Option, none,
  some, ltb, leb, ◌==◌, if◌then◌else◌,
}
use fluxlite.Common.Int.{ℤ, pos, ltb_ℤ, int64, is_int64, wrap_int64, ◌+ℤ◌}
use fluxlite.Common.Tables.{find_where, select_where, update_where, count_where, exists_where}

-- A row of route_traffic.
pub record TrafficRow : Type 0 where
  pub route_id : ℕ
  pub hop_order : ℕ
  pub bytes_in : ℤ
  pub bytes_out : ℤ
  pub raw_in : Option ℕ
  pub raw_out : Option ℕ
  pub updated_at : ℕ

-- A row of route_traffic_daily.
pub record DailyRow : Type 0 where
  pub route_id : ℕ
  pub day : ℕ
  pub bytes_in : ℤ
  pub bytes_out : ℤ

pub record TrafficDb : Type 0 where
  pub traffic : List TrafficRow
  pub daily : List DailyRow

-- `counterDelta`: readings are uint64, and a stored one is the same 64 bits read as an int64.
unfoldable pub counter_delta : Option ℕ → ℕ → ℤ
counter_delta none now = pos 0
counter_delta (some prev) now = if ltb now prev then int64 now else int64 (now - prev)

abbrev pub at_hop : ℕ → ℕ → TrafficRow → Bool
at_hop route hop r = r.route_id == route && r.hop_order == hop

abbrev pub on_day : ℕ → ℕ → DailyRow → Bool
on_day route day r = r.route_id == route && r.day == day

abbrev pub baseline_in : Option TrafficRow → Option ℕ
baseline_in none = none
baseline_in (some r) = r.raw_in

abbrev pub baseline_out : Option TrafficRow → Option ℕ
baseline_out none = none
baseline_out (some r) = r.raw_out

abbrev pub counted : ℕ → ℤ → ℤ → ℕ → ℕ → TrafficRow → TrafficRow
counted now d_in d_out raw_in raw_out r = record r {
  bytes_in = r.bytes_in +ℤ d_in;
  bytes_out = r.bytes_out +ℤ d_out;
  raw_in = some raw_in;
  raw_out = some raw_out;
  updated_at = now;
}

abbrev pub fresh_row : ℕ → ℕ → ℕ → ℤ → ℤ → ℕ → ℕ → TrafficRow
fresh_row now route hop d_in d_out raw_in raw_out = record {
  route_id = route;
  hop_order = hop;
  bytes_in = d_in;
  bytes_out = d_out;
  raw_in = some raw_in;
  raw_out = some raw_out;
  updated_at = now;
}

-- INSERT INTO route_traffic … ON CONFLICT(route_id, hop_order) DO UPDATE
abbrev upsert_traffic : ℕ → ℕ → ℕ → ℤ → ℤ → ℕ → ℕ → List TrafficRow → List TrafficRow
upsert_traffic now route hop d_in d_out raw_in raw_out rows =
    if exists_where (at_hop route hop) rows
    then update_where (at_hop route hop) (counted now d_in d_out raw_in raw_out) rows
    else rows ++ fresh_row now route hop d_in d_out raw_in raw_out ∷ []

abbrev pub added : ℤ → ℤ → DailyRow → DailyRow
added d_in d_out r = record r { bytes_in = r.bytes_in +ℤ d_in; bytes_out = r.bytes_out +ℤ d_out }

-- INSERT INTO route_traffic_daily … ON CONFLICT(route_id, day) DO UPDATE
unfoldable pub upsert_daily : ℕ → ℕ → ℤ → ℤ → List DailyRow → List DailyRow
upsert_daily route day d_in d_out rows =
    if exists_where (on_day route day) rows
    then update_where (on_day route day) (added d_in d_out) rows
    else rows ++ record { route_id = route; day = day; bytes_in = d_in; bytes_out = d_out } ∷ []

-- `RecordTraffic`
unfoldable pub record_traffic : ℕ → ℕ → ℕ → ℕ → ℕ → ℕ → Bool → TrafficDb → TrafficDb
unfolding counter_delta
record_traffic now route hop raw_in raw_out day is_entry db =
    let prev = find_where (at_hop route hop) db.traffic in
    let d_in = counter_delta (baseline_in prev) raw_in in
    let d_out = counter_delta (baseline_out prev) raw_out in
    record {
      traffic = upsert_traffic now route hop d_in d_out raw_in raw_out db.traffic;
      daily =
          if is_entry && (ltb_ℤ (pos 0) d_in || ltb_ℤ (pos 0) d_out)
          then upsert_daily route day d_in d_out db.daily
          else db.daily;
    }

-- `ResetTrafficBaseline`
unfoldable pub reset_traffic_baseline : ℕ → TrafficDb → TrafficDb
reset_traffic_baseline route db = record db {
  traffic =
      update_where (λ r. r.route_id == route) (λ r. record r { raw_in = none; raw_out = none })
        db.traffic;
}

abbrev pub in_period : ℕ → ℕ → DailyRow → Bool
in_period route since r = r.route_id == route && leb since r.day

unfoldable pub sum_in : List DailyRow → ℤ
sum_in [] = pos 0
sum_in (r ∷ rows) = r.bytes_in +ℤ sum_in rows

unfoldable pub sum_out : List DailyRow → ℤ
sum_out [] = pos 0
sum_out (r ∷ rows) = r.bytes_out +ℤ sum_out rows

-- SUM over INTEGER columns: a total that is no int64 is an error.
abbrev pub sql_sum : ℤ → Option ℤ
sql_sum z = if is_int64 z then some z else none

abbrev pub usage_of_sums : Bool → Option ℤ → Option ℤ → Option (ℤ × Bool)
usage_of_sums measured none sum_out = none
usage_of_sums measured (some bytes_in) none = none
usage_of_sums measured (some bytes_in) (some bytes_out) =
    some (wrap_int64 (bytes_in +ℤ bytes_out), measured)

-- `PeriodUsage`: the bytes of the period, added as int64, and whether any day of it was measured. `none`
-- is an error of the query.
unfoldable pub period_usage : ℕ → ℕ → TrafficDb → Option (ℤ × Bool)
unfolding sum_in sum_out wrap_int64
period_usage route since db =
    let rows = select_where (in_period route since) db.daily in
    usage_of_sums (ltb 0 (count_where (in_period route since) db.daily)) (sql_sum (sum_in rows))
      (sql_sum (sum_out rows))
