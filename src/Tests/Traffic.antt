-- ===== src/Tests/Traffic.antt =====
-- Traffic and quotas at concrete inputs.
use fluxlite.Common.{All}
use fluxlite.Common.{
  ℕ, ◌+◌, ◌≤◌, ◌≡◌, refl, codes, Bool, true, false, List, [], ◌∷◌, none, some, arith,
}
use fluxlite.Common.Int.{ℤ, pos, ◌+ℤ◌}
use fluxlite.Common.Tables.{find_where}
use fluxlite.Model.{Route, tcp}
use fluxlite.Traffic.Db.Daily.{Counted, usage_recorded}
use fluxlite.Common.Int.{int64, wrap_int64}
use fluxlite.Traffic.Db.{
  record_traffic, counter_delta, TrafficRow, TrafficDb, period_usage, sum_in, sum_out,
}
use fluxlite.Traffic.Db.Kernel.{
  Tick, flow, restart, poll, World, Booked, Totals, tick, run, Totals-sound,
}
use fluxlite.Traffic.Period.{
  Date, IsDate, day_key, IsResetDay, quota_period_start, clamp_day, quota_period_start_latest,
}
use fluxlite.Traffic.Quota.{Panel, has_id, enforce_quotas}
use fluxlite.Traffic.Quota.Laws.{OperatorStopped, stopped, operator_stop_kept, over_quota_stopped}

abbrev row : TrafficRow
row = record {
  route_id = 7;
  hop_order = 0;
  bytes_in = pos 100;
  bytes_out = pos 50;
  raw_in = some 100;
  raw_out = some 50;
  updated_at = 1;
}

abbrev traffic : TrafficDb
traffic = record {
  traffic = row ∷ [];
  daily =
      record { route_id = 7; day = 20240310; bytes_in = pos 800; bytes_out = pos 300 }
      ∷ record { route_id = 8; day = 20240310; bytes_in = pos 5; bytes_out = pos 5 }
      ∷ [];
}

abbrev world : World
world = record { k_in = 100; k_out = 50; flowed_in = 0; flowed_out = 0; restarts = 0; db = traffic }

booked : Booked 7 0 100 50 world
booked = record {
  row = row;
  found = refl;
  b_in = 100;
  b_out = 50;
  r_in = 100;
  r_out = 50;
  total_in = refl;
  total_out = refl;
  last_in = refl;
  last_out = refl;
  owed_in = omega arith;
  owed_out = omega arith;
  exact_in = λ e. (omega arith, refl);
  exact_out = λ e. (omega arith, refl);
}

abbrev ticks : List Tick
ticks = flow 10 20 ∷ poll 2 20240311 true ∷ restart ∷ flow 5 5 ∷ []

Totals-sound_example :
    let end = run 7 0 ticks world in
    (n_in : ℕ) × (n_out : ℕ) × Totals 7 0 (tick 7 0 (poll 3 20240311 true) end) n_in n_out
    × (n_in ≤ 100 + end.flowed_in)
    × (n_out ≤ 50 + end.flowed_out)
    × (end.restarts ≡ 0 → (n_in ≡ 100 + end.flowed_in) × (n_out ≡ 50 + end.flowed_out))
Totals-sound_example = Totals-sound 7 0 ticks 100 50 world 3 20240311 true (omega arith) booked

abbrev today : Date
today = record { year = 2024; month = 3; day = 15 }

quota_period_start_latest_example :
    let start = quota_period_start today (pos 20) in
    IsResetDay (pos 20) start.day
    × (1 ≤ start.month)
    × (start.month ≤ 12)
    × (day_key start ≤ day_key today)
    × ((d : Date)
        → IsDate d
        → d.day ≡ start.day
        → day_key d ≤ day_key today
        → day_key d ≤ day_key start)
quota_period_start_latest_example =
    quota_period_start_latest today (pos 20)
      (omega arith, omega arith, omega arith, omega arith, omega arith)

abbrev route : Route
route = record {
  id = 7;
  name = codes "a";
  slug = codes "a";
  target = codes "landing.example:443";
  protocol = tcp;
  entry_port = 20001;
  listen_ipv6 = false;
  enabled = true;
  quota_bytes = some 1000;
  quota_reset_day = pos 1;
  quota_paused_at = none;
  created_at = 0;
  updated_at = 0;
  hops = [];
}

abbrev off : Route
off = record route { id = 8; slug = codes "b"; enabled = false; quota_bytes = some 1 }

abbrev panel : Panel
panel = record {
  routes = route ∷ off ∷ [];
  traffic = traffic;
  node_known = λ id. true;
  removed = [];
}

abbrev never_near : ℤ → ℕ → Bool
never_near used quota = false

operator_stop_kept_example :
    find_where (has_id 8) (enforce_quotas never_near 50 today panel.routes panel).1.routes
    ≡ some off
unfolding OperatorStopped
operator_stop_kept_example =
    operator_stop_kept never_near 50 today panel.routes panel 8
      ((λ e. cc e), ((λ e. (refl, refl)), tt))

over_quota_stopped_example :
    find_where (has_id 7) (enforce_quotas never_near 50 today panel.routes panel).1.routes
    ≡ some (stopped 50 route)
unfolding period_usage sum_in sum_out quota_period_start clamp_day ◌+ℤ◌ wrap_int64 int64
over_quota_stopped_example =
    over_quota_stopped never_near 50 today [] (off ∷ []) route route panel 1000 (pos 1100) refl refl
      refl refl tt (refl, tt) refl

daily-Counted : All Counted traffic.daily
daily-Counted = (
  record { n_in = 800; n_out = 300; is_in = refl; is_out = refl },
  (record { n_in = 5; n_out = 5; is_in = refl; is_out = refl }, tt),
)

usage_recorded_example :
    (m' : Bool) × (period_usage 7 20240301 (record_traffic 9 7 0 110 60 20240310 true traffic)
      ≡ some (pos 1120, m'))
unfolding counter_delta int64 period_usage sum_in sum_out wrap_int64 ◌+ℤ◌
usage_recorded_example =
    usage_recorded 9 7 0 110 60 20240310 7 20240301 10 10 1100 true traffic refl refl (omega arith)
      daily-Counted ((refl, tt), (tt, tt)) refl (omega arith)
