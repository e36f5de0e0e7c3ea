-- ===== src/Watcher/Rounds.antt =====
-- internal/watcher/watcher.go: the intervals, and what each round works on.
use fluxlite.Common.{ℕ, ◌*◌, min, Bool, if◌then◌else◌}
use fluxlite.Common.Int.{ℤ, pos, ltb_ℤ, pos_part}
use fluxlite.Common.Tables.{select_where}
use fluxlite.Model.{Route}
use fluxlite.Store.{Store}
use fluxlite.Store.Routes.{list_routes}
use fluxlite.Watcher.Pool
use fluxlite.Watcher.Pool.{Pool}

abbrev one_second : ℕ
one_second = 1_000_000_000

-- `Config`, as far as it holds durations.
pub record Config : Type 0 where
  pub interval : ℤ
  pub sample_interval : ℤ
  pub traffic_interval : ℤ

pub record Watcher : Type 0 where
  pub interval : ℕ
  pub sample : ℕ
  pub traffic : ℕ

-- `if d <= 0 { d = standard }`
or_standard : ℤ → ℕ → ℕ
or_standard d standard = if ltb_ℤ (pos 0) d then pos_part d else standard

-- `New`
pub new : Config → Watcher
unfolding or_standard
new cfg = record {
  interval = or_standard cfg.interval (300 * one_second);
  sample = or_standard cfg.sample_interval (10 * one_second);
  traffic = or_standard cfg.traffic_interval (20 * one_second);
}

-- `sampleConcurrency`
abbrev pub sample_concurrency : ℕ
sample_concurrency = 4

-- `sampleRoutes`: the call that a round makes.
unfoldable pub sample_routes : Store → Pool Route
sample_routes s = Pool.start (select_where (λ r. r.enabled) (list_routes s))

-- `nearQuotaInterval`
abbrev near_quota_interval : ℕ
near_quota_interval = 10 * one_second

-- The pause of `trafficLoop` after a round that found, or did not find, a route near its quota.
pub traffic_wait : Watcher → Bool → ℕ
traffic_wait w near = if near then min w.traffic near_quota_interval else w.traffic
