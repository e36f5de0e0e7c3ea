-- ===== src/Tests/Audit.antt =====
-- The audit log at concrete inputs.
use fluxlite.Common.{All}
use fluxlite.Common.{
  ℕ, suc, ◌+◌, ◌≤◌, ◌<◌, ◌≡◌, refl, codes, length, take, drop, false, List, [], ◌∷◌, none, some,
  arith,
}
use fluxlite.Common.Tables.{select_where}
use fluxlite.Common.Int.{pos}
use fluxlite.Audit.Ring.{Filter, matches, Record, Ring, capacity, add, page}
use fluxlite.Audit.Ring.Bounds.{Given, Other, Fresh, Valid, WasIn, total_count, add_sound}
use fluxlite.Audit.Ring.Paging.{page_slice}
use fluxlite.Audit.Correlator.{Event, from, to, new_correlator, feed}
use fluxlite.Audit.Correlator.Pairing.{Step, line, sweep, after, Apart, completed, feed_pairs}

abbrev visit : ℕ → ℕ → Record
visit id at = record {
  id = id;
  at = at;
  node = codes "hk";
  name = [];
  machine = [];
  port = 443;
  protocol = [];
  target = codes "example.com:443";
  count = 1;
}

abbrev ring : Ring
ring = record { records = visit 2 60 ∷ record (visit 1 50) { node = codes "jp" } ∷ []; next_id = 2 }

ring-Valid : Valid ring
unfolding Given Other Fresh
ring-Valid = record {
  bounded = omega arith;
  given = ((omega arith, omega arith, omega arith), ((omega arith, omega arith, omega arith), tt));
  apart = ((refl, tt), (tt, tt));
}

add_sound_example :
    Valid (add ring (visit 0 70))
    × (1 ≤ 1
        → length ring.records < capacity
        → total_count (add ring (visit 0 70)).records ≡ suc (total_count ring.records))
    × (total_count (add ring (visit 0 70)).records ≤ total_count ring.records + 1)
    × (ring.next_id ≤ (add ring (visit 0 70)).next_id)
    × All (λ r. r.id ≤ ring.next_id → WasIn ring.records r) (add ring (visit 0 70)).records
add_sound_example = add_sound ring (visit 0 70) ring-Valid

abbrev filter : Filter
filter = record { machine = []; query = []; until = 1 }

page_slice_example : page (λ s. s) ring (pos 1) 25 filter ≡ (
  take 25 (drop 0 (select_where (matches (λ s. s) filter) ring.records)),
  length (select_where (matches (λ s. s) filter) ring.records),
)
page_slice_example =
    page_slice (λ s. s) ring (pos 1) 0 25 filter (λ n e. ground (arith, e)) (λ n e. refl)
      (omega arith)

abbrev opened : Event
opened = record {
  at = none;
  conn_id = 9;
  dir = from;
  addr = codes "10.0.0.1:5000";
  user = codes "phone";
  inbound = codes "in";
  inbound_type = codes "vless";
  packet = false;
}

abbrev completing : Event
completing = record opened { dir = to; addr = codes "example.com:443"; user = [] }

abbrev between : List Step
between = line (record opened { conn_id = 4 }) 11 ∷ sweep 12 ∷ []

feed_pairs_example :
    let c = after between (feed new_correlator opened 10).1 in
    ((feed new_correlator opened 10).0 ≡ none)
    × ((feed c completing 13).0 ≡ some (completed opened 10 completing 13))
    × ((feed c completing 13).1 9 ≡ none)
unfolding Apart
feed_pairs_example =
    feed_pairs new_correlator opened completing 10 13 between refl refl refl
      (refl, (omega arith, tt))
