-- ===== src/Engines/Clock/Tests.antt =====
-- Runs of the clock, and its theorems at concrete dates: ordinal 739000 is Wednesday, April 24, 2024.

use retail_intelligence.Engines.Clock.Weeks.{
  monday_period_bounds-contains, monday_period_bounds-eq_iff, opening_snapshot_instant-IsLast,
}
use retail_intelligence.Base.Result.{ok}
use retail_intelligence.Base.Equality.{nat_eq, string_eq, pair_eq, option_eq}
use retail_intelligence.Base.{ℕ, ◌+◌, ◌≤◌, ◌<◌, ◌≡◌, refl, true, arith, ◌↔◌}
use retail_intelligence.Engines.Clock.Defs.{
  Instant, midnight, weekday, snapshot_second, precedes, monday_period_bounds,
  opening_snapshot_instant, bridge_interval, instant_eq,
}

abbrev opening : Instant
opening = midnight 738998

week_run : monday_period_bounds 739000 ≡ ok (opening, midnight 739005)
unfolding monday_period_bounds
week_run = refl

abbrev snapshot : Instant
snapshot = record { day = 738994; second = snapshot_second }

snapshot_run : opening_snapshot_instant opening ≡ ok snapshot
unfolding opening_snapshot_instant
snapshot_run = refl

bridge_run : bridge_interval opening ≡ ok (snapshot, opening)
unfolding bridge_interval opening_snapshot_instant
bridge_run = refl

monday_period_bounds-contains_example :
    (weekday 738998 ≡ 0)
    × (opening.second ≡ 0)
    × (midnight 739005 ≡ midnight (opening.day + 7))
    × (1 ≤ opening.day)
    × (opening.day ≤ 739000)
    × (739000 < 739005)
monday_period_bounds-contains_example = monday_period_bounds-contains 739000 (omega arith) week_run

opening_snapshot_instant-IsLast_example :
    (weekday snapshot.day ≡ 3)
    × (snapshot.second ≡ snapshot_second)
    × (precedes snapshot opening ≡ true)
    × ((t : ℕ)
        → weekday t ≡ 3
        → precedes (record { day = t; second = snapshot_second }) opening ≡ true
        → t ≤ snapshot.day)
opening_snapshot_instant-IsLast_example = opening_snapshot_instant-IsLast opening snapshot_run

same_week_run : monday_period_bounds 739003 ≡ ok (opening, midnight 739005)
unfolding monday_period_bounds
same_week_run = refl

monday_period_bounds-eq_iff_example :
    (opening ≡ opening) ↔ ((opening.day ≤ 739003) × (739003 < 739005))
monday_period_bounds-eq_iff_example =
    monday_period_bounds-eq_iff 739000 739003 (omega arith) (omega arith) week_run same_week_run
