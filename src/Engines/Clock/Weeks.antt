-- ===== src/Engines/Clock/Weeks.antt =====
-- The week of a date, and the Thursday before it.
use retail_intelligence.Engines.Clock.Defs.{
  opening_snapshot_instant, precedes, snapshot_second, Instant, weekday, midnight, instant_eq,
  precedes, monday_period_bounds,
}
use retail_intelligence.Base.Result.{ok}
use retail_intelligence.Base.Equality.{nat_eq, string_eq, pair_eq, option_eq}
use retail_intelligence.Base.{ℕ, ◌+◌, ◌≤◌, ◌<◌, ◌≡◌, ◌↔◌, true, arith}

-- A period opens on the Monday of its date's week at midnight and closes on the next Monday at
-- midnight; the date lies in it.
pub monday_period_bounds-contains :
    (d : ℕ) {opening closing : Instant}
    → 1 ≤ d
    → monday_period_bounds d ≡ ok (opening, closing)
    → (weekday opening.day ≡ 0)
      × (opening.second ≡ 0)
      × (closing ≡ midnight (opening.day + 7))
      × (1 ≤ opening.day)
      × (opening.day ≤ d)
      × (d < closing.day)
unfolding monday_period_bounds
monday_period_bounds-contains d h e = ground arith

-- Two dates open the same period exactly if no Monday midnight lies between them.
pub monday_period_bounds-eq_iff :
    (d e : ℕ) {a b c f : Instant}
    → 1 ≤ d
    → 1 ≤ e
    → monday_period_bounds d ≡ ok (a, b)
    → monday_period_bounds e ≡ ok (c, f)
    → (a ≡ c) ↔ ((a.day ≤ e) × (e < b.day))
unfolding monday_period_bounds
monday_period_bounds-eq_iff d e h k p q = (λ same. ground arith, λ range. ground arith)

-- The snapshot that seeds a period is the last Thursday 23:00 before its opening.
pub opening_snapshot_instant-IsLast :
    (o : Instant) {s : Instant}
    → opening_snapshot_instant o ≡ ok s
    → (weekday s.day ≡ 3)
      × (s.second ≡ snapshot_second)
      × (precedes s o ≡ true)
      × ((t : ℕ)
          → weekday t ≡ 3
          → precedes (record { day = t; second = snapshot_second }) o ≡ true
          → t ≤ s.day)
unfolding opening_snapshot_instant precedes
opening_snapshot_instant-IsLast o h =
    (ground arith, ground arith, ground arith, λ t w p. ground arith)
