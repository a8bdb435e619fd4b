-- ===== src/Engines/Replay/Market.antt =====
-- `replay_market` as a whole: when it returns, and what its periods add up to.
use retail_intelligence.Engines.Replay.Defs.{
  new_cell, PeriodResult, CellKey, Cells, Flow, OrderPolicy, on_hand_total,
}
use retail_intelligence.Engines.Replay.Loop.{
  Scenario, ReplayState, replay_period, replay_periods, origin_le, lift_clock, open_periods,
  replay_market,
}
use retail_intelligence.Base.Result.{ok}
use retail_intelligence.Base.Sort.{sort_by, All-sort_by, length-sort_by}
use retail_intelligence.Base.Dict.{Dict, total}
use retail_intelligence.Base.Equality.{nat_eq, string_eq, pair_eq, option_eq}
use retail_intelligence.Base.Int.{ℤ, pos_part, ◌+ℤ◌, ◌≤ℤ◌, le→ltb_ℤ_false, pos}
use retail_intelligence.Base.{
  ℕ, suc, ◌+◌, ◌-◌, ◌≤◌, String, ◌≡◌, refl, ap, ◌∙◌, List, [], ◌∷◌, map, arith, length, All,
}
use retail_intelligence.Engines.Clock.Defs.{
  Instant, max_ordinal, weekday, midnight, snapshot_second, monday_period_bounds,
  opening_snapshot_instant,
}
use retail_intelligence.Engines.Clock.Weeks.{opening_snapshot_instant-IsLast}
use retail_intelligence.Engines.Replay.Flow.{IsBalanced, IsChained, replay_periods-IsBalanced}

abbrev pub start_cells : Flow → Cells
start_cells = map (λ (p : CellKey × ℤ). (p.0, record new_cell { on_hand = p.1 }))

pub start_total : (stock : Flow) → on_hand_total (start_cells stock) ≡ total (λ u. u) stock
start_total [] = refl
start_total ((key, units) ∷ stock) = ap (λ (t : ℤ). units +ℤ t) (start_total stock)

-- a date whose week and seeding Thursday lie in the calendar
abbrev pub IsOrigin : ℕ → Type 0
IsOrigin origin = (8 ≤ origin) × (origin + 7 ≤ max_ordinal)

open_one :
    (origin : ℕ)
    → IsOrigin origin
    → (opening closing snapshot : Instant) × (monday_period_bounds origin ≡ ok (opening, closing))
      × (opening_snapshot_instant opening ≡ ok snapshot)
unfolding monday_period_bounds opening_snapshot_instant
open_one origin h =
    let monday = origin - weekday origin in
    (
      midnight monday,
      midnight (monday + 7),
      record { day = monday - 4; second = snapshot_second },
      ground arith,
      ground arith,
    )

pub open_periods-total :
    (origins : List ℕ)
    → All IsOrigin origins
    → (opens : List Instant) × (open_periods origins ≡ ok opens) × (length opens ≡ length origins)
unfolding open_periods lift_clock
open_periods-total [] h = ([], refl, refl)
open_periods-total (origin ∷ rest) h =
    let (opening, closing, snapshot, bounds, seed) = open_one origin h.0 in
    let (later, e, count) = open_periods-total rest h.1 in
    let before = (opening_snapshot_instant-IsLast opening seed).2 in
    (opening ∷ later, rw bounds (rw seed (rw before (rw e))), ap suc count)

length-replay_periods :
    (sc : Scenario) (ts : List Instant) (s : ReplayState)
    → length (replay_periods sc ts s) ≡ length ts
unfolding replay_periods
length-replay_periods sc [] s = refl
length-replay_periods sc (t ∷ ts) s = ap suc (length-replay_periods sc ts (replay_period sc t s).0)

-- With a lead time of at least one week and origins inside the calendar, the replay returns one
-- result for each origin, whatever the policy and the flows: the check that the seeding snapshot
-- precedes its period never fails. In every period opening stock and receipts equal what was served,
-- written off and kept, and demand equals what was served and lost; the first period opens with the
-- given stock, and each later one with the closing stock of the one before.
pub replay_market-IsBalanced :
    (policy : OrderPolicy) (market_id : String) (origins : List ℕ) (stock : Flow)
    (demand arrivals waste : Dict Instant Flow) (lead : ℤ)
    → pos 1 ≤ℤ lead
    → All IsOrigin origins
    → (rs : List PeriodResult) × (replay_market policy market_id origins stock demand arrivals waste
          lead
        ≡ ok rs)
      × (length rs ≡ length origins)
      × All IsBalanced rs
      × IsChained (total (λ u. u) stock) rs
unfolding replay_market
replay_market-IsBalanced policy market_id origins stock demand arrivals waste lead long inside =
    let ordered = sort_by origin_le origins in
    let (opens, e, count) =
      open_periods-total ordered (All-sort_by origin_le IsOrigin origins inside) in
    let sc : Scenario = record {
      policy = policy;
      market_id = market_id;
      demand_by_period = demand;
      arrivals_by_period = arrivals;
      waste_by_period = waste;
      lead_time_weeks = pos_part lead;
      period_opens = opens;
    } in
    let start : ReplayState = (start_cells stock, []) in
    let sound = replay_periods-IsBalanced sc opens start in
    (
      replay_periods sc opens start,
      rw (le→ltb_ℤ_false lead (pos 1) long) (rw e),
      length-replay_periods sc opens start ∙ count ∙ length-sort_by origin_le origins,
      sound.0,
      rw (← start_total stock) sound.1,
    )
