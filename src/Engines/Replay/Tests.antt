-- ===== src/Engines/Replay/Tests.antt =====
-- Runs of `replay_market`, and its theorems at a concrete scenario of two weeks and one cell.
use retail_intelligence.Engines.Replay.Physical.{IsPhysical, replay_market-IsPhysical}
use retail_intelligence.Engines.Replay.Market.{replay_market-IsBalanced}
use retail_intelligence.Engines.Replay.Flow.{IsBalanced, IsChained}
use retail_intelligence.Engines.Replay.Defs.{
  available, PeriodResult, CellKey, Flow, OrderPolicy, receive, fulfil_one, fulfil, write_off_one,
  write_off, schedule, schedule_if, order_one, order_all, order_keys, index_of, remove,
}
use retail_intelligence.Engines.Replay.Loop.{
  replay_period, replay_periods, lift_clock, open_periods, replay_market,
}
use retail_intelligence.Base.Result.{ok}
use retail_intelligence.Base.Sort.{insert_by, sort_by}
use retail_intelligence.Base.Dict.{Dict, put, get_or, has, total}
use retail_intelligence.Base.Equality.{nat_eq, string_eq, pair_eq, option_eq}
use retail_intelligence.Base.Int.{◌+ℤ◌, ◌-ℤ◌, min_ℤ, max_ℤ, neg, pos}
use retail_intelligence.Base.{ℕ, ◌≡◌, refl, List, [], ◌∷◌, arith, length, All}
use retail_intelligence.Engines.Clock.Defs.{
  Instant, midnight, instant_eq, precedes, monday_period_bounds, opening_snapshot_instant,
}

abbrev cell : CellKey
cell = ("sku-1", "store-1")

abbrev first_week : Instant
first_week = midnight 738998

abbrev second_week : Instant
second_week = midnight 739005

-- orders up to 6
abbrev top_up_to_six : OrderPolicy
top_up_to_six view = pos 6 -ℤ view.on_hand_units

abbrev origins : List ℕ
origins = 739008 ∷ 739000 ∷ []

abbrev stock : Flow
stock = (cell, pos 5) ∷ []

abbrev demand : Dict Instant Flow
demand = (first_week, (cell, pos 7) ∷ []) ∷ (second_week, (cell, pos 3) ∷ []) ∷ []

abbrev arrivals : Dict Instant Flow
arrivals = (first_week, (cell, pos 1) ∷ []) ∷ []

abbrev waste : Dict Instant Flow
waste = (second_week, (cell, pos 2) ∷ []) ∷ []

abbrev results : List PeriodResult
results =
    record {
      period_open = first_week;
      market_id = "us";
      opening_units = pos 5;
      closing_units = pos 0;
      demand_units = pos 7;
      served_units = pos 6;
      lost_units = pos 1;
      stockout_cells = 1;
      ordered_units = pos 6;
      received_units = pos 1;
      wasted_units = pos 0;
    }
    ∷ record {
      period_open = second_week;
      market_id = "us";
      opening_units = pos 0;
      closing_units = pos 1;
      demand_units = pos 3;
      served_units = pos 3;
      lost_units = pos 0;
      stockout_cells = 0;
      ordered_units = pos 5;
      received_units = pos 6;
      wasted_units = pos 2;
    }
    ∷ []

replay_run :
    replay_market top_up_to_six "us" origins stock demand arrivals waste (pos 1) ≡ ok results
unfolding replay_market replay_periods replay_period open_periods lift_clock receive fulfil
    fulfil_one write_off write_off_one order_all order_one schedule_if schedule order_keys index_of
    remove available get_or put has sort_by insert_by monday_period_bounds opening_snapshot_instant
    precedes min_ℤ max_ℤ neg ◌+ℤ◌ ◌-ℤ◌
replay_run = refl

replay_market-IsBalanced_example :
    (rs : List PeriodResult) × (replay_market top_up_to_six "us" origins stock demand arrivals waste
        (pos 1)
      ≡ ok rs)
    × (length rs ≡ 2)
    × All IsBalanced rs
    × IsChained (total (λ u. u) stock) rs
replay_market-IsBalanced_example =
    replay_market-IsBalanced top_up_to_six "us" origins stock demand arrivals waste (pos 1)
      (omega arith) ((omega arith, omega arith), ((omega arith, omega arith), tt))

replay_market-IsPhysical_example : All IsPhysical results
replay_market-IsPhysical_example =
    replay_market-IsPhysical top_up_to_six "us" origins stock demand arrivals waste (pos 1)
      (omega arith, tt) ((omega arith, tt), tt) replay_run
