-- ===== src/Engines/Replay/Loop.antt =====
-- The weeks of `replay_market` of ml/src/retail_ml/engines/replay.py, each composed of its numbered
-- parts.

use retail_intelligence.Engines.Clock.Defs.{
  ClockError, Instant, instant_eq, precedes, monday_period_bounds, opening_snapshot_instant,
}
use retail_intelligence.Engines.Replay.Defs.{
  new_cell, PeriodResult, CellKey, Cells, Flow, OrderPolicy, ReplayError, on_hand_total, item_le,
  receive, fulfil, write_off, order_all, order_keys, index_of, remove, lead_time_too_short,
  seed_not_before, clock_error,
}
use retail_intelligence.Base.Result.{Result, ◌>>=◌, ◌>>◌, raise_if, ok, err}
use retail_intelligence.Base.Sort.{sort_by}
use retail_intelligence.Base.Dict.{Dict, get_or}
use retail_intelligence.Base.Equality.{nat_eq, string_eq, pair_eq, option_eq}
use retail_intelligence.Base.Int.{ℤ, pos_part, ◌-ℤ◌, ltb_ℤ, pos}
use retail_intelligence.Base.{ℕ, ◌+◌, String, Bool, not, List, [], ◌∷◌, map, leb, get_elem?}

-- the arguments of a replay that no period changes
pub record Scenario : Type 0 where
  pub policy : OrderPolicy
  pub market_id : String
  pub demand_by_period : Dict Instant Flow
  pub arrivals_by_period : Dict Instant Flow
  pub waste_by_period : Dict Instant Flow
  pub lead_time_weeks : ℕ
  pub period_opens : List Instant

abbrev pub flow_of : Instant → Dict Instant Flow → Flow
flow_of t flows = get_or t [] flows

-- the cells and the scheduled arrivals
abbrev pub ReplayState : Type 0
ReplayState = Cells × Dict Instant Flow

-- The body of the loop over the periods.
unfoldable pub replay_period : Scenario → Instant → ReplayState → ReplayState × PeriodResult
replay_period sc period_open (cells, scheduled) =
    let (received_cells, received) =
      receive (flow_of period_open scheduled)
        (receive (flow_of period_open sc.arrivals_by_period) (cells, pos 0)) in
    let period_demand = flow_of period_open sc.demand_by_period in
    let sold =
      fulfil (sort_by item_le period_demand)
        (record { cells = received_cells; demanded = pos 0; served = pos 0; stockouts = 0 }) in
    let (kept_cells, wasted) =
      write_off (sort_by item_le (flow_of period_open sc.waste_by_period)) (sold.cells, pos 0) in
    let arrival_open =
      get_elem? sc.period_opens (index_of period_open sc.period_opens + sc.lead_time_weeks) in
    let placed =
      order_all sc.policy sc.market_id period_demand arrival_open
        (order_keys kept_cells period_demand)
        (record {
          cells = kept_cells;
          ordered = pos 0;
          scheduled = remove period_open scheduled;
        }) in
    (
      (placed.cells, placed.scheduled),
      record {
        period_open = period_open;
        market_id = sc.market_id;
        opening_units = on_hand_total cells;
        closing_units = on_hand_total placed.cells;
        demand_units = sold.demanded;
        served_units = sold.served;
        lost_units = sold.demanded -ℤ sold.served;
        stockout_cells = sold.stockouts;
        ordered_units = placed.ordered;
        received_units = received;
        wasted_units = wasted;
      },
    )

unfoldable pub replay_periods : Scenario → List Instant → ReplayState → List PeriodResult
replay_periods sc [] s = []
replay_periods sc (period_open ∷ rest) s =
    let (s', result) = replay_period sc period_open s in result ∷ replay_periods sc rest s'

abbrev pub origin_le : ℕ → ℕ → Bool
origin_le = leb

unfoldable pub lift_clock {ℓ} : {A : Type ℓ} → Result ClockError A → Result ReplayError A
lift_clock (ok a) = ok a
lift_clock (err e) = err (clock_error e)

-- The openings of the origins' periods, in order, each with its seeding snapshot checked.
unfoldable pub open_periods : List ℕ → Result ReplayError (List Instant)
open_periods [] = ok []
open_periods (origin ∷ rest) = do
  bounds ← lift_clock (monday_period_bounds origin)
  snapshot ← lift_clock (opening_snapshot_instant bounds.0)
  raise_if (not (precedes snapshot bounds.0)) seed_not_before
  later ← open_periods rest
  ok (bounds.0 ∷ later)

unfoldable pub replay_market :
    OrderPolicy
    → String
    → List ℕ
    → Flow
    → (demand_by_period arrivals_by_period waste_by_period : Dict Instant Flow) → ℤ
    → Result ReplayError (List PeriodResult)
replay_market policy market_id origins opening_state demand arrivals waste lead_time_weeks = do
  raise_if (ltb_ℤ lead_time_weeks (pos 1)) lead_time_too_short
  period_opens ← open_periods (sort_by origin_le origins)
  ok (
      replay_periods
        (record {
          policy = policy;
          market_id = market_id;
          demand_by_period = demand;
          arrivals_by_period = arrivals;
          waste_by_period = waste;
          lead_time_weeks = pos_part lead_time_weeks;
          period_opens = period_opens;
        })
        period_opens
        (map (λ (p : CellKey × ℤ). (p.0, record new_cell { on_hand = p.1 })) opening_state, []))
