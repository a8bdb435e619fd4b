-- ===== src/Engines/Replay/Physical.antt =====
-- Every period of a replay from sound stock is physical.
use retail_intelligence.Engines.Replay.Defs.{
  PeriodResult, Flow, OrderPolicy, item_le, receive, Fulfilment, fulfil, write_off, order_keys,
  index_of, remove, lead_time_too_short,
}
use retail_intelligence.Engines.Replay.Loop.{
  Scenario, flow_of, ReplayState, replay_period, replay_periods, origin_le, open_periods,
  replay_market,
}
use retail_intelligence.Base.Result.{raise_if, >>=-eq-ok, ok-injective, ok}
use retail_intelligence.Base.Sort.{sort_by}
use retail_intelligence.Base.Dict.{Dict, All-get_or}
use retail_intelligence.Base.Equality.{nat_eq, string_eq, pair_eq, option_eq}
use retail_intelligence.Base.Int.{ℤ, pos_part, ◌≤ℤ◌, ltb_ℤ, int_laws, pos}
use retail_intelligence.Base.{ℕ, ◌+◌, String, ◌≡◌, refl, ◌↔◌, List, [], ◌∷◌, arith, get_elem?, All}
use retail_intelligence.Engines.Clock.Defs.{Instant, instant_eq}
use retail_intelligence.Engines.Replay.Stock.{
  AreStocked, AreInflows, IsInflow, receive-AreStocked, fulfil-IsFulfilment, write_off-AreStocked,
  order_all-AreOrders, remove-AreInflows, total-nonneg,
}
use retail_intelligence.Engines.Replay.Market.{start_cells}

abbrev IsReplayable : ReplayState → Type 0
IsReplayable s = AreStocked s.0 × AreInflows s.1

-- No count of the period is negative, what is served lies within the demand, and no cell ran short
-- exactly if nothing was lost.
pub record IsPhysical (r : PeriodResult) : Type 0 where
  pub opening : pos 0 ≤ℤ r.opening_units
  pub closing : pos 0 ≤ℤ r.closing_units
  pub received : pos 0 ≤ℤ r.received_units
  pub ordered : pos 0 ≤ℤ r.ordered_units
  pub wasted : pos 0 ≤ℤ r.wasted_units
  pub served : (pos 0 ≤ℤ r.served_units) × (r.served_units ≤ℤ r.demand_units)
  pub lost : pos 0 ≤ℤ r.lost_units
  pub short : (r.stockout_cells ≡ 0) ↔ (r.lost_units ≡ pos 0)

replay_period-IsPhysical :
    (sc : Scenario) (t : Instant) (s : ReplayState)
    → AreInflows sc.arrivals_by_period
    → IsReplayable s
    → IsReplayable (replay_period sc t s).0 × IsPhysical (replay_period sc t s).1
unfolding replay_period
replay_period-IsPhysical sc t (cells, scheduled) inflows h =
    let arrivals = flow_of t sc.arrivals_by_period in
    let inbound = flow_of t scheduled in
    let demand = flow_of t sc.demand_by_period in
    let rows = sort_by item_le demand in
    let waste = sort_by item_le (flow_of t sc.waste_by_period) in
    let first = receive arrivals (cells, pos 0) in
    let second = receive inbound first in
    let start : Fulfilment = record {
      cells = second.0;
      demanded = pos 0;
      served = pos 0;
      stockouts = 0;
    } in
    let sold = fulfil rows start in
    let kept = write_off waste (sold.cells, pos 0) in
    let in1 =
      receive-AreStocked arrivals cells (pos 0)
        (All-get_or IsInflow t [] sc.arrivals_by_period tt inflows) h.0 (omega arith) in
    let in2 =
      receive-AreStocked inbound first.0 first.1 (All-get_or IsInflow t [] scheduled tt h.1) in1.0
        in1.1 in
    let out1 = fulfil-IsFulfilment rows start (record {
      stocked = in2.0;
      served_nonneg = omega arith;
      served_le = omega arith;
      short = (λ _. refl, λ _. refl);
    }) in
    let out2 = write_off-AreStocked waste (sold.cells, pos 0) (out1.stocked, omega arith) in
    let placed =
      order_all-AreOrders sc.policy sc.market_id demand
        (get_elem? sc.period_opens (index_of t sc.period_opens + sc.lead_time_weeks))
        (order_keys kept.0 demand)
        (record { cells = kept.0; ordered = pos 0; scheduled = remove t scheduled })
        (record {
          stocked = out2.0;
          ordered = omega arith;
          inflows = remove-AreInflows t scheduled h.1;
        }) in
    let le = out1.served_le in
    (
      (placed.stocked, placed.inflows),
      record {
        opening = total-nonneg cells h.0;
        closing = total-nonneg _ placed.stocked;
        received = in2.1;
        ordered = placed.ordered;
        wasted = out2.1;
        served = (out1.served_nonneg, out1.served_le);
        lost = omega int_laws;
        short = (
          λ none_short. let all = out1.short.0 none_short in omega int_laws,
          λ none_lost. out1.short.1 (omega int_laws),
        );
      },
    )

replay_periods-IsPhysical :
    (sc : Scenario) (ts : List Instant) (s : ReplayState)
    → AreInflows sc.arrivals_by_period
    → IsReplayable s
    → All IsPhysical (replay_periods sc ts s)
unfolding replay_periods
replay_periods-IsPhysical sc [] s inflows h = tt
replay_periods-IsPhysical sc (t ∷ ts) s inflows h =
    let one = replay_period-IsPhysical sc t s inflows h in
    (one.1, replay_periods-IsPhysical sc ts (replay_period sc t s).0 inflows one.0)

start_cells-AreStocked : (stock : Flow) → IsInflow stock → AreStocked (start_cells stock)
start_cells-AreStocked [] h = tt
start_cells-AreStocked ((k, units) ∷ stock) h =
    ((h.0, omega arith), start_cells-AreStocked stock h.1)

-- From opening stock and arrivals that are not negative, every period of a replay that returns is
-- physical, whatever the policy orders and whatever demand and waste are claimed: no count of it is
-- negative, what is served lies within the demand, and no cell ran short exactly if nothing was lost.
pub replay_market-IsPhysical :
    (policy : OrderPolicy) (market_id : String) (origins : List ℕ) (stock : Flow)
    (demand arrivals waste : Dict Instant Flow) (lead : ℤ) {rs : List PeriodResult}
    → IsInflow stock
    → AreInflows arrivals
    → replay_market policy market_id origins stock demand arrivals waste lead ≡ ok rs
    → All IsPhysical rs
unfolding replay_market
replay_market-IsPhysical policy market_id origins stock demand arrivals waste lead {rs} s a e =
    let (_, _, rest) = >>=-eq-ok (raise_if (ltb_ℤ lead (pos 1)) lead_time_too_short) _ e in
    let (opens, _, last) = >>=-eq-ok (open_periods (sort_by origin_le origins)) _ rest in
    let sc : Scenario = record {
      policy = policy;
      market_id = market_id;
      demand_by_period = demand;
      arrivals_by_period = arrivals;
      waste_by_period = waste;
      lead_time_weeks = pos_part lead;
      period_opens = opens;
    } in
    rw (← ok-injective last) (
      replay_periods-IsPhysical sc opens (start_cells stock, []) a
        (start_cells-AreStocked stock s, tt))
