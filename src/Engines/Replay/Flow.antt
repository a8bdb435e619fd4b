-- ===== src/Engines/Replay/Flow.antt =====
-- The stock identity of a replayed period.
use retail_intelligence.Engines.Replay.Defs.{
  CellState, new_cell, available, PeriodResult, CellKey, Cells, Flow, OrderPolicy, on_hand_total,
  cell_at, item_le, receive, Fulfilment, fulfil_one, fulfil, write_off_one, write_off, Orders,
  order_one, order_all, order_keys, index_of, remove,
}
use retail_intelligence.Engines.Replay.Loop.{
  Scenario, flow_of, ReplayState, replay_period, replay_periods,
}
use retail_intelligence.Base.Sort.{sort_by}
use retail_intelligence.Base.Dict.{put, get_or, total, total-put}
use retail_intelligence.Base.Equality.{nat_eq, string_eq, pair_eq, option_eq}
use retail_intelligence.Base.Int.{ℤ, ◌+ℤ◌, ◌-ℤ◌, leb_ℤ, min_ℤ, max_ℤ, int_laws, pos}
use retail_intelligence.Engines.Clock.Defs.{Instant}
use retail_intelligence.Base.{
  ◌+◌, String, ◌≡◌, refl, ◌∙◌, inl, inr, Option, List, [], ◌∷◌, Bool-cases, get_elem?, All,
}

module _ (f : CellState → ℤ) where
  -- one cell's change, in a total over all cells
  cell_change :
      (key : CellKey) (cell : CellState) (cells : Cells)
      → f new_cell ≡ pos 0
      → total f (put key cell cells) +ℤ f (cell_at key cells) ≡ total f cells +ℤ f cell
  cell_change key cell cells z = total-put f key new_cell cell cells z

pub on_hand_change :
    (key : CellKey) (cell : CellState) (cells : Cells)
    → on_hand_total (put key cell cells) +ℤ (cell_at key cells).on_hand
      ≡ on_hand_total cells +ℤ cell.on_hand
on_hand_change key cell cells = cell_change (λ c. c.on_hand) key cell cells refl

pub receive-total :
    (source : Flow) (cells : Cells) (received : ℤ)
    → on_hand_total (receive source (cells, received)).0 +ℤ received
      ≡ on_hand_total cells +ℤ (receive source (cells, received)).1
unfolding receive
receive-total [] cells received = refl
receive-total ((key, units) ∷ source) cells received =
    let cell = cell_at key cells in
    let cell' : CellState = record cell {
      on_hand = cell.on_hand +ℤ units;
      in_transit = max_ℤ (pos 0) (cell.in_transit -ℤ units);
    } in
    let one = on_hand_change key cell' cells in
    let rest = receive-total source (put key cell' cells) (received +ℤ units) in omega int_laws

fulfil_one-total :
    (key : CellKey) (units : ℤ) (s : Fulfilment)
    → let out = fulfil_one key units s in
      on_hand_total out.cells +ℤ out.served ≡ on_hand_total s.cells +ℤ s.served
unfolding fulfil_one
fulfil_one-total key units s =
    let cell = cell_at key s.cells in
    let served : ℤ = min_ℤ (available cell) units in
    let one = on_hand_change key (record cell { on_hand = cell.on_hand -ℤ served }) s.cells in
    elim (Bool-cases (leb_ℤ units (pos 0))) [
      | inl skip ↦ rw skip refl
      | inr sale ↦ rw sale (omega int_laws)
    ]

pub fulfil-total :
    (demand : Flow) (s : Fulfilment)
    → on_hand_total (fulfil demand s).cells +ℤ (fulfil demand s).served
      ≡ on_hand_total s.cells +ℤ s.served
unfolding fulfil
fulfil-total [] s = refl
fulfil-total ((key, units) ∷ rest) s =
    fulfil-total rest (fulfil_one key units s) ∙ fulfil_one-total key units s

write_off_one-total :
    (key : CellKey) (units : ℤ) (cells : Cells) (wasted : ℤ)
    → let out = write_off_one key units (cells, wasted) in
      on_hand_total out.0 +ℤ out.1 ≡ on_hand_total cells +ℤ wasted
unfolding write_off_one
write_off_one-total key units cells wasted =
    let cell = cell_at key cells in
    let gone : ℤ = min_ℤ cell.on_hand units in
    let one = on_hand_change key (record cell { on_hand = cell.on_hand -ℤ gone }) cells in
    elim (Bool-cases (leb_ℤ units (pos 0))) [
      | inl skip ↦ rw skip refl
      | inr waste ↦ rw waste (omega int_laws)
    ]

pub write_off-total :
    (waste : Flow) (s : Cells × ℤ)
    → on_hand_total (write_off waste s).0 +ℤ (write_off waste s).1 ≡ on_hand_total s.0 +ℤ s.1
unfolding write_off
write_off-total [] s = refl
write_off-total ((key, units) ∷ rest) (cells, wasted) =
    write_off-total rest (write_off_one key units (cells, wasted))
    ∙ write_off_one-total key units cells wasted

module _ (policy : OrderPolicy) (market_id : String) (demand : Flow)
    (arrival : Option Instant) where
  order_one-total :
      (key : CellKey) (s : Orders)
      → on_hand_total (order_one policy market_id demand arrival key s).cells
        ≡ on_hand_total s.cells
  unfolding order_one
  order_one-total key s =
      let cell = cell_at key s.cells in
      let kept = on_hand_change key cell s.cells in
      let quantity : ℤ = policy (record {
        sku_id = key.0;
        location_id = key.1;
        on_hand_units = cell.on_hand;
        in_transit_units = cell.in_transit;
        observed_demand_units = get_or key (pos 0) demand;
        market_id = market_id;
      }) in
      let ordered =
        on_hand_change key (record cell { in_transit = cell.in_transit +ℤ quantity }) s.cells in
      elim (Bool-cases (leb_ℤ quantity (pos 0))) [
        | inl skip ↦ rw skip (omega int_laws)
        | inr order ↦ rw order (omega int_laws)
      ]

  order_all-total :
      (ks : List CellKey) (s : Orders)
      → on_hand_total (order_all policy market_id demand arrival ks s).cells ≡ on_hand_total s.cells
  unfolding order_all
  order_all-total [] s = refl
  order_all-total (key ∷ ks) s =
      order_all-total ks (order_one policy market_id demand arrival key s) ∙ order_one-total key s

-- Opening stock and receipts are what was served, what was written off and the closing stock, and
-- demand is what was served and what was lost.
pub record IsBalanced (r : PeriodResult) : Type 0 where
  pub stock :
      r.opening_units +ℤ r.received_units ≡ r.served_units +ℤ r.wasted_units +ℤ r.closing_units
  pub demand : r.demand_units ≡ r.served_units +ℤ r.lost_units

pub replay_period-IsBalanced :
    (sc : Scenario) (t : Instant) (s : ReplayState) → IsBalanced (replay_period sc t s).1
unfolding replay_period
replay_period-IsBalanced sc t (cells, scheduled) =
    let arrivals = flow_of t sc.arrivals_by_period in
    let inbound = flow_of t scheduled in
    let demand = flow_of t sc.demand_by_period in
    let rows = sort_by item_le demand in
    let waste = sort_by item_le (flow_of t sc.waste_by_period) in
    let first = receive arrivals (cells, pos 0) in
    let second = receive inbound first in
    let sold =
      fulfil rows (record { cells = second.0; demanded = pos 0; served = pos 0; stockouts = 0 }) in
    let kept = write_off waste (sold.cells, pos 0) in
    let arrival = get_elem? sc.period_opens (index_of t sc.period_opens + sc.lead_time_weeks) in
    let in1 = receive-total arrivals cells (pos 0) in
    let in2 = receive-total inbound first.0 first.1 in
    let out1 =
      fulfil-total rows
        (record { cells = second.0; demanded = pos 0; served = pos 0; stockouts = 0 }) in
    let out2 = write_off-total waste (sold.cells, pos 0) in
    let same =
      order_all-total sc.policy sc.market_id demand arrival (order_keys kept.0 demand)
        (record { cells = kept.0; ordered = pos 0; scheduled = remove t scheduled }) in
    record { stock = omega int_laws; demand = omega int_laws }

replay_period-opening :
    (sc : Scenario) (t : Instant) (s : ReplayState)
    → (replay_period sc t s).1.opening_units ≡ on_hand_total s.0
unfolding replay_period
replay_period-opening sc t (cells, scheduled) = refl

replay_period-closing :
    (sc : Scenario) (t : Instant) (s : ReplayState)
    → (replay_period sc t s).1.closing_units ≡ on_hand_total (replay_period sc t s).0.0
unfolding replay_period
replay_period-closing sc t (cells, scheduled) = refl

-- Each period opens with the stock that the one before it closed with.
abbrev pub IsChained : ℤ → List PeriodResult → Type 0
IsChained stock [] = Unit
IsChained stock (r ∷ rs) = (r.opening_units ≡ stock) × IsChained r.closing_units rs

pub replay_periods-IsBalanced :
    (sc : Scenario) (ts : List Instant) (s : ReplayState)
    → All IsBalanced (replay_periods sc ts s)
      × IsChained (on_hand_total s.0) (replay_periods sc ts s)
unfolding replay_periods
replay_periods-IsBalanced sc [] s = (tt, tt)
replay_periods-IsBalanced sc (t ∷ ts) s =
    let rest = replay_periods-IsBalanced sc ts (replay_period sc t s).0 in
    (
      (replay_period-IsBalanced sc t s, rest.0),
      (replay_period-opening sc t s, rw (replay_period-closing sc t s) rest.1),
    )
