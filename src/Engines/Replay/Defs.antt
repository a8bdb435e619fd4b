-- ===== src/Engines/Replay/Defs.antt =====
-- The parts of `replay_market` of ml/src/retail_ml/engines/replay.py: one market under one order policy.
-- Mappings have each key once, as in Python.

use retail_intelligence.Engines.Clock.Defs.{ClockError, Instant, instant_eq}
use retail_intelligence.Base.Sort.{cmp_text, then_by, not_gt, sort_by}
use retail_intelligence.Base.Dict.{Dict, put, get_or, has, total}
use retail_intelligence.Base.Equality.{nat_eq, string_eq, ◌==◌, pair_eq, option_eq}
use retail_intelligence.Base.Int.{ℤ, ◌+ℤ◌, ◌-ℤ◌, ltb_ℤ, leb_ℤ, min_ℤ, max_ℤ, pos}
use retail_intelligence.Base.{
  ℕ, suc, ◌+◌, String, Bool, not, Option, none, some, List, [], ◌∷◌, ◌++◌, map, if◌then◌else◌,
  select,
}

pub record CellState : Type 0 where
  pub on_hand : ℤ
  pub in_transit : ℤ
  pub committed : ℤ

abbrev pub new_cell : CellState
new_cell = record { on_hand = pos 0; in_transit = pos 0; committed = pos 0 }

unfoldable pub available : CellState → ℤ
available cell = max_ℤ (pos 0) (cell.on_hand -ℤ cell.committed)

pub record PeriodResult : Type 0 where
  pub period_open : Instant
  pub market_id : String
  pub opening_units : ℤ
  pub closing_units : ℤ
  pub demand_units : ℤ
  pub served_units : ℤ
  pub lost_units : ℤ
  pub stockout_cells : ℕ
  pub ordered_units : ℤ
  pub received_units : ℤ
  pub wasted_units : ℤ

-- SKU and location
abbrev pub CellKey : Type 0
CellKey = String × String

abbrev pub Cells : Type 0
Cells = Dict CellKey CellState

abbrev pub Flow : Type 0
Flow = Dict CellKey ℤ

-- What the policy is shown of a cell.
pub record PolicyView : Type 0 where
  pub sku_id : String
  pub location_id : String
  pub on_hand_units : ℤ
  pub in_transit_units : ℤ
  pub observed_demand_units : ℤ
  pub market_id : String

abbrev pub OrderPolicy : Type 0
OrderPolicy = PolicyView → ℤ

pub data ReplayError : Type 0 where
  lead_time_too_short seed_not_before : ReplayError
  clock_error : ClockError → ReplayError

abbrev pub on_hand_total : Cells → ℤ
on_hand_total = total (λ (c : CellState). c.on_hand)

abbrev pub cell_at : CellKey → Cells → CellState
cell_at k cells = get_or k new_cell cells

abbrev pub key_le : CellKey → CellKey → Bool
key_le (a, b) (c, d) = not_gt (then_by (cmp_text a c) (cmp_text b d))

abbrev pub item_le : CellKey × ℤ → CellKey × ℤ → Bool
item_le (k, _) (j, _) = key_le k j

-- 1-2. One inbound source: the cells, and the units received so far.
unfoldable pub receive : Flow → Cells × ℤ → Cells × ℤ
receive [] s = s
receive ((key, units) ∷ source) (cells, received) =
    let cell = cell_at key cells in
    receive source (
      put key
          (record cell {
            on_hand = cell.on_hand +ℤ units;
            in_transit = max_ℤ (pos 0) (cell.in_transit -ℤ units);
          })
          cells,
      received +ℤ units,
    )

pub record Fulfilment : Type 0 where
  pub cells : Cells
  pub demanded : ℤ
  pub served : ℤ
  pub stockouts : ℕ

-- 4-5. One demand row of the period.
unfoldable pub fulfil_one : CellKey → ℤ → Fulfilment → Fulfilment
fulfil_one key units s =
    let cell = cell_at key s.cells in
    let served = min_ℤ (available cell) units in
    if leb_ℤ units (pos 0) then s else record {
      cells = put key (record cell { on_hand = cell.on_hand -ℤ served }) s.cells;
      demanded = s.demanded +ℤ units;
      served = s.served +ℤ served;
      stockouts = if ltb_ℤ served units then s.stockouts + 1 else s.stockouts;
    }

unfoldable pub fulfil : Flow → Fulfilment → Fulfilment
fulfil [] s = s
fulfil ((key, units) ∷ rest) s = fulfil rest (fulfil_one key units s)

-- 5b. One write-off of the period.
unfoldable pub write_off_one : CellKey → ℤ → Cells × ℤ → Cells × ℤ
write_off_one key units (cells, wasted) =
    let cell = cell_at key cells in
    let written_off = min_ℤ cell.on_hand units in
    if leb_ℤ units (pos 0) then (cells, wasted) else (
      put key (record cell { on_hand = cell.on_hand -ℤ written_off }) cells,
      wasted +ℤ written_off,
    )

unfoldable pub write_off : Flow → Cells × ℤ → Cells × ℤ
write_off [] s = s
write_off ((key, units) ∷ rest) s = write_off rest (write_off_one key units s)

-- the cells, the units ordered, and the arrivals that are scheduled, by period
pub record Orders : Type 0 where
  pub cells : Cells
  pub ordered : ℤ
  pub scheduled : Dict Instant Flow

-- `scheduled.setdefault(at, {})[key] += quantity`
unfoldable pub schedule : Instant → CellKey → ℤ → Dict Instant Flow → Dict Instant Flow
schedule at key quantity scheduled =
    let arrivals = get_or at [] scheduled in
    put at (put key (get_or key (pos 0) arrivals +ℤ quantity) arrivals) scheduled

unfoldable pub schedule_if : Option Instant → CellKey → ℤ → Dict Instant Flow → Dict Instant Flow
schedule_if none key quantity scheduled = scheduled
schedule_if (some at) key quantity scheduled = schedule at key quantity scheduled

-- 6-7. The policy's order for one cell, after the period's demand.
unfoldable pub order_one : OrderPolicy → String → Flow → Option Instant → CellKey → Orders → Orders
order_one policy market_id period_demand arrival_open key s =
    let cell = cell_at key s.cells in
    let quantity = policy (record {
      sku_id = key.0;
      location_id = key.1;
      on_hand_units = cell.on_hand;
      in_transit_units = cell.in_transit;
      observed_demand_units = get_or key (pos 0) period_demand;
      market_id = market_id;
    }) in
    if leb_ℤ quantity (pos 0) then record s { cells = put key cell s.cells } else record {
      cells = put key (record cell { in_transit = cell.in_transit +ℤ quantity }) s.cells;
      ordered = s.ordered +ℤ quantity;
      scheduled = schedule_if arrival_open key quantity s.scheduled;
    }

unfoldable pub order_all :
    OrderPolicy → String → Flow → Option Instant → List CellKey → Orders → Orders
order_all policy market_id period_demand arrival_open [] s = s
order_all policy market_id period_demand arrival_open (key ∷ keys) s =
    order_all policy market_id period_demand arrival_open keys
      (order_one policy market_id period_demand arrival_open key s)

abbrev pub keys {ℓ} : {V : Type ℓ} → Dict CellKey V → List CellKey
keys = map (λ p. p.0)

-- `sorted(set(cells) | set(period_demand))`
unfoldable pub order_keys : Cells → Flow → List CellKey
order_keys cells period_demand =
    sort_by key_le (keys cells ++ select (λ k. not (has k cells)) (keys period_demand))

-- `period_opens.index(period_open)`
unfoldable pub index_of : Instant → List Instant → ℕ
index_of t [] = 0
index_of t (u ∷ us) = if u == t then 0 else suc (index_of t us)

-- `scheduled.pop(period_open, {})` leaves the other periods
unfoldable pub remove : Instant → Dict Instant Flow → Dict Instant Flow
remove t [] = []
remove t ((u, flow) ∷ rest) = if u == t then rest else (u, flow) ∷ remove t rest
