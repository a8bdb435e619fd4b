-- ===== src/Datagen/Echelon/Review.antt =====
-- Replenishment of the store echelon: `review` of
-- datagen/src/retail_datagen/store_inventory.py. A generator is the list of what it yields.
use retail_intelligence.Decimal.{of_ℤ, mul, truncate, divide}
use retail_intelligence.Datagen.Echelon.Flow.{transfer_key}
use retail_intelligence.Datagen.Echelon.Rows.{
  index_of, iso_at, minor_units, default_cost, Transfer, TransferEvent, Echelon, cell_at, lane_for,
  is_active, dispatched,
}
use retail_intelligence.Datagen.Echelon.Setup.{
  EchelonError, Cell, Market, Store, Variant, CellKey, Setup, zero_division, date_overflow,
}
use retail_intelligence.Base.Result.{Result, ◌>>=◌, ◌>>◌, raise_if, ok}
use retail_intelligence.Base.Sort.{cmp_text, not_gt, sort_by}
use retail_intelligence.Base.Dict.{Dict, put, get_or}
use retail_intelligence.Base.Equality.{nat_eq, string_eq, pair_eq, option_eq}
use retail_intelligence.Base.Int.{ℤ, ◌+ℤ◌, ◌-ℤ◌, ◌*ℤ◌, floor_div, leb_ℤ, neg, sum_ℤ, pos}
use retail_intelligence.Base.{
  ℕ, ◌+◌, ◌-◌, ◌*◌, ◌%◌, String, Bool, not, ◌&&◌, ◌||◌, Option, none, some, List, [], ◌∷◌, ◌++◌,
  map, ltb, leb, eqb, if◌then◌else◌, select,
}

abbrev pub store_le : Store → Store → Bool
store_le a b = not_gt (cmp_text a.store_id b.store_id)

-- `sum` of the units observed from `day - 2 * cycle` to `day`
unfoldable pub trailing_units : (cycle day : ℕ) → Dict ℕ ℤ → ℤ
trailing_units cycle day observed =
    sum_ℤ (map (λ p. p.1) (select (λ p. leb day (p.0 + cycle * 2) && leb p.0 day) observed))

-- the days over which the rate is taken
unfoldable pub span_days : Setup → ℕ → ℕ
span_days setup day =
    let days =
      if ltb (setup.review_cycle * 2) (day - setup.start + 1)
      then setup.review_cycle * 2
      else day - setup.start + 1 in
    if ltb days 1 then 1 else days

-- The units that a store wants to hold or have on order.
unfoldable pub target_units : Setup → ℕ → ℤ → ℤ
target_units setup day trailing =
    truncate
      (mul (divide trailing (pos (span_days setup day))) (of_ℤ (pos setup.target_cover_days)))
    +ℤ pos setup.safety_stock

-- The shortfall in whole packs, rounded up: `-(-shortfall // pack) * pack`.
unfoldable pub pack_units : ℕ → ℤ → ℤ
pack_units pack shortfall = neg (floor_div (neg shortfall) pack) *ℤ pos pack

-- The units to order for a cell: `none` where no order is placed.
unfoldable pub order_units : Setup → ℕ → ℤ → Cell → Option ℤ
order_units setup day trailing cell =
    let position = cell.on_hand +ℤ cell.in_transit -ℤ cell.damaged in
    let target = target_units setup day trailing in
    let quantity = pack_units setup.pack_size (target -ℤ position) in
    if leb_ℤ target position || leb_ℤ quantity (pos 0) then none else some quantity

-- The order that `review` places: the part of the event that `arrivals` keeps.
abbrev pub order_for : ℕ → Store → (String × ℕ) → Variant → ℤ → Market → (cost : ℤ) → Transfer
order_for day store lane v quantity market cost = record {
  market_key = store.market_id;
  sku = v.sku;
  from_location = lane.0;
  store_key = store.store_id;
  quantity = quantity;
  order_date = day;
  expected_receipt_date = day + lane.1;
  unit_cost_minor = cost;
  currency_code = market.currency_code;
  observed_at = iso_at day market;
}

abbrev pub dispatch_event : Transfer → TransferEvent
dispatch_event t = record {
  transfer = t;
  status = dispatched;
  status_effective_at = t.observed_at;
  observed_at = t.observed_at;
}

unfoldable pub send : ℤ → Cell → Cell
send quantity cell = record cell { in_transit = cell.in_transit +ℤ quantity }

-- Sends an order on its way: it arrives if its receipt day lies in the run.
unfoldable pub dispatch : Setup → Transfer → Echelon → Echelon
dispatch setup t s =
    let receipt_day = t.expected_receipt_date in
    record s {
      cells = put (transfer_key t) (send t.quantity (cell_at (transfer_key t) s.cells)) s.cells;
      arrivals =
          if leb receipt_day setup.end_date
          then put receipt_day (get_or receipt_day [] s.arrivals ++ t ∷ []) s.arrivals
          else s.arrivals;
    }

unfoldable pub review_variant :
    Setup
    → ℕ
    → Store
    → (String × ℕ)
    → Variant
    → Echelon
    → Result EchelonError (List TransferEvent × Echelon)
review_variant setup day store lane v s =
    let key : CellKey = (store.store_id, v.sku) in
    let trailing = trailing_units setup.review_cycle day (get_or key [] s.observed_demand) in
    let cell = cell_at key s.cells in
    if not (is_active setup key day) || leb_ℤ trailing (pos 0)
    then ok ([], s)
    else elim (order_units setup day trailing cell) [
      | none ↦ ok ([], record s { cells = put key cell s.cells })
      | some quantity ↦ do
        market ← index_of store.market_id setup.markets
        cost ← minor_units (default_cost v.base_cost) market.currency_code
        let t = order_for day store lane v quantity market cost
        ok (dispatch_event t ∷ [], dispatch setup t s)
    ]

unfoldable pub review_variants :
    Setup
    → ℕ
    → Store
    → (String × ℕ)
    → List Variant
    → Echelon
    → Result EchelonError (List TransferEvent × Echelon)
review_variants setup day store lane [] s = ok ([], s)
review_variants setup day store lane (v ∷ variants) s = do
  one ← review_variant setup day store lane v s
  rest ← review_variants setup day store lane variants one.1
  ok (one.0 ++ rest.0, rest.1)

unfoldable pub review_stores :
    Setup → ℕ → List Store → Echelon → Result EchelonError (List TransferEvent × Echelon)
review_stores setup day [] s = ok ([], s)
review_stores setup day (store ∷ stores) s = do
  lane ← lane_for setup store.store_id
  variants ← index_of store.store_id setup.store_variants
  one ← review_variants setup day store lane variants s
  rest ← review_stores setup day stores one.1
  ok (one.0 ++ rest.0, rest.1)

-- `(day - self.start).days % cycle == 0`, where a day before the start counts backwards
abbrev pub on_cycle : Setup → ℕ → ℕ → Bool
on_cycle setup cycle day = eqb (day % cycle) (setup.start % cycle)

unfoldable pub review : Setup → ℕ → Echelon → Result EchelonError (List TransferEvent × Echelon)
review setup day s = if not setup.enabled then ok ([], s) else do
  raise_if (eqb setup.review_cycle 0) zero_division
  if not (on_cycle setup setup.review_cycle day) then ok ([], s) else do
    raise_if (leb day (setup.review_cycle * 2)) date_overflow
    review_stores setup day (sort_by store_le (map (λ p. p.1) setup.stores)) s
