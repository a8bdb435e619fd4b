-- ===== src/Datagen/Echelon/Flow.antt =====
-- The daily flow of the store echelon: `seed_opening`, `receive`, `sell` and `expire` of
-- datagen/src/retail_datagen/store_inventory.py. A generator is the list of what it yields.
use retail_intelligence.Base.Texts.{join_parts}
use retail_intelligence.Decimal.{Decimal, of_ℤ, mul, truncate}
use retail_intelligence.Datagen.Echelon.Rows.{
  index_of, iso_at, Transfer, TransferEvent, WasteEvent, Echelon, cell_at, lane_for, is_active,
  received,
}
use retail_intelligence.Datagen.Echelon.Setup.{
  EchelonError, Cell, Store, Variant, CellKey, Setup, default_to,
}
use retail_intelligence.Base.Result.{Result, ◌>>=◌, ok}
use retail_intelligence.Base.Sort.{cmp_text, then_by, not_gt, sort_by}
use retail_intelligence.Base.Dict.{Dict, get, put, get_or}
use retail_intelligence.Base.Equality.{nat_eq, string_eq, ◌==◌, pair_eq, option_eq}
use retail_intelligence.Base.Int.{ℤ, ◌+ℤ◌, ◌-ℤ◌, floor_div, leb_ℤ, eqb_ℤ, min_ℤ, max_ℤ, pos}
use retail_intelligence.Base.{
  ℕ, ◌+◌, ◌%◌, String, Bool, not, ◌||◌, Option, none, some, List, [], ◌∷◌, map, ltb, if◌then◌else◌,
}

abbrev pub Cells : Type 0
Cells = Dict CellKey Cell

-- `stable_integer`, where `digest` gives the first eight bytes of the SHA-256 of a text as a number
unfoldable pub stable_integer : (digest : String → ℕ) → List String → (modulo : ℕ) → ℕ
stable_integer digest parts modulo = digest (join_parts parts) % modulo

-- The opening stock of a SKU in a store.
unfoldable pub opening_units :
    (String → ℕ) → Setup → Dict CellKey Decimal → (store_id warehouse_id sku : String) → ℤ
opening_units digest setup rates store_id warehouse_id sku =
    let daily = get_or (warehouse_id, sku) (of_ℤ (pos 0)) rates in
    let planned = truncate (mul (of_ℤ (pos setup.opening_cover_days)) daily) in
    let jitter =
      stable_integer digest (setup.master_seed ∷ "store-opening-stock" ∷ store_id ∷ sku ∷ [])
        setup.pack_size in
    max_ℤ (pos 0) (planned +ℤ pos jitter)

unfoldable pub open_cell : ℕ → ℤ → Cell → Cell
open_cell start opening cell = record cell { on_hand = opening; oldest_receipt_day = some start }

unfoldable pub seed_variant :
    (String → ℕ)
    → Setup
    → Dict CellKey Decimal
    → (store_id warehouse_id : String) → Variant
    → Cells
    → Cells
seed_variant digest setup rates store_id warehouse_id v cells =
    let opening = opening_units digest setup rates store_id warehouse_id v.sku in
    let key : CellKey = (store_id, v.sku) in
    if not (is_active setup key setup.start) || eqb_ℤ opening (pos 0)
    then cells
    else put key (open_cell setup.start opening (cell_at key cells)) cells

unfoldable pub seed_variants :
    (String → ℕ)
    → Setup
    → Dict CellKey Decimal
    → (store_id warehouse_id : String) → List Variant
    → Cells
    → Cells
seed_variants digest setup rates store_id warehouse_id [] cells = cells
seed_variants digest setup rates store_id warehouse_id (v ∷ variants) cells =
    seed_variants digest setup rates store_id warehouse_id variants
      (seed_variant digest setup rates store_id warehouse_id v cells)

unfoldable pub seed_stores :
    (String → ℕ) → Setup → Dict CellKey Decimal → List Store → Cells → Result EchelonError Cells
seed_stores digest setup rates [] cells = ok cells
seed_stores digest setup rates (store ∷ stores) cells = do
  lane ← lane_for setup store.store_id
  variants ← index_of store.store_id setup.store_variants
  seed_stores digest setup rates stores
      (seed_variants digest setup rates store.store_id lane.0 variants cells)

unfoldable pub seed_opening :
    (String → ℕ) → Setup → Dict CellKey Decimal → Echelon → Result EchelonError Echelon
seed_opening digest setup rates s = if not setup.enabled then ok s else do
  cells ← seed_stores digest setup rates (map (λ p. p.1) setup.stores) s.cells
  ok (record s { cells = cells })

-- What one arrival does to its cell.
unfoldable pub arrive : ℕ → ℤ → Cell → Cell
arrive day quantity cell = record cell {
  in_transit = max_ℤ (pos 0) (cell.in_transit -ℤ quantity);
  on_hand = cell.on_hand +ℤ quantity;
  oldest_receipt_day = some (default_to day cell.oldest_receipt_day);
}

abbrev pub transfer_key : Transfer → CellKey
transfer_key t = (t.store_key, t.sku)

unfoldable pub receive_all :
    Setup → ℕ → List Transfer → Cells → Result EchelonError (List TransferEvent × Cells)
receive_all setup day [] cells = ok ([], cells)
receive_all setup day (t ∷ due) cells = do
  let key = transfer_key t
  let cell = arrive day t.quantity (cell_at key cells)
  market ← index_of t.market_key setup.markets
  rest ← receive_all setup day due (put key cell cells)
  let stamp = iso_at day market
  ok (
    record { transfer = t; status = received; status_effective_at = stamp; observed_at = stamp }
        ∷ rest.0,
    rest.1,
  )

-- `self.arrivals.pop(day, [])` leaves the other days
unfoldable pub remove_day : ℕ → Dict ℕ (List Transfer) → Dict ℕ (List Transfer)
remove_day day [] = []
remove_day day ((d, ts) ∷ arrivals) =
    if d == day then arrivals else (d, ts) ∷ remove_day day arrivals

unfoldable pub receive : Setup → ℕ → Echelon → Result EchelonError (List TransferEvent × Echelon)
receive setup day s = if not setup.enabled then ok ([], s) else do
  out ← receive_all setup day (get_or day [] s.arrivals) s.cells
  ok (out.0, record s { cells = out.1; arrivals = remove_day day s.arrivals })

-- What a sale leaves of its cell, and what it serves.
unfoldable pub serve : ℤ → Cell → ℤ × Cell
serve units cell =
    let available = max_ℤ (pos 0) (cell.on_hand -ℤ cell.damaged) in
    let served = min_ℤ available units in
    let left = cell.on_hand -ℤ served in
    (
      served,
      record cell {
        on_hand = left;
        oldest_receipt_day = if eqb_ℤ left (pos 0) then none else cell.oldest_receipt_day;
      },
    )

-- The units served from the shelf and the shortfall, and the new state.
unfoldable pub sell : Setup → ℕ → CellKey → ℤ → Echelon → (ℤ × ℤ) × Echelon
sell setup day key units s =
    let seen = get_or key [] s.observed_demand in
    let (served, cell) = serve units (cell_at key s.cells) in
    if not setup.enabled || leb_ℤ units (pos 0) then ((pos 0, pos 0), s) else (
      (served, units -ℤ served),
      record s {
        cells = put key cell s.cells;
        observed_demand =
            put key (put day (get_or day (pos 0) seen +ℤ units) seen) s.observed_demand;
      },
    )

-- What expires of a cell today: `none` where nothing does.
unfoldable pub expired_units : (day : ℕ) (shelf_life oldest : Option ℕ) (on_hand : ℤ) → Option ℤ
expired_units day (some life) (some oldest) on_hand =
    if leb_ℤ on_hand (pos 0) || ltb day (oldest + life)
    then none
    else some (min_ℤ (max_ℤ (pos 1) (floor_div on_hand 4)) on_hand)
expired_units day _ _ on_hand = none

unfoldable pub waste : ℕ → ℤ → Cell → Cell
waste day wasted cell =
    let left = cell.on_hand -ℤ wasted in
    record cell {
      on_hand = left;
      oldest_receipt_day = if eqb_ℤ left (pos 0) then none else some day;
    }

abbrev pub key_le : CellKey → CellKey → Bool
key_le (a, b) (c, d) = not_gt (then_by (cmp_text a c) (cmp_text b d))

-- the keys of the cells in order; `sorted(self.cells.items())` never compares two cells
unfoldable pub sorted_keys : Cells → List CellKey
sorted_keys cells = sort_by key_le (map (λ p. p.0) cells)

unfoldable pub expire_all :
    Setup → ℕ → List CellKey → Cells → Result EchelonError (List WasteEvent × Cells)
expire_all setup day [] cells = ok ([], cells)
expire_all setup day (key ∷ keys) cells =
    let cell = cell_at key cells in
    elim (expired_units day (get key.1 setup.shelf_life) cell.oldest_receipt_day cell.on_hand) [
      | none ↦ expire_all setup day keys cells
      | some wasted ↦ do
        store ← index_of key.0 setup.stores
        market ← index_of store.market_id setup.markets
        rest ← expire_all setup day keys (put key (waste day wasted cell) cells)
        ok (
          record {
            market_key = store.market_id;
            store_key = key.0;
            sku = key.1;
            event_date = day;
            units = wasted;
            observed_at = iso_at day market;
          }
              ∷ rest.0,
          rest.1,
        )
    ]

unfoldable pub expire : Setup → ℕ → Echelon → Result EchelonError (List WasteEvent × Echelon)
expire setup day s = if not setup.enabled then ok ([], s) else do
  out ← expire_all setup day (sorted_keys s.cells) s.cells
  ok (out.0, record s { cells = out.1 })
