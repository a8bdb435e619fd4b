-- ===== src/Datagen/Echelon/Publish.antt =====
-- What the store echelon publishes: `lane_rows`, `snapshot` and `coverage_summary` of
-- datagen/src/retail_datagen/store_inventory.py. A generator is the list of what it yields.
use retail_intelligence.Base.Texts.{distinct}
use retail_intelligence.Datagen.Echelon.Review.{on_cycle}
use retail_intelligence.Datagen.Echelon.Flow.{Cells, stable_integer, sorted_keys}
use retail_intelligence.Datagen.Echelon.Rows.{
  Stamp, index_of, iso_at, SnapshotRow, Echelon, cell_at, is_active,
}
use retail_intelligence.Datagen.Echelon.Setup.{
  EchelonError, Cell, residual_state, Market, Store, CellKey, Setup, zero_division,
}
use retail_intelligence.Base.Result.{Result, ◌>>=◌, ◌>>◌, raise_if, ok}
use retail_intelligence.Base.Sort.{cmp_text, not_gt, sort_by}
use retail_intelligence.Base.Dict.{put}
use retail_intelligence.Base.Equality.{nat_eq, string_eq, pair_eq, option_eq}
use retail_intelligence.Base.Int.{◌-ℤ◌, ltb_ℤ, eqb_ℤ, max_ℤ, pos}
use retail_intelligence.Base.{
  ℕ, suc, ◌+◌, String, Bool, true, false, not, ◌&&◌, ◌||◌, none, some, List, [], ◌∷◌, ◌++◌, map,
  eqb, if◌then◌else◌, length, select,
}
use Prim.Native.String.{◌++◌ as concat}

-- A row of the declared supply relationship; its constant fields are left out.
pub record LaneRow : Type 0 where
  pub lane_key : String
  pub market_key : String
  pub demand_location_key : String
  pub supply_location_key : String
  pub priority_rank : ℕ
  pub transit_days : ℕ
  pub effective_from : ℕ
  pub observed_at : Stamp

abbrev pub lane_key_le : LaneRow → LaneRow → Bool
lane_key_le a b = not_gt (cmp_text a.lane_key b.lane_key)

-- The lanes of one store, ranked from `rank` on.
unfoldable pub store_lanes :
    (digest : String → ℕ)
    → Setup
    → Store
    → (rank : ℕ) → List String
    → Result EchelonError (List LaneRow)
store_lanes digest setup store rank [] = ok []
store_lanes digest setup store rank (warehouse_id ∷ priority) = do
  let base = if eqb rank 1 then setup.primary_transit else setup.spill_transit
  let spread = stable_integer digest ("lane-transit" ∷ store.store_id ∷ warehouse_id ∷ []) 4
  market ← index_of store.market_id setup.markets
  rest ← store_lanes digest setup store (suc rank) priority
  ok (
      record {
        lane_key = concat store.store_id (concat ":" (concat warehouse_id ":replenishment"));
        market_key = store.market_id;
        demand_location_key = store.store_id;
        supply_location_key = warehouse_id;
        priority_rank = rank;
        transit_days = base + spread;
        effective_from = setup.start;
        observed_at = iso_at setup.start market;
      }
      ∷ rest)

unfoldable pub all_lanes :
    (digest : String → ℕ) → Setup → List Store → Result EchelonError (List LaneRow)
all_lanes digest setup [] = ok []
all_lanes digest setup (store ∷ stores) = do
  rows ← store_lanes digest setup store 1 store.warehouse_priority
  rest ← all_lanes digest setup stores
  ok (rows ++ rest)

unfoldable pub lane_rows : (digest : String → ℕ) → Setup → Result EchelonError (List LaneRow)
lane_rows digest setup = do
  rows ← all_lanes digest setup (map (λ p. p.1) setup.stores)
  ok (sort_by lane_key_le rows)

-- The cell once it has been looked at: since when it is held outside the assortment.
unfoldable pub mark_residual : (active : Bool) → ℕ → Cell → Cell
mark_residual active day cell = record cell {
  residual_since =
      if active then none else elim cell.residual_since [ none ↦ some day | some d ↦ some d ];
}

unfoldable pub snapshot_row : (active : Bool) → ℕ → CellKey → Store → Market → Cell → SnapshotRow
snapshot_row active day key store market cell = record {
  market_key = store.market_id;
  store_key = key.0;
  location_code = store.location_code;
  sku = key.1;
  snapshot_date = day;
  observed_at = iso_at day market;
  on_hand = cell.on_hand;
  available = max_ℤ (pos 0) (cell.on_hand -ℤ cell.committed -ℤ cell.damaged);
  committed = cell.committed;
  damaged = cell.damaged;
  in_transit = cell.in_transit;
  assortment_active = active;
  residual_only = not active;
  oldest_receipt_date = cell.oldest_receipt_day;
}

abbrev pub is_shown : (active : Bool) → Cell → Bool
is_shown active cell = active || not (eqb_ℤ (residual_state cell) (pos 0))

unfoldable pub snapshot_all :
    Setup → ℕ → List CellKey → Cells → Result EchelonError (List SnapshotRow × Cells)
snapshot_all setup day [] cells = ok ([], cells)
snapshot_all setup day (key ∷ keys) cells =
    let cell = cell_at key cells in
    let active = is_active setup key day in
    elim (is_shown active cell) [
      | false ↦ snapshot_all setup day keys cells
      | true ↦ do
        store ← index_of key.0 setup.stores
        market ← index_of store.market_id setup.markets
        rest ← snapshot_all setup day keys (put key (mark_residual active day cell) cells)
        ok (snapshot_row active day key store market cell ∷ rest.0, rest.1)
    ]

abbrev pub is_snapshot_day : Setup → ℕ → Bool
is_snapshot_day setup day = on_cycle setup setup.snapshot_cadence day || eqb day setup.end_date

unfoldable pub snapshot : Setup → ℕ → Echelon → Result EchelonError (List SnapshotRow × Echelon)
snapshot setup day s = if not setup.enabled then ok ([], s) else do
  raise_if (eqb setup.snapshot_cadence 0) zero_division
  if not (is_snapshot_day setup day) then ok ([], s) else do
    out ← snapshot_all setup day (sorted_keys s.cells) s.cells
    ok (out.0, record s { cells = out.1 })

pub record CoverageSummary : Type 0 where
  pub cells : ℕ
  pub active_cells_at_end : ℕ
  pub residual_cells_at_end : ℕ
  pub stores_with_stock : ℕ

abbrev pub is_residual_at_end : Setup → CellKey × Cell → Bool
is_residual_at_end setup (key, cell) =
    not (is_active setup key setup.end_date) && ltb_ℤ (pos 0) (residual_state cell)

abbrev pub has_stock : CellKey × Cell → Bool
has_stock (_, cell) = not (eqb_ℤ cell.on_hand (pos 0))

abbrev pub store_of : CellKey × Cell → String
store_of ((store_id, _), _) = store_id

unfoldable pub coverage_summary : Setup → Echelon → CoverageSummary
coverage_summary setup s = record {
  cells = length s.cells;
  active_cells_at_end = length (select (λ p. is_active setup p.0 setup.end_date) s.cells);
  residual_cells_at_end = length (select (is_residual_at_end setup) s.cells);
  stores_with_stock = length (distinct (map store_of (select has_stock s.cells)));
}
