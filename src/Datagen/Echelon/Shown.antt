-- ===== src/Datagen/Echelon/Shown.antt =====
-- What the rows of a snapshot say of the cells: `snapshot` of
-- datagen/src/retail_datagen/store_inventory.py.

use retail_intelligence.Datagen.Echelon.Publish.{mark_residual, snapshot_row, is_shown}
use retail_intelligence.Datagen.Echelon.Cells.{IsCell}
use retail_intelligence.Datagen.Echelon.Flow.{Cells}
use retail_intelligence.Datagen.Echelon.Rows.{index_of, SnapshotRow, cell_at, is_active}
use retail_intelligence.Datagen.Echelon.Setup.{
  Cell, new_cell, residual_state, Market, Store, CellKey, Setup,
}
use retail_intelligence.Base.Result.{ok}
use retail_intelligence.Base.Dict.{put, get_or-put}
use retail_intelligence.Base.Equality.{
  nat_eq, string_eq, ◌==◌, pair_beq_iff, pair_eq, option_eq, beq_refl,
}
use retail_intelligence.Base.Int.{◌+ℤ◌, ◌-ℤ◌, ◌≤ℤ◌, ltb_ℤ, int_laws, max_ℤ-eq, pos}
use retail_intelligence.Base.{ℕ, ◌≡◌, refl, ◌∙◌, inl, inr, Bool, true, not, ◌||◌, arith, Bool-cases}
use mathlib.Core.Path.{subst}

-- Cells that differ only in since when they are residual.
pub record SameStock (a b : Cell) : Type 0 where
  pub on_hand : a.on_hand ≡ b.on_hand
  pub in_transit : a.in_transit ≡ b.in_transit
  pub committed : a.committed ≡ b.committed
  pub damaged : a.damaged ≡ b.damaged
  pub oldest : a.oldest_receipt_day ≡ b.oldest_receipt_day

pub SameStock-refl : (c : Cell) → SameStock c c
SameStock-refl c = record {
  on_hand = refl;
  in_transit = refl;
  committed = refl;
  damaged = refl;
  oldest = refl;
}

pub mark_residual-SameStock :
    (active : Bool) (day : ℕ) (c d : Cell)
    → SameStock c d
    → SameStock (mark_residual active day c) d
unfolding mark_residual
mark_residual-SameStock active day c d h = record {
  on_hand = h.on_hand;
  in_transit = h.in_transit;
  committed = h.committed;
  damaged = h.damaged;
  oldest = h.oldest;
}

-- All cells of two states hold the same.
abbrev pub Agree : Cells → Cells → Type 0
Agree cells origin = (k : CellKey) → SameStock (cell_at k cells) (cell_at k origin)

pub put-Agree :
    (key : CellKey) (c : Cell) (cells origin : Cells)
    → SameStock c (cell_at key origin)
    → Agree cells origin
    → Agree (put key c cells) origin
put-Agree key c cells origin same h j = elim (Bool-cases (key == j)) [
  | inl e ↦
      subst (λ k. SameStock (cell_at k (put key c cells)) (cell_at k origin))
        ((pair_beq_iff key j).0 e)
        (let self : (key == key) ≡ true = beq_refl key in
          rw (get_or-put key key new_cell c cells, self) same)
  | inr other ↦ rw (get_or-put key j new_cell c cells, other) (h j)
]

abbrev pub row_key : SnapshotRow → CellKey
row_key row = (row.store_key, row.sku)

-- A cell that is assorted, or has units on hand or in transit.
abbrev pub is_listed : Setup → ℕ → Cells → CellKey → Bool
is_listed setup day cells key =
    is_active setup key day
    || ltb_ℤ (pos 0) ((cell_at key cells).on_hand +ℤ (cell_at key cells).in_transit)

-- A row is of a configured store, and says what its cell holds and whether it is assorted; all on
-- hand is available.
pub record IsShown (setup : Setup) (day : ℕ) (cells : Cells) (row : SnapshotRow) : Type 0 where
  pub store : Store
  pub store_known : index_of row.store_key setup.stores ≡ ok store
  pub market_key : row.market_key ≡ store.market_id
  pub location_code : row.location_code ≡ store.location_code
  pub date : row.snapshot_date ≡ day
  pub on_hand : row.on_hand ≡ (cell_at (row_key row) cells).on_hand
  pub available : row.available ≡ (cell_at (row_key row) cells).on_hand
  pub in_transit : row.in_transit ≡ (cell_at (row_key row) cells).in_transit
  pub committed : row.committed ≡ (cell_at (row_key row) cells).committed
  pub damaged : row.damaged ≡ (cell_at (row_key row) cells).damaged
  pub oldest : row.oldest_receipt_date ≡ (cell_at (row_key row) cells).oldest_receipt_day
  pub active : row.assortment_active ≡ is_active setup (row_key row) day
  pub residual : row.residual_only ≡ not (is_active setup (row_key row) day)

pub snapshot_row-IsShown :
    (setup : Setup) (day : ℕ) (key : CellKey) (store : Store) (market : Market) (cells : Cells)
    (c : Cell)
    → index_of key.0 setup.stores ≡ ok store
    → SameStock c (cell_at key cells)
    → IsCell c
    → IsShown setup day cells (snapshot_row (is_active setup key day) day key store market c)
unfolding snapshot_row
snapshot_row-IsShown setup day key store market cells c known same h =
    let s = h.stock in
    let u = h.uncommitted in
    let d = h.undamaged in
    record {
      store = store;
      store_known = known;
      market_key = refl;
      location_code = refl;
      date = refl;
      on_hand = same.on_hand;
      available =
          max_ℤ-eq c.on_hand (c.on_hand -ℤ c.committed -ℤ c.damaged) s (omega int_laws)
          ∙ same.on_hand;
      in_transit = same.in_transit;
      committed = same.committed;
      damaged = same.damaged;
      oldest = same.oldest;
      active = refl;
      residual = refl;
    }

-- the source's test of the whole state of a sound cell
pub is_shown-eq_listed :
    (setup : Setup) (day : ℕ) (key : CellKey) (cells : Cells) (c : Cell)
    → SameStock c (cell_at key cells)
    → IsCell c
    → is_shown (is_active setup key day) c ≡ is_listed setup day cells key
unfolding residual_state
is_shown-eq_listed setup day key cells c same h =
    let s = h.stock in
    let t = h.transit in
    let u = h.uncommitted in
    let d = h.undamaged in
    let a = same.on_hand in
    let b = same.in_transit in
    let held : residual_state c ≡ c.on_hand +ℤ c.in_transit = omega int_laws in
    let low : pos 0 ≤ℤ c.on_hand +ℤ c.in_transit = omega int_laws in
    rw (← a, ← b, held, is_shown) (ground (arith, low))
