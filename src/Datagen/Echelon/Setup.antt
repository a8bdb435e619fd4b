-- ===== src/Datagen/Echelon/Setup.antt =====
-- The configuration and the cells of a `StoreEchelon`, of
-- datagen/src/retail_datagen/store_inventory.py, and `__post_init__`. A date is its ordinal.

use retail_intelligence.Base.Dict.{Dict, put}
use retail_intelligence.Base.Equality.{nat_eq, string_eq, pair_eq, option_eq}
use retail_intelligence.Base.Int.{ℤ, ◌+ℤ◌, pos}
use retail_intelligence.Base.{
  ℕ, String, Bool, Option, none, some, List, [], ◌∷◌, ltb, eqb, if◌then◌else◌,
}
use retail_intelligence.Decimal.{Decimal}

pub data EchelonError : Type 0 where
  key_error index_error zero_division date_overflow unknown_currency : EchelonError

pub record Cell : Type 0 where
  pub on_hand : ℤ
  pub committed : ℤ
  pub damaged : ℤ
  pub in_transit : ℤ
  pub oldest_receipt_day : Option ℕ
  pub residual_since : Option ℕ

abbrev pub new_cell : Cell
new_cell = record {
  on_hand = pos 0;
  committed = pos 0;
  damaged = pos 0;
  in_transit = pos 0;
  oldest_receipt_day = none;
  residual_since = none;
}

unfoldable pub residual_state : Cell → ℤ
residual_state c = c.on_hand +ℤ c.committed +ℤ c.damaged +ℤ c.in_transit

pub record Market : Type 0 where
  pub timezone : String
  pub currency_code : String

pub record Store : Type 0 where
  pub store_id : String
  pub market_id : String
  pub location_code : String
  pub warehouse_priority : List String

-- A variant of a product in a store's catalogue.
pub record Variant : Type 0 where
  pub sku : String
  pub launch_date : ℕ
  pub discontinue_date : Option ℕ
  -- `none` and zero: no shelf life
  pub shelf_life_days : Option ℕ
  pub base_cost : Option Decimal

-- Store and SKU
abbrev pub CellKey : Type 0
CellKey = String × String

-- `operations.storeInventory`, each entry where the configuration gives it
pub record StorePolicy : Type 0 where
  pub snapshot_cadence_days : Option ℕ
  pub review_cycle_days : Option ℕ
  pub target_days_of_cover : Option ℕ
  pub safety_stock_units : Option ℕ
  pub replenishment_pack_size : Option ℕ
  pub opening_days_of_cover : Option ℕ
  pub residual_workoff_weeks : Option ℕ
  pub primary_lane_transit_days : Option ℕ
  pub spill_lane_transit_days : Option ℕ

-- What an echelon is made from, and what `__post_init__` derives of it.
pub record Setup : Type 0 where
  pub enabled : Bool
  pub markets : Dict String Market
  pub stores : Dict String Store
  pub store_variants : Dict String (List Variant)
  pub start : ℕ
  pub end_date : ℕ
  pub master_seed : String
  pub snapshot_cadence : ℕ
  pub review_cycle : ℕ
  pub target_cover_days : ℕ
  pub safety_stock : ℕ
  pub pack_size : ℕ
  pub opening_cover_days : ℕ
  pub residual_workoff_weeks : ℕ
  pub primary_transit : ℕ
  pub spill_transit : ℕ
  pub assortment_window : Dict CellKey (ℕ × Option ℕ)
  pub shelf_life : Dict String ℕ

abbrev pub default_to : ℕ → Option ℕ → ℕ
default_to d none = d
default_to d (some n) = n

-- The windows of one store's variants, a later row of a SKU replacing an earlier one.
unfoldable pub add_windows :
    String → List Variant → Dict CellKey (ℕ × Option ℕ) → Dict CellKey (ℕ × Option ℕ)
add_windows store_id [] windows = windows
add_windows store_id (v ∷ variants) windows =
    add_windows store_id variants
      (put (store_id, v.sku) (v.launch_date, v.discontinue_date) windows)

unfoldable pub all_windows :
    Dict String (List Variant) → Dict CellKey (ℕ × Option ℕ) → Dict CellKey (ℕ × Option ℕ)
all_windows [] windows = windows
all_windows ((store_id, variants) ∷ rest) windows =
    all_windows rest (add_windows store_id variants windows)

abbrev pub put_shelf_life : Variant → Dict String ℕ → Dict String ℕ
put_shelf_life v lives = elim v.shelf_life_days [
  | none ↦ lives
  | some days ↦ if eqb days 0 then lives else put v.sku days lives
]

unfoldable pub add_shelf_lives : List Variant → Dict String ℕ → Dict String ℕ
add_shelf_lives [] lives = lives
add_shelf_lives (v ∷ variants) lives = add_shelf_lives variants (put_shelf_life v lives)

unfoldable pub all_shelf_lives : Dict String (List Variant) → Dict String ℕ → Dict String ℕ
all_shelf_lives [] lives = lives
all_shelf_lives ((store_id, variants) ∷ rest) lives =
    all_shelf_lives rest (add_shelf_lives variants lives)

-- `__post_init__`
unfoldable pub post_init :
    (enabled : Bool)
    → StorePolicy
    → Dict String Market
    → Dict String Store
    → Dict String (List Variant)
    → (start end_date : ℕ) (master_seed : String) → Setup
post_init enabled policy markets stores store_variants start end_date master_seed = record {
  enabled = enabled;
  markets = markets;
  stores = stores;
  store_variants = store_variants;
  start = start;
  end_date = end_date;
  master_seed = master_seed;
  snapshot_cadence = default_to 7 policy.snapshot_cadence_days;
  review_cycle = default_to 7 policy.review_cycle_days;
  target_cover_days = default_to 14 policy.target_days_of_cover;
  safety_stock = default_to 3 policy.safety_stock_units;
  pack_size =
      let size = default_to 6 policy.replenishment_pack_size in if ltb size 1 then 1 else size;
  opening_cover_days = default_to 10 policy.opening_days_of_cover;
  residual_workoff_weeks = default_to 26 policy.residual_workoff_weeks;
  primary_transit = default_to 1 policy.primary_lane_transit_days;
  spill_transit = default_to 2 policy.spill_lane_transit_days;
  assortment_window = all_windows store_variants [];
  shelf_life = all_shelf_lives store_variants [];
}
