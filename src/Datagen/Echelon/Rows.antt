-- ===== src/Datagen/Echelon/Rows.antt =====
-- The rows that the store echelon publishes, its mutable state, and its small helpers. A time stamp is
-- a day, at 23:00, with the name of its time zone.

use retail_intelligence.Datagen.Echelon.Setup.{
  EchelonError, Cell, new_cell, Market, CellKey, Setup, key_error, index_error, unknown_currency,
}
use retail_intelligence.Base.Result.{Result, ◌>>=◌, from_option, ok, err}
use retail_intelligence.Base.Dict.{Dict, get, get_or}
use retail_intelligence.Base.Equality.{nat_eq, string_eq, pair_eq, option_eq}
use retail_intelligence.Base.Int.{ℤ, pos}
use retail_intelligence.Base.{
  ℕ, ◌^◌, String, Bool, false, not, ◌&&◌, Option, none, some, List, [], ◌∷◌, ltb, leb,
}
use retail_intelligence.Decimal.{Decimal, of_ℤ, mul, to_integral}

pub record Stamp : Type 0 where
  pub day : ℕ
  pub timezone : String

-- `self.markets[market_id]`, and the other mappings read by index
abbrev pub index_of {ℓ} : {V : Type ℓ} → String → Dict String V → Result EchelonError V
index_of k d = from_option key_error (get k d)

unfoldable pub iso_at : ℕ → Market → Stamp
iso_at day market = record { day = day; timezone = market.timezone }

abbrev pub minor_exponents : Dict String ℕ
minor_exponents = ("INR", 2) ∷ ("USD", 2) ∷ []

-- `_minor_units`: the power of ten is an integer, which the product takes as a decimal.
unfoldable pub minor_units : Decimal → String → Result EchelonError ℤ
minor_units amount currency = do
  exponent ← from_option unknown_currency (get currency minor_exponents)
  ok (to_integral (mul amount (of_ℤ (pos (10 ^ exponent)))))

-- `variant.get("_baseCost") or Decimal(0)`
abbrev pub default_cost : Option Decimal → Decimal
default_cost none = of_ℤ (pos 0)
default_cost (some cost) = cost

-- One replenishment order of a store.
pub record Transfer : Type 0 where
  pub market_key : String
  pub sku : String
  pub from_location : String
  pub store_key : String
  pub quantity : ℤ
  pub order_date : ℕ
  pub expected_receipt_date : ℕ
  pub unit_cost_minor : ℤ
  pub currency_code : String
  pub observed_at : Stamp

pub data TransferStatus : Type 0 where
  dispatched received : TransferStatus

pub record TransferEvent : Type 0 where
  pub transfer : Transfer
  pub status : TransferStatus
  pub status_effective_at : Stamp
  pub observed_at : Stamp

pub record WasteEvent : Type 0 where
  pub market_key : String
  pub store_key : String
  pub sku : String
  pub event_date : ℕ
  pub units : ℤ
  pub observed_at : Stamp

pub record SnapshotRow : Type 0 where
  pub market_key : String
  pub store_key : String
  pub location_code : String
  pub sku : String
  pub snapshot_date : ℕ
  pub observed_at : Stamp
  pub on_hand : ℤ
  pub available : ℤ
  pub committed : ℤ
  pub damaged : ℤ
  pub in_transit : ℤ
  pub assortment_active : Bool
  pub residual_only : Bool
  pub oldest_receipt_date : Option ℕ

-- The mutable part of a `StoreEchelon`.
pub record Echelon : Type 0 where
  pub cells : Dict CellKey Cell
  pub arrivals : Dict ℕ (List Transfer)
  pub observed_demand : Dict CellKey (Dict ℕ ℤ)

abbrev pub new_echelon : Echelon
new_echelon = record { cells = []; arrivals = []; observed_demand = [] }

-- `_cell`: the cell, a new one where there is none; its callers write the cell.
abbrev pub cell_at : CellKey → Dict CellKey Cell → Cell
cell_at k cells = get_or k new_cell cells

-- `_lane_for`
unfoldable pub lane_for : Setup → String → Result EchelonError (String × ℕ)
lane_for setup store_id = do
  store ← index_of store_id setup.stores
  elim store.warehouse_priority [
    | [] ↦ err index_error
    | warehouse_id ∷ _ ↦ ok (warehouse_id, setup.primary_transit)
  ]

abbrev pub in_window : ℕ → ℕ × Option ℕ → Bool
in_window day (launch, none) = not (ltb day launch)
in_window day (launch, some discontinue) = not (ltb day launch) && leb day discontinue

unfoldable pub is_active : Setup → CellKey → ℕ → Bool
is_active setup key day = elim (get key setup.assortment_window) [
  | none ↦ false
  | some window ↦ in_window day window
]
