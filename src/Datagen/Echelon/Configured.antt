-- ===== src/Datagen/Echelon/Configured.antt =====
-- A configuration that the store echelon of datagen/src/retail_datagen/store_inventory.py can run on.
use retail_intelligence.Decimal.{Decimal}
use retail_intelligence.Datagen.Echelon.State.{IsPlace}
use retail_intelligence.Datagen.Echelon.Rows.{index_of, minor_exponents, minor_units, lane_for}
use retail_intelligence.Datagen.Echelon.Setup.{Market, Store, Variant, Setup}
use retail_intelligence.Base.Result.{ok}
use retail_intelligence.Base.Dict.{Dict, get}
use retail_intelligence.Base.Equality.{nat_eq, string_eq, pair_eq, option_eq}
use retail_intelligence.Base.Int.{ℤ}
use retail_intelligence.Base.{ℕ, ◌≤◌, String, ◌≡◌, refl, some, List, [], ◌∷◌, map, All}

-- A store that is found under its id, with a market of a known currency, a warehouse and variants.
pub record IsStore (setup : Setup) (store : Store) : Type 0 where
  pub self : index_of store.store_id setup.stores ≡ ok store
  pub market : Market
  pub market_known : index_of store.market_id setup.markets ≡ ok market
  pub exponent : ℕ
  pub currency_known : get market.currency_code minor_exponents ≡ some exponent
  pub warehouse : String
  pub others : List String
  pub supplied : store.warehouse_priority ≡ warehouse ∷ others
  pub variants : List Variant
  pub stocked : index_of store.store_id setup.store_variants ≡ ok variants

pub record IsSetup (setup : Setup) : Type 0 where
  pub stores : All (λ (p : String × Store). IsStore setup p.1) setup.stores
  pub cycle : 1 ≤ setup.review_cycle
  pub cadence : 1 ≤ setup.snapshot_cadence

pub store-IsPlace :
    (setup : Setup) (store : Store) → IsStore setup store → IsPlace setup store.store_id
store-IsPlace setup store h = record {
  store = store;
  market = h.market;
  store_known = h.self;
  market_known = h.market_known;
}

pub lane_for-eq_ok :
    (setup : Setup) (store : Store)
    → (h : IsStore setup store)
    → lane_for setup store.store_id ≡ ok (h.warehouse, setup.primary_transit)
unfolding lane_for
lane_for-eq_ok setup store h = rw (h.self, h.supplied) refl

pub minor_units-eq_ok :
    (amount : Decimal) (setup : Setup) (store : Store) (h : IsStore setup store)
    → (cost : ℤ) × (minor_units amount (h.market).currency_code ≡ ok cost)
unfolding minor_units
minor_units-eq_ok amount setup store h = rw h.currency_known (_, refl)

values-All :
    (P : Store → Type 0) (stores : Dict String Store)
    → All (λ (p : String × Store). P p.1) stores
    → All P (map (λ p. p.1) stores)
values-All P [] h = tt
values-All P (p ∷ stores) h = (h.0, values-All P stores h.1)

pub all_stores : (setup : Setup) → IsSetup setup → All (IsStore setup) (map (λ p. p.1) setup.stores)
all_stores setup h = values-All (IsStore setup) setup.stores h.stores
