-- ===== src/Datagen/Echelon/Tests.antt =====
-- Runs of the store echelon at concrete inputs.
use retail_intelligence.Decimal.{
  Decimal, digits_within, num_digits, half_even, round_context, mul, truncate, strip_zeros, divide,
  to_integral,
}
use retail_intelligence.Datagen.Echelon.Delivery.{Rest, DayRun, review-delivers}
use retail_intelligence.Datagen.Echelon.Runs.{Runs, Runs-IsSound, Runs-returns}
use retail_intelligence.Datagen.Echelon.Days.{Step}
use retail_intelligence.Datagen.Echelon.Snapshots.{Shown, snapshot-Shown}
use retail_intelligence.Datagen.Echelon.Sales.{sell-serves}
use retail_intelligence.Datagen.Echelon.Orders.{IsReplenished, review_variant-IsReplenished}
use retail_intelligence.Datagen.Echelon.Publish.{snapshot}
use retail_intelligence.Datagen.Echelon.Configured.{IsStore, IsSetup}
use retail_intelligence.Datagen.Echelon.State.{IsIn, IsPlace, IsSound, on_hand_total}
use retail_intelligence.Datagen.Echelon.Review.{
  trailing_units, span_days, target_units, pack_units, order_units, dispatch_event, send, dispatch,
  review_variant, review_variants, review_stores, review,
}
use retail_intelligence.Datagen.Echelon.Flow.{
  stable_integer, opening_units, open_cell, seed_variant, seed_variants, seed_stores, seed_opening,
  arrive, receive_all, remove_day, receive, serve, sell, expire,
}
use retail_intelligence.Datagen.Echelon.Rows.{
  iso_at, minor_units, Transfer, TransferEvent, WasteEvent, SnapshotRow, Echelon, new_echelon,
  lane_for, is_active, received,
}
use retail_intelligence.Datagen.Echelon.Setup.{
  new_cell, Market, Store, Variant, CellKey, StorePolicy, Setup, add_windows, all_windows,
  post_init,
}
use retail_intelligence.Base.Result.{ok}
use retail_intelligence.Base.Sort.{insert_by, sort_by}
use retail_intelligence.Base.Dict.{Dict, get, put, get_or}
use retail_intelligence.Base.Equality.{nat_eq, string_eq, pair_eq, option_eq}
use retail_intelligence.Base.Int.{◌+ℤ◌, ◌-ℤ◌, ◌*ℤ◌, floor_div, min_ℤ, max_ℤ, neg, pos, negsuc}
use retail_intelligence.Base.{
  ℕ, ◌*◌, ◌<◌, String, ◌≡◌, refl, inl, true, none, some, List, [], ◌∷◌, arith,
}

abbrev shop_variant : Variant
shop_variant = record {
  sku = "tea";
  launch_date = 50;
  discontinue_date = none;
  shelf_life_days = some 30;
  base_cost = some (record { coefficient = pos 125; exponent = negsuc 1 });
}

abbrev shop_store : Store
shop_store = record {
  store_id = "S1";
  market_id = "IN";
  location_code = "BC1";
  warehouse_priority = "W1" ∷ [];
}

abbrev shop_market : Market
shop_market = record { timezone = "Asia/Kolkata"; currency_code = "INR" }

abbrev shop_policy : StorePolicy
shop_policy = record {
  snapshot_cadence_days = none;
  review_cycle_days = some 7;
  target_days_of_cover = none;
  safety_stock_units = none;
  replenishment_pack_size = some 6;
  opening_days_of_cover = none;
  residual_workoff_weeks = none;
  primary_lane_transit_days = some 2;
  spill_lane_transit_days = none;
}

abbrev shop : Setup
shop =
    post_init true shop_policy (("IN", shop_market) ∷ []) (("S1", shop_store) ∷ [])
      (("S1", shop_variant ∷ []) ∷ []) 100 200 "seed"

abbrev shop_rates : Dict CellKey Decimal
shop_rates = (("W1", "tea"), record { coefficient = pos 15; exponent = negsuc 0 }) ∷ []

abbrev digest_of : String → ℕ
digest_of t = 3

abbrev tea : CellKey
tea = ("S1", "tea")

abbrev opened_state : Echelon
opened_state = record new_echelon {
  cells = (tea, record new_cell { on_hand = pos 18; oldest_receipt_day = some 100 }) ∷ [];
}

shop_opened : seed_opening digest_of shop shop_rates new_echelon ≡ ok opened_state
unfolding seed_opening seed_stores lane_for get seed_variants seed_variant opening_units get_or
    is_active truncate mul round_context num_digits digits_within stable_integer open_cell put max_ℤ
    ◌+ℤ◌ ◌*ℤ◌ post_init add_windows all_windows
shop_opened = refl

shop-IsStore : IsStore shop shop_store
unfolding post_init get
shop-IsStore = record {
  self = refl;
  market = shop_market;
  market_known = refl;
  exponent = 2;
  currency_known = refl;
  warehouse = "W1";
  others = [];
  supplied = refl;
  variants = shop_variant ∷ [];
  stocked = refl;
}

shop-IsSetup : IsSetup shop
unfolding post_init get
shop-IsSetup = record { stores = (shop-IsStore, tt); cycle = omega arith; cadence = omega arith }

shop-IsPlace : IsPlace shop "S1"
unfolding post_init get
shop-IsPlace = record {
  store = shop_store;
  market = shop_market;
  store_known = refl;
  market_known = refl;
}

abbrev sold_state : Echelon
sold_state = record {
  cells = (tea, record new_cell { on_hand = pos 6; oldest_receipt_day = some 100 }) ∷ [];
  arrivals = [];
  observed_demand = (tea, (106, pos 12) ∷ []) ∷ [];
}

shop_sold : sell shop 106 tea (pos 12) opened_state ≡ ((pos 12, pos 0), sold_state)
unfolding sell serve get_or put min_ℤ max_ℤ ◌+ℤ◌ ◌-ℤ◌ post_init
shop_sold = refl

sold_run : Runs digest_of shop shop_rates sold_state (pos 18 +ℤ pos 0) (pos 0 +ℤ pos 12)
unfolding sell serve get_or put min_ℤ max_ℤ ◌+ℤ◌ ◌-ℤ◌ post_init
sold_run =
    Runs.stepped opened_state sold_state (pos 18) (pos 0) (pos 0) (pos 12) none
      (Runs.opened opened_state shop_opened) (Step.selling 106 tea (pos 12) shop-IsPlace)

Runs-IsSound_example :
    IsSound shop sold_state
    × (on_hand_total sold_state.cells +ℤ (pos 0 +ℤ pos 12) ≡ pos 18 +ℤ pos 0)
Runs-IsSound_example =
    Runs-IsSound digest_of shop shop_rates sold_state (pos 18 +ℤ pos 0) (pos 0 +ℤ pos 12)
      shop-IsSetup sold_run

shop_dated : shop.review_cycle * 2 < 107
unfolding post_init
shop_dated = omega arith

Runs-returns_example :
    ((a : List TransferEvent × Echelon) × (receive shop 107 sold_state ≡ ok a))
    × ((b : List WasteEvent × Echelon) × (expire shop 107 sold_state ≡ ok b))
    × ((c : List TransferEvent × Echelon) × (review shop 107 sold_state ≡ ok c))
    × ((d : List SnapshotRow × Echelon) × (snapshot shop 107 sold_state ≡ ok d))
Runs-returns_example =
    Runs-returns digest_of shop shop_rates sold_state (pos 18 +ℤ pos 0) (pos 0 +ℤ pos 12) 107
      shop-IsSetup shop_dated sold_run

abbrev tea_order : Transfer
tea_order = record {
  market_key = "IN";
  sku = "tea";
  from_location = "W1";
  store_key = "S1";
  quantity = pos 18;
  order_date = 107;
  expected_receipt_date = 109;
  unit_cost_minor = pos 125;
  currency_code = "INR";
  observed_at = record { day = 107; timezone = "Asia/Kolkata" };
}

abbrev ordered_state : Echelon
ordered_state = record {
  cells =
      (tea, record new_cell { on_hand = pos 6; in_transit = pos 18; oldest_receipt_day = some 100 })
      ∷ [];
  arrivals = (109, tea_order ∷ []) ∷ [];
  observed_demand = (tea, (106, pos 12) ∷ []) ∷ [];
}

shop_reviewed : review shop 107 sold_state ≡ ok (dispatch_event tea_order ∷ [], ordered_state)
unfolding review review_stores review_variants review_variant trailing_units span_days target_units
    pack_units order_units send dispatch lane_for get is_active truncate mul divide round_context
    num_digits digits_within strip_zeros half_even get_or put max_ℤ ◌+ℤ◌ ◌-ℤ◌ ◌*ℤ◌ post_init
    add_windows all_windows sort_by insert_by minor_units to_integral neg floor_div iso_at
shop_reviewed = refl

abbrev delivered_state : Echelon
delivered_state = record {
  cells = (tea, record new_cell { on_hand = pos 24; oldest_receipt_day = some 100 }) ∷ [];
  arrivals = [];
  observed_demand = (tea, (106, pos 12) ∷ []) ∷ [];
}

abbrev tea_received : TransferEvent
tea_received = record {
  transfer = tea_order;
  status = received;
  status_effective_at = record { day = 109; timezone = "Asia/Kolkata" };
  observed_at = record { day = 109; timezone = "Asia/Kolkata" };
}

quiet_run : receive shop 108 ordered_state ≡ ok ([], ordered_state)
unfolding receive receive_all remove_day get_or post_init
quiet_run = refl

delivery_run : receive shop 109 ordered_state ≡ ok (tea_received ∷ [], delivered_state)
unfolding receive receive_all remove_day arrive get get_or put max_ℤ ◌+ℤ◌ ◌-ℤ◌ iso_at post_init
delivery_run = refl

two_days : DayRun shop 108 ordered_state 110 (tea_order ∷ []) delivered_state
two_days =
    DayRun.passed 109 [] ordered_state (tea_received ∷ [], delivered_state) delivered_state
      (DayRun.passed 108 [] ordered_state ([], ordered_state) ordered_state DayRun.started quiet_run
        Rest.done)
      delivery_run Rest.done

review-delivers_example :
    IsIn tea_order (tea_order ∷ [])
    × (got : List TransferEvent × Echelon) × (receive shop 110 delivered_state ≡ ok got)
unfolding post_init
review-delivers_example =
    review-delivers digest_of shop shop_rates sold_state (pos 18 +ℤ pos 0) (pos 0 +ℤ pos 12) 107
      (dispatch_event tea_order ∷ [], ordered_state) tea_order ordered_state 110 (tea_order ∷ [])
      delivered_state shop-IsSetup refl (omega arith) shop_dated sold_run shop_reviewed (inl refl)
      (omega arith) Rest.done two_days (omega arith)

review_variant-IsReplenished_example :
    (out : List TransferEvent × Echelon) × (review_variant shop 107 shop_store
        ("W1", 2)
        shop_variant
        sold_state
      ≡ ok out)
    × IsReplenished shop 107 tea sold_state out.0
unfolding post_init
review_variant-IsReplenished_example =
    review_variant-IsReplenished shop 107 shop_store ("W1", 2) shop_variant sold_state (omega arith)
      shop-IsStore

opened_run : Runs digest_of shop shop_rates opened_state (pos 18 +ℤ pos 0) (pos 0)
unfolding ◌+ℤ◌
opened_run = Runs.opened opened_state shop_opened

opened-IsSound : IsSound shop opened_state
opened-IsSound =
    (Runs-IsSound digest_of shop shop_rates opened_state (pos 18 +ℤ pos 0) (pos 0) shop-IsSetup
      opened_run).0

sell-serves_example :
    (((sell shop 106 tea (pos 12) opened_state).0).0 ≡ min_ℤ (pos 18) (pos 12))
    × (((sell shop 106 tea (pos 12) opened_state).0).0
          +ℤ ((sell shop 106 tea (pos 12) opened_state).0).1
        ≡ pos 12)
unfolding post_init get_or
sell-serves_example =
    sell-serves shop 106 tea (pos 12) opened_state refl (omega arith) opened-IsSound

snapshot-Shown_example : Shown shop 107 opened_state (snapshot shop 107 opened_state)
snapshot-Shown_example = snapshot-Shown shop 107 opened_state shop-IsSetup opened-IsSound
