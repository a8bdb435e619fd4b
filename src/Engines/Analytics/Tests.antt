-- ===== src/Engines/Analytics/Tests.antt =====
-- Weighted-average costs at concrete inputs.
use retail_intelligence.Engines.Analytics.Costs.{IsAverage, store_wac_minor-IsAverage}
use retail_intelligence.Engines.Analytics.Defs.{
  first_bucket, age_bucket, Receipt, cost_receipt, cost_receipts, store_wac_minor,
}
use retail_intelligence.Base.Result.{ok}
use retail_intelligence.Base.Equality.{nat_eq, string_eq, pair_eq, option_eq}
use retail_intelligence.Base.Int.{◌+ℤ◌, ◌*ℤ◌, floor_div, pos}
use retail_intelligence.Base.{◌≡◌, refl, inl, inr, none, some, List, [], ◌∷◌, arith}

abbrev receipts : List Receipt
receipts =
    record { qty = pos 3; unit_cost_minor = some (pos 100); currency_code = "INR" }
    ∷ record { qty = pos 1; unit_cost_minor = some (pos 110); currency_code = "INR" }
    ∷ record { qty = pos 9; unit_cost_minor = none; currency_code = "USD" }
    ∷ []

wac_run : store_wac_minor receipts ≡ ok (some (pos 102, some "INR"))
unfolding store_wac_minor cost_receipts cost_receipt floor_div ◌+ℤ◌ ◌*ℤ◌
wac_run = refl

store_wac_minor-IsAverage_example : IsAverage 100 110 receipts (store_wac_minor receipts)
store_wac_minor-IsAverage_example = store_wac_minor-IsAverage 100 110 receipts (
  inr (100, refl, omega arith, omega arith),
  (inr (110, refl, omega arith, omega arith), (inl refl, tt)),
)

old_stock_run : age_bucket (pos 75) ≡ ok (60, some 90)
unfolding age_bucket first_bucket
old_stock_run = refl
