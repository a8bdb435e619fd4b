-- ===== src/Engines/Analytics/Defs.antt =====
-- `age_bucket`, `ageing_action`, `expiry_exposure`, `store_wac_minor` and `supplier_risk` of
-- ml/src/retail_ml/engines/analytics.py. A date is its ordinal, and a set is a list.
use retail_intelligence.Decimal.{Decimal, of_ℤ, lt_decimal}
use retail_intelligence.Base.Texts.{member}
use retail_intelligence.Base.Result.{Result, ◌>>◌, raise_if, ok, err}
use retail_intelligence.Base.Equality.{nat_eq, string_eq, pair_eq, option_eq}
use retail_intelligence.Base.Int.{
  ℤ, pos_part, ◌+ℤ◌, ◌*ℤ◌, floor_div, ltb_ℤ, leb_ℤ, eqb_ℤ, pos, negsuc,
}
use retail_intelligence.Base.{
  ℕ, ◌+◌, String, Bool, true, false, ◌&&◌, Option, none, some, List, [], ◌∷◌, ◌++◌, ltb, leb,
  if◌then◌else◌, length,
}

pub data AnalyticsError : Type 0 where
  negative_age no_bucket mixed_currencies : AnalyticsError

-- a bucket of `AGE_BUCKETS`, the last one without an upper edge
abbrev pub Bucket : Type 0
Bucket = ℕ × Option ℕ

abbrev pub age_buckets : List Bucket
age_buckets = (0, some 30) ∷ (30, some 60) ∷ (60, some 90) ∷ (90, some 180) ∷ (180, none) ∷ []

abbrev pub is_below : ℤ → Option ℕ → Bool
is_below age none = true
is_below age (some upper) = ltb_ℤ age (pos upper)

unfoldable pub first_bucket : ℤ → List Bucket → Result AnalyticsError Bucket
first_bucket age [] = err no_bucket
first_bucket age ((lower, upper) ∷ buckets) =
    let rest = first_bucket age buckets in if is_below age upper then ok (lower, upper) else rest

-- `age_bucket`: the bucket that the text names
unfoldable pub age_bucket : ℤ → Result AnalyticsError Bucket
age_bucket age = do raise_if (ltb_ℤ age (pos 0)) negative_age; first_bucket age age_buckets

pub data Action : Type 0 where
  watch hold markdown_candidate : Action

unfoldable pub action_of :
    (age : ℤ) (cover : Option Decimal) (hold_cover_days markdown_cover_days : ℤ) → Action
action_of age none hold_days markdown_days =
    if leb_ℤ markdown_days age then markdown_candidate else hold
action_of age (some cover) hold_days markdown_days =
    if leb_ℤ markdown_days age && lt_decimal (of_ℤ markdown_days) cover
    then markdown_candidate
    else if leb_ℤ hold_days age && lt_decimal (of_ℤ hold_days) cover
    then hold
    else watch

-- `ageing_action`: the action, and the markdown where it is a candidate for one
unfoldable pub ageing_action :
    (age : ℤ) (cover : Option Decimal) (hold_cover_days markdown_cover_days : ℤ)
    (markdown_pct : Decimal)
    → Action × Option Decimal
ageing_action age cover hold_days markdown_days pct =
    let action = action_of age cover hold_days markdown_days in
    (action, elim action [ markdown_candidate ↦ some pct | _ ↦ none ])

-- `set.add`
abbrev pub add_text : String → List String → List String
add_text text texts = if member text texts then texts else texts ++ text ∷ []

abbrev pub first_text : List String → Option String
first_text [] = none
first_text (text ∷ texts) = some text

pub record Batch : Type 0 where
  pub expiry_date : Option ℕ
  pub on_hand_units : ℤ
  pub unit_cost_minor : Option ℤ
  pub currency_code : String

pub record Exposure : Type 0 where
  pub expiring_units : ℤ
  pub expired_units : ℤ
  pub exposure_minor : ℤ
  pub currencies : List String

-- A batch with an expiry date and stock.
unfoldable pub expose : (as_of window : ℕ) (expiry : ℕ) → Batch → Exposure → Exposure
expose as_of window expiry batch s =
    let units = batch.on_hand_units in
    if ltb expiry as_of
    then record s { expired_units = s.expired_units +ℤ units }
    else if leb expiry (as_of + window)
    then elim batch.unit_cost_minor [
      | none ↦ record s { expiring_units = s.expiring_units +ℤ units }
      | some cost ↦ record s {
        expiring_units = s.expiring_units +ℤ units;
        exposure_minor = s.exposure_minor +ℤ units *ℤ cost;
        currencies = add_text batch.currency_code s.currencies;
      }
    ]
    else s

unfoldable pub expose_all : (as_of window : ℕ) → List Batch → Exposure → Exposure
expose_all as_of window [] s = s
expose_all as_of window (batch ∷ batches) s = elim batch.expiry_date [
  | none ↦ expose_all as_of window batches s
  | some expiry ↦
      expose_all as_of window batches
        (if leb_ℤ batch.on_hand_units (pos 0) then s else expose as_of window expiry batch s)
]

unfoldable pub expiry_exposure :
    List Batch → (as_of window : ℕ) → Result AnalyticsError (Exposure × Option String)
expiry_exposure batches as_of window = do
  let s = expose_all as_of window batches (record {
    expiring_units = pos 0;
    expired_units = pos 0;
    exposure_minor = pos 0;
    currencies = [];
  })
  raise_if (ltb 1 (length s.currencies)) mixed_currencies
  ok (s, first_text s.currencies)

pub record Receipt : Type 0 where
  pub qty : ℤ
  pub unit_cost_minor : Option ℤ
  pub currency_code : String

-- The units and cost so far, and the currencies seen.
pub record Costing : Type 0 where
  pub total_units : ℤ
  pub total_cost : ℤ
  pub currencies : List String

unfoldable pub cost_receipt : Receipt → Costing → Costing
cost_receipt receipt s = elim receipt.unit_cost_minor [
  | none ↦ s
  | some cost ↦ if leb_ℤ receipt.qty (pos 0) then s else record {
    total_units = s.total_units +ℤ receipt.qty;
    total_cost = s.total_cost +ℤ receipt.qty *ℤ cost;
    currencies = add_text receipt.currency_code s.currencies;
  }
]

unfoldable pub cost_receipts : List Receipt → Costing → Costing
cost_receipts [] s = s
cost_receipts (receipt ∷ receipts) s = cost_receipts receipts (cost_receipt receipt s)

-- The cost and its currency: `none` where no receipt carries a cost.
unfoldable pub store_wac_minor : List Receipt → Result AnalyticsError (Option (ℤ × Option String))
store_wac_minor receipts = do
  let s =
      cost_receipts receipts (record { total_units = pos 0; total_cost = pos 0; currencies = [] })
  raise_if (ltb 1 (length s.currencies)) mixed_currencies
  if eqb_ℤ s.total_units (pos 0)
      then ok none
      else ok (some (floor_div s.total_cost (pos_part s.total_units), first_text s.currencies))

abbrev pub reason_if : Bool → String → List String
reason_if true reason = reason ∷ []
reason_if false reason = []

abbrev pub variability_reasons : Option Decimal → List String
variability_reasons none = "LEAD_TIME_VARIABILITY_UNAVAILABLE" ∷ []
variability_reasons (some std) = reason_if (lt_decimal (of_ℤ (pos 3)) std) "LEAD_TIME_VOLATILE"

unfoldable pub supplier_risk :
    (otd_rate : Decimal) (lead_time_std_days : Option Decimal)
    (capacity_confirmed_pct capacity_floor_pct : Decimal)
    → String × List String
supplier_risk otd std confirmed floor_pct =
    let reasons =
      reason_if (lt_decimal otd (record { coefficient = pos 90; exponent = negsuc 1 }))
        "OTD_BELOW_FLOOR"
      ++ reason_if (lt_decimal confirmed floor_pct) "CAPACITY_UNCONFIRMED"
      ++ variability_reasons std in
    (
      if member "OTD_BELOW_FLOOR" reasons && leb 2 (length reasons)
          then "high"
          else if ltb 0 (length reasons)
          then "medium"
          else "low",
      reasons,
    )
