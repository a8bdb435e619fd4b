-- ===== src/Engines/Allocation/Tests.antt =====
-- Runs of `allocate_channels`, and its theorems at concrete inputs.
use retail_intelligence.Decimal.{Decimal, num_digits, half_even, round_context, mul, truncate}
use retail_intelligence.Engines.Allocation.Conservation.{
  IsWellFormed, IsPlan, full_pool, floor_pool, allocate_channels-IsPlan,
}
use retail_intelligence.Engines.Allocation.Priority.{Outranks, spend-Outranks}
use retail_intelligence.Engines.Allocation.Defs.{
  ChannelDemand, ChannelAllocation, AllocationPlan, AllocationError, row_key, has_duplicate,
  priority_le, floor_units, grant_floors, top_up, top_up_all, spend, report_row, settle,
  by_priority, allocate_channels, duplicate_row,
}
use retail_intelligence.Base.Result.{Result, ok, err}
use retail_intelligence.Base.Sort.{insert_by, sort_by}
use retail_intelligence.Base.Equality.{nat_eq, string_eq, pair_eq, option_eq}
use retail_intelligence.Base.Int.{ℤ, ◌+ℤ◌, ◌-ℤ◌, ◌*ℤ◌, min_ℤ, neg, pos, negsuc}
use retail_intelligence.Base.{◌≡◌, refl, inl, false, List, [], ◌∷◌, map, arith, All}

-- Two channels of one node: the second one has the better service class.
abbrev web : ChannelDemand
web = record {
  market_id = "us";
  location_id = "dc-1";
  channel_id = "web";
  sku_id = "sku-1";
  service_class_rank = pos 2;
  value_weight_minor = pos 900;
  requested_units = pos 8;
}

abbrev store : ChannelDemand
store = record web { channel_id = "store"; service_class_rank = pos 1; requested_units = pos 7 }

abbrev rows : List ChannelDemand
rows = web ∷ store ∷ []

-- 0.25
abbrev quarter : Decimal
quarter = record { coefficient = pos 25; exponent = negsuc 1 }

abbrev units_of : Result AllocationError AllocationPlan → List ℤ
units_of (ok plan) =
    plan.residual_units ∷ map (λ (r : ChannelAllocation). r.allocated_units) plan.allocations
units_of (err e) = []

floors_run : map (floor_units quarter) rows ≡ pos 2 ∷ pos 1 ∷ []
unfolding floor_units mul truncate round_context num_digits half_even ◌*ℤ◌ ◌+ℤ◌ ◌-ℤ◌ neg
floors_run = refl

-- The floors are 2 and 1; the store row is served in full, and the web row gets what is left.
allocation_run : units_of (allocate_channels (pos 10) rows quarter) ≡ pos 0 ∷ pos 3 ∷ pos 7 ∷ []
unfolding allocate_channels has_duplicate by_priority sort_by insert_by priority_le spend settle
    grant_floors top_up_all top_up report_row floor_units mul truncate round_context num_digits
    half_even ◌*ℤ◌ ◌+ℤ◌ ◌-ℤ◌ neg min_ℤ
allocation_run = refl

duplicate_run : allocate_channels (pos 10) (web ∷ web ∷ []) quarter ≡ err duplicate_row
unfolding allocate_channels has_duplicate
duplicate_run = refl

rows-IsWellFormed : All (IsWellFormed quarter) rows
unfolding floor_units mul truncate round_context num_digits half_even ◌*ℤ◌ ◌+ℤ◌ ◌-ℤ◌ neg
rows-IsWellFormed = ((omega arith, λ _. omega arith), ((omega arith, λ _. omega arith), tt))

rows-distinct : has_duplicate (map row_key rows) ≡ false
unfolding has_duplicate
rows-distinct = refl

allocate_channels-IsPlan_example :
    (plan : AllocationPlan) × (allocate_channels (pos 10) rows quarter ≡ ok plan)
    × IsPlan (pos 10) rows plan
allocate_channels-IsPlan_example =
    allocate_channels-IsPlan (pos 10) rows quarter (omega arith) rows-distinct rows-IsWellFormed

spend-Outranks_example :
    Outranks
      (floor_pool quarter rows (pos 10))
      (spend quarter (by_priority rows) (full_pool (pos 10) rows))
      (1, store)
      (0, web)
spend-Outranks_example =
    spend-Outranks (pos 10) rows quarter 1 0 (omega arith) rows-IsWellFormed refl refl
      (inl (omega arith))
