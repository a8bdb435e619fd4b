-- ===== src/Engines/Allocation/Defs.antt =====
-- `allocate_channels` of ml/src/retail_ml/engines/optimizers.py.
use retail_intelligence.Base.{
  ℕ, zero, String, Bool, false, ◌||◌, List, [], ◌∷◌, map, length, get_at, set, replicate, enumerate,
  any, if◌then◌else◌,
}
use retail_intelligence.Base.Int.{ℤ, pos, neg, ◌+ℤ◌, ◌-ℤ◌, ltb_ℤ, eqb_ℤ, min_ℤ, sum_ℤ}
use retail_intelligence.Base.Equality.{◌==◌, string_eq, pair_eq}
use retail_intelligence.Base.Sort.{cmp_ℤ, cmp_text, then_by, not_gt, sort_by}
use retail_intelligence.Base.Result.{Result, ok, err}
use retail_intelligence.Decimal.{Decimal, of_ℤ, mul, truncate}

pub record ChannelDemand : Type 0 where
  pub market_id : String
  pub location_id : String
  pub channel_id : String
  pub sku_id : String
  pub service_class_rank : ℤ
  pub value_weight_minor : ℤ
  pub requested_units : ℤ

pub record ChannelAllocation : Type 0 where
  pub demand : ChannelDemand
  pub allocated_units : ℤ
  pub shortfall_units : ℤ

pub record AllocationPlan : Type 0 where
  pub allocations : List ChannelAllocation
  pub residual_units : ℤ
  pub pool_units : ℤ

-- The two `ValueError`s and the two `ConservationError`s.
pub data AllocationError : Type 0 where
  negative_atp duplicate_row not_conserved above_request : AllocationError

abbrev pub RowKey : Type 0
RowKey = String × (String × (String × String))

abbrev pub row_key : ChannelDemand → RowKey
row_key d = (d.market_id, (d.location_id, (d.channel_id, d.sku_id)))

-- `len(set(keys)) != len(keys)`
unfoldable pub has_duplicate : List RowKey → Bool
has_duplicate [] = false
has_duplicate (k ∷ ks) = any (λ j. j == k) ks || has_duplicate ks

-- Not after in the order of the sort key: service class, then value weight descending, then the
-- identity of the row.
unfoldable pub priority_le : ℕ × ChannelDemand → ℕ × ChannelDemand → Bool
priority_le (_, a) (_, b) = not_gt (
    then_by (cmp_ℤ a.service_class_rank b.service_class_rank) (
      then_by (cmp_ℤ (neg a.value_weight_minor) (neg b.value_weight_minor)) (
        then_by (cmp_text a.market_id b.market_id) (
          then_by (cmp_text a.location_id b.location_id)
            (then_by (cmp_text a.channel_id b.channel_id) (cmp_text a.sku_id b.sku_id))))))

-- `allocations` and `remaining`
abbrev pub Pool : Type 0
Pool = List ℤ × ℤ

unfoldable pub floor_units : Decimal → ChannelDemand → ℤ
floor_units share d = truncate (mul (of_ℤ d.requested_units) share)

-- The first loop: the floor of every row.
unfoldable pub grant_floors : Decimal → List (ℕ × ChannelDemand) → Pool → Pool
grant_floors share [] pool = pool
grant_floors share ((index, d) ∷ rest) (allocations, remaining) =
    let granted = min_ℤ (floor_units share d) remaining in
    grant_floors share rest (set allocations index granted, remaining -ℤ granted)

-- One round of the second loop.
unfoldable pub top_up : ℕ → ChannelDemand → Pool → Pool
top_up index d (allocations, remaining) =
    let had = get_at allocations index (pos 0) in
    let units = min_ℤ (d.requested_units -ℤ had) remaining in
    if ltb_ℤ (pos 0) units
    then (set allocations index (had +ℤ units), remaining -ℤ units)
    else (allocations, remaining)

unfoldable pub top_up_all : List (ℕ × ChannelDemand) → Pool → Pool
top_up_all [] pool = pool
top_up_all ((index, d) ∷ rest) pool = top_up_all rest (top_up index d pool)

-- `minimum_share > 0` guards the first loop.
unfoldable pub spend : Decimal → List (ℕ × ChannelDemand) → Pool → Pool
spend share ordered pool =
    top_up_all ordered
      (if ltb_ℤ (pos 0) share.coefficient then grant_floors share ordered pool else pool)

abbrev pub exceeds : List ℤ → ℕ × ChannelDemand → Bool
exceeds allocations (index, d) = ltb_ℤ d.requested_units (get_at allocations index (pos 0))

unfoldable pub report_row : List ℤ → ℕ × ChannelDemand → ChannelAllocation
report_row allocations (index, d) = record {
  demand = d;
  allocated_units = get_at allocations index (pos 0);
  shortfall_units = d.requested_units -ℤ get_at allocations index (pos 0);
}

-- The checks on the way out, and the report.
unfoldable pub settle : ℤ → List ChannelDemand → Pool → Result AllocationError AllocationPlan
settle node_atp_units demands (allocations, remaining) =
    if eqb_ℤ (sum_ℤ allocations +ℤ remaining) node_atp_units
    then (if any (exceeds allocations) (enumerate zero demands)
        then err above_request
        else ok (record {
          allocations = map (report_row allocations) (enumerate zero demands);
          residual_units = remaining;
          pool_units = node_atp_units;
        }))
    else err not_conserved

unfoldable pub by_priority : List ChannelDemand → List (ℕ × ChannelDemand)
by_priority demands = sort_by priority_le (enumerate zero demands)

unfoldable pub allocate_channels :
    ℤ → List ChannelDemand → Decimal → Result AllocationError AllocationPlan
allocate_channels node_atp_units demands minimum_share =
    if ltb_ℤ node_atp_units (pos 0)
    then err negative_atp
    else if has_duplicate (map row_key demands)
    then err duplicate_row
    else settle node_atp_units demands (
        spend minimum_share (by_priority demands)
          (replicate (length demands) (pos 0), node_atp_units))
