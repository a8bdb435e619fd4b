-- ===== src/Engines/Transfers/Defs.antt =====
-- `TransferCandidate` and `recommend_transfers` of ml/src/retail_ml/engines/optimizers.py.
use retail_intelligence.Base.Result.{Result, ok, err}
use retail_intelligence.Base.Sort.{cmp_ℤ, cmp_text, then_by, not_gt, sort_by}
use retail_intelligence.Base.Dict.{Dict, put, get_or}
use retail_intelligence.Base.Equality.{◌==◌, nat_eq, string_eq, pair_eq, option_eq}
use retail_intelligence.Base.Int.{
  ℤ, pos_part, ◌-ℤ◌, ◌*ℤ◌, floor_div, ltb_ℤ, leb_ℤ, min_ℤ, max_ℤ, neg, pos,
}
use retail_intelligence.Base.{String, Bool, false, not, ◌||◌, List, [], ◌∷◌, if◌then◌else◌, any}

pub record TransferCandidate : Type 0 where
  pub lane_id : String
  pub from_location_id : String
  pub to_location_id : String
  pub sku_id : String
  pub market_id : String
  pub currency_code : String
  pub units : ℤ
  pub expected_benefit_minor : ℤ
  pub transit_days : ℤ

-- A row of the result: the fields that are copied from the candidate, and the two computed ones.
pub record Recommendation : Type 0 where
  pub candidate : TransferCandidate
  pub units : ℤ
  pub expected_benefit_minor : ℤ

-- The `ValueError` and the `ConservationError`.
pub data TransferError : Type 0 where
  crosses_markets negative_source : TransferError

-- location and SKU
abbrev pub StockKey : Type 0
StockKey = String × String

abbrev pub Units : Type 0
Units = Dict StockKey ℤ

abbrev pub units_at : StockKey → Units → ℤ
units_at k d = get_or k (pos 0) d

-- `remaining_atp` and `remaining_headroom`
abbrev pub Remaining : Type 0
Remaining = Units × Units

abbrev pub source_key : TransferCandidate → StockKey
source_key c = (c.from_location_id, c.sku_id)

abbrev pub target_key : TransferCandidate → StockKey
target_key c = (c.to_location_id, c.sku_id)

-- `len({market ids}) > 1`
unfoldable pub has_two_markets : List TransferCandidate → Bool
has_two_markets [] = false
has_two_markets (c ∷ cs) = any (λ d. not (d.market_id == c.market_id)) cs

unfoldable pub benefit_le : TransferCandidate → TransferCandidate → Bool
benefit_le a b = not_gt (
    then_by (cmp_ℤ (neg a.expected_benefit_minor) (neg b.expected_benefit_minor)) (
      then_by (cmp_ℤ a.transit_days b.transit_days) (
        then_by (cmp_text a.from_location_id b.from_location_id)
          (then_by (cmp_text a.to_location_id b.to_location_id) (cmp_text a.sku_id b.sku_id)))))

unfoldable pub movable_units : TransferCandidate → Units → Remaining → ℤ
movable_units c reserve (atp, headroom) =
    min_ℤ
      (min_ℤ c.units
        (max_ℤ (pos 0) (units_at (source_key c) atp -ℤ units_at (source_key c) reserve)))
      (units_at (target_key c) headroom)

unfoldable pub take_units : TransferCandidate → ℤ → Remaining → Remaining
take_units c movable (atp, headroom) = (
  put (source_key c) (units_at (source_key c) atp -ℤ movable) atp,
  put (target_key c) (units_at (target_key c) headroom -ℤ movable) headroom,
)

-- The benefit in proportion to what is moved, rounded down.
unfoldable pub recommend : TransferCandidate → ℤ → Recommendation
recommend c movable = record {
  candidate = c;
  units = movable;
  expected_benefit_minor =
      floor_div (c.expected_benefit_minor *ℤ movable) (pos_part (max_ℤ (pos 1) c.units));
}

-- the guards of the loop's two `continue`s
unfoldable pub is_skipped : TransferCandidate → Bool
is_skipped c = leb_ℤ c.units (pos 0) || leb_ℤ c.expected_benefit_minor (pos 0)

-- The loop over the ordered candidates: what it recommends, and what remains.
unfoldable pub select_transfers :
    Units → List TransferCandidate → Remaining → List Recommendation × Remaining
select_transfers reserve [] s = ([], s)
select_transfers reserve (c ∷ cs) s =
    let movable = movable_units c reserve s in
    let skip = select_transfers reserve cs s in
    let move = select_transfers reserve cs (take_units c movable s) in
    if is_skipped c || leb_ℤ movable (pos 0) then skip else (recommend c movable ∷ move.0, move.1)

abbrev pub is_negative : StockKey × ℤ → Bool
is_negative (k, atp) = ltb_ℤ atp (pos 0)

unfoldable pub recommend_transfers :
    List TransferCandidate → Units → Units → Units → Result TransferError (List Recommendation)
recommend_transfers candidates source_atp source_residual_cover_units target_headroom_units =
    if has_two_markets candidates
    then err crosses_markets
    else (let (recommendations, remaining) =
          select_transfers source_residual_cover_units (sort_by benefit_le candidates)
            (source_atp, target_headroom_units) in
        if any is_negative remaining.0 then err negative_source else ok recommendations)
