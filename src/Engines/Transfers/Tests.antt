-- ===== src/Engines/Transfers/Tests.antt =====
-- Runs of `recommend_transfers`, and its theorems at concrete inputs.
use retail_intelligence.Engines.Transfers.Rows.{IsRecommended, recommend_transfers-IsRecommended}
use retail_intelligence.Engines.Transfers.Limits.{IsWithin, recommend_transfers-IsWithin}
use retail_intelligence.Engines.Transfers.Defs.{
  TransferCandidate, Recommendation, Units, has_two_markets, benefit_le, movable_units, take_units,
  recommend, is_skipped, select_transfers, recommend_transfers,
}
use retail_intelligence.Base.Result.{ok}
use retail_intelligence.Base.Sort.{insert_by, sort_by}
use retail_intelligence.Base.Dict.{put, get_or}
use retail_intelligence.Base.Equality.{nat_eq, string_eq, pair_eq, option_eq}
use retail_intelligence.Base.Int.{◌+ℤ◌, ◌-ℤ◌, ◌*ℤ◌, floor_div, min_ℤ, max_ℤ, neg, pos}
use retail_intelligence.Base.{◌≡◌, refl, false, List, [], ◌∷◌, arith, All}

abbrev nearby : TransferCandidate
nearby = record {
  lane_id = "lane-1";
  from_location_id = "dc-1";
  to_location_id = "store-1";
  sku_id = "sku-1";
  market_id = "us";
  currency_code = "USD";
  units = pos 6;
  expected_benefit_minor = pos 100;
  transit_days = pos 2;
}

abbrev better : TransferCandidate
better = record nearby {
  lane_id = "lane-2";
  to_location_id = "store-2";
  expected_benefit_minor = pos 400;
}

abbrev candidates : List TransferCandidate
candidates = nearby ∷ better ∷ []

abbrev atp : Units
atp = (("dc-1", "sku-1"), pos 10) ∷ []

abbrev reserve : Units
reserve = (("dc-1", "sku-1"), pos 3) ∷ []

abbrev headroom : Units
headroom = (("store-1", "sku-1"), pos 4) ∷ (("store-2", "sku-1"), pos 5) ∷ []

abbrev moves : List Recommendation
moves =
    record { candidate = better; units = pos 5; expected_benefit_minor = pos 333 }
    ∷ record { candidate = nearby; units = pos 2; expected_benefit_minor = pos 33 }
    ∷ []

moves_run : recommend_transfers candidates atp reserve headroom ≡ ok moves
unfolding recommend_transfers has_two_markets sort_by insert_by benefit_le select_transfers
    is_skipped movable_units take_units recommend floor_div get_or put min_ℤ max_ℤ neg ◌+ℤ◌ ◌-ℤ◌
    ◌*ℤ◌
moves_run = refl

one_market : has_two_markets candidates ≡ false
unfolding has_two_markets
one_market = refl

recommend_transfers-IsWithin_example : IsWithin atp reserve headroom moves
recommend_transfers-IsWithin_example =
    recommend_transfers-IsWithin candidates atp reserve headroom moves_run

recommend_transfers-IsRecommended_example :
    (rs : List Recommendation) × (recommend_transfers candidates atp reserve headroom ≡ ok rs)
    × All IsRecommended rs
recommend_transfers-IsRecommended_example =
    recommend_transfers-IsRecommended candidates atp reserve headroom one_market (omega arith)
      (omega arith)
