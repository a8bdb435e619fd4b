-- ===== src/Engines/Cohorts/Tests.antt =====
-- A split of three keys, one of them given twice, and the theorem at it.
use retail_intelligence.Engines.Cohorts.Assign.{
  assigned, IsByBucket, split_by_assignment-IsPartition,
}
use retail_intelligence.Engines.Cohorts.Partition.{IsPartition, split_cohorts-IsPartition}
use retail_intelligence.Engines.Cohorts.Defs.{
  ReplayKey, contains, add_key, Cohorts, assign_key, assign_keys, is_subset, split_cohorts,
  unknown_cohort,
}
use retail_intelligence.Base.Result.{ok, err}
use retail_intelligence.Base.Equality.{nat_eq, string_eq, ◌==◌, pair_eq, option_eq}
use retail_intelligence.Base.Int.{pos}
use retail_intelligence.Base.{
  ℕ, String, ◌≡◌, refl, inl, inr, List, [], ◌∷◌, arith, if◌then◌else◌, All,
}

abbrev key_of : String → ReplayKey
key_of sku = ("acme", ("acme-uk", ("uk", ("store-1", sku))))

abbrev assign : ReplayKey → String
assign k = if k == key_of "sku-2" then "holdout" else "calibration"

abbrev keys : List ReplayKey
keys = key_of "sku-1" ∷ key_of "sku-2" ∷ key_of "sku-1" ∷ []

split_run :
    split_cohorts assign keys
    ≡ ok (record {
      calibration = key_of "sku-1" ∷ [];
      holdout = key_of "sku-2" ∷ [];
      all_keys = key_of "sku-1" ∷ key_of "sku-2" ∷ [];
    })
unfolding split_cohorts assign_keys assign_key add_key contains is_subset
split_run = refl

third_cohort_run : split_cohorts (λ _. "test") keys ≡ err unknown_cohort
unfolding split_cohorts assign_keys assign_key
third_cohort_run = refl

split_cohorts-IsPartition_example :
    (s : Cohorts) × (split_cohorts assign keys ≡ ok s)
    × IsPartition assign s
    × ((k : ReplayKey) → contains k s.all_keys ≡ contains k keys)
split_cohorts-IsPartition_example =
    split_cohorts-IsPartition assign keys (inl refl, (inr refl, (inl refl, tt)))

abbrev fixed_digest : String → ℕ
fixed_digest text = if text == "" then 0 else 42

split_by_assignment-IsPartition_example :
    (s : Cohorts) × (split_cohorts (assigned fixed_digest "20260801" (pos 5)) keys ≡ ok s)
    × IsPartition (assigned fixed_digest "20260801" (pos 5)) s
    × ((k : ReplayKey) → contains k s.all_keys ≡ contains k keys)
    × All (IsByBucket fixed_digest "20260801" (pos 5) s) keys
split_by_assignment-IsPartition_example =
    split_by_assignment-IsPartition fixed_digest "20260801" (pos 5) keys (omega arith) (omega arith)
      (refl, (refl, (refl, tt)))
