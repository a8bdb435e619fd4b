-- ===== src/Engines/Cohorts/Defs.antt =====
-- `split_cohorts` of ml/src/retail_ml/engines/replay.py. The assignment is a parameter there too; here
-- it is a function of the key. A set is a list that holds each key once.
use retail_intelligence.Base.Result.{Result, ◌>>=◌, ◌>>◌, raise_if, ok, err}
use retail_intelligence.Base.Equality.{nat_eq, string_eq, ◌==◌, pair_eq, option_eq}
use retail_intelligence.Base.{
  String, Bool, false, not, ◌&&◌, ◌||◌, List, [], ◌∷◌, ◌++◌, if◌then◌else◌, any, all,
}

-- retailer, tenant, market, location and SKU
abbrev pub ReplayKey : Type 0
ReplayKey = String × (String × (String × (String × String)))

pub data CohortError : Type 0 where
  unknown_cohort cohorts_overlap cohorts_incomplete : CohortError

unfoldable pub contains : ReplayKey → List ReplayKey → Bool
contains k [] = false
contains k (j ∷ js) = j == k || contains k js

-- `set.add`
unfoldable pub add_key : ReplayKey → List ReplayKey → List ReplayKey
add_key k keys = if contains k keys then keys else keys ++ (k ∷ [])

pub record Cohorts : Type 0 where
  pub calibration : List ReplayKey
  pub holdout : List ReplayKey
  pub all_keys : List ReplayKey

-- One key of the loop.
unfoldable pub assign_key : (ReplayKey → String) → ReplayKey → Cohorts → Result CohortError Cohorts
assign_key assign k s =
    let cohort = assign k in
    if cohort == "calibration"
    then ok (record s { all_keys = add_key k s.all_keys; calibration = add_key k s.calibration })
    else if cohort == "holdout"
    then ok (record s { all_keys = add_key k s.all_keys; holdout = add_key k s.holdout })
    else err unknown_cohort

unfoldable pub assign_keys :
    (ReplayKey → String) → List ReplayKey → Cohorts → Result CohortError Cohorts
assign_keys assign [] s = ok s
assign_keys assign (k ∷ keys) s = do next ← assign_key assign k s; assign_keys assign keys next

-- `a <= b` for sets
unfoldable pub is_subset : (a b : List ReplayKey) → Bool
is_subset a b = all (λ k. contains k b) a

unfoldable pub split_cohorts : (ReplayKey → String) → List ReplayKey → Result CohortError Cohorts
split_cohorts assign keys = do
  s ← assign_keys assign keys (record { calibration = []; holdout = []; all_keys = [] })
  raise_if (any (λ k. contains k s.holdout) s.calibration) cohorts_overlap
  raise_if
      (not (
        is_subset (s.calibration ++ s.holdout) s.all_keys
        && is_subset s.all_keys (s.calibration ++ s.holdout)))
      cohorts_incomplete
  ok s
