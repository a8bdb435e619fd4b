-- ===== src/Quality/Defs.antt =====
-- The classes and `classify_row` of ml/src/retail_ml/policies/quality_v2.py. A
-- class is a text, as a finding may carry any severity.
use retail_intelligence.Decimal.{Decimal, of_ℤ, lt_decimal, le_decimal}
use retail_intelligence.Base.Texts.{text_le, member}
use retail_intelligence.Base.Result.{Result, ◌>>◌, raise_if, passed, ok}
use retail_intelligence.Base.Sort.{sort_by}
use retail_intelligence.Base.Dict.{Dict}
use retail_intelligence.Base.Equality.{nat_eq, string_eq, ◌==◌, pair_eq, option_eq}
use retail_intelligence.Base.Int.{ℤ, ltb_ℤ, pos, negsuc}
use retail_intelligence.Base.{
  ℕ, String, Bool, true, false, not, ◌&&◌, Option, none, some, List, [], ◌∷◌, map, if◌then◌else◌,
  select,
}

pub data QualityError : Type 0 where
  negative_share coverage_out_of_range negative_age negative_count : QualityError

abbrev pub good : String
good = "Good"

abbrev pub watch : String
watch = "Watch"

abbrev pub issue : String
issue = "Issue"

abbrev pub precedence : List String
precedence = issue ∷ watch ∷ good ∷ []

-- `_reduce`: the first candidate that is among the outcomes
unfoldable pub first_among : List String → List String → String
first_among [] outcomes = good
first_among (candidate ∷ candidates) outcomes =
    let rest = first_among candidates outcomes in
    if member candidate outcomes then candidate else rest

abbrev pub reduce : List String → String
reduce outcomes = first_among precedence outcomes

-- `Decimal("0.20")` and the other thresholds
abbrev pub hundredths : ℕ → Decimal
hundredths n = record { coefficient = pos n; exponent = negsuc 1 }

abbrev pub missingness_issue : Decimal
missingness_issue = hundredths 20

abbrev pub missingness_watch : Decimal
missingness_watch = hundredths 5

abbrev pub freshness_issue_days : ℤ
freshness_issue_days = pos 21

abbrev pub freshness_watch_days : ℤ
freshness_watch_days = pos 14

abbrev pub coverage_issue : Decimal
coverage_issue = hundredths 75

abbrev pub coverage_watch : Decimal
coverage_watch = hundredths 90

-- What the policy knows of one series.
pub record RowEvidence : Type 0 where
  pub canonical_key_complete : Bool
  pub row_reconciliation_passed : Option Bool
  pub core_feature_missing_share : Decimal
  pub latest_actual_age_days : ℤ
  pub observation_coverage_13w : Decimal

pub data Observed : Type 0 where
  flag : Option Bool → Observed
  share : Decimal → Observed
  days : ℤ → Observed

pub record Dimension : Type 0 where
  pub observed : Observed
  pub outcome : String
  pub state : Option String

abbrev pub outcome_if : Bool → String
outcome_if true = good
outcome_if false = issue

abbrev pub reconciliation : Option Bool → Dimension
reconciliation none = record {
  observed = Observed.flag none;
  outcome = good;
  state = some "not_evaluated";
}
reconciliation (some passed) = record {
  observed = Observed.flag (some passed);
  outcome = outcome_if passed;
  state = some "evaluated";
}

-- an issue, else something to watch, else good
abbrev pub graded_by : (is_issue is_watch : Bool) → String
graded_by true w = issue
graded_by false true = watch
graded_by false false = good

unfoldable pub dimensions : RowEvidence → Dict String Dimension
dimensions row =
    (
      "key",
      record {
        observed = Observed.flag (some row.canonical_key_complete);
        outcome = outcome_if row.canonical_key_complete;
        state = none;
      },
    )
    ∷ ("reconciliation", reconciliation row.row_reconciliation_passed)
    ∷ (
      "missingness",
      record {
        observed = Observed.share row.core_feature_missing_share;
        outcome =
            graded_by (lt_decimal missingness_issue row.core_feature_missing_share)
              (lt_decimal missingness_watch row.core_feature_missing_share);
        state = none;
      },
    )
    ∷ (
      "freshness",
      record {
        observed = Observed.days row.latest_actual_age_days;
        outcome =
            graded_by (ltb_ℤ freshness_issue_days row.latest_actual_age_days)
              (ltb_ℤ freshness_watch_days row.latest_actual_age_days);
        state = none;
      },
    )
    ∷ (
      "coverage",
      record {
        observed = Observed.share row.observation_coverage_13w;
        outcome =
            graded_by (lt_decimal row.observation_coverage_13w coverage_issue)
              (lt_decimal row.observation_coverage_13w coverage_watch);
        state = none;
      },
    )
    ∷ []

pub record RowClass : Type 0 where
  pub row_quality_class : String
  pub dimensions : Dict String Dimension
  pub degraded_dimensions : List String

abbrev pub outcomes : Dict String Dimension → List String
outcomes rows = map (λ p. (p.1).outcome) rows

unfoldable pub degraded : Dict String Dimension → List String
degraded rows = sort_by text_le (
    map (λ (p : String × Dimension). p.0)
      (select (λ (p : String × Dimension). not ((p.1).outcome == good)) rows))

unfoldable pub classify_row : RowEvidence → Result QualityError RowClass
classify_row row = do
  raise_if (lt_decimal row.core_feature_missing_share (of_ℤ (pos 0))) negative_share
  raise_if
      (not (
        le_decimal (of_ℤ (pos 0)) row.observation_coverage_13w
        && le_decimal row.observation_coverage_13w (of_ℤ (pos 1))))
      coverage_out_of_range
  raise_if (ltb_ℤ row.latest_actual_age_days (pos 0)) negative_age
  let rows = dimensions row
  ok (record {
    row_quality_class = reduce (outcomes rows);
    dimensions = rows;
    degraded_dimensions = degraded rows;
  })
