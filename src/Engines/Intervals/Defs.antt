-- ===== src/Engines/Intervals/Defs.antt =====
-- The operations of ml/src/retail_ml/engines/interval_guard.py. A demand is a binary float there; here
-- it is a value of any type with the operations that the code uses.

use retail_intelligence.Base.Result.{Result, ◌>>=◌, ◌>>◌, raise_if, from_option, ok}
use retail_intelligence.Base.Sort.{cmp_text, then_by, not_gt, sort_by}
use retail_intelligence.Base.Dict.{Dict, put, get_or}
use retail_intelligence.Base.Equality.{nat_eq, string_eq, ◌==◌, pair_eq, option_eq}
use retail_intelligence.Base.Int.{ℤ, ltb_ℤ, min_ℤ, max_ℤ, pos}
use retail_intelligence.Base.{
  ℕ, suc, String, Bool, true, false, ◌&&◌, ◌||◌, Option, none, some, List, [], ◌∷◌, ltb, eqb,
  if◌then◌else◌, length, map,
}

pub data GuardError : Type 0 where
  horizon_not_positive interval_unavailable availability_missing : GuardError

abbrev pub calibrated_max_horizon : ℤ
calibrated_max_horizon = pos 4

-- The horizon that a consumer requires against the calibrated one.
unfoldable pub require_interval_horizon : (required calibrated : ℤ) → Result GuardError (Unit {0})
require_interval_horizon required calibrated = do
  raise_if (ltb_ℤ required (pos 1)) horizon_not_positive
  raise_if (ltb_ℤ calibrated required) interval_unavailable

-- binary floats, as far as the ledger uses them
pub record Floats : Type 1 where
  pub Float : Type 0
  pub zero_float : Float
  pub add : Float → Float → Float
  pub lt_float : Float → Float → Bool
  pub le_float : Float → Float → Bool

-- SKU, store and channel
abbrev pub Series : Type 0
Series = String × (String × String)

pub record Row (floats : Floats) : Type 0 where
  pub interval_available : Option Bool
  pub yhat_p50 : Option floats.Float
  pub series : Series
  pub horizon_week : ℤ

-- One governed exception, without the fields that are the same in all of a consumer's: the class, the
-- consumer, the reason code and the calibrated horizon.
pub record ExceptionEntry : Type 0 where
  pub unavailable_from_horizon : ℤ
  pub unavailable_through_horizon : ℤ
  pub withheld_horizon_count : ℕ

pub record PartialConsumerLedger (floats : Floats) : Type 0 where
  pub skipped_rows : ℕ
  pub skipped_series : List Series
  pub skipped_demand_units : floats.Float
  pub total_rows : ℕ
  pub total_demand_units : floats.Float
  pub exceptions : Dict Series ExceptionEntry

abbrev pub new_ledger : (floats : Floats) → PartialConsumerLedger floats
new_ledger floats = record {
  skipped_rows = 0;
  skipped_series = [];
  skipped_demand_units = floats.zero_float;
  total_rows = 0;
  total_demand_units = floats.zero_float;
  exceptions = [];
}

-- `set.add`
unfoldable pub add_series : Series → List Series → List Series
add_series s [] = s ∷ []
add_series s (t ∷ ts) = if t == s then t ∷ ts else t ∷ add_series s ts

-- the entry that `setdefault` finds or makes
abbrev pub first_entry : ℤ → ExceptionEntry
first_entry horizon = record {
  unavailable_from_horizon = horizon;
  unavailable_through_horizon = horizon;
  withheld_horizon_count = 0;
}

unfoldable pub withhold : ℤ → ExceptionEntry → ExceptionEntry
withhold horizon entry = record {
  unavailable_from_horizon = min_ℤ entry.unavailable_from_horizon horizon;
  unavailable_through_horizon = max_ℤ entry.unavailable_through_horizon horizon;
  withheld_horizon_count = suc entry.withheld_horizon_count;
}

pub record MarketSummary (floats : Floats) : Type 0 where
  pub skipped_row_count : ℕ
  pub skipped_series_count : ℕ
  pub skipped_demand : floats.Float
  pub total_row_count : ℕ
  pub total_demand : floats.Float
  pub market_sub_capability_unavailable : Bool
  pub whole_consumer_unavailable : Bool

abbrev pub series_le : Series × ExceptionEntry → Series × ExceptionEntry → Bool
series_le ((a, (b, c)), _) ((x, (y, z)), _) =
    not_gt (then_by (cmp_text a x) (then_by (cmp_text b y) (cmp_text c z)))

module _ {floats : Floats} where
  unfoldable pub row_demand : Row floats → floats.Float
  row_demand row = elim row.yhat_p50 [ none ↦ floats.zero_float | some p50 ↦ p50 ]

  -- the counters that every row moves
  unfoldable pub count_row :
      Row floats → PartialConsumerLedger floats → PartialConsumerLedger floats
  count_row row ledger = record ledger {
    total_rows = suc ledger.total_rows;
    total_demand_units = floats.add ledger.total_demand_units (row_demand row);
  }

  -- what a row without an interval adds
  unfoldable pub skip_row : Row floats → PartialConsumerLedger floats → PartialConsumerLedger floats
  skip_row row ledger =
      let entry = get_or row.series (first_entry row.horizon_week) ledger.exceptions in
      record ledger {
        skipped_rows = suc ledger.skipped_rows;
        skipped_series = add_series row.series ledger.skipped_series;
        skipped_demand_units = floats.add ledger.skipped_demand_units (row_demand row);
        exceptions = put row.series (withhold row.horizon_week entry) ledger.exceptions;
      }

  unfoldable pub observe :
      Row floats
      → PartialConsumerLedger floats
      → Result GuardError (Bool × PartialConsumerLedger floats)
  observe row ledger = do
    available ← from_option availability_missing row.interval_available
    ok (
        if available
        then (true, count_row row ledger)
        else (false, skip_row row (count_row row ledger)))

  unfoldable pub market_summary : PartialConsumerLedger floats → MarketSummary floats
  market_summary ledger =
      let all_series_skipped =
        ltb 0 ledger.total_rows && eqb ledger.skipped_rows ledger.total_rows in
      let all_demand_skipped =
        floats.lt_float floats.zero_float ledger.total_demand_units
        && floats.le_float ledger.total_demand_units ledger.skipped_demand_units in
      record {
        skipped_row_count = ledger.skipped_rows;
        skipped_series_count = length ledger.skipped_series;
        skipped_demand = ledger.skipped_demand_units;
        total_row_count = ledger.total_rows;
        total_demand = ledger.total_demand_units;
        market_sub_capability_unavailable = all_series_skipped || all_demand_skipped;
        whole_consumer_unavailable =
            ltb 0 ledger.total_rows && eqb ledger.skipped_rows ledger.total_rows;
      }

  -- One record per affected series, in the order of the series.
  unfoldable pub exception_list : PartialConsumerLedger floats → List ExceptionEntry
  exception_list ledger = map (λ p. p.1) (sort_by series_le ledger.exceptions)
