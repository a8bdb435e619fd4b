-- ===== src/Engines/Acceptance/Oracle.antt =====
-- `reproduce_oracle` and `PeriodResult.fill_rate` of ml/src/retail_ml/engines/replay.py. Differences of
-- units are integers, which decimals of the default context keep exact below 28 digits.
use retail_intelligence.Decimal.{Decimal, of_ℤ, magnitude, lt_decimal, le_decimal, divide}
use retail_intelligence.Engines.Clock.Defs.{Instant, instant_eq}
use retail_intelligence.Engines.Replay.Defs.{PeriodResult}
use retail_intelligence.Base.Result.{Result, ◌>>◌, raise_if, ok}
use retail_intelligence.Base.Dict.{Dict, get}
use retail_intelligence.Base.Equality.{nat_eq, string_eq, pair_eq, option_eq}
use retail_intelligence.Base.Int.{ℤ, ◌+ℤ◌, ◌-ℤ◌, eqb_ℤ, pos}
use retail_intelligence.Base.{
  ℕ, suc, String, Bool, false, Option, none, some, List, [], ◌∷◌, eqb, if◌then◌else◌,
}

pub data OracleError : Type 0 where
  negative_tolerance : OracleError

unfoldable pub period_fill_rate : PeriodResult → Decimal
period_fill_rate period =
    if eqb_ℤ period.demand_units (pos 0)
    then of_ℤ (pos 0)
    else divide period.served_units period.demand_units

pub record OracleResult : Type 0 where
  pub passed : Bool
  pub weeks_compared : ℕ
  pub measured : Option Decimal
  pub tolerance : Option Decimal
  pub reason_code : Option String

abbrev pub unit_delta : ℤ → ℤ → ℤ
unit_delta a b = pos (magnitude (a -ℤ b))

-- The weeks compared so far and the sum of their differences.
unfoldable pub compare_periods : List PeriodResult → (observed : Dict Instant ℤ) → ℕ × ℤ → ℕ × ℤ
compare_periods [] observed s = s
compare_periods (period ∷ periods) observed (compared, total_delta) =
    elim (get period.period_open observed) [
      | none ↦ compare_periods periods observed (compared, total_delta)
      | some units ↦
          compare_periods periods observed
            (suc compared, total_delta +ℤ unit_delta period.closing_units units)
    ]

unfoldable pub reproduce_oracle :
    List PeriodResult
    → (observed : Dict Instant ℤ) → (tolerance : Decimal) → Result OracleError OracleResult
reproduce_oracle periods observed tolerance = do
  raise_if (lt_decimal tolerance (of_ℤ (pos 0))) negative_tolerance
  let (compared, total_delta) = compare_periods periods observed (0, pos 0)
  let measured = divide total_delta (pos compared)
  ok (
      if eqb compared 0
      then record {
        passed = false;
        weeks_compared = 0;
        measured = none;
        tolerance = none;
        reason_code = some "NO_ORACLE_WEEKS_AVAILABLE";
      }
      else record {
        passed = le_decimal measured tolerance;
        weeks_compared = compared;
        measured = some measured;
        tolerance = some tolerance;
        reason_code = none;
      })
