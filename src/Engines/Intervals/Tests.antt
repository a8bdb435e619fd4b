-- ===== src/Engines/Intervals/Tests.antt =====
-- A run of the ledger, and its theorems at that run. A demand is a natural number here.

use retail_intelligence.Engines.Intervals.Summary.{market_summary-whole_iff}
use retail_intelligence.Engines.Intervals.Ledger.{
  is_withheld, observe_all, withheld_count, observe_all-reconciles,
}
use retail_intelligence.Engines.Intervals.Entries.{IsReconciled, IsCovered}
use retail_intelligence.Engines.Intervals.Defs.{
  Floats, Row, PartialConsumerLedger, new_ledger, add_series, withhold, row_demand, count_row,
  skip_row, observe, market_summary, availability_missing,
}
use retail_intelligence.Base.Result.{ok, err}
use retail_intelligence.Base.Dict.{put, get_or}
use retail_intelligence.Base.Equality.{nat_eq, string_eq, pair_eq, option_eq}
use retail_intelligence.Base.Int.{ℤ, min_ℤ, max_ℤ, pos}
use retail_intelligence.Base.{
  ℕ, ◌+◌, ◌≤◌, ◌≡◌, refl, ◌↔◌, Bool, true, false, Option, none, some, List, [], ◌∷◌, ltb, leb, All,
}

abbrev counts : Floats
counts = record { Float = ℕ; zero_float = 0; add = λ a b. a + b; lt_float = ltb; le_float = leb }

abbrev row : Option Bool → ℤ → Row counts
row available horizon = record {
  interval_available = available;
  yhat_p50 = some 3;
  series = ("sku-1", ("store-1", "web"));
  horizon_week = horizon;
}

abbrev rows : List (Row counts)
rows = row (some false) (pos 6) ∷ row (some true) (pos 1) ∷ row (some false) (pos 5) ∷ []

abbrev ledger : PartialConsumerLedger counts
ledger = record {
  skipped_rows = 2;
  skipped_series = ("sku-1", ("store-1", "web")) ∷ [];
  skipped_demand_units = 6;
  total_rows = 3;
  total_demand_units = 9;
  exceptions =
      (
        ("sku-1", ("store-1", "web")),
        record {
          unavailable_from_horizon = pos 5;
          unavailable_through_horizon = pos 6;
          withheld_horizon_count = 2;
        },
      )
      ∷ [];
}

run : observe_all rows (new_ledger counts) ≡ ok ledger
unfolding observe_all observe count_row skip_row row_demand withhold add_series get_or put min_ℤ
    max_ℤ
run = refl

unflagged_run : observe (row none (pos 1)) (new_ledger counts) ≡ err availability_missing
unfolding observe
unflagged_run = refl

observe_all-reconciles_example :
    (ledger.total_rows ≡ 3)
    × (ledger.skipped_rows ≡ withheld_count rows)
    × IsReconciled ledger
    × All
        (λ (r : Row counts).
          is_withheld r.interval_available ≡ true
          → IsCovered ledger.exceptions r.series r.horizon_week)
        rows
observe_all-reconciles_example = observe_all-reconciles rows run

market_summary-whole_iff_example :
    ((market_summary ledger).whole_consumer_unavailable ≡ true)
    ↔ ((1 ≤ 3) × All (λ (r : Row counts). is_withheld r.interval_available ≡ true) rows)
market_summary-whole_iff_example = market_summary-whole_iff rows run
