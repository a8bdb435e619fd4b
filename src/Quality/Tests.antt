-- ===== src/Quality/Tests.antt =====
-- Quality classes at concrete inputs.
use retail_intelligence.Quality.Display.{IsValid, present-worst}
use retail_intelligence.Quality.Ranks.{rank, worst_rank}
use retail_intelligence.Quality.Publication.{
  PublicationClass, limitations, severities, classify_publication, present,
}
use retail_intelligence.Quality.Defs.{
  hundredths, RowEvidence, dimensions, RowClass, outcomes, classify_row,
}
use retail_intelligence.Decimal.{lt_decimal, le_decimal}
use retail_intelligence.Base.Result.{ok}
use retail_intelligence.Base.Equality.{nat_eq, string_eq, pair_eq, option_eq}
use retail_intelligence.Base.Int.{◌-ℤ◌, ◌*ℤ◌, pos}
use retail_intelligence.Base.{◌≡◌, refl, true, none, [], ◌++◌, arith}

abbrev stale_row : RowEvidence
stale_row = record {
  canonical_key_complete = true;
  row_reconciliation_passed = none;
  core_feature_missing_share = hundredths 1;
  latest_actual_age_days = pos 16;
  observation_coverage_13w = hundredths 95;
}

stale_row-IsValid : IsValid stale_row
unfolding lt_decimal le_decimal ◌*ℤ◌ ◌-ℤ◌
stale_row-IsValid = record {
  share = refl;
  coverage_low = refl;
  coverage_high = refl;
  age = omega arith;
}

present-worst_example :
    (r : RowClass) × (p : PublicationClass) × (classify_row stale_row ≡ ok r)
    × (classify_publication (pos 1) (pos 0) true [] ≡ ok p)
    × (rank (present r p).effective_display_class
        ≡ worst_rank
            (outcomes (dimensions stale_row) ++ severities (limitations (pos 1) (pos 0) true [])))
present-worst_example =
    present-worst stale_row (pos 1) (pos 0) true [] stale_row-IsValid (omega arith) (omega arith)
