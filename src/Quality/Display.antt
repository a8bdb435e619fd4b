-- ===== src/Quality/Display.antt =====
-- The class that ml/src/retail_ml/policies/quality_v2.py displays.
use retail_intelligence.Quality.Ranks.{rank, worst, worst_rank, reduce-rank, worst_rank-append}
use retail_intelligence.Quality.Publication.{
  Finding, PublicationClass, limitations, severities, classify_publication, present,
}
use retail_intelligence.Quality.Defs.{
  reduce, RowEvidence, dimensions, RowClass, outcomes, classify_row,
}
use retail_intelligence.Decimal.{of_ℤ, lt_decimal, le_decimal}
use retail_intelligence.Base.Result.{passed, ok}
use retail_intelligence.Base.Equality.{nat_eq, string_eq, pair_eq, option_eq}
use retail_intelligence.Base.Int.{ℤ, ◌≤ℤ◌, ltb_ℤ, le→ltb_ℤ_false, pos}
use retail_intelligence.Base.{◌≡◌, refl, ap, ◌∙◌, Bool, true, false, List, [], ◌∷◌, ◌++◌, arith}

-- Evidence within the declared domain.
pub record IsValid (row : RowEvidence) : Type 0 where
  pub share : lt_decimal row.core_feature_missing_share (of_ℤ (pos 0)) ≡ false
  pub coverage_low : le_decimal (of_ℤ (pos 0)) row.observation_coverage_13w ≡ true
  pub coverage_high : le_decimal row.observation_coverage_13w (of_ℤ (pos 1)) ≡ true
  pub age : pos 0 ≤ℤ row.latest_actual_age_days

classify_row-eq_ok :
    (row : RowEvidence)
    → IsValid row
    → (out : RowClass) × (classify_row row ≡ ok out)
      × (out.row_quality_class ≡ reduce (outcomes (dimensions row)))
unfolding classify_row
classify_row-eq_ok row h =
    let low = h.coverage_low in
    let high = h.coverage_high in
    let recent : ltb_ℤ row.latest_actual_age_days (pos 0) ≡ false =
      le→ltb_ℤ_false row.latest_actual_age_days (pos 0) h.age in
    rw (h.share, low, high, recent) (_, refl, refl)

classify_publication-eq_ok :
    (critical_count warning_count : ℤ) (passed : Bool) (findings : List Finding)
    → pos 0 ≤ℤ critical_count
    → pos 0 ≤ℤ warning_count
    → (out : PublicationClass) × (classify_publication critical_count warning_count passed findings
        ≡ ok out)
      × (out.publication_quality_class
          ≡ reduce (severities (limitations critical_count warning_count passed findings)))
unfolding classify_publication
classify_publication-eq_ok critical_count warning_count passed findings c w =
    let none_critical = le→ltb_ℤ_false critical_count (pos 0) c in
    let none_warned = le→ltb_ℤ_false warning_count (pos 0) w in
    rw (none_critical, none_warned) (_, refl, refl)

present-rank :
    (r : RowClass) (p : PublicationClass)
    → rank (present r p).effective_display_class
      ≡ worst (rank r.row_quality_class) (rank p.publication_quality_class)
unfolding present
present-rank r p =
    reduce-rank (r.row_quality_class ∷ p.publication_quality_class ∷ []) ∙ ground arith

-- Row evidence within its domain and counts that are not negative are classified, and the class that
-- is displayed for the two is the worst of all row dimensions and all publication limitations, where
-- an issue is worse than something to watch, and any other severity counts as good.
pub present-worst :
    (row : RowEvidence) (critical_count warning_count : ℤ) (passed : Bool) (findings : List Finding)
    → IsValid row
    → pos 0 ≤ℤ critical_count
    → pos 0 ≤ℤ warning_count
    → (r : RowClass) × (p : PublicationClass) × (classify_row row ≡ ok r)
      × (classify_publication critical_count warning_count passed findings ≡ ok p)
      × (rank (present r p).effective_display_class
          ≡ worst_rank (
              outcomes (dimensions row)
              ++ severities (limitations critical_count warning_count passed findings)))
present-worst row critical_count warning_count passed findings h c w =
    let a = classify_row-eq_ok row h in
    let b = classify_publication-eq_ok critical_count warning_count passed findings c w in
    let xs = outcomes (dimensions row) in
    let ys = severities (limitations critical_count warning_count passed findings) in
    (
      a.0,
      b.0,
      a.1,
      b.1,
      present-rank a.0 b.0
          ∙ ground (
            arith,
            ap rank a.2,
            ap rank b.2,
            reduce-rank xs,
            reduce-rank ys,
            worst_rank-append xs ys,
          ),
    )
