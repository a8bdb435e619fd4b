-- ===== src/Quality/Publication.antt =====
-- `classify_publication` and `present` of ml/src/retail_ml/policies/quality_v2.py.
use retail_intelligence.Quality.Defs.{
  QualityError, good, watch, issue, reduce, RowClass, negative_count,
}
use retail_intelligence.Base.Result.{Result, ◌>>◌, raise_if, ok}
use retail_intelligence.Base.Equality.{nat_eq, string_eq, ◌==◌, pair_eq, option_eq}
use retail_intelligence.Base.Int.{ℤ, ltb_ℤ, pos}
use retail_intelligence.Base.{
  ℕ, String, Bool, true, false, not, ◌||◌, Option, none, some, List, [], ◌∷◌, ◌++◌, map, length,
}

-- A source finding, each entry where it is given.
pub record Finding : Type 0 where
  pub code : Option String
  pub severity : Option String
  pub count : Option ℤ

pub record Limitation : Type 0 where
  pub code : String
  pub severity : String
  pub count : ℤ

pub record PublicationClass : Type 0 where
  pub publication_quality_class : String
  pub global_limitations : List Limitation
  pub limitation_count : ℕ

abbrev pub limited_if : Bool → Limitation → List Limitation
limited_if true limitation = limitation ∷ []
limited_if false limitation = []

abbrev pub or_default {ℓ} : {A : Type ℓ} → A → Option A → A
or_default d none = d
or_default d (some a) = a

abbrev pub of_finding : Finding → Limitation
of_finding finding = record {
  code = or_default "SOURCE_FINDING" finding.code;
  severity = or_default watch finding.severity;
  count = or_default (pos 1) finding.count;
}

unfoldable pub limitations : ℤ → ℤ → Bool → List Finding → List Limitation
limitations critical_count warning_count reconciliation_passed findings =
    limited_if (ltb_ℤ (pos 0) critical_count)
      (record { code = "SOURCE_QUALITY_CRITICAL"; severity = issue; count = critical_count })
    ++ limited_if (ltb_ℤ (pos 0) warning_count)
        (record { code = "SOURCE_QUALITY_WARNING"; severity = watch; count = warning_count })
    ++ limited_if (not reconciliation_passed)
        (record { code = "PUBLICATION_RECONCILIATION_FAILED"; severity = issue; count = pos 1 })
    ++ map of_finding findings

abbrev pub severities : List Limitation → List String
severities rows = map (λ l. l.severity) rows

unfoldable pub classify_publication :
    (critical_count warning_count : ℤ) (reconciliation_passed : Bool)
    → List Finding
    → Result QualityError PublicationClass
classify_publication critical_count warning_count reconciliation_passed findings = do
  raise_if (ltb_ℤ critical_count (pos 0) || ltb_ℤ warning_count (pos 0)) negative_count
  let rows = limitations critical_count warning_count reconciliation_passed findings
  ok (record {
    publication_quality_class = reduce (severities rows);
    global_limitations = rows;
    limitation_count = length rows;
  })

pub record Presentation : Type 0 where
  pub row_quality_class : String
  pub publication_quality_class : String
  pub effective_display_class : String
  pub degraded_by : List String
  pub global_limitations : List Limitation
  pub degraded_dimensions : List String

abbrev pub named_if : Bool → String → List String
named_if true name = name ∷ []
named_if false name = []

unfoldable pub present : RowClass → PublicationClass → Presentation
present row publication = record {
  row_quality_class = row.row_quality_class;
  publication_quality_class = publication.publication_quality_class;
  effective_display_class =
      reduce (row.row_quality_class ∷ publication.publication_quality_class ∷ []);
  degraded_by =
      named_if (not (row.row_quality_class == good)) "row"
      ++ named_if (not (publication.publication_quality_class == good)) "publication";
  global_limitations = publication.global_limitations;
  degraded_dimensions = row.degraded_dimensions;
}
