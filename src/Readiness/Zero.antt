-- ===== src/Readiness/Zero.antt =====
-- `evaluate_zero_demand` of ingestion/src/retail_ingestion/readiness/evaluator.py: when a missing sale
-- may be labelled zero.
use retail_intelligence.Base.Texts.{member}
use retail_intelligence.Readiness.Defs.{ReadinessError, Policy, name_le, unknown_reason}
use retail_intelligence.Base.Result.{Result, ◌>>=◌, ◌>>◌, raise_if, ok}
use retail_intelligence.Base.Sort.{sort_by}
use retail_intelligence.Base.Dict.{Dict, put, get_or}
use retail_intelligence.Base.Equality.{nat_eq, string_eq, pair_eq, option_eq}
use retail_intelligence.Base.{
  ℕ, suc, ◌+◌, ◌-◌, String, Bool, true, false, not, Option, none, some, List, [], ◌∷◌, ◌++◌, length,
}

-- The parts of a cell that the evaluation reads.
pub record ZeroDemandCell : Type 0 where
  pub extract_complete : Bool
  pub assortment_active : Option Bool
  pub known_by_cutoff : Bool
  pub boundary_exposure_handled : Bool
  pub unresolved_gap : Bool

-- a reason under a condition
abbrev pub when : Bool → String → List String
when true reason = reason ∷ []
when false reason = []

abbrev pub assortment_reasons : Option Bool → List String
assortment_reasons none = "ASSORTMENT_UNKNOWN" ∷ []
assortment_reasons (some active) = when (not active) "ASSORTMENT_INACTIVE"

unfoldable pub cell_reasons : ZeroDemandCell → List String
cell_reasons cell =
    when (not cell.extract_complete) "EXTRACT_INCOMPLETE"
    ++ assortment_reasons cell.assortment_active
    ++ when (not cell.known_by_cutoff) "NOT_KNOWN_BY_CUTOFF"
    ++ when (not cell.boundary_exposure_handled) "BOUNDARY_EXPOSURE_PARTIAL"
    ++ when cell.unresolved_gap "CHANNEL_COVERAGE_INCOMPLETE"

unfoldable pub count_reasons :
    (allowed : List String) → List String → Dict String ℕ → Result ReadinessError (Dict String ℕ)
count_reasons allowed [] unknown = ok unknown
count_reasons allowed (reason ∷ reasons) unknown = do
  raise_if (not (member reason allowed)) unknown_reason
  count_reasons allowed reasons (put reason (get_or reason 0 unknown + 1) unknown)

-- The eligible cells so far, and how often each reason was found.
unfoldable pub count_cells :
    (allowed : List String)
    → List ZeroDemandCell
    → ℕ
    → Dict String ℕ
    → Result ReadinessError (ℕ × Dict String ℕ)
count_cells allowed [] eligible unknown = ok (eligible, unknown)
count_cells allowed (cell ∷ cells) eligible unknown = elim (cell_reasons cell) [
  | [] ↦ count_cells allowed cells (suc eligible) unknown
  | reason ∷ reasons ↦ do
    counted ← count_reasons allowed (reason ∷ reasons) unknown
    count_cells allowed cells eligible counted
]

pub record ZeroDemand : Type 0 where
  pub cells : ℕ
  pub zero_eligible : ℕ
  pub unknown : ℕ
  pub unknown_reason_codes : Dict String ℕ
  pub conditions : List String

unfoldable pub evaluate_zero_demand :
    List ZeroDemandCell → Policy → Result ReadinessError ZeroDemand
evaluate_zero_demand cells policy = do
  counted ← count_cells policy.zero_reasons cells 0 []
  ok (record {
    cells = length cells;
    zero_eligible = counted.0;
    unknown = length cells - counted.0;
    unknown_reason_codes = sort_by name_le counted.1;
    conditions = policy.zero_conditions;
  })
