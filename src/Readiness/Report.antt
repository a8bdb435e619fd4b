-- ===== src/Readiness/Report.antt =====
-- `build_readiness_report` of ingestion/src/retail_ingestion/readiness/evaluator.py.
use retail_intelligence.Readiness.Capabilities.{
  Readiness, eqb_Readiness, CapabilityReport, is_empty, evaluate_capabilities,
}
use retail_intelligence.Readiness.Zero.{ZeroDemandCell, ZeroDemand, evaluate_zero_demand}
use retail_intelligence.Base.Texts.{text_le}
use retail_intelligence.Readiness.Defs.{
  ReadinessError, Policy, load_policy, ReadinessInputs, TemporalEvidence,
  evaluate_temporal_evidence,
}
use retail_intelligence.Base.Result.{Result, ◌>>=◌, ok}
use retail_intelligence.Base.Sort.{sort_by}
use retail_intelligence.Base.Dict.{Dict}
use retail_intelligence.Base.Equality.{nat_eq, string_eq, ◌==◌, pair_eq, option_eq}
use retail_intelligence.Base.{
  String, false, not, Option, List, [], ◌∷◌, ◌++◌, map, if◌then◌else◌, select,
}

-- What a business date used as availability does to a capability: its minimum grade is the one of its
-- definition.
unfoldable pub block : CapabilityReport → CapabilityReport
block result = if result.minimum_grade == "landing_backfill" then result else record result {
  readiness = Readiness.blocked;
  reason_codes = result.reason_codes ++ "BUSINESS_DATE_AS_AVAILABILITY" ∷ [];
  consumer_may_proceed = false;
}

abbrev pub block_all : Dict String CapabilityReport → Dict String CapabilityReport
block_all capabilities = map (λ p. (p.0, block p.1)) capabilities

pub record Summary : Type 0 where
  pub ready : List String
  pub validated_partial : List String
  pub unavailable : List String
  pub blocked : List String

-- the names of the capabilities of one readiness, in order
unfoldable pub names_of : Readiness → Dict String CapabilityReport → List String
names_of r capabilities = sort_by text_le (
    map (λ (p : String × CapabilityReport). p.0)
      (select (λ (p : String × CapabilityReport). eqb_Readiness (p.1).readiness r) capabilities))

pub record ReadinessReport : Type 0 where
  pub policy_id : String
  pub tenant_id : String
  pub source_snapshot_id : String
  pub temporal_evidence : TemporalEvidence
  pub zero_demand : ZeroDemand
  pub capabilities : Dict String CapabilityReport
  pub summary : Summary

unfoldable pub build_readiness_report :
    (read : String → Option (Option String × Policy))
    → ReadinessInputs
    → List ZeroDemandCell
    → (tenant_id source_snapshot_id : String) → Result ReadinessError ReadinessReport
build_readiness_report read inputs cells tenant_id source_snapshot_id = do
  policy ← load_policy read
  temporal ← evaluate_temporal_evidence inputs policy
  evaluated ← evaluate_capabilities inputs policy
  let capabilities = if not (is_empty temporal.violations) then block_all evaluated else evaluated
  demand ← evaluate_zero_demand cells policy
  ok (record {
    policy_id = policy.policy_id;
    tenant_id = tenant_id;
    source_snapshot_id = source_snapshot_id;
    temporal_evidence = temporal;
    zero_demand = demand;
    capabilities = capabilities;
    summary = record {
      ready = names_of Readiness.ready capabilities;
      validated_partial = names_of Readiness.validated_partial capabilities;
      unavailable = names_of Readiness.unavailable capabilities;
      blocked = names_of Readiness.blocked capabilities;
    };
  })
