-- ===== src/Readiness/Tests.antt =====
-- Readiness reports at concrete inputs.
use retail_intelligence.Readiness.Decisions.{
  Matches, IsDecision, IsSupported, AllProper, build_readiness_report-proceeds_iff,
}
use retail_intelligence.Readiness.Eligible.{is_eligible, all_reasons, evaluate_zero_demand-counts}
use retail_intelligence.Readiness.Report.{ReadinessReport, build_readiness_report}
use retail_intelligence.Readiness.Zero.{ZeroDemandCell, ZeroDemand, evaluate_zero_demand}
use retail_intelligence.Readiness.Capabilities.{is_empty}
use retail_intelligence.Readiness.Defs.{
  Grade, Capability, Policy, policy_path_v2, first_policy, load_policy, ReadinessInputs, name_le,
}
use retail_intelligence.Base.Result.{ok}
use retail_intelligence.Base.Sort.{sort_by}
use retail_intelligence.Base.Dict.{get}
use retail_intelligence.Base.Equality.{nat_eq, string_eq, ◌==◌, pair_eq, option_eq}
use retail_intelligence.Base.Int.{pos}
use retail_intelligence.Base.{
  ◌+◌, String, ◌≡◌, refl, ◌↔◌, true, false, not, Option, none, some, List, [], ◌∷◌, if◌then◌else◌,
  length, select,
}

abbrev event_grade : Grade
event_grade = record { rank = pos 1; supports_replay = true; downgrades = [] }

abbrev landing_grade : Grade
landing_grade = record { rank = pos 3; supports_replay = false; downgrades = "no_replay" ∷ [] }

abbrev forecast : Capability
forecast = record {
  required_roles = "sales" ∷ [];
  required_evidence = "calendar" ∷ [];
  minimum_grade = "event";
}

abbrev small_policy : Policy
small_policy = record {
  policy_id = "temporal/v2";
  grades = ("event", event_grade) ∷ ("landing_backfill", landing_grade) ∷ [];
  never_proves = "order_date" ∷ [];
  zero_reasons = all_reasons;
  zero_conditions = "extract_complete" ∷ [];
  definitions = ("forecast", forecast) ∷ [];
}

abbrev read_small : String → Option (Option String × Policy)
read_small path =
    if path == policy_path_v2
    then some (some "retail-temporal-evidence-policy/v2", small_policy)
    else none

abbrev small_inputs : ReadinessInputs
small_inputs = record {
  role_evidence =
      ("sales", record { grade = "event"; rows = pos 10; availability_fields = "loaded_at" ∷ [] })
      ∷ [];
  present_roles = "sales" ∷ [];
  evidence_flags = "calendar" ∷ [];
  sufficiency = ("forecast", "sufficient") ∷ [];
}

abbrev good_cell : ZeroDemandCell
good_cell = record {
  extract_complete = true;
  assortment_active = some true;
  known_by_cutoff = true;
  boundary_exposure_handled = true;
  unresolved_gap = false;
}

abbrev two_cells : List ZeroDemandCell
two_cells = good_cell ∷ record good_cell { assortment_active = none } ∷ []

small_loads : load_policy read_small ≡ ok small_policy
unfolding load_policy first_policy
small_loads = refl

small-IsSupported : IsSupported small_inputs small_policy
unfolding get
small-IsSupported = record {
  grades = ((event_grade, refl), tt);
  minimums = ((event_grade, refl), tt);
  reasons = (refl, (refl, (refl, (refl, (refl, (refl, tt))))));
}

evaluate_zero_demand-counts_example :
    (out : ZeroDemand) × (evaluate_zero_demand two_cells small_policy ≡ ok out)
    × (out.zero_eligible ≡ length (select is_eligible two_cells))
    × (out.zero_eligible + out.unknown ≡ length two_cells)
evaluate_zero_demand-counts_example =
    evaluate_zero_demand-counts two_cells small_policy
      (refl, (refl, (refl, (refl, (refl, (refl, tt))))))

build_readiness_report-proceeds_iff_example :
    (report : ReadinessReport) × (build_readiness_report read_small small_inputs two_cells "t1" "s1"
      ≡ ok report)
    × Matches
        (IsDecision small_inputs small_policy
          (not (is_empty (report.temporal_evidence).violations)))
        (sort_by name_le small_policy.definitions)
        report.capabilities
    × (((report.temporal_evidence).violations ≡ [])
        ↔ AllProper small_policy small_inputs.role_evidence)
build_readiness_report-proceeds_iff_example =
    build_readiness_report-proceeds_iff read_small small_inputs two_cells "t1" "s1" small_policy
      small_loads small-IsSupported
