-- ===== src/Readiness/Defs.antt =====
-- The parts of ingestion/src/retail_ingestion/readiness/evaluator.py that a report is built from: the
-- policy, temporal evidence, zero demand and capabilities. A set is a list.
use retail_intelligence.Base.Texts.{text_le, member, sorted_set}
use retail_intelligence.Base.Result.{Result, ◌>>=◌, from_option, ok, err}
use retail_intelligence.Base.Sort.{sort_by}
use retail_intelligence.Base.Dict.{Dict, get}
use retail_intelligence.Base.Equality.{nat_eq, string_eq, ◌==◌, pair_eq, option_eq}
use retail_intelligence.Base.Int.{ℤ}
use retail_intelligence.Base.{
  ℕ, String, Bool, Option, none, some, List, [], ◌∷◌, ◌++◌, map, if◌then◌else◌, length, select,
}

pub data ReadinessError : Type 0 where
  wrong_schema no_policy unknown_grade unknown_reason missing_key : ReadinessError

-- `policy["grades"][grade]`
pub record Grade : Type 0 where
  pub rank : ℤ
  pub supports_replay : Bool
  pub downgrades : List String

pub record Capability : Type 0 where
  pub required_roles : List String
  pub required_evidence : List String
  pub minimum_grade : String

pub record Policy : Type 0 where
  pub policy_id : String
  pub grades : Dict String Grade
  pub never_proves : List String
  pub zero_reasons : List String
  pub zero_conditions : List String
  pub definitions : Dict String Capability

abbrev pub policy_path : String
policy_path = "contracts/onboarding/temporal-evidence-policy.json"

abbrev pub policy_path_v2 : String
policy_path_v2 = "contracts/onboarding/temporal-evidence-policy-v2.json"

-- Tries the paths in turn: the first that is a file is the policy.
unfoldable pub first_policy :
    (read : String → Option (Option String × Policy))
    → List (String × String)
    → Result ReadinessError Policy
first_policy read [] = err no_policy
first_policy read ((path, expected) ∷ paths) = elim (read path) [
  | none ↦ first_policy read paths
  | some (schema, policy) ↦ if schema == some expected then ok policy else err wrong_schema
]

-- `load_policy`, where `read` gives a file's schema version and its contents as a policy
unfoldable pub load_policy :
    (read : String → Option (Option String × Policy)) → Result ReadinessError Policy
load_policy read = first_policy read (
    (policy_path_v2, "retail-temporal-evidence-policy/v2")
    ∷ (policy_path, "retail-temporal-evidence-policy/v1")
    ∷ [])

pub record RoleEvidence : Type 0 where
  pub grade : String
  pub rows : ℤ
  pub availability_fields : List String

pub record ReadinessInputs : Type 0 where
  pub role_evidence : Dict String RoleEvidence
  pub present_roles : List String
  pub evidence_flags : List String
  pub sufficiency : Dict String String

pub record RoleReport : Type 0 where
  pub grade : String
  pub rows : ℤ
  pub supports_historical_replay : Bool
  pub downgrades : List String

pub record Violation : Type 0 where
  pub role : String
  pub field : String

pub record TemporalEvidence : Type 0 where
  pub roles : Dict String RoleReport
  pub violations : List Violation
  pub coverage_by_grade : Dict String ℕ

abbrev pub name_le {ℓ} : {V : Type ℓ} → String × V → String × V → Bool
name_le (a, _) (b, _) = text_le a b

-- the fields of an evidence that never prove availability
unfoldable pub offending : Policy → RoleEvidence → List String
offending policy evidence =
    select (λ f. member f policy.never_proves) (sorted_set evidence.availability_fields)

unfoldable pub role_reports :
    Policy
    → List (String × RoleEvidence)
    → Result ReadinessError (Dict String RoleReport × List Violation)
role_reports policy [] = ok ([], [])
role_reports policy ((name, evidence) ∷ rows) = do
  grade ← from_option unknown_grade (get evidence.grade policy.grades)
  rest ← role_reports policy rows
  ok (
    (
      name,
      record {
        grade = evidence.grade;
        rows = evidence.rows;
        supports_historical_replay = grade.supports_replay;
        downgrades = grade.downgrades;
      },
    )
        ∷ rest.0,
    map (λ f. record { role = name; field = f }) (offending policy evidence) ++ rest.1,
  )

unfoldable pub grade_count : ReadinessInputs → String → ℕ
grade_count inputs grade =
    length (select (λ (p : String × RoleEvidence). (p.1).grade == grade) inputs.role_evidence)

unfoldable pub evaluate_temporal_evidence :
    ReadinessInputs → Policy → Result ReadinessError TemporalEvidence
evaluate_temporal_evidence inputs policy = do
  roles ← role_reports policy (sort_by name_le inputs.role_evidence)
  ok (record {
    roles = roles.0;
    violations = roles.1;
    coverage_by_grade =
        map (λ (p : String × Grade). (p.0, grade_count inputs p.0)) (sort_by name_le policy.grades);
  })
