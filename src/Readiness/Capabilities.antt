-- ===== src/Readiness/Capabilities.antt =====
-- `evaluate_capabilities` of ingestion/src/retail_ingestion/readiness/evaluator.py.
use retail_intelligence.Base.Texts.{member, sorted_set}
use retail_intelligence.Readiness.Defs.{
  ReadinessError, Capability, Policy, RoleEvidence, ReadinessInputs, name_le, missing_key,
}
use retail_intelligence.Base.Result.{Result, ◌>>=◌, from_option, ok}
use retail_intelligence.Base.Sort.{sort_by}
use retail_intelligence.Base.Dict.{Dict, get, get_or}
use retail_intelligence.Base.Equality.{nat_eq, string_eq, ◌==◌, pair_eq, option_eq}
use retail_intelligence.Base.Int.{ℤ, ltb_ℤ, leb_ℤ, max_ℤ}
use retail_intelligence.Base.{
  String, Bool, true, false, not, ◌&&◌, Option, none, some, List, [], ◌∷◌, ◌++◌, map, if◌then◌else◌,
  select,
}
use Prim.Native.String.{◌++◌ as concat}
use mathlib.Core.Option

pub data Readiness : Type 0 where
  ready validated_partial unavailable blocked : Readiness

abbrev pub eqb_Readiness : Readiness → Readiness → Bool
eqb_Readiness ready ready = true
eqb_Readiness validated_partial validated_partial = true
eqb_Readiness unavailable unavailable = true
eqb_Readiness blocked blocked = true
eqb_Readiness _ _ = false

pub record CapabilityReport : Type 0 where
  pub readiness : Readiness
  pub sufficiency : String
  pub required_roles : List String
  pub missing_roles : List String
  pub required_evidence : List String
  pub missing_evidence : List String
  pub minimum_grade : String
  pub weakest_grade : Option String
  pub reason_codes : List String
  pub consumer_may_proceed : Bool

-- `sorted(set(required) - set(present))`
unfoldable pub missing : (required present : List String) → List String
missing required present = select (λ r. not (member r present)) (sorted_set required)

-- `_grade_rank`
unfoldable pub grade_rank : Policy → String → Result ReadinessError ℤ
grade_rank policy grade = do
  found ← from_option missing_key (get grade policy.grades)
  ok found.rank

-- the grades of the required roles that have evidence
unfoldable pub graded : Dict String RoleEvidence → List String → List String
graded evidence [] = []
graded evidence (role ∷ roles) =
    let rest = graded evidence roles in
    elim (get role evidence) [ none ↦ rest | some e ↦ e.grade ∷ rest ]

-- The first of the grades with the greatest rank, from the one found so far.
unfoldable pub weakest_of :
    Policy → (best : String) (rank : ℤ) → List String → Result ReadinessError (String × ℤ)
weakest_of policy best rank [] = ok (best, rank)
weakest_of policy best rank (grade ∷ grades) = do
  other ← grade_rank policy grade
  rest ← weakest_of policy (if ltb_ℤ rank other then grade else best) (max_ℤ rank other) grades
  ok rest

-- `max(graded, key=...) if graded else None`, with its rank
unfoldable pub weakest : Policy → List String → Result ReadinessError (Option (String × ℤ))
weakest policy [] = ok none
weakest policy (grade ∷ grades) = do
  rank ← grade_rank policy grade
  found ← weakest_of policy grade rank grades
  ok (some found)

unfoldable pub is_grade_ok :
    Policy → (minimum : String) → Option (String × ℤ) → Result ReadinessError Bool
is_grade_ok policy minimum none = ok false
is_grade_ok policy minimum (some (_, rank)) = do
  limit ← grade_rank policy minimum
  ok (leb_ℤ rank limit)

unfoldable pub grade_reasons : Option (String × ℤ) → Bool → List String
grade_reasons (some (grade, _)) false = concat "EVIDENCE_GRADE_TOO_WEAK:" grade ∷ []
grade_reasons _ _ = []

abbrev pub is_empty {ℓ} : {A : Type ℓ} → List A → Bool
is_empty [] = true
is_empty (x ∷ xs) = false

unfoldable pub readiness_of : (missing_roles missing_evidence : List String) → Bool → Readiness
readiness_of missing_roles missing_evidence grade_ok =
    if not (is_empty missing_roles)
    then unavailable
    else if not grade_ok
    then unavailable
    else if not (is_empty missing_evidence)
    then validated_partial
    else ready

unfoldable pub evaluate_capability :
    ReadinessInputs → Policy → String → Capability → Result ReadinessError CapabilityReport
evaluate_capability inputs policy capability definition = do
  let missing_roles = missing definition.required_roles inputs.present_roles
  let missing_evidence = missing definition.required_evidence inputs.evidence_flags
  worst ← weakest policy (graded inputs.role_evidence (sorted_set definition.required_roles))
  grade_ok ← is_grade_ok policy definition.minimum_grade worst
  let readiness = readiness_of missing_roles missing_evidence grade_ok
  let sufficiency = get_or capability "not_evaluated" inputs.sufficiency
  ok (record {
    readiness = readiness;
    sufficiency = sufficiency;
    required_roles = sorted_set definition.required_roles;
    missing_roles = missing_roles;
    required_evidence = sorted_set definition.required_evidence;
    missing_evidence = missing_evidence;
    minimum_grade = definition.minimum_grade;
    weakest_grade = Option.map (λ p. p.0) worst;
    reason_codes =
        map (λ role. concat "MISSING_ROLE:" role) missing_roles
        ++ map (λ flag. concat "MISSING_EVIDENCE:" flag) missing_evidence
        ++ grade_reasons worst grade_ok;
    consumer_may_proceed = eqb_Readiness readiness ready && (sufficiency == "sufficient");
  })

unfoldable pub evaluate_all :
    ReadinessInputs
    → Policy
    → List (String × Capability)
    → Result ReadinessError (Dict String CapabilityReport)
evaluate_all inputs policy [] = ok []
evaluate_all inputs policy ((name, definition) ∷ definitions) = do
  one ← evaluate_capability inputs policy name definition
  rest ← evaluate_all inputs policy definitions
  ok ((name, one) ∷ rest)

unfoldable pub evaluate_capabilities :
    ReadinessInputs → Policy → Result ReadinessError (Dict String CapabilityReport)
evaluate_capabilities inputs policy =
    evaluate_all inputs policy (sort_by name_le policy.definitions)
