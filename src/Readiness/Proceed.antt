-- ===== src/Readiness/Proceed.antt =====
-- When a consumer may proceed, by ingestion/src/retail_ingestion/readiness/evaluator.py.
use retail_intelligence.Readiness.Grades.{IsKnown, IsGradeOk, is_grade_ok_iff}
use retail_intelligence.Readiness.Verdicts.{IsWithin, missing-eq_nil_iff, readiness_of-ready_iff}
use retail_intelligence.Readiness.Capabilities.{
  Readiness, eqb_Readiness, CapabilityReport, missing, grade_rank, graded, readiness_of,
  evaluate_capability,
}
use retail_intelligence.Base.Texts.{sorted_set}
use retail_intelligence.Readiness.Defs.{Grade, Capability, Policy, RoleEvidence, ReadinessInputs}
use retail_intelligence.Base.Result.{ok}
use retail_intelligence.Base.Dict.{Dict, get, get_or}
use retail_intelligence.Base.Equality.{nat_eq, string_eq, ◌==◌, pair_eq, option_eq}
use retail_intelligence.Base.{
  String, ◌≡◌, refl, ◌↔◌, inl, inr, true, ◌&&◌, some, List, [], ◌∷◌, arith, Bool-cases,
  Option-cases, All,
}
use mathlib.Core.Path.{subst}

-- A grade that the policy ranks.
abbrev pub IsGraded : Policy → String → Type 0
IsGraded policy grade = (g : Grade) × (get grade policy.grades ≡ some g)

pub graded-IsKnown :
    (policy : Policy) (grade : String) → IsGraded policy grade → IsKnown policy grade
unfolding grade_rank
graded-IsKnown policy grade h = rw h.1 (_, refl)

get-All :
    {V : Type 0} (P : V → Type 0) (k : String) (d : Dict String V) (v : V)
    → All (λ (p : String × V). P p.1) d
    → get k d ≡ some v
    → P v
unfolding get
get-All P k [] v h e = absurd (ground (arith, e))
get-All P k ((j, w) ∷ d) v h e = elim (Bool-cases (j == k)) [
  | inl same ↦ let e' : some w ≡ some v = rw same at e in let eq : w ≡ v = cc in subst P eq h.0
  | inr other ↦ get-All P k d v h.1 (rw other at e)
]

graded-All :
    (policy : Policy) (evidence : Dict String RoleEvidence) (roles : List String)
    → All (λ (p : String × RoleEvidence). IsGraded policy (p.1).grade) evidence
    → All (IsKnown policy) (graded evidence roles)
unfolding graded
graded-All policy evidence [] h = tt
graded-All policy evidence (role ∷ roles) h = elim (Option-cases (get role evidence)) [
  | inl e ↦ rw (e, graded) (graded-All policy evidence roles h)
  | inr found ↦
      let e = found.1 in
      let one = get-All (λ (v : RoleEvidence). IsGraded policy v.grade) role evidence found.0 h e in
      rw (e, graded) (graded-IsKnown policy (found.0).grade one, graded-All policy evidence roles h)
]

-- What the definition of a capability asks of the inputs for it to be ready.
pub record IsReady (inputs : ReadinessInputs) (policy : Policy) (definition : Capability)
    : Type 0 where
  pub roles : IsWithin definition.required_roles inputs.present_roles
  pub evidence : IsWithin definition.required_evidence inputs.evidence_flags
  pub grade :
      IsGradeOk policy definition.minimum_grade
        (graded inputs.role_evidence (sorted_set definition.required_roles))

-- What the report on a capability says, for its name and definition.
pub record IsVerdict (inputs : ReadinessInputs) (policy : Policy) (p : String × Capability)
    (r : String × CapabilityReport) : Type 0 where
  pub name : r.0 ≡ p.0
  pub minimum : (r.1).minimum_grade ≡ (p.1).minimum_grade
  pub ready_iff : ((r.1).readiness ≡ Readiness.ready) ↔ IsReady inputs policy p.1
  pub proceeds_iff :
      ((r.1).consumer_may_proceed ≡ true)
      ↔ (IsReady inputs policy p.1 × (get_or p.0 "not_evaluated" inputs.sufficiency ≡ "sufficient"))

proceeds_iff_of :
    (r : Readiness) (s : String)
    → ((eqb_Readiness r Readiness.ready && (s == "sufficient")) ≡ true)
      ↔ ((r ≡ Readiness.ready) × (s ≡ "sufficient"))
proceeds_iff_of Readiness.ready s =
    let same = string_eq.is_eq_iff s "sufficient" in (λ e. (refl, same.0 e), λ h. same.1 h.1)
proceeds_iff_of Readiness.validated_partial s =
    (λ e. absurd (ground (arith, e)), λ h. absurd (ground (arith, h.0)))
proceeds_iff_of Readiness.unavailable s =
    (λ e. absurd (ground (arith, e)), λ h. absurd (ground (arith, h.0)))
proceeds_iff_of Readiness.blocked s =
    (λ e. absurd (ground (arith, e)), λ h. absurd (ground (arith, h.0)))

pub evaluate_capability-IsVerdict :
    (inputs : ReadinessInputs) (policy : Policy) (p : String × Capability)
    → IsKnown policy (p.1).minimum_grade
    → All (λ (e : String × RoleEvidence). IsGraded policy (e.1).grade) inputs.role_evidence
    → (r : CapabilityReport) × (evaluate_capability inputs policy p.0 p.1 ≡ ok r)
      × IsVerdict inputs policy p (p.0, r)
unfolding evaluate_capability
evaluate_capability-IsVerdict inputs policy p floor known =
    let d = p.1 in
    let grades = graded inputs.role_evidence (sorted_set d.required_roles) in
    let g =
      is_grade_ok_iff policy d.minimum_grade grades floor
        (graded-All policy inputs.role_evidence (sorted_set d.required_roles) known) in
    let roles = missing-eq_nil_iff d.required_roles inputs.present_roles in
    let flags = missing-eq_nil_iff d.required_evidence inputs.evidence_flags in
    let state =
      readiness_of (missing d.required_roles inputs.present_roles)
        (missing d.required_evidence inputs.evidence_flags) g.1 in
    let all =
      readiness_of-ready_iff (missing d.required_roles inputs.present_roles)
        (missing d.required_evidence inputs.evidence_flags) g.1 in
    let holds : (state ≡ Readiness.ready) ↔ IsReady inputs policy d = (
      λ e.
          let parts = all.0 e in
          record { roles = roles.0 parts.0; evidence = flags.0 parts.1; grade = (g.4).0 parts.2 },
      λ h. all.1 (roles.1 h.roles, flags.1 h.evidence, (g.4).1 h.grade),
    ) in
    let may = proceeds_iff_of state (get_or p.0 "not_evaluated" inputs.sufficiency) in
    rw (g.2, g.3)
      (
        _,
        refl,
        record {
          name = refl;
          minimum = refl;
          ready_iff = holds;
          proceeds_iff =
              (λ e. let both = may.0 e in (holds.0 both.0, both.1), λ h. may.1 (holds.1 h.0, h.1));
        },
      )
