-- ===== src/Readiness/Decisions.antt =====
-- The whole report of ingestion/src/retail_ingestion/readiness/evaluator.py: who may proceed, and why.
use retail_intelligence.Readiness.Verdicts.{IsProper, offending-eq_nil_iff}
use retail_intelligence.Readiness.Proceed.{
  IsGraded, graded-IsKnown, IsReady, IsVerdict, evaluate_capability-IsVerdict,
}
use retail_intelligence.Readiness.Eligible.{all_reasons, evaluate_zero_demand-counts}
use retail_intelligence.Readiness.Report.{block, block_all, ReadinessReport, build_readiness_report}
use retail_intelligence.Readiness.Zero.{ZeroDemandCell}
use retail_intelligence.Readiness.Capabilities.{
  CapabilityReport, is_empty, evaluate_all, evaluate_capabilities,
}
use retail_intelligence.Base.Texts.{member}
use retail_intelligence.Readiness.Defs.{
  Capability, Policy, load_policy, RoleEvidence, ReadinessInputs, RoleReport, Violation,
  TemporalEvidence, name_le, offending, role_reports, evaluate_temporal_evidence,
}
use retail_intelligence.Base.Result.{ok}
use retail_intelligence.Base.Sort.{sort_by, All-sort_by, All-of_sort_by}
use retail_intelligence.Base.Dict.{Dict, get_or}
use retail_intelligence.Base.Equality.{nat_eq, string_eq, ◌==◌, pair_eq, option_eq}
use retail_intelligence.Base.{
  String, ◌≡◌, refl, ◌↔◌, inl, inr, Bool, true, false, not, ◌&&◌, Option, List, [], ◌∷◌, ◌++◌, map,
  arith, if◌then◌else◌, Bool-cases, All,
}

-- the lists have the same length, and their items are related in order
abbrev pub Matches {ℓ κ} : {A : Type ℓ} {B : Type κ} → (A → B → Type 0) → List A → List B → Type 0
Matches R [] [] = Unit
Matches R [] (y ∷ ys) = ⊥
Matches R (x ∷ xs) [] = ⊥
Matches R (x ∷ xs) (y ∷ ys) = R x y × Matches R xs ys

-- A business date as availability stops what needs more than a landing backfill.
abbrev pub is_stopped : (violated : Bool) → Capability → Bool
is_stopped violated definition = violated && not (definition.minimum_grade == "landing_backfill")

-- The final report on a capability.
pub record IsDecision (inputs : ReadinessInputs) (policy : Policy) (violated : Bool)
    (p : String × Capability) (r : String × CapabilityReport) : Type 0 where
  pub name : r.0 ≡ p.0
  pub proceeds_iff : ((r.1).consumer_may_proceed ≡ true) ↔ (
      IsReady inputs policy p.1
      × (get_or p.0 "not_evaluated" inputs.sufficiency ≡ "sufficient")
      × (is_stopped violated p.1 ≡ false))

-- What a report on these inputs needs of the policy.
pub record IsSupported (inputs : ReadinessInputs) (policy : Policy) : Type 0 where
  pub grades : All (λ (e : String × RoleEvidence). IsGraded policy (e.1).grade) inputs.role_evidence
  pub minimums :
      All (λ (p : String × Capability). IsGraded policy (p.1).minimum_grade) policy.definitions
  pub reasons : All (λ r. member r policy.zero_reasons ≡ true) all_reasons

evaluate_all-Matches :
    (inputs : ReadinessInputs) (policy : Policy) (definitions : List (String × Capability))
    → All (λ (p : String × Capability). IsGraded policy (p.1).minimum_grade) definitions
    → All (λ (e : String × RoleEvidence). IsGraded policy (e.1).grade) inputs.role_evidence
    → (out : Dict String CapabilityReport) × (evaluate_all inputs policy definitions ≡ ok out)
      × Matches (IsVerdict inputs policy) definitions out
unfolding evaluate_all
evaluate_all-Matches inputs policy [] floors known = ([], refl, tt)
evaluate_all-Matches inputs policy (p ∷ definitions) floors known =
    let one =
      evaluate_capability-IsVerdict inputs policy p
        (graded-IsKnown policy (p.1).minimum_grade floors.0) known in
    let ih = evaluate_all-Matches inputs policy definitions floors.1 known in
    rw (one.1, ih.1) (_, refl, (one.2, ih.2))

verdict-IsDecision :
    (inputs : ReadinessInputs) (policy : Policy) (p : String × Capability)
    (r : String × CapabilityReport)
    → IsVerdict inputs policy p r
    → IsDecision inputs policy false p r
verdict-IsDecision inputs policy p r h = record {
  name = h.name;
  proceeds_iff = (
    λ e. let both = h.proceeds_iff.0 e in (both.0, both.1, refl),
    λ a. h.proceeds_iff.1 (a.0, a.1),
  );
}

block-IsDecision :
    (inputs : ReadinessInputs) (policy : Policy) (p : String × Capability)
    (r : String × CapabilityReport)
    → IsVerdict inputs policy p r
    → IsDecision inputs policy true p (r.0, block r.1)
unfolding block
block-IsDecision inputs policy p r h =
    let same = h.minimum in
    elim (Bool-cases ((p.1).minimum_grade == "landing_backfill")) [
      | inl landing ↦
          let here : ((r.1).minimum_grade == "landing_backfill") ≡ true = rw same landing in
          rw here (record {
            name = h.name;
            proceeds_iff = (
              λ e. let both = h.proceeds_iff.0 e in (both.0, both.1, rw landing refl),
              λ a. h.proceeds_iff.1 (a.0, a.1),
            );
          })
      | inr beyond ↦
          let here : ((r.1).minimum_grade == "landing_backfill") ≡ false = rw same beyond in
          rw here (record {
            name = h.name;
            proceeds_iff = (
              λ e. absurd (ground (arith, e)),
              λ a. let free = a.2 in absurd (ground (arith, free, beyond)),
            );
          })
    ]

decide :
    (inputs : ReadinessInputs) (policy : Policy) (violated : Bool) (ds : List (String × Capability))
    (rs : Dict String CapabilityReport)
    → Matches (IsVerdict inputs policy) ds rs
    → Matches (IsDecision inputs policy violated) ds (if violated then block_all rs else rs)
decide inputs policy true [] [] h = tt
decide inputs policy false [] [] h = tt
decide inputs policy violated [] (r ∷ rs) h = absurd h
decide inputs policy violated (d ∷ ds) [] h = absurd h
decide inputs policy true (d ∷ ds) (r ∷ rs) h =
    (block-IsDecision inputs policy d r h.0, decide inputs policy true ds rs h.1)
decide inputs policy false (d ∷ ds) (r ∷ rs) h =
    (verdict-IsDecision inputs policy d r h.0, decide inputs policy false ds rs h.1)

map-append_iff :
    {A : Type 0} {B : Type 0} (f : A → B) (xs : List A) (ys : List B)
    → (map f xs ++ ys ≡ []) ↔ ((xs ≡ []) × (ys ≡ []))
map-append_iff f [] ys = (λ e. (refl, e), λ h. h.1)
map-append_iff f (x ∷ xs) ys = (λ e. absurd (ground (arith, e)), λ h. absurd (ground (arith, h.0)))

abbrev pub AllProper : Policy → Dict String RoleEvidence → Type 0
AllProper policy rows = All (λ (e : String × RoleEvidence). IsProper policy e.1) rows

role_reports-violations_iff :
    (policy : Policy) (rows : List (String × RoleEvidence))
    → All (λ (e : String × RoleEvidence). IsGraded policy (e.1).grade) rows
    → (out : Dict String RoleReport × List Violation) × (role_reports policy rows ≡ ok out)
      × ((out.1 ≡ []) ↔ AllProper policy rows)
unfolding role_reports
role_reports-violations_iff policy [] h = (_, refl, (λ _. tt, λ _. refl))
role_reports-violations_iff policy (row ∷ rows) h =
    let ih = role_reports-violations_iff policy rows h.1 in
    let record_of = λ (f : String). let v : Violation = record { role = row.0; field = f } in v in
    let here = map-append_iff record_of (offending policy row.1) ((ih.0).1) in
    let proper = offending-eq_nil_iff policy row.1 in
    rw ((h.0).1, ih.1)
      (
        _,
        refl,
        (
          λ e. let both = here.0 e in (proper.0 both.0, (ih.2).0 both.1),
          λ a. here.1 (proper.1 a.0, (ih.2).1 a.1),
        ),
      )

evaluate_temporal_evidence-violations_iff :
    (inputs : ReadinessInputs) (policy : Policy)
    → All (λ (e : String × RoleEvidence). IsGraded policy (e.1).grade) inputs.role_evidence
    → (out : TemporalEvidence) × (evaluate_temporal_evidence inputs policy ≡ ok out)
      × ((out.violations ≡ []) ↔ AllProper policy inputs.role_evidence)
unfolding evaluate_temporal_evidence
evaluate_temporal_evidence-violations_iff inputs policy h =
    let r =
      role_reports-violations_iff policy (sort_by name_le inputs.role_evidence)
        (All-sort_by name_le _ inputs.role_evidence h) in
    let proper = λ (e : String × RoleEvidence). IsProper policy e.1 in
    rw r.1 (
      _,
      refl,
      (
        λ e. All-of_sort_by name_le proper inputs.role_evidence ((r.2).0 e),
        λ a. (r.2).1 (All-sort_by name_le proper inputs.role_evidence a),
      ),
    )

-- Where the policy loads and ranks the grades in use and the minimum grades, and allows all reason
-- codes, the report is built. It has one entry for each capability of the policy, in the order of
-- their names: a consumer may proceed exactly if all required roles and evidence are there, the
-- required roles have graded evidence and none is weaker than the minimum, the measured sufficiency
-- is sufficient, and no violation was found unless the minimum is a landing backfill. No violation is
-- found exactly if no role uses a field as availability that never proves it.
pub build_readiness_report-proceeds_iff :
    (read : String → Option (Option String × Policy)) (inputs : ReadinessInputs)
    (cells : List ZeroDemandCell) (tenant_id source_snapshot_id : String) (policy : Policy)
    → load_policy read ≡ ok policy
    → IsSupported inputs policy
    → (report : ReadinessReport) × (build_readiness_report read inputs cells tenant_id
          source_snapshot_id
        ≡ ok report)
      × Matches
          (IsDecision inputs policy (not (is_empty (report.temporal_evidence).violations)))
          (sort_by name_le policy.definitions)
          report.capabilities
      × (((report.temporal_evidence).violations ≡ []) ↔ AllProper policy inputs.role_evidence)
unfolding build_readiness_report evaluate_capabilities
build_readiness_report-proceeds_iff read inputs cells tenant_id source_snapshot_id policy loaded h =
    let temporal = evaluate_temporal_evidence-violations_iff inputs policy h.grades in
    let all =
      evaluate_all-Matches inputs policy (sort_by name_le policy.definitions)
        (All-sort_by name_le _ policy.definitions h.minimums) h.grades in
    let zeros = evaluate_zero_demand-counts cells policy h.reasons in
    rw (loaded, temporal.1, all.1, zeros.1)
      (
        _,
        refl,
        decide inputs policy (not (is_empty (temporal.0).violations))
            (sort_by name_le policy.definitions) all.0 all.2,
        temporal.2,
      )
