-- ===== src/Readiness/Verdicts.antt =====
-- What the verdicts of ingestion/src/retail_ingestion/readiness/evaluator.py say.
use retail_intelligence.Readiness.Capabilities.{Readiness, missing, readiness_of}
use retail_intelligence.Base.Texts.{text_le, member, distinct, sorted_set}
use retail_intelligence.Readiness.Defs.{Policy, RoleEvidence, offending}
use retail_intelligence.Base.Sort.{sort_by, All-sort_by, All-of_sort_by}
use retail_intelligence.Base.Equality.{nat_eq, string_eq, ◌==◌, pair_eq, option_eq}
use retail_intelligence.Base.{
  String, ◌≡◌, refl, ◌↔◌, inl, inr, Bool, true, false, not, ◌||◌, List, [], ◌∷◌, arith, Bool-cases,
  All, All-imp, select, select-eq_nil, select-nil,
}
use mathlib.Core.Path.{subst}

-- every text of the first list is in the second
abbrev pub IsWithin : List String → List String → Type 0
IsWithin required present = All (λ r. member r present ≡ true) required

member_cons :
    (t r : String) (texts : List String) → member t (r ∷ texts) ≡ ((r == t) || member t texts)
member_cons t r texts = refl

distinct-All : (P : String → Type 0) (texts : List String) → All P texts → All P (distinct texts)
unfolding distinct
distinct-All P [] h = tt
distinct-All P (a ∷ texts) h = elim (Bool-cases (member a (distinct texts))) [
  | inl old ↦ rw old (distinct-All P texts h.1)
  | inr new ↦ rw new (h.0, distinct-All P texts h.1)
]

All-member :
    (P : String → Type 0) (a : String) (texts : List String)
    → member a texts ≡ true
    → All P texts
    → P a
All-member P a [] e h = absurd (ground (arith, e))
All-member P a (t ∷ texts) e h = elim (Bool-cases (t == a)) [
  | inl same ↦ subst P ((string_eq.is_eq_iff t a).0 same) h.0
  | inr other ↦ All-member P a texts (ground (arith, e, other)) h.1
]

All-distinct : (P : String → Type 0) (texts : List String) → All P (distinct texts) → All P texts
unfolding distinct
All-distinct P [] h = tt
All-distinct P (a ∷ texts) h = elim (Bool-cases (member a (distinct texts))) [
  | inl old ↦
      let h' : All P (distinct texts) = rw old at h in
      (All-member P a (distinct texts) old h', All-distinct P texts h')
  | inr new ↦ let h' : All P (a ∷ distinct texts) = rw new at h in (h'.0, All-distinct P texts h'.1)
]

-- none of a set's texts is selected exactly if none of the texts is
pub select-sorted_set_iff :
    (q : String → Bool) (texts : List String)
    → (select q (sorted_set texts) ≡ []) ↔ All (λ t. q t ≡ false) texts
unfolding sorted_set
select-sorted_set_iff q texts =
    let fails = λ (t : String). q t ≡ false in
    (
      λ e. All-distinct fails texts (
          All-of_sort_by text_le fails (distinct texts)
            (select-eq_nil q (sort_by text_le (distinct texts)) e)),
      λ h.
          select-nil q (sort_by text_le (distinct texts))
            (All-sort_by text_le fails (distinct texts) (distinct-All fails texts h)),
    )

-- nothing is missing exactly if all that is required is there
pub missing-eq_nil_iff :
    (required present : List String) → (missing required present ≡ []) ↔ IsWithin required present
unfolding missing
missing-eq_nil_iff required present =
    let found = select-sorted_set_iff (λ r. not (member r present)) required in
    (
      λ e.
          All-imp _ (λ r. member r present ≡ true) required
            (λ r h. let h' : not (member r present) ≡ false = h in ground (arith, h')) (found.0 e),
      λ h. found.1 (
          All-imp _ (λ r. not (member r present) ≡ false) required
            (λ r e. let e' : member r present ≡ true = e in ground (arith, e')) h),
    )

-- An evidence that uses no field that never proves availability.
abbrev pub IsProper : Policy → RoleEvidence → Type 0
IsProper policy evidence =
    All (λ f. member f policy.never_proves ≡ false) evidence.availability_fields

pub offending-eq_nil_iff :
    (policy : Policy) (evidence : RoleEvidence)
    → (offending policy evidence ≡ []) ↔ IsProper policy evidence
unfolding offending
offending-eq_nil_iff policy evidence =
    select-sorted_set_iff (λ f. member f policy.never_proves) evidence.availability_fields

pub readiness_of-ready_iff :
    (roles evidence : List String) (grade_ok : Bool)
    → (readiness_of roles evidence grade_ok ≡ Readiness.ready)
      ↔ ((roles ≡ []) × (evidence ≡ []) × (grade_ok ≡ true))
unfolding readiness_of
readiness_of-ready_iff [] [] true = (λ _. (refl, refl, refl), λ _. refl)
readiness_of-ready_iff [] [] false =
    (λ e. absurd (ground (arith, e)), λ h. absurd (ground (arith, h.2)))
readiness_of-ready_iff [] (x ∷ xs) true =
    (λ e. absurd (ground (arith, e)), λ h. absurd (ground (arith, h.1)))
readiness_of-ready_iff [] (x ∷ xs) false =
    (λ e. absurd (ground (arith, e)), λ h. absurd (ground (arith, h.1)))
readiness_of-ready_iff (x ∷ xs) ys b =
    (λ e. absurd (ground (arith, e)), λ h. absurd (ground (arith, h.0)))
