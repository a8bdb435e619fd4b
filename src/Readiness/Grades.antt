-- ===== src/Readiness/Grades.antt =====
-- The weakest grade of ingestion/src/retail_ingestion/readiness/evaluator.py.
use retail_intelligence.Readiness.Capabilities.{grade_rank, weakest_of, weakest, is_grade_ok}
use retail_intelligence.Readiness.Defs.{Policy}
use retail_intelligence.Base.Result.{ok-injective, ok-determined, ok}
use retail_intelligence.Base.Equality.{nat_eq, string_eq, pair_eq, option_eq}
use retail_intelligence.Base.Int.{ℤ, ◌≤ℤ◌, ltb_ℤ, leb_ℤ, max_ℤ, leb_ℤ→le, max_ℤ_bounds, max_ℤ-le}
use retail_intelligence.Base.{
  String, ◌≡◌, refl, sym, ◌∙◌, ◌↔◌, Bool, true, false, Option, none, some, List, [], ◌∷◌, arith,
  if◌then◌else◌, All,
}
use mathlib.Core.Path.{subst}

abbrev pub IsKnown : Policy → String → Type 0
IsKnown policy grade = (r : ℤ) × (grade_rank policy grade ≡ ok r)

-- a grade of at most the rank
pub record IsWithinRank (policy : Policy) (limit : ℤ) (grade : String) : Type 0 where
  pub rank : ℤ
  pub known : grade_rank policy grade ≡ ok rank
  pub low : rank ≤ℤ limit

weakest_of-rank :
    (policy : Policy) (limit : ℤ) (best : String) (rank : ℤ) (grades : List String)
    → All (IsKnown policy) grades
    → (w : String × ℤ) × (weakest_of policy best rank grades ≡ ok w)
      × ((w.1 ≤ℤ limit) ↔ ((rank ≤ℤ limit) × All (IsWithinRank policy limit) grades))
unfolding weakest_of
weakest_of-rank policy limit best rank [] known = ((best, rank), refl, (λ h. (h, tt), λ h. h.0))
weakest_of-rank policy limit best rank (grade ∷ grades) known =
    let other = (known.0).0 in
    let e = (known.0).1 in
    let ih =
      weakest_of-rank policy limit (if ltb_ℤ rank other then grade else best) (max_ℤ rank other)
        grades known.1 in
    let bounds = max_ℤ_bounds rank other in
    rw (e, ih.1)
      (
        ih.0,
        refl,
        (
          λ h.
              let both = (ih.2).0 h in
              let most = both.0 in
              (omega arith, (record { rank = other; known = e; low = omega arith }, both.1)),
          λ h.
              let within = (h.1).0 in
              let low = ok-determined (λ r. r ≤ℤ limit) within.known within.low e in
              (ih.2).1 (max_ℤ-le rank other limit h.0 low, (h.1).1),
        ),
      )

-- At least one grade, and none above the rank of the minimum.
pub record IsGradeOk (policy : Policy) (minimum : String) (grades : List String) : Type 0 where
  pub some_grade : ¬ (grades ≡ [])
  pub limit : ℤ
  pub minimum_rank : grade_rank policy minimum ≡ ok limit
  pub within : All (IsWithinRank policy limit) grades

pub is_grade_ok_iff :
    (policy : Policy) (minimum : String) (grades : List String)
    → IsKnown policy minimum
    → All (IsKnown policy) grades
    → (w : Option (String × ℤ)) × (b : Bool) × (weakest policy grades ≡ ok w)
      × (is_grade_ok policy minimum w ≡ ok b)
      × ((b ≡ true) ↔ IsGradeOk policy minimum grades)
unfolding weakest is_grade_ok
is_grade_ok_iff policy minimum [] floor known =
    (none, false, refl, refl, (λ e. absurd (ground (arith, e)), λ h. absurd (h.some_grade refl)))
is_grade_ok_iff policy minimum (grade ∷ grades) floor known =
    let rank = (known.0).0 in
    let e = (known.0).1 in
    let limit = floor.0 in
    let w = weakest_of-rank policy limit grade rank grades known.1 in
    let found : weakest policy (grade ∷ grades) ≡ ok (some w.0) = rw (e, w.1) refl in
    let tested : is_grade_ok policy minimum (some w.0) ≡ ok (leb_ℤ ((w.0).1) limit) =
      rw (floor.1) refl in
    (
      some w.0,
      leb_ℤ ((w.0).1) limit,
      found,
      tested,
      (
        λ h.
            let both = (w.2).0 (leb_ℤ→le ((w.0).1) limit h) in
            record {
              some_grade = λ none_left. absurd (ground (arith, none_left));
              limit = limit;
              minimum_rank = floor.1;
              within = (record { rank = rank; known = e; low = both.0 }, both.1);
            },
        λ h.
            let same = ok-injective (sym h.minimum_rank ∙ floor.1) in
            let within = subst (λ l. All (IsWithinRank policy l) (grade ∷ grades)) same h.within in
            let first = within.0 in
            let low = ok-determined (λ r. r ≤ℤ limit) first.known first.low e in
            let most = (w.2).1 (low, within.1) in ground arith,
      ),
    )
