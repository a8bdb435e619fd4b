-- ===== src/Readiness/Eligible.antt =====
-- Which cells of ingestion/src/retail_ingestion/readiness/evaluator.py may be labelled zero.
use retail_intelligence.Readiness.Capabilities.{is_empty}
use retail_intelligence.Readiness.Zero.{
  ZeroDemandCell, when, assortment_reasons, cell_reasons, count_reasons, count_cells, ZeroDemand,
  evaluate_zero_demand,
}
use retail_intelligence.Base.Texts.{member}
use retail_intelligence.Readiness.Defs.{Policy}
use retail_intelligence.Base.Result.{ok}
use retail_intelligence.Base.Dict.{Dict, put, get_or}
use retail_intelligence.Base.Equality.{nat_eq, string_eq, pair_eq, option_eq}
use retail_intelligence.Base.{
  ℕ, suc, ◌+◌, String, ◌≡◌, refl, sym, ap, ◌∙◌, ◌⊎◌, inl, inr, Bool, true, false, not, ◌&&◌, Option,
  none, some, List, [], ◌∷◌, ◌++◌, arith, length, All, All-append, select, length-select,
}
use mathlib.Core.Path.{subst}

abbrev pub is_listed : Option Bool → Bool
is_listed (some true) = true
is_listed _ = false

-- The condition on a cell, written out.
abbrev pub is_eligible : ZeroDemandCell → Bool
is_eligible cell =
    cell.extract_complete
    && is_listed cell.assortment_active
    && cell.known_by_cutoff
    && cell.boundary_exposure_handled
    && not cell.unresolved_gap

abbrev pub all_reasons : List String
all_reasons =
    "EXTRACT_INCOMPLETE" ∷ "ASSORTMENT_UNKNOWN" ∷ "ASSORTMENT_INACTIVE" ∷ "NOT_KNOWN_BY_CUTOFF"
    ∷ "BOUNDARY_EXPOSURE_PARTIAL" ∷ "CHANNEL_COVERAGE_INCOMPLETE" ∷ []

no_reason :
    (extract : Bool) (assortment : Option Bool) (by_cutoff boundary gap : Bool)
    → is_empty (
        when (not extract) "EXTRACT_INCOMPLETE"
        ++ assortment_reasons assortment
        ++ when (not by_cutoff) "NOT_KNOWN_BY_CUTOFF"
        ++ when (not boundary) "BOUNDARY_EXPOSURE_PARTIAL"
        ++ when gap "CHANNEL_COVERAGE_INCOMPLETE")
      ≡ (extract && is_listed assortment && by_cutoff && boundary && not gap)
no_reason false a b c d = refl
no_reason true none b c d = refl
no_reason true (some false) b c d = refl
no_reason true (some true) false c d = refl
no_reason true (some true) true false d = refl
no_reason true (some true) true true true = refl
no_reason true (some true) true true false = refl

cell_reasons-empty : (cell : ZeroDemandCell) → is_empty (cell_reasons cell) ≡ is_eligible cell
unfolding cell_reasons
cell_reasons-empty cell =
    no_reason cell.extract_complete cell.assortment_active cell.known_by_cutoff
      cell.boundary_exposure_handled cell.unresolved_gap

when-All : (P : String → Type 0) (b : Bool) (reason : String) → P reason → All P (when b reason)
when-All P true reason p = (p, tt)
when-All P false reason p = tt

assortment-All :
    (P : String → Type 0) (o : Option Bool)
    → P "ASSORTMENT_UNKNOWN"
    → P "ASSORTMENT_INACTIVE"
    → All P (assortment_reasons o)
assortment-All P none u i = (u, tt)
assortment-All P (some true) u i = tt
assortment-All P (some false) u i = (i, tt)

cell_reasons-All :
    (P : String → Type 0) (cell : ZeroDemandCell) → All P all_reasons → All P (cell_reasons cell)
unfolding cell_reasons
cell_reasons-All P cell (extract, (unsure, (inactive, (late, (boundary, (gap, _)))))) =
    let a = when (not cell.extract_complete) "EXTRACT_INCOMPLETE" in
    let b = assortment_reasons cell.assortment_active in
    let c = when (not cell.known_by_cutoff) "NOT_KNOWN_BY_CUTOFF" in
    let d = when (not cell.boundary_exposure_handled) "BOUNDARY_EXPOSURE_PARTIAL" in
    let e = when cell.unresolved_gap "CHANNEL_COVERAGE_INCOMPLETE" in
    let on_a = when-All P (not cell.extract_complete) "EXTRACT_INCOMPLETE" extract in
    let on_b = assortment-All P cell.assortment_active unsure inactive in
    let on_c = when-All P (not cell.known_by_cutoff) "NOT_KNOWN_BY_CUTOFF" late in
    let on_d =
      when-All P (not cell.boundary_exposure_handled) "BOUNDARY_EXPOSURE_PARTIAL" boundary in
    let on_e = when-All P cell.unresolved_gap "CHANNEL_COVERAGE_INCOMPLETE" gap in
    let on_ab = All-append P a b on_a on_b in
    let on_abc = All-append P (a ++ b) c on_ab on_c in
    let on_abcd = All-append P (a ++ b ++ c) d on_abc on_d in
    All-append P (a ++ b ++ c ++ d) e on_abcd on_e

count_reasons-returns :
    (allowed reasons : List String) (unknown : Dict String ℕ)
    → All (λ r. member r allowed ≡ true) reasons
    → (u : Dict String ℕ) × (count_reasons allowed reasons unknown ≡ ok u)
unfolding count_reasons
count_reasons-returns allowed [] unknown h = (unknown, refl)
count_reasons-returns allowed (reason ∷ reasons) unknown h =
    let ih =
      count_reasons-returns allowed reasons (put reason (get_or reason 0 unknown + 1) unknown)
        h.1 in
    rw (h.0, ih.1) (_, refl)

List-cases : (xs : List String) → (xs ≡ []) ⊎ ((x : String) × (ys : List String) × (xs ≡ x ∷ ys))
List-cases [] = inl refl
List-cases (x ∷ ys) = inr (x, ys, refl)

count_cells-counts :
    (allowed : List String) (cells : List ZeroDemandCell) (eligible : ℕ) (unknown : Dict String ℕ)
    → All (λ r. member r allowed ≡ true) all_reasons
    → (out : ℕ × Dict String ℕ) × (count_cells allowed cells eligible unknown ≡ ok out)
      × (out.0 ≡ eligible + length (select is_eligible cells))
unfolding count_cells
count_cells-counts allowed [] eligible unknown h = ((eligible, unknown), refl, omega arith)
count_cells-counts allowed (cell ∷ cells) eligible unknown h =
    elim (List-cases (cell_reasons cell)) [
      | inl e ↦
          let fit : is_eligible cell ≡ true = sym (cell_reasons-empty cell) ∙ ap is_empty e in
          let ih = count_cells-counts allowed cells (suc eligible) unknown h in
          rw (e, count_cells, ih.1, fit, select) (ih.0, refl, omega (arith, ih.2))
      | inr found ↦
          let e = found.2 in
          let fit : is_eligible cell ≡ false = sym (cell_reasons-empty cell) ∙ ap is_empty e in
          let allowed_here : All (λ r. member r allowed ≡ true) (found.0 ∷ found.1) =
            subst (All (λ r. member r allowed ≡ true)) e
              (cell_reasons-All (λ r. member r allowed ≡ true) cell h) in
          let counted = count_reasons-returns allowed (found.0 ∷ found.1) unknown allowed_here in
          let ih = count_cells-counts allowed cells eligible counted.0 h in
          rw (e, count_cells, counted.1, ih.1, fit, select) (ih.0, refl, ih.2)
    ]

-- Where the policy allows all reason codes, the evaluation of zero demand returns: the eligible cells
-- are those that are complete, actively assorted, known by the cutoff, handled at the boundary and
-- without an unresolved gap, and with the unknown cells they are all cells.
pub evaluate_zero_demand-counts :
    (cells : List ZeroDemandCell) (policy : Policy)
    → All (λ r. member r policy.zero_reasons ≡ true) all_reasons
    → (out : ZeroDemand) × (evaluate_zero_demand cells policy ≡ ok out)
      × (out.zero_eligible ≡ length (select is_eligible cells))
      × (out.zero_eligible + out.unknown ≡ length cells)
unfolding evaluate_zero_demand
evaluate_zero_demand-counts cells policy h =
    let r = count_cells-counts policy.zero_reasons cells 0 [] h in
    let most = length-select is_eligible cells in
    rw r.1 (_, refl, omega (arith, r.2), omega (arith, r.2, most))
