-- ===== src/Engines/Acceptance/Verdict.antt =====
-- When a candidate is accepted.

use retail_intelligence.Engines.Acceptance.Defs.{
  gates, all_passed, MarketGates, market_gates, gate_rule, metric, passes, score, per_market,
  evaluate_acceptance, stockout_periods, lost_units, fill_rate, mean_inventory_units,
}
use retail_intelligence.Base.Dict.{Dict, put}
use retail_intelligence.Base.Equality.{nat_eq, string_eq, ◌==◌, pair_eq, option_eq}
use retail_intelligence.Base.{
  String, ◌≡◌, refl, ap, ◌∙◌, inl, inr, Bool, ◌&&◌, some, List, [], ◌∷◌, arith, Bool-cases, All,
  all, sym, ◌↔◌, true, false, Option, none, and-eq_true,
}
use retail_intelligence.Decimal.{Decimal, lt_decimal, le_decimal}
use retail_intelligence.Engines.Replay.Defs.{PeriodResult}

module _ (candidate incumbent : List PeriodResult) where
  passing : String → Bool
  passing market_id = all_passed (gates candidate incumbent (some market_id))

  IsConsistent : Dict String MarketGates → Type 0
  IsConsistent = All (λ (p : String × MarketGates). p.1.passed ≡ passing p.0)

  all_markets : Dict String MarketGates → Bool
  all_markets = all (λ (p : String × MarketGates). p.1.passed)

  put-IsConsistent :
      (market_id : String) (done : Dict String MarketGates)
      → IsConsistent done
      → IsConsistent (put market_id (market_gates candidate incumbent market_id) done)
  unfolding put market_gates IsConsistent passing
  put-IsConsistent market_id [] h = (refl, tt)
  put-IsConsistent market_id ((j, v) ∷ done) h = elim (Bool-cases (j == market_id)) [
    | inl same ↦ rw same ((rw ((string_eq.is_eq_iff j market_id).0 same) refl), h.1)
    | inr other ↦ rw other (h.0, put-IsConsistent market_id done h.1)
  ]

  put-all_markets :
      (market_id : String) (done : Dict String MarketGates)
      → IsConsistent done
      → all_markets (put market_id (market_gates candidate incumbent market_id) done)
        ≡ (passing market_id && all_markets done)
  unfolding put market_gates IsConsistent passing all_markets
  put-all_markets market_id [] h = refl
  put-all_markets market_id ((j, v) ∷ done) h = elim (Bool-cases (j == market_id)) [
    | inl same ↦
        let one : v.passed ≡ passing market_id =
          h.0 ∙ ap passing ((string_eq.is_eq_iff j market_id).0 same) in
        rw same (ground (arith, one))
    | inr other ↦ let ih = put-all_markets market_id done h.1 in rw other (ground (arith, ih))
  ]

  per_market-all_markets :
      (markets : List String) (done : Dict String MarketGates)
      → IsConsistent done
      → all_markets (per_market candidate incumbent markets done)
        ≡ (all passing markets && all_markets done)
  unfolding per_market
  per_market-all_markets [] done h = refl
  per_market-all_markets (market_id ∷ markets) done h =
      let next = put market_id (market_gates candidate incumbent market_id) done in
      let ih = per_market-all_markets markets next (put-IsConsistent market_id done h) in
      let one = put-all_markets market_id done h in ground (arith, ih, one)

-- Every frozen gate holds in the scope, in the sense in which it is stated: fewer stockout periods,
-- fewer lost units, no worse fill rate and a lower mean inventory.
pub record IsBetter (candidate incumbent : List PeriodResult) (scope : Option String) : Type 0 where
  pub stockouts :
      lt_decimal (metric stockout_periods scope candidate) (metric stockout_periods scope incumbent)
      ≡ true
  pub lost :
      lt_decimal (metric lost_units scope candidate) (metric lost_units scope incumbent) ≡ true
  pub fill : le_decimal (metric fill_rate scope incumbent) (metric fill_rate scope candidate) ≡ true
  pub inventory :
      lt_decimal
        (metric mean_inventory_units scope candidate)
        (metric mean_inventory_units scope incumbent)
      ≡ true

gates-IsBetter :
    (candidate incumbent : List PeriodResult) (scope : Option String)
    → (all_passed (gates candidate incumbent scope) ≡ true) ↔ IsBetter candidate incumbent scope
unfolding gates score passes gate_rule
gates-IsBetter candidate incumbent scope = (
  λ e.
      let (a, e1) = and-eq_true _ _ e in
      let (b, e2) = and-eq_true _ _ e1 in
      let (c, e3) = and-eq_true _ _ e2 in
      let (d, _) = and-eq_true _ _ e3 in
      record { stockouts = a; lost = b; fill = c; inventory = d },
  λ h. rw h.stockouts (rw h.lost (rw h.fill (rw h.inventory refl))),
)

all-IsBetter :
    (candidate incumbent : List PeriodResult) (markets : List String)
    → (all (passing candidate incumbent) markets ≡ true)
      ↔ All (λ (m : String). IsBetter candidate incumbent (some m)) markets
unfolding passing
all-IsBetter candidate incumbent [] = (λ _. tt, λ _. refl)
all-IsBetter candidate incumbent (m ∷ markets) =
    let ih = all-IsBetter candidate incumbent markets in
    let one = gates-IsBetter candidate incumbent (some m) in
    (
      λ e. let (here, rest) = and-eq_true _ _ e in (one.0 here, ih.0 rest),
      λ h. rw (one.1 h.0) (ih.1 h.1),
    )

-- A candidate is accepted exactly if the oracle was reproduced and every gate holds, both over all
-- periods together and in each of the markets by itself: a pooled pass carries no failing market.
pub evaluate_acceptance-passed_iff :
    (candidate incumbent : List PeriodResult) (markets : List String) (oracle_passed : Bool)
    → ((evaluate_acceptance candidate incumbent markets oracle_passed).passed ≡ true) ↔ (
        (oracle_passed ≡ true)
        × IsBetter candidate incumbent none
        × All (λ (m : String). IsBetter candidate incumbent (some m)) markets)
unfolding evaluate_acceptance all_markets IsConsistent
evaluate_acceptance-passed_iff candidate incumbent markets false =
    (λ e. absurd (ground (arith, e)), λ h. absurd (ground (arith, h.0)))
evaluate_acceptance-passed_iff candidate incumbent markets true =
    let pooled = gates-IsBetter candidate incumbent none in
    let each = all-IsBetter candidate incumbent markets in
    let local = per_market-all_markets candidate incumbent markets [] tt in
    (
      λ e.
          let (here, rest) = and-eq_true _ _ e in
          let by_market = (and-eq_true _ _ (sym local ∙ rest)).0 in
          (refl, pooled.0 here, each.0 by_market),
      λ h. rw (pooled.1 h.1) (local ∙ rw (each.1 h.2) refl),
    )

lt_decimal_irrefl : (d : Decimal) → lt_decimal d d ≡ true → ⊥
unfolding lt_decimal
lt_decimal_irrefl d h = ground (arith, h)

-- A candidate whose periods are those of the incumbent is not accepted: a tie fails.
pub evaluate_acceptance-tie :
    (periods : List PeriodResult) (markets : List String) (oracle_passed : Bool)
    → (evaluate_acceptance periods periods markets oracle_passed).passed ≡ false
evaluate_acceptance-tie periods markets oracle_passed =
    elim (Bool-cases (evaluate_acceptance periods periods markets oracle_passed).passed) [
      | inr fails ↦ fails
      | inl accepted ↦
          let (_, better, _) =
            (evaluate_acceptance-passed_iff periods periods markets oracle_passed).0 accepted in
          absurd (lt_decimal_irrefl (metric lost_units none periods) better.lost)
    ]
