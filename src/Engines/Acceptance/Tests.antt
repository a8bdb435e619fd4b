-- ===== src/Engines/Acceptance/Tests.antt =====
-- Quotients of decimals, a verdict, and the theorems at it.
use retail_intelligence.Decimal.{of_ℤ, lt_decimal, le_decimal, divide}
use retail_intelligence.Engines.Clock.Defs.{midnight, instant_eq}
use retail_intelligence.Engines.Replay.Defs.{PeriodResult}
use retail_intelligence.Engines.Acceptance.Verdict.{
  IsBetter, evaluate_acceptance-passed_iff, evaluate_acceptance-tie,
}
use retail_intelligence.Engines.Acceptance.Oracle.{compare_periods, reproduce_oracle}
use retail_intelligence.Engines.Acceptance.Defs.{
  gate_rule, metric_of, metric, passes, score, gates, market_gates, per_market, evaluate_acceptance,
}
use retail_intelligence.Base.Result.{ok}
use retail_intelligence.Base.Dict.{put}
use retail_intelligence.Base.Equality.{nat_eq, string_eq, pair_eq, option_eq}
use retail_intelligence.Base.Int.{◌+ℤ◌, ◌-ℤ◌, ◌*ℤ◌, pos, negsuc}
use retail_intelligence.Base.{String, ◌≡◌, refl, ◌↔◌, true, false, none, some, [], ◌∷◌, All}

third_run :
    divide (pos 2) (pos 3)
    ≡ record { coefficient = pos 6666666666666666666666666667; exponent = negsuc 27 }
unfolding divide
third_run = refl

exact_run : divide (pos 6) (pos 4) ≡ record { coefficient = pos 15; exponent = negsuc 0 }
unfolding divide
exact_run = refl

abbrev weak : PeriodResult
weak = record {
  period_open = midnight 738998;
  market_id = "us";
  opening_units = pos 5;
  closing_units = pos 4;
  demand_units = pos 7;
  served_units = pos 5;
  lost_units = pos 2;
  stockout_cells = 1;
  ordered_units = pos 4;
  received_units = pos 0;
  wasted_units = pos 0;
}

abbrev strong : PeriodResult
strong = record weak {
  closing_units = pos 2;
  served_units = pos 7;
  lost_units = pos 0;
  stockout_cells = 0;
}

accepted_run : (evaluate_acceptance (strong ∷ []) (weak ∷ []) ("us" ∷ "us" ∷ []) true).passed ≡ true
unfolding evaluate_acceptance per_market market_gates gates score passes gate_rule metric metric_of
    divide put lt_decimal le_decimal ◌+ℤ◌
accepted_run = refl

-- A market that the replay has no rows of fails its gates.
absent_market_run :
    (evaluate_acceptance (strong ∷ []) (weak ∷ []) ("us" ∷ "eu" ∷ []) true).passed ≡ false
unfolding evaluate_acceptance per_market market_gates gates score passes gate_rule metric metric_of
    divide put lt_decimal le_decimal ◌+ℤ◌
absent_market_run = refl

evaluate_acceptance-passed_iff_example :
    ((evaluate_acceptance (strong ∷ []) (weak ∷ []) ("us" ∷ []) true).passed ≡ true) ↔ (
      (true ≡ true)
      × IsBetter (strong ∷ []) (weak ∷ []) none
      × All (λ (m : String). IsBetter (strong ∷ []) (weak ∷ []) (some m)) ("us" ∷ []))
evaluate_acceptance-passed_iff_example =
    evaluate_acceptance-passed_iff (strong ∷ []) (weak ∷ []) ("us" ∷ []) true

evaluate_acceptance-tie_example :
    (evaluate_acceptance (weak ∷ []) (weak ∷ []) ("us" ∷ []) true).passed ≡ false
evaluate_acceptance-tie_example = evaluate_acceptance-tie (weak ∷ []) ("us" ∷ []) true

no_weeks_run :
    reproduce_oracle [] [] (of_ℤ (pos 1))
    ≡ ok (record {
      passed = false;
      weeks_compared = 0;
      measured = none;
      tolerance = none;
      reason_code = some "NO_ORACLE_WEEKS_AVAILABLE";
    })
unfolding reproduce_oracle compare_periods lt_decimal divide ◌*ℤ◌ ◌-ℤ◌
no_weeks_run = refl
