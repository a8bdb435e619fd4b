-- ===== src/Engines/Acceptance/Defs.antt =====
-- `ReplayResult.metric`, `_compare` and `evaluate_acceptance` of ml/src/retail_ml/engines/replay.py.
-- A replay result is the list of its periods, and the mapping `oracle` is its entry `passed`.

use retail_intelligence.Base.Dict.{Dict, put}
use retail_intelligence.Base.Equality.{nat_eq, string_eq, ◌==◌, pair_eq, option_eq}
use retail_intelligence.Base.Int.{ℤ, eqb_ℤ, sum_ℤ, pos}
use retail_intelligence.Base.{
  String, Bool, true, false, not, ◌&&◌, Option, none, some, List, [], ◌∷◌, map, ltb, if◌then◌else◌,
  length, all, select,
}
use retail_intelligence.Decimal.{Decimal, of_ℤ, divide, lt_decimal, le_decimal}
use retail_intelligence.Engines.Replay.Defs.{PeriodResult}

-- the keys of `GATE_RULES`
pub data Metric : Type 0 where
  stockout_periods lost_units fill_rate mean_inventory_units : Metric

pub data Rule : Type 0 where
  fewer_than_incumbent no_worse_than_incumbent lower_than_incumbent : Rule

unfoldable pub gate_rule : Metric → Rule
gate_rule stockout_periods = fewer_than_incumbent
gate_rule lost_units = fewer_than_incumbent
gate_rule fill_rate = no_worse_than_incumbent
gate_rule mean_inventory_units = lower_than_incumbent

abbrev pub in_market : Option String → PeriodResult → Bool
in_market none period = true
in_market (some market_id) period = period.market_id == market_id

abbrev pub sum_of : (PeriodResult → ℤ) → List PeriodResult → ℤ
sum_of f rows = sum_ℤ (map f rows)

-- the value of a metric over rows that are not empty
unfoldable pub metric_of : Metric → List PeriodResult → Decimal
metric_of stockout_periods rows =
    of_ℤ (pos (length (select (λ (r : PeriodResult). ltb 0 r.stockout_cells) rows)))
metric_of lost_units rows = of_ℤ (sum_of (λ r. r.lost_units) rows)
metric_of fill_rate rows =
    let demand = sum_of (λ r. r.demand_units) rows in
    let served = sum_of (λ r. r.served_units) rows in
    if eqb_ℤ demand (pos 0) then of_ℤ (pos 0) else divide served demand
metric_of mean_inventory_units rows =
    divide (sum_of (λ r. r.closing_units) rows) (pos (length rows))

unfoldable pub metric : Metric → Option String → List PeriodResult → Decimal
metric name market_id periods = elim (select (in_market market_id) periods) [
  | [] ↦ of_ℤ (pos 0)
  | r ∷ rows ↦ metric_of name (r ∷ rows)
]

-- `_compare`: a tie fails wherever the gate asks for an improvement.
unfoldable pub passes : Metric → (candidate incumbent : Decimal) → Bool
passes name candidate incumbent = elim (gate_rule name) [
  | fewer_than_incumbent ↦ lt_decimal candidate incumbent
  | lower_than_incumbent ↦ lt_decimal candidate incumbent
  | no_worse_than_incumbent ↦ le_decimal incumbent candidate
]

pub record GateScore : Type 0 where
  pub passed : Bool
  pub candidate : Decimal
  pub incumbent : Decimal
  pub rule : Rule

abbrev pub all_metrics : List Metric
all_metrics = stockout_periods ∷ lost_units ∷ fill_rate ∷ mean_inventory_units ∷ []

unfoldable pub score :
    (candidate incumbent : List PeriodResult) → Option String → Metric → GateScore
score candidate incumbent market_id name =
    let candidate_value = metric name market_id candidate in
    let incumbent_value = metric name market_id incumbent in
    record {
      passed = passes name candidate_value incumbent_value;
      candidate = candidate_value;
      incumbent = incumbent_value;
      rule = gate_rule name;
    }

unfoldable pub gates : (candidate incumbent : List PeriodResult) → Option String → List GateScore
gates candidate incumbent market_id = map (score candidate incumbent market_id) all_metrics

abbrev pub all_passed : List GateScore → Bool
all_passed = all (λ (g : GateScore). g.passed)

-- the gates of one market, and whether all of them pass
pub record MarketGates : Type 0 where
  pub scores : List GateScore
  pub passed : Bool

unfoldable pub market_gates : (candidate incumbent : List PeriodResult) → String → MarketGates
market_gates candidate incumbent market_id =
    let scores = gates candidate incumbent (some market_id) in
    record { scores = scores; passed = all_passed scores }

-- the mapping from the markets, a repeated market written again
unfoldable pub per_market :
    (candidate incumbent : List PeriodResult)
    → List String
    → Dict String MarketGates
    → Dict String MarketGates
per_market candidate incumbent [] done = done
per_market candidate incumbent (market_id ∷ markets) done =
    per_market candidate incumbent markets
      (put market_id (market_gates candidate incumbent market_id) done)

pub data Reason : Type 0 where
  oracle_reproduction_failed replay_gate_failed : Reason

pub record Verdict : Type 0 where
  pub passed : Bool
  pub reason_code : Option Reason
  pub replay_gates : List GateScore
  pub market_gates : Dict String MarketGates

unfoldable pub evaluate_acceptance :
    (candidate incumbent : List PeriodResult) → List String → (oracle_passed : Bool) → Verdict
evaluate_acceptance candidate incumbent markets oracle_passed =
    let global_gates = gates candidate incumbent none in
    let by_market = per_market candidate incumbent markets [] in
    let all_good =
      all_passed global_gates && all (λ (p : String × MarketGates). p.1.passed) by_market in
    if not oracle_passed
    then record {
      passed = false;
      reason_code = some oracle_reproduction_failed;
      replay_gates = [];
      market_gates = [];
    }
    else record {
      passed = all_good;
      reason_code = if all_good then none else some replay_gate_failed;
      replay_gates = global_gates;
      market_gates = by_market;
    }
