-- ===== src/Engines/Resolution/Tests.antt =====
-- Runs of the resolvers, and their theorems at concrete inputs.

use retail_intelligence.Engines.Resolution.Terms.{
  IsResolved, resolve_supply_term-IsResolved, resolve_supply_term-absent,
}
use retail_intelligence.Engines.Resolution.Lanes.{
  IsServing, active_lanes-IsRanked, resolve_lane-IsFirst,
}
use retail_intelligence.Engines.Resolution.Defs.{
  Lane, LaneQuery, is_active, serves_channel, exact_lanes, candidate_lanes, range_from, equal_ranks,
  has_repeats, active_lanes, resolve_lane, SupplyTerm, TermQuery, scope_name, scope_id, matches,
  head_unless_tied, ordered_terms, resolve_scopes, precedence, resolve_supply_term, ScopeType,
  supply_term_absent,
}
use retail_intelligence.Base.Result.{ok, err}
use retail_intelligence.Base.Sort.{insert_by, sort_by}
use retail_intelligence.Base.Equality.{nat_eq, string_eq, pair_eq, option_eq}
use retail_intelligence.Base.Int.{◌≤ℤ◌, pos}
use retail_intelligence.Base.{◌≤◌, ◌≡◌, refl, ◌≢◌, none, some, List, [], ◌∷◌, map, All, false}
use mathlib.Core.List.{Perm}

abbrev main_lane : Lane
main_lane = record {
  lane_id = "lane-1";
  lane_type = "replenishment";
  demand_location_id = "store-1";
  supply_location_id = "dc-1";
  channel_id = none;
  effective_from = 100;
  effective_to = none;
  priority_rank = pos 1;
}

abbrev backup_lane : Lane
backup_lane = record main_lane {
  lane_id = "lane-2";
  supply_location_id = "dc-2";
  priority_rank = pos 2;
}

abbrev past_lane : Lane
past_lane = record main_lane { lane_id = "lane-0"; effective_to = some 120 }

abbrev lanes : List Lane
lanes = backup_lane ∷ past_lane ∷ main_lane ∷ []

abbrev demand : LaneQuery
demand = record {
  demand_location_id = "store-1";
  channel_id = some "web";
  on_date = 150;
  lane_type = "replenishment";
}

active_run : active_lanes demand lanes ≡ ok (main_lane ∷ backup_lane ∷ [])
unfolding active_lanes candidate_lanes exact_lanes serves_channel is_active equal_ranks has_repeats
    sort_by insert_by
active_run = refl

resolve_run : resolve_lane demand lanes ≡ ok main_lane
unfolding resolve_lane active_lanes candidate_lanes exact_lanes serves_channel is_active equal_ranks
    has_repeats sort_by insert_by
resolve_run = refl

active_lanes-IsRanked_example :
    Perm (main_lane ∷ backup_lane ∷ []) (candidate_lanes demand lanes)
    × (map (λ (l : Lane). l.priority_rank) (main_lane ∷ backup_lane ∷ []) ≡ range_from 1 2)
    × (1 ≤ 2)
    × All (IsServing demand lanes) (main_lane ∷ backup_lane ∷ [])
active_lanes-IsRanked_example = active_lanes-IsRanked demand lanes active_run

resolve_lane-IsFirst_example :
    IsServing demand lanes main_lane
    × (main_lane.priority_rank ≡ pos 1)
    × (main_lane.supply_location_id ≢ demand.demand_location_id)
    × (rest : List Lane) × Perm (main_lane ∷ rest) (candidate_lanes demand lanes)
    × All (λ (l : Lane). pos 2 ≤ℤ l.priority_rank) rest
resolve_lane-IsFirst_example = resolve_lane-IsFirst demand lanes resolve_run

abbrev dept_term : SupplyTerm
dept_term = record {
  destination_location_id = "store-1";
  origin_kind = "supplier";
  origin_id = "acme";
  merch_scope_type = "dept";
  merch_scope_id = "dairy";
  effective_from = 50;
  effective_to = none;
}

abbrev newer_term : SupplyTerm
newer_term = record dept_term { effective_from = 90 }

abbrev category_term : SupplyTerm
category_term = record dept_term { merch_scope_type = "category"; merch_scope_id = "food" }

abbrev terms : List SupplyTerm
terms = category_term ∷ dept_term ∷ newer_term ∷ []

abbrev wanted : TermQuery
wanted = record {
  destination_location_id = "store-1";
  origin_kind = "supplier";
  origin_id = "acme";
  sku_id = "sku-1";
  dept_id = "dairy";
  category_id = "food";
  on_date = 150;
}

term_run : resolve_supply_term wanted terms ≡ ok newer_term
unfolding resolve_supply_term resolve_scopes ordered_terms head_unless_tied matches scope_name
    scope_id sort_by insert_by
term_run = refl

resolve_supply_term-IsResolved_example :
    (wanted.origin_id ≢ "") × IsResolved wanted terms newer_term precedence
resolve_supply_term-IsResolved_example = resolve_supply_term-IsResolved wanted terms term_run

abbrev elsewhere : TermQuery
elsewhere = record wanted { destination_location_id = "store-2" }

nothing_matches :
    (scope : ScopeType) → All (λ (u : SupplyTerm). matches elsewhere scope u ≡ false) terms
unfolding matches
nothing_matches scope = (refl, (refl, (refl, tt)))

elsewhere_run : resolve_supply_term elsewhere terms ≡ err supply_term_absent
elsewhere_run =
    resolve_supply_term-absent elsewhere terms
      (resolve_supply_term-IsResolved wanted terms term_run).0 nothing_matches
