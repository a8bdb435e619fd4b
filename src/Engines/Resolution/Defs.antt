-- ===== src/Engines/Resolution/Defs.antt =====
-- The operations of ml/src/retail_ml/engines/resolution.py. A date is its ordinal, and a row's
-- mapping is a record of the fields that the code reads.

use retail_intelligence.Base.Result.{Result, ◌>>=◌, ◌>>◌, raise_if, ok, err}
use retail_intelligence.Base.Sort.{sort_by}
use retail_intelligence.Base.Equality.{◌==◌, nat_eq, string_eq, pair_eq, option_eq}
use retail_intelligence.Base.Int.{ℤ, leb_ℤ, eqb_ℤ, pos}
use retail_intelligence.Base.{
  ℕ, zero, suc, String, Bool, true, false, not, ◌&&◌, ◌||◌, Option, none, some, List, [], ◌∷◌, map,
  ltb, leb, eqb, if◌then◌else◌, length, any, select,
}

pub data ResolutionError : Type 0 where
  no_active_service_lane lane_ranks_invalid lane_self_loop : ResolutionError
  supply_term_origin_required supply_term_ambiguous supply_term_absent : ResolutionError
  -- an index out of range
  index_error : ResolutionError

pub record Lane : Type 0 where
  pub lane_id : String
  pub lane_type : String
  pub demand_location_id : String
  pub supply_location_id : String
  pub channel_id : Option String
  pub effective_from : ℕ
  pub effective_to : Option ℕ
  pub priority_rank : ℤ

-- what `active_lanes` is asked for
pub record LaneQuery : Type 0 where
  pub demand_location_id : String
  pub channel_id : Option String
  pub on_date : ℕ
  pub lane_type : String

abbrev pub not_after : ℕ → Option ℕ → Bool
not_after on_date none = true
not_after on_date (some effective_to) = leb on_date effective_to

unfoldable pub is_active : LaneQuery → Lane → Bool
is_active q lane =
    (lane.lane_type == q.lane_type)
    && ((lane.demand_location_id == q.demand_location_id)
        && (not (ltb q.on_date lane.effective_from) && not_after q.on_date lane.effective_to))

unfoldable pub serves_channel : LaneQuery → Option String → Lane → Bool
serves_channel q channel_id lane = is_active q lane && (lane.channel_id == channel_id)

-- the lanes of exactly the demand's channel
unfoldable pub exact_lanes : LaneQuery → Option String → List Lane → List Lane
exact_lanes q none lanes = []
exact_lanes q (some channel) lanes = select (serves_channel q (some channel)) lanes

-- `xs or ys`
abbrev pub or_else {ℓ} : {A : Type ℓ} → List A → List A → List A
or_else [] ys = ys
or_else (x ∷ xs) ys = x ∷ xs

unfoldable pub candidate_lanes : LaneQuery → List Lane → List Lane
candidate_lanes q lanes =
    or_else (exact_lanes q q.channel_id lanes) (select (serves_channel q none) lanes)

abbrev pub is_empty {ℓ} : {A : Type ℓ} → List A → Bool
is_empty [] = true
is_empty (x ∷ xs) = false

-- `list(range(start, start + count))`
abbrev pub range_from : ℕ → ℕ → List ℤ
range_from start zero = []
range_from start (suc count) = pos start ∷ range_from (suc start) count

unfoldable pub equal_ranks : List ℤ → List ℤ → Bool
equal_ranks [] [] = true
equal_ranks (x ∷ xs) (y ∷ ys) = eqb_ℤ x y && equal_ranks xs ys
equal_ranks _ _ = false

-- `len(set(ranks)) != len(ranks)`
unfoldable pub has_repeats : List ℤ → Bool
has_repeats [] = false
has_repeats (a ∷ rest) = any (eqb_ℤ a) rest || has_repeats rest

abbrev pub rank_le : Lane → Lane → Bool
rank_le a b = leb_ℤ a.priority_rank b.priority_rank

unfoldable pub active_lanes : LaneQuery → List Lane → Result ResolutionError (List Lane)
active_lanes q lanes =
    let candidates = candidate_lanes q lanes in
    let ranks = sort_by leb_ℤ (map (λ (l : Lane). l.priority_rank) candidates) in
    do
      raise_if (is_empty candidates) no_active_service_lane
      raise_if (has_repeats ranks || not (equal_ranks ranks (range_from 1 (length ranks))))
          lane_ranks_invalid
      ok (sort_by rank_le candidates)

abbrev pub first {ℓ} : {A : Type ℓ} → List A → Result ResolutionError A
first [] = err index_error
first (x ∷ xs) = ok x

unfoldable pub resolve_lane : LaneQuery → List Lane → Result ResolutionError Lane
resolve_lane q lanes = do
  active ← active_lanes q lanes
  winner ← first active
  raise_if (winner.supply_location_id == q.demand_location_id) lane_self_loop
  ok winner

pub data ScopeType : Type 0 where
  sku dept category : ScopeType

pub record SupplyTerm : Type 0 where
  pub destination_location_id : String
  pub origin_kind : String
  pub origin_id : String
  pub merch_scope_type : String
  pub merch_scope_id : String
  pub effective_from : ℕ
  pub effective_to : Option ℕ

pub record TermQuery : Type 0 where
  pub destination_location_id : String
  pub origin_kind : String
  pub origin_id : String
  pub sku_id : String
  pub dept_id : String
  pub category_id : String
  pub on_date : ℕ

unfoldable pub scope_name : ScopeType → String
scope_name sku = "sku"
scope_name dept = "dept"
scope_name category = "category"

unfoldable pub scope_id : TermQuery → ScopeType → String
scope_id q sku = q.sku_id
scope_id q dept = q.dept_id
scope_id q category = q.category_id

unfoldable pub matches : TermQuery → ScopeType → SupplyTerm → Bool
matches q scope term =
    (term.destination_location_id == q.destination_location_id)
    && ((term.origin_kind == q.origin_kind)
        && ((term.origin_id == q.origin_id)
            && ((term.merch_scope_type == scope_name scope)
                && ((term.merch_scope_id == scope_id q scope)
                    && (not (ltb q.on_date term.effective_from)
                        && not_after q.on_date term.effective_to)))))

-- the latest start first
abbrev pub newest_le : SupplyTerm → SupplyTerm → Bool
newest_le a b = leb b.effective_from a.effective_from

-- The first of the sorted candidates, unless the second starts on the same day.
unfoldable pub head_unless_tied : List SupplyTerm → Result ResolutionError (Option SupplyTerm)
head_unless_tied [] = ok none
head_unless_tied (t ∷ []) = ok (some t)
head_unless_tied (t ∷ u ∷ rest) =
    if eqb t.effective_from u.effective_from then err supply_term_ambiguous else ok (some t)

-- `candidates.sort(...)` where there is more than one
unfoldable pub ordered_terms : List SupplyTerm → List SupplyTerm
ordered_terms [] = []
ordered_terms (t ∷ []) = t ∷ []
ordered_terms (t ∷ u ∷ more) = sort_by newest_le (t ∷ u ∷ more)

-- `if candidates: return candidates[0]`, before what comes next
abbrev pub found_or :
    Option SupplyTerm → Result ResolutionError SupplyTerm → Result ResolutionError SupplyTerm
found_or (some term) next = ok term
found_or none next = next

-- The rounds of the loop over the scopes, in their precedence.
unfoldable pub resolve_scopes :
    TermQuery → List SupplyTerm → List ScopeType → Result ResolutionError SupplyTerm
resolve_scopes q terms [] = err supply_term_absent
resolve_scopes q terms (scope ∷ scopes) = do
  found ← head_unless_tied (ordered_terms (select (matches q scope) terms))
  found_or found (resolve_scopes q terms scopes)

abbrev pub precedence : List ScopeType
precedence = sku ∷ dept ∷ category ∷ []

unfoldable pub resolve_supply_term : TermQuery → List SupplyTerm → Result ResolutionError SupplyTerm
resolve_supply_term q terms = do
  raise_if (q.origin_id == "") supply_term_origin_required
  resolve_scopes q terms precedence
