-- ===== src/Engines/Resolution/Lanes.antt =====
-- What `active_lanes` and `resolve_lane` answer.
use retail_intelligence.Engines.Resolution.Defs.{
  Lane, LaneQuery, is_active, serves_channel, exact_lanes, or_else, candidate_lanes, is_empty,
  range_from, equal_ranks, has_repeats, rank_le, active_lanes, first, resolve_lane,
  no_active_service_lane, lane_ranks_invalid, lane_self_loop,
}
use retail_intelligence.Base.Result.{◌>>=◌, ◌>>◌, raise_if, >>=-eq-ok, ok-injective, ok, not_raised}
use retail_intelligence.Base.Sort.{sort_by, sort_by-perm, All-sort_by, length-sort_by, map-sort_by}
use retail_intelligence.Base.Equality.{◌==◌, nat_eq, string_eq, pair_eq, option_beq_iff, option_eq}
use retail_intelligence.Base.Int.{ℤ, ◌≤ℤ◌, leb_ℤ, eqb_ℤ, eqb_ℤ_iff, int_laws, pos}
use retail_intelligence.Base.{
  ℕ, suc, ◌≤◌, String, ◌≡◌, refl, sym, ap, ◌∙◌, ◌≢◌, ◌⊎◌, inl, inr, Bool, true, false, not, ◌||◌,
  Option, none, some, List, [], ◌∷◌, map, arith, or-eq_false, and-eq_true, length, All, All-imp,
  select, length-map, select-All, select-eq_nil,
}
use mathlib.Core.List.{Perm}

equal_ranks→eq : (xs ys : List ℤ) → equal_ranks xs ys ≡ true → xs ≡ ys
unfolding equal_ranks
equal_ranks→eq [] [] h = refl
equal_ranks→eq [] (y ∷ ys) h = absurd (ground arith)
equal_ranks→eq (x ∷ xs) [] h = absurd (ground arith)
equal_ranks→eq (x ∷ xs) (y ∷ ys) h =
    let (here, rest) = and-eq_true (eqb_ℤ x y) (equal_ranks xs ys) h in
    let same : x ≡ y = (eqb_ℤ_iff x y).0 here in
    let later : xs ≡ ys = equal_ranks→eq xs ys rest in cc

-- The lane is active and of the asked channel, or of no channel where no active lane has that one.
abbrev pub IsServing : LaneQuery → List Lane → Lane → Type 0
IsServing q lanes l =
    (is_active q l ≡ true)
    × ((l.channel_id ≡ q.channel_id)
        ⊎ ((l.channel_id ≡ none)
            × All (λ (k : Lane). serves_channel q q.channel_id k ≡ false) lanes))

serves-split :
    (q : LaneQuery) (channel : Option String) (l : Lane)
    → serves_channel q channel l ≡ true
    → (is_active q l ≡ true) × (l.channel_id ≡ channel)
unfolding serves_channel
serves-split q channel l h =
    let (active, same) = and-eq_true (is_active q l) (l.channel_id == channel) h in
    (active, (option_beq_iff l.channel_id channel).0 same)

All-or_else {κ} :
    {A : Type 0} (P : A → Type κ) (xs ys : List A)
    → All P xs
    → (xs ≡ [] → All P ys)
    → All P (or_else xs ys)
All-or_else P [] ys h k = k refl
All-or_else P (x ∷ xs) ys h k = h

exact_lanes-serve :
    (q : LaneQuery) (channel : Option String) (lanes : List Lane)
    → All (λ (l : Lane). serves_channel q channel l ≡ true) (exact_lanes q channel lanes)
unfolding exact_lanes
exact_lanes-serve q none lanes = tt
exact_lanes-serve q (some channel) lanes = select-All (serves_channel q (some channel)) lanes

exact_lanes-eq_nil :
    (q : LaneQuery) (channel : Option String) (lanes : List Lane)
    → exact_lanes q channel lanes ≡ []
    → (channel ≡ none) ⊎ All (λ (k : Lane). serves_channel q channel k ≡ false) lanes
unfolding exact_lanes
exact_lanes-eq_nil q none lanes e = inl refl
exact_lanes-eq_nil q (some channel) lanes e =
    inr (select-eq_nil (serves_channel q (some channel)) lanes e)

candidate_lanes-IsServing :
    (q : LaneQuery) (lanes : List Lane) → All (IsServing q lanes) (candidate_lanes q lanes)
unfolding candidate_lanes
candidate_lanes-IsServing q lanes =
    let exact = exact_lanes q q.channel_id lanes in
    let default = select (serves_channel q none) lanes in
    All-or_else (IsServing q lanes) exact default
      (All-imp _ _ exact
        (λ l h. let (active, same) = serves-split q q.channel_id l h in (active, inl same))
        (exact_lanes-serve q q.channel_id lanes))
      λ nothing_exact.
        All-imp _ _ default
          (λ l h.
            let (active, same) = serves-split q none l h in
            elim (exact_lanes-eq_nil q q.channel_id lanes nothing_exact) [
              | inl asked_none ↦ (active, inl (same ∙ sym asked_none))
              | inr no_exact ↦ (active, inr (same, no_exact))
            ])
          (select-All (serves_channel q none) lanes)

not-eq_false : (b : Bool) → not b ≡ false → b ≡ true
not-eq_false true h = refl
not-eq_false false h = absurd (ground arith)

nonempty : (lanes : List Lane) → is_empty lanes ≡ false → 1 ≤ length lanes
nonempty [] h = absurd (ground arith)
nonempty (l ∷ lanes) h = omega arith

abbrev rank : Lane → ℤ
rank l = l.priority_rank

-- The lanes that `active_lanes` returns are the candidates, each once, and their ranks in order are
-- 1, 2, 3 and so on; each serves the demand.
pub active_lanes-IsRanked :
    (q : LaneQuery) (lanes : List Lane) {found : List Lane}
    → active_lanes q lanes ≡ ok found
    → Perm found (candidate_lanes q lanes)
      × (map (λ (l : Lane). l.priority_rank) found ≡ range_from 1 (length found))
      × (1 ≤ length found)
      × All (IsServing q lanes) found
unfolding active_lanes
active_lanes-IsRanked q lanes {found} e =
    let candidates = candidate_lanes q lanes in
    let ranks = sort_by leb_ℤ (map rank candidates) in
    let wanted = range_from 1 (length ranks) in
    let bad = has_repeats ranks || not (equal_ranks ranks wanted) in
    let (_, present, later) =
      >>=-eq-ok (raise_if (is_empty candidates) no_active_service_lane) _ e in
    let (_, sound, last) = >>=-eq-ok (raise_if bad lane_ranks_invalid) _ later in
    let fine = or-eq_false _ _ (not_raised bad lane_ranks_invalid sound) in
    let contiguous : ranks ≡ wanted = equal_ranks→eq ranks wanted (not-eq_false _ fine.1) in
    let sorted = sort_by rank_le candidates in
    let keys : map rank sorted ≡ ranks = map-sort_by leb_ℤ rank candidates in
    let count : length ranks ≡ length sorted = sym (ap length keys) ∙ length-map rank sorted in
    let counted : map rank sorted ≡ range_from 1 (length sorted) =
      keys ∙ contiguous ∙ ap (range_from 1) count in
    rw (← ok-injective last) (
      sort_by-perm rank_le candidates,
      counted,
      rw (length-sort_by rank_le candidates)
          (nonempty candidates (not_raised (is_empty candidates) no_active_service_lane present)),
      All-sort_by rank_le (IsServing q lanes) candidates (candidate_lanes-IsServing q lanes),
    )

tail_ranks :
    (rest : List Lane) (start : ℕ)
    → map rank rest ≡ range_from start (length rest)
    → All (λ (l : Lane). pos start ≤ℤ l.priority_rank) rest
tail_ranks [] start e = tt
tail_ranks (l ∷ rest) start e =
    let here : rank l ≡ pos start = cc in
    let later : map rank rest ≡ range_from (suc start) (length rest) = cc in
    (omega int_laws, All-imp _ _ rest (λ k h. omega int_laws) (tail_ranks rest (suc start) later))

-- The lane that `resolve_lane` returns serves the demand and has rank 1, every other candidate has a
-- greater rank, and its supply location is not the demand's own.
pub resolve_lane-IsFirst :
    (q : LaneQuery) (lanes : List Lane) {winner : Lane}
    → resolve_lane q lanes ≡ ok winner
    → IsServing q lanes winner
      × (winner.priority_rank ≡ pos 1)
      × (winner.supply_location_id ≢ q.demand_location_id)
      × (rest : List Lane) × Perm (winner ∷ rest) (candidate_lanes q lanes)
      × All (λ (l : Lane). pos 2 ≤ℤ l.priority_rank) rest
unfolding resolve_lane
resolve_lane-IsFirst q lanes {winner} e =
    let (found, active, later) = >>=-eq-ok (active_lanes q lanes) _ e in
    pick found (active_lanes-IsRanked q lanes active) later
  where
    pick :
        (found : List Lane)
        → Perm found (candidate_lanes q lanes)
          × (map rank found ≡ range_from 1 (length found))
          × (1 ≤ length found)
          × All (IsServing q lanes) found
        → (first found >>= λ w.
            raise_if (w.supply_location_id == q.demand_location_id) lane_self_loop >> ok w)
          ≡ ok winner
        → IsServing q lanes winner
          × (winner.priority_rank ≡ pos 1)
          × (winner.supply_location_id ≢ q.demand_location_id)
          × (rest : List Lane) × Perm (winner ∷ rest) (candidate_lanes q lanes)
          × All (λ (l : Lane). pos 2 ≤ℤ l.priority_rank) rest
    pick [] h e = absurd (ground arith)
    pick (w ∷ rest) (perm, ranks, _, serving) e =
        let test = w.supply_location_id == q.demand_location_id in
        let (_, passes, last) = >>=-eq-ok (raise_if test lane_self_loop) _ e in
        let other = not_raised test lane_self_loop passes in
        let one : rank w ≡ pos 1 = cc in
        let later : map rank rest ≡ range_from 2 (length rest) = cc in
        rw (← ok-injective last) (
          serving.0,
          one,
          λ same.
              ground
                (arith, (string_eq.is_eq_iff w.supply_location_id q.demand_location_id).1 same),
          rest,
          perm,
          tail_ranks rest 2 later,
        )
