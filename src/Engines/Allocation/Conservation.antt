-- ===== src/Engines/Allocation/Conservation.antt =====
-- `allocate_channels` as a whole: on well-formed input it returns a plan, and its own checks on
-- the way out never fire.

use retail_intelligence.Base.Sort.{All-sort_by, AllPairs, AllPairs-sort_by}
use retail_intelligence.Base.Equality.{nat_eq, string_eq, pair_eq, option_eq}
use retail_intelligence.Base.{
  ℕ, suc, ◌+◌, ◌≡◌, refl, ap, true, false, List, [], ◌∷◌, map, get_at, All, arith, enumerate,
  any-eq_false, replicate, length, get_at-replicate, Bool-cases, zero, inl, inr, if◌then◌else◌,
}
use retail_intelligence.Base.Int.{
  ℤ, pos, ◌+ℤ◌, ◌≤ℤ◌, ltb_ℤ, sum_ℤ, int_laws, eqb_ℤ_iff, le→ltb_ℤ_false,
}
use retail_intelligence.Base.Indexed.{
  AtIndex, enumerate-AtIndex, OtherIndex, OtherIndex-symm, enumerate-distinct,
}
use retail_intelligence.Base.Result.{ok}
use retail_intelligence.Decimal.{Decimal}
use retail_intelligence.Engines.Allocation.Defs.{
  ChannelDemand, ChannelAllocation, AllocationPlan, Pool, floor_units, exceeds, report_row, settle,
  spend, allocate_channels, by_priority, grant_floors, has_duplicate, row_key, priority_le,
}
use retail_intelligence.Engines.Allocation.Bounds.{
  InRange, Fits, Fits-get_at, IsSound, HasFairFloor, IsUntouched, grant_floors-IsSound,
  top_up_all-IsSound,
}

-- What `allocate_channels` asks of a row: a request that is not negative and, where a minimum
-- share is given, a floor between zero and the request.
abbrev pub IsWellFormed : Decimal → ChannelDemand → Type 0
IsWellFormed share d =
    (pos 0 ≤ℤ d.requested_units)
    × (ltb_ℤ (pos 0) share.coefficient ≡ true → InRange d (floor_units share d))

abbrev pub allocated_total : AllocationPlan → ℤ
allocated_total plan = sum_ℤ (map (λ (r : ChannelAllocation). r.allocated_units) plan.allocations)

abbrev pub IsReported : ChannelAllocation → Type 0
IsReported r =
    InRange r.demand r.allocated_units
    × (r.allocated_units +ℤ r.shortfall_units ≡ r.demand.requested_units)

pub record IsPlan (node : ℤ) (ds : List ChannelDemand) (plan : AllocationPlan) : Type 0 where
  pub pool : plan.pool_units ≡ node
  pub conserved : allocated_total plan +ℤ plan.residual_units ≡ node
  pub residual_nonneg : pos 0 ≤ℤ plan.residual_units
  pub rows : map (λ (r : ChannelAllocation). r.demand) plan.allocations ≡ ds
  pub reported : All IsReported plan.allocations

-- the rows of the report, for the tail of the demands from index `k` on
module _ (whole : List ℤ) where
  abbrev rows_from : ℕ → List ChannelDemand → List ChannelAllocation
  rows_from k ds = map (report_row whole) (enumerate k ds)

  abbrev IsTailFrom : ℕ → List ℤ → Type 0
  IsTailFrom k al = (i : ℕ) → get_at whole (k + i) (pos 0) ≡ get_at al i (pos 0)

  IsTailFrom-suc : (k : ℕ) (a : ℤ) (al : List ℤ) → IsTailFrom k (a ∷ al) → IsTailFrom (suc k) al
  IsTailFrom-suc k a al h i = let same : suc k + i ≡ k + suc i = omega arith in rw same (h (suc i))

  head_value : (k : ℕ) (a : ℤ) (al : List ℤ) → IsTailFrom k (a ∷ al) → get_at whole k (pos 0) ≡ a
  head_value k a al h = let same : k + 0 ≡ k = omega arith in rw same at (h 0)

  sum-rows_from :
      (k : ℕ) (ds : List ChannelDemand) (al : List ℤ)
      → IsTailFrom k al
      → Fits ds al
      → sum_ℤ (map (λ (r : ChannelAllocation). r.allocated_units) (rows_from k ds)) ≡ sum_ℤ al
  unfolding report_row
  sum-rows_from k [] [] h f = refl
  sum-rows_from k [] (a ∷ al) h f = elim f [ ]
  sum-rows_from k (d ∷ ds) [] h f = elim f [ ]
  sum-rows_from k (d ∷ ds) (a ∷ al) h f =
      let ih = sum-rows_from (suc k) ds al (IsTailFrom-suc k a al h) f.1 in
      rw (head_value k a al h) (rw ih)

  demand-rows_from :
      (k : ℕ) (ds : List ChannelDemand)
      → map (λ (r : ChannelAllocation). r.demand) (rows_from k ds) ≡ ds
  unfolding report_row
  demand-rows_from k [] = refl
  demand-rows_from k (d ∷ ds) = ap (◌∷◌ d) (demand-rows_from (suc k) ds)

  rows_from-IsReported :
      (k : ℕ) (ds : List ChannelDemand) (al : List ℤ)
      → IsTailFrom k al
      → Fits ds al
      → All IsReported (rows_from k ds)
  unfolding report_row
  rows_from-IsReported k [] [] h f = tt
  rows_from-IsReported k [] (a ∷ al) h f = elim f [ ]
  rows_from-IsReported k (d ∷ ds) [] h f = elim f [ ]
  rows_from-IsReported k (d ∷ ds) (a ∷ al) h f =
      let range = f.0 in
      (
        rw (head_value k a al h) (f.0, omega int_laws),
        rows_from-IsReported (suc k) ds al (IsTailFrom-suc k a al h) f.1,
      )

not-exceeds :
    (ds : List ChannelDemand) (al : List ℤ) (rows : List (ℕ × ChannelDemand))
    → Fits ds al
    → All (AtIndex ds) rows
    → All (λ p. exceeds al p ≡ false) rows
not-exceeds ds al [] f at = tt
not-exceeds ds al ((i, d) ∷ rows) f at = (
  le→ltb_ℤ_false d.requested_units (get_at al i (pos 0)) (Fits-get_at ds al i at.0 f).1,
  not-exceeds ds al rows f at.1,
)

-- Both checks pass on a sound pool.
pub settle-IsPlan :
    (node : ℤ) (ds : List ChannelDemand) (p : Pool)
    → IsSound ds node p
    → (plan : AllocationPlan) × (settle node ds p ≡ ok plan) × IsPlan node ds plan
unfolding settle
settle-IsPlan node ds (al, rem) s =
    let same = (eqb_ℤ_iff (sum_ℤ al +ℤ rem) node).1 s.conserved in
    let within =
      any-eq_false (exceeds al) (enumerate 0 ds)
        (not-exceeds ds al (enumerate 0 ds) s.fits (enumerate-AtIndex ds)) in
    let tail : IsTailFrom al 0 al = λ i. let same : 0 + i ≡ i = omega arith in rw same refl in
    (
      record { allocations = rows_from al 0 ds; residual_units = rem; pool_units = node },
      rw (same, within),
      record {
        pool = refl;
        conserved = rw (sum-rows_from al 0 ds al tail s.fits) s.conserved;
        residual_nonneg = s.left;
        rows = demand-rows_from al 0 ds;
        reported = rows_from-IsReported al 0 ds al tail s.fits;
      },
    )

Fits-zeros :
    (share : Decimal) (ds : List ChannelDemand)
    → All (IsWellFormed share) ds
    → Fits ds (replicate (length ds) (pos 0))
Fits-zeros share [] h = tt
Fits-zeros share (d ∷ ds) h = ((omega arith, h.0.0), Fits-zeros share ds h.1)

pub sum-zeros : (n : ℕ) → sum_ℤ (replicate n (pos 0)) ≡ pos 0
sum-zeros zero = refl
sum-zeros (suc n) = let ih = sum-zeros n in omega int_laws

pub zeros-IsUntouched :
    (n : ℕ) (rows : List (ℕ × ChannelDemand)) → All (IsUntouched (replicate n (pos 0))) rows
zeros-IsUntouched n [] = tt
zeros-IsUntouched n (p ∷ rows) = (get_at-replicate n p.0 (pos 0), zeros-IsUntouched n rows)

fair_floors :
    (share : Decimal) (ds : List ChannelDemand) (k : ℕ)
    → ltb_ℤ (pos 0) share.coefficient ≡ true
    → All (IsWellFormed share) ds
    → All (HasFairFloor share) (enumerate k ds)
fair_floors share [] k on h = tt
fair_floors share (d ∷ ds) k on h = (h.0.1 on, fair_floors share ds (suc k) on h.1)

pub by_priority-AtIndex : (ds : List ChannelDemand) → All (AtIndex ds) (by_priority ds)
unfolding by_priority
by_priority-AtIndex ds =
    All-sort_by priority_le (AtIndex ds) (enumerate 0 ds) (enumerate-AtIndex ds)

pub by_priority-distinct : (ds : List ChannelDemand) → AllPairs OtherIndex (by_priority ds)
unfolding by_priority
by_priority-distinct ds =
    AllPairs-sort_by priority_le OtherIndex OtherIndex-symm (enumerate 0 ds)
      (enumerate-distinct ds 0)

-- the pool before the loops
abbrev pub full_pool : ℤ → List ChannelDemand → Pool
full_pool node ds = (replicate (length ds) (pos 0), node)

-- the pool when the second loop begins
abbrev pub floor_pool : Decimal → List ChannelDemand → ℤ → Pool
floor_pool share ds node =
    if ltb_ℤ (pos 0) share.coefficient
    then grant_floors share (by_priority ds) (full_pool node ds)
    else full_pool node ds

module _ (node : ℤ) (ds : List ChannelDemand) (share : Decimal) (nonneg : pos 0 ≤ℤ node)
    (formed : All (IsWellFormed share) ds) where
  full_pool-IsSound : IsSound ds node (full_pool node ds)
  full_pool-IsSound = record {
    fits = Fits-zeros share ds formed;
    conserved = let none_granted = sum-zeros (length ds) in omega int_laws;
    left = nonneg;
  }

  pub floors-IsSound :
      ltb_ℤ (pos 0) share.coefficient ≡ true
      → IsSound ds node (grant_floors share (by_priority ds) (full_pool node ds))
  unfolding by_priority
  floors-IsSound on =
      grant_floors-IsSound ds node share (by_priority ds) (full_pool node ds)
        (by_priority-AtIndex ds) (by_priority-distinct ds)
        (All-sort_by priority_le (HasFairFloor share) (enumerate 0 ds)
          (fair_floors share ds 0 on formed))
        (zeros-IsUntouched (length ds) (by_priority ds)) full_pool-IsSound

  pub floor_pool-IsSound : IsSound ds node (floor_pool share ds node)
  floor_pool-IsSound = elim (Bool-cases (ltb_ℤ (pos 0) share.coefficient)) [
    | inl on ↦ rw on (floors-IsSound on)
    | inr off ↦ rw off full_pool-IsSound
  ]

  pub spend-IsSound : IsSound ds node (spend share (by_priority ds) (full_pool node ds))
  unfolding spend
  spend-IsSound =
      top_up_all-IsSound ds node (by_priority ds) (floor_pool share ds node)
        (by_priority-AtIndex ds) floor_pool-IsSound

-- For a pool that is not negative and distinct rows, each with a request that is not negative and,
-- where the minimum share is positive, a floor between zero and its request, `allocate_channels`
-- returns a plan: the rows of the input in its order, each allocated between zero and its request
-- with the shortfall that is left of it, a residual that is not negative, and allocations and
-- residual that add up to the pool. Neither of its conservation checks fires.
pub allocate_channels-IsPlan :
    (node : ℤ) (ds : List ChannelDemand) (share : Decimal)
    → pos 0 ≤ℤ node
    → has_duplicate (map row_key ds) ≡ false
    → All (IsWellFormed share) ds
    → (plan : AllocationPlan) × (allocate_channels node ds share ≡ ok plan) × IsPlan node ds plan
unfolding allocate_channels
allocate_channels-IsPlan node ds share nonneg distinct formed =
    rw (le→ltb_ℤ_false node (pos 0) nonneg, distinct)
      (settle-IsPlan node ds (spend share (by_priority ds) (full_pool node ds))
        (spend-IsSound node ds share nonneg formed))
