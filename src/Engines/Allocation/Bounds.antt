-- ===== src/Engines/Allocation/Bounds.antt =====
-- The invariant of the two loops of `allocate_channels`: every row between zero and its request,
-- and what is granted and what is left make up the pool.
use retail_intelligence.Base.{
  ℕ, zero, suc, ◌<◌, ◌≡◌, refl, some, List, [], ◌∷◌, length, get_elem?, get_at, set, All,
  get_at-set_ne, arith, Bool-cases, inl, inr, ap,
}
use retail_intelligence.Base.Int.{
  ℤ, pos, ◌+ℤ◌, ◌-ℤ◌, ◌≤ℤ◌, ltb_ℤ, min_ℤ, sum_ℤ, int_laws, min_ℤ_bounds, le-min_ℤ, ltb_ℤ→lt,
}
use retail_intelligence.Base.Sort.{AllPairs}
use retail_intelligence.Base.Indexed.{AtIndex, OtherIndex, sum_ℤ-set, AtIndex-lt}
use retail_intelligence.Decimal.{Decimal}
use retail_intelligence.Engines.Allocation.Defs.{
  ChannelDemand, Pool, floor_units, grant_floors, top_up, top_up_all,
}

abbrev pub InRange : ChannelDemand → ℤ → Type 0
InRange d v = (pos 0 ≤ℤ v) × (v ≤ℤ d.requested_units)

abbrev pub Fits : List ChannelDemand → List ℤ → Type 0
Fits [] [] = Unit
Fits [] (a ∷ al) = ⊥
Fits (d ∷ ds) [] = ⊥
Fits (d ∷ ds) (a ∷ al) = InRange d a × Fits ds al

pub Fits-set :
    (ds : List ChannelDemand) (al : List ℤ) (i : ℕ) (v : ℤ) {d : ChannelDemand}
    → get_elem? ds i ≡ some d
    → InRange d v
    → Fits ds al
    → Fits ds (set al i v)
Fits-set [] al i v e r f = absurd (ground arith)
Fits-set (d ∷ ds) [] i v e r f = elim f [ ]
Fits-set (d ∷ ds) (a ∷ al) zero v e r f = (ground arith, f.1)
Fits-set (d ∷ ds) (a ∷ al) (suc i) v e r f = (f.0, Fits-set ds al i v e r f.1)

pub Fits-get_at :
    (ds : List ChannelDemand) (al : List ℤ) (i : ℕ) {d : ChannelDemand}
    → get_elem? ds i ≡ some d
    → Fits ds al
    → InRange d (get_at al i (pos 0))
Fits-get_at [] al i e f = absurd (ground arith)
Fits-get_at (d ∷ ds) [] i e f = elim f [ ]
Fits-get_at (d ∷ ds) (a ∷ al) zero e f = ground arith
Fits-get_at (d ∷ ds) (a ∷ al) (suc i) e f = Fits-get_at ds al i e f.1

pub Fits-length : (ds : List ChannelDemand) (al : List ℤ) → Fits ds al → length al ≡ length ds
Fits-length [] [] f = refl
Fits-length [] (a ∷ al) f = elim f [ ]
Fits-length (d ∷ ds) [] f = elim f [ ]
Fits-length (d ∷ ds) (a ∷ al) f = ap suc (Fits-length ds al f.1)

pub record IsSound (ds : List ChannelDemand) (node : ℤ) (p : Pool) : Type 0 where
  pub fits : Fits ds p.0
  pub conserved : sum_ℤ p.0 +ℤ p.1 ≡ node
  pub left : pos 0 ≤ℤ p.1

-- One write of a value in range, paid for from what is left, keeps the invariant.
module _ (ds : List ChannelDemand) (node : ℤ) (i : ℕ) (d : ChannelDemand)
    (at : get_elem? ds i ≡ some d) where
  pub pay-IsSound :
      (al : List ℤ) (rem v paid : ℤ)
      → IsSound ds node (al, rem)
      → InRange d v
      → paid ≤ℤ rem
      → v ≡ get_at al i (pos 0) +ℤ paid
      → IsSound ds node (set al i v, rem -ℤ paid)
  pay-IsSound al rem v paid s r le e =
      let inside : i < length al = omega (arith, AtIndex-lt ds i at, Fits-length ds al s.fits) in
      let change = sum_ℤ-set al i v inside in
      let former = s.conserved in
      record {
        fits = Fits-set ds al i v at r s.fits;
        conserved = omega int_laws;
        left = omega int_laws;
      }

  pub top_up-IsSound : (p : Pool) → IsSound ds node p → IsSound ds node (top_up i d p)
  unfolding top_up
  top_up-IsSound (al, rem) s =
      let had : ℤ = get_at al i (pos 0) in
      let units : ℤ = min_ℤ (d.requested_units -ℤ had) rem in
      let range = Fits-get_at ds al i at s.fits in
      let caps = min_ℤ_bounds (d.requested_units -ℤ had) rem in
      elim (Bool-cases (ltb_ℤ (pos 0) units)) [
        | inl more ↦
            let some_units = ltb_ℤ→lt (pos 0) units more in
            rw more (
              pay-IsSound al rem (had +ℤ units) units s (omega int_laws, omega int_laws) caps.1
                refl)
        | inr none_left ↦ rw none_left s
      ]

-- Every row of the ordered list is a row of the input.
pub top_up_all-IsSound :
    (ds : List ChannelDemand) (node : ℤ) (ordered : List (ℕ × ChannelDemand)) (p : Pool)
    → All (AtIndex ds) ordered
    → IsSound ds node p
    → IsSound ds node (top_up_all ordered p)
unfolding top_up_all
top_up_all-IsSound ds node [] p at s = s
top_up_all-IsSound ds node ((i, d) ∷ rest) p at s =
    top_up_all-IsSound ds node rest (top_up i d p) at.1 (top_up-IsSound ds node i d at.0 p s)

-- The floor of a row lies between zero and its request.
abbrev pub HasFairFloor : Decimal → ℕ × ChannelDemand → Type 0
HasFairFloor share (_, d) = InRange d (floor_units share d)

abbrev pub IsUntouched : List ℤ → ℕ × ChannelDemand → Type 0
IsUntouched al p = get_at al p.0 (pos 0) ≡ pos 0

IsUntouched-set :
    (al : List ℤ) (i : ℕ) (v : ℤ) (d : ChannelDemand) (rest : List (ℕ × ChannelDemand))
    → All (OtherIndex (i, d)) rest
    → All (IsUntouched al) rest
    → All (IsUntouched (set al i v)) rest
IsUntouched-set al i v d [] other h = tt
IsUntouched-set al i v d (p ∷ rest) other h =
    (rw (get_at-set_ne al i p.0 v (pos 0) other.0) h.0, IsUntouched-set al i v d rest other.1 h.1)

pub grant_floors-IsSound :
    (ds : List ChannelDemand) (node : ℤ) (share : Decimal) (ordered : List (ℕ × ChannelDemand))
    (p : Pool)
    → All (AtIndex ds) ordered
    → AllPairs OtherIndex ordered
    → All (HasFairFloor share) ordered
    → All (IsUntouched p.0) ordered
    → IsSound ds node p
    → IsSound ds node (grant_floors share ordered p)
unfolding grant_floors
grant_floors-IsSound ds node share [] p at other fair zeros s = s
grant_floors-IsSound ds node share ((i, d) ∷ rest) (al, rem) at other fair zeros s =
    let granted : ℤ = min_ℤ (floor_units share d) rem in
    let caps = min_ℤ_bounds (floor_units share d) rem in
    let above = le-min_ℤ (floor_units share d) rem (pos 0) fair.0.0 s.left in
    let cap = fair.0.1 in
    let untouched = zeros.0 in
    let pool' : Pool = (set al i granted, rem -ℤ granted) in
    grant_floors-IsSound ds node share rest pool' at.1 other.1 fair.1
      (IsUntouched-set al i granted d rest other.0 zeros.1)
      (pay-IsSound ds node i d at.0 al rem granted granted s (above, omega int_laws) caps.1
        (omega int_laws))
