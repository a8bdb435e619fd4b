-- ===== src/Engines/Allocation/Priority.antt =====
-- The order in which `allocate_channels` spends the pool: no row is topped up before every row of
-- higher priority has all that it asked for.
use retail_intelligence.Decimal.{Decimal}
use retail_intelligence.Engines.Allocation.Conservation.{
  IsWellFormed, by_priority-AtIndex, by_priority-distinct, full_pool, floor_pool,
  floor_pool-IsSound,
}
use retail_intelligence.Engines.Allocation.Bounds.{
  Fits-get_at, Fits-length, IsSound, top_up-IsSound,
}
use retail_intelligence.Engines.Allocation.Order.{
  Precedes, NotAfter, Precedes-strict, by_priority-order,
}
use retail_intelligence.Engines.Allocation.Defs.{
  ChannelDemand, priority_le, Pool, top_up, top_up_all, spend, by_priority,
}
use retail_intelligence.Base.Indexed.{AtIndex, OtherIndex, AtIndex-lt, AllPairs-enumerate_at}
use retail_intelligence.Base.Sort.{AllPairs, AllPairs-imp, AllPairs-of_sort_by, AllPairs-both}
use retail_intelligence.Base.Equality.{nat_eq, string_eq, pair_eq, option_eq}
use retail_intelligence.Base.Int.{
  ℤ, ◌+ℤ◌, ◌-ℤ◌, ◌≤ℤ◌, ltb_ℤ, min_ℤ, le_of_not-ltb_ℤ, le→ltb_ℤ_false, min_ℤ_cases, min_ℤ_bounds,
  int_laws, pos,
}
use retail_intelligence.Base.{
  ℕ, ◌<◌, ◌≡◌, refl, sym, ◌∙◌, ◌⊎◌, inl, inr, some, List, [], ◌∷◌, arith, Bool-cases, length,
  get_elem?, All, all, get_at, enumerate, get_at-set_self, get_at-set_ne,
}
use mathlib.Core.Path.{subst}

-- A row that is all served, in the pool that the loops leave.
abbrev pub IsServed : Pool → ℕ × ChannelDemand → Type 0
IsServed p (i, d) = get_at p.0 i (pos 0) ≡ d.requested_units

-- Nothing is left, nothing changes.
top_up_all-spent :
    (rows : List (ℕ × ChannelDemand)) (p : Pool) → p.1 ≤ℤ pos 0 → top_up_all rows p ≡ p
unfolding top_up_all top_up
top_up_all-spent [] p h = refl
top_up_all-spent ((i, d) ∷ rows) (al, rem) h =
    let had : ℤ = get_at al i (pos 0) in
    let caps = min_ℤ_bounds (d.requested_units -ℤ had) rem in
    let stop = le→ltb_ℤ_false (pos 0) (min_ℤ (d.requested_units -ℤ had) rem) (omega int_laws) in
    rw stop (top_up_all-spent rows (al, rem) h)

-- A round changes no other row, and after it the row is served or nothing is left.
top_up-other :
    (j i : ℕ) (c : ChannelDemand) (p : Pool)
    → ¬ (j ≡ i)
    → get_at (top_up j c p).0 i (pos 0) ≡ get_at p.0 i (pos 0)
unfolding top_up
top_up-other j i c (al, rem) h =
    let had : ℤ = get_at al j (pos 0) in
    let units : ℤ = min_ℤ (c.requested_units -ℤ had) rem in
    elim (Bool-cases (ltb_ℤ (pos 0) units)) [
      | inl more ↦ rw more (get_at-set_ne al j i (had +ℤ units) (pos 0) h)
      | inr stop ↦ rw stop refl
    ]

top_up_all-other :
    (rows : List (ℕ × ChannelDemand)) (i : ℕ) (d : ChannelDemand) (p : Pool)
    → All (OtherIndex (i, d)) rows
    → get_at (top_up_all rows p).0 i (pos 0) ≡ get_at p.0 i (pos 0)
unfolding top_up_all
top_up_all-other [] i d p other = refl
top_up_all-other ((j, c) ∷ rows) i d p other =
    top_up_all-other rows i d (top_up j c p) other.1 ∙ top_up-other j i c p (λ e. other.0 (sym e))

module _ (ds : List ChannelDemand) (node : ℤ) (i : ℕ) (d : ChannelDemand)
    (at : get_elem? ds i ≡ some d) where
  top_up-outcome :
      (p : Pool) → IsSound ds node p → IsServed (top_up i d p) (i, d) ⊎ ((top_up i d p).1 ≤ℤ pos 0)
  unfolding top_up
  top_up-outcome (al, rem) s =
      let had : ℤ = get_at al i (pos 0) in
      let units : ℤ = min_ℤ (d.requested_units -ℤ had) rem in
      let range = Fits-get_at ds al i at s.fits in
      let inside : i < length al = omega (arith, AtIndex-lt ds i at, Fits-length ds al s.fits) in
      elim (Bool-cases (ltb_ℤ (pos 0) units)) [
        | inl more ↦ elim (min_ℤ_cases (d.requested_units -ℤ had) rem) [
          | inl all ↦
              rw more (inl (get_at-set_self al i (had +ℤ units) (pos 0) inside ∙ omega int_laws))
          | inr rest ↦ rw more (inr (omega int_laws))
        ]
        | inr stop ↦
            let none_given = le_of_not-ltb_ℤ (pos 0) units stop in
            elim (min_ℤ_cases (d.requested_units -ℤ had) rem) [
              | inl all ↦ rw stop (inl (omega int_laws))
              | inr rest ↦ rw stop (inr (omega int_laws))
            ]
      ]

-- In the pool that the loop leaves, either the first row of a pair is served or the second one
-- holds what it held before the loop.
abbrev pub Outranks : Pool → Pool → ℕ × ChannelDemand → ℕ × ChannelDemand → Type 0
Outranks before after p q =
    IsServed after p ⊎ (get_at after.0 q.0 (pos 0) ≡ get_at before.0 q.0 (pos 0))

-- what the rows after the first one hold when their turn comes
kept_by_first :
    (i : ℕ) (d : ChannelDemand) (p : Pool) (rest : List (ℕ × ChannelDemand))
    → All (OtherIndex (i, d)) rest
    → All
        (λ (q : ℕ × ChannelDemand). get_at (top_up i d p).0 q.0 (pos 0) ≡ get_at p.0 q.0 (pos 0))
        rest
kept_by_first i d p [] other = tt
kept_by_first i d p (q ∷ rest) other =
    (top_up-other i q.0 d p other.0, kept_by_first i d p rest other.1)

Outranks-first :
    (i : ℕ) (d : ChannelDemand) (p final : Pool) (rest : List (ℕ × ChannelDemand))
    → All (OtherIndex (i, d)) rest
    → IsServed final (i, d) ⊎ (final ≡ top_up i d p)
    → All (Outranks p final (i, d)) rest
Outranks-first i d p final [] other h = tt
Outranks-first i d p final (q ∷ rest) other (inl served) =
    (inl served, Outranks-first i d p final rest other.1 (inl served))
Outranks-first i d p final (q ∷ rest) other (inr same) = (
  inr (rw same (top_up-other i q.0 d p other.0)),
  Outranks-first i d p final rest other.1 (inr same),
)

pub top_up_all-Outranks :
    (ds : List ChannelDemand) (node : ℤ) (rows : List (ℕ × ChannelDemand)) (p : Pool)
    → All (AtIndex ds) rows
    → AllPairs OtherIndex rows
    → IsSound ds node p
    → AllPairs (Outranks p (top_up_all rows p)) rows
unfolding top_up_all
top_up_all-Outranks ds node [] p at other s = tt
top_up_all-Outranks ds node ((i, d) ∷ rest) p at other s =
    let p' : Pool = top_up i d p in
    let s' = top_up-IsSound ds node i d at.0 p s in
    let final : Pool = top_up_all rest p' in
    let first : IsServed final (i, d) ⊎ (final ≡ p') = elim (top_up-outcome ds node i d at.0 p s) [
      | inl served ↦ inl (top_up_all-other rest i d p' other.0 ∙ served)
      | inr spent ↦ inr (top_up_all-spent rest p' spent)
    ] in
    (
      Outranks-first i d p final rest other.0 first,
      AllPairs-imp _ (Outranks p' final) (Outranks p final) rest
          (λ x y kept. elim [ inl served ↦ inl served | inr held ↦ inr (held ∙ kept) ])
          (kept_by_first i d p rest other.0) (top_up_all-Outranks ds node rest p' at.1 other.1 s'),
    )

-- What `by_priority` says of two rows, whichever comes first in the list.
record Yields (before after : Pool) (p q : ℕ × ChannelDemand) : Type 0 where
  forth : Precedes p.1 q.1 → Outranks before after p q
  back : Precedes q.1 p.1 → Outranks before after q p

Yields-symm :
    (before after : Pool) (p q : ℕ × ChannelDemand)
    → Yields before after p q
    → Yields before after q p
Yields-symm before after p q h = record { forth = h.back; back = h.forth }

Outranks-Yields :
    (before after : Pool) (p q : ℕ × ChannelDemand)
    → Outranks before after p q
    → NotAfter p.1 q.1
    → Yields before after p q
Outranks-Yields before after p q h order = record {
  forth = λ _. h;
  back = λ first. absurd (Precedes-strict q.1 p.1 first order);
}

spend-Yields :
    (node : ℤ) (ds : List ChannelDemand) (share : Decimal)
    → pos 0 ≤ℤ node
    → All (IsWellFormed share) ds
    → AllPairs
        (Yields (floor_pool share ds node) (spend share (by_priority ds) (full_pool node ds)))
        (enumerate 0 ds)
unfolding spend by_priority
spend-Yields node ds share nonneg formed =
    let before = floor_pool share ds node in
    let after = spend share (by_priority ds) (full_pool node ds) in
    let served =
      top_up_all-Outranks ds node (by_priority ds) before (by_priority-AtIndex ds)
        (by_priority-distinct ds) (floor_pool-IsSound node ds share nonneg formed) in
    AllPairs-of_sort_by priority_le (Yields before after) (Yields-symm before after)
      (enumerate 0 ds)
      (AllPairs-both (Outranks before after) (λ p q. NotAfter p.1 q.1) (Yields before after)
        (by_priority ds) (Outranks-Yields before after) served (by_priority-order ds))

-- For a pool that is not negative and well-formed rows: where one row is of a better service class
-- than another, or of the same class and a higher value weight, either it has all that it asked for
-- when the loops end, or the other one still holds just what the minimum shares gave it.
pub spend-Outranks :
    (node : ℤ) (ds : List ChannelDemand) (share : Decimal) (i j : ℕ) {d c : ChannelDemand}
    → pos 0 ≤ℤ node
    → All (IsWellFormed share) ds
    → get_elem? ds i ≡ some d
    → get_elem? ds j ≡ some c
    → Precedes d c
    → Outranks
        (floor_pool share ds node)
        (spend share (by_priority ds) (full_pool node ds))
        (i, d)
        (j, c)
spend-Outranks node ds share i j {d} {c} nonneg formed at_i at_j first =
    let before = floor_pool share ds node in
    let after = spend share (by_priority ds) (full_pool node ds) in
    let other : ¬ (i ≡ j) = λ e.
      let at : get_elem? ds j ≡ some d = rw e at at_i in
      let same : d ≡ c = cc in
      Precedes-strict d d (subst (λ x. Precedes d x) (sym same) first) (inr (refl, omega arith)) in
    (AllPairs-enumerate_at (Yields before after) ds 0 i j i j (Yields-symm before after) other
        (omega arith) (omega arith) at_i at_j (spend-Yields node ds share nonneg formed)).forth
      first
