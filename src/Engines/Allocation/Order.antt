-- ===== src/Engines/Allocation/Order.antt =====
-- The order in which `allocate_channels` of ml/src/retail_ml/engines/optimizers.py takes its rows.
use retail_intelligence.Engines.Allocation.Defs.{ChannelDemand, priority_le, by_priority}
use retail_intelligence.Base.Sort.{cmp_ℤ, AllPairs, AllPairs-sort_by_order}
use retail_intelligence.Base.Equality.{nat_eq, string_eq, pair_eq, option_eq}
use retail_intelligence.Base.Int.{ℤ, pos_part, neg_part, ◌≤ℤ◌, ◌<ℤ◌, neg, eq_of_parts, int_laws}
use retail_intelligence.Base.{
  ℕ, ◌+◌, ◌≡◌, refl, sym, ◌∙◌, ◌⊎◌, inl, inr, true, false, List, arith, enumerate,
}
use Prim.Native.Nat.{Ordering}
use native.Mathlib.Omega.{compare-lt, compare-eq, compare-gt}

-- A row of a better service class, or of the same class and a higher value.
abbrev pub Precedes : ChannelDemand → ChannelDemand → Type 0
Precedes d c =
    (d.service_class_rank <ℤ c.service_class_rank)
    ⊎ ((d.service_class_rank ≡ c.service_class_rank)
        × (c.value_weight_minor <ℤ d.value_weight_minor))

abbrev pub NotAfter : ChannelDemand → ChannelDemand → Type 0
NotAfter d c =
    (d.service_class_rank <ℤ c.service_class_rank)
    ⊎ ((d.service_class_rank ≡ c.service_class_rank)
        × (c.value_weight_minor ≤ℤ d.value_weight_minor))

cmp_ℤ-lt : (a b : ℤ) → cmp_ℤ a b ≡ Ordering.lt → a <ℤ b
cmp_ℤ-lt a b e =
    let h = compare-lt (pos_part a + neg_part b) (pos_part b + neg_part a) e in omega arith

cmp_ℤ-eq : (a b : ℤ) → cmp_ℤ a b ≡ Ordering.eq → a ≡ b
cmp_ℤ-eq a b e = eq_of_parts a b (compare-eq (pos_part a + neg_part b) (pos_part b + neg_part a) e)

cmp_ℤ-gt : (a b : ℤ) → cmp_ℤ a b ≡ Ordering.gt → b <ℤ a
cmp_ℤ-gt a b e =
    let h = compare-gt (pos_part a + neg_part b) (pos_part b + neg_part a) e in omega arith

Ordering-cases : (o : Ordering) → (o ≡ Ordering.lt) ⊎ ((o ≡ Ordering.eq) ⊎ (o ≡ Ordering.gt))
Ordering-cases Ordering.lt = inl refl
Ordering-cases Ordering.eq = inr (inl refl)
Ordering-cases Ordering.gt = inr (inr refl)

lower_weight : (a b : ℤ) → neg a <ℤ neg b → b <ℤ a
unfolding neg
lower_weight a b h = omega int_laws

same_weight : (a b : ℤ) → neg a ≡ neg b → a ≡ b
unfolding neg
same_weight a b h = omega int_laws

lt-not_gt : Ordering.lt ≡ Ordering.gt → ⊥
lt-not_gt e = cc

-- the answer of the test says which row is not after the other
priority_le-true : (p q : ℕ × ChannelDemand) → priority_le p q ≡ true → NotAfter p.1 q.1
unfolding priority_le
priority_le-true (i, d) (j, c) h =
    elim (Ordering-cases (cmp_ℤ d.service_class_rank c.service_class_rank)) [
      | inl lower ↦ inl (cmp_ℤ-lt d.service_class_rank c.service_class_rank lower)
      | inr (inr higher) ↦ let h' : false ≡ true = rw higher at h in absurd (ground arith)
      | inr (inl same) ↦
          let e = cmp_ℤ-eq d.service_class_rank c.service_class_rank same in
          let x = neg d.value_weight_minor in
          let y = neg c.value_weight_minor in
          elim (Ordering-cases (cmp_ℤ x y)) [
            | inl lower ↦
                let less =
                  lower_weight d.value_weight_minor c.value_weight_minor (cmp_ℤ-lt x y lower) in
                inr (e, omega arith)
            | inr (inr higher) ↦
                let h' : false ≡ true = rw (same, higher) at h in absurd (ground arith)
            | inr (inl equal) ↦
                let w =
                  same_weight d.value_weight_minor c.value_weight_minor (cmp_ℤ-eq x y equal) in
                inr (e, omega int_laws)
          ]
    ]

priority_le-false : (p q : ℕ × ChannelDemand) → priority_le p q ≡ false → NotAfter q.1 p.1
unfolding priority_le
priority_le-false (i, d) (j, c) h =
    elim (Ordering-cases (cmp_ℤ d.service_class_rank c.service_class_rank)) [
      | inl lower ↦ let h' : true ≡ false = rw lower at h in absurd (ground arith)
      | inr (inr higher) ↦ inl (cmp_ℤ-gt d.service_class_rank c.service_class_rank higher)
      | inr (inl same) ↦
          let e = sym (cmp_ℤ-eq d.service_class_rank c.service_class_rank same) in
          let x = neg d.value_weight_minor in
          let y = neg c.value_weight_minor in
          elim (Ordering-cases (cmp_ℤ x y)) [
            | inl lower ↦ let h' : true ≡ false = rw (same, lower) at h in absurd (ground arith)
            | inr (inr higher) ↦
                let less =
                  lower_weight c.value_weight_minor d.value_weight_minor (cmp_ℤ-gt x y higher) in
                inr (e, omega arith)
            | inr (inl equal) ↦
                let w =
                  same_weight d.value_weight_minor c.value_weight_minor (cmp_ℤ-eq x y equal) in
                inr (e, omega int_laws)
          ]
    ]

NotAfter-trans : (a b c : ChannelDemand) → NotAfter a b → NotAfter b c → NotAfter a c
NotAfter-trans a b c (inl h) (inl k) = inl (omega arith)
NotAfter-trans a b c (inl h) (inr k) = let e = k.0 in inl (rw (← e) h)
NotAfter-trans a b c (inr h) (inl k) = let e = h.0 in inl (rw e k)
NotAfter-trans a b c (inr h) (inr k) = inr (h.0 ∙ k.0, let x = h.1 in let y = k.1 in omega arith)

pub Precedes-strict : (a b : ChannelDemand) → Precedes a b → NotAfter b a → ⊥
Precedes-strict a b (inl h) (inl k) = absurd (omega arith)
Precedes-strict a b (inl h) (inr k) = let e = k.0 in absurd (omega int_laws)
Precedes-strict a b (inr h) (inl k) = let e = h.0 in absurd (omega int_laws)
Precedes-strict a b (inr h) (inr k) = let x = h.1 in let y = k.1 in absurd (omega arith)

-- the rows stand in an order in which none goes before one that precedes it
pub by_priority-order :
    (ds : List ChannelDemand) → AllPairs (λ p q. NotAfter p.1 q.1) (by_priority ds)
unfolding by_priority
by_priority-order ds =
    AllPairs-sort_by_order priority_le (λ p q. NotAfter p.1 q.1) priority_le-true priority_le-false
      (λ p q r. NotAfter-trans p.1 q.1 r.1) (enumerate 0 ds)
