-- ===== src/Money/Allocation.antt =====
-- `allocate_minor_units` on signed amounts.
use retail_intelligence.Money.Defs.{in_money_range, sum, quotients_of, allocate_minor_units}
use retail_intelligence.Base.Result.{ok}
use retail_intelligence.Base.Dict.{total}
use retail_intelligence.Base.Equality.{nat_eq, string_eq, pair_eq, option_eq}
use retail_intelligence.Base.Int.{
  ℤ, pos_part, ◌+ℤ◌, ◌-ℤ◌, ◌≤ℤ◌, ltb_ℤ, neg, le→ltb_ℤ_false, int_laws, neg-pos_suc, sum_ℤ, pos,
  negsuc,
}
use retail_intelligence.Base.{
  ℕ, zero, suc, ◌+◌, ◌*◌, ◌/◌, ◌≤◌, ◌<◌, ◌≡◌, refl, sym, ap, ◌∙◌, true, false, List, [], ◌∷◌, map,
  arith, eqb, length, All, All-imp, any, any-eq_false,
}
use retail_intelligence.Decimal.{magnitude, signed_like}
use retail_intelligence.Money.Shares.{Raised, split_magnitude-Raised}

-- Each value has the magnitude of its weight's exact proportion, rounded down or one unit more.
abbrev pub IsFairSplit : ℕ → ℕ → List ℤ → List ℤ → Type 0
IsFairSplit amount weight_total [] [] = Unit
IsFairSplit amount weight_total [] (v ∷ vs) = ⊥
IsFairSplit amount weight_total (w ∷ ws) [] = ⊥
IsFairSplit amount weight_total (w ∷ ws) (v ∷ vs) =
    ((amount * pos_part w / weight_total ≤ magnitude v)
      × (magnitude v ≤ amount * pos_part w / weight_total + 1))
    × IsFairSplit amount weight_total ws vs

magnitude-signed_like : (t : ℤ) (n : ℕ) → magnitude (signed_like t n) ≡ n
unfolding neg ◌-ℤ◌
magnitude-signed_like (pos t) n = refl
magnitude-signed_like (negsuc t) zero = refl
magnitude-signed_like (negsuc t) (suc n) = ground arith

signed_like_self : (t : ℤ) → signed_like t (magnitude t) ≡ t
signed_like_self (pos t) = refl
signed_like_self (negsuc t) = neg-pos_suc t

signed_like_add : (t : ℤ) (a b : ℕ) → signed_like t (a + b) ≡ signed_like t a +ℤ signed_like t b
unfolding neg
signed_like_add (pos t) a b = omega int_laws
signed_like_add (negsuc t) a b = omega int_laws

signed_like_zero : (t : ℤ) → signed_like t 0 ≡ pos 0
unfolding neg ◌-ℤ◌
signed_like_zero (pos t) = refl
signed_like_zero (negsuc t) = refl

sum-signed :
    (t : ℤ) (values : List ℕ) → sum_ℤ (map (signed_like t) values) ≡ signed_like t (sum values)
sum-signed t [] = sym (signed_like_zero t)
sum-signed t (v ∷ vs) =
    rw (signed_like_add t v (sum vs)) (ap (λ (s : ℤ). signed_like t v +ℤ s) (sum-signed t vs))

IsFairSplit-of_Raised :
    (t : ℤ) (amount weight_total : ℕ) (weights : List ℤ) (values : List ℕ)
    → Raised (quotients_of amount weight_total (map pos_part weights)) values
    → IsFairSplit amount weight_total weights (map (signed_like t) values)
IsFairSplit-of_Raised t amount weight_total [] [] r = tt
IsFairSplit-of_Raised t amount weight_total [] (v ∷ vs) r = elim r [ ]
IsFairSplit-of_Raised t amount weight_total (w ∷ ws) [] r = elim r [ ]
IsFairSplit-of_Raised t amount weight_total (w ∷ ws) (v ∷ vs) r =
    (rw (magnitude-signed_like t v) r.0, IsFairSplit-of_Raised t amount weight_total ws vs r.1)

none_negative :
    (weights : List ℤ) → All (λ w. pos 0 ≤ℤ w) weights → any (λ w. ltb_ℤ w (pos 0)) weights ≡ false
none_negative weights h =
    any-eq_false (λ w. ltb_ℤ w (pos 0)) weights
      (All-imp _ _ weights (λ w le. le→ltb_ℤ_false w (pos 0) le) h)

some_weight : (weights : List ℤ) → 0 < sum (map pos_part weights) → eqb (length weights) 0 ≡ false
some_weight [] h = absurd (omega arith)
some_weight (w ∷ ws) h = ground arith

-- For a total that fits a signed 64-bit integer and weights that are not negative and not all zero,
-- the allocation returns: its values add up to the total exactly, and each is its weight's
-- proportion of the total, rounded towards zero or one minor unit away from that.
pub allocate_minor_units-exact :
    (total : ℤ) (weights : List ℤ)
    → in_money_range total ≡ true
    → All (λ w. pos 0 ≤ℤ w) weights
    → 0 < sum (map pos_part weights)
    → (values : List ℤ) × (allocate_minor_units total weights ≡ ok values)
      × (sum_ℤ values ≡ total)
      × IsFairSplit (magnitude total) (sum (map pos_part weights)) weights values
unfolding allocate_minor_units
allocate_minor_units-exact total weights ranged nonneg some_sum =
    let ws : List ℕ = map pos_part weights in
    let (values, e, whole, raised) = split_magnitude-Raised (magnitude total) ws some_sum in
    let not_zero : eqb (sum ws) 0 ≡ false = ground arith in
    (
      map (signed_like total) values,
      rw ranged (
          rw (some_weight weights some_sum)
            (rw (none_negative weights nonneg) (rw not_zero (rw e)))),
      sum-signed total values ∙ ap (signed_like total) whole ∙ signed_like_self total,
      IsFairSplit-of_Raised total (magnitude total) (sum ws) weights values raised,
    )
