-- ===== src/Money/Rounding.antt =====
-- Conversion of contracts/python/src/retail_contracts/fx.py rounds to a nearest minor unit.
use retail_intelligence.Decimal.{Decimal, half_even, to_integral}
use retail_intelligence.Money.Fx.{
  parse_rate, exponent_of, is_not_one, scaled_amount, convert_minor, result_out_of_range,
}
use retail_intelligence.Money.Defs.{minor_exponent, Amount, in_money_range}
use retail_intelligence.Base.Result.{◌>>◌, raise_if, ok, err}
use retail_intelligence.Base.Equality.{nat_eq, string_eq, ◌==◌, pair_eq, option_eq}
use retail_intelligence.Base.Int.{
  ℤ, pos_part, neg_part, ◌+ℤ◌, ◌-ℤ◌, ◌*ℤ◌, ◌≤ℤ◌, neg, int_laws, pos-mul, mul-one, neg-mul, pos,
  negsuc,
}
use retail_intelligence.Base.{
  ℕ, zero, suc, ◌+◌, ◌*◌, ◌/◌, ◌%◌, ◌^◌, ◌≤◌, String, ◌≡◌, refl, inl, inr, true, false, not, ◌&&◌,
  ◌||◌, arith, ltb, eqb, if◌then◌else◌, Bool-cases,
}
use native.Mathlib.Nat.{div-add-mod, mod-lt}

one_le_pow : (e : ℕ) → 1 ≤ 10 ^ e
one_le_pow zero = omega arith
one_le_pow (suc e) = let ih = one_le_pow e in omega arith

neg_parts : (m : ℕ) → pos_part (neg (pos m)) + m ≡ neg_part (neg (pos m))
unfolding neg ◌-ℤ◌
neg_parts m = ground arith

half_even-nearest :
    (n unit : ℕ)
    → 1 ≤ unit
    → (2 * (half_even n unit * unit) ≤ 2 * n + unit)
      × (2 * n ≤ 2 * (half_even n unit * unit) + unit)
unfolding half_even
half_even-nearest n unit h =
    let d = div-add-mod n unit in
    let m = mod-lt n h in
    elim (Bool-cases
      (ltb unit (2 * (n % unit)) || (eqb unit (2 * (n % unit)) && eqb (n / unit % 2) 1))) [
        | inl up ↦
            let most : unit ≤ 2 * (n % unit) = ground arith in rw up (omega arith, omega arith)
        | inr down ↦
            let least : 2 * (n % unit) ≤ unit = ground arith in rw down (omega arith, omega arith)
      ]

-- The integer is at most half a unit of its last place from the decimal.
pub record IsNearest (r : ℤ) (d : Decimal) : Type 0 where
  pub above :
      let rounded = r *ℤ pos (10 ^ neg_part d.exponent) in
      let value = d.coefficient *ℤ pos (10 ^ pos_part d.exponent) in
      rounded +ℤ rounded ≤ℤ value +ℤ value +ℤ pos (10 ^ neg_part d.exponent)
  pub below :
      let rounded = r *ℤ pos (10 ^ neg_part d.exponent) in
      let value = d.coefficient *ℤ pos (10 ^ pos_part d.exponent) in
      value +ℤ value ≤ℤ rounded +ℤ rounded +ℤ pos (10 ^ neg_part d.exponent)

to_integral-IsNearest :
    (c e : ℤ)
    → IsNearest
        (to_integral (record { coefficient = c; exponent = e }))
        (record { coefficient = c; exponent = e })
unfolding to_integral
to_integral-IsNearest c (pos e) =
    let same = mul-one (c *ℤ pos (10 ^ e)) in
    record { above = rw same (omega int_laws); below = rw same (omega int_laws) }
to_integral-IsNearest (pos n) (negsuc e) =
    let unit = 10 ^ suc e in
    let near = half_even-nearest n unit (one_le_pow (suc e)) in
    let left = pos-mul (half_even n unit) unit in
    let right = mul-one (pos n) in
    let low = near.0 in
    let high = near.1 in
    record { above = rw (left, right) (omega int_laws); below = rw (left, right) (omega int_laws) }
to_integral-IsNearest (negsuc n) (negsuc e) =
    let unit = 10 ^ suc e in
    let near = half_even-nearest (suc n) unit (one_le_pow (suc e)) in
    let left = neg-mul (half_even (suc n) unit) unit in
    let right = mul-one (negsuc n) in
    let low = near.0 in
    let high = near.1 in
    let flip = neg_parts (half_even (suc n) unit * unit) in
    record { above = rw (left, right) (omega int_laws); below = rw (left, right) (omega int_laws) }

last_check :
    (r : ℤ)
    → (raise_if (not (in_money_range r)) result_out_of_range >> ok r)
      ≡ (if in_money_range r then ok r else err result_out_of_range)
last_check r = elim (Bool-cases (in_money_range r)) [
  | inl fits ↦ rw fits refl
  | inr large ↦ rw large refl
]

exponent_of-eq_ok :
    (currency : String) (n : ℕ) → minor_exponent currency ≡ ok n → exponent_of currency ≡ ok n
unfolding exponent_of
exponent_of-eq_ok currency n e = rw (e, exponent_of) refl

-- An amount within 64 bits, at a rate that is accepted, between currencies that are known and at rate
-- one where they are the same, is converted to a nearest minor unit of the exact product, or refused
-- where that unit does not fit 64 bits.
pub convert_minor-IsNearest :
    (amount : ℤ) (rate : Amount) (parsed : Decimal) (base quote_ccy : String) (b q : ℕ)
    → in_money_range amount ≡ true
    → parse_rate rate ≡ ok parsed
    → ((base == quote_ccy) && is_not_one parsed) ≡ false
    → minor_exponent base ≡ ok b
    → minor_exponent quote_ccy ≡ ok q
    → (r : ℤ) × (convert_minor amount rate base quote_ccy
        ≡ (if in_money_range r then ok r else err result_out_of_range))
      × IsNearest r (scaled_amount amount parsed b q)
unfolding convert_minor
convert_minor-IsNearest amount rate parsed base quote_ccy b q range known identity on_base
      on_quote =
    let exact_product = scaled_amount amount parsed b q in
    let r = to_integral exact_product in
    let quote_places = exponent_of-eq_ok quote_ccy q on_quote in
    let base_places = exponent_of-eq_ok base b on_base in
    rw (range, known, identity, quote_places, base_places)
      (r, last_check r, to_integral-IsNearest exact_product.coefficient exact_product.exponent)
