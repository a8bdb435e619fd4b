-- ===== src/Money/Tests.antt =====
-- Runs of the money operations, and their theorems at concrete inputs.
use retail_intelligence.Decimal.{
  Decimal, digits_within, num_digits, half_even, truncate, lt_decimal, le_decimal, to_integral,
}
use retail_intelligence.Money.Rounding.{IsNearest, convert_minor-IsNearest}
use retail_intelligence.Money.Fx.{
  check_rate, parse_rate, exponent_of, scaled_amount, convert_minor, result_out_of_range,
}
use retail_intelligence.Money.Allocation.{IsFairSplit, allocate_minor_units-exact}
use retail_intelligence.Money.Conversion.{to_minor_units-to_major_units}
use retail_intelligence.Money.Defs.{
  minor_exponent, Amount, exact_decimal, scale, is_integral, in_money_range, to_minor_units,
  to_major_units, remainder_le, hand_out, split_magnitude, allocate_minor_units, unknown_currency,
  precision_loss, binary_float, exact,
}
use retail_intelligence.Base.Result.{ok, err}
use retail_intelligence.Base.Sort.{insert_by, sort_by}
use retail_intelligence.Base.Dict.{get}
use retail_intelligence.Base.Equality.{nat_eq, string_eq, pair_eq, option_eq}
use retail_intelligence.Base.Int.{ℤ, ◌+ℤ◌, ◌-ℤ◌, ◌*ℤ◌, neg, sum_ℤ, pos, negsuc}
use retail_intelligence.Base.{◌≡◌, refl, List, [], ◌∷◌, arith, if◌then◌else◌}

-- 12.50 and 1.005
abbrev price : Decimal
price = record { coefficient = pos 1250; exponent = negsuc 1 }

abbrev too_fine : Decimal
too_fine = record { coefficient = pos 1005; exponent = negsuc 2 }

refusals :
    (to_minor_units (exact too_fine) "USD" ≡ err precision_loss)
    × (to_minor_units (exact price) "JPY" ≡ err unknown_currency)
    × (to_minor_units binary_float "USD" ≡ err precision_loss)
unfolding to_minor_units minor_exponent exact_decimal scale is_integral truncate ◌+ℤ◌ ◌*ℤ◌
refusals = (refl, refl, refl)

abbrev rendered : Decimal
rendered = record { coefficient = negsuc 1249; exponent = negsuc 1 }

render_run : to_major_units (negsuc 1249) "EUR" ≡ ok rendered
unfolding to_major_units minor_exponent scale neg ◌+ℤ◌ ◌-ℤ◌
render_run = refl

abbrev weights : List ℤ
weights = pos 1 ∷ pos 1 ∷ pos 1 ∷ []

split_run : allocate_minor_units (negsuc 100) weights ≡ ok (negsuc 33 ∷ negsuc 33 ∷ negsuc 32 ∷ [])
unfolding allocate_minor_units split_magnitude hand_out sort_by insert_by remainder_le neg ◌-ℤ◌
split_run = refl

to_minor_units-to_major_units_example : to_minor_units (exact rendered) "EUR" ≡ ok (negsuc 1249)
to_minor_units-to_major_units_example = to_minor_units-to_major_units (negsuc 1249) "EUR" render_run

allocate_minor_units-exact_example :
    (values : List ℤ) × (allocate_minor_units (negsuc 100) weights ≡ ok values)
    × (sum_ℤ values ≡ negsuc 100)
    × IsFairSplit 101 3 weights values
allocate_minor_units-exact_example =
    allocate_minor_units-exact (negsuc 100) weights refl (omega arith) (omega arith)

abbrev rupee_rate : Amount
rupee_rate = exact (record { coefficient = pos 831275; exponent = negsuc 3 })

convert_minor-IsNearest_example :
    (r : ℤ) × (convert_minor (pos 1999) rupee_rate "USD" "INR"
      ≡ (if in_money_range r then ok r else err result_out_of_range))
    × IsNearest r
        (scaled_amount (pos 1999) (record { coefficient = pos 831275; exponent = negsuc 3 }) 2 2)
unfolding parse_rate check_rate minor_exponent get le_decimal lt_decimal neg ◌+ℤ◌ ◌-ℤ◌ ◌*ℤ◌
    num_digits digits_within
convert_minor-IsNearest_example =
    convert_minor-IsNearest (pos 1999) rupee_rate
      (record { coefficient = pos 831275; exponent = negsuc 3 }) "USD" "INR" 2 2 refl refl refl refl
      refl

rupee_run : convert_minor (pos 1999) rupee_rate "USD" "INR" ≡ ok (pos 166172)
unfolding convert_minor parse_rate check_rate exponent_of minor_exponent get le_decimal lt_decimal
    neg ◌+ℤ◌ ◌-ℤ◌ ◌*ℤ◌ num_digits digits_within scaled_amount to_integral half_even
rupee_run = refl
