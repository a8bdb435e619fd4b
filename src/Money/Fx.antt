-- ===== src/Money/Fx.antt =====
-- contracts/python/src/retail_contracts/fx.py. A rate is described by what `Decimal` makes of it; the
-- local context there is wide enough for the product to be exact.
use retail_intelligence.Decimal.{
  Decimal, of_ℤ, num_digits, magnitude, lt_decimal, le_decimal, to_integral,
}
use retail_intelligence.Money.Defs.{
  minor_exponent, Amount, in_money_range, binary_float, not_decimal, not_finite, exact,
}
use retail_intelligence.Base.Result.{Result, ◌>>=◌, ◌>>◌, raise_if, ok, err}
use retail_intelligence.Base.Equality.{nat_eq, string_eq, ◌==◌, pair_eq, option_eq}
use retail_intelligence.Base.Int.{ℤ, pos_part, ◌+ℤ◌, ◌-ℤ◌, ◌*ℤ◌, neg, sum_ℤ, pos}
use retail_intelligence.Base.{ℕ, ◌-◌, String, Bool, not, ◌&&◌, ◌||◌, List, [], ◌∷◌, ltb}

pub data FxError : Type 0 where
  inexact_rate rate_not_positive scale_exceeded digits_exceeded : FxError
  source_out_of_range identity_rate no_exponent result_out_of_range sum_out_of_range : FxError

abbrev pub fx_rate_scale : ℕ
fx_rate_scale = 18

abbrev pub fx_rate_precision : ℕ
fx_rate_precision = 38

-- Without the point, the digits and the exponent of a rate.
abbrev pub scale_of : Decimal → ℕ
scale_of value = pos_part (neg value.exponent)

abbrev pub integer_digits : Decimal → ℕ
integer_digits value = pos_part (pos (num_digits (magnitude value.coefficient)) +ℤ value.exponent)

unfoldable pub check_rate : Decimal → Result FxError Decimal
check_rate value = do
  raise_if (le_decimal value (of_ℤ (pos 0))) rate_not_positive
  raise_if (ltb fx_rate_scale (scale_of value)) scale_exceeded
  raise_if (ltb (fx_rate_precision - fx_rate_scale) (integer_digits value)) digits_exceeded
  ok value

unfoldable pub parse_rate : Amount → Result FxError Decimal
parse_rate binary_float = err inexact_rate
parse_rate not_decimal = err inexact_rate
parse_rate not_finite = err inexact_rate
parse_rate (exact value) = check_rate value

-- `minor_exponent`, whose error goes on
unfoldable pub exponent_of : String → Result FxError ℕ
exponent_of currency = elim (minor_exponent currency) [ ok n ↦ ok n | err _ ↦ err no_exponent ]

-- `parsed != Decimal(1)`
abbrev pub is_not_one : Decimal → Bool
is_not_one d = lt_decimal d (of_ℤ (pos 1)) || lt_decimal (of_ℤ (pos 1)) d

-- The exact product, with its point moved by the difference of the minor digits.
unfoldable pub scaled_amount : ℤ → Decimal → (base_places quote_places : ℕ) → Decimal
scaled_amount amount rate base_places quote_places = record {
  coefficient = amount *ℤ rate.coefficient;
  exponent = rate.exponent +ℤ (pos quote_places -ℤ pos base_places);
}

unfoldable pub convert_minor :
    (amount_minor : ℤ) → Amount → (base_ccy quote_ccy : String) → Result FxError ℤ
convert_minor amount_minor rate base_ccy quote_ccy = do
  raise_if (not (in_money_range amount_minor)) source_out_of_range
  parsed ← parse_rate rate
  raise_if ((base_ccy == quote_ccy) && is_not_one parsed) identity_rate
  quote_places ← exponent_of quote_ccy
  base_places ← exponent_of base_ccy
  let result = to_integral (scaled_amount amount_minor parsed base_places quote_places)
  raise_if (not (in_money_range result)) result_out_of_range
  ok result

-- an amount, its rate and its currency
abbrev pub Fact : Type 0
Fact = ℤ × (Amount × String)

unfoldable pub convert_all : List Fact → (quote_ccy : String) → Result FxError (List ℤ)
convert_all [] quote_ccy = ok []
convert_all ((amount, (rate, base)) ∷ facts) quote_ccy = do
  one ← convert_minor amount rate base quote_ccy
  rest ← convert_all facts quote_ccy
  ok (one ∷ rest)

unfoldable pub convert_and_sum : List Fact → (quote_ccy : String) → Result FxError ℤ
convert_and_sum facts quote_ccy = do
  values ← convert_all facts quote_ccy
  raise_if (not (in_money_range (sum_ℤ values))) sum_out_of_range
  ok (sum_ℤ values)
