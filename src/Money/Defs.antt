-- ===== src/Money/Defs.antt =====
-- The operations of contracts/python/src/retail_contracts/money.py. An amount is described by what
-- `Decimal` makes of it; local contexts there are wide enough for every scaling to be exact.
use retail_intelligence.Base.Result.{Result, ◌>>=◌, ◌>>◌, raise_if, ok, err}
use retail_intelligence.Base.Sort.{then_by, not_gt, sort_by}
use retail_intelligence.Base.Dict.{Dict, get}
use retail_intelligence.Base.Equality.{nat_eq, string_eq, pair_eq, option_eq}
use retail_intelligence.Base.Int.{ℤ, pos_part, ◌+ℤ◌, ltb_ℤ, leb_ℤ, neg, pos, negsuc}
use retail_intelligence.Base.{
  ℕ, zero, suc, ◌+◌, ◌-◌, ◌*◌, ◌/◌, ◌%◌, ◌^◌, String, Bool, true, not, ◌&&◌, none, some, List, [],
  ◌∷◌, map, eqb, length, any, set, get_at, enumerate,
}
use Prim.Native.Nat.{compare}
use retail_intelligence.Decimal.{Decimal, truncate, magnitude, signed_like}

pub data MoneyError : Type 0 where
  unknown_currency : MoneyError
  precision_loss : MoneyError
  total_out_of_range no_weights negative_weight zero_weights index_error : MoneyError

abbrev pub min_money_minor : ℤ
min_money_minor = negsuc (2 ^ 63 - 1)

abbrev pub max_money_minor : ℤ
max_money_minor = pos (2 ^ 63 - 1)

abbrev pub minor_unit_exponent : Dict String ℕ
minor_unit_exponent = ("INR", 2) ∷ ("USD", 2) ∷ ("EUR", 2) ∷ ("GBP", 2) ∷ []

unfoldable pub minor_exponent : String → Result MoneyError ℕ
unfolding get
minor_exponent currency_code = elim (get currency_code minor_unit_exponent) [
  | none ↦ err unknown_currency
  | some n ↦ ok n
]

-- A bool or float, a text that is no decimal, a NaN or infinity, or an exact decimal.
pub data Amount : Type 0 where
  binary_float : Amount
  not_decimal : Amount
  not_finite : Amount
  exact : Decimal → Amount

unfoldable pub exact_decimal : Amount → Result MoneyError Decimal
exact_decimal binary_float = err precision_loss
exact_decimal not_decimal = err precision_loss
exact_decimal not_finite = err precision_loss
exact_decimal (exact value) = ok value

-- `d.scaleb(n)`, exact in a wide enough context
unfoldable pub scale : Decimal → ℤ → Decimal
scale d n = record d { exponent = d.exponent +ℤ n }

-- `d == d.to_integral_value()`
unfoldable pub is_integral : Decimal → Bool
is_integral d = elim d.exponent [
  | pos e ↦ true
  | negsuc e ↦ eqb (magnitude d.coefficient % 10 ^ suc e) 0
]

abbrev pub in_money_range : ℤ → Bool
in_money_range n = leb_ℤ min_money_minor n && leb_ℤ n max_money_minor

unfoldable pub to_minor_units : Amount → String → Result MoneyError ℤ
to_minor_units amount currency_code = do
  exponent ← minor_exponent currency_code
  major ← exact_decimal amount
  let scaled = scale major (pos exponent)
  raise_if (not (is_integral scaled)) precision_loss
  let result = truncate scaled
  raise_if (not (in_money_range result)) precision_loss
  ok result

unfoldable pub to_major_units : ℤ → String → Result MoneyError Decimal
to_major_units amount_minor currency_code = do
  raise_if (not (in_money_range amount_minor)) precision_loss
  exponent ← minor_exponent currency_code
  ok (scale (record { coefficient = amount_minor; exponent = pos 0 }) (neg (pos exponent)))

abbrev pub sum : List ℕ → ℕ
sum [] = 0
sum (x ∷ xs) = x + sum xs

-- Not after in the order of the key `(-remainder, index)`.
unfoldable pub remainder_le : ℕ × ℕ → ℕ × ℕ → Bool
remainder_le (i, r) (j, s) = not_gt (then_by (compare s r) (compare i j))

-- `for position in range(units_left): quotients[order[position]] += 1`
unfoldable pub hand_out : ℕ → List (ℕ × ℕ) → List ℕ → Result MoneyError (List ℕ)
hand_out zero order quotients = ok quotients
hand_out (suc units) [] quotients = err index_error
hand_out (suc units) ((i, _) ∷ order) quotients =
    hand_out units order (set quotients i (get_at quotients i 0 + 1))

abbrev pub quotients_of : ℕ → ℕ → List ℕ → List ℕ
quotients_of magnitude weight_total = map (λ w. magnitude * w / weight_total)

abbrev pub remainders_of : ℕ → ℕ → List ℕ → List ℕ
remainders_of magnitude weight_total = map (λ w. magnitude * w % weight_total)

-- The largest-remainder split of a magnitude over weights that are not negative.
unfoldable pub split_magnitude : ℕ → List ℕ → Result MoneyError (List ℕ)
split_magnitude magnitude weights =
    let weight_total = sum weights in
    let quotients = quotients_of magnitude weight_total weights in
    let order = sort_by remainder_le (enumerate 0 (remainders_of magnitude weight_total weights)) in
    hand_out (magnitude - sum quotients) order quotients

unfoldable pub allocate_minor_units : ℤ → List ℤ → Result MoneyError (List ℤ)
allocate_minor_units total_minor weights = do
  raise_if (not (in_money_range total_minor)) total_out_of_range
  raise_if (eqb (length weights) 0) no_weights
  raise_if (any (λ w. ltb_ℤ w (pos 0)) weights) negative_weight
  raise_if (eqb (sum (map pos_part weights)) 0) zero_weights
  values ← split_magnitude (magnitude total_minor) (map pos_part weights)
  ok (map (signed_like total_minor) values)
