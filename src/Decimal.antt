-- ===== src/Decimal.antt =====
-- What the program uses of Python's `decimal`: finite decimals with an exact coefficient and
-- exponent, products and quotients rounded half-even to the default context's 28 digits, truncation
-- by `int`, and comparisons. The exponent is not limited, and a negative zero is the zero.

use retail_intelligence.Base.Equality.{nat_eq, string_eq, pair_eq, option_eq}
use retail_intelligence.Base.{
  ℕ, zero, suc, ◌+◌, ◌-◌, ◌*◌, ◌/◌, ◌%◌, ◌^◌, Bool, true, false, ◌&&◌, ◌||◌, ltb, eqb,
  if◌then◌else◌,
}
use retail_intelligence.Base.Int.{ℤ, pos, negsuc, pos_part, neg, ◌+ℤ◌, ◌-ℤ◌, ◌*ℤ◌, ltb_ℤ, leb_ℤ}

pub record Decimal : Type 0 where
  pub coefficient : ℤ
  pub exponent : ℤ

abbrev pub context_digits : ℕ
context_digits = 28

abbrev pub of_ℤ : ℤ → Decimal
of_ℤ n = record { coefficient = n; exponent = pos 0 }

-- The number of decimal digits; each division by ten uses up one unit of fuel.
unfoldable pub digits_within : ℕ → ℕ → ℕ
digits_within zero n = 1
digits_within (suc fuel) n = elim (ltb n 10) [
  | true ↦ 1
  | false ↦ suc (digits_within fuel (n / 10))
]

unfoldable pub num_digits : ℕ → ℕ
unfolding digits_within
num_digits n = digits_within n n

-- The quotient by `unit` rounded half-even.
unfoldable pub half_even : ℕ → ℕ → ℕ
half_even n unit =
    let q = n / unit in
    let r = 2 * (n % unit) in if ltb unit r || (eqb unit r && eqb (q % 2) 1) then q + 1 else q

abbrev pub signed_like : ℤ → ℕ → ℤ
signed_like (pos _) n = pos n
signed_like (negsuc _) n = neg (pos n)

abbrev pub magnitude : ℤ → ℕ
magnitude (pos n) = n
magnitude (negsuc n) = suc n

-- Rounds to the context's digits: the surplus digits are rounded away.
unfoldable pub round_context : Decimal → Decimal
unfolding num_digits half_even neg ◌-ℤ◌ ◌+ℤ◌
round_context d =
    let surplus = num_digits (magnitude d.coefficient) - context_digits in
    if eqb surplus 0 then d else record {
      coefficient = signed_like d.coefficient (half_even (magnitude d.coefficient) (10 ^ surplus));
      exponent = d.exponent +ℤ pos surplus;
    }

unfoldable pub mul : Decimal → Decimal → Decimal
unfolding round_context ◌*ℤ◌
mul a b =
    round_context
      (record { coefficient = a.coefficient *ℤ b.coefficient; exponent = a.exponent +ℤ b.exponent })

-- `int(d)`: towards zero.
unfoldable pub truncate : Decimal → ℤ
unfolding neg ◌-ℤ◌ ◌*ℤ◌
truncate d = elim d.exponent [
  | pos e ↦ d.coefficient *ℤ pos (10 ^ e)
  | negsuc e ↦ signed_like d.coefficient (magnitude d.coefficient / 10 ^ suc e)
]

-- Both coefficients, brought to the smaller exponent.
abbrev pub aligned : Decimal → Decimal → ℤ × ℤ
aligned a b = (
  a.coefficient *ℤ pos (10 ^ pos_part (a.exponent -ℤ b.exponent)),
  b.coefficient *ℤ pos (10 ^ pos_part (b.exponent -ℤ a.exponent)),
)

unfoldable pub lt_decimal : Decimal → Decimal → Bool
unfolding ◌*ℤ◌ ◌-ℤ◌
lt_decimal a b = let (x, y) = aligned a b in ltb_ℤ x y

unfoldable pub le_decimal : Decimal → Decimal → Bool
unfolding ◌*ℤ◌ ◌-ℤ◌
le_decimal a b = let (x, y) = aligned a b in leb_ℤ x y

-- Drops trailing zeros, at most so many: the ones that are left, and the number without them.
unfoldable pub strip_zeros : ℕ → ℕ → ℕ × ℕ
strip_zeros zero n = (0, n)
strip_zeros (suc k) n = elim (eqb (n % 10) 0) [ true ↦ strip_zeros k (n / 10) | false ↦ (suc k, n) ]

abbrev pub quotient_sign : ℤ → ℤ → ℕ → ℤ
quotient_sign (pos _) (pos _) q = pos q
quotient_sign (negsuc _) (negsuc _) q = pos q
quotient_sign _ _ q = neg (pos q)

-- `Decimal(a) / Decimal(b)` for a divisor that is not zero: one digit more than the context has, made
-- odd or not a multiple of five where digits are lost, then rounded to the context; an exact quotient
-- has no trailing zeros after the point.
unfoldable pub divide : ℤ → ℤ → Decimal
unfolding num_digits round_context strip_zeros neg ◌-ℤ◌
divide a b =
    let m = magnitude a in
    let n = magnitude b in
    let wanted = num_digits n + context_digits + 1 in
    let up = wanted - num_digits m in
    let down = num_digits m - wanted in
    let top = m * 10 ^ up in
    let bottom = n * 10 ^ down in
    let q = top / bottom in
    let (places, exact_quotient) = strip_zeros up q in
    if eqb m 0
    then of_ℤ (pos 0)
    else if eqb (top % bottom) 0
    then round_context (record {
      coefficient = quotient_sign a b exact_quotient;
      exponent = pos down -ℤ pos places;
    })
    else round_context (record {
      coefficient = quotient_sign a b (if eqb (q % 5) 0 then q + 1 else q);
      exponent = pos down -ℤ pos up;
    })

-- `int(d.to_integral_value(rounding=ROUND_HALF_EVEN))`: an exact tie goes to the even neighbour.
unfoldable pub to_integral : Decimal → ℤ
unfolding half_even neg ◌-ℤ◌ ◌*ℤ◌
to_integral d = elim d.exponent [
  | pos e ↦ d.coefficient *ℤ pos (10 ^ e)
  | negsuc e ↦ signed_like d.coefficient (half_even (magnitude d.coefficient) (10 ^ suc e))
]
