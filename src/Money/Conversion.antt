-- ===== src/Money/Conversion.antt =====
-- Conversions between minor and major units are exact.
use retail_intelligence.Money.Defs.{
  minor_exponent, exact_decimal, scale, is_integral, in_money_range, to_minor_units, to_major_units,
  precision_loss, exact,
}
use retail_intelligence.Base.Result.{raise_if, >>=-eq-ok, ok, passed, ok-injective}
use retail_intelligence.Base.Equality.{nat_eq, string_eq, pair_eq, option_eq}
use retail_intelligence.Base.Int.{ℤ, pos_part, neg_part, ◌+ℤ◌, ◌*ℤ◌, neg, int_laws, pos, mul-one}
use retail_intelligence.Base.{ℕ, ◌^◌, String, ◌≡◌, true, not}
use retail_intelligence.Decimal.{Decimal, truncate}

-- The amount of minor units `n` is exactly the decimal `d` with its point moved by `places`.
abbrev pub IsExactly : ℤ → Decimal → ℕ → Type 0
IsExactly n d places =
    let exponent = d.exponent +ℤ pos places in
    n *ℤ pos (10 ^ neg_part exponent) ≡ d.coefficient *ℤ pos (10 ^ pos_part exponent)

shift_back : (n : ℤ) (places : ℕ) → n +ℤ neg (pos places) +ℤ pos places ≡ n
unfolding neg
shift_back n places = omega int_laws

read_back :
    (n e : ℤ) (currency_code : String) (places : ℕ)
    → minor_exponent currency_code ≡ ok places
    → in_money_range n ≡ true
    → e +ℤ pos places ≡ pos 0
    → to_minor_units (exact (record { coefficient = n; exponent = e })) currency_code ≡ ok n
unfolding to_minor_units exact_decimal scale is_integral truncate
read_back n e currency_code places found ranged shifted =
    rw found (rw shifted (rw (mul-one n) (rw ranged)))

-- Rendering minor units in major units and reading them back gives the same amount.
pub to_minor_units-to_major_units :
    (n : ℤ) (currency_code : String) {d : Decimal}
    → to_major_units n currency_code ≡ ok d
    → to_minor_units (exact d) currency_code ≡ ok n
unfolding to_major_units scale
to_minor_units-to_major_units n currency_code {d} h =
    let (_, ranged, rest) = >>=-eq-ok (raise_if (not (in_money_range n)) precision_loss) _ h in
    let (places, found, last) = >>=-eq-ok (minor_exponent currency_code) _ rest in
    rw (← ok-injective last) (
      read_back n (pos 0 +ℤ neg (pos places)) currency_code places found (passed _ _ ranged)
        (shift_back (pos 0) places))
