-- ===== src/Engines/Analytics/Costs.antt =====
-- Weighted-average costs of ml/src/retail_ml/engines/analytics.py.

use retail_intelligence.Engines.Analytics.Currencies.{
  costed, IsIn, IsSeen, IsStarted, cost_receipts-IsStarted,
}
use retail_intelligence.Engines.Analytics.Defs.{
  AnalyticsError, first_text, Receipt, Costing, cost_receipt, cost_receipts, store_wac_minor,
  mixed_currencies,
}
use retail_intelligence.Base.Result.{Result, ◌>>◌, raise_if, ok, err}
use retail_intelligence.Base.Equality.{nat_eq, string_eq, pair_eq, option_eq}
use retail_intelligence.Base.Int.{
  ℤ, pos_part, ◌*ℤ◌, floor_div, ◌<ℤ◌, leb_ℤ, eqb_ℤ, int_laws, pos-mul, pos, negsuc,
}
use retail_intelligence.Base.{
  ℕ, suc, ◌+◌, ◌*◌, ◌/◌, ◌≤◌, String, ◌≡◌, refl, sym, ap, ◌∙◌, ◌⊎◌, inl, inr, true, false, Option,
  none, some, List, [], ◌∷◌, arith, ltb, leb, if◌then◌else◌, leb→le, Bool-cases, length, All, all,
}
use mathlib.Core.Path.{subst}
use native.Mathlib.Nat.{div-add-mod, mod-lt, mul-le-mul_left}

-- A receipt without a cost, or with one between two bounds.
abbrev pub IsPriced : (low high : ℕ) → Receipt → Type 0
IsPriced low high r =
    (r.unit_cost_minor ≡ none)
    ⊎ ((c : ℕ) × (r.unit_cost_minor ≡ some (pos c)) × (low ≤ c) × (c ≤ high))

-- The cost so far lies between the bounds times the units so far.
record IsCosted (low high : ℕ) (s : Costing) : Type 0 where
  units : ℕ
  cost : ℕ
  total_units : s.total_units ≡ pos units
  total_cost : s.total_cost ≡ pos cost
  above : units * low ≤ cost
  below : cost ≤ units * high

counted : (q : ℤ) → leb_ℤ q (pos 0) ≡ false → (n : ℕ) × (q ≡ pos n)
counted (pos n) e = (n, refl)
counted (negsuc n) e = absurd (ground (arith, e))

cost_receipt-IsCosted :
    (low high : ℕ) (r : Receipt) (s : Costing)
    → IsPriced low high r
    → IsCosted low high s
    → IsCosted low high (cost_receipt r s)
unfolding cost_receipt
cost_receipt-IsCosted low high r s (inl e) h = rw (e, cost_receipt) h
cost_receipt-IsCosted low high r s (inr (c, e, floor, top)) h =
    elim (Bool-cases (leb_ℤ r.qty (pos 0))) [
      | inl stop ↦ rw (e, cost_receipt, stop) h
      | inr go ↦
          let (n, q) = counted r.qty go in
          let product : r.qty *ℤ pos c ≡ pos (n * c) = ap (λ z. z *ℤ pos c) q ∙ pos-mul n c in
          let least = mul-le-mul_left n floor in
          let most = mul-le-mul_left n top in
          let had = h.above in
          let kept = h.below in
          let units_so_far = h.total_units in
          let cost_so_far = h.total_cost in
          rw (e, cost_receipt, go)
            (record {
              units = h.units + n;
              cost = h.cost + n * c;
              total_units = omega int_laws;
              total_cost = omega int_laws;
              above = omega arith;
              below = omega arith;
            })
    ]

cost_receipts-IsCosted :
    (low high : ℕ) (rs : List Receipt) (s : Costing)
    → All (IsPriced low high) rs
    → IsCosted low high s
    → IsCosted low high (cost_receipts rs s)
unfolding cost_receipts
cost_receipts-IsCosted low high [] s priced h = h
cost_receipts-IsCosted low high (r ∷ rs) s priced h =
    cost_receipts-IsCosted low high rs (cost_receipt r s) priced.1
      (cost_receipt-IsCosted low high r s priced.0 h)

div-bounds :
    (cost units low high : ℕ)
    → 1 ≤ units
    → units * low ≤ cost
    → cost ≤ units * high
    → (low ≤ cost / units) × (cost / units ≤ high)
div-bounds cost units low high some_units above below =
    let d = div-add-mod cost units in
    let m = mod-lt cost some_units in
    (
      elim (Bool-cases (leb low (cost / units))) [
        | inl fits ↦ leb→le low (cost / units) fits
        | inr less ↦
            let next : suc (cost / units) ≤ low = ground arith in
            let more = mul-le-mul_left units next in absurd (omega arith)
      ],
      elim (Bool-cases (leb (cost / units) high)) [
        | inl fits ↦ leb→le (cost / units) high fits
        | inr over ↦
            let next : suc high ≤ cost / units = ground arith in
            let more = mul-le-mul_left units next in absurd (omega arith)
      ],
    )

-- What a weighted-average cost is: an error where the receipts that count, those with units and a
-- cost, are not all in one currency; nothing where there are none; and else a cost between the bounds
-- in the currency of them all.
pub data IsAverage (low high : ℕ) (receipts : List Receipt)
    : Result AnalyticsError (Option (ℤ × Option String)) → Type 0 where
  mixed :
      ((currency : String) → IsIn currency (costed receipts) → ⊥)
      → IsAverage low high receipts (err mixed_currencies)
  absent : costed receipts ≡ [] → IsAverage low high receipts (ok none)
  average :
      (wac : ℕ) (first : Receipt) (rest : List Receipt)
      → costed receipts ≡ first ∷ rest
      → IsIn first.currency_code (costed receipts)
      → low ≤ wac
      → wac ≤ high
      → IsAverage low high receipts (ok (some (pos wac, some first.currency_code)))

costing-IsAverage :
    (low high : ℕ) (receipts : List Receipt) (s : Costing) (first : Receipt) (rest : List Receipt)
    → IsCosted low high s
    → pos 0 <ℤ s.total_units
    → costed receipts ≡ first ∷ rest
    → IsIn first.currency_code (costed receipts)
    → s.currencies ≡ first.currency_code ∷ []
    → IsAverage low high receipts
        (ok (some (floor_div s.total_cost (pos_part s.total_units), first_text s.currencies)))
unfolding floor_div
costing-IsAverage low high receipts s first rest h up e one seen =
    let u = h.total_units in
    let t = h.total_cost in
    let some_units : 1 ≤ h.units = omega int_laws in
    let b = div-bounds h.cost h.units low high some_units h.above h.below in
    rw (u, t, floor_div, seen) (IsAverage.average (h.cost / h.units) first rest e one b.0 b.1)

several_currencies :
    (receipts : List Receipt) (first : Receipt) (later : List Receipt) (currency : String)
    → costed receipts ≡ first ∷ costed later
    → (IsIn first.currency_code (costed later) → ⊥)
    → IsIn currency (costed receipts)
    → ⊥
several_currencies receipts first later currency e other all =
    let split = subst (IsIn currency) e all in
    other (subst (λ c. IsIn c (costed later)) (sym (split.0)) split.1)

-- what the checks after the loop make of its end
finish :
    (low high : ℕ) (receipts : List Receipt) (s : Costing)
    → IsCosted low high s
    → IsStarted receipts s
    → IsAverage low high receipts (
        raise_if (ltb 1 (length s.currencies)) mixed_currencies
        >> (if eqb_ℤ s.total_units (pos 0)
            then ok none
            else ok
                (some (floor_div s.total_cost (pos_part s.total_units), first_text s.currencies))))
finish low high receipts s h (IsStarted.empty none_counts units seen) =
    let zero_units : eqb_ℤ s.total_units (pos 0) ≡ true = rw units refl in
    let few : ltb 1 (length s.currencies) ≡ false = rw seen refl in
    rw (few, zero_units) (IsAverage.absent none_counts)
finish low high receipts s h (IsStarted.counting first later e units (IsSeen.same one seen)) =
    let few : ltb 1 (length s.currencies) ≡ false = rw seen refl in
    let counts : eqb_ℤ s.total_units (pos 0) ≡ false = ground arith in
    rw (few, counts)
      (costing-IsAverage low high receipts s first (costed later) h units e
        (subst (IsIn first.currency_code) (sym e) (refl, one)) seen)
finish low high receipts s h (IsStarted.counting first later e units (IsSeen.several other many)) =
    let crossing : ltb 1 (length s.currencies) ≡ true = ground arith in
    rw crossing
      (IsAverage.mixed (λ currency. several_currencies receipts first later currency e other))

-- Where each cost of a receipt lies between two bounds: the weighted-average cost is refused exactly
-- where the receipts with units and a cost are not all in one currency, is absent exactly where there
-- are none, and else lies between the bounds and is in the currency of them all.
pub store_wac_minor-IsAverage :
    (low high : ℕ) (receipts : List Receipt)
    → All (IsPriced low high) receipts
    → IsAverage low high receipts (store_wac_minor receipts)
unfolding store_wac_minor
store_wac_minor-IsAverage low high receipts priced =
    let start : Costing = record { total_units = pos 0; total_cost = pos 0; currencies = [] } in
    finish low high receipts (cost_receipts receipts start)
      (cost_receipts-IsCosted low high receipts start priced (record {
        units = 0;
        cost = 0;
        total_units = refl;
        total_cost = refl;
        above = omega arith;
        below = omega arith;
      }))
      (cost_receipts-IsStarted receipts start refl refl)
