-- ===== src/Engines/Analytics/Currencies.antt =====
-- The receipts that `store_wac_minor` of ml/src/retail_ml/engines/analytics.py counts, and the
-- currencies that it sees.
use retail_intelligence.Base.Texts.{member}
use retail_intelligence.Engines.Analytics.Defs.{
  add_text, Receipt, Costing, cost_receipt, cost_receipts,
}
use retail_intelligence.Base.Equality.{nat_eq, string_eq, ◌==◌, pair_eq, option_eq}
use retail_intelligence.Base.Int.{◌≤ℤ◌, ◌<ℤ◌, ltb_ℤ, leb_ℤ, ltb_ℤ→lt, int_laws, pos}
use retail_intelligence.Base.{
  ◌≤◌, ◌<◌, String, ◌≡◌, refl, sym, ap, ◌∙◌, inl, inr, Bool, true, false, none, some, List, [], ◌∷◌,
  arith, Bool-cases, Option-cases, length, length-append, All, select,
}
use mathlib.Core.Path.{subst}

-- A receipt with units and a cost.
abbrev pub is_costed : Receipt → Bool
is_costed r = elim r.unit_cost_minor [ none ↦ false | some cost ↦ ltb_ℤ (pos 0) r.qty ]

abbrev pub costed : List Receipt → List Receipt
costed = select is_costed

-- all of them in one currency
abbrev pub IsIn : String → List Receipt → Type 0
IsIn currency = All (λ (r : Receipt). r.currency_code ≡ currency)

-- What a receipt that counts does.
cost_receipt-costed :
    (r : Receipt) (s : Costing)
    → is_costed r ≡ true
    → ((cost_receipt r s).currencies ≡ add_text r.currency_code s.currencies)
      × (s.total_units <ℤ (cost_receipt r s).total_units)
unfolding cost_receipt
cost_receipt-costed r s e = elim (Option-cases r.unit_cost_minor) [
  | inl free ↦ let e' : false ≡ true = rw free at e in absurd (ground arith)
  | inr (cost, priced) ↦
      let some_units : ltb_ℤ (pos 0) r.qty ≡ true = rw priced at e in
      let go : leb_ℤ r.qty (pos 0) ≡ false = ground arith in
      let up = ltb_ℤ→lt (pos 0) r.qty some_units in rw (priced, go) (refl, omega int_laws)
]

cost_receipt-other : (r : Receipt) (s : Costing) → is_costed r ≡ false → cost_receipt r s ≡ s
unfolding cost_receipt
cost_receipt-other r s e = elim (Option-cases r.unit_cost_minor) [
  | inl free ↦ rw free refl
  | inr (cost, priced) ↦
      let no_units : ltb_ℤ (pos 0) r.qty ≡ false = rw priced at e in
      let stop : leb_ℤ r.qty (pos 0) ≡ true = ground arith in rw (priced, stop) refl
]

add_text-longer : (t : String) (ts : List String) → length ts ≤ length (add_text t ts)
add_text-longer t ts = elim (Bool-cases (member t ts)) [
  | inl old ↦ rw old (omega arith)
  | inr new ↦ rw (new, length-append ts (t ∷ [])) (omega arith)
]

-- No unit and no currency is lost.
cost_receipts-grows :
    (rs : List Receipt) (s : Costing)
    → (s.total_units ≤ℤ (cost_receipts rs s).total_units)
      × (length s.currencies ≤ length (cost_receipts rs s).currencies)
unfolding cost_receipts
cost_receipts-grows [] s = (omega arith, omega arith)
cost_receipts-grows (r ∷ rs) s =
    let ih = cost_receipts-grows rs (cost_receipt r s) in
    let units = ih.0 in
    let seen = ih.1 in
    elim (Bool-cases (is_costed r)) [
      | inr other ↦
          let same = cost_receipt-other r s other in
          subst
            (λ (t : Costing).
              (s.total_units ≤ℤ (cost_receipts rs t).total_units)
              × (length s.currencies ≤ length (cost_receipts rs t).currencies))
            (sym same) (cost_receipts-grows rs s)
      | inl counts ↦
          let one = cost_receipt-costed r s counts in
          let up = one.1 in
          let longer : length s.currencies ≤ length (cost_receipt r s).currencies =
            rw (one.0) (add_text-longer r.currency_code s.currencies) in
          (omega arith, omega arith)
    ]

-- After one currency: either all receipts that count have it and it is the only one seen, or one of
-- them has another and there are several.
pub data IsSeen (currency : String) (rs : List Receipt) (seen : List String) : Type 0 where
  same : IsIn currency (costed rs) → seen ≡ currency ∷ [] → IsSeen currency rs seen
  several : (IsIn currency (costed rs) → ⊥) → 1 < length seen → IsSeen currency rs seen

pub costed-other :
    (r : Receipt) (rs : List Receipt) → is_costed r ≡ false → costed (r ∷ rs) ≡ costed rs
costed-other r rs e = rw (e, select) refl

pub costed-counts :
    (r : Receipt) (rs : List Receipt) → is_costed r ≡ true → costed (r ∷ rs) ≡ r ∷ costed rs
costed-counts r rs e = rw (e, select) refl

IsSeen-other :
    (currency : String) (r : Receipt) (rs : List Receipt) (seen : List String)
    → is_costed r ≡ false
    → IsSeen currency rs seen
    → IsSeen currency (r ∷ rs) seen
IsSeen-other currency r rs seen e (IsSeen.same h one) =
    IsSeen.same (subst (IsIn currency) (sym (costed-other r rs e)) h) one
IsSeen-other currency r rs seen e (IsSeen.several h many) =
    IsSeen.several (λ all. h (subst (IsIn currency) (costed-other r rs e) all)) many

IsSeen-counts :
    (currency : String) (r : Receipt) (rs : List Receipt) (seen : List String)
    → is_costed r ≡ true
    → r.currency_code ≡ currency
    → IsSeen currency rs seen
    → IsSeen currency (r ∷ rs) seen
IsSeen-counts currency r rs seen e here (IsSeen.same h one) =
    IsSeen.same (subst (IsIn currency) (sym (costed-counts r rs e)) (here, h)) one
IsSeen-counts currency r rs seen e here (IsSeen.several h many) =
    IsSeen.several (λ all. h ((subst (IsIn currency) (costed-counts r rs e) all).1)) many

pub cost_receipts-IsSeen :
    (currency : String) (rs : List Receipt) (s : Costing)
    → s.currencies ≡ currency ∷ []
    → IsSeen currency rs (cost_receipts rs s).currencies
unfolding cost_receipts
cost_receipts-IsSeen currency [] s e = IsSeen.same tt e
cost_receipts-IsSeen currency (r ∷ rs) s e = elim (Bool-cases (is_costed r)) [
  | inr other ↦
      let same_state : (cost_receipt r s).currencies ≡ currency ∷ [] =
        ap (λ (t : Costing). t.currencies) (cost_receipt-other r s other) ∙ e in
      IsSeen-other currency r rs _ other
        (cost_receipts-IsSeen currency rs (cost_receipt r s) same_state)
  | inl counts ↦
      let added : (cost_receipt r s).currencies ≡ add_text r.currency_code (currency ∷ []) =
        (cost_receipt-costed r s counts).0 ∙ ap (add_text r.currency_code) e in
      elim (Bool-cases (currency == r.currency_code)) [
        | inl again ↦
            let still : (cost_receipt r s).currencies ≡ currency ∷ [] = rw again at added in
            let here = sym ((string_eq.is_eq_iff currency r.currency_code).0 again) in
            IsSeen-counts currency r rs _ counts here
              (cost_receipts-IsSeen currency rs (cost_receipt r s) still)
        | inr new ↦
            let two : (cost_receipt r s).currencies ≡ currency ∷ r.currency_code ∷ [] =
              rw new at added in
            let grown = (cost_receipts-grows rs (cost_receipt r s)).1 in
            let length_two : length (cost_receipt r s).currencies ≡ 2 = rw two refl in
            IsSeen.several
              (λ all.
                let here : r.currency_code ≡ currency =
                  (subst (IsIn currency) (costed-counts r rs counts) all).0 in
                absurd (
                  ground (arith, new, (string_eq.is_eq_iff currency r.currency_code).1 (sym here))))
              (omega arith)
      ]
]

-- What the loop gives from its start: nothing where no receipt counts, and else some units, with the
-- currencies seen after that of the first receipt that counts.
pub data IsStarted (rs : List Receipt) (end : Costing) : Type 0 where
  empty : costed rs ≡ [] → end.total_units ≡ pos 0 → end.currencies ≡ [] → IsStarted rs end
  counting :
      (first : Receipt) (later : List Receipt)
      → costed rs ≡ first ∷ costed later
      → pos 0 <ℤ end.total_units
      → IsSeen first.currency_code later end.currencies
      → IsStarted rs end

IsStarted-other :
    (r : Receipt) (rs : List Receipt) (end : Costing)
    → is_costed r ≡ false
    → IsStarted rs end
    → IsStarted (r ∷ rs) end
IsStarted-other r rs end e (IsStarted.empty h units seen) =
    IsStarted.empty (costed-other r rs e ∙ h) units seen
IsStarted-other r rs end e (IsStarted.counting first later h units seen) =
    IsStarted.counting first later (costed-other r rs e ∙ h) units seen

pub cost_receipts-IsStarted :
    (rs : List Receipt) (s : Costing)
    → s.total_units ≡ pos 0
    → s.currencies ≡ []
    → IsStarted rs (cost_receipts rs s)
unfolding cost_receipts
cost_receipts-IsStarted [] s units seen = IsStarted.empty refl units seen
cost_receipts-IsStarted (r ∷ rs) s units seen = elim (Bool-cases (is_costed r)) [
  | inr other ↦
      let same_state = cost_receipt-other r s other in
      IsStarted-other r rs _ other (
        subst (λ t. IsStarted rs (cost_receipts rs t)) (sym same_state)
          (cost_receipts-IsStarted rs s units seen))
  | inl counts ↦
      let one = cost_receipt-costed r s counts in
      let up = one.1 in
      let grown = (cost_receipts-grows rs (cost_receipt r s)).0 in
      IsStarted.counting r rs (costed-counts r rs counts) (omega int_laws) (
        cost_receipts-IsSeen r.currency_code rs (cost_receipt r s)
          (one.0 ∙ ap (add_text r.currency_code) seen))
]
