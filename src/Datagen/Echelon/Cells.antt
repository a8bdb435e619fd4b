-- ===== src/Datagen/Echelon/Cells.antt =====
-- Sound cells of the store echelon of datagen/src/retail_datagen/store_inventory.py, and what each
-- operation does to one cell.
use retail_intelligence.Datagen.Echelon.Flow.{arrive, serve, waste}
use retail_intelligence.Datagen.Echelon.Setup.{Cell, new_cell}
use retail_intelligence.Base.Equality.{nat_eq, string_eq, pair_eq, option_eq}
use retail_intelligence.Base.Int.{
  ℤ, ◌+ℤ◌, ◌-ℤ◌, ◌≤ℤ◌, ◌<ℤ◌, eqb_ℤ, min_ℤ, max_ℤ, min_ℤ_bounds, le-min_ℤ, max_ℤ_bounds, max_ℤ-le,
  eqb_ℤ_iff, int_laws, max_ℤ-eq, pos,
}
use retail_intelligence.Base.{
  ℕ, ◌≡◌, refl, ap, ◌↔◌, inl, inr, Option, none, some, arith, if◌then◌else◌, Bool-cases,
}

-- No count is negative, nothing is committed or damaged, and the receipt day of the oldest stock is
-- known just where there is stock.
pub record IsCell (c : Cell) : Type 0 where
  pub stock : pos 0 ≤ℤ c.on_hand
  pub transit : pos 0 ≤ℤ c.in_transit
  pub uncommitted : c.committed ≡ pos 0
  pub undamaged : c.damaged ≡ pos 0
  pub dated : (c.oldest_receipt_day ≡ none) ↔ (c.on_hand ≡ pos 0)

pub new_cell-IsCell : IsCell new_cell
new_cell-IsCell = record {
  stock = omega arith;
  transit = omega arith;
  uncommitted = refl;
  undamaged = refl;
  dated = (λ _. refl, λ _. refl);
}

-- a receipt day that is kept while stock is left
abbrev kept_day : Option ℕ → ℤ → Option ℕ
kept_day d left = if eqb_ℤ left (pos 0) then none else d

kept_day-dated :
    (d : Option ℕ) (left : ℤ)
    → (d ≡ none → left ≡ pos 0)
    → (kept_day d left ≡ none) ↔ (left ≡ pos 0)
kept_day-dated d left h = elim (Bool-cases (eqb_ℤ left (pos 0))) [
  | inl e ↦ let z = (eqb_ℤ_iff left (pos 0)).0 e in rw e (λ _. z, λ _. refl)
  | inr e ↦ rw e (h, λ z. absurd (ground (arith, (eqb_ℤ_iff left (pos 0)).1 z, e)))
]

pub arrive-IsCell :
    (day : ℕ) (quantity : ℤ) (c : Cell)
    → pos 0 <ℤ quantity
    → IsCell c
    → IsCell (arrive day quantity c)
unfolding arrive
arrive-IsCell day quantity c q h =
    let s = h.stock in
    record {
      stock = omega int_laws;
      transit = (max_ℤ_bounds (pos 0) (c.in_transit -ℤ quantity)).0;
      uncommitted = h.uncommitted;
      undamaged = h.undamaged;
      dated = (λ e. absurd (ground arith), λ z. absurd (omega int_laws));
    }

-- What is served is not negative and no more than what is there.
pub serve-bounds :
    (units : ℤ) (c : Cell)
    → pos 0 <ℤ units
    → IsCell c
    → (pos 0 ≤ℤ (serve units c).0) × ((serve units c).0 ≤ℤ c.on_hand) × ((serve units c).0 ≤ℤ units)
unfolding serve
serve-bounds units c u h =
    let a = max_ℤ (pos 0) (c.on_hand -ℤ c.damaged) in
    let b = min_ℤ_bounds a units in
    let s = h.stock in
    let d = h.undamaged in
    let low =
      le-min_ℤ a units (pos 0) ((max_ℤ_bounds (pos 0) (c.on_hand -ℤ c.damaged)).0) (omega arith) in
    let high : a ≤ℤ c.on_hand =
      max_ℤ-le (pos 0) (c.on_hand -ℤ c.damaged) c.on_hand s (omega int_laws) in
    (low, omega (arith, b.0, high), b.1)

pub serve-IsCell : (units : ℤ) (c : Cell) → pos 0 <ℤ units → IsCell c → IsCell ((serve units c).1)
unfolding serve
serve-IsCell units c u h =
    let served = (serve units c).0 in
    let left = c.on_hand -ℤ served in
    let b = serve-bounds units c u h in
    record {
      stock = omega (int_laws, b.1);
      transit = h.transit;
      uncommitted = h.uncommitted;
      undamaged = h.undamaged;
      dated =
          kept_day-dated c.oldest_receipt_day left
            (λ e. let z = h.dated.0 e in omega (int_laws, b.0, b.1));
    }

pub waste-IsCell :
    (day : ℕ) (units : ℤ) (c : Cell) → units ≤ℤ c.on_hand → IsCell c → IsCell (waste day units c)
unfolding waste
waste-IsCell day units c u h =
    let left = c.on_hand -ℤ units in
    record {
      stock = omega int_laws;
      transit = h.transit;
      uncommitted = h.uncommitted;
      undamaged = h.undamaged;
      dated = kept_day-dated (some day) left (λ e. absurd (ground (arith, e)));
    }

pub serve-in_transit : (units : ℤ) (c : Cell) → ((serve units c).1).in_transit ≡ c.in_transit
unfolding serve
serve-in_transit units c = refl

pub serve-on_hand :
    (units : ℤ) (c : Cell) → ((serve units c).1).on_hand +ℤ (serve units c).0 ≡ c.on_hand
unfolding serve
serve-on_hand units c = omega int_laws

pub waste-in_transit :
    (day : ℕ) (units : ℤ) (c : Cell) → (waste day units c).in_transit ≡ c.in_transit
unfolding waste
waste-in_transit day units c = refl

pub waste-on_hand :
    (day : ℕ) (units : ℤ) (c : Cell) → (waste day units c).on_hand +ℤ units ≡ c.on_hand
unfolding waste
waste-on_hand day units c = omega int_laws

pub serve-eq_min : (units : ℤ) (c : Cell) → IsCell c → (serve units c).0 ≡ min_ℤ c.on_hand units
unfolding serve
serve-eq_min units c h =
    let undamaged = h.undamaged in
    ap (λ a. min_ℤ a units) (max_ℤ-eq c.on_hand (c.on_hand -ℤ c.damaged) h.stock (omega int_laws))
