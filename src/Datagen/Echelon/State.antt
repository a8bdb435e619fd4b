-- ===== src/Datagen/Echelon/State.antt =====
-- What holds of every state of the store echelon of
-- datagen/src/retail_datagen/store_inventory.py, and the totals that its operations balance.
use retail_intelligence.Datagen.Echelon.Cells.{IsCell, new_cell-IsCell}
use retail_intelligence.Datagen.Echelon.Flow.{Cells, transfer_key, remove_day, key_le, sorted_keys}
use retail_intelligence.Datagen.Echelon.Rows.{index_of, Transfer, Echelon, cell_at}
use retail_intelligence.Datagen.Echelon.Setup.{Cell, new_cell, Market, Store, CellKey, Setup}
use retail_intelligence.Base.Result.{ok}
use retail_intelligence.Base.Sort.{All-sort_by}
use retail_intelligence.Base.Dict.{Dict, put, get_or, get_or-put, All-get_or, total, total-put}
use retail_intelligence.Base.Equality.{
  nat_eq, string_eq, ◌==◌, pair_beq_iff, pair_eq, option_eq, beq_refl,
}
use retail_intelligence.Base.Int.{ℤ, ◌+ℤ◌, ◌≤ℤ◌, ◌<ℤ◌, int_laws, pos}
use retail_intelligence.Base.{
  ℕ, String, ◌≡◌, refl, ◌⊎◌, inl, inr, true, false, List, [], ◌∷◌, ◌++◌, map, arith, if◌then◌else◌,
  Bool-cases, All,
}
use mathlib.Core.Path.{subst}

-- the units of a cell's transfers among some transfers
abbrev pub due_units : CellKey → List Transfer → ℤ
due_units k [] = pos 0
due_units k (t ∷ ts) = (if transfer_key t == k then t.quantity else pos 0) +ℤ due_units k ts

-- the units of a cell that are still to arrive
abbrev pub pending : CellKey → Dict ℕ (List Transfer) → ℤ
pending k arrivals = total (due_units k) arrivals

-- the transfer is in the list
abbrev pub IsIn : Transfer → List Transfer → Type 0
IsIn t [] = ⊥
IsIn t (u ∷ us) = (u ≡ t) ⊎ IsIn t us

-- the transfer arrives on the day
abbrev pub IsDue : ℕ → Transfer → Echelon → Type 0
IsDue day t s = IsIn t (get_or day [] s.arrivals)

-- A store that is configured, and its market.
pub record IsPlace (setup : Setup) (store_id : String) : Type 0 where
  pub store : Store
  pub market : Market
  pub store_known : index_of store_id setup.stores ≡ ok store
  pub market_known : index_of store.market_id setup.markets ≡ ok market

-- An order is of at least one unit, for a store and a market that are configured.
pub record IsOrder (setup : Setup) (t : Transfer) : Type 0 where
  pub positive : pos 0 <ℤ t.quantity
  pub place : IsPlace setup t.store_key
  pub market : Market
  pub known : index_of t.market_key setup.markets ≡ ok market

abbrev pub AllPlaces : Setup → Cells → Type 0
AllPlaces setup cells = All (λ (p : CellKey × Cell). IsPlace setup ((p.0).0)) cells

abbrev pub AllCells : Cells → Type 0
AllCells cells = All (λ (p : CellKey × Cell). IsCell p.1) cells

-- Each transfer that is still to arrive is among the units in transit of its cell.
abbrev pub IsCovered : (CellKey → ℤ) → Cells → Type 0
IsCovered due cells = (k : CellKey) → due k ≤ℤ (cell_at k cells).in_transit

pub record IsSound (setup : Setup) (s : Echelon) : Type 0 where
  pub cells : AllCells s.cells
  pub covered : IsCovered (λ k. pending k s.arrivals) s.cells
  pub places : AllPlaces setup s.cells
  pub orders : All (λ (p : ℕ × List Transfer). All (IsOrder setup) p.1) s.arrivals

abbrev pub on_hand_total : Cells → ℤ
on_hand_total cells = total (λ c. c.on_hand) cells

-- A write moves the stock on hand by the change of its cell.
pub on_hand_total-put :
    (k : CellKey) (c : Cell) (cells : Cells)
    → on_hand_total (put k c cells) +ℤ (cell_at k cells).on_hand ≡ on_hand_total cells +ℤ c.on_hand
on_hand_total-put k c cells = total-put (λ c. c.on_hand) k new_cell c cells refl

pub cell_at-IsCell : (k : CellKey) (cells : Cells) → AllCells cells → IsCell (cell_at k cells)
cell_at-IsCell k cells h = All-get_or IsCell k new_cell cells new_cell-IsCell h

-- A write whose cell has enough units in transit keeps every cell covered.
pub put-IsCovered :
    (due later : CellKey → ℤ) (k : CellKey) (c : Cell) (cells : Cells)
    → ((j : CellKey) → (k == j) ≡ false → later j ≤ℤ due j)
    → later k ≤ℤ c.in_transit
    → IsCovered due cells
    → IsCovered later (put k c cells)
put-IsCovered due later k c cells less enough h j = elim (Bool-cases (k == j)) [
  | inl same ↦
      let self : (k == k) ≡ true = beq_refl k in
      subst (λ i. later i ≤ℤ (cell_at i (put k c cells)).in_transit) ((pair_beq_iff k j).0 same)
        (rw (get_or-put k k new_cell c cells, self) enough)
  | inr other ↦ rw (get_or-put k j new_cell c cells, other) (omega (arith, less j other, h j))
]

-- A write that leaves the units in transit keeps every cell covered.
pub put-IsCovered_same :
    (due : CellKey → ℤ) (k : CellKey) (c : Cell) (cells : Cells)
    → c.in_transit ≡ (cell_at k cells).in_transit
    → IsCovered due cells
    → IsCovered due (put k c cells)
put-IsCovered_same due k c cells e h =
    put-IsCovered due due k c cells (λ j other. omega arith) (rw e (h k)) h

pub put-AllPlaces :
    (setup : Setup) (k : CellKey) (c : Cell) (cells : Cells)
    → IsPlace setup k.0
    → AllPlaces setup cells
    → AllPlaces setup (put k c cells)
unfolding put
put-AllPlaces setup k c [] place h = (place, tt)
put-AllPlaces setup k c ((j, d) ∷ cells) place h = elim (Bool-cases (j == k)) [
  | inl same ↦ rw same h
  | inr other ↦ rw other (h.0, put-AllPlaces setup k c cells place h.1)
]

due_units-append :
    (k : CellKey) (ts us : List Transfer)
    → due_units k (ts ++ us) ≡ due_units k ts +ℤ due_units k us
due_units-append k [] us = omega int_laws
due_units-append k (t ∷ ts) us = let ih = due_units-append k ts us in omega int_laws

-- What is received on a day no longer is to arrive.
pub pending-remove_day :
    (k : CellKey) (day : ℕ) (arrivals : Dict ℕ (List Transfer))
    → pending k arrivals
      ≡ due_units k (get_or day [] arrivals) +ℤ pending k (remove_day day arrivals)
unfolding get_or remove_day
pending-remove_day k day [] = omega int_laws
pending-remove_day k day ((d, ts) ∷ arrivals) = elim (Bool-cases (d == day)) [
  | inl same ↦ rw same refl
  | inr other ↦ let ih = pending-remove_day k day arrivals in rw other (omega int_laws)
]

-- A new order adds to what is to arrive at its cell.
pub pending-put :
    (k : CellKey) (day : ℕ) (t : Transfer) (arrivals : Dict ℕ (List Transfer))
    → pending k (put day (get_or day [] arrivals ++ t ∷ []) arrivals)
      ≡ pending k arrivals +ℤ (if transfer_key t == k then t.quantity else pos 0)
pending-put k day t arrivals =
    let p = total-put (due_units k) day [] (get_or day [] arrivals ++ t ∷ []) arrivals refl in
    let a = due_units-append k (get_or day [] arrivals) (t ∷ []) in omega int_laws

keys-AllPlaces :
    (setup : Setup) (cells : Cells)
    → AllPlaces setup cells
    → All (λ (k : CellKey). IsPlace setup k.0) (map (λ p. p.0) cells)
keys-AllPlaces setup [] h = tt
keys-AllPlaces setup (p ∷ cells) h = (h.0, keys-AllPlaces setup cells h.1)

pub sorted_keys-AllPlaces :
    (setup : Setup) (cells : Cells)
    → AllPlaces setup cells
    → All (λ (k : CellKey). IsPlace setup k.0) (sorted_keys cells)
unfolding sorted_keys
sorted_keys-AllPlaces setup cells h =
    All-sort_by key_le (λ (k : CellKey). IsPlace setup k.0) (map (λ p. p.0) cells)
      (keys-AllPlaces setup cells h)
