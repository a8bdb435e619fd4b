-- ===== src/Datagen/Echelon/Openings.antt =====
-- Opening stock: `seed_opening` of datagen/src/retail_datagen/store_inventory.py.
use retail_intelligence.Decimal.{Decimal}
use retail_intelligence.Datagen.Echelon.Configured.{
  IsStore, IsSetup, store-IsPlace, lane_for-eq_ok, all_stores,
}
use retail_intelligence.Datagen.Echelon.State.{
  AllPlaces, AllCells, IsSound, cell_at-IsCell, put-AllPlaces,
}
use retail_intelligence.Datagen.Echelon.Cells.{IsCell}
use retail_intelligence.Datagen.Echelon.Flow.{
  Cells, opening_units, open_cell, seed_variant, seed_variants, seed_stores, seed_opening,
}
use retail_intelligence.Datagen.Echelon.Rows.{Echelon, new_echelon, cell_at, is_active}
use retail_intelligence.Datagen.Echelon.Setup.{Cell, Store, Variant, CellKey, Setup}
use retail_intelligence.Base.Result.{◌>>=◌, ok}
use retail_intelligence.Base.Dict.{Dict, All-put}
use retail_intelligence.Base.Equality.{nat_eq, string_eq, pair_eq, option_eq}
use retail_intelligence.Base.Int.{ℤ, ◌≤ℤ◌, eqb_ℤ, max_ℤ_bounds, eqb_ℤ_iff, pos}
use retail_intelligence.Base.{
  ℕ, String, ◌≡◌, refl, inl, inr, true, false, not, ◌||◌, List, [], ◌∷◌, map, arith, Bool-cases,
  or-eq_false, guard-passed, All,
}

-- The cells before any order.
pub record IsOpening (setup : Setup) (d : Cells) : Type 0 where
  pub cells : AllCells d
  pub places : AllPlaces setup d

open_cell-IsCell :
    (start : ℕ) (opening : ℤ) (c : Cell)
    → pos 0 ≤ℤ opening
    → eqb_ℤ opening (pos 0) ≡ false
    → IsCell c
    → IsCell (open_cell start opening c)
unfolding open_cell
open_cell-IsCell start opening c low other h = record {
  stock = low;
  transit = h.transit;
  uncommitted = h.uncommitted;
  undamaged = h.undamaged;
  dated = (
    λ e. absurd (ground arith),
    λ z. absurd (ground (arith, (eqb_ℤ_iff opening (pos 0)).1 z, other)),
  );
}

opening_units-nonneg :
    (digest : String → ℕ) (setup : Setup) (rates : Dict CellKey Decimal)
    (store_id warehouse_id sku : String)
    → pos 0 ≤ℤ opening_units digest setup rates store_id warehouse_id sku
unfolding opening_units
opening_units-nonneg digest setup rates store_id warehouse_id sku = (max_ℤ_bounds (pos 0) _).0

module _ (digest : String → ℕ) (setup : Setup) (rates : Dict CellKey Decimal) where
  seed_variant-IsOpening :
      (store : Store) (warehouse_id : String) (v : Variant) (cells : Cells)
      → IsStore setup store
      → IsOpening setup cells
      → IsOpening setup (seed_variant digest setup rates store.store_id warehouse_id v cells)
  unfolding seed_variant
  seed_variant-IsOpening store warehouse_id v cells known h =
      let opening = opening_units digest setup rates store.store_id warehouse_id v.sku in
      let key : CellKey = (store.store_id, v.sku) in
      let c = cell_at key cells in
      let idle = not (is_active setup key setup.start) in
      elim (Bool-cases (idle || eqb_ℤ opening (pos 0))) [
        | inl stop ↦ rw stop h
        | inr go ↦ rw go (record {
          cells =
              All-put IsCell key (open_cell setup.start opening c) cells
                (open_cell-IsCell setup.start opening c
                  (opening_units-nonneg digest setup rates store.store_id warehouse_id v.sku)
                  ((or-eq_false idle (eqb_ℤ opening (pos 0)) go).1)
                  (cell_at-IsCell key cells h.cells))
                h.cells;
          places =
              put-AllPlaces setup key (open_cell setup.start opening c) cells
                (store-IsPlace setup store known) h.places;
        })
      ]

  seed_variants-IsOpening :
      (store : Store) (warehouse_id : String) (vs : List Variant) (cells : Cells)
      → IsStore setup store
      → IsOpening setup cells
      → IsOpening setup (seed_variants digest setup rates store.store_id warehouse_id vs cells)
  unfolding seed_variants
  seed_variants-IsOpening store warehouse_id [] cells known h = h
  seed_variants-IsOpening store warehouse_id (v ∷ vs) cells known h =
      seed_variants-IsOpening store warehouse_id vs
        (seed_variant digest setup rates store.store_id warehouse_id v cells) known
        (seed_variant-IsOpening store warehouse_id v cells known h)

  seed_stores-IsOpening :
      (stores : List Store) (cells : Cells)
      → All (IsStore setup) stores
      → IsOpening setup cells
      → (out : Cells) × (seed_stores digest setup rates stores cells ≡ ok out) × IsOpening setup out
  unfolding seed_stores
  seed_stores-IsOpening [] cells known h = (cells, refl, h)
  seed_stores-IsOpening (store ∷ stores) cells known h =
      let k = known.0 in
      let n =
        seed_stores-IsOpening stores
          (seed_variants digest setup rates store.store_id k.warehouse k.variants cells) known.1
          (seed_variants-IsOpening store k.warehouse k.variants cells k h) in
      rw (lane_for-eq_ok setup store k, k.stocked, n.1) (_, refl, n.2)

  opening-IsSound :
      (cells : Cells) → IsOpening setup cells → IsSound setup (record new_echelon { cells = cells })
  opening-IsSound cells h = record {
    cells = h.cells;
    covered = λ k. (cell_at-IsCell k cells h.cells).transit;
    places = h.places;
    orders = tt;
  }

  seed_opening-on :
      (s : Echelon)
      → setup.enabled ≡ true
      → seed_opening digest setup rates s ≡ (
          seed_stores digest setup rates (map (λ p. p.1) setup.stores) s.cells >>= λ cells.
          ok (record s { cells = cells }))
  unfolding seed_opening
  seed_opening-on s on = guard-passed setup.enabled _ _ on

  seed_opening-off :
      (s : Echelon) → setup.enabled ≡ false → seed_opening digest setup rates s ≡ ok s
  unfolding seed_opening
  seed_opening-off s off = rw off refl

  pub seed_opening-IsSound :
      IsSetup setup
      → (s : Echelon) × (seed_opening digest setup rates new_echelon ≡ ok s) × IsSound setup s
  seed_opening-IsSound known =
      let none_yet : IsOpening setup [] = record { cells = tt; places = tt } in
      let r =
        seed_stores-IsOpening (map (λ p. p.1) setup.stores) [] (all_stores setup known) none_yet in
      elim (Bool-cases setup.enabled) [
        | inr off ↦ rw (seed_opening-off new_echelon off) (_, refl, opening-IsSound [] none_yet)
        | inl on ↦ rw (seed_opening-on new_echelon on, r.1) (_, refl, opening-IsSound r.0 r.2)
      ]
