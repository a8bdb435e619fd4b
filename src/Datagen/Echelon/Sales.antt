-- ===== src/Datagen/Echelon/Sales.antt =====
-- Sales of the store echelon: `sell` of datagen/src/retail_datagen/store_inventory.py.
use retail_intelligence.Datagen.Echelon.State.{
  pending, IsPlace, IsSound, on_hand_total, on_hand_total-put, cell_at-IsCell, put-IsCovered_same,
  put-AllPlaces,
}
use retail_intelligence.Datagen.Echelon.Cells.{
  IsCell, serve-bounds, serve-IsCell, serve-in_transit, serve-on_hand, serve-eq_min,
}
use retail_intelligence.Datagen.Echelon.Flow.{serve, sell}
use retail_intelligence.Datagen.Echelon.Rows.{Echelon, cell_at}
use retail_intelligence.Datagen.Echelon.Setup.{CellKey, Setup}
use retail_intelligence.Base.Dict.{All-put}
use retail_intelligence.Base.Equality.{nat_eq, string_eq, pair_eq, option_eq}
use retail_intelligence.Base.Int.{ℤ, ◌+ℤ◌, ◌≤ℤ◌, ◌<ℤ◌, leb_ℤ, min_ℤ, lt_of_not-leb_ℤ, int_laws, pos}
use retail_intelligence.Base.{
  ℕ, ◌≡◌, refl, inl, inr, true, false, not, ◌||◌, arith, Bool-cases, or-eq_false,
}

-- What a sale does: nothing where the echelon is off or no unit is asked for.
pub record IsSold (setup : Setup) (units : ℤ) (s : Echelon) (out : (ℤ × ℤ) × Echelon) : Type 0 where
  pub sound : IsSound setup out.1
  pub served : pos 0 ≤ℤ (out.0).0
  pub short : pos 0 ≤ℤ (out.0).1
  pub balance : on_hand_total ((out.1).cells) +ℤ (out.0).0 ≡ on_hand_total s.cells
  pub kept : (out.1).arrivals ≡ s.arrivals

sell-open :
    (setup : Setup) (day : ℕ) (key : CellKey) (units : ℤ) (s : Echelon)
    → (not setup.enabled || leb_ℤ units (pos 0)) ≡ false
    → IsPlace setup key.0
    → IsSound setup s
    → IsSold setup units s (sell setup day key units s)
unfolding sell
sell-open setup day key units s go place sound =
    let asked =
      lt_of_not-leb_ℤ units (pos 0)
        ((or-eq_false (not setup.enabled) (leb_ℤ units (pos 0)) go).1) in
    let before = cell_at key s.cells in
    let out = serve units before in
    let known = cell_at-IsCell key s.cells sound.cells in
    let b = serve-bounds units before asked known in
    let write = on_hand_total-put key out.1 s.cells in
    rw go (record {
      sound = record {
        cells =
            All-put IsCell key out.1 s.cells (serve-IsCell units before asked known) sound.cells;
        covered =
            put-IsCovered_same (λ k. pending k s.arrivals) key out.1 s.cells
              (serve-in_transit units before) sound.covered;
        places = put-AllPlaces setup key out.1 s.cells place sound.places;
        orders = sound.orders;
      };
      served = b.0;
      short = let most = b.2 in omega int_laws;
      balance = let rest = serve-on_hand units before in omega int_laws;
      kept = refl;
    })

pub sell-IsSold :
    (setup : Setup) (day : ℕ) (key : CellKey) (units : ℤ) (s : Echelon)
    → IsPlace setup key.0
    → IsSound setup s
    → IsSold setup units s (sell setup day key units s)
unfolding sell
sell-IsSold setup day key units s place sound =
    elim (Bool-cases (not setup.enabled || leb_ℤ units (pos 0))) [
      | inl stop ↦ rw stop (record {
        sound = sound;
        served = omega arith;
        short = omega arith;
        balance = omega int_laws;
        kept = refl;
      })
      | inr go ↦ sell-open setup day key units s go place sound
    ]

-- In a sound state, with the echelon on and at least one unit asked for, a sale serves all that is on
-- hand or all that is asked for, whichever is less, and the rest of what is asked for is short.
pub sell-serves :
    (setup : Setup) (day : ℕ) (key : CellKey) (units : ℤ) (s : Echelon)
    → setup.enabled ≡ true
    → pos 0 <ℤ units
    → IsSound setup s
    → (((sell setup day key units s).0).0 ≡ min_ℤ (cell_at key s.cells).on_hand units)
      × (((sell setup day key units s).0).0 +ℤ ((sell setup day key units s).0).1 ≡ units)
unfolding sell
sell-serves setup day key units s on asked sound =
    let go : (not setup.enabled || leb_ℤ units (pos 0)) ≡ false = ground (arith, on) in
    let before = cell_at key s.cells in
    rw go (serve-eq_min units before (cell_at-IsCell key s.cells sound.cells), omega int_laws)
