-- ===== src/Datagen/Echelon/Expiry.antt =====
-- Expiry in the store echelon: `expire` of datagen/src/retail_datagen/store_inventory.py.
use retail_intelligence.Datagen.Echelon.State.{
  pending, IsPlace, AllPlaces, AllCells, IsCovered, IsSound, on_hand_total, on_hand_total-put,
  cell_at-IsCell, put-IsCovered_same, put-AllPlaces, sorted_keys-AllPlaces,
}
use retail_intelligence.Datagen.Echelon.Cells.{
  IsCell, waste-IsCell, waste-in_transit, waste-on_hand,
}
use retail_intelligence.Datagen.Echelon.Flow.{
  Cells, expired_units, waste, sorted_keys, expire_all, expire,
}
use retail_intelligence.Datagen.Echelon.Rows.{WasteEvent, Echelon, cell_at}
use retail_intelligence.Datagen.Echelon.Setup.{CellKey, Setup}
use retail_intelligence.Base.Result.{◌>>=◌, ok}
use retail_intelligence.Base.Dict.{get, put, All-put}
use retail_intelligence.Base.Equality.{nat_eq, string_eq, pair_eq, option_eq}
use retail_intelligence.Base.Int.{
  ℤ, ◌+ℤ◌, floor_div, ◌≤ℤ◌, ◌<ℤ◌, leb_ℤ, min_ℤ, max_ℤ, lt_of_not-leb_ℤ, min_ℤ_bounds, le-min_ℤ,
  max_ℤ_bounds, int_laws, pos,
}
use retail_intelligence.Base.{
  ℕ, ◌+◌, ◌≡◌, refl, inl, inr, true, false, ◌||◌, Option, none, some, List, [], ◌∷◌, arith, ltb,
  Bool-cases, Option-cases, or-eq_false, guard-passed, All,
}
use mathlib.Core.Path.{subst}

abbrev pub wasted_units : List WasteEvent → ℤ
wasted_units [] = pos 0
wasted_units (e ∷ events) = e.units +ℤ wasted_units events

-- What expires of a sound cell: at least one unit, and no more than there are.
expired_units-bounds :
    (day : ℕ) (life oldest : Option ℕ) (on_hand wasted : ℤ)
    → expired_units day life oldest on_hand ≡ some wasted
    → (pos 0 <ℤ wasted) × (wasted ≤ℤ on_hand)
unfolding expired_units
expired_units-bounds day (some life) (some oldest) on_hand wasted e =
    elim (Bool-cases (leb_ℤ on_hand (pos 0) || ltb day (oldest + life))) [
      | inl stop ↦ let e' : none ≡ some wasted = rw stop at e in absurd (ground arith)
      | inr go ↦
          let aged = max_ℤ (pos 1) (floor_div on_hand 4) in
          let e' : some (min_ℤ aged on_hand) ≡ some wasted = rw go at e in
          let same : min_ℤ aged on_hand ≡ wasted = cc in
          let there =
            lt_of_not-leb_ℤ on_hand (pos 0)
              ((or-eq_false (leb_ℤ on_hand (pos 0)) (ltb day (oldest + life)) go).0) in
          let low =
            le-min_ℤ aged on_hand (pos 1) ((max_ℤ_bounds (pos 1) (floor_div on_hand 4)).0)
              (omega arith) in
          let high = (min_ℤ_bounds aged on_hand).1 in
          subst (λ w. (pos 0 <ℤ w) × (w ≤ℤ on_hand)) same (omega arith, high)
    ]
expired_units-bounds day none oldest on_hand wasted e = absurd (ground arith)
expired_units-bounds day (some life) none on_hand wasted e = absurd (ground arith)

-- What the expiry of a day leaves of the cells.
pub record IsExpired (setup : Setup) (due : CellKey → ℤ) (cells : Cells)
    (out : List WasteEvent × Cells) : Type 0 where
  pub sound : AllCells out.1
  pub places : AllPlaces setup out.1
  pub covered : IsCovered due out.1
  pub balance : on_hand_total out.1 +ℤ wasted_units out.0 ≡ on_hand_total cells
  pub events : All (λ (e : WasteEvent). pos 0 <ℤ e.units) out.0

pub expire_all-IsExpired :
    (setup : Setup) (day : ℕ) (due : CellKey → ℤ) (keys : List CellKey) (cells : Cells)
    → All (λ (k : CellKey). IsPlace setup k.0) keys
    → AllCells cells
    → AllPlaces setup cells
    → IsCovered due cells
    → (out : List WasteEvent × Cells) × (expire_all setup day keys cells ≡ ok out)
      × IsExpired setup due cells out
unfolding expire_all
expire_all-IsExpired setup day due [] cells known sound places covered = (
  ([], cells),
  refl,
  record {
    sound = sound;
    places = places;
    covered = covered;
    balance = omega int_laws;
    events = tt;
  },
)
expire_all-IsExpired setup day due (key ∷ keys) cells known sound places covered =
    let c = cell_at key cells in
    elim (Option-cases
      (expired_units day (get key.1 setup.shelf_life) c.oldest_receipt_day c.on_hand)) [
        | inl e ↦
            rw (e, expire_all)
              (expire_all-IsExpired setup day due keys cells known.1 sound places covered)
        | inr found ↦
            let wasted = found.0 in
            let e = found.1 in
            let place = known.0 in
            let there =
              expired_units-bounds day (get key.1 setup.shelf_life) c.oldest_receipt_day c.on_hand
                wasted e in
            let left = waste day wasted c in
            let ih =
              expire_all-IsExpired setup day due keys (put key left cells) known.1
                (All-put IsCell key left cells
                  (waste-IsCell day wasted c there.1 (cell_at-IsCell key cells sound)) sound)
                (put-AllPlaces setup key left cells place places)
                (put-IsCovered_same due key left cells (waste-in_transit day wasted c) covered) in
            let f = ih.2 in
            rw (e, expire_all, place.store_known, place.market_known, ih.1)
              (
                _,
                refl,
                record {
                  sound = f.sound;
                  places = f.places;
                  covered = f.covered;
                  balance =
                      let write = on_hand_total-put key left cells in
                      let rest = waste-on_hand day wasted c in let b = f.balance in omega int_laws;
                  events = (there.0, f.events);
                },
              )
      ]

expire-on :
    (setup : Setup) (day : ℕ) (s : Echelon)
    → setup.enabled ≡ true
    → expire setup day s ≡ (
        expire_all setup day (sorted_keys s.cells) s.cells >>= λ out.
        ok (out.0, record s { cells = out.1 }))
unfolding expire
expire-on setup day s on = guard-passed setup.enabled _ _ on

expire-off :
    (setup : Setup) (day : ℕ) (s : Echelon)
    → setup.enabled ≡ false
    → expire setup day s ≡ ok ([], s)
unfolding expire
expire-off setup day s off = rw off refl

-- The expiry of a day of a sound state.
pub expire-IsSound :
    (setup : Setup) (day : ℕ) (s : Echelon)
    → IsSound setup s
    → (out : List WasteEvent × Echelon) × (expire setup day s ≡ ok out)
      × IsSound setup out.1
      × (on_hand_total (out.1).cells +ℤ wasted_units out.0 ≡ on_hand_total s.cells)
      × ((out.1).arrivals ≡ s.arrivals)
expire-IsSound setup day s sound = elim (Bool-cases setup.enabled) [
  | inr off ↦ rw (expire-off setup day s off) (([], s), refl, sound, omega int_laws, refl)
  | inl on ↦
      let r =
        expire_all-IsExpired setup day (λ k. pending k s.arrivals) (sorted_keys s.cells) s.cells
          (sorted_keys-AllPlaces setup s.cells sound.places) sound.cells sound.places
          sound.covered in
      let f = r.2 in
      rw (expire-on setup day s on, r.1)
        (
          _,
          refl,
          record { cells = f.sound; covered = f.covered; places = f.places; orders = sound.orders },
          f.balance,
          refl,
        )
]
