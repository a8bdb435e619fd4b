-- ===== src/Datagen/Echelon/Snapshots.antt =====
-- Snapshots of the store echelon: `snapshot` of datagen/src/retail_datagen/store_inventory.py.
use retail_intelligence.Datagen.Echelon.Shown.{
  SameStock-refl, mark_residual-SameStock, Agree, put-Agree, row_key, is_listed, IsShown,
  snapshot_row-IsShown, is_shown-eq_listed,
}
use retail_intelligence.Datagen.Echelon.Configured.{IsSetup}
use retail_intelligence.Datagen.Echelon.Publish.{
  mark_residual, snapshot_row, is_shown, snapshot_all, is_snapshot_day, snapshot,
}
use retail_intelligence.Datagen.Echelon.State.{
  pending, IsPlace, AllPlaces, AllCells, IsCovered, IsSound, on_hand_total, on_hand_total-put,
  cell_at-IsCell, put-IsCovered_same, put-AllPlaces, sorted_keys-AllPlaces,
}
use retail_intelligence.Datagen.Echelon.Cells.{IsCell}
use retail_intelligence.Datagen.Echelon.Flow.{Cells, sorted_keys}
use retail_intelligence.Datagen.Echelon.Rows.{SnapshotRow, Echelon, cell_at, is_active}
use retail_intelligence.Datagen.Echelon.Setup.{EchelonError, Cell, CellKey, Setup, zero_division}
use retail_intelligence.Base.Result.{Result, ◌>>=◌, ◌>>◌, raise_if, ok}
use retail_intelligence.Base.Dict.{put, All-put}
use retail_intelligence.Base.Equality.{nat_eq, string_eq, pair_eq, option_eq}
use retail_intelligence.Base.Int.{ℤ, int_laws}
use retail_intelligence.Base.{
  ℕ, ◌≡◌, refl, sym, ap, ◌∙◌, inl, inr, Bool, true, false, not, ◌&&◌, List, [], ◌∷◌, map, arith,
  eqb, if◌then◌else◌, Bool-cases, guard-passed, All, select, select-take, select-skip,
}

mark_residual-IsCell :
    (active : Bool) (day : ℕ) (c : Cell) → IsCell c → IsCell (mark_residual active day c)
unfolding mark_residual
mark_residual-IsCell active day c h = record {
  stock = h.stock;
  transit = h.transit;
  uncommitted = h.uncommitted;
  undamaged = h.undamaged;
  dated = h.dated;
}

mark_residual-in_transit :
    (active : Bool) (day : ℕ) (c : Cell) → (mark_residual active day c).in_transit ≡ c.in_transit
unfolding mark_residual
mark_residual-in_transit active day c = refl

mark_residual-on_hand :
    (active : Bool) (day : ℕ) (c : Cell) → (mark_residual active day c).on_hand ≡ c.on_hand
unfolding mark_residual
mark_residual-on_hand active day c = refl

-- What a snapshot of some keys gives, where the cells agree with those of an earlier state: a row for
-- each listed key, in their order, that says what the earlier state holds.
pub record IsSnapshot (setup : Setup) (day : ℕ) (due : CellKey → ℤ) (origin : Cells)
    (keys : List CellKey) (cells : Cells) (out : List SnapshotRow × Cells) : Type 0 where
  pub sound : AllCells out.1
  pub places : AllPlaces setup out.1
  pub covered : IsCovered due out.1
  pub balance : on_hand_total out.1 ≡ on_hand_total cells
  pub rows : All (IsShown setup day origin) out.0
  pub listed : map row_key out.0 ≡ select (is_listed setup day origin) keys
  pub agrees : Agree out.1 origin

pub snapshot_all-IsSnapshot :
    (setup : Setup) (day : ℕ) (due : CellKey → ℤ) (origin : Cells) (keys : List CellKey)
    (cells : Cells)
    → All (λ (k : CellKey). IsPlace setup k.0) keys
    → AllCells cells
    → AllPlaces setup cells
    → IsCovered due cells
    → Agree cells origin
    → (out : List SnapshotRow × Cells) × (snapshot_all setup day keys cells ≡ ok out)
      × IsSnapshot setup day due origin keys cells out
unfolding snapshot_all snapshot_row
snapshot_all-IsSnapshot setup day due origin [] cells known sound places covered agree = (
  ([], cells),
  refl,
  record {
    sound = sound;
    places = places;
    covered = covered;
    balance = refl;
    rows = tt;
    listed = refl;
    agrees = agree;
  },
)
snapshot_all-IsSnapshot setup day due origin (key ∷ keys) cells known sound places covered agree =
    let c = cell_at key cells in
    let active = is_active setup key day in
    let cell = cell_at-IsCell key cells sound in
    let test = is_shown-eq_listed setup day key origin c (agree key) cell in
    elim (Bool-cases (is_shown active c)) [
      | inr hidden ↦
          let (out, e, f) =
            snapshot_all-IsSnapshot setup day due origin keys cells known.1 sound places covered
              agree in
          let unlisted : is_listed setup day origin key ≡ false = sym test ∙ hidden in
          rw (hidden, snapshot_all)
            (
              out,
              e,
              record {
                sound = f.sound;
                places = f.places;
                covered = f.covered;
                balance = f.balance;
                rows = f.rows;
                listed =
                    f.listed ∙ sym (select-skip (is_listed setup day origin) key keys unlisted);
                agrees = f.agrees;
              },
            )
      | inl shown ↦
          let place = known.0 in
          let marked = mark_residual active day c in
          let same = mark_residual-SameStock active day c (cell_at key origin) (agree key) in
          let ih =
            snapshot_all-IsSnapshot setup day due origin keys (put key marked cells) known.1
              (All-put IsCell key marked cells (mark_residual-IsCell active day c cell) sound)
              (put-AllPlaces setup key marked cells place places)
              (put-IsCovered_same due key marked cells (mark_residual-in_transit active day c)
                covered)
              (put-Agree key marked cells origin same agree) in
          let f = ih.2 in
          let on_list : is_listed setup day origin key ≡ true = sym test ∙ shown in
          rw (shown, snapshot_all, place.store_known, place.market_known, ih.1)
            (
              _,
              refl,
              record {
                sound = f.sound;
                places = f.places;
                covered = f.covered;
                balance =
                    let write = on_hand_total-put key marked cells in
                    let kept = mark_residual-on_hand active day c in
                    let b = f.balance in omega int_laws;
                rows = (
                  snapshot_row-IsShown setup day key place.store place.market origin c
                      place.store_known (agree key) cell,
                  f.rows,
                );
                listed =
                    ap (λ (ks : List CellKey). key ∷ ks) f.listed
                    ∙ sym (select-take (is_listed setup day origin) key keys on_list);
                agrees = f.agrees;
              },
            )
    ]

snapshot-on :
    (setup : Setup) (day : ℕ) (s : Echelon)
    → setup.enabled ≡ true
    → snapshot setup day s ≡ (
        raise_if (eqb setup.snapshot_cadence 0) zero_division
        >> (if not (is_snapshot_day setup day)
            then ok ([], s)
            else (snapshot_all setup day (sorted_keys s.cells) s.cells >>= λ out.
                ok (out.0, record s { cells = out.1 }))))
unfolding snapshot
snapshot-on setup day s on = guard-passed setup.enabled _ _ on

snapshot-off :
    (setup : Setup) (day : ℕ) (s : Echelon)
    → setup.enabled ≡ false
    → snapshot setup day s ≡ ok ([], s)
unfolding snapshot
snapshot-off setup day s off = rw off refl

-- The keys that a snapshot shows: on a day that it is taken those of the listed cells, in order.
abbrev pub shown_keys : Setup → ℕ → Cells → List CellKey
shown_keys setup day cells =
    if setup.enabled && is_snapshot_day setup day
    then select (is_listed setup day cells) (sorted_keys cells)
    else []

-- What a snapshot does: it moves nothing, and its rows are those of the listed cells.
pub record IsTaken (setup : Setup) (day : ℕ) (s : Echelon) (out : List SnapshotRow × Echelon)
    : Type 0 where
  pub sound : IsSound setup out.1
  pub balance : on_hand_total (out.1).cells ≡ on_hand_total s.cells
  pub arrivals : (out.1).arrivals ≡ s.arrivals
  pub agrees : Agree (out.1).cells s.cells
  pub rows : All (IsShown setup day s.cells) out.0
  pub listed : map row_key out.0 ≡ shown_keys setup day s.cells

-- A snapshot that returns what it should.
abbrev pub Shown : Setup → ℕ → Echelon → Result EchelonError (List SnapshotRow × Echelon) → Type 0
Shown setup day s result =
    (out : List SnapshotRow × Echelon) × (result ≡ ok out) × IsTaken setup day s out

nothing-IsTaken :
    (setup : Setup) (day : ℕ) (s : Echelon)
    → IsSound setup s
    → (setup.enabled && is_snapshot_day setup day) ≡ false
    → IsTaken setup day s ([], s)
nothing-IsTaken setup day s sound none_taken = record {
  sound = sound;
  balance = refl;
  arrivals = refl;
  agrees = λ k. SameStock-refl (cell_at k s.cells);
  rows = tt;
  listed = rw none_taken refl;
}

-- On a sound configuration and state a snapshot returns, moves no stock and no order, and on a day
-- that it is taken gives a row for just the cells that are assorted or have units on hand or in
-- transit, in the order of their keys, and else none. Each row says what its cell holds, that all on
-- hand is available, and whether the cell is assorted.
pub snapshot-Shown :
    (setup : Setup) (day : ℕ) (s : Echelon)
    → IsSetup setup
    → IsSound setup s
    → Shown setup day s (snapshot setup day s)
snapshot-Shown setup day s known sound =
    let one = known.cadence in
    let cadence : eqb setup.snapshot_cadence 0 ≡ false = ground arith in
    elim (Bool-cases setup.enabled) [
      | inr off ↦
          rw (snapshot-off setup day s off)
            (_, refl, nothing-IsTaken setup day s sound (rw off refl))
      | inl on ↦
          rw (snapshot-on setup day s on, cadence)
            (elim (Bool-cases (is_snapshot_day setup day)) [
              | inr other ↦
                  rw other (_, refl, nothing-IsTaken setup day s sound (ground (arith, on, other)))
              | inl today ↦
                  let r =
                    snapshot_all-IsSnapshot setup day (λ k. pending k s.arrivals) s.cells
                      (sorted_keys s.cells) s.cells
                      (sorted_keys-AllPlaces setup s.cells sound.places) sound.cells sound.places
                      sound.covered (λ k. SameStock-refl (cell_at k s.cells)) in
                  let f = r.2 in
                  let taken : (setup.enabled && is_snapshot_day setup day) ≡ true =
                    ground (arith, on, today) in
                  rw (today, r.1)
                    (
                      _,
                      refl,
                      record {
                        sound = record {
                          cells = f.sound;
                          covered = f.covered;
                          places = f.places;
                          orders = sound.orders;
                        };
                        balance = f.balance;
                        arrivals = refl;
                        agrees = f.agrees;
                        rows = f.rows;
                        listed = rw taken f.listed;
                      },
                    )
            ])
    ]
