-- ===== src/Datagen/Echelon/Receipts.antt =====
-- Receipts of the store echelon: `receive` of datagen/src/retail_datagen/store_inventory.py.
use retail_intelligence.Datagen.Echelon.State.{
  due_units, pending, IsDue, IsOrder, AllPlaces, AllCells, IsCovered, IsSound, on_hand_total,
  on_hand_total-put, cell_at-IsCell, put-IsCovered, put-AllPlaces, pending-remove_day,
}
use retail_intelligence.Datagen.Echelon.Cells.{IsCell, arrive-IsCell}
use retail_intelligence.Datagen.Echelon.Flow.{
  Cells, arrive, transfer_key, receive_all, remove_day, receive,
}
use retail_intelligence.Datagen.Echelon.Rows.{Transfer, TransferEvent, Echelon, cell_at}
use retail_intelligence.Datagen.Echelon.Setup.{CellKey, Setup}
use retail_intelligence.Base.Result.{◌>>=◌, ok}
use retail_intelligence.Base.Dict.{Dict, put, get_or, All-put, All-get_or}
use retail_intelligence.Base.Equality.{nat_eq, string_eq, ◌==◌, pair_eq, option_eq, beq_refl}
use retail_intelligence.Base.Int.{ℤ, ◌+ℤ◌, ◌-ℤ◌, ◌≤ℤ◌, max_ℤ_bounds, int_laws, pos}
use retail_intelligence.Base.{
  ℕ, ◌≡◌, refl, sym, ap, inl, inr, true, false, List, [], ◌∷◌, map, arith, eqb_iff, Bool-cases,
  guard-passed, All,
}

abbrev pub units_of : List Transfer → ℤ
units_of [] = pos 0
units_of (t ∷ ts) = t.quantity +ℤ units_of ts

abbrev pub transfers_of : List TransferEvent → List Transfer
transfers_of events = map (λ e. e.transfer) events

-- What receiving the transfers of a day does to the cells, where `later` is to arrive on other days.
pub record IsReceived (setup : Setup) (later : CellKey → ℤ) (due : List Transfer) (cells : Cells)
    (out : List TransferEvent × Cells) : Type 0 where
  pub sound : AllCells out.1
  pub places : AllPlaces setup out.1
  pub covered : IsCovered later out.1
  pub balance : on_hand_total out.1 ≡ on_hand_total cells +ℤ units_of due
  pub events : transfers_of out.0 ≡ due

arrive-IsCovered :
    (later : CellKey → ℤ) (day : ℕ) (t : Transfer) (due : List Transfer) (cells : Cells)
    → IsCovered (λ k. due_units k (t ∷ due) +ℤ later k) cells
    → IsCovered
        (λ k. due_units k due +ℤ later k)
        (put (transfer_key t) (arrive day t.quantity (cell_at (transfer_key t) cells)) cells)
unfolding arrive
arrive-IsCovered later day t due cells covered =
    let key = transfer_key t in
    let before = cell_at key cells in
    let self : (key == key) ≡ true = beq_refl key in
    let here : (t.quantity +ℤ due_units key due) +ℤ later key ≤ℤ before.in_transit =
      rw self at (covered key) in
    let bound = (max_ℤ_bounds (pos 0) (before.in_transit -ℤ t.quantity)).1 in
    put-IsCovered (λ k. due_units k (t ∷ due) +ℤ later k) (λ k. due_units k due +ℤ later k) key
      (arrive day t.quantity before) cells (λ j other. rw other (omega int_laws)) (omega int_laws)
      covered

pub receive_all-IsReceived :
    (setup : Setup) (day : ℕ) (later : CellKey → ℤ) (due : List Transfer) (cells : Cells)
    → All (IsOrder setup) due
    → AllCells cells
    → AllPlaces setup cells
    → IsCovered (λ k. due_units k due +ℤ later k) cells
    → (out : List TransferEvent × Cells) × (receive_all setup day due cells ≡ ok out)
      × IsReceived setup later due cells out
unfolding receive_all arrive
receive_all-IsReceived setup day later [] cells orders sound places covered = (
  ([], cells),
  refl,
  record {
    sound = sound;
    places = places;
    covered = λ k. let c = covered k in omega int_laws;
    balance = omega int_laws;
    events = refl;
  },
)
receive_all-IsReceived setup day later (t ∷ due) cells orders sound places covered =
    let key = transfer_key t in
    let before = cell_at key cells in
    let cell = arrive day t.quantity before in
    let order = orders.0 in
    let known = order.known in
    let ih =
      receive_all-IsReceived setup day later due (put key cell cells) orders.1
        (All-put IsCell key cell cells
          (arrive-IsCell day t.quantity before order.positive (cell_at-IsCell key cells sound))
          sound)
        (put-AllPlaces setup key cell cells order.place places)
        (arrive-IsCovered later day t due cells covered) in
    let write = on_hand_total-put key cell cells in
    let r = ih.2 in
    rw (known, ih.1)
      (
        _,
        refl,
        record {
          sound = r.sound;
          places = r.places;
          covered = r.covered;
          balance = let b = r.balance in omega int_laws;
          events = ap (λ (ts : List Transfer). t ∷ ts) r.events;
        },
      )

remove_day-All :
    (P : List Transfer → Type 0) (day : ℕ) (arrivals : Dict ℕ (List Transfer))
    → All (λ (p : ℕ × List Transfer). P p.1) arrivals
    → All (λ (p : ℕ × List Transfer). P p.1) (remove_day day arrivals)
unfolding remove_day
remove_day-All P day [] h = tt
remove_day-All P day ((d, ts) ∷ arrivals) h = elim (Bool-cases (d == day)) [
  | inl same ↦ rw same h.1
  | inr other ↦ rw other (h.0, remove_day-All P day arrivals h.1)
]

receive-on :
    (setup : Setup) (day : ℕ) (s : Echelon)
    → setup.enabled ≡ true
    → receive setup day s ≡ (
        receive_all setup day (get_or day [] s.arrivals) s.cells >>= λ out.
        ok (out.0, record s { cells = out.1; arrivals = remove_day day s.arrivals }))
unfolding receive
receive-on setup day s on = guard-passed setup.enabled _ _ on

receive-off :
    (setup : Setup) (day : ℕ) (s : Echelon)
    → setup.enabled ≡ false
    → receive setup day s ≡ ok ([], s)
unfolding receive
receive-off setup day s off = rw off refl

get_or-remove_day :
    (d day : ℕ) (arrivals : Dict ℕ (List Transfer))
    → ¬ (d ≡ day)
    → get_or d [] (remove_day day arrivals) ≡ get_or d [] arrivals
unfolding get_or remove_day
get_or-remove_day d day [] other = refl
get_or-remove_day d day ((x, ts) ∷ arrivals) other = elim (Bool-cases (x == day)) [
  | inr differs ↦ let ih = get_or-remove_day d day arrivals other in rw differs (ground (arith, ih))
  | inl same ↦
      let e = (eqb_iff x day).0 same in
      let skipped : (x == d) ≡ false = ground (arith, eqb_iff x d, e, other) in
      rw (same, skipped) refl
]

-- What receiving on a day does to a sound state.
pub record IsReceipt (setup : Setup) (day : ℕ) (s : Echelon) (out : List TransferEvent × Echelon)
    : Type 0 where
  pub sound : IsSound setup out.1
  pub balance : on_hand_total (out.1).cells ≡ on_hand_total s.cells +ℤ units_of (transfers_of out.0)
  pub keeps : (d : ℕ) (t : Transfer) → ¬ (d ≡ day) → IsDue d t s → IsDue d t out.1
  pub events : setup.enabled ≡ true → transfers_of out.0 ≡ get_or day [] s.arrivals

pub receive-IsReceipt :
    (setup : Setup) (day : ℕ) (s : Echelon)
    → IsSound setup s
    → (out : List TransferEvent × Echelon) × (receive setup day s ≡ ok out)
      × IsReceipt setup day s out
receive-IsReceipt setup day s sound = elim (Bool-cases setup.enabled) [
  | inr off ↦ rw (receive-off setup day s off) (
    ([], s),
    refl,
    record {
      sound = sound;
      balance = omega int_laws;
      keeps = λ d t other h. h;
      events = λ on. absurd (ground (arith, on, off));
    },
  )
  | inl on ↦
      let due = get_or day [] s.arrivals in
      let orders = All-get_or (All (IsOrder setup)) day [] s.arrivals tt sound.orders in
      let later = λ (k : CellKey). pending k (remove_day day s.arrivals) in
      let r =
        receive_all-IsReceived setup day later due s.cells orders sound.cells sound.places
          (λ k. rw (sym (pending-remove_day k day s.arrivals)) (sound.covered k)) in
      let f = r.2 in
      rw (receive-on setup day s on, r.1)
        (
          _,
          refl,
          record {
            sound = record {
              cells = f.sound;
              covered = f.covered;
              places = f.places;
              orders = remove_day-All (All (IsOrder setup)) day s.arrivals sound.orders;
            };
            balance = rw f.events f.balance;
            keeps = λ d t other h. rw (get_or-remove_day d day s.arrivals other) h;
            events = λ _. f.events;
          },
        )
]
