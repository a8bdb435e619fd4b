-- ===== src/Datagen/Echelon/Dispatch.antt =====
-- Orders on their way: what `review` of datagen/src/retail_datagen/store_inventory.py does to the state
-- for each order.
use retail_intelligence.Datagen.Echelon.State.{
  pending, IsIn, IsDue, IsOrder, IsCovered, IsSound, on_hand_total, on_hand_total-put,
  cell_at-IsCell, put-IsCovered, put-AllPlaces, pending-put,
}
use retail_intelligence.Datagen.Echelon.Cells.{IsCell}
use retail_intelligence.Datagen.Echelon.Review.{send, dispatch}
use retail_intelligence.Datagen.Echelon.Flow.{transfer_key}
use retail_intelligence.Datagen.Echelon.Rows.{Transfer, Echelon, cell_at}
use retail_intelligence.Datagen.Echelon.Setup.{Cell, CellKey, Setup}
use retail_intelligence.Base.Dict.{Dict, put, get_or, get_or-put, All-put, All-get_or}
use retail_intelligence.Base.Equality.{nat_eq, string_eq, ◌==◌, pair_eq, option_eq, beq_refl}
use retail_intelligence.Base.Int.{ℤ, ◌+ℤ◌, ◌≤ℤ◌, ◌<ℤ◌, int_laws, pos}
use retail_intelligence.Base.{
  ℕ, ◌≤◌, ◌≡◌, refl, sym, inl, inr, true, List, [], ◌∷◌, ◌++◌, leb, if◌then◌else◌, le→leb, eqb_iff,
  Bool-cases, All, All-append,
}
use mathlib.Core.Path.{subst}

pub IsIn-append : (t : Transfer) (ts us : List Transfer) → IsIn t ts → IsIn t (ts ++ us)
IsIn-append t [] us h = absurd h
IsIn-append t (x ∷ ts) us (inl e) = inl e
IsIn-append t (x ∷ ts) us (inr h) = inr (IsIn-append t ts us h)

IsIn-last : (t : Transfer) (ts : List Transfer) → IsIn t (ts ++ t ∷ [])
IsIn-last t [] = inl refl
IsIn-last t (x ∷ ts) = inr (IsIn-last t ts)

pub send-IsCell :
    (quantity : ℤ) (c : Cell) → pos 0 <ℤ quantity → IsCell c → IsCell (send quantity c)
unfolding send
send-IsCell quantity c q h =
    let t = h.transit in
    record {
      stock = h.stock;
      transit = omega int_laws;
      uncommitted = h.uncommitted;
      undamaged = h.undamaged;
      dated = h.dated;
    }

send-in_transit :
    (quantity : ℤ) (c : Cell) → (send quantity c).in_transit ≡ c.in_transit +ℤ quantity
unfolding send
send-in_transit quantity c = refl

send-on_hand : (quantity : ℤ) (c : Cell) → (send quantity c).on_hand ≡ c.on_hand
unfolding send
send-on_hand quantity c = refl

-- What is to arrive once the order is on its way.
abbrev sent_arrivals : Setup → Transfer → Echelon → Dict ℕ (List Transfer)
sent_arrivals setup t s =
    if leb t.expected_receipt_date setup.end_date
    then put t.expected_receipt_date (get_or t.expected_receipt_date [] s.arrivals ++ t ∷ [])
        s.arrivals
    else s.arrivals

sent-pending :
    (setup : Setup) (t : Transfer) (s : Echelon) (k : CellKey)
    → pos 0 <ℤ t.quantity
    → pending k (sent_arrivals setup t s)
      ≤ℤ pending k s.arrivals +ℤ (if transfer_key t == k then t.quantity else pos 0)
sent-pending setup t s k q = elim (Bool-cases (leb t.expected_receipt_date setup.end_date)) [
  | inl soon ↦
      rw soon (let p = pending-put k t.expected_receipt_date t s.arrivals in omega int_laws)
  | inr late ↦ rw late (elim (Bool-cases (transfer_key t == k)) [
    | inl same ↦ rw same (omega int_laws)
    | inr other ↦ rw other (omega int_laws)
  ])
]

sent-orders :
    (setup : Setup) (t : Transfer) (s : Echelon)
    → IsOrder setup t
    → IsSound setup s
    → All (λ (p : ℕ × List Transfer). All (IsOrder setup) p.1) (sent_arrivals setup t s)
sent-orders setup t s order sound =
    let day = t.expected_receipt_date in
    elim (Bool-cases (leb day setup.end_date)) [
      | inl soon ↦ rw soon (
          All-put (All (IsOrder setup)) day (get_or day [] s.arrivals ++ t ∷ []) s.arrivals
            (All-append (IsOrder setup) (get_or day [] s.arrivals) (t ∷ [])
              (All-get_or (All (IsOrder setup)) day [] s.arrivals tt sound.orders) (order, tt))
            sound.orders)
      | inr late ↦ rw late sound.orders
    ]

dispatch-IsCovered :
    (setup : Setup) (t : Transfer) (s : Echelon)
    → pos 0 <ℤ t.quantity
    → IsSound setup s
    → IsCovered
        (λ k. pending k (sent_arrivals setup t s))
        (put (transfer_key t) (send t.quantity (cell_at (transfer_key t) s.cells)) s.cells)
dispatch-IsCovered setup t s q sound =
    let key = transfer_key t in
    let before = cell_at key s.cells in
    let self : (key == key) ≡ true = beq_refl key in
    let here : pending key (sent_arrivals setup t s) ≤ℤ pending key s.arrivals +ℤ t.quantity =
      rw self at (sent-pending setup t s key q) in
    let known = sound.covered key in
    let moved = send-in_transit t.quantity before in
    put-IsCovered (λ k. pending k s.arrivals) (λ k. pending k (sent_arrivals setup t s)) key
      (send t.quantity before) s.cells
      (λ j other.
        let there : pending j (sent_arrivals setup t s) ≤ℤ pending j s.arrivals +ℤ pos 0 =
          rw other at (sent-pending setup t s j q) in
        omega int_laws)
      (omega int_laws) sound.covered

pub dispatch-IsSound :
    (setup : Setup) (t : Transfer) (s : Echelon)
    → IsOrder setup t
    → IsSound setup s
    → IsSound setup (dispatch setup t s)
unfolding dispatch
dispatch-IsSound setup t s order sound =
    let key = transfer_key t in
    let before = cell_at key s.cells in
    record {
      cells =
          All-put IsCell key (send t.quantity before) s.cells
            (send-IsCell t.quantity before order.positive (cell_at-IsCell key s.cells sound.cells))
            sound.cells;
      covered = dispatch-IsCovered setup t s order.positive sound;
      places = put-AllPlaces setup key (send t.quantity before) s.cells order.place sound.places;
      orders = sent-orders setup t s order sound;
    }

pub dispatch-on_hand :
    (setup : Setup) (t : Transfer) (s : Echelon)
    → on_hand_total (dispatch setup t s).cells ≡ on_hand_total s.cells
unfolding dispatch
dispatch-on_hand setup t s =
    let key = transfer_key t in
    let before = cell_at key s.cells in
    let write = on_hand_total-put key (send t.quantity before) s.cells in
    let same = send-on_hand t.quantity before in omega int_laws

-- What was to arrive still is.
pub dispatch-keeps :
    (setup : Setup) (t u : Transfer) (day : ℕ) (s : Echelon)
    → IsDue day u s
    → IsDue day u (dispatch setup t s)
unfolding dispatch
dispatch-keeps setup t u day s h =
    let r = t.expected_receipt_date in
    let more = get_or r [] s.arrivals ++ t ∷ [] in
    elim (Bool-cases (leb r setup.end_date)) [
      | inr late ↦ rw late h
      | inl soon ↦
          rw (soon, get_or-put r day [] more s.arrivals)
            (elim (Bool-cases (r == day)) [
              | inr other ↦ rw other h
              | inl same ↦
                  let e = (eqb_iff r day).0 same in
                  rw same (
                    IsIn-append u (get_or r [] s.arrivals) (t ∷ [])
                      (subst (λ d. IsIn u (get_or d [] s.arrivals)) (sym e) h))
            ])
    ]

pub dispatch-IsDue :
    (setup : Setup) (t : Transfer) (s : Echelon)
    → t.expected_receipt_date ≤ setup.end_date
    → IsDue t.expected_receipt_date t (dispatch setup t s)
unfolding dispatch
dispatch-IsDue setup t s soon =
    let r = t.expected_receipt_date in
    let go = le→leb r setup.end_date soon in
    let self : (r == r) ≡ true = beq_refl r in
    rw (go, get_or-put r r [] (get_or r [] s.arrivals ++ t ∷ []) s.arrivals, self)
      (IsIn-last t (get_or r [] s.arrivals))
