-- ===== src/Datagen/Echelon/Orders.antt =====
-- The size of a replenishment order: `review` of
-- datagen/src/retail_datagen/store_inventory.py.

use retail_intelligence.Datagen.Echelon.Flow.{transfer_key}
use retail_intelligence.Datagen.Echelon.Configured.{IsStore, minor_units-eq_ok}
use retail_intelligence.Datagen.Echelon.Review.{
  trailing_units, target_units, pack_units, order_units, order_for, dispatch_event, review_variant,
}
use retail_intelligence.Datagen.Echelon.Rows.{
  default_cost, TransferEvent, Echelon, cell_at, is_active,
}
use retail_intelligence.Datagen.Echelon.Setup.{Cell, Store, Variant, CellKey, Setup}
use retail_intelligence.Base.Result.{ok}
use retail_intelligence.Base.Dict.{get_or}
use retail_intelligence.Base.Equality.{nat_eq, string_eq, pair_eq, option_eq}
use retail_intelligence.Base.Int.{
  ℤ, ◌+ℤ◌, ◌-ℤ◌, floor_div, ◌≤ℤ◌, ◌<ℤ◌, leb_ℤ, leb_ℤ→le, lt_of_not-leb_ℤ, int_laws, pos-mul,
  neg-pos_suc, neg-negsuc, pos, negsuc,
}
use retail_intelligence.Base.{
  ℕ, zero, suc, ◌+◌, ◌*◌, ◌/◌, ◌≤◌, ◌<◌, String, ◌≡◌, refl, ◌⊎◌, inl, inr, true, false, not, ◌||◌,
  none, some, List, [], ◌∷◌, arith, Bool-cases,
}
use native.Mathlib.Nat.{div-add-mod, mod-lt}

-- A shortfall in whole packs, rounded up.
pack_units-cover :
    (pack n : ℕ)
    → 1 ≤ pack
    → (pack_units pack (pos (suc n)) ≡ pos (suc (n / pack) * pack))
      × (suc n ≤ suc (n / pack) * pack)
      × (suc (n / pack) * pack < suc n + pack)
unfolding pack_units floor_div
pack_units-cover pack n h =
    let d = div-add-mod n pack in
    let m = mod-lt n h in
    (
      rw (neg-pos_suc n) (rw (neg-negsuc (n / pack)) (pos-mul (suc (n / pack)) pack)),
      omega arith,
      omega arith,
    )

-- A positive shortfall is covered by whole packs, by less than one pack too much.
pack_units-IsCover :
    (pack : ℕ) (z : ℤ)
    → 1 ≤ pack
    → pos 0 <ℤ z
    → (m : ℕ) × (pack_units pack z ≡ pos (m * pack))
      × (z ≤ℤ pack_units pack z)
      × (pack_units pack z <ℤ z +ℤ pos pack)
pack_units-IsCover pack (pos zero) one h = absurd (omega arith)
pack_units-IsCover pack (pos (suc n)) one h =
    let c = pack_units-cover pack n one in
    let low = c.1 in
    let high = c.2 in (suc (n / pack), c.0, rw (c.0) (omega arith), rw (c.0) (omega int_laws))
pack_units-IsCover pack (negsuc n) one h = absurd (omega arith)

abbrev pub position : Cell → ℤ
position cell = cell.on_hand +ℤ cell.in_transit -ℤ cell.damaged

-- Nothing is ordered where the target is met, and else the least number of whole packs that reaches it.
order_units-cases :
    (setup : Setup) (day : ℕ) (trailing : ℤ) (cell : Cell)
    → 1 ≤ setup.pack_size
    → ((order_units setup day trailing cell ≡ none)
        × (target_units setup day trailing ≤ℤ position cell))
      ⊎ ((packs : ℕ) × (quantity : ℤ) × (order_units setup day trailing cell ≡ some quantity)
          × (position cell <ℤ target_units setup day trailing)
          × (quantity ≡ pos (packs * setup.pack_size))
          × (target_units setup day trailing ≤ℤ position cell +ℤ quantity)
          × (position cell +ℤ quantity <ℤ target_units setup day trailing +ℤ pos setup.pack_size))
unfolding order_units
order_units-cases setup day trailing cell one =
    let target = target_units setup day trailing in
    let quantity = pack_units setup.pack_size (target -ℤ position cell) in
    elim (Bool-cases (leb_ℤ target (position cell))) [
      | inl enough ↦ rw enough (inl (refl, leb_ℤ→le target (position cell) enough))
      | inr below ↦
          let less = lt_of_not-leb_ℤ target (position cell) below in
          let c =
            pack_units-IsCover setup.pack_size (target -ℤ position cell) one (omega int_laws) in
          let low = c.2 in
          let high = c.3 in
          let up : pos 0 <ℤ quantity = omega int_laws in
          let some_units : leb_ℤ quantity (pos 0) ≡ false = ground arith in
          rw (below, some_units)
            (inr (c.0, quantity, refl, less, c.1, omega int_laws, omega int_laws))
    ]

-- the units of a cell that sold in the review's window
abbrev pub trailing_at : Setup → ℕ → CellKey → Echelon → ℤ
trailing_at setup day key s =
    trailing_units setup.review_cycle day (get_or key [] s.observed_demand)

-- What the review of a cell places: nothing for one that is not assorted or has not sold, nothing
-- where the target is met, and else one order of the least number of whole packs that reaches the
-- target.
pub data IsReplenished (setup : Setup) (day : ℕ) (key : CellKey) (s : Echelon)
    : List TransferEvent → Type 0 where
  idle :
      (is_active setup key day ≡ false) ⊎ (trailing_at setup day key s ≤ℤ pos 0)
      → IsReplenished setup day key s []
  met :
      is_active setup key day ≡ true
      → pos 0 <ℤ trailing_at setup day key s
      → target_units setup day (trailing_at setup day key s) ≤ℤ position (cell_at key s.cells)
      → IsReplenished setup day key s []
  ordered :
      (packs : ℕ) (e : TransferEvent)
      → is_active setup key day ≡ true
      → pos 0 <ℤ trailing_at setup day key s
      → transfer_key e.transfer ≡ key
      → (e.transfer).order_date ≡ day
      → (e.transfer).quantity ≡ pos (packs * setup.pack_size)
      → position (cell_at key s.cells) <ℤ target_units setup day (trailing_at setup day key s)
      → target_units setup day (trailing_at setup day key s)
        ≤ℤ position (cell_at key s.cells) +ℤ (e.transfer).quantity
      → position (cell_at key s.cells) +ℤ (e.transfer).quantity
        <ℤ target_units setup day (trailing_at setup day key s) +ℤ pos setup.pack_size
      → IsReplenished setup day key s (e ∷ [])

-- On a sound configuration with packs of at least one unit the review of a variant returns. It places
-- no order where the variant is not assorted or nothing of it sold in the window, none where on hand
-- and on order reach the target, and else exactly one order: for that cell, of the least number of
-- whole packs that reaches the target.
pub review_variant-IsReplenished :
    (setup : Setup) (day : ℕ) (store : Store) (lane : String × ℕ) (v : Variant) (s : Echelon)
    → 1 ≤ setup.pack_size
    → IsStore setup store
    → (out : List TransferEvent × Echelon) × (review_variant setup day store lane v s ≡ ok out)
      × IsReplenished setup day (store.store_id, v.sku) s out.0
unfolding review_variant
review_variant-IsReplenished setup day store lane v s one known =
    let key : CellKey = (store.store_id, v.sku) in
    let trailing = trailing_at setup day key s in
    elim (Bool-cases (not (is_active setup key day) || leb_ℤ trailing (pos 0))) [
      | inl stop ↦ rw stop (
        ([], s),
        refl,
        IsReplenished.idle (elim (Bool-cases (is_active setup key day)) [
          | inr off ↦ inl off
          | inl on ↦ inr (leb_ℤ→le trailing (pos 0) (ground (arith, on, stop)))
        ]),
      )
      | inr go ↦
          let on : is_active setup key day ≡ true = ground (arith, go) in
          let off : leb_ℤ trailing (pos 0) ≡ false = ground (arith, go) in
          let sold = lt_of_not-leb_ℤ trailing (pos 0) off in
          let cost = minor_units-eq_ok (default_cost v.base_cost) setup store known in
          elim (order_units-cases setup day trailing (cell_at key s.cells) one) [
            | inl (e, enough) ↦ rw (go, e) (_, refl, IsReplenished.met on sold enough)
            | inr (packs, quantity, e, below, whole, reach, least) ↦
                let t = order_for day store lane v quantity known.market cost.0 in
                rw (go, e, known.market_known, cost.1)
                  (
                    _,
                    refl,
                    IsReplenished.ordered packs (dispatch_event t) on sold refl refl whole below
                        reach least,
                  )
          ]
    ]
