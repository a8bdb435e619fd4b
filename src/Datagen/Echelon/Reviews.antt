-- ===== src/Datagen/Echelon/Reviews.antt =====
-- The replenishment review: `review` of datagen/src/retail_datagen/store_inventory.py.
use retail_intelligence.Datagen.Echelon.Dispatch.{
  dispatch-IsSound, dispatch-on_hand, dispatch-keeps, dispatch-IsDue,
}
use retail_intelligence.Datagen.Echelon.Configured.{
  IsStore, IsSetup, store-IsPlace, lane_for-eq_ok, minor_units-eq_ok, all_stores,
}
use retail_intelligence.Datagen.Echelon.State.{
  pending, IsDue, IsPlace, IsOrder, IsSound, on_hand_total, on_hand_total-put, cell_at-IsCell,
  put-IsCovered_same, put-AllPlaces,
}
use retail_intelligence.Datagen.Echelon.Cells.{IsCell}
use retail_intelligence.Datagen.Echelon.Review.{
  store_le, trailing_units, target_units, pack_units, order_units, order_for, dispatch_event,
  dispatch, review_variant, review_variants, review_stores, on_cycle, review,
}
use retail_intelligence.Datagen.Echelon.Rows.{
  default_cost, Transfer, TransferEvent, Echelon, cell_at, is_active,
}
use retail_intelligence.Datagen.Echelon.Setup.{
  EchelonError, Cell, Store, Variant, CellKey, Setup, zero_division, date_overflow,
}
use retail_intelligence.Base.Result.{Result, ◌>>◌, raise_if, ok}
use retail_intelligence.Base.Sort.{sort_by, All-sort_by}
use retail_intelligence.Base.Dict.{put, get_or, All-put}
use retail_intelligence.Base.Equality.{nat_eq, string_eq, pair_eq, option_eq}
use retail_intelligence.Base.Int.{ℤ, ◌+ℤ◌, ◌-ℤ◌, ◌<ℤ◌, leb_ℤ, lt_of_not-leb_ℤ, int_laws, pos}
use retail_intelligence.Base.{
  ℕ, ◌+◌, ◌*◌, ◌≤◌, ◌<◌, String, ◌≡◌, refl, ◌∙◌, inl, inr, true, false, not, ◌||◌, none, some, List,
  [], ◌∷◌, ◌++◌, map, arith, leb, eqb, if◌then◌else◌, Bool-cases, Option-cases, or-eq_false,
  guard-passed, All, All-append, All-imp,
}
use mathlib.Core.Path.{subst}

-- What a review does to a state: it moves no stock, and its orders are on their way to the arrival day.
pub record IsReviewed (setup : Setup) (arrival : ℕ) (s : Echelon)
    (out : List TransferEvent × Echelon) : Type 0 where
  pub sound : IsSound setup out.1
  pub on_hand : on_hand_total (out.1).cells ≡ on_hand_total s.cells
  pub keeps : (day : ℕ) (t : Transfer) → IsDue day t s → IsDue day t out.1
  pub due :
      All
        (λ (e : TransferEvent).
          (e.transfer).expected_receipt_date ≤ setup.end_date
          → IsDue (e.transfer).expected_receipt_date e.transfer out.1)
        out.0
  pub date : All (λ (e : TransferEvent). (e.transfer).expected_receipt_date ≡ arrival) out.0

IsReviewed-nil :
    (setup : Setup) (arrival : ℕ) (s : Echelon)
    → IsSound setup s
    → IsReviewed setup arrival s ([], s)
IsReviewed-nil setup arrival s sound = record {
  sound = sound;
  on_hand = refl;
  keeps = λ day t h. h;
  due = tt;
  date = tt;
}

IsReviewed-trans :
    (setup : Setup) (arrival : ℕ) (s : Echelon) (first next : List TransferEvent × Echelon)
    → IsReviewed setup arrival s first
    → IsReviewed setup arrival first.1 next
    → IsReviewed setup arrival s (first.0 ++ next.0, next.1)
IsReviewed-trans setup arrival s first next f n = record {
  sound = n.sound;
  on_hand = n.on_hand ∙ f.on_hand;
  keeps = λ day t h. n.keeps day t (f.keeps day t h);
  due =
      All-append _ first.0 next.0
        (All-imp _ _ first.0
          (λ e h soon. n.keeps (e.transfer).expected_receipt_date e.transfer (h soon)) f.due)
        n.due;
  date = All-append _ first.0 next.0 f.date n.date;
}

-- A review that returns what it should.
abbrev pub Reviewed :
    Setup → ℕ → Echelon → Result EchelonError (List TransferEvent × Echelon) → Type 0
Reviewed setup arrival s result =
    (out : List TransferEvent × Echelon) × (result ≡ ok out) × IsReviewed setup arrival s out

order_units-positive :
    (setup : Setup) (day : ℕ) (trailing : ℤ) (cell : Cell) (quantity : ℤ)
    → order_units setup day trailing cell ≡ some quantity
    → pos 0 <ℤ quantity
unfolding order_units
order_units-positive setup day trailing cell quantity e =
    let target = target_units setup day trailing in
    let units =
      pack_units setup.pack_size (target -ℤ (cell.on_hand +ℤ cell.in_transit -ℤ cell.damaged)) in
    let enough = leb_ℤ target (cell.on_hand +ℤ cell.in_transit -ℤ cell.damaged) in
    elim (Bool-cases (enough || leb_ℤ units (pos 0))) [
      | inl stop ↦ let e' : none ≡ some quantity = rw stop at e in absurd (ground arith)
      | inr go ↦
          let e' : some units ≡ some quantity = rw go at e in
          let same : units ≡ quantity = cc in
          let up =
            lt_of_not-leb_ℤ units (pos 0) ((or-eq_false enough (leb_ℤ units (pos 0)) go).1) in
          subst (λ q. pos 0 <ℤ q) same up
    ]

-- A cell that a review only looks at.
touch-IsReviewed :
    (setup : Setup) (arrival : ℕ) (key : CellKey) (s : Echelon)
    → IsPlace setup key.0
    → IsSound setup s
    → IsReviewed setup arrival s ([], record s { cells = put key (cell_at key s.cells) s.cells })
touch-IsReviewed setup arrival key s place sound = record {
  sound = record {
    cells =
        All-put IsCell key (cell_at key s.cells) s.cells (cell_at-IsCell key s.cells sound.cells)
          sound.cells;
    covered =
        put-IsCovered_same (λ k. pending k s.arrivals) key (cell_at key s.cells) s.cells refl
          sound.covered;
    places = put-AllPlaces setup key (cell_at key s.cells) s.cells place sound.places;
    orders = sound.orders;
  };
  on_hand = let write = on_hand_total-put key (cell_at key s.cells) s.cells in omega int_laws;
  keeps = λ day t h. h;
  due = tt;
  date = tt;
}

dispatch-IsReviewed :
    (setup : Setup) (t : Transfer) (s : Echelon)
    → IsOrder setup t
    → IsSound setup s
    → IsReviewed setup t.expected_receipt_date s (dispatch_event t ∷ [], dispatch setup t s)
dispatch-IsReviewed setup t s order sound = record {
  sound = dispatch-IsSound setup t s order sound;
  on_hand = dispatch-on_hand setup t s;
  keeps = λ day u h. dispatch-keeps setup t u day s h;
  due = (dispatch-IsDue setup t s, tt);
  date = (refl, tt);
}

review_variant-Reviewed :
    (setup : Setup) (day : ℕ) (store : Store) (lane : String × ℕ) (v : Variant) (s : Echelon)
    → IsStore setup store
    → IsSound setup s
    → Reviewed setup (day + lane.1) s (review_variant setup day store lane v s)
unfolding review_variant
review_variant-Reviewed setup day store lane v s known sound =
    let key : CellKey = (store.store_id, v.sku) in
    let trailing = trailing_units setup.review_cycle day (get_or key [] s.observed_demand) in
    let place = store-IsPlace setup store known in
    elim (Bool-cases (not (is_active setup key day) || leb_ℤ trailing (pos 0))) [
      | inl stop ↦ rw stop (([], s), refl, IsReviewed-nil setup _ s sound)
      | inr go ↦ elim (Option-cases (order_units setup day trailing (cell_at key s.cells))) [
        | inl e ↦ rw (go, e) (_, refl, touch-IsReviewed setup (day + lane.1) key s place sound)
        | inr found ↦
            let e = found.1 in
            let cost = minor_units-eq_ok (default_cost v.base_cost) setup store known in
            let t = order_for day store lane v found.0 known.market cost.0 in
            let order : IsOrder setup t = record {
              positive = order_units-positive setup day trailing (cell_at key s.cells) found.0 e;
              place = place;
              market = known.market;
              known = known.market_known;
            } in
            rw (go, e, known.market_known, cost.1)
              (_, refl, dispatch-IsReviewed setup t s order sound)
      ]
    ]

review_variants-Reviewed :
    (setup : Setup) (day : ℕ) (store : Store) (lane : String × ℕ) (vs : List Variant) (s : Echelon)
    → IsStore setup store
    → IsSound setup s
    → Reviewed setup (day + lane.1) s (review_variants setup day store lane vs s)
unfolding review_variants
review_variants-Reviewed setup day store lane [] s known sound =
    (([], s), refl, IsReviewed-nil setup _ s sound)
review_variants-Reviewed setup day store lane (v ∷ vs) s known sound =
    let f = review_variant-Reviewed setup day store lane v s known sound in
    let n = review_variants-Reviewed setup day store lane vs (f.0).1 known (f.2).sound in
    rw (f.1, n.1) (_, refl, IsReviewed-trans setup _ s f.0 n.0 f.2 n.2)

review_stores-Reviewed :
    (setup : Setup) (day : ℕ) (stores : List Store) (s : Echelon)
    → All (IsStore setup) stores
    → IsSound setup s
    → Reviewed setup (day + setup.primary_transit) s (review_stores setup day stores s)
unfolding review_stores
review_stores-Reviewed setup day [] s known sound = (([], s), refl, IsReviewed-nil setup _ s sound)
review_stores-Reviewed setup day (store ∷ stores) s known sound =
    let h = known.0 in
    let lane : String × ℕ = (h.warehouse, setup.primary_transit) in
    let f = review_variants-Reviewed setup day store lane h.variants s h sound in
    let n = review_stores-Reviewed setup day stores (f.0).1 known.1 (f.2).sound in
    rw (lane_for-eq_ok setup store h, h.stocked, f.1, n.1)
      (_, refl, IsReviewed-trans setup _ s f.0 n.0 f.2 n.2)

-- `review` on a day that it acts on
review-on :
    (setup : Setup) (day : ℕ) (s : Echelon)
    → setup.enabled ≡ true
    → review setup day s ≡ (
        raise_if (eqb setup.review_cycle 0) zero_division
        >> (if not (on_cycle setup setup.review_cycle day)
            then ok ([], s)
            else (raise_if (leb day (setup.review_cycle * 2)) date_overflow
                >> review_stores setup day (sort_by store_le (map (λ p. p.1) setup.stores)) s)))
unfolding review
review-on setup day s on = guard-passed setup.enabled _ _ on

review-off :
    (setup : Setup) (day : ℕ) (s : Echelon)
    → setup.enabled ≡ false
    → review setup day s ≡ ok ([], s)
unfolding review
review-off setup day s off = rw off refl

-- A review returns, where the dates of its window exist.
pub review-Reviewed :
    (setup : Setup) (day : ℕ) (s : Echelon)
    → IsSetup setup
    → setup.review_cycle * 2 < day
    → IsSound setup s
    → Reviewed setup (day + setup.primary_transit) s (review setup day s)
review-Reviewed setup day s known dated sound =
    let nothing : Reviewed setup (day + setup.primary_transit) s (ok ([], s)) =
      (_, refl, IsReviewed-nil setup _ s sound) in
    let one = known.cycle in
    let cycle : eqb setup.review_cycle 0 ≡ false = ground arith in
    let window : leb day (setup.review_cycle * 2) ≡ false = ground arith in
    elim (Bool-cases setup.enabled) [
      | inr off ↦ rw (review-off setup day s off) nothing
      | inl on ↦
          rw (review-on setup day s on, cycle)
            (elim (Bool-cases (on_cycle setup setup.review_cycle day)) [
              | inr other ↦ rw other nothing
              | inl reviewed ↦
                  rw (reviewed, window)
                    (review_stores-Reviewed setup day
                      (sort_by store_le (map (λ p. p.1) setup.stores)) s
                      (All-sort_by store_le (IsStore setup) (map (λ p. p.1) setup.stores)
                        (all_stores setup known))
                      sound)
            ])
    ]
