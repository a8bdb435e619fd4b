-- ===== src/Datagen/Echelon/Delivery.antt =====
-- The days of a run of the store echelon of datagen/src/retail_datagen/store_inventory.py, one after
-- another, as the loop over days of datagen/src/retail_datagen/simulation.py calls it: each day starts
-- with `receive`.
use retail_intelligence.Decimal.{Decimal}
use retail_intelligence.Datagen.Echelon.Runs.{Runs, Runs-IsSound}
use retail_intelligence.Datagen.Echelon.Days.{Step, Step-IsStep}
use retail_intelligence.Datagen.Echelon.Reviews.{IsReviewed, review-Reviewed}
use retail_intelligence.Datagen.Echelon.Receipts.{transfers_of, IsReceipt, receive-IsReceipt}
use retail_intelligence.Datagen.Echelon.Configured.{IsSetup}
use retail_intelligence.Datagen.Echelon.State.{IsIn, IsDue, IsSound}
use retail_intelligence.Datagen.Echelon.Review.{review}
use retail_intelligence.Datagen.Echelon.Flow.{receive}
use retail_intelligence.Datagen.Echelon.Rows.{Transfer, TransferEvent, Echelon}
use retail_intelligence.Datagen.Echelon.Setup.{CellKey, Setup}
use retail_intelligence.Base.Result.{ok-determined, ok}
use retail_intelligence.Base.Dict.{Dict}
use retail_intelligence.Base.Equality.{nat_eq, string_eq, pair_eq, option_eq}
use retail_intelligence.Base.Int.{ℤ}
use retail_intelligence.Base.{
  ℕ, suc, ◌+◌, ◌*◌, ◌≤◌, ◌<◌, String, ◌≡◌, sym, inl, inr, true, none, List, [], ◌∷◌, ◌++◌, arith,
  ltb, Bool-cases, All,
}
use mathlib.Core.Path.{subst}

-- The rest of a day: expiry, sales, the review and the snapshot, and whatever else receives nothing.
pub data Rest (setup : Setup) (s : Echelon) : Echelon → Type 0 where
  done : Rest setup s s
  more :
      (t next : Echelon) (gained lost : ℤ)
      → Rest setup s t
      → Step setup t none gained lost next
      → Rest setup s next

-- The days from one day on, up to the start of a later one, with all transfers received in them.
pub data DayRun (setup : Setup) (from : ℕ) (s : Echelon)
    : ℕ → List Transfer → Echelon → Type 0 where
  started : DayRun setup from s from [] s
  passed :
      (day : ℕ) (received_so_far : List Transfer) (t : Echelon) (got : List TransferEvent × Echelon)
      (next : Echelon)
      → DayRun setup from s day received_so_far t
      → receive setup day t ≡ ok got
      → Rest setup got.1 next
      → DayRun setup from s (suc day) (received_so_far ++ transfers_of got.0) next

Rest-keeps :
    (setup : Setup) (s u : Echelon)
    → IsSetup setup
    → IsSound setup s
    → Rest setup s u
    → IsSound setup u × ((day : ℕ) (t : Transfer) → IsDue day t s → IsDue day t u)
Rest-keeps setup s u known sound Rest.done = (sound, λ day t h. h)
Rest-keeps setup s u known sound (Rest.more before next gained lost rest step) =
    let ih = Rest-keeps setup s before known sound rest in
    let f = Step-IsStep setup before none gained lost next known ih.0 step in
    (f.sound, λ day t h. f.keeps day t (λ e. absurd (ground (arith, e))) (ih.1 day t h))

IsIn-append_left : (t : Transfer) (ts us : List Transfer) → IsIn t ts → IsIn t (ts ++ us)
IsIn-append_left t [] us h = absurd h
IsIn-append_left t (x ∷ ts) us (inl same) = inl same
IsIn-append_left t (x ∷ ts) us (inr h) = inr (IsIn-append_left t ts us h)

IsIn-append_right : (t : Transfer) (ts us : List Transfer) → IsIn t us → IsIn t (ts ++ us)
IsIn-append_right t [] us h = h
IsIn-append_right t (x ∷ ts) us h = inr (IsIn-append_right t ts us h)

-- An order is still to come until its day has passed, and is among what was received from then on.
record IsAwaited (setup : Setup) (receipt : ℕ) (t : Transfer) (day : ℕ) (log : List Transfer)
    (s : Echelon) : Type 0 where
  sound : IsSound setup s
  due : day ≤ receipt → IsDue receipt t s
  arrived : receipt < day → IsIn t log

DayRun-IsAwaited :
    (setup : Setup) (from receipt : ℕ) (t : Transfer) (s : Echelon) (last : ℕ) (log : List Transfer)
    (u : Echelon)
    → IsSetup setup
    → setup.enabled ≡ true
    → IsSound setup s
    → IsDue receipt t s
    → from ≤ receipt
    → DayRun setup from s last log u
    → IsAwaited setup receipt t last log u
DayRun-IsAwaited setup from receipt t s last log u known on sound due ahead DayRun.started =
    record { sound = sound; due = λ _. due; arrived = λ past. absurd (omega arith) }
DayRun-IsAwaited setup from receipt t s last log u known on sound due ahead
      (DayRun.passed day before start got next run e rest) =
    let ih =
      DayRun-IsAwaited setup from receipt t s day before start known on sound due ahead run in
    let r = receive-IsReceipt setup day start ih.sound in
    let f = ok-determined (IsReceipt setup day start) r.1 r.2 e in
    let after = Rest-keeps setup got.1 next known f.sound rest in
    record {
      sound = after.0;
      due = λ coming.
          let other : ¬ (receipt ≡ day) = λ same. absurd (omega arith) in
          after.1 receipt t (f.keeps receipt t other (ih.due (omega arith)));
      arrived = λ past. elim (Bool-cases (ltb receipt day)) [
        | inl earlier ↦ IsIn-append_left t before (transfers_of got.0) (ih.arrived (ground arith))
        | inr later ↦
            let today : receipt ≡ day = ground arith in
            let now = ih.due (omega arith) in
            IsIn-append_right t before (transfers_of got.0)
              (subst (λ ts. IsIn t ts) (sym (f.events on)) (subst (λ d. IsDue d t start) today now))
      ];
    }

-- what holds of the transfer of each event holds of each transfer
of_transfer :
    (P : Transfer → Type 0) (t : Transfer) (events : List TransferEvent)
    → All (λ (e : TransferEvent). P e.transfer) events
    → IsIn t (transfers_of events)
    → P t
of_transfer P t [] h i = absurd i
of_transfer P t (e ∷ events) h (inl same) = subst P same h.0
of_transfer P t (e ∷ events) h (inr i) = of_transfer P t events h.1 i

-- With a transit of at least one day, an order that a review places in a reached state, with a receipt
-- day within the run, arrives: once the rest of the day and then day after day, each starting with
-- `receive`, have gone by up to a day after its receipt day, it is among the transfers received.
-- Receiving never stops the days: on the day that they have come to it returns.
pub review-delivers :
    (digest : String → ℕ) (setup : Setup) (rates : Dict CellKey Decimal) (s : Echelon)
    (gained lost : ℤ) (today : ℕ) (out : List TransferEvent × Echelon) (t : Transfer)
    (evening : Echelon) (last : ℕ) (log : List Transfer) (u : Echelon)
    → IsSetup setup
    → setup.enabled ≡ true
    → 1 ≤ setup.primary_transit
    → setup.review_cycle * 2 < today
    → Runs digest setup rates s gained lost
    → review setup today s ≡ ok out
    → IsIn t (transfers_of out.0)
    → t.expected_receipt_date ≤ setup.end_date
    → Rest setup out.1 evening
    → DayRun setup (suc today) evening last log u
    → t.expected_receipt_date < last
    → IsIn t log × (got : List TransferEvent × Echelon) × (receive setup last u ≡ ok got)
review-delivers digest setup rates s gained lost today out t evening last log u known on transit
      dated run e i soon rest days past =
    let sound = (Runs-IsSound digest setup rates s gained lost known run).0 in
    let r = review-Reviewed setup today s known dated sound in
    let f = ok-determined (IsReviewed setup (today + setup.primary_transit) s) r.1 r.2 e in
    let due =
      of_transfer
        (λ x. x.expected_receipt_date ≤ setup.end_date → IsDue x.expected_receipt_date x out.1) t
        out.0 f.due i soon in
    let date =
      of_transfer (λ x. x.expected_receipt_date ≡ today + setup.primary_transit) t out.0 f.date i in
    let after = Rest-keeps setup out.1 evening known f.sound rest in
    let end =
      DayRun-IsAwaited setup (suc today) t.expected_receipt_date t evening last log u known on
        after.0 (after.1 t.expected_receipt_date t due) (omega arith) days in
    let next = receive-IsReceipt setup last u end.sound in (end.arrived past, next.0, next.1)
