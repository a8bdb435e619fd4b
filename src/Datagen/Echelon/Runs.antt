-- ===== src/Datagen/Echelon/Runs.antt =====
-- Runs of the store echelon of datagen/src/retail_datagen/store_inventory.py: the opening stock, then
-- any steps.
use retail_intelligence.Decimal.{Decimal}
use retail_intelligence.Datagen.Echelon.Days.{Step, Step-IsStep}
use retail_intelligence.Datagen.Echelon.Openings.{seed_opening-IsSound}
use retail_intelligence.Datagen.Echelon.Snapshots.{snapshot-Shown}
use retail_intelligence.Datagen.Echelon.Reviews.{review-Reviewed}
use retail_intelligence.Datagen.Echelon.Expiry.{expire-IsSound}
use retail_intelligence.Datagen.Echelon.Receipts.{receive-IsReceipt}
use retail_intelligence.Datagen.Echelon.Publish.{snapshot}
use retail_intelligence.Datagen.Echelon.Configured.{IsSetup}
use retail_intelligence.Datagen.Echelon.State.{IsSound, on_hand_total}
use retail_intelligence.Datagen.Echelon.Review.{review}
use retail_intelligence.Datagen.Echelon.Flow.{seed_opening, receive, expire}
use retail_intelligence.Datagen.Echelon.Rows.{
  TransferEvent, WasteEvent, SnapshotRow, Echelon, new_echelon,
}
use retail_intelligence.Datagen.Echelon.Setup.{CellKey, Setup}
use retail_intelligence.Base.Result.{ok-determined, ok}
use retail_intelligence.Base.Dict.{Dict}
use retail_intelligence.Base.Equality.{nat_eq, string_eq, pair_eq, option_eq}
use retail_intelligence.Base.Int.{ℤ, ◌+ℤ◌, int_laws, pos}
use retail_intelligence.Base.{ℕ, ◌*◌, ◌<◌, String, ◌≡◌, Option, List}

-- A run that brought the first count of units to the stores and took the second from them.
pub data Runs (digest : String → ℕ) (setup : Setup) (rates : Dict CellKey Decimal)
    : Echelon → ℤ → ℤ → Type 0 where
  opened :
      (s : Echelon)
      → seed_opening digest setup rates new_echelon ≡ ok s
      → Runs digest setup rates s (on_hand_total s.cells) (pos 0)
  stepped :
      (s next : Echelon) (a b gained lost : ℤ) (day : Option ℕ)
      → Runs digest setup rates s a b
      → Step setup s day gained lost next
      → Runs digest setup rates next (a +ℤ gained) (b +ℤ lost)

-- In each state that a run on a sound configuration reaches, no count of a cell is negative, every
-- transfer that is still to arrive is among the units in transit of its cell, and the units on hand
-- in all stores together are those that opened or arrived, less those sold or expired.
pub Runs-IsSound :
    (digest : String → ℕ) (setup : Setup) (rates : Dict CellKey Decimal) (s : Echelon)
    (gained lost : ℤ)
    → IsSetup setup
    → Runs digest setup rates s gained lost
    → IsSound setup s × (on_hand_total s.cells +ℤ lost ≡ gained)
Runs-IsSound digest setup rates s gained lost known (opened start e) =
    let r = seed_opening-IsSound digest setup rates known in
    (ok-determined (IsSound setup) r.1 r.2 e, omega int_laws)
Runs-IsSound digest setup rates s gained lost known (stepped before next a b g l day run step) =
    let ih = Runs-IsSound digest setup rates before a b known run in
    let f = Step-IsStep setup before day g l next known ih.0 step in
    (f.sound, let now = f.balance in let then_ = ih.1 in omega int_laws)

-- In each state that a run on a sound configuration reaches, receiving and expiring return, and so do
-- a snapshot and, on a day that is later than two review cycles after the first date, a review.
pub Runs-returns :
    (digest : String → ℕ) (setup : Setup) (rates : Dict CellKey Decimal) (s : Echelon)
    (gained lost : ℤ) (day : ℕ)
    → IsSetup setup
    → setup.review_cycle * 2 < day
    → Runs digest setup rates s gained lost
    → ((a : List TransferEvent × Echelon) × (receive setup day s ≡ ok a))
      × ((b : List WasteEvent × Echelon) × (expire setup day s ≡ ok b))
      × ((c : List TransferEvent × Echelon) × (review setup day s ≡ ok c))
      × ((d : List SnapshotRow × Echelon) × (snapshot setup day s ≡ ok d))
Runs-returns digest setup rates s gained lost day known dated run =
    let sound = (Runs-IsSound digest setup rates s gained lost known run).0 in
    let a = receive-IsReceipt setup day s sound in
    let b = expire-IsSound setup day s sound in
    let c = review-Reviewed setup day s known dated sound in
    let d = snapshot-Shown setup day s known sound in
    ((a.0, a.1), (b.0, b.1), (c.0, c.1), (d.0, d.1))
