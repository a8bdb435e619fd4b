-- ===== src/Datagen/Echelon/Days.antt =====
-- The steps of the store echelon of datagen/src/retail_datagen/store_inventory.py, in any order, as
-- datagen/src/retail_datagen/simulation.py takes them day by day.
use retail_intelligence.Datagen.Echelon.Snapshots.{IsTaken, snapshot-Shown}
use retail_intelligence.Datagen.Echelon.Reviews.{IsReviewed, review-Reviewed}
use retail_intelligence.Datagen.Echelon.Expiry.{wasted_units, expire-IsSound}
use retail_intelligence.Datagen.Echelon.Sales.{sell-IsSold}
use retail_intelligence.Datagen.Echelon.Receipts.{
  units_of, transfers_of, IsReceipt, receive-IsReceipt,
}
use retail_intelligence.Datagen.Echelon.Configured.{IsSetup}
use retail_intelligence.Datagen.Echelon.Publish.{snapshot}
use retail_intelligence.Datagen.Echelon.State.{IsIn, IsDue, IsPlace, IsSound, on_hand_total}
use retail_intelligence.Datagen.Echelon.Review.{review}
use retail_intelligence.Datagen.Echelon.Flow.{receive, sell, expire}
use retail_intelligence.Datagen.Echelon.Rows.{
  Transfer, TransferEvent, WasteEvent, SnapshotRow, Echelon,
}
use retail_intelligence.Datagen.Echelon.Setup.{CellKey, Setup}
use retail_intelligence.Base.Result.{ok-determined, ok}
use retail_intelligence.Base.Dict.{get_or}
use retail_intelligence.Base.Equality.{nat_eq, string_eq, pair_eq, option_eq}
use retail_intelligence.Base.Int.{ℤ, ◌+ℤ◌, int_laws, pos}
use retail_intelligence.Base.{ℕ, ◌+◌, ◌*◌, ◌<◌, ◌≡◌, sym, ap, Option, none, some, List, []}
use mathlib.Core.Path.{subst}

-- One step: the day whose transfers it receives, the units it brings to the stores, and the units it
-- takes from them.
pub data Step (setup : Setup) (s : Echelon) : Option ℕ → ℤ → ℤ → Echelon → Type 0 where
  receiving :
      (day : ℕ) (out : List TransferEvent × Echelon)
      → receive setup day s ≡ ok out
      → Step setup s (some day) (units_of (transfers_of out.0)) (pos 0) out.1
  expiring :
      (day : ℕ) (out : List WasteEvent × Echelon)
      → expire setup day s ≡ ok out
      → Step setup s none (pos 0) (wasted_units out.0) out.1
  selling :
      (day : ℕ) (key : CellKey) (units : ℤ)
      → IsPlace setup key.0
      → Step setup s none
          (pos 0)
          ((sell setup day key units s).0).0
          ((sell setup day key units s).1)
  reviewing :
      (day : ℕ) (out : List TransferEvent × Echelon)
      → setup.review_cycle * 2 < day
      → review setup day s ≡ ok out
      → Step setup s none (pos 0) (pos 0) out.1
  showing :
      (day : ℕ) (out : List SnapshotRow × Echelon)
      → snapshot setup day s ≡ ok out
      → Step setup s none (pos 0) (pos 0) out.1

-- What a step does to a sound state.
pub record IsStep (setup : Setup) (s : Echelon) (day : Option ℕ) (gained lost : ℤ) (next : Echelon)
    : Type 0 where
  pub sound : IsSound setup next
  pub balance : on_hand_total next.cells +ℤ lost ≡ on_hand_total s.cells +ℤ gained
  pub keeps : (d : ℕ) (t : Transfer) → ¬ (day ≡ some d) → IsDue d t s → IsDue d t next

abbrev Expired : Setup → Echelon → List WasteEvent × Echelon → Type 0
Expired setup s out =
    IsSound setup out.1
    × (on_hand_total (out.1).cells +ℤ wasted_units out.0 ≡ on_hand_total s.cells)
    × ((out.1).arrivals ≡ s.arrivals)

same_arrivals :
    (s next : Echelon) (d : ℕ) (t : Transfer)
    → next.arrivals ≡ s.arrivals
    → IsDue d t s
    → IsDue d t next
same_arrivals s next d t e h = subst (λ a. IsIn t (get_or d [] a)) (sym e) h

pub Step-IsStep :
    (setup : Setup) (s : Echelon) (day : Option ℕ) (gained lost : ℤ) (next : Echelon)
    → IsSetup setup
    → IsSound setup s
    → Step setup s day gained lost next
    → IsStep setup s day gained lost next
Step-IsStep setup s day gained lost next known sound (receiving d out e) =
    let r = receive-IsReceipt setup d s sound in
    let f = ok-determined (IsReceipt setup d s) r.1 r.2 e in
    record {
      sound = f.sound;
      balance = let b = f.balance in omega int_laws;
      keeps = λ x t other h. f.keeps x t (λ e. other (ap some (sym e))) h;
    }
Step-IsStep setup s day gained lost next known sound (expiring d out e) =
    let r = expire-IsSound setup d s sound in
    let f = ok-determined (Expired setup s) r.1 (r.2, r.3, r.4) e in
    record {
      sound = f.0;
      balance = let b = f.1 in omega int_laws;
      keeps = λ x t other h. same_arrivals s out.1 x t f.2 h;
    }
Step-IsStep setup s day gained lost next known sound (selling d key units place) =
    let f = sell-IsSold setup d key units s place sound in
    record {
      sound = f.sound;
      balance = let b = f.balance in omega int_laws;
      keeps = λ x t other h. same_arrivals s ((sell setup d key units s).1) x t f.kept h;
    }
Step-IsStep setup s day gained lost next known sound (reviewing d out dated e) =
    let r = review-Reviewed setup d s known dated sound in
    let f = ok-determined (IsReviewed setup (d + setup.primary_transit) s) r.1 r.2 e in
    record {
      sound = f.sound;
      balance = let b = f.on_hand in omega int_laws;
      keeps = λ x t other h. f.keeps x t h;
    }
Step-IsStep setup s day gained lost next known sound (showing d out e) =
    let r = snapshot-Shown setup d s known sound in
    let f = ok-determined (IsTaken setup d s) r.1 r.2 e in
    record {
      sound = f.sound;
      balance = let b = f.balance in omega int_laws;
      keeps = λ x t other h. same_arrivals s out.1 x t f.arrivals h;
    }
