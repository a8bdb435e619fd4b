-- ===== src/Engines/Intervals/Ledger.antt =====
-- The ledger of a partial consumer accounts for every row that it skipped.
use retail_intelligence.Engines.Intervals.Entries.{
  IsReconciled, skip_row-IsReconciled, IsCovered, recorded-IsCovered, recorded-keeps,
}
use retail_intelligence.Engines.Intervals.Defs.{
  GuardError, Floats, Series, Row, PartialConsumerLedger, new_ledger, count_row, skip_row, observe,
  availability_missing,
}
use retail_intelligence.Base.Result.{Result, ◌>>=◌, >>=-eq-ok, ok-injective, from_option, ok}
use retail_intelligence.Base.Equality.{nat_eq, string_eq, pair_eq, option_eq}
use retail_intelligence.Base.Int.{ℤ}
use retail_intelligence.Base.{
  ℕ, suc, ◌+◌, ◌≡◌, refl, ap, ◌∙◌, ◌⊎◌, inl, inr, Bool, true, false, not, Option, none, some, List,
  [], ◌∷◌, arith, if◌then◌else◌, Bool-cases, length, All,
}
use mathlib.Core.Path.{subst}

abbrev pub is_withheld : Option Bool → Bool
is_withheld (some false) = true
is_withheld _ = false

told-flag :
    (o : Option Bool) (b : Bool) → from_option availability_missing o ≡ ok b → is_withheld o ≡ not b
told-flag none b e = absurd (ground arith)
told-flag (some true) b e = ground arith
told-flag (some false) b e = ground arith

module _ {floats : Floats} where
  -- all rows of a run, one after another
  unfoldable pub observe_all :
      List (Row floats)
      → PartialConsumerLedger floats
      → Result GuardError (PartialConsumerLedger floats)
  observe_all [] l = ok l
  observe_all (row ∷ rows) l = do step ← observe row l; observe_all rows step.1

  -- how many of the rows have no interval
  abbrev pub withheld_count : List (Row floats) → ℕ
  withheld_count [] = 0
  withheld_count (row ∷ rows) =
      let rest = withheld_count rows in
      if is_withheld row.interval_available then suc rest else rest

  -- what observing the rows does to a ledger
  record IsExtended (rows : List (Row floats)) (l m : PartialConsumerLedger floats) : Type 0 where
    reconciled : IsReconciled m
    total : m.total_rows ≡ length rows + l.total_rows
    skipped : m.skipped_rows ≡ withheld_count rows + l.skipped_rows
    keeps : (s : Series) (h : ℤ) → IsCovered l.exceptions s h → IsCovered m.exceptions s h
    covers :
        All
          (λ (row : Row floats).
            is_withheld row.interval_available ≡ true
            → IsCovered m.exceptions row.series row.horizon_week)
          rows

  count_row-IsExtended :
      (row : Row floats) (l : PartialConsumerLedger floats)
      → is_withheld row.interval_available ≡ false
      → IsReconciled l
      → IsExtended (row ∷ []) l (count_row row l)
  unfolding count_row
  count_row-IsExtended row l given r = record {
    reconciled = record { counts = r.counts; series = r.series; ranges = r.ranges };
    total = omega arith;
    skipped = rw given (omega arith);
    keeps = λ s h c. c;
    covers = (λ missing. absurd (ground (arith, given, missing)), tt);
  }

  skip_row-IsExtended :
      (row : Row floats) (l : PartialConsumerLedger floats)
      → is_withheld row.interval_available ≡ true
      → IsReconciled l
      → IsExtended (row ∷ []) l (skip_row row (count_row row l))
  unfolding count_row skip_row
  skip_row-IsExtended row l missing r = record {
    reconciled =
        skip_row-IsReconciled row (count_row row l)
          (record { counts = r.counts; series = r.series; ranges = r.ranges });
    total = omega arith;
    skipped = rw missing (omega arith);
    keeps = λ s h. recorded-keeps row.series s row.horizon_week h l.exceptions;
    covers = (λ _. recorded-IsCovered row.series row.horizon_week l.exceptions, tt);
  }

  -- what `observe` gives for a row whose flag is known
  abbrev after :
      Row floats → PartialConsumerLedger floats → Bool → Bool × PartialConsumerLedger floats
  after row l available =
      if available then (true, count_row row l) else (false, skip_row row (count_row row l))

  observe-cases :
      (row : Row floats) (l : PartialConsumerLedger floats)
      {step : Bool × PartialConsumerLedger floats}
      → observe row l ≡ ok step
      → ((is_withheld row.interval_available ≡ false) × (count_row row l ≡ step.1))
        ⊎ ((is_withheld row.interval_available ≡ true) × (skip_row row (count_row row l) ≡ step.1))
  unfolding observe
  observe-cases row l {step} e =
      let (available, told, last) =
        >>=-eq-ok (from_option availability_missing row.interval_available) _ e in
      let same : after row l available ≡ step = ok-injective last in
      let flag = told-flag row.interval_available available told in
      elim (Bool-cases available) [
        | inl offered ↦
            let counted : (true, count_row row l) ≡ step = rw offered at same in
            inl
              (flag ∙ ap not offered, ap (λ (p : Bool × PartialConsumerLedger floats). p.1) counted)
        | inr no_interval ↦
            let skipped : (false, skip_row row (count_row row l)) ≡ step = rw no_interval at same in
            inr (
              flag ∙ ap not no_interval,
              ap (λ (p : Bool × PartialConsumerLedger floats). p.1) skipped,
            )
      ]

  observe-IsExtended :
      (row : Row floats) (l : PartialConsumerLedger floats)
      {step : Bool × PartialConsumerLedger floats}
      → IsReconciled l
      → observe row l ≡ ok step
      → IsExtended (row ∷ []) l step.1
  observe-IsExtended row l r e = elim (observe-cases row l e) [
    | inl (given, same) ↦ subst (IsExtended (row ∷ []) l) same (count_row-IsExtended row l given r)
    | inr (missing, same) ↦
        subst (IsExtended (row ∷ []) l) same (skip_row-IsExtended row l missing r)
  ]

  IsExtended-trans :
      (row : Row floats) (rows : List (Row floats)) (k l m : PartialConsumerLedger floats)
      → IsExtended (row ∷ []) k l
      → IsExtended rows l m
      → IsExtended (row ∷ rows) k m
  IsExtended-trans row rows k l m a b = record {
    reconciled = b.reconciled;
    total = let x = a.total in let y = b.total in omega arith;
    skipped = let x = a.skipped in let y = b.skipped in ground arith;
    keeps = λ s h c. b.keeps s h (a.keeps s h c);
    covers = (λ missing. b.keeps row.series row.horizon_week (a.covers.0 missing), b.covers);
  }

  observe_all-IsExtended :
      (rows : List (Row floats)) (l : PartialConsumerLedger floats)
      {m : PartialConsumerLedger floats}
      → IsReconciled l
      → observe_all rows l ≡ ok m
      → IsExtended rows l m
  unfolding observe_all
  observe_all-IsExtended [] l r e = subst (IsExtended [] l) (ok-injective e) (record {
    reconciled = r;
    total = omega arith;
    skipped = omega arith;
    keeps = λ s h c. c;
    covers = tt;
  })
  observe_all-IsExtended (row ∷ rows) l {m} r e =
      let (step, once, later) = >>=-eq-ok (observe row l) _ e in
      let a = observe-IsExtended row l r once in
      IsExtended-trans row rows l step.1 m a (observe_all-IsExtended rows step.1 a.reconciled later)

  -- When every row of a run has been observed, the ledger counts the rows and those without an
  -- interval, its exceptions add up to the latter with one exception for each skipped series, and the
  -- range of the exception of every skipped row's series has the row's horizon in it.
  pub observe_all-reconciles :
      (rows : List (Row floats)) {l : PartialConsumerLedger floats}
      → observe_all rows (new_ledger floats) ≡ ok l
      → (l.total_rows ≡ length rows)
        × (l.skipped_rows ≡ withheld_count rows)
        × IsReconciled l
        × All
            (λ (row : Row floats).
              is_withheld row.interval_available ≡ true
              → IsCovered l.exceptions row.series row.horizon_week)
            rows
  observe_all-reconciles rows e =
      let x =
        observe_all-IsExtended rows (new_ledger floats)
          (record { counts = refl; series = refl; ranges = tt }) e in
      let t = x.total in let s = x.skipped in (omega arith, omega arith, x.reconciled, x.covers)
