-- ===== src/Engines/Intervals/Summary.antt =====
-- What the market summary says of a run.
use retail_intelligence.Engines.Intervals.Ledger.{
  is_withheld, observe_all, withheld_count, observe_all-reconciles,
}
use retail_intelligence.Engines.Intervals.Defs.{
  Floats, Row, PartialConsumerLedger, new_ledger, market_summary,
}
use retail_intelligence.Base.Result.{ok}
use retail_intelligence.Base.Equality.{nat_eq, string_eq, pair_eq, option_eq}
use retail_intelligence.Base.{
  suc, ◌≤◌, ◌≡◌, refl, ap, ◌↔◌, inl, inr, true, List, [], ◌∷◌, arith, Bool-cases, length, All,
}

module _ {floats : Floats} where
  pub withheld_count-le : (rows : List (Row floats)) → withheld_count rows ≤ length rows
  withheld_count-le [] = omega arith
  withheld_count-le (row ∷ rows) = let ih = withheld_count-le rows in ground (arith, ih)

  pub withheld_count-eq_length :
      (rows : List (Row floats))
      → (withheld_count rows ≡ length rows)
        ↔ All (λ (row : Row floats). is_withheld row.interval_available ≡ true) rows
  withheld_count-eq_length [] = (λ _. tt, λ _. refl)
  withheld_count-eq_length (row ∷ rows) =
      let ih = withheld_count-eq_length rows in
      let bound = withheld_count-le rows in
      elim (Bool-cases (is_withheld row.interval_available)) [
        | inl missing ↦ (
          λ e.
              let e' : suc (withheld_count rows) ≡ suc (length rows) = rw missing at e in
              (missing, ih.0 (omega arith)),
          λ h. rw missing (ap suc (ih.1 h.1)),
        )
        | inr given ↦ (
          λ e.
              absurd
                (let e' : withheld_count rows ≡ suc (length rows) = rw given at e in omega arith),
          λ h. absurd (ground (arith, given, h.0)),
        )
      ]

  -- The summary of a run says that the whole consumer is unavailable exactly if there were rows and
  -- none of them had an interval.
  pub market_summary-whole_iff :
      (rows : List (Row floats)) {l : PartialConsumerLedger floats}
      → observe_all rows (new_ledger floats) ≡ ok l
      → ((market_summary l).whole_consumer_unavailable ≡ true) ↔ (
          (1 ≤ length rows)
          × All (λ (row : Row floats). is_withheld row.interval_available ≡ true) rows)
  unfolding market_summary
  market_summary-whole_iff rows e =
      let x = observe_all-reconciles rows e in
      let all = withheld_count-eq_length rows in
      let t = x.0 in
      let s = x.1 in
      (
        λ whole. (ground (arith, whole), all.0 (ground (arith, whole, t, s))),
        λ h. let same = all.1 h.1 in let some_row = h.0 in ground (arith, t, s, same, some_row),
      )
