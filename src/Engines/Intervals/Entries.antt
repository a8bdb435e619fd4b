-- ===== src/Engines/Intervals/Entries.antt =====
-- The exceptions of the ledger: one for each skipped series, with a range of horizons.
use retail_intelligence.Engines.Intervals.Defs.{
  Floats, Series, Row, ExceptionEntry, PartialConsumerLedger, add_series, first_entry, withhold,
  skip_row,
}
use retail_intelligence.Base.Dict.{
  Dict, get, put, get_or, get-put, get_or-get, All-put, All-get_or, total, total-put,
}
use retail_intelligence.Base.Equality.{
  nat_eq, string_eq, ◌==◌, pair_beq_iff, pair_eq, option_eq, beq_refl,
}
use retail_intelligence.Base.Int.{ℤ, ◌+ℤ◌, ◌≤ℤ◌, min_ℤ_bounds, max_ℤ_bounds, int_laws, pos}
use retail_intelligence.Base.{
  ◌≡◌, refl, ap, ◌∙◌, inl, inr, some, List, [], ◌∷◌, map, arith, Bool-cases, All,
}

abbrev pub withheld : ExceptionEntry → ℤ
withheld e = pos e.withheld_horizon_count

abbrev pub IsRange : ExceptionEntry → Type 0
IsRange e = e.unavailable_from_horizon ≤ℤ e.unavailable_through_horizon

-- The exceptions add up to the skipped rows, there is one for each skipped series, and each has a
-- range of horizons.
pub record IsReconciled {floats : Floats} (l : PartialConsumerLedger floats) : Type 0 where
  pub counts :
      total (λ (e : ExceptionEntry). pos e.withheld_horizon_count) l.exceptions ≡ pos l.skipped_rows
  pub series : map (λ (p : Series × ExceptionEntry). p.0) l.exceptions ≡ l.skipped_series
  pub ranges :
      All
        (λ (p : Series × ExceptionEntry).
          p.1.unavailable_from_horizon ≤ℤ p.1.unavailable_through_horizon)
        l.exceptions

map-put :
    (s : Series) (e : ExceptionEntry) (d : Dict Series ExceptionEntry)
    → map (λ (p : Series × ExceptionEntry). p.0) (put s e d)
      ≡ add_series s (map (λ (p : Series × ExceptionEntry). p.0) d)
unfolding put add_series
map-put s e [] = refl
map-put s e ((t, f) ∷ d) = elim (Bool-cases (t == s)) [
  | inl same ↦ rw same refl
  | inr other ↦ rw other (ap (λ (ts : List Series). t ∷ ts) (map-put s e d))
]

withhold-IsRange : (h : ℤ) (e : ExceptionEntry) → IsRange e → IsRange (withhold h e)
unfolding withhold
withhold-IsRange h e range =
    let low = min_ℤ_bounds e.unavailable_from_horizon h in
    let high = max_ℤ_bounds e.unavailable_through_horizon h in omega arith

withheld-withhold : (h : ℤ) (e : ExceptionEntry) → withheld (withhold h e) ≡ withheld e +ℤ pos 1
unfolding withhold
withheld-withhold h e = omega int_laws

module _ {floats : Floats} (row : Row floats) where
  pub skip_row-IsReconciled :
      (l : PartialConsumerLedger floats) → IsReconciled l → IsReconciled (skip_row row l)
  unfolding skip_row
  skip_row-IsReconciled l r =
      let first = first_entry row.horizon_week in
      let entry = get_or row.series first l.exceptions in
      let next = withhold row.horizon_week entry in
      record {
        counts =
            let before = r.counts in
            let step = total-put withheld row.series first next l.exceptions refl in
            let one = withheld-withhold row.horizon_week entry in omega int_laws;
        series = map-put row.series next l.exceptions ∙ ap (add_series row.series) r.series;
        ranges =
            All-put IsRange row.series next l.exceptions
              (withhold-IsRange row.horizon_week entry
                (All-get_or IsRange row.series first l.exceptions (omega arith) r.ranges))
              r.ranges;
      }

-- the exception of the series has the horizon in its range
abbrev pub IsCovered : Dict Series ExceptionEntry → Series → ℤ → Type 0
IsCovered d s h =
    (e : ExceptionEntry) × (get s d ≡ some e)
    × (e.unavailable_from_horizon ≤ℤ h)
    × (h ≤ℤ e.unavailable_through_horizon)

abbrev pub recorded : Series → ℤ → Dict Series ExceptionEntry → Dict Series ExceptionEntry
recorded s h d = put s (withhold h (get_or s (first_entry h) d)) d

pub recorded-IsCovered :
    (s : Series) (h : ℤ) (d : Dict Series ExceptionEntry) → IsCovered (recorded s h d) s h
unfolding withhold
recorded-IsCovered s h d =
    let entry = get_or s (first_entry h) d in
    let low = min_ℤ_bounds entry.unavailable_from_horizon h in
    let high = max_ℤ_bounds entry.unavailable_through_horizon h in
    (withhold h entry, get-put s s _ d ∙ rw (beq_refl s) refl, omega arith, omega arith)

pub recorded-keeps :
    (s t : Series) (h k : ℤ) (d : Dict Series ExceptionEntry)
    → IsCovered d t k
    → IsCovered (recorded s h d) t k
unfolding withhold
recorded-keeps s t h k d (e, found, from, through) = elim (Bool-cases (s == t)) [
  | inr other ↦ (e, get-put s t _ d ∙ rw other found, from, through)
  | inl same ↦
      let alike : s ≡ t = (pair_beq_iff s t).0 same in
      let here : get_or s (first_entry h) d ≡ e =
        get_or-get s (first_entry h) d ∙ rw alike (rw found refl) in
      let low = min_ℤ_bounds e.unavailable_from_horizon h in
      let high = max_ℤ_bounds e.unavailable_through_horizon h in
      (
        withhold h e,
        get-put s t _ d ∙ rw same (ap (λ (x : ExceptionEntry). some (withhold h x)) here),
        omega arith,
        omega arith,
      )
]
