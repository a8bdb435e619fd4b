-- ===== src/Engines/Transfers/Limits.antt =====
-- What `recommend_transfers` moves stays within what each source may give and each target may take.

use retail_intelligence.Base.Result.{ok}
use retail_intelligence.Base.Sort.{sort_by}
use retail_intelligence.Engines.Transfers.Defs.{
  TransferCandidate, Recommendation, StockKey, Units, units_at, source_key, target_key,
  movable_units, take_units, recommend, is_skipped, select_transfers, benefit_le,
  recommend_transfers,
}
use retail_intelligence.Base.Dict.{put, get_or-put}
use retail_intelligence.Base.Equality.{◌==◌, nat_eq, string_eq, pair_eq, option_eq}
use retail_intelligence.Base.Int.{
  ℤ, ◌+ℤ◌, ◌-ℤ◌, ◌≤ℤ◌, ◌<ℤ◌, leb_ℤ, min_ℤ, max_ℤ, lt_of_not-leb_ℤ, max_ℤ_cases, min_ℤ_bounds,
  int_laws, pos,
}
use retail_intelligence.Base.{
  ◌≡◌, refl, ap, ◌⊎◌, inl, inr, false, ◌||◌, List, [], ◌∷◌, if◌then◌else◌, Bool-cases, or-eq_false,
  arith,
}

-- the units that a list of recommendations takes from a source, and brings to a target
abbrev pub moved_from : StockKey → List Recommendation → ℤ
moved_from k [] = pos 0
moved_from k (r ∷ rs) = (if source_key r.candidate == k then r.units else pos 0) +ℤ moved_from k rs

abbrev pub moved_to : StockKey → List Recommendation → ℤ
moved_to k [] = pos 0
moved_to k (r ∷ rs) = (if target_key r.candidate == k then r.units else pos 0) +ℤ moved_to k rs

pub movable_units_bounds :
    (c : TransferCandidate) (reserve atp headroom : Units)
    → leb_ℤ (movable_units c reserve (atp, headroom)) (pos 0) ≡ false
    → let movable = movable_units c reserve (atp, headroom) in
      (pos 0 <ℤ movable)
      × (movable ≤ℤ c.units)
      × (units_at (source_key c) reserve +ℤ movable ≤ℤ units_at (source_key c) atp)
      × (movable ≤ℤ units_at (target_key c) headroom)
unfolding movable_units
movable_units_bounds c reserve atp headroom some_units =
    let spare : ℤ = units_at (source_key c) atp -ℤ units_at (source_key c) reserve in
    let room : ℤ = units_at (target_key c) headroom in
    let outer = min_ℤ_bounds (min_ℤ c.units (max_ℤ (pos 0) spare)) room in
    let inner = min_ℤ_bounds c.units (max_ℤ (pos 0) spare) in
    let positive : pos 0 <ℤ min_ℤ (min_ℤ c.units (max_ℤ (pos 0) spare)) room =
      lt_of_not-leb_ℤ _ (pos 0) some_units in
    elim (max_ℤ_cases (pos 0) spare) [
      | inl none_spare ↦ absurd (omega int_laws)
      | inr some_spare ↦ (positive, omega int_laws, omega int_laws, outer.1)
    ]

-- One withdrawal of `taken` units at `key`, which leaves there at least what `keep` asks for: the
-- account of any key `k` still adds up, and ends at `keep` or above if anything was taken from it.
module _ (keep : StockKey → ℤ) (key k : StockKey) (d : Units) (taken later final : ℤ) where
  abbrev here : ℤ
  here = if key == k then taken else pos 0

  account :
      keep key +ℤ taken ≤ℤ units_at key d
      → later +ℤ final ≡ units_at k (put key (units_at key d -ℤ taken) d)
      → (later ≡ pos 0) ⊎ (keep k ≤ℤ final)
      → (here +ℤ later +ℤ final ≡ units_at k d) × ((here +ℤ later ≡ pos 0) ⊎ (keep k ≤ℤ final))
  account room sums kept =
      let left : ℤ = units_at key d -ℤ taken in
      let after = rw (get_or-put key k (pos 0) left d) at sums in
      elim (Bool-cases (key == k)) [
        | inl same ↦
            let e : key ≡ k = (pair_eq.is_eq_iff key k).0 same in
            let after' : later +ℤ final ≡ left = rw same at after in
            let left' : units_at key d ≡ units_at k d = ap (λ (j : StockKey). units_at j d) e in
            let keep' : keep key ≡ keep k = ap keep e in
            rw same (
              omega int_laws,
              elim kept [ inl none_later ↦ inr (omega int_laws) | inr enough ↦ inr enough ],
            )
        | inr other ↦
            let after' : later +ℤ final ≡ units_at k d = rw other at after in
            rw other (
              omega int_laws,
              elim kept [ inl none_later ↦ inl (omega int_laws) | inr enough ↦ inr enough ],
            )
      ]

module _ (reserve : Units) (k : StockKey) where
  -- What is moved and what remains make up what was there, and a source that gives anything keeps
  -- its residual cover.
  select_transfers-source :
      (cs : List TransferCandidate) (atp headroom : Units)
      → let out = select_transfers reserve cs (atp, headroom) in
        (moved_from k out.0 +ℤ units_at k out.1.0 ≡ units_at k atp)
        × ((moved_from k out.0 ≡ pos 0) ⊎ (units_at k reserve ≤ℤ units_at k out.1.0))
  unfolding select_transfers recommend take_units
  select_transfers-source [] atp headroom = (omega int_laws, inl refl)
  select_transfers-source (c ∷ cs) atp headroom =
      let movable : ℤ = movable_units c reserve (atp, headroom) in
      let (atp', headroom') = take_units c movable (atp, headroom) in
      elim (Bool-cases (is_skipped c || leb_ℤ movable (pos 0))) [
        | inl skip ↦ rw skip (select_transfers-source cs atp headroom)
        | inr move ↦
            let ih = select_transfers-source cs atp' headroom' in
            rw move (
              account (λ j. units_at j reserve) (source_key c) k atp movable _ _
                (movable_units_bounds c reserve atp headroom (or-eq_false _ _ move).1).2 ih.0 ih.1)
      ]

  select_transfers-target :
      (cs : List TransferCandidate) (atp headroom : Units)
      → let out = select_transfers reserve cs (atp, headroom) in
        (moved_to k out.0 +ℤ units_at k out.1.1 ≡ units_at k headroom)
        × ((moved_to k out.0 ≡ pos 0) ⊎ (pos 0 ≤ℤ units_at k out.1.1))
  unfolding select_transfers recommend take_units
  select_transfers-target [] atp headroom = (omega int_laws, inl refl)
  select_transfers-target (c ∷ cs) atp headroom =
      let movable : ℤ = movable_units c reserve (atp, headroom) in
      let (atp', headroom') = take_units c movable (atp, headroom) in
      elim (Bool-cases (is_skipped c || leb_ℤ movable (pos 0))) [
        | inl skip ↦ rw skip (select_transfers-target cs atp headroom)
        | inr move ↦
            let ih = select_transfers-target cs atp' headroom' in
            let cap = (movable_units_bounds c reserve atp headroom (or-eq_false _ _ move).1).3 in
            rw move (
              account (λ _. pos 0) (target_key c) k headroom movable _ _ (omega int_laws) ih.0 ih.1)
      ]

-- At every source the recommendations leave the residual cover, and no target takes more than its
-- headroom.
abbrev pub IsWithin : Units → Units → Units → List Recommendation → Type 0
IsWithin atp reserve headroom rs =
    (k : StockKey)
    → ((moved_from k rs ≡ pos 0) ⊎ (units_at k reserve +ℤ moved_from k rs ≤ℤ units_at k atp))
      × ((moved_to k rs ≡ pos 0) ⊎ (moved_to k rs ≤ℤ units_at k headroom))

select_transfers-IsWithin :
    (reserve : Units) (cs : List TransferCandidate) (atp headroom : Units)
    → IsWithin atp reserve headroom (select_transfers reserve cs (atp, headroom)).0
select_transfers-IsWithin reserve cs atp headroom k =
    let source = select_transfers-source reserve k cs atp headroom in
    let target = select_transfers-target reserve k cs atp headroom in
    let source_sum = source.0 in
    let target_sum = target.0 in
    (
      elim source.1 [ inl unmoved ↦ inl unmoved | inr kept ↦ inr (omega int_laws) ],
      elim target.1 [ inl unmoved ↦ inl unmoved | inr kept ↦ inr (omega int_laws) ],
    )

-- Whenever `recommend_transfers` returns, every source that gives anything keeps its residual cover
-- within its available units, and what each target receives, if anything, fits its headroom.
pub recommend_transfers-IsWithin :
    (cs : List TransferCandidate) (atp reserve headroom : Units) {rs : List Recommendation}
    → recommend_transfers cs atp reserve headroom ≡ ok rs
    → IsWithin atp reserve headroom rs
unfolding recommend_transfers
recommend_transfers-IsWithin cs atp reserve headroom {rs} h k =
    let ordered = sort_by benefit_le cs in
    let same : (select_transfers reserve ordered (atp, headroom)).0 ≡ rs = ground arith in
    rw same at (select_transfers-IsWithin reserve ordered atp headroom k)
