-- ===== src/Engines/Transfers/Rows.antt =====
-- `recommend_transfers` returns on sound input, and what each row of its result says.
use native.Mathlib.Nat.{div-le_of_le-mul, mul-le-mul, le_refl}
use retail_intelligence.Engines.Transfers.Limits.{movable_units_bounds}
use retail_intelligence.Engines.Transfers.Defs.{
  TransferCandidate, Recommendation, StockKey, Units, units_at, source_key, has_two_markets,
  movable_units, take_units, recommend, is_skipped, select_transfers, is_negative,
  recommend_transfers, benefit_le,
}
use retail_intelligence.Base.Result.{ok}
use retail_intelligence.Base.Sort.{sort_by}
use retail_intelligence.Base.Dict.{All-put, All-get_or}
use retail_intelligence.Base.Equality.{nat_eq, string_eq, pair_eq, option_eq}
use retail_intelligence.Base.Int.{
  ℤ, pos_part, ◌-ℤ◌, ◌*ℤ◌, floor_div, ◌≤ℤ◌, ◌<ℤ◌, leb_ℤ, max_ℤ, le→ltb_ℤ_false, lt_of_not-leb_ℤ,
  int_laws, pos, negsuc, pos-mul,
}
use retail_intelligence.Base.{
  ℕ, ◌*◌, ◌/◌, ◌≤◌, ◌<◌, ◌≡◌, refl, inl, inr, false, ◌||◌, List, [], ◌∷◌, arith, Bool-cases,
  or-eq_false, All, any,
}

abbrev pub HasUnits : StockKey × ℤ → Type 0
HasUnits (k, units) = pos 0 ≤ℤ units

-- A row moves some units, at most those of its candidate, and claims a benefit between zero and the
-- candidate's.
pub record IsRecommended (r : Recommendation) : Type 0 where
  pub some_units : pos 0 <ℤ r.units
  pub units_le : r.units ≤ℤ r.candidate.units
  pub benefit_nonneg : pos 0 ≤ℤ r.expected_benefit_minor
  pub benefit_within : r.expected_benefit_minor ≤ℤ r.candidate.expected_benefit_minor

share_of_benefit : (b m u : ℕ) → m ≤ u → b * m / u ≤ b
share_of_benefit b m u h =
    let within : m * b ≤ u * b = mul-le-mul h (le_refl b) in div-le_of_le-mul u (omega arith)

max_one_pos : (u : ℕ) → 0 < u → pos_part (max_ℤ (pos 1) (pos u)) ≡ u
unfolding max_ℤ
max_one_pos u h = ground arith

benefit_bounds :
    (b m u : ℤ)
    → pos 0 <ℤ b
    → pos 0 <ℤ m
    → m ≤ℤ u
    → let share = floor_div (b *ℤ m) (pos_part (max_ℤ (pos 1) u)) in (pos 0 ≤ℤ share) × (share ≤ℤ b)
unfolding floor_div
benefit_bounds (pos b) (pos m) (pos u) hb hm hu =
    rw (pos-mul b m, max_one_pos u (omega arith))
      (omega (arith, share_of_benefit b m u (omega arith)))
benefit_bounds (pos b) (pos m) (negsuc u) hb hm hu = absurd (omega arith)
benefit_bounds (pos b) (negsuc m) u hb hm hu = absurd (omega arith)
benefit_bounds (negsuc b) m u hb hm hu = absurd (omega arith)

recommend-IsRecommended :
    (c : TransferCandidate) (movable : ℤ)
    → is_skipped c ≡ false
    → pos 0 <ℤ movable
    → movable ≤ℤ c.units
    → IsRecommended (recommend c movable)
unfolding recommend is_skipped
recommend-IsRecommended c movable keep more le =
    let gain = lt_of_not-leb_ℤ c.expected_benefit_minor (pos 0) (or-eq_false _ _ keep).1 in
    let share = benefit_bounds c.expected_benefit_minor movable c.units gain more le in
    record { some_units = more; units_le = le; benefit_nonneg = share.0; benefit_within = share.1 }

select_transfers-IsRecommended :
    (reserve : Units) (cs : List TransferCandidate) (atp headroom : Units)
    → All IsRecommended (select_transfers reserve cs (atp, headroom)).0
unfolding select_transfers take_units
select_transfers-IsRecommended reserve [] atp headroom = tt
select_transfers-IsRecommended reserve (c ∷ cs) atp headroom =
    let movable : ℤ = movable_units c reserve (atp, headroom) in
    let (atp', headroom') = take_units c movable (atp, headroom) in
    elim (Bool-cases (is_skipped c || leb_ℤ movable (pos 0))) [
      | inl skip ↦ rw skip (select_transfers-IsRecommended reserve cs atp headroom)
      | inr move ↦
          let keep = or-eq_false _ _ move in
          let bounds = movable_units_bounds c reserve atp headroom keep.1 in
          rw move (
            recommend-IsRecommended c movable keep.0 bounds.0 bounds.1,
            select_transfers-IsRecommended reserve cs atp' headroom',
          )
    ]

select_transfers-HasUnits :
    (reserve : Units) (cs : List TransferCandidate) (atp headroom : Units)
    → All HasUnits reserve
    → All HasUnits atp
    → All HasUnits (select_transfers reserve cs (atp, headroom)).1.0
unfolding select_transfers take_units
select_transfers-HasUnits reserve [] atp headroom keep have = have
select_transfers-HasUnits reserve (c ∷ cs) atp headroom keep have =
    let movable : ℤ = movable_units c reserve (atp, headroom) in
    let (atp', headroom') = take_units c movable (atp, headroom) in
    elim (Bool-cases (is_skipped c || leb_ℤ movable (pos 0))) [
      | inl skip ↦ rw skip (select_transfers-HasUnits reserve cs atp headroom keep have)
      | inr move ↦
          let bounds = movable_units_bounds c reserve atp headroom (or-eq_false _ _ move).1 in
          let cover =
            All-get_or (λ (u : ℤ). pos 0 ≤ℤ u) (source_key c) (pos 0) reserve (omega arith) keep in
          let kept : pos 0 ≤ℤ units_at (source_key c) atp -ℤ movable =
            let room = bounds.2 in omega int_laws in
          rw move (
            select_transfers-HasUnits reserve cs atp' headroom' keep
              (All-put (λ (u : ℤ). pos 0 ≤ℤ u) (source_key c) _ atp kept have))
    ]

none_negative : (d : Units) → All HasUnits d → any is_negative d ≡ false
none_negative [] h = refl
none_negative ((k, u) ∷ d) h = rw (le→ltb_ℤ_false u (pos 0) h.0) (none_negative d h.1)

-- For candidates of one market, and available units and residual covers that are not negative,
-- `recommend_transfers` returns: the `ConservationError` is not raised. Each row moves some units,
-- at most its candidate's, with a benefit between zero and the candidate's.
pub recommend_transfers-IsRecommended :
    (cs : List TransferCandidate) (atp reserve headroom : Units)
    → has_two_markets cs ≡ false
    → All HasUnits atp
    → All HasUnits reserve
    → (rs : List Recommendation) × (recommend_transfers cs atp reserve headroom ≡ ok rs)
      × All IsRecommended rs
unfolding recommend_transfers
recommend_transfers-IsRecommended cs atp reserve headroom one have keep =
    let ordered = sort_by benefit_le cs in
    let sound =
      none_negative _ (select_transfers-HasUnits reserve ordered atp headroom keep have) in
    (
      (select_transfers reserve ordered (atp, headroom)).0,
      rw (one, sound),
      select_transfers-IsRecommended reserve ordered atp headroom,
    )
