-- ===== src/Engines/Cohorts/Assign.antt =====
-- `assign_cohort` of ml/src/retail_ml/engines/cohorts.py, and the split of replay keys by it. The seed
-- is given as its text.
use retail_intelligence.Base.Texts.{join_parts}
use retail_intelligence.Engines.Cohorts.Partition.{
  All-contains, IsPartition, IsAssigned, split_cohorts-IsPartition,
}
use retail_intelligence.Engines.Cohorts.Defs.{ReplayKey, contains, Cohorts, split_cohorts}
use retail_intelligence.Base.Result.{Result, ◌>>◌, raise_if, ok, err}
use retail_intelligence.Base.Equality.{nat_eq, string_eq, ◌==◌, pair_eq, option_eq, beq_refl}
use retail_intelligence.Base.Int.{ℤ, ◌<ℤ◌, ltb_ℤ, pos}
use retail_intelligence.Base.{
  ℕ, ◌%◌, String, ◌≡◌, refl, sym, ◌∙◌, inl, inr, true, false, not, ◌&&◌, ◌||◌, List, [], ◌∷◌, arith,
  if◌then◌else◌, Bool-cases, All, any,
}

pub data AssignError : Type 0 where
  bad_percentage blank_field : AssignError

abbrev pub hash_version : String
hash_version = "cohort-assignment/v1"

-- the fields of a key, in the order of the payload
abbrev pub fields_of : ReplayKey → List String
fields_of (retailer, (tenant, (market, (location, sku)))) =
    retailer ∷ tenant ∷ market ∷ location ∷ sku ∷ []

-- the bucket of a key, where `digest` gives the first eight bytes of the SHA-256 of a text as a number
unfoldable pub bucket : (digest : String → ℕ) → (seed : String) → ReplayKey → ℕ
bucket digest seed k = digest (join_parts (hash_version ∷ seed ∷ fields_of k)) % 100

unfoldable pub assign_cohort :
    (digest : String → ℕ)
    → (seed : String) → (calibration_pct : ℤ) → ReplayKey
    → Result AssignError String
assign_cohort digest seed pct k = do
  raise_if (not (ltb_ℤ (pos 0) pct && ltb_ℤ pct (pos 100))) bad_percentage
  raise_if (any (λ field. field == "") (fields_of k)) blank_field
  ok (if ltb_ℤ (pos (bucket digest seed k)) pct then "calibration" else "holdout")

-- a key without blank fields
abbrev pub IsComplete : ReplayKey → Type 0
IsComplete k = any (λ field. field == "") (fields_of k) ≡ false

-- The cohort that `split_cohorts` is given: where the assignment raises, the split would.
abbrev pub assigned : (digest : String → ℕ) (seed : String) (pct : ℤ) → ReplayKey → String
assigned digest seed pct k = elim (assign_cohort digest seed pct k) [
  | ok cohort ↦ cohort
  | err _ ↦ ""
]

assign_cohort-eq_ok :
    (digest : String → ℕ) (seed : String) (pct : ℤ) (k : ReplayKey)
    → pos 0 <ℤ pct
    → pct <ℤ pos 100
    → IsComplete k
    → (c : String) × (assign_cohort digest seed pct k ≡ ok c) × IsAssigned (λ _. c) k
unfolding assign_cohort
assign_cohort-eq_ok digest seed pct k low high complete =
    let above : ltb_ℤ (pos 0) pct ≡ true = ground arith in
    let below : ltb_ℤ pct (pos 100) ≡ true = ground arith in
    rw (above, below, complete)
      (elim (Bool-cases (ltb_ℤ (pos (bucket digest seed k)) pct)) [
        | inl c ↦ rw c (_, refl, inl refl)
        | inr h ↦ rw h (_, refl, inr refl)
      ])

assigned-IsAssigned :
    (digest : String → ℕ) (seed : String) (pct : ℤ) (keys : List ReplayKey)
    → pos 0 <ℤ pct
    → pct <ℤ pos 100
    → All IsComplete keys
    → All (IsAssigned (assigned digest seed pct)) keys
assigned-IsAssigned digest seed pct [] low high h = tt
assigned-IsAssigned digest seed pct (k ∷ keys) low high h =
    let one = assign_cohort-eq_ok digest seed pct k low high h.0 in
    (rw (one.1, assigned) one.2, assigned-IsAssigned digest seed pct keys low high h.1)

assigned-eq_bucket :
    (digest : String → ℕ) (seed : String) (pct : ℤ) (k : ReplayKey)
    → pos 0 <ℤ pct
    → pct <ℤ pos 100
    → IsComplete k
    → assigned digest seed pct k
      ≡ (if ltb_ℤ (pos (bucket digest seed k)) pct then "calibration" else "holdout")
unfolding assign_cohort
assigned-eq_bucket digest seed pct k low high complete =
    let above : ltb_ℤ (pos 0) pct ≡ true = ground arith in
    let below : ltb_ℤ pct (pos 100) ≡ true = ground arith in
    rw (assigned, above, below, complete) refl

-- A key of the split is in calibration exactly if its bucket is below the percentage, and in holdout
-- exactly if it is not.
pub record IsByBucket (digest : String → ℕ) (seed : String) (pct : ℤ) (s : Cohorts) (k : ReplayKey)
    : Type 0 where
  pub calibration : contains k s.calibration ≡ ltb_ℤ (pos (bucket digest seed k)) pct
  pub holdout : contains k s.holdout ≡ not (ltb_ℤ (pos (bucket digest seed k)) pct)

-- not the text of the other cohort
apart_names : (c : String) → c ≡ "calibration" → c ≡ "holdout" → ⊥
apart_names c a b =
    let test : (c == "calibration") ≡ false = rw b refl in
    ground (arith, test, (string_eq.is_eq_iff c "calibration").1 a)

IsPartition-IsByBucket :
    (digest : String → ℕ) (seed : String) (pct : ℤ) (s : Cohorts) (k : ReplayKey)
    → pos 0 <ℤ pct
    → pct <ℤ pos 100
    → IsComplete k
    → IsPartition (assigned digest seed pct) s
    → contains k s.all_keys ≡ true
    → IsByBucket digest seed pct s k
IsPartition-IsByBucket digest seed pct s k low high complete p given =
    let name = assigned-eq_bucket digest seed pct k low high complete in
    let test = ltb_ℤ (pos (bucket digest seed k)) pct in
    let one : (contains k s.calibration || contains k s.holdout) ≡ true =
      sym (p.covers k) ∙ given in
    let in_calibration = λ (m : contains k s.calibration ≡ true).
      All-contains (λ j. assigned digest seed pct j ≡ "calibration") k s.calibration p.calibration
        m in
    let in_holdout = λ (m : contains k s.holdout ≡ true).
      All-contains (λ j. assigned digest seed pct j ≡ "holdout") k s.holdout p.holdout m in
    elim (Bool-cases test) [
      | inl c ↦
          let here : assigned digest seed pct k ≡ "calibration" = rw c at name in
          let out : contains k s.holdout ≡ false = elim (Bool-cases (contains k s.holdout)) [
            | inl m ↦ absurd (apart_names (assigned digest seed pct k) here (in_holdout m))
            | inr m ↦ m
          ] in
          record { calibration = ground (arith, c, out, one); holdout = ground (arith, c, out) }
      | inr h ↦
          let here : assigned digest seed pct k ≡ "holdout" = rw h at name in
          let out : contains k s.calibration ≡ false =
            elim (Bool-cases (contains k s.calibration)) [
              | inl m ↦ absurd (apart_names (assigned digest seed pct k) (in_calibration m) here)
              | inr m ↦ m
            ] in
          record { calibration = ground (arith, h, out); holdout = ground (arith, h, out, one) }
    ]

All-IsByBucket :
    (digest : String → ℕ) (seed : String) (pct : ℤ) (s : Cohorts) (keys : List ReplayKey)
    → pos 0 <ℤ pct
    → pct <ℤ pos 100
    → All IsComplete keys
    → IsPartition (assigned digest seed pct) s
    → ((k : ReplayKey) → contains k keys ≡ true → contains k s.all_keys ≡ true)
    → All (IsByBucket digest seed pct s) keys
unfolding contains
All-IsByBucket digest seed pct s [] low high h p m = tt
All-IsByBucket digest seed pct s (k ∷ keys) low high h p m =
    let self : (k == k) ≡ true = beq_refl k in
    (
      IsPartition-IsByBucket digest seed pct s k low high h.0 p (m k (ground (arith, self))),
      All-IsByBucket digest seed pct s keys low high h.1 p (λ j e. m j (ground (arith, e))),
    )

-- With a percentage between 0 and 100 and keys without blank fields, splitting by the assignment
-- returns whatever the digest is: the cohorts are disjoint, hold just the keys given, and each key
-- given is in calibration exactly if its bucket is below the percentage, and in holdout exactly if it
-- is not.
pub split_by_assignment-IsPartition :
    (digest : String → ℕ) (seed : String) (pct : ℤ) (keys : List ReplayKey)
    → pos 0 <ℤ pct
    → pct <ℤ pos 100
    → All IsComplete keys
    → (s : Cohorts) × (split_cohorts (assigned digest seed pct) keys ≡ ok s)
      × IsPartition (assigned digest seed pct) s
      × ((k : ReplayKey) → contains k s.all_keys ≡ contains k keys)
      × All (IsByBucket digest seed pct s) keys
split_by_assignment-IsPartition digest seed pct keys low high h =
    let (s, e, p, given) =
      split_cohorts-IsPartition (assigned digest seed pct) keys
        (assigned-IsAssigned digest seed pct keys low high h) in
    (s, e, p, given, All-IsByBucket digest seed pct s keys low high h p (λ k m. given k ∙ m))
