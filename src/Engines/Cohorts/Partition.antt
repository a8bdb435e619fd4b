-- ===== src/Engines/Cohorts/Partition.antt =====
-- The cohorts partition the keys by their assignment.
use mathlib.Core.Path.{subst}
use retail_intelligence.Engines.Cohorts.Defs.{
  ReplayKey, contains, add_key, Cohorts, assign_key, assign_keys, is_subset, split_cohorts,
}
use retail_intelligence.Base.Result.{ok}
use retail_intelligence.Base.Equality.{
  nat_eq, string_eq, ◌==◌, pair_beq_iff, pair_eq, option_eq, beq_refl,
}
use retail_intelligence.Base.{
  String, ◌≡◌, refl, sym, ◌∙◌, ◌⊎◌, inl, inr, true, false, ◌||◌, List, [], ◌∷◌, ◌++◌, arith,
  Bool-cases, All, All-append, any,
}

same_key : (j k : ReplayKey) → (j == k) ≡ true → j ≡ k
same_key j k = (pair_beq_iff j k).0

contains-append :
    (k : ReplayKey) (xs ys : List ReplayKey)
    → contains k (xs ++ ys) ≡ (contains k xs || contains k ys)
unfolding contains
contains-append k [] ys = refl
contains-append k (x ∷ xs) ys = let ih = contains-append k xs ys in ground (arith, ih)

contains-add_key :
    (k j : ReplayKey) (keys : List ReplayKey)
    → contains j (add_key k keys) ≡ (contains j keys || (k == j))
unfolding add_key contains
contains-add_key k j keys = elim (Bool-cases (contains k keys)) [
  | inr new ↦ rw new (contains-append j keys (k ∷ []) ∙ ground arith)
  | inl old ↦ rw old (elim (Bool-cases (k == j)) [
    | inr other ↦ rw other (ground arith)
    | inl same ↦
        let here : contains j keys ≡ true =
          subst (λ x. contains x keys ≡ true) (same_key k j same) old in
        ground (arith, here, same)
  ])
]

All-add_key :
    (P : ReplayKey → Type 0) (k : ReplayKey) (keys : List ReplayKey)
    → P k
    → All P keys
    → All P (add_key k keys)
unfolding add_key
All-add_key P k keys pk h = elim (Bool-cases (contains k keys)) [
  | inl old ↦ rw old h
  | inr new ↦ rw new (All-append P keys (k ∷ []) h (pk, tt))
]

pub All-contains :
    (P : ReplayKey → Type 0) (k : ReplayKey) (keys : List ReplayKey)
    → All P keys
    → contains k keys ≡ true
    → P k
unfolding contains
All-contains P k [] h e = absurd (ground (arith, e))
All-contains P k (j ∷ js) h e = elim (Bool-cases (j == k)) [
  | inl same ↦ subst P (same_key j k same) h.0
  | inr other ↦ All-contains P k js h.1 (ground (arith, e, other))
]

is_subset-all :
    (a b : List ReplayKey)
    → ((k : ReplayKey) → contains k a ≡ true → contains k b ≡ true)
    → is_subset a b ≡ true
unfolding is_subset contains
is_subset-all [] b h = refl
is_subset-all (k ∷ a) b h =
    let self : (k == k) ≡ true = beq_refl k in
    rw (h k (ground (arith, self))) (is_subset-all a b (λ j e. h j (ground (arith, e))))

-- Each cohort has only keys assigned to it, and a key is among all keys exactly if it is in one.
pub record IsPartition (assign : ReplayKey → String) (s : Cohorts) : Type 0 where
  pub calibration : All (λ k. assign k ≡ "calibration") s.calibration
  pub holdout : All (λ k. assign k ≡ "holdout") s.holdout
  pub covers :
      (k : ReplayKey) → contains k s.all_keys ≡ (contains k s.calibration || contains k s.holdout)

abbrev pub IsAssigned : (ReplayKey → String) → ReplayKey → Type 0
IsAssigned assign k = (assign k ≡ "calibration") ⊎ (assign k ≡ "holdout")

assign_key-IsPartition :
    (assign : ReplayKey → String) (k : ReplayKey) (s : Cohorts)
    → IsAssigned assign k
    → IsPartition assign s
    → (t : Cohorts) × (assign_key assign k s ≡ ok t)
      × IsPartition assign t
      × ((j : ReplayKey) → contains j t.all_keys ≡ (contains j s.all_keys || (k == j)))
unfolding assign_key
assign_key-IsPartition assign k s (inl c) p = (
  record s { all_keys = add_key k s.all_keys; calibration = add_key k s.calibration },
  rw c refl,
  record {
    calibration = All-add_key (λ j. assign j ≡ "calibration") k s.calibration c p.calibration;
    holdout = p.holdout;
    covers = λ j.
        let a = contains-add_key k j s.all_keys in
        let b = contains-add_key k j s.calibration in
        let old = p.covers j in ground (arith, a, b, old);
  },
  λ j. contains-add_key k j s.all_keys,
)
assign_key-IsPartition assign k s (inr h) p = (
  record s { all_keys = add_key k s.all_keys; holdout = add_key k s.holdout },
  rw h refl,
  record {
    calibration = p.calibration;
    holdout = All-add_key (λ j. assign j ≡ "holdout") k s.holdout h p.holdout;
    covers = λ j.
        let a = contains-add_key k j s.all_keys in
        let b = contains-add_key k j s.holdout in let old = p.covers j in ground (arith, a, b, old);
  },
  λ j. contains-add_key k j s.all_keys,
)

assign_keys-IsPartition :
    (assign : ReplayKey → String) (keys : List ReplayKey) (s : Cohorts)
    → All (IsAssigned assign) keys
    → IsPartition assign s
    → (t : Cohorts) × (assign_keys assign keys s ≡ ok t)
      × IsPartition assign t
      × ((j : ReplayKey) → contains j t.all_keys ≡ (contains j s.all_keys || contains j keys))
unfolding assign_keys contains
assign_keys-IsPartition assign [] s h p = (s, refl, p, λ j. ground arith)
assign_keys-IsPartition assign (k ∷ keys) s h p =
    let (next, e, q, one) = assign_key-IsPartition assign k s h.0 p in
    let (t, later, r, rest) = assign_keys-IsPartition assign keys next h.1 q in
    (t, rw e later, r, λ j. let a = one j in let b = rest j in ground (arith, a, b))

apart :
    (assign : ReplayKey → String) (s : Cohorts) (ks : List ReplayKey)
    → All (λ k. assign k ≡ "holdout") s.holdout
    → All (λ k. assign k ≡ "calibration") ks
    → any (λ k. contains k s.holdout) ks ≡ false
apart assign s [] held h = refl
apart assign s (k ∷ ks) held h = elim (Bool-cases (contains k s.holdout)) [
  | inr out ↦ rw out (apart assign s ks held h.1)
  | inl both ↦
      let kept : assign k ≡ "holdout" =
        All-contains (λ j. assign j ≡ "holdout") k s.holdout held both in
      let test : (assign k == "calibration") ≡ false = rw kept refl in
      absurd (ground (arith, test, (string_eq.is_eq_iff (assign k) "calibration").1 h.0))
]

-- Where every key is assigned to one of the two cohorts, the split returns, so its checks do not
-- fire: the cohorts hold just the keys given, each in the cohort of its assignment.
pub split_cohorts-IsPartition :
    (assign : ReplayKey → String) (keys : List ReplayKey)
    → All (IsAssigned assign) keys
    → (s : Cohorts) × (split_cohorts assign keys ≡ ok s)
      × IsPartition assign s
      × ((k : ReplayKey) → contains k s.all_keys ≡ contains k keys)
unfolding split_cohorts contains
split_cohorts-IsPartition assign keys h =
    let empty : Cohorts = record { calibration = []; holdout = []; all_keys = [] } in
    let (s, e, p, given) =
      assign_keys-IsPartition assign keys empty h
        (record { calibration = tt; holdout = tt; covers = λ k. refl }) in
    let disjoint = apart assign s s.calibration p.holdout p.calibration in
    let inside =
      is_subset-all (s.calibration ++ s.holdout) s.all_keys
        (λ k m. p.covers k ∙ sym (contains-append k s.calibration s.holdout) ∙ m) in
    let complete =
      is_subset-all s.all_keys (s.calibration ++ s.holdout)
        (λ k m. contains-append k s.calibration s.holdout ∙ sym (p.covers k) ∙ m) in
    (s, rw e (rw disjoint (rw inside (rw complete refl))), p, λ k. given k)
