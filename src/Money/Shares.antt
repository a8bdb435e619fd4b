-- ===== src/Money/Shares.antt =====
-- `allocate_minor_units` of contracts/python/src/retail_contracts/money.py: the largest-remainder
-- split is exact, and every share is its proportion rounded down or one unit more.
use retail_intelligence.Money.Defs.{
  sum, remainder_le, hand_out, quotients_of, remainders_of, split_magnitude,
}
use retail_intelligence.Base.Result.{ok}
use retail_intelligence.Base.Indexed.{
  AtIndex, OtherIndex, OtherIndex-symm, enumerate-AtIndex, enumerate-distinct, AtIndex-lt,
}
use retail_intelligence.Base.Sort.{sort_by, All-sort_by, AllPairs, AllPairs-sort_by, length-sort_by}
use retail_intelligence.Base.Dict.{total}
use retail_intelligence.Base.Equality.{nat_eq, string_eq, pair_eq, option_eq}
use retail_intelligence.Base.{
  ℕ, zero, suc, ◌+◌, ◌-◌, ◌*◌, ◌/◌, ◌%◌, ◌≤◌, ◌<◌, ◌≡◌, refl, sym, ap, ◌∙◌, List, [], ◌∷◌, arith,
  length, All, All-imp, length-map, set, get_at, enumerate, length-set, get_at-set_ne,
}
use native.Mathlib.Nat.{div-add-mod, mod-lt, mul-sub}

pub sum-set :
    (xs : List ℕ) (i v : ℕ) → i < length xs → sum (set xs i v) + get_at xs i 0 ≡ sum xs + v
sum-set [] i v h = elim h [ ]
sum-set (x ∷ xs) zero v h = omega arith
sum-set (x ∷ xs) (suc i) v h = omega (arith, sum-set xs i v (omega arith))

-- each value is that of the first list or one more
abbrev pub Raised : List ℕ → List ℕ → Type 0
Raised [] [] = Unit
Raised [] (v ∷ vs) = ⊥
Raised (q ∷ qs) [] = ⊥
Raised (q ∷ qs) (v ∷ vs) = ((q ≤ v) × (v ≤ q + 1)) × Raised qs vs

Raised-refl : (qs : List ℕ) → Raised qs qs
Raised-refl [] = tt
Raised-refl (q ∷ qs) = (omega arith, Raised-refl qs)

Raised-set :
    (qs vs : List ℕ) (i : ℕ)
    → get_at vs i 0 ≡ get_at qs i 0
    → Raised qs vs
    → Raised qs (set vs i (get_at vs i 0 + 1))
Raised-set [] [] i e r = tt
Raised-set [] (v ∷ vs) i e r = elim r [ ]
Raised-set (q ∷ qs) [] i e r = elim r [ ]
Raised-set (q ∷ qs) (v ∷ vs) zero e r = (omega arith, r.1)
Raised-set (q ∷ qs) (v ∷ vs) (suc i) e r = (r.0, Raised-set qs vs i e r.1)

-- the rows whose turn has not come hold what they held at first
abbrev IsWaiting : List ℕ → List ℕ → ℕ × ℕ → Type 0
IsWaiting qs vs p = get_at vs p.0 0 ≡ get_at qs p.0 0

IsWaiting-set :
    (qs vs : List ℕ) (i r n : ℕ) (order : List (ℕ × ℕ))
    → All (OtherIndex (i, r)) order
    → All (IsWaiting qs vs) order
    → All (IsWaiting qs (set vs i n)) order
IsWaiting-set qs vs i r n [] other h = tt
IsWaiting-set qs vs i r n (p ∷ order) other h =
    (get_at-set_ne vs i p.0 n 0 other.0 ∙ h.0, IsWaiting-set qs vs i r n order other.1 h.1)

-- With enough rows to serve, every unit is handed out, one at most to each row.
hand_out-Raised :
    (units : ℕ) (order : List (ℕ × ℕ)) (qs vs : List ℕ)
    → units ≤ length order
    → All (λ (p : ℕ × ℕ). p.0 < length qs) order
    → AllPairs OtherIndex order
    → All (IsWaiting qs vs) order
    → length vs ≡ length qs
    → Raised qs vs
    → (out : List ℕ) × (hand_out units order vs ≡ ok out)
      × (sum out ≡ sum vs + units)
      × Raised qs out
unfolding hand_out
hand_out-Raised zero order qs vs enough inside other waiting len r = (vs, refl, omega arith, r)
hand_out-Raised (suc units) [] qs vs enough inside other waiting len r = absurd (omega arith)
hand_out-Raised (suc units) ((i, rem) ∷ order) qs vs enough inside other waiting len r =
    let n = get_at vs i 0 + 1 in
    let at : i < length vs = let h = inside.0 in omega arith in
    let (out, e, total, r') =
      hand_out-Raised units order qs (set vs i n) (omega arith) inside.1 other.1
        (IsWaiting-set qs vs i rem n order other.0 waiting.1) (length-set vs i n ∙ len)
        (Raised-set qs vs i waiting.0 r) in
    (out, e, omega (arith, sum-set vs i n at), r')

module _ (magnitude weight_total : ℕ) where
  sum-quotients :
      (weights : List ℕ)
      → weight_total * sum (quotients_of magnitude weight_total weights)
          + sum (remainders_of magnitude weight_total weights)
        ≡ magnitude * sum weights
  sum-quotients [] = omega arith
  sum-quotients (w ∷ ws) = omega (arith, div-add-mod (magnitude * w) weight_total, sum-quotients ws)

  sum-remainders :
      (weights : List ℕ)
      → 0 < weight_total
      → sum (remainders_of magnitude weight_total weights) ≤ weight_total * length weights
  sum-remainders [] h = omega arith
  sum-remainders (w ∷ ws) h = omega (arith, mod-lt (magnitude * w) h, sum-remainders ws h)

cancel_le : (w a b : ℕ) → 0 < w → w * a ≤ w * b → a ≤ b
cancel_le w a b h le = grind arith

scaled_rest : (w m q r n : ℕ) → w * q + r ≡ m * w → r ≤ w * n → w * (m - q) ≤ w * n
scaled_rest w m q r n e h = rw (mul-sub w m q) (omega arith)

-- no more units are left than there are weights
units_left-le :
    (magnitude : ℕ) (weights : List ℕ)
    → 0 < sum weights
    → magnitude - sum (quotients_of magnitude (sum weights) weights) ≤ length weights
units_left-le magnitude weights h =
    let w = sum weights in
    let q = sum (quotients_of magnitude w weights) in
    cancel_le w (magnitude - q) (length weights) h (
      scaled_rest w magnitude q (sum (remainders_of magnitude w weights)) (length weights)
        (sum-quotients magnitude w weights) (sum-remainders magnitude w weights h))

quotients-le :
    (magnitude : ℕ) (weights : List ℕ)
    → 0 < sum weights
    → sum (quotients_of magnitude (sum weights) weights) ≤ magnitude
quotients-le magnitude weights h =
    let w = sum weights in
    let q = sum (quotients_of magnitude w weights) in
    let whole = sum-quotients magnitude w weights in cancel_le w q magnitude h (omega arith)

rows_inside :
    (rems : List ℕ) (n : ℕ) (rows : List (ℕ × ℕ))
    → length rems ≡ n
    → All (AtIndex rems) rows
    → All (λ (p : ℕ × ℕ). p.0 < n) rows
rows_inside rems n rows e h = All-imp _ _ rows (λ p at. omega (arith, AtIndex-lt rems p.0 at)) h

All-IsWaiting : (qs : List ℕ) (rows : List (ℕ × ℕ)) → All (IsWaiting qs qs) rows
All-IsWaiting qs [] = tt
All-IsWaiting qs (p ∷ rows) = (refl, All-IsWaiting qs rows)

length-enumerate {ℓ} : {A : Type ℓ} (xs : List A) (k : ℕ) → length (enumerate k xs) ≡ length xs
length-enumerate [] k = refl
length-enumerate (x ∷ xs) k = ap suc (length-enumerate xs (suc k))

pub split_magnitude-Raised :
    (magnitude : ℕ) (weights : List ℕ)
    → 0 < sum weights
    → (values : List ℕ) × (split_magnitude magnitude weights ≡ ok values)
      × (sum values ≡ magnitude)
      × Raised (quotients_of magnitude (sum weights) weights) values
unfolding split_magnitude
split_magnitude-Raised magnitude weights h =
    let qs : List ℕ = quotients_of magnitude (sum weights) weights in
    let rems : List ℕ = remainders_of magnitude (sum weights) weights in
    let rows : List (ℕ × ℕ) = enumerate 0 rems in
    let order : List (ℕ × ℕ) = sort_by remainder_le rows in
    let same : length rems ≡ length qs =
      length-map (λ w. magnitude * w % sum weights) weights
      ∙ sym (length-map (λ w. magnitude * w / sum weights) weights) in
    let count : length order ≡ length weights =
      length-sort_by remainder_le rows
      ∙ length-enumerate rems 0
      ∙ length-map (λ w. magnitude * w % sum weights) weights in
    let (out, e, total, raised) =
      hand_out-Raised (magnitude - sum qs) order qs qs
        (omega (arith, units_left-le magnitude weights h))
        (All-sort_by remainder_le (λ (p : ℕ × ℕ). p.0 < length qs) rows
          (rows_inside rems (length qs) rows same (enumerate-AtIndex rems)))
        (AllPairs-sort_by remainder_le OtherIndex OtherIndex-symm rows (enumerate-distinct rems 0))
        (All-IsWaiting qs order) refl (Raised-refl qs) in
    (out, e, omega (arith, quotients-le magnitude weights h), raised)
