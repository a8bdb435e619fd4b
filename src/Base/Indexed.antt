-- ===== src/Base/Indexed.antt =====
-- Writes to a list by index, and the rows that `enumerate` gives.
use retail_intelligence.Base.Lists.{length, get_elem?, get_at, set, enumerate, All, All-imp}
use retail_intelligence.Base.Int.{ℤ, pos, ◌+ℤ◌, sum_ℤ, int_laws}
use retail_intelligence.Base.Sort.{AllPairs}
use Prim.Native.Nat.{ℕ, zero, suc, ◌+◌, ◌<◌, ◌≤◌}
use mathlib.Core.Path.{◌≡◌, refl}
use mathlib.Core.Option.{some}
use mathlib.Core.List.{List, [], ◌∷◌}
use native.Mathlib.Omega.{arith}

-- the index of the pair is that of its item
abbrev pub AtIndex {ℓ} : {A : Type ℓ} → List A → ℕ × A → Type ℓ
AtIndex xs p = get_elem? xs p.0 ≡ some p.1

abbrev pub OtherIndex {ℓ} : {A : Type ℓ} → ℕ × A → ℕ × A → Type 0
OtherIndex p q = ¬ (p.0 ≡ q.0)

pub OtherIndex-symm {ℓ} : {A : Type ℓ} (p q : ℕ × A) → OtherIndex p q → OtherIndex q p
OtherIndex-symm p q h = λ e. h (ground arith)

-- Writing one number changes the sum by the difference.
pub sum_ℤ-set :
    (xs : List ℤ) (i : ℕ) (v : ℤ)
    → i < length xs
    → sum_ℤ (set xs i v) +ℤ get_at xs i (pos 0) ≡ sum_ℤ xs +ℤ v
sum_ℤ-set [] i v h = elim h [ ]
sum_ℤ-set (x ∷ xs) zero v h = omega int_laws
sum_ℤ-set (x ∷ xs) (suc i) v h = let ih = sum_ℤ-set xs i v (omega arith) in omega int_laws

module _ {ℓ} {A : Type ℓ} where
  enumerate-AtIndex_from :
      (all xs : List A) (k : ℕ)
      → ((i : ℕ) (x : A) → get_elem? xs i ≡ some x → get_elem? all (k + i) ≡ some x)
      → All (AtIndex all) (enumerate k xs)
  enumerate-AtIndex_from all [] k h = tt
  enumerate-AtIndex_from all (x ∷ xs) k h = (
    let here : get_elem? all (k + 0) ≡ some x = h 0 x refl in
        let same : k + 0 ≡ k = omega arith in rw same at here,
    enumerate-AtIndex_from all xs (suc k) λ i y e.
        let there : get_elem? all (k + suc i) ≡ some y = h (suc i) y e in
        let same : suc k + i ≡ k + suc i = omega arith in rw same there,
  )

  pub enumerate-AtIndex : (xs : List A) → All (AtIndex xs) (enumerate 0 xs)
  enumerate-AtIndex xs =
      enumerate-AtIndex_from xs xs 0 λ i x e. let same : 0 + i ≡ i = omega arith in rw same e

  enumerate_from : (xs : List A) (k : ℕ) → All (λ (p : ℕ × A). k ≤ p.0) (enumerate k xs)
  enumerate_from [] k = tt
  enumerate_from (x ∷ xs) k = (
    omega arith,
    All-imp _ _ (enumerate (suc k) xs) (λ p h. omega arith) (enumerate_from xs (suc k)),
  )

  pub enumerate-distinct : (xs : List A) (k : ℕ) → AllPairs OtherIndex (enumerate k xs)
  enumerate-distinct [] k = tt
  enumerate-distinct (x ∷ xs) k = (
    All-imp _ _ (enumerate (suc k) xs) (λ p h e. omega arith) (enumerate_from xs (suc k)),
    enumerate-distinct xs (suc k),
  )

  pub AtIndex-lt : (xs : List A) (i : ℕ) {x : A} → get_elem? xs i ≡ some x → i < length xs
  AtIndex-lt [] i h = absurd (ground arith)
  AtIndex-lt (x ∷ xs) zero h = omega arith
  AtIndex-lt (x ∷ xs) (suc i) h = omega (arith, AtIndex-lt xs i h)

  -- what holds of the enumerated items, at an index
  pub All-enumerate_at {κ} :
      (P : ℕ × A → Type κ) (xs : List A) (k i a : ℕ) {x : A}
      → k + i ≡ a
      → get_elem? xs i ≡ some x
      → All P (enumerate k xs)
      → P (a, x)
  All-enumerate_at P [] k i a e at h = absurd (ground arith)
  All-enumerate_at P (y ∷ xs) k zero a {x} e at h =
      let here : k ≡ a = omega arith in let same : y ≡ x = cc in rw (← here, ← same) h.0
  All-enumerate_at P (y ∷ xs) k (suc i) a e at h =
      All-enumerate_at P xs (suc k) i a (omega arith) at h.1

  -- what a symmetric relation holds between the enumerated items, at two indices
  pub AllPairs-enumerate_at :
      (R : ℕ × A → ℕ × A → Type 0) (xs : List A) (k i j a b : ℕ) {x y : A}
      → ((p q : ℕ × A) → R p q → R q p)
      → ¬ (i ≡ j)
      → k + i ≡ a
      → k + j ≡ b
      → get_elem? xs i ≡ some x
      → get_elem? xs j ≡ some y
      → AllPairs R (enumerate k xs)
      → R (a, x) (b, y)
  AllPairs-enumerate_at R [] k i j a b symm other ea eb at_i at_j h = absurd (ground arith)
  AllPairs-enumerate_at R (z ∷ xs) k zero zero a b symm other ea eb at_i at_j h =
      absurd (other refl)
  AllPairs-enumerate_at R (z ∷ xs) k zero (suc j) a b {x} {y} symm other ea eb at_i at_j h =
      let here : k ≡ a = omega arith in
      let same : z ≡ x = cc in
      rw (← here, ← same) (All-enumerate_at (R (k, z)) xs (suc k) j b (omega arith) at_j h.0)
  AllPairs-enumerate_at R (z ∷ xs) k (suc i) zero a b {x} {y} symm other ea eb at_i at_j h =
      let here : k ≡ b = omega arith in
      let same : z ≡ y = cc in
      symm (b, y) (a, x)
        (rw (← here, ← same) (All-enumerate_at (R (k, z)) xs (suc k) i a (omega arith) at_i h.0))
  AllPairs-enumerate_at R (z ∷ xs) k (suc i) (suc j) a b symm other ea eb at_i at_j h =
      AllPairs-enumerate_at R xs (suc k) i j a b symm (λ e. other (omega arith)) (omega arith)
        (omega arith) at_i at_j h.1
