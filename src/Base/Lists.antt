-- ===== src/Base/Lists.antt =====
-- Lists measured and indexed by native numbers, and predicates on all items of a list.
use Prim.Native.Nat.{ℕ, zero, suc, ◌+◌, ◌<◌, ◌≤◌}
use mathlib.Core.Path.{◌≡◌, refl, ap}
use mathlib.Core.Bool.{Bool, true, false, ◌&&◌, ◌||◌}
use mathlib.Core.List.{List, [], ◌∷◌, ◌++◌, map}
use mathlib.Core.Option.{Option, none, some}
use mathlib.Core.Logic.{inl, inr}
use native.Mathlib.Omega.{arith}
use retail_intelligence.Base.Tests.{Bool-cases, if◌then◌else◌}

module _ {ℓ} {A : Type ℓ} where
  abbrev pub length : List A → ℕ
  length [] = 0
  length (x ∷ xs) = suc (length xs)

  abbrev pub get_elem? : List A → ℕ → Option A
  get_elem? [] i = none
  get_elem? (x ∷ xs) zero = some x
  get_elem? (x ∷ xs) (suc i) = get_elem? xs i

  pub length-append : (xs ys : List A) → length (xs ++ ys) ≡ length xs + length ys
  length-append [] ys = omega arith
  length-append (x ∷ xs) ys = omega (arith, length-append xs ys)

  -- a property of every item
  abbrev pub All {κ} : (holds : A → Type κ) → List A → Type κ
  All holds [] = Unit
  All holds (item ∷ items) = holds item × All holds items

  pub All-append {κ} :
      (Q : A → Type κ) (front back : List A) → All Q front → All Q back → All Q (front ++ back)
  All-append Q [] back _ later = later
  All-append Q (item ∷ front) back (first, rest) later = (first, All-append Q front back rest later)

  pub All-imp {κ μ} :
      (P : A → Type κ) (Q : A → Type μ) (xs : List A) → ((a : A) → P a → Q a) → All P xs → All Q xs
  All-imp P Q [] f h = tt
  All-imp P Q (x ∷ xs) f h = (f x h.0, All-imp P Q xs f h.1)

  -- `any` and `all` of a generator, over a list
  abbrev pub any : (A → Bool) → List A → Bool
  any p [] = false
  any p (x ∷ xs) = p x || any p xs

  abbrev pub all : (A → Bool) → List A → Bool
  all p [] = true
  all p (x ∷ xs) = p x && all p xs

  -- `[x for x in xs if p(x)]`
  abbrev pub select : (A → Bool) → List A → List A
  select p [] = []
  select p (x ∷ xs) = let rest = select p xs in if p x then x ∷ rest else rest

pub length-map {ℓ κ} :
    {A : Type ℓ} {B : Type κ} (f : A → B) (xs : List A) → length (map f xs) ≡ length xs
length-map f [] = refl
length-map f (x ∷ xs) = ap suc (length-map f xs)

module _ {ℓ} {A : Type ℓ} where
  -- `xs[i] = v` in range; a write out of range changes nothing here, and the models make none.
  abbrev pub set : List A → ℕ → A → List A
  set [] i v = []
  set (x ∷ xs) zero v = v ∷ xs
  set (x ∷ xs) (suc i) v = x ∷ set xs i v

  abbrev pub get_at : List A → ℕ → A → A
  get_at [] i d = d
  get_at (x ∷ xs) zero d = x
  get_at (x ∷ xs) (suc i) d = get_at xs i d

  abbrev pub replicate : ℕ → A → List A
  replicate zero a = []
  replicate (suc n) a = a ∷ replicate n a

  -- `enumerate(xs)`, from a given index
  abbrev pub enumerate : ℕ → List A → List (ℕ × A)
  enumerate i [] = []
  enumerate i (x ∷ xs) = (i, x) ∷ enumerate (suc i) xs

  pub length-set : (xs : List A) (i : ℕ) (v : A) → length (set xs i v) ≡ length xs
  length-set [] i v = refl
  length-set (x ∷ xs) zero v = refl
  length-set (x ∷ xs) (suc i) v = ap suc (length-set xs i v)

  pub get_at-set_self :
      (xs : List A) (i : ℕ) (v d : A) → i < length xs → get_at (set xs i v) i d ≡ v
  get_at-set_self [] i v d h = elim h [ ]
  get_at-set_self (x ∷ xs) zero v d h = refl
  get_at-set_self (x ∷ xs) (suc i) v d h = get_at-set_self xs i v d (omega arith)

  pub get_at-set_ne :
      (xs : List A) (i j : ℕ) (v d : A) → ¬ (i ≡ j) → get_at (set xs i v) j d ≡ get_at xs j d
  get_at-set_ne [] i j v d h = refl
  get_at-set_ne (x ∷ xs) zero zero v d h = absurd (h refl)
  get_at-set_ne (x ∷ xs) zero (suc j) v d h = refl
  get_at-set_ne (x ∷ xs) (suc i) zero v d h = refl
  get_at-set_ne (x ∷ xs) (suc i) (suc j) v d h = get_at-set_ne xs i j v d (λ e. h (ap suc e))

  pub length-replicate : (n : ℕ) (a : A) → length (replicate n a) ≡ n
  length-replicate zero a = refl
  length-replicate (suc n) a = ap suc (length-replicate n a)

  pub get_at-replicate : (n i : ℕ) (a : A) → get_at (replicate n a) i a ≡ a
  get_at-replicate zero i a = refl
  get_at-replicate (suc n) zero a = refl
  get_at-replicate (suc n) (suc i) a = get_at-replicate n i a

pub any-eq_false {ℓ} :
    {A : Type ℓ} (p : A → Bool) (xs : List A) → All (λ x. p x ≡ false) xs → any p xs ≡ false
any-eq_false p [] h = refl
any-eq_false p (x ∷ xs) h = rw h.0 (any-eq_false p xs h.1)

module _ {ℓ} {A : Type ℓ} (p : A → Bool) where
  pub select-All : (xs : List A) → All (λ x. p x ≡ true) (select p xs)
  select-All [] = tt
  select-All (x ∷ xs) = elim (Bool-cases (p x)) [
    | inl holds ↦ rw (holds, select) (holds, select-All xs)
    | inr fails ↦ rw (fails, select) (select-All xs)
  ]

  pub select-take : (x : A) (xs : List A) → p x ≡ true → select p (x ∷ xs) ≡ x ∷ select p xs
  select-take x xs holds = rw (holds, select) refl

  pub select-skip : (x : A) (xs : List A) → p x ≡ false → select p (x ∷ xs) ≡ select p xs
  select-skip x xs fails = rw (fails, select) refl

  pub select-eq_nil : (xs : List A) → select p xs ≡ [] → All (λ x. p x ≡ false) xs
  select-eq_nil [] e = tt
  select-eq_nil (x ∷ xs) e = elim (Bool-cases (p x)) [
    | inl holds ↦ let e' : (x ∷ select p xs) ≡ [] = rw (holds, select) at e in absurd (ground arith)
    | inr fails ↦
        let e' : select p xs ≡ [] = rw (fails, select) at e in (fails, select-eq_nil xs e')
  ]

  pub select-nil : (xs : List A) → All (λ x. p x ≡ false) xs → select p xs ≡ []
  select-nil [] h = refl
  select-nil (x ∷ xs) h = rw (h.0, select) (select-nil xs h.1)

  pub length-select : (xs : List A) → length (select p xs) ≤ length xs
  length-select [] = omega arith
  length-select (x ∷ xs) = elim (Bool-cases (p x)) [
    | inl holds ↦ rw (holds, select) (omega (arith, length-select xs))
    | inr fails ↦ rw (fails, select) (omega (arith, length-select xs))
  ]
