-- ===== src/Base/Sort.antt =====
-- Python's stable `sorted` with a key: insertion by a Boolean test "not after". Three-way
-- comparisons are composed for tuple keys.
use Prim.Native.Nat.{compare as compare_ℕ, Ordering, ◌+◌, suc}
use Prim.Native.String.{String, compare as compare_text}
use mathlib.Core.Path.{◌≡◌, refl, ap, ◌∙◌}
use mathlib.Core.Bool.{Bool, true, false}
use mathlib.Core.Logic.{inl, inr}
use mathlib.Core.List.{List, [], ◌∷◌, Perm, map}
use mathlib.Core.List.Perm
use retail_intelligence.Base.Tests.{if◌then◌else◌, Bool-cases}
use retail_intelligence.Base.Lists.{All, All-imp, length}
use retail_intelligence.Base.Int.{ℤ, pos_part, neg_part}

abbrev pub cmp_ℤ : ℤ → ℤ → Ordering
cmp_ℤ a b = compare_ℕ (pos_part a + neg_part b) (pos_part b + neg_part a)

-- by code points, as Python compares `str`
abbrev pub cmp_text : String → String → Ordering
cmp_text = compare_text

-- the next component of a tuple decides where the first ones are equal
abbrev pub then_by : Ordering → Ordering → Ordering
then_by Ordering.lt next = Ordering.lt
then_by Ordering.eq next = next
then_by Ordering.gt next = Ordering.gt

abbrev pub not_gt : Ordering → Bool
not_gt Ordering.gt = false
not_gt _ = true

module _ {ℓ} {A : Type ℓ} (le : A → A → Bool) where
  unfoldable pub insert_by : A → List A → List A
  insert_by x [] = x ∷ []
  insert_by x (y ∷ ys) = if le x y then x ∷ y ∷ ys else y ∷ insert_by x ys

  unfoldable pub sort_by : List A → List A
  unfolding insert_by
  sort_by [] = []
  sort_by (x ∷ xs) = insert_by x (sort_by xs)

  -- no item is followed by one that goes before it
  abbrev pub IsSortedBy : List A → Type 0
  IsSortedBy [] = Unit
  IsSortedBy (x ∷ xs) = All (λ y. le x y ≡ true) xs × IsSortedBy xs

module _ {ℓ} {A : Type ℓ} (le : A → A → Bool) where
  insert_by-perm : (x : A) (ys : List A) → Perm (insert_by le x ys) (x ∷ ys)
  unfolding insert_by
  insert_by-perm x [] = Perm.refl (x ∷ [])
  insert_by-perm x (y ∷ ys) = elim (Bool-cases (le x y)) [
    | inl before ↦ rw before (Perm.refl (x ∷ y ∷ ys))
    | inr after ↦ rw after (Perm.trans (Perm.cons y (insert_by-perm x ys)) (Perm.swap x y ys))
  ]

  pub sort_by-perm : (xs : List A) → Perm (sort_by le xs) xs
  unfolding sort_by
  sort_by-perm [] = Perm.refl []
  sort_by-perm (x ∷ xs) =
      Perm.trans (insert_by-perm x (sort_by le xs)) (Perm.cons x (sort_by-perm xs))

  pub All-insert_by {κ} :
      (P : A → Type κ) (x : A) (ys : List A) → P x → All P ys → All P (insert_by le x ys)
  unfolding insert_by
  All-insert_by P x [] px h = (px, tt)
  All-insert_by P x (y ∷ ys) px h = elim (Bool-cases (le x y)) [
    | inl before ↦ rw before (px, (h.0, h.1))
    | inr after ↦ rw after (h.0, All-insert_by P x ys px h.1)
  ]

  pub All-sort_by {κ} : (P : A → Type κ) (xs : List A) → All P xs → All P (sort_by le xs)
  unfolding sort_by
  All-sort_by P [] h = tt
  All-sort_by P (x ∷ xs) h = All-insert_by P x (sort_by le xs) h.0 (All-sort_by P xs h.1)

-- Where the test is total and transitive, the result is in order.
module _ {ℓ} {A : Type ℓ} (le : A → A → Bool) (total : (x y : A) → le x y ≡ false → le y x ≡ true)
    (trans : (x y z : A) → le x y ≡ true → le y z ≡ true → le x z ≡ true) where
  insert_by-IsSortedBy :
      (x : A) (ys : List A) → IsSortedBy le ys → IsSortedBy le (insert_by le x ys)
  unfolding insert_by
  insert_by-IsSortedBy x [] s = (tt, tt)
  insert_by-IsSortedBy x (y ∷ ys) s = elim (Bool-cases (le x y)) [
    | inl before ↦ rw before ((before, All-imp _ _ ys (λ z h. trans x y z before h) s.0), s)
    | inr after ↦ rw after (
      All-insert_by le (λ z. le y z ≡ true) x ys (total x y after) s.0,
      insert_by-IsSortedBy x ys s.1,
    )
  ]

  pub sort_by-IsSortedBy : (xs : List A) → IsSortedBy le (sort_by le xs)
  unfolding sort_by
  sort_by-IsSortedBy [] = tt
  sort_by-IsSortedBy (x ∷ xs) = insert_by-IsSortedBy x (sort_by le xs) (sort_by-IsSortedBy xs)

-- A symmetric relation between any two items holds between those of the sorted list.
abbrev pub AllPairs {ℓ} : {A : Type ℓ} → (A → A → Type 0) → List A → Type 0
AllPairs R [] = Unit
AllPairs R (x ∷ xs) = All (R x) xs × AllPairs R xs

module _ {ℓ} {A : Type ℓ} (le : A → A → Bool) (R : A → A → Type 0)
    (symm : (x y : A) → R x y → R y x) where
  AllPairs-insert_by :
      (x : A) (ys : List A) → All (R x) ys → AllPairs R ys → AllPairs R (insert_by le x ys)
  unfolding insert_by
  AllPairs-insert_by x [] h hs = (tt, tt)
  AllPairs-insert_by x (y ∷ ys) h hs = elim (Bool-cases (le x y)) [
    | inl before ↦ rw before (h, hs)
    | inr after ↦
        rw after (All-insert_by le (R y) x ys (symm x y h.0) hs.0, AllPairs-insert_by x ys h.1 hs.1)
  ]

  pub AllPairs-sort_by : (xs : List A) → AllPairs R xs → AllPairs R (sort_by le xs)
  unfolding sort_by
  AllPairs-sort_by [] h = tt
  AllPairs-sort_by (x ∷ xs) h =
      AllPairs-insert_by x (sort_by le xs) (All-sort_by le (R x) xs h.0) (AllPairs-sort_by xs h.1)

-- A relation between pairs weakens by what is known of the second item.
pub AllPairs-imp {ℓ} :
    {A : Type ℓ} (P : A → Type 0) (R S : A → A → Type 0) (xs : List A)
    → ((x y : A) → P y → R x y → S x y)
    → All P xs
    → AllPairs R xs
    → AllPairs S xs
AllPairs-imp {A} P R S [] f p r = tt
AllPairs-imp {A} P R S (x ∷ xs) f p r = (first xs p.1 r.0, AllPairs-imp P R S xs f p.1 r.1)
  where
    first : (ys : List A) → All P ys → All (R x) ys → All (S x) ys
    first [] _ _ = tt
    first (y ∷ ys) py ry = (f x y py.0 ry.0, first ys py.1 ry.1)

module _ {ℓ} {A : Type ℓ} (le : A → A → Bool) where
  length-insert_by : (x : A) (ys : List A) → length (insert_by le x ys) ≡ suc (length ys)
  unfolding insert_by
  length-insert_by x [] = refl
  length-insert_by x (y ∷ ys) = elim (Bool-cases (le x y)) [
    | inl before ↦ rw before refl
    | inr after ↦ rw after (ap suc (length-insert_by x ys))
  ]

  pub length-sort_by : (xs : List A) → length (sort_by le xs) ≡ length xs
  unfolding sort_by
  length-sort_by [] = refl
  length-sort_by (x ∷ xs) = length-insert_by x (sort_by le xs) ∙ ap suc (length-sort_by xs)

-- Sorting by a key sorts the keys.
module _ {ℓ κ} {A : Type ℓ} {B : Type κ} (le : B → B → Bool) (key : A → B) where
  map-insert_by :
      (x : A) (ys : List A)
      → map key (insert_by (λ a b. le (key a) (key b)) x ys) ≡ insert_by le (key x) (map key ys)
  unfolding insert_by
  map-insert_by x [] = refl
  map-insert_by x (y ∷ ys) = elim (Bool-cases (le (key x) (key y))) [
    | inl before ↦ rw before refl
    | inr after ↦ rw after (ap (λ (zs : List B). key y ∷ zs) (map-insert_by x ys))
  ]

  pub map-sort_by :
      (xs : List A) → map key (sort_by (λ a b. le (key a) (key b)) xs) ≡ sort_by le (map key xs)
  unfolding sort_by
  map-sort_by [] = refl
  map-sort_by (x ∷ xs) =
      map-insert_by x (sort_by (λ a b. le (key a) (key b)) xs)
      ∙ ap (insert_by le (key x)) (map-sort_by xs)

-- What holds of all items of a sorted list holds of those of the list.
module _ {ℓ κ} {A : Type ℓ} (le : A → A → Bool) (P : A → Type κ) where
  All-of_insert_by : (x : A) (ys : List A) → All P (insert_by le x ys) → P x × All P ys
  unfolding insert_by
  All-of_insert_by x [] h = h
  All-of_insert_by x (y ∷ ys) h = elim (Bool-cases (le x y)) [
    | inl before ↦ rw before at h
    | inr after ↦
        let later : P y × All P (insert_by le x ys) = rw after at h in
        let rest = All-of_insert_by x ys later.1 in (rest.0, (later.0, rest.1))
  ]

  pub All-of_sort_by : (xs : List A) → All P (sort_by le xs) → All P xs
  unfolding sort_by
  All-of_sort_by [] h = tt
  All-of_sort_by (x ∷ xs) h =
      let first = All-of_insert_by x (sort_by le xs) h in (first.0, All-of_sort_by xs first.1)

-- What a symmetric relation holds between any two items of a sorted list, it holds between those of
-- the list.
module _ {ℓ} {A : Type ℓ} (le : A → A → Bool) (R : A → A → Type 0)
    (symm : (x y : A) → R x y → R y x) where
  AllPairs-of_insert_by :
      (x : A) (ys : List A) → AllPairs R (insert_by le x ys) → All (R x) ys × AllPairs R ys
  unfolding insert_by
  AllPairs-of_insert_by x [] h = h
  AllPairs-of_insert_by x (y ∷ ys) h = elim (Bool-cases (le x y)) [
    | inl before ↦ rw before at h
    | inr after ↦
        let later : All (R y) (insert_by le x ys) × AllPairs R (insert_by le x ys) =
          rw after at h in
        let (yx, rest) = All-of_insert_by le (R y) x ys later.0 in
        let (first, pairs) = AllPairs-of_insert_by x ys later.1 in
        ((symm y x yx, first), (rest, pairs))
  ]

  pub AllPairs-of_sort_by : (xs : List A) → AllPairs R (sort_by le xs) → AllPairs R xs
  unfolding sort_by
  AllPairs-of_sort_by [] h = tt
  AllPairs-of_sort_by (x ∷ xs) h =
      let (first, rest) = AllPairs-of_insert_by x (sort_by le xs) h in
      (All-of_sort_by le (R x) xs first, AllPairs-of_sort_by xs rest)

-- A transitive relation that follows the test holds between any two items of the sorted list.
module _ {ℓ} {A : Type ℓ} (le : A → A → Bool) (R : A → A → Type 0)
    (yes : (x y : A) → le x y ≡ true → R x y) (no : (x y : A) → le x y ≡ false → R y x)
    (trans : (x y z : A) → R x y → R y z → R x z) where
  AllPairs-insert_by_order : (x : A) (ys : List A) → AllPairs R ys → AllPairs R (insert_by le x ys)
  unfolding insert_by
  AllPairs-insert_by_order x [] s = (tt, tt)
  AllPairs-insert_by_order x (y ∷ ys) s = elim (Bool-cases (le x y)) [
    | inl before ↦
        let first = yes x y before in
        rw before ((first, All-imp _ _ ys (λ z h. trans x y z first h) s.0), s)
    | inr after ↦
        rw after (All-insert_by le (R y) x ys (no x y after) s.0, AllPairs-insert_by_order x ys s.1)
  ]

  pub AllPairs-sort_by_order : (xs : List A) → AllPairs R (sort_by le xs)
  unfolding sort_by
  AllPairs-sort_by_order [] = tt
  AllPairs-sort_by_order (x ∷ xs) =
      AllPairs-insert_by_order x (sort_by le xs) (AllPairs-sort_by_order xs)

-- Two relations that hold between the pairs give a third.
pub AllPairs-both {ℓ} :
    {A : Type ℓ} (R S T : A → A → Type 0) (xs : List A)
    → ((x y : A) → R x y → S x y → T x y)
    → AllPairs R xs
    → AllPairs S xs
    → AllPairs T xs
AllPairs-both {A} R S T [] f r s = tt
AllPairs-both {A} R S T (x ∷ xs) f r s = (first xs r.0 s.0, AllPairs-both R S T xs f r.1 s.1)
  where
    first : (ys : List A) → All (R x) ys → All (S x) ys → All (T x) ys
    first [] _ _ = tt
    first (y ∷ ys) ry sy = (f x y ry.0 sy.0, first ys ry.1 sy.1)
