-- ===== src/Base/Dict.antt =====
-- Python's `dict` as an association list: a lookup reads the first entry of its key, and a write
-- replaces that entry in place or appends a new one.
use mathlib.Core.Path.{◌≡◌, refl}
use mathlib.Core.Bool.{Bool, false, ◌||◌}
use mathlib.Core.Logic.{inl, inr}
use mathlib.Core.Option
use mathlib.Core.Option.{Option, none, some}
use mathlib.Core.List.{List, [], ◌∷◌}
use native.Mathlib.Omega.{arith}
use retail_intelligence.Base.Tests.{if◌then◌else◌, Bool-cases}
use retail_intelligence.Base.Lists.{All}
use retail_intelligence.Base.Int.{ℤ, pos, ◌+ℤ◌, int_laws}
use retail_intelligence.Base.Equality.{Eq, ◌==◌}

abbrev pub Dict {ℓ κ} : Type ℓ → Type κ → Type (ℓ ⊔ κ)
Dict K V = List (K × V)

module _ {ℓ κ} {K : Type ℓ} {V : Type κ} ⦃e : Eq K⦄ where
  -- `d.get(k)`
  unfoldable pub get : K → Dict K V → Option V
  get k [] = none
  get k ((j, v) ∷ d) = if j == k then some v else get k d

  -- `d[k] = v`
  unfoldable pub put : K → V → Dict K V → Dict K V
  put k v [] = (k, v) ∷ []
  put k v ((j, w) ∷ d) = if j == k then (j, v) ∷ d else (j, w) ∷ put k v d

  -- `d.get(k, default)`
  unfoldable pub get_or : K → V → Dict K V → V
  get_or k v [] = v
  get_or k v ((j, w) ∷ d) = if j == k then w else get_or k v d

  unfoldable pub has : K → Dict K V → Bool
  has k [] = false
  has k ((j, v) ∷ d) = j == k || has k d

  pub get-put :
      (k j : K) (v : V) (d : Dict K V) → get j (put k v d) ≡ (if k == j then some v else get j d)
  unfolding get put
  get-put k j v [] = refl
  get-put k j v ((i, w) ∷ d) =
      ground (arith, e.is_eq_iff k j, e.is_eq_iff i k, e.is_eq_iff i j, get-put k j v d)

  pub get_or-put :
      (k j : K) (u v : V) (d : Dict K V)
      → get_or j u (put k v d) ≡ (if k == j then v else get_or j u d)
  unfolding get_or put
  get_or-put k j u v [] = refl
  get_or-put k j u v ((i, w) ∷ d) =
      ground (arith, e.is_eq_iff k j, e.is_eq_iff i k, e.is_eq_iff i j, get_or-put k j u v d)

  pub get_or-get : (k : K) (u : V) (d : Dict K V) → get_or k u d ≡ Option.get_or (get k d) u
  unfolding get_or get
  get_or-get k u [] = refl
  get_or-get k u ((j, w) ∷ d) = ground (arith, get_or-get k u d)

  -- a property of all values survives a write of such a value
  pub All-put {μ} :
      (P : V → Type μ) (k : K) (v : V) (d : Dict K V)
      → P v
      → All (λ (p : K × V). P p.1) d
      → All (λ (p : K × V). P p.1) (put k v d)
  unfolding put
  All-put P k v [] hv h = (hv, tt)
  All-put P k v ((j, w) ∷ d) hv h = elim (Bool-cases (j == k)) [
    | inl same ↦ rw same (hv, h.1)
    | inr other ↦ rw other (h.0, All-put P k v d hv h.1)
  ]

  pub All-get_or {μ} :
      (P : V → Type μ) (k : K) (u : V) (d : Dict K V)
      → P u
      → All (λ (p : K × V). P p.1) d
      → P (get_or k u d)
  unfolding get_or
  All-get_or P k u [] hu h = hu
  All-get_or P k u ((j, w) ∷ d) hu h = elim (Bool-cases (j == k)) [
    | inl same ↦ rw same h.0
    | inr other ↦ rw other (All-get_or P k u d hu h.1)
  ]

  -- `sum(f(v) for v in d.values())`
  abbrev pub total : (V → ℤ) → Dict K V → ℤ
  total f [] = pos 0
  total f ((j, w) ∷ d) = f w +ℤ total f d

  -- A write changes a total by the difference of the written and the former value.
  pub total-put :
      (f : V → ℤ) (k : K) (u v : V) (d : Dict K V)
      → f u ≡ pos 0
      → total f (put k v d) +ℤ f (get_or k u d) ≡ total f d +ℤ f v
  unfolding put get_or
  total-put f k u v [] z = rw z (omega int_laws)
  total-put f k u v ((j, w) ∷ d) z = elim (Bool-cases (j == k)) [
    | inl same ↦ rw same (omega int_laws)
    | inr other ↦ let ih = total-put f k u v d z in rw other (omega int_laws)
  ]
