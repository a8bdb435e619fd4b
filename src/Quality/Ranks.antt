-- ===== src/Quality/Ranks.antt =====
-- The classes of ml/src/retail_ml/policies/quality_v2.py as ranks: reducing is taking the worst.
use retail_intelligence.Quality.Defs.{good, watch, issue, first_among, reduce}
use retail_intelligence.Base.Texts.{member}
use retail_intelligence.Base.Equality.{nat_eq, string_eq, ◌==◌, pair_eq, option_eq}
use retail_intelligence.Base.{
  ℕ, String, ◌≡◌, refl, sym, inl, inr, true, false, List, [], ◌∷◌, ◌++◌, arith, leb, if◌then◌else◌,
  Bool-cases,
}
use mathlib.Core.Path.{subst}

-- how bad a class is; a severity outside the vocabulary counts as good
abbrev pub rank : String → ℕ
rank text = if text == issue then 2 else if text == watch then 1 else 0

abbrev pub worst : ℕ → ℕ → ℕ
worst a b = if leb a b then b else a

abbrev pub worst_rank : List String → ℕ
worst_rank [] = 0
worst_rank (text ∷ texts) = worst (rank text) (worst_rank texts)

issue_or_watch : (text : String) → (text == issue) ≡ true → (text == watch) ≡ false
issue_or_watch text e =
    subst (λ t. (t == watch) ≡ false) (sym ((string_eq.is_eq_iff text issue).0 e)) refl

worst_rank-eq :
    (texts : List String)
    → worst_rank texts ≡ (if member issue texts then 2 else if member watch texts then 1 else 0)
worst_rank-eq [] = refl
worst_rank-eq (text ∷ texts) =
    let ih = worst_rank-eq texts in let apart = issue_or_watch text in ground (arith, ih, apart)

-- Reducing outcomes gives the worst of them.
pub reduce-rank : (texts : List String) → rank (reduce texts) ≡ worst_rank texts
unfolding first_among
reduce-rank texts =
    let h = worst_rank-eq texts in
    elim (Bool-cases (member issue texts)) [
      | inl i ↦ let h' : worst_rank texts ≡ 2 = rw i at h in rw i (sym h')
      | inr n ↦ elim (Bool-cases (member watch texts)) [
        | inl w ↦ let h' : worst_rank texts ≡ 1 = rw (n, w) at h in rw (n, w) (sym h')
        | inr m ↦
            let h' : worst_rank texts ≡ 0 = rw (n, m) at h in
            elim (Bool-cases (member good texts)) [
              | inl g ↦ rw (n, m, g) (sym h')
              | inr b ↦ rw (n, m, b) (sym h')
            ]
      ]
    ]

pub worst_rank-append :
    (xs ys : List String) → worst_rank (xs ++ ys) ≡ worst (worst_rank xs) (worst_rank ys)
worst_rank-append [] ys = ground arith
worst_rank-append (x ∷ xs) ys = let ih = worst_rank-append xs ys in ground (arith, ih)
