-- ===== src/Engines/Resolution/Terms.antt =====
-- What `resolve_supply_term` answers.
use retail_intelligence.Engines.Resolution.Defs.{
  ResolutionError, ScopeType, SupplyTerm, TermQuery, matches, newest_le, head_unless_tied,
  ordered_terms, found_or, resolve_scopes, precedence, resolve_supply_term,
  supply_term_origin_required, supply_term_absent, sku, dept, category,
}
use retail_intelligence.Base.Result.{Result, raise_if, >>=-eq-ok, ok-injective, not_raised, ok, err}
use retail_intelligence.Base.Sort.{
  sort_by, IsSortedBy, sort_by-perm, All-sort_by, sort_by-IsSortedBy, length-sort_by,
}
use retail_intelligence.Base.Equality.{nat_eq, string_eq, ◌==◌, pair_eq, option_eq}
use retail_intelligence.Base.{
  suc, ◌<◌, ◌≡◌, refl, sym, ap, ◌∙◌, ◌≢◌, ◌⊎◌, inl, inr, true, false, Option, none, some, List, [],
  ◌∷◌, arith, eqb, Bool-cases, length, All, All-imp, select, select-All, select-eq_nil, select-nil,
}
use mathlib.Core.List.{Perm}
use mathlib.Core.List.Perm
use mathlib.Core.Path.{subst}
use mathlib.Core.Option.{some-injective}

-- The term and the others are the candidates, and every other started on an earlier day.
abbrev pub IsLatest : SupplyTerm → List SupplyTerm → Type 0
IsLatest t candidates =
    (rest : List SupplyTerm) × Perm (t ∷ rest) candidates
    × All (λ (u : SupplyTerm). u.effective_from < t.effective_from) rest

-- The term is the latest one of the first of the scopes in which any term matches.
abbrev pub IsResolved : TermQuery → List SupplyTerm → SupplyTerm → List ScopeType → Type 0
IsResolved q terms t [] = ⊥
IsResolved q terms t (scope ∷ scopes) =
    ((matches q scope t ≡ true) × IsLatest t (select (matches q scope) terms))
    ⊎ (All (λ (u : SupplyTerm). matches q scope u ≡ false) terms × IsResolved q terms t scopes)

newest_total : (x y : SupplyTerm) → newest_le x y ≡ false → newest_le y x ≡ true
newest_total x y h = ground arith

newest_trans :
    (x y z : SupplyTerm) → newest_le x y ≡ true → newest_le y z ≡ true → newest_le x z ≡ true
newest_trans x y z h k = ground arith

-- What the choice among sorted candidates gives: their head, which no other equals in its start.
head-IsLatest :
    (sorted : List SupplyTerm) {t : SupplyTerm}
    → IsSortedBy newest_le sorted
    → head_unless_tied sorted ≡ ok (some t)
    → (rest : List SupplyTerm) × (sorted ≡ t ∷ rest)
      × All (λ (u : SupplyTerm). u.effective_from < t.effective_from) rest
unfolding head_unless_tied
head-IsLatest [] s e = absurd (ground arith)
head-IsLatest (z ∷ []) s e = ([], ground arith, tt)
head-IsLatest (z ∷ u ∷ rest) {t} s e = elim (Bool-cases (eqb z.effective_from u.effective_from)) [
  | inl tied ↦ absurd (ground arith)
  | inr apart ↦
      let e' : ◌≡◌ {A = Result ResolutionError (Option SupplyTerm)} (ok (some z)) (ok (some t)) =
        rw apart at e in
      let same : z ≡ t = some-injective _ _ (ok-injective e') in
      (
        u ∷ rest,
        rw (← same) refl,
        rw (← same) (ground (arith, s.0.0), All-imp _ _ rest (λ r h. ground (arith, s.0.0)) s.1.0),
      )
]

head-eq_none : (sorted : List SupplyTerm) → head_unless_tied sorted ≡ ok none → sorted ≡ []
unfolding head_unless_tied
head-eq_none [] e = refl
head-eq_none (z ∷ []) e = absurd (ground arith)
head-eq_none (z ∷ u ∷ rest) e = elim (Bool-cases (eqb z.effective_from u.effective_from)) [
  | inl tied ↦ absurd (ground arith)
  | inr apart ↦ absurd (ground arith)
]

choice-IsLatest :
    (P : SupplyTerm → Type 0) (candidates : List SupplyTerm) {t : SupplyTerm}
    → All P candidates
    → head_unless_tied (ordered_terms candidates) ≡ ok (some t)
    → P t × IsLatest t candidates
unfolding ordered_terms head_unless_tied
choice-IsLatest P [] h e = absurd (ground arith)
choice-IsLatest P (z ∷ []) h e =
    let (rest, same, early) = head-IsLatest (z ∷ []) (tt, tt) e in
    let found = subst (All P) same h in (found.0, (rest, rw (← same) (Perm.refl (z ∷ [])), early))
choice-IsLatest P (z ∷ u ∷ more) h e =
    let candidates = z ∷ u ∷ more in
    let (rest, same, early) =
      head-IsLatest (sort_by newest_le candidates)
        (sort_by-IsSortedBy newest_le newest_total newest_trans candidates) e in
    let found = subst (All P) same (All-sort_by newest_le P candidates h) in
    (found.0, (rest, rw (← same) (sort_by-perm newest_le candidates), early))

choice-eq_none :
    (candidates : List SupplyTerm)
    → head_unless_tied (ordered_terms candidates) ≡ ok none
    → candidates ≡ []
unfolding ordered_terms
choice-eq_none [] e = refl
choice-eq_none (z ∷ []) e = head-eq_none (z ∷ []) e
choice-eq_none (z ∷ u ∷ more) e =
    let count = length-sort_by newest_le (z ∷ u ∷ more) in
    let empty = head-eq_none (sort_by newest_le (z ∷ u ∷ more)) e in
    absurd (let clash : 0 ≡ suc (suc (length more)) = sym (ap length empty) ∙ count in omega arith)

found_or-cases :
    (found : Option SupplyTerm) (next : Result ResolutionError SupplyTerm) {t : SupplyTerm}
    → found_or found next ≡ ok t
    → (found ≡ some t) ⊎ ((found ≡ none) × (next ≡ ok t))
found_or-cases none next e = inr (refl, e)
found_or-cases (some u) next e = inl (ap (λ x. some x) (ok-injective e))

resolve_scopes-IsResolved :
    (q : TermQuery) (terms : List SupplyTerm) (scopes : List ScopeType) {t : SupplyTerm}
    → resolve_scopes q terms scopes ≡ ok t
    → IsResolved q terms t scopes
unfolding resolve_scopes
resolve_scopes-IsResolved q terms [] e = absurd (ground arith)
resolve_scopes-IsResolved q terms (scope ∷ scopes) e =
    let candidates = select (matches q scope) terms in
    let (found, chosen, later) = >>=-eq-ok (head_unless_tied (ordered_terms candidates)) _ e in
    elim (found_or-cases found (resolve_scopes q terms scopes) later) [
      | inl here ↦ inl (
          choice-IsLatest (λ u. matches q scope u ≡ true) candidates
            (select-All (matches q scope) terms) (chosen ∙ ap (λ o. ok o) here))
      | inr below ↦ inr (
        select-eq_nil (matches q scope) terms
            (choice-eq_none candidates (chosen ∙ ap (λ o. ok o) below.0)),
        resolve_scopes-IsResolved q terms scopes below.1,
      )
    ]

-- A resolved supply term matches the query in the first of the scopes SKU, department and category
-- in which any term matches, it is one of the terms that match there, and every other one of those
-- started on an earlier day.
pub resolve_supply_term-IsResolved :
    (q : TermQuery) (terms : List SupplyTerm) {t : SupplyTerm}
    → resolve_supply_term q terms ≡ ok t
    → (q.origin_id ≢ "") × IsResolved q terms t precedence
unfolding resolve_supply_term
resolve_supply_term-IsResolved q terms e =
    let test = q.origin_id == "" in
    let (_, named, later) = >>=-eq-ok (raise_if test supply_term_origin_required) _ e in
    let other = not_raised test supply_term_origin_required named in
    (
      λ empty. ground (arith, (string_eq.is_eq_iff q.origin_id "").1 empty),
      resolve_scopes-IsResolved q terms precedence later,
    )

-- Where no term matches in any scope and the origin is named, the term is reported absent.
pub resolve_supply_term-absent :
    (q : TermQuery) (terms : List SupplyTerm)
    → q.origin_id ≢ ""
    → ((scope : ScopeType) → All (λ (u : SupplyTerm). matches q scope u ≡ false) terms)
    → resolve_supply_term q terms ≡ err supply_term_absent
unfolding resolve_supply_term resolve_scopes ordered_terms head_unless_tied
resolve_supply_term-absent q terms named nothing =
    let other : (q.origin_id == "") ≡ false = ground (arith, string_eq.is_eq_iff q.origin_id "") in
    rw other (
      rw (select-nil (matches q sku) terms (nothing sku)) (
        rw (select-nil (matches q dept) terms (nothing dept))
          (rw (select-nil (matches q category) terms (nothing category)) refl)))
