-- ===== src/Selection/Scopes.antt =====
-- One active selection per scope: what the check tells, and that a rollback keeps it so.

use retail_intelligence.Selection.Defs.{
  Selection, ScopeKey, scope_key, assert_unseen, assert_one_active_per_scope, two_active,
}
use retail_intelligence.Base.Result.{ok, err}
use retail_intelligence.Base.Sort.{AllPairs}
use retail_intelligence.Base.Equality.{◌==◌, nat_eq, string_eq, pair_beq_iff, pair_eq, option_eq}
use retail_intelligence.Base.{
  ◌≡◌, refl, sym, ◌∙◌, ◌≢◌, ◌↔◌, inl, inr, true, false, List, [], ◌∷◌, arith, Bool-cases,
  or-eq_false, All, All-imp, any,
}

abbrev pub IsActive : Selection → Type 0
IsActive s = s.lifecycle.state ≡ "active"

-- no two selections of the list are active for one scope
abbrev pub Apart : Selection → Selection → Type 0
Apart a b = IsActive a → IsActive b → scope_key a ≢ scope_key b

abbrev pub IsOneActive : List Selection → Type 0
IsOneActive = AllPairs Apart

abbrev IsFresh : List ScopeKey → Selection → Type 0
IsFresh seen s = IsActive s → All (λ (k : ScopeKey). k ≢ scope_key s) seen

key_seen-false :
    (s : Selection) (seen : List ScopeKey)
    → any (λ k. k == scope_key s) seen ≡ false
    → All (λ (k : ScopeKey). k ≢ scope_key s) seen
key_seen-false s [] h = tt
key_seen-false s (k ∷ seen) h =
    let (here, rest) = or-eq_false (k == scope_key s) (any (λ k. k == scope_key s) seen) h in
    (λ same. ground (arith, (pair_beq_iff k (scope_key s)).1 same), key_seen-false s seen rest)

key_fresh :
    (s : Selection) (seen : List ScopeKey)
    → All (λ (k : ScopeKey). k ≢ scope_key s) seen
    → any (λ k. k == scope_key s) seen ≡ false
key_fresh s [] h = refl
key_fresh s (k ∷ seen) h =
    let here : (k == scope_key s) ≡ false = elim (Bool-cases (k == scope_key s)) [
      | inl same ↦ absurd (h.0 ((pair_beq_iff k (scope_key s)).0 same))
      | inr other ↦ other
    ] in
    rw here (key_fresh s seen h.1)

is_active : (s : Selection) → (s.lifecycle.state == "active") ≡ true → IsActive s
is_active s h = (string_eq.is_eq_iff s.lifecycle.state "active").0 h

pub inactive : (s : Selection) → (s.lifecycle.state == "active") ≡ false → ¬ IsActive s
inactive s h e = ground (arith, (string_eq.is_eq_iff s.lifecycle.state "active").1 e)

module _ (seen : List ScopeKey) (s : Selection) (xs : List Selection) where
  -- what one round of the loop does, by the two tests
  passed_over :
      (s.lifecycle.state == "active") ≡ false → assert_unseen seen (s ∷ xs) ≡ assert_unseen seen xs
  unfolding assert_unseen
  passed_over off = rw off refl

  refused :
      (s.lifecycle.state == "active") ≡ true
      → any (λ k. k == scope_key s) seen ≡ true
      → assert_unseen seen (s ∷ xs) ≡ err two_active
  unfolding assert_unseen
  refused on old = rw on (rw old refl)

  added :
      (s.lifecycle.state == "active") ≡ true
      → any (λ k. k == scope_key s) seen ≡ false
      → assert_unseen seen (s ∷ xs) ≡ assert_unseen (scope_key s ∷ seen) xs
  unfolding assert_unseen
  added on new = rw on (rw new refl)

assert_unseen_sound :
    (seen : List ScopeKey) (xs : List Selection)
    → assert_unseen seen xs ≡ ok tt
    → All (IsFresh seen) xs × IsOneActive xs
assert_unseen_sound seen [] e = (tt, tt)
assert_unseen_sound seen (s ∷ xs) e = elim (Bool-cases (s.lifecycle.state == "active")) [
  | inr off ↦
      let (fresh, apart) = assert_unseen_sound seen xs (sym (passed_over seen s xs off) ∙ e) in
      (
        (λ on. absurd (inactive s off on), fresh),
        (All-imp _ _ xs (λ t _ on _. absurd (inactive s off on)) fresh, apart),
      )
  | inl on ↦ elim (Bool-cases (any (λ k. k == scope_key s) seen)) [
    | inl old ↦ let clash = sym (refused seen s xs on old) ∙ e in absurd (ground arith)
    | inr new ↦
        let (fresh, apart) =
          assert_unseen_sound (scope_key s ∷ seen) xs (sym (added seen s xs on new) ∙ e) in
        (
          (λ _. key_seen-false s seen new, All-imp _ _ xs (λ t f on'. (f on').1) fresh),
          (All-imp _ _ xs (λ t f _ on'. (f on').0) fresh, apart),
        )
  ]
]

assert_unseen_complete :
    (seen : List ScopeKey) (xs : List Selection)
    → All (IsFresh seen) xs
    → IsOneActive xs
    → assert_unseen seen xs ≡ ok tt
unfolding assert_unseen
assert_unseen_complete seen [] fresh apart = refl
assert_unseen_complete seen (s ∷ xs) fresh apart =
    elim (Bool-cases (s.lifecycle.state == "active")) [
      | inr off ↦ passed_over seen s xs off ∙ assert_unseen_complete seen xs fresh.1 apart.1
      | inl on ↦
          let new = key_fresh s seen (fresh.0 (is_active s on)) in
          added seen s xs on new
          ∙ assert_unseen_complete (scope_key s ∷ seen) xs
              (All-both xs fresh.1 apart.0 (is_active s on)) apart.1
    ]
  where
    All-both :
        (ts : List Selection)
        → All (IsFresh seen) ts
        → All (Apart s) ts
        → IsActive s
        → All (IsFresh (scope_key s ∷ seen)) ts
    All-both [] _ _ _ = tt
    All-both (t ∷ ts) f a on = (λ on'. (a.0 on on', f.0 on'), All-both ts f.1 a.1 on)

-- The check passes exactly if no two selections of the list are active for one scope.
pub assert_one_active_per_scope_iff :
    (xs : List Selection) → (assert_one_active_per_scope xs ≡ ok tt) ↔ IsOneActive xs
unfolding assert_one_active_per_scope
assert_one_active_per_scope_iff xs = (
  λ e. (assert_unseen_sound [] xs e).1,
  λ apart. assert_unseen_complete [] xs (all_fresh xs) apart,
)
  where
    all_fresh : (ts : List Selection) → All (IsFresh []) ts
    all_fresh [] = tt
    all_fresh (t ∷ ts) = (λ _. tt, all_fresh ts)
