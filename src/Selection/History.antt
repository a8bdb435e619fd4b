-- ===== src/Selection/History.antt =====
-- Histories of selection records: candidates, transitions and rollbacks. A record is never changed; each
-- operation adds the records that it returns.
use retail_intelligence.Selection.Resolve.{IsRolledBack, rollback-IsRolledBack, scope_key-identity}
use retail_intelligence.Selection.Scopes.{IsActive}
use retail_intelligence.Selection.Lifecycle.{IsAllowed, transition-IsRecorded}
use retail_intelligence.Selection.Defs.{
  Selection, Digests, identity_of, scope_key, transition, rollback,
}
use retail_intelligence.Base.Result.{ok}
use retail_intelligence.Base.Equality.{nat_eq, string_eq, ◌==◌, pair_eq, option_eq}
use retail_intelligence.Base.{
  String, ◌≡◌, refl, sym, ◌∙◌, ◌⊎◌, inl, inr, false, Option, List, [], ◌∷◌, arith,
}
use mathlib.Core.Path.{subst}

-- the record is in the ledger
abbrev pub IsIn : Selection → List Selection → Type 0
IsIn u [] = ⊥
IsIn u (s ∷ ledger) = (s ≡ u) ⊎ IsIn u ledger

pub data History (digests : Digests) : List Selection → Type 0 where
  empty : History digests []
  proposed :
      (s : Selection) (ledger : List Selection)
      → s.lifecycle.state ≡ "candidate"
      → History digests ledger
      → History digests (s ∷ ledger)
  moved :
      (s u : Selection) (ledger : List Selection) (target actor reason : String)
      (code : Option String)
      → History digests ledger
      → IsIn s ledger
      → transition digests s target actor reason code ≡ ok u
      → History digests (u ∷ ledger)
  rolled_back :
      (active previous retired reinstated : Selection) (ledger : List Selection)
      (actor reason : String)
      → History digests ledger
      → IsIn active ledger
      → IsIn previous ledger
      → rollback digests active previous actor reason ≡ ok (retired, reinstated)
      → History digests (retired ∷ reinstated ∷ ledger)

-- How a record became active: from an approved record of the same selection, or by a rollback that
-- superseded an active record of its scope.
pub data IsEntitled (digests : Digests) (ledger : List Selection) (u : Selection) : Type 0 where
  by_activation :
      (approved : Selection)
      → IsIn approved ledger
      → approved.lifecycle.state ≡ "approved"
      → identity_of u ≡ identity_of approved
      → u.lifecycle.supersedes ≡ approved.lifecycle.record_id
      → IsEntitled digests ledger u
  by_rollback :
      (active previous retired : Selection)
      → IsIn retired ledger
      → IsIn active ledger
      → IsIn previous ledger
      → IsActive active
      → scope_key u ≡ scope_key active
      → IsRolledBack digests active previous retired u
      → IsEntitled digests ledger u

-- What stands behind an active record: the way it became so, and an approved record of its scope.
pub record IsBacked (digests : Digests) (ledger : List Selection) (u : Selection) : Type 0 where
  pub way : IsEntitled digests ledger u
  pub approval : Selection
  pub recorded : IsIn approval ledger
  pub approved : approval.lifecycle.state ≡ "approved"
  pub scope : scope_key approval ≡ scope_key u

IsEntitled-later :
    (digests : Digests) (ledger : List Selection) (s u : Selection)
    → IsEntitled digests ledger u
    → IsEntitled digests (s ∷ ledger) u
IsEntitled-later digests ledger s u (IsEntitled.by_activation a i state same chain) =
    IsEntitled.by_activation a (inr i) state same chain
IsEntitled-later digests ledger s u (IsEntitled.by_rollback a p r i j k on scope back) =
    IsEntitled.by_rollback a p r (inr i) (inr j) (inr k) on scope back

IsBacked-later :
    (digests : Digests) (ledger : List Selection) (s u : Selection)
    → IsBacked digests ledger u
    → IsBacked digests (s ∷ ledger) u
IsBacked-later digests ledger s u h = record {
  way = IsEntitled-later digests ledger s u h.way;
  approval = h.approval;
  recorded = inr h.recorded;
  approved = h.approved;
  scope = h.scope;
}

other_state :
    (a b : String) (s : Selection)
    → (a == b) ≡ false
    → s.lifecycle.state ≡ a
    → s.lifecycle.state ≡ b
    → ⊥
other_state a b s differ ea eb =
    let same : a ≡ b = sym ea ∙ eb in
    absurd (ground (arith, differ, (string_eq.is_eq_iff a b).1 same))

not_active_target : (target : String) → (target == "active") ≡ false → target ≡ "active" → ⊥
not_active_target target differ e =
    absurd (ground (arith, differ, (string_eq.is_eq_iff target "active").1 e))

-- the one step of the table that ends in the active state
approved_before :
    (current target : String) → IsAllowed current target → target ≡ "active" → current ≡ "approved"
approved_before current target (inl (_, inl e)) h = absurd (not_active_target target (rw e refl) h)
approved_before current target (inl (_, inr e)) h = absurd (not_active_target target (rw e refl) h)
approved_before current target (inr (inl (c, _))) h = c
approved_before current target (inr (inr (_, e))) h =
    absurd (not_active_target target (rw e refl) h)

moved-IsBacked :
    (digests : Digests) (s u : Selection) (ledger : List Selection) (target actor reason : String)
    (code : Option String)
    → IsIn s ledger
    → transition digests s target actor reason code ≡ ok u
    → IsActive u
    → IsBacked digests (u ∷ ledger) u
moved-IsBacked digests s u ledger target actor reason code i e on =
    let r = transition-IsRecorded digests s target actor reason code e in
    let state = approved_before s.lifecycle.state target r.allowed (sym r.state ∙ on) in
    record {
      way = IsEntitled.by_activation s (inr i) state r.identity r.supersedes;
      approval = s;
      recorded = inr i;
      approved = state;
      scope = scope_key-identity s u (sym r.identity);
    }

-- the reinstated record of a rollback, from what stands behind the one that it replaces
reinstated-IsBacked :
    (digests : Digests) (active previous retired reinstated : Selection) (ledger : List Selection)
    (actor reason : String)
    → IsIn active ledger
    → IsIn previous ledger
    → IsBacked digests ledger active
    → rollback digests active previous actor reason ≡ ok (retired, reinstated)
    → IsBacked digests (retired ∷ reinstated ∷ ledger) reinstated
reinstated-IsBacked digests active previous retired reinstated ledger actor reason i j back e =
    let (on, scope, done) = rollback-IsRolledBack digests active previous actor reason e in
    let here : scope_key reinstated ≡ scope_key active =
      scope_key-identity reinstated previous done.reinstated_identity ∙ sym scope in
    record {
      way =
          IsEntitled.by_rollback active previous retired (inl refl) (inr (inr i)) (inr (inr j)) on
            here done;
      approval = back.approval;
      recorded = inr (inr back.recorded);
      approved = back.approved;
      scope = back.scope ∙ sym here;
    }

-- In every history of candidates, transitions and rollbacks, a record that is active became so from an
-- approved record of the same selection, which it supersedes, or by a rollback that superseded an
-- active record of its scope and reinstated a record of the history. In either case the history has an
-- approved record of its scope.
pub active-IsBacked :
    (digests : Digests) (ledger : List Selection) (u : Selection)
    → History digests ledger
    → IsIn u ledger
    → IsActive u
    → IsBacked digests ledger u
active-IsBacked digests ledger u History.empty i on = absurd i
active-IsBacked digests ledger u (History.proposed s earlier state h) (inl same) on =
    absurd (other_state "candidate" "active" s refl state (subst IsActive (sym same) on))
active-IsBacked digests ledger u (History.proposed s earlier state h) (inr i) on =
    IsBacked-later digests earlier s u (active-IsBacked digests earlier u h i on)
active-IsBacked digests ledger u (History.moved s v earlier target actor reason code h j e)
      (inl same) on =
    subst (IsBacked digests (v ∷ earlier)) same (
      moved-IsBacked digests s v earlier target actor reason code j e
        (subst IsActive (sym same) on))
active-IsBacked digests ledger u (History.moved s v earlier target actor reason code h j e) (inr i)
      on =
    IsBacked-later digests earlier v u (active-IsBacked digests earlier u h i on)
active-IsBacked digests ledger u
      (History.rolled_back active previous retired reinstated earlier actor reason h j k e) i on =
    let (was, scope, done) = rollback-IsRolledBack digests active previous actor reason e in
    elim i [
      | inl same ↦ absurd (
          other_state "superseded" "active" retired refl done.retired_state
            (subst IsActive (sym same) on))
      | inr (inl same) ↦ subst (IsBacked digests (retired ∷ reinstated ∷ earlier)) same (
          reinstated-IsBacked digests active previous retired reinstated earlier actor reason j k
            (active-IsBacked digests earlier active h j was) e)
      | inr (inr i) ↦
          IsBacked-later digests (reinstated ∷ earlier) retired u
            (IsBacked-later digests earlier reinstated u (active-IsBacked digests earlier u h i on))
    ]
