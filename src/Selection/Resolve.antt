-- ===== src/Selection/Resolve.antt =====
-- What a resolved selection has been checked for, and what a rollback leaves.
use retail_intelligence.Selection.Defs.{
  SelectionError, Selection, Identity, Digests, FileSystem, schema_v1, allowed_transitions,
  identity_of, derive_selection_id, derive_record_id, ScopeKey, scope_key, validate_selection,
  with_ids, transition, rollback, resolve_selection, unsupported_schema, id_mismatch, not_active,
  scope_mismatch, absent, not_ready, insufficient, publication_moved, reinstate,
}
use retail_intelligence.Base.Result.{
  raise_if, >>=-eq-ok, passed, ok-injective, not_raised, from_option, ok,
}
use retail_intelligence.Base.Dict.{has}
use retail_intelligence.Base.Equality.{
  ◌==◌, nat_eq, string_eq, pair_beq_iff, pair_eq, option_beq_iff, option_eq,
}
use retail_intelligence.Base.{
  String, ◌≡◌, refl, sym, ap, ◌∙◌, ◌↔◌, Bool, true, false, not, ◌&&◌, Option, none, some, List, ◌∷◌,
  arith, All-imp,
}
use mathlib.Core.Path.{subst}
use retail_intelligence.Selection.Lifecycle.{IsRecorded, transition-IsRecorded}
use retail_intelligence.Selection.Scopes.{inactive, IsActive, Apart, IsOneActive}

-- All that a command may rely on.
pub record IsUsable (digests : Digests) (files : FileSystem) (path : String) (requested : ScopeKey)
    (root : String) (require_sufficient : Bool) (s : Selection) : Type 0 where
  pub named : files.load path ≡ some s
  pub version : s.schema_version ≡ some schema_v1
  pub identity : s.selection_id ≡ some (derive_selection_id digests s)
  pub scope : scope_key s ≡ requested
  pub active : s.lifecycle.state ≡ "active"
  pub ready : s.readiness.capability_readiness ≡ "ready"
  pub sufficient : require_sufficient ≡ true → s.readiness.capability_sufficiency ≡ "sufficient"
  pub present : files.exists root s.publication.logical_path ≡ true

from_option-ok {ℓ} :
    {A : Type ℓ} (e : SelectionError) (o : Option A) {a : A} → from_option e o ≡ ok a → o ≡ some a
from_option-ok e none h = cc
from_option-ok e (some b) h = ap (λ x. some x) (ok-injective h)

same_text : (a b : String) → (a == b) ≡ true → a ≡ b
same_text a b = (string_eq.is_eq_iff a b).0

same_option : (a b : Option String) → (a == b) ≡ true → a ≡ b
same_option a b = (option_beq_iff a b).0

equal_text : (a b : String) → a ≡ b → (a == b) ≡ true
equal_text a b = (string_eq.is_eq_iff a b).1

equal_option : (a b : Option String) → a ≡ b → (a == b) ≡ true
equal_option a b = (option_beq_iff a b).1

module _ (digests : Digests) (files : FileSystem) (path : String) (requested : ScopeKey)
    (root : String) (require_sufficient : Bool) where
  resolve_selection_sound :
      (s : Selection)
      → resolve_selection digests files path requested root require_sufficient ≡ ok s
      → IsUsable digests files path requested root require_sufficient s
  unfolding resolve_selection validate_selection
  resolve_selection_sound s e =
      let (t, named, e1) = >>=-eq-ok (from_option absent (files.load path)) _ e in
      let (_, valid, e2) = >>=-eq-ok (validate_selection digests t) _ e1 in
      let (_, version, v1) =
        >>=-eq-ok (raise_if (not (t.schema_version == some schema_v1)) unsupported_schema) _
          valid in
      let (_, identity, v2) =
        >>=-eq-ok
          (raise_if (not (t.selection_id == some (derive_selection_id digests t))) id_mismatch) _
          v1 in
      let (_, scope, e3) =
        >>=-eq-ok (raise_if (not (scope_key t == requested)) scope_mismatch) _ e2 in
      let (_, active, e4) =
        >>=-eq-ok (raise_if (not (t.lifecycle.state == "active")) not_active) _ e3 in
      let (_, ready, e5) =
        >>=-eq-ok (raise_if (not (t.readiness.capability_readiness == "ready")) not_ready) _ e4 in
      let enough = t.readiness.capability_sufficiency == "sufficient" in
      let (_, sufficient, e6) =
        >>=-eq-ok (raise_if (require_sufficient && not enough) insufficient) _ e5 in
      let there = files.exists root t.publication.logical_path in
      let (_, present, last) = >>=-eq-ok (raise_if (not there) publication_moved) _ e6 in
      let usable : IsUsable digests files path requested root require_sufficient t = record {
        named = from_option-ok absent (files.load path) named;
        version =
            same_option t.schema_version (some schema_v1) (passed _ unsupported_schema version);
        identity =
            same_option t.selection_id (some (derive_selection_id digests t))
              (passed _ id_mismatch identity);
        scope = (pair_beq_iff (scope_key t) requested).0 (passed _ scope_mismatch scope);
        active = same_text t.lifecycle.state "active" (passed _ not_active active);
        ready = same_text t.readiness.capability_readiness "ready" (passed _ not_ready ready);
        sufficient = λ wanted. same_text t.readiness.capability_sufficiency "sufficient" (
            let off = not_raised (require_sufficient && not enough) insufficient sufficient in
            ground (arith, off, wanted));
        present = passed there publication_moved present;
      } in
      subst (IsUsable digests files path requested root require_sufficient) (ok-injective last)
        usable

  resolve_selection_complete :
      (s : Selection)
      → IsUsable digests files path requested root require_sufficient s
      → resolve_selection digests files path requested root require_sufficient ≡ ok s
  unfolding resolve_selection validate_selection has
  resolve_selection_complete s h =
      let known : has s.lifecycle.state allowed_transitions ≡ true = rw h.active refl in
      let enough = s.readiness.capability_sufficiency == "sufficient" in
      let fine : (require_sufficient && not enough) ≡ false =
        ground (arith, h.sufficient, equal_text s.readiness.capability_sufficiency "sufficient") in
      rw h.named (
        rw (equal_option s.schema_version (some schema_v1) h.version) (
          rw (equal_option s.selection_id (some (derive_selection_id digests s)) h.identity) (
            rw known (
              rw ((pair_beq_iff (scope_key s) requested).1 h.scope) (
                rw (equal_text s.lifecycle.state "active" h.active) (
                  rw (equal_text s.readiness.capability_readiness "ready" h.ready)
                    (rw fine (rw h.present refl))))))))

  -- A selection resolves exactly if it is the content of the named file, of the current schema, with
  -- the id of its own contents, for the requested scope, active, ready, sufficient where that is
  -- required, and its publication is there.
  pub resolve_selection_iff :
      (s : Selection)
      → (resolve_selection digests files path requested root require_sufficient ≡ ok s)
        ↔ IsUsable digests files path requested root require_sufficient s
  resolve_selection_iff s = (resolve_selection_sound s, resolve_selection_complete s)

-- What a rollback returns: the active record superseded, and the previous selection reinstated by a
-- new active record that supersedes that one.
pub record IsRolledBack (digests : Digests) (active previous retired reinstated : Selection)
    : Type 0 where
  pub retired_state : retired.lifecycle.state ≡ "superseded"
  pub retired_supersedes : retired.lifecycle.supersedes ≡ active.lifecycle.record_id
  pub retired_identity : identity_of retired ≡ identity_of active
  pub reinstated_active : IsActive reinstated
  pub reinstated_supersedes :
      reinstated.lifecycle.supersedes ≡ some (derive_record_id digests retired)
  pub reinstated_identity : identity_of reinstated ≡ identity_of previous
  pub reinstated_id : reinstated.lifecycle.record_id ≡ some (derive_record_id digests reinstated)

reinstate-IsRolledBack :
    (digests : Digests) (active previous retired : Selection) (actor reason : String)
    → IsRecorded digests active "superseded" actor reason (some "ROLLBACK") retired
    → IsRolledBack digests active previous retired (reinstate digests retired previous actor reason)
unfolding reinstate with_ids derive_record_id derive_selection_id identity_of
reinstate-IsRolledBack digests active previous retired actor reason r = record {
  retired_state = r.state;
  retired_supersedes = r.supersedes;
  retired_identity = r.identity;
  reinstated_active = refl;
  reinstated_supersedes = r.record_id;
  reinstated_identity = refl;
  reinstated_id = refl;
}

-- A rollback that succeeds was asked for an active record and a selection of the same scope. It
-- supersedes the active record and reinstates the other selection, under its former identity, by a
-- new active record that supersedes the retired one.
pub rollback-IsRolledBack :
    (digests : Digests) (active previous : Selection) (actor reason : String)
    {retired reinstated : Selection}
    → rollback digests active previous actor reason ≡ ok (retired, reinstated)
    → IsActive active
      × (scope_key active ≡ scope_key previous)
      × IsRolledBack digests active previous retired reinstated
unfolding rollback
rollback-IsRolledBack digests active previous actor reason {retired} {reinstated} e =
    let (_, on, e1) =
      >>=-eq-ok (raise_if (not (active.lifecycle.state == "active")) not_active) _ e in
    let (_, scope, e2) =
      >>=-eq-ok (raise_if (not (scope_key active == scope_key previous)) scope_mismatch) _ e1 in
    let (first, step, last) =
      >>=-eq-ok (transition digests active "superseded" actor reason (some "ROLLBACK")) _ e2 in
    let pair = ok-injective last in
    let recorded =
      transition-IsRecorded digests active "superseded" actor reason (some "ROLLBACK") step in
    (
      same_text active.lifecycle.state "active" (passed _ not_active on),
      (pair_beq_iff (scope_key active) (scope_key previous)).0 (passed _ scope_mismatch scope),
      subst (λ (p : Selection × Selection). IsRolledBack digests active previous p.0 p.1) pair
          (reinstate-IsRolledBack digests active previous first actor reason recorded),
    )

pub scope_key-identity :
    (a b : Selection) → identity_of a ≡ identity_of b → scope_key a ≡ scope_key b
unfolding scope_key identity_of
scope_key-identity a b same =
    ap
      (λ (i : Identity).
        (i.scope.retailer_id, (i.scope.tenant_id, (i.scope.capability, i.scope.environment))))
      same

-- In a ledger with one active selection per scope, a rollback that replaces the active record by the
-- two records it returns leaves one active selection per scope.
pub rollback-IsOneActive :
    (digests : Digests) (active previous : Selection) (actor reason : String)
    (others : List Selection) {retired reinstated : Selection}
    → IsOneActive (active ∷ others)
    → rollback digests active previous actor reason ≡ ok (retired, reinstated)
    → IsOneActive (retired ∷ reinstated ∷ others)
rollback-IsOneActive digests active previous actor reason others {retired} {reinstated} h e =
    let (on, scope, done) = rollback-IsRolledBack digests active previous actor reason e in
    let off = inactive retired (rw done.retired_state refl) in
    let here : scope_key reinstated ≡ scope_key active =
      scope_key-identity reinstated previous done.reinstated_identity ∙ sym scope in
    (
      (
        λ still. absurd (off still),
        All-imp (Apart active) (Apart retired) others (λ t _ still. absurd (off still)) h.0,
      ),
      (
        All-imp (Apart active) (Apart reinstated) others
            (λ t apart _ t_on same. apart on t_on (sym here ∙ same)) h.0,
        h.1,
      ),
    )
