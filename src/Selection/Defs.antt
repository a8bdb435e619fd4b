-- ===== src/Selection/Defs.antt =====
-- The operations of ingestion/src/retail_ingestion/readiness/selection.py. A selection is the record
-- that its JSON schema describes, less `semanticIdentityExcludes`, which the code excludes from every
-- digest and never reads; `none` stands for a key that is absent or null, where the code reads it by
-- `get`. The digests (the first 16 hexadecimal digits of the SHA-256 of canonical JSON) and the file
-- system are parameters.

use retail_intelligence.Base.Result.{Result, ◌>>=◌, ◌>>◌, raise_if, from_option, ok, err}
use retail_intelligence.Base.Dict.{Dict, get_or, has}
use retail_intelligence.Base.Equality.{◌==◌, nat_eq, string_eq, pair_eq, option_eq}
use retail_intelligence.Base.{
  ℕ, String, Bool, false, not, ◌&&◌, Option, none, some, List, [], ◌∷◌, eqb, if◌then◌else◌, any,
}
use Prim.Native.String.{◌++◌ as concat}

pub data SelectionError : Type 0 where
  unsupported_schema id_mismatch unknown_state two_active illegal_transition : SelectionError
  not_active scope_mismatch absent not_ready insufficient publication_moved : SelectionError
  fingerprint_mismatch object_count_mismatch : SelectionError

pub record Scope : Type 0 where
  pub retailer_id : String
  pub tenant_id : String
  pub capability : String
  pub environment : String

pub record Lifecycle : Type 0 where
  pub state : String
  pub supersedes : Option String
  pub reason_code : Option String
  pub record_id : Option String

pub record Publication : Type 0 where
  pub source_snapshot_id : Option String
  pub gate_a_fingerprint : Option String
  pub gate_b_fingerprint : Option String
  pub publication_fingerprint : Option String
  pub logical_path : String
  pub object_count : ℕ
  pub duckdb_sha256 : Option String

pub record Readiness : Type 0 where
  pub report_fingerprint : Option String
  pub capability_readiness : String
  pub capability_sufficiency : String

pub record Approval : Type 0 where
  pub actor : String
  pub approved_at : String
  pub reason : String

pub record Selection : Type 0 where
  pub schema_version : Option String
  pub selection_id : Option String
  pub scope : Scope
  pub lifecycle : Lifecycle
  pub publication : Publication
  pub readiness : Readiness
  pub approval : Approval

-- The entries that `IDENTITY_EXCLUDES` leaves.
pub record Identity : Type 0 where
  pub schema_version : Option String
  pub scope : Scope
  pub publication : Publication
  pub readiness : Readiness

-- What a record id is the digest of.
pub record RecordPayload : Type 0 where
  pub selection_id : String
  pub state : String
  pub supersedes : Option String
  pub reason_code : Option String
  pub approval : Approval

pub record Digests : Type 0 where
  pub of_identity : Identity → String
  pub of_record : RecordPayload → String

pub record FileSystem : Type 0 where
  -- the JSON of a file, where there is one
  pub load : String → Option Selection
  -- whether the repository root has the path
  pub exists : String → String → Bool

abbrev pub schema_v1 : String
schema_v1 = "retail-publication-selection/v1"

abbrev pub allowed_transitions : Dict String (List String)
allowed_transitions =
    ("candidate", "approved" ∷ "rejected" ∷ [])
    ∷ ("approved", "active" ∷ "rejected" ∷ [])
    ∷ ("active", "superseded" ∷ [])
    ∷ ("superseded", [])
    ∷ ("rejected", [])
    ∷ []

unfoldable pub identity_of : Selection → Identity
identity_of s = record {
  schema_version = s.schema_version;
  scope = s.scope;
  publication = s.publication;
  readiness = s.readiness;
}

unfoldable pub derive_selection_id : Digests → Selection → String
derive_selection_id digests s = concat "sel_" (digests.of_identity (identity_of s))

unfoldable pub derive_record_id : Digests → Selection → String
derive_record_id digests s = concat "rec_" (
    digests.of_record (record {
      selection_id = derive_selection_id digests s;
      state = s.lifecycle.state;
      supersedes = s.lifecycle.supersedes;
      reason_code = s.lifecycle.reason_code;
      approval = s.approval;
    }))

abbrev pub ScopeKey : Type 0
ScopeKey = String × (String × (String × String))

unfoldable pub scope_key : Selection → ScopeKey
scope_key s = (s.scope.retailer_id, (s.scope.tenant_id, (s.scope.capability, s.scope.environment)))

unfoldable pub validate_selection : Digests → Selection → Result SelectionError (Unit {0})
validate_selection digests s = do
  raise_if (not (s.schema_version == some schema_v1)) unsupported_schema
  raise_if (not (s.selection_id == some (derive_selection_id digests s))) id_mismatch
  raise_if (not (has s.lifecycle.state allowed_transitions)) unknown_state

-- The loop over the selections, with the scopes seen so far.
unfoldable pub assert_unseen : List ScopeKey → List Selection → Result SelectionError (Unit {0})
assert_unseen seen [] = ok tt
assert_unseen seen (s ∷ selections) =
    let passed_over = assert_unseen seen selections in
    let added = assert_unseen (scope_key s ∷ seen) selections in
    if not (s.lifecycle.state == "active")
    then passed_over
    else if any (λ k. k == scope_key s) seen
    then err two_active
    else added

unfoldable pub assert_one_active_per_scope : List Selection → Result SelectionError (Unit {0})
assert_one_active_per_scope selections = assert_unseen [] selections

-- `if reason_code: ...`
abbrev pub truthy_text : Option String → Option String
truthy_text none = none
truthy_text (some code) = if code == "" then none else some code

-- The fields that a new lifecycle record derives last.
unfoldable pub with_ids : Digests → Selection → Selection
with_ids digests s =
    let named = record s { selection_id = some (derive_selection_id digests s) } in
    record named {
      lifecycle = record named.lifecycle { record_id = some (derive_record_id digests named) };
    }

unfoldable pub transition :
    Digests
    → Selection
    → (target_state actor reason : String) → Option String
    → Result SelectionError Selection
transition digests s target_state actor reason reason_code = do
  raise_if (not (any (λ t. t == target_state) (get_or s.lifecycle.state [] allowed_transitions)))
      illegal_transition
  ok (
      with_ids digests (record s {
        lifecycle = record {
          state = target_state;
          supersedes = s.lifecycle.record_id;
          reason_code = truthy_text reason_code;
          record_id = none;
        };
        approval = record { actor = actor; approved_at = s.approval.approved_at; reason = reason };
      }))

-- The second record of a rollback.
unfoldable pub reinstate : Digests → (retired previous : Selection) → String → String → Selection
reinstate digests retired previous actor reason = with_ids digests (record previous {
  lifecycle = record {
    state = "active";
    supersedes = retired.lifecycle.record_id;
    reason_code = some "ROLLBACK";
    record_id = none;
  };
  approval = record { actor = actor; approved_at = previous.approval.approved_at; reason = reason };
})

unfoldable pub rollback :
    Digests
    → (active previous : Selection) (actor reason : String)
    → Result SelectionError (Selection × Selection)
rollback digests active previous actor reason = do
  raise_if (not (active.lifecycle.state == "active")) not_active
  raise_if (not (scope_key active == scope_key previous)) scope_mismatch
  retired ← transition digests active "superseded" actor reason (some "ROLLBACK")
  ok (retired, reinstate digests retired previous actor reason)

unfoldable pub resolve_selection :
    Digests
    → FileSystem
    → (path : String) → ScopeKey
    → (repository_root : String) (require_sufficient : Bool) → Result SelectionError Selection
resolve_selection digests files path requested repository_root require_sufficient = do
  s ← from_option absent (files.load path)
  validate_selection digests s
  raise_if (not (scope_key s == requested)) scope_mismatch
  raise_if (not (s.lifecycle.state == "active")) not_active
  raise_if (not (s.readiness.capability_readiness == "ready")) not_ready
  raise_if (require_sufficient && not (s.readiness.capability_sufficiency == "sufficient"))
      insufficient
  raise_if (not (files.exists repository_root s.publication.logical_path)) publication_moved
  ok s

-- `objects` is the length of the manifest's list, where it has one.
pub record Manifest : Type 0 where
  pub semantic_fingerprint : Option String
  pub gate_b_fingerprint : Option String
  pub source_snapshot_id : Option String
  pub objects : Option ℕ

abbrev pub count_differs : ℕ → Option ℕ → Bool
count_differs declared none = false
count_differs declared (some actual) = not (eqb declared actual)

unfoldable pub verify_against_publication : Selection → Manifest → Result SelectionError (Unit {0})
verify_against_publication s manifest = do
  raise_if (not (s.publication.publication_fingerprint == manifest.semantic_fingerprint))
      fingerprint_mismatch
  raise_if (not (s.publication.gate_b_fingerprint == manifest.gate_b_fingerprint))
      fingerprint_mismatch
  raise_if (not (s.publication.source_snapshot_id == manifest.source_snapshot_id))
      fingerprint_mismatch
  raise_if (count_differs s.publication.object_count manifest.objects) object_count_mismatch
