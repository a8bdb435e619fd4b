-- ===== src/Selection/Tests.antt =====
-- Runs of the selection operations, and their theorems at a concrete selection.
use retail_intelligence.Selection.History.{History, IsBacked, active-IsBacked}
use retail_intelligence.Selection.Resolve.{
  IsUsable, resolve_selection_iff, IsRolledBack, rollback-IsRolledBack, rollback-IsOneActive,
}
use retail_intelligence.Selection.Scopes.{IsActive, IsOneActive, assert_one_active_per_scope_iff}
use retail_intelligence.Selection.Runs.{Request, transition_all, transition_all-bounded}
use retail_intelligence.Selection.Lifecycle.{
  IsRecorded, transition-IsRecorded, transition-validates,
}
use retail_intelligence.Selection.Defs.{
  Selection, Identity, RecordPayload, Digests, FileSystem, schema_v1, identity_of,
  derive_selection_id, derive_record_id, scope_key, validate_selection, assert_unseen,
  assert_one_active_per_scope, with_ids, transition, reinstate, rollback, resolve_selection,
  two_active, illegal_transition,
}
use retail_intelligence.Base.Result.{ok, err}
use retail_intelligence.Base.Dict.{get_or, has}
use retail_intelligence.Base.Equality.{nat_eq, string_eq, ◌==◌, pair_eq, option_eq}
use retail_intelligence.Base.{
  ◌≤◌, String, ◌≡◌, refl, ◌↔◌, inl, inr, true, Option, none, some, List, [], ◌∷◌, if◌then◌else◌,
  length,
}
use Prim.Native.String.{◌++◌ as concat}

-- a digest that tells scopes and states apart
abbrev digests : Digests
digests = record {
  of_identity = λ (i : Identity). i.scope.tenant_id;
  of_record = λ (r : RecordPayload). r.state;
}

abbrev draft : Selection
draft = record {
  schema_version = some schema_v1;
  selection_id = some "sel_acme-uk";
  scope = record {
    retailer_id = "acme";
    tenant_id = "acme-uk";
    capability = "historical_replay";
    environment = "local";
  };
  lifecycle = record {
    state = "candidate";
    supersedes = none;
    reason_code = none;
    record_id = some "rec_candidate";
  };
  publication = record {
    source_snapshot_id = some "a";
    gate_a_fingerprint = some "b";
    gate_b_fingerprint = some "c";
    publication_fingerprint = some "d";
    logical_path = "curated/run-1";
    object_count = 3;
    duckdb_sha256 = some "f";
  };
  readiness = record {
    report_fingerprint = some "e";
    capability_readiness = "ready";
    capability_sufficiency = "sufficient";
  };
  approval = record { actor = "reviewer"; approved_at = "2026-07-31"; reason = "accepted" };
}

abbrev recorded : String → Option String → Option String → Selection
recorded state supersedes code = record draft {
  lifecycle = record {
    state = state;
    supersedes = supersedes;
    reason_code = code;
    record_id = some (concat "rec_" state);
  };
}

abbrev approved : Selection
approved = recorded "approved" (some "rec_candidate") none

abbrev live : Selection
live = recorded "active" (some "rec_approved") none

approve_run : transition digests draft "approved" "reviewer" "accepted" none ≡ ok approved
unfolding transition with_ids derive_record_id derive_selection_id identity_of get_or
approve_run = refl

skip_run : transition digests draft "active" "reviewer" "accepted" none ≡ err illegal_transition
unfolding transition get_or
skip_run = refl

abbrev to_active : List Request
to_active =
    record { target = "approved"; actor = "reviewer"; reason = "accepted"; reason_code = none }
    ∷ record { target = "active"; actor = "reviewer"; reason = "accepted"; reason_code = none }
    ∷ []

activate_run : transition_all digests to_active draft ≡ ok live
unfolding transition_all transition with_ids derive_record_id derive_selection_id identity_of get_or
activate_run = refl

transition-IsRecorded_example :
    IsRecorded digests draft "approved" "reviewer" "accepted" none approved
transition-IsRecorded_example =
    transition-IsRecorded digests draft "approved" "reviewer" "accepted" none approve_run

transition-validates_example : validate_selection digests approved ≡ ok tt
transition-validates_example =
    transition-validates digests draft "approved" "reviewer" "accepted" none refl approve_run

transition_all-bounded_example : length to_active ≤ 3
transition_all-bounded_example = transition_all-bounded digests to_active draft activate_run

one_run : assert_one_active_per_scope (draft ∷ live ∷ []) ≡ ok tt
unfolding assert_one_active_per_scope assert_unseen scope_key
one_run = refl

two_run : assert_one_active_per_scope (live ∷ draft ∷ live ∷ []) ≡ err two_active
unfolding assert_one_active_per_scope assert_unseen scope_key
two_run = refl

assert_one_active_per_scope_iff_example :
    (assert_one_active_per_scope (live ∷ draft ∷ []) ≡ ok tt) ↔ IsOneActive (live ∷ draft ∷ [])
assert_one_active_per_scope_iff_example = assert_one_active_per_scope_iff (live ∷ draft ∷ [])

abbrev retired : Selection
retired = recorded "superseded" (some "rec_active") (some "ROLLBACK")

abbrev reinstated : Selection
reinstated = recorded "active" (some "rec_superseded") (some "ROLLBACK")

rollback_run : rollback digests live draft "reviewer" "accepted" ≡ ok (retired, reinstated)
unfolding rollback reinstate transition with_ids derive_record_id derive_selection_id identity_of
    get_or scope_key
rollback_run = refl

rollback-IsRolledBack_example :
    IsActive live
    × (scope_key live ≡ scope_key draft)
    × IsRolledBack digests live draft retired reinstated
rollback-IsRolledBack_example =
    rollback-IsRolledBack digests live draft "reviewer" "accepted" rollback_run

alone : IsOneActive (live ∷ [])
alone = (tt, tt)

rollback-IsOneActive_example : IsOneActive (retired ∷ reinstated ∷ [])
rollback-IsOneActive_example =
    rollback-IsOneActive digests live draft "reviewer" "accepted" [] alone rollback_run

abbrev files : FileSystem
files = record {
  load = λ path. if path == "selection.json" then some live else none;
  exists = λ root path. path == "curated/run-1";
}

resolve_run : resolve_selection digests files "selection.json" (scope_key live) "." true ≡ ok live
unfolding resolve_selection validate_selection derive_selection_id identity_of scope_key has
resolve_run = refl

resolve_selection_iff_example :
    (resolve_selection digests files "selection.json" (scope_key live) "." true ≡ ok live)
    ↔ IsUsable digests files "selection.json" (scope_key live) "." true live
resolve_selection_iff_example =
    resolve_selection_iff digests files "selection.json" (scope_key live) "." true live

go_live_run : transition digests approved "active" "reviewer" "accepted" none ≡ ok live
unfolding transition with_ids derive_record_id derive_selection_id identity_of get_or
go_live_run = refl

abbrev rolled_ledger : List Selection
rolled_ledger = retired ∷ reinstated ∷ live ∷ approved ∷ draft ∷ []

rolled_ledger-History : History digests rolled_ledger
rolled_ledger-History =
    History.rolled_back live draft retired reinstated (live ∷ approved ∷ draft ∷ []) "reviewer"
      "accepted"
      (History.moved approved live (approved ∷ draft ∷ []) "active" "reviewer" "accepted" none
        (History.moved draft approved (draft ∷ []) "approved" "reviewer" "accepted" none
          (History.proposed draft [] refl History.empty) (inl refl) approve_run)
        (inl refl) go_live_run)
      (inl refl) (inr (inr (inl refl))) rollback_run

active-IsBacked_example : IsBacked digests rolled_ledger reinstated
active-IsBacked_example =
    active-IsBacked digests rolled_ledger reinstated rolled_ledger-History (inr (inl refl)) refl
