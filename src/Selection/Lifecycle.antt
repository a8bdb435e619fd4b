-- ===== src/Selection/Lifecycle.antt =====
-- The lifecycle of a selection: the allowed steps, and what a transition records.
use retail_intelligence.Selection.Defs.{
  Selection, Identity, Digests, schema_v1, allowed_transitions, identity_of, derive_selection_id,
  derive_record_id, validate_selection, truthy_text, with_ids, transition, illegal_transition,
}
use retail_intelligence.Base.Result.{raise_if, >>=-eq-ok, passed, ok-injective, ok}
use retail_intelligence.Base.Dict.{get_or, has}
use retail_intelligence.Base.Equality.{nat_eq, string_eq, ◌==◌, pair_eq, option_beq_iff, option_eq}
use retail_intelligence.Base.{
  String, ◌≡◌, refl, sym, ap, ◌∙◌, ◌⊎◌, inl, inr, Bool, true, not, Option, some, [], arith, any,
}
use Prim.Native.String.{◌++◌ as concat}

-- The states and their successors.
abbrev pub IsAllowed : String → String → Type 0
IsAllowed current target =
    ((current ≡ "candidate") × ((target ≡ "approved") ⊎ (target ≡ "rejected")))
    ⊎ (((current ≡ "approved") × ((target ≡ "active") ⊎ (target ≡ "rejected")))
        ⊎ ((current ≡ "active") × (target ≡ "superseded")))

-- whether the table allows the step
abbrev may_go : String → String → Bool
may_go current target = any (λ t. t == target) (get_or current [] allowed_transitions)

same_text : (a b : String) → (a == b) ≡ true → a ≡ b
same_text a b h = (string_eq.is_eq_iff a b).0 h

may_go→IsAllowed :
    (current target : String) → may_go current target ≡ true → IsAllowed current target
unfolding get_or
may_go→IsAllowed current target h = ground (
  arith,
  same_text "candidate" current,
  same_text "approved" current,
  same_text "active" current,
  same_text "approved" target,
  same_text "rejected" target,
  same_text "active" target,
  same_text "superseded" target,
)

-- What a transition that succeeds records: the step is one of the five; the target state, the actor,
-- the reason and the reason code, unless empty, are written; the record it supersedes is the former
-- one; the ids are derived from the contents; and what is selected has not changed.
pub record IsRecorded (digests : Digests) (s : Selection) (target who why : String)
    (code : Option String) (u : Selection) : Type 0 where
  pub allowed : IsAllowed s.lifecycle.state target
  pub state : u.lifecycle.state ≡ target
  pub supersedes : u.lifecycle.supersedes ≡ s.lifecycle.record_id
  pub identity : identity_of u ≡ identity_of s
  pub selection_id : u.selection_id ≡ some (derive_selection_id digests s)
  pub record_id : u.lifecycle.record_id ≡ some (derive_record_id digests u)
  pub approved_at : u.approval.approved_at ≡ s.approval.approved_at
  pub actor : u.approval.actor ≡ who
  pub reason : u.approval.reason ≡ why
  pub reason_code : u.lifecycle.reason_code ≡ truthy_text code

-- A transition that succeeds takes one of the five allowed steps, to the asked state. The new record
-- supersedes the former one, selects the same publication for the same scope under the selection id
-- derived from the former contents, states the actor, the reason and the reason code unless that is
-- empty, keeps the time of approval, and carries the record id of its own contents.
pub transition-IsRecorded :
    (digests : Digests) (s : Selection) (target actor reason : String) (code : Option String)
    {u : Selection}
    → transition digests s target actor reason code ≡ ok u
    → IsRecorded digests s target actor reason code u
unfolding transition with_ids derive_record_id derive_selection_id identity_of
transition-IsRecorded digests s target actor reason code e =
    let test = may_go s.lifecycle.state target in
    let (_, allowed, last) = >>=-eq-ok (raise_if (not test) illegal_transition) _ e in
    rw (← ok-injective last) (record {
      allowed = may_go→IsAllowed s.lifecycle.state target (passed test illegal_transition allowed);
      state = refl;
      supersedes = refl;
      identity = refl;
      selection_id = refl;
      record_id = refl;
      approved_at = refl;
      actor = refl;
      reason = refl;
      reason_code = refl;
    })

derive_selection_id-identity :
    (digests : Digests) (u s : Selection)
    → identity_of u ≡ identity_of s
    → derive_selection_id digests u ≡ derive_selection_id digests s
unfolding derive_selection_id
derive_selection_id-identity digests u s same =
    ap (λ (i : Identity). concat "sel_" (digests.of_identity i)) same

target-known :
    (current target : String) → IsAllowed current target → has target allowed_transitions ≡ true
unfolding has
target-known current target (inl (_, inl e)) = rw e refl
target-known current target (inl (_, inr e)) = rw e refl
target-known current target (inr (inl (_, inl e))) = rw e refl
target-known current target (inr (inl (_, inr e))) = rw e refl
target-known current target (inr (inr (_, e))) = rw e refl

-- A transition of a record of the current schema gives a record that validates.
pub transition-validates :
    (digests : Digests) (s : Selection) (target actor reason : String) (code : Option String)
    {u : Selection}
    → s.schema_version ≡ some schema_v1
    → transition digests s target actor reason code ≡ ok u
    → validate_selection digests u ≡ ok tt
unfolding validate_selection identity_of
transition-validates digests s target actor reason code {u} current e =
    let r = transition-IsRecorded digests s target actor reason code e in
    let version : u.schema_version ≡ some schema_v1 =
      ap (λ (i : Identity). i.schema_version) r.identity ∙ current in
    let named : u.selection_id ≡ some (derive_selection_id digests u) =
      r.selection_id
      ∙ ap (λ x. some x) (sym (derive_selection_id-identity digests u s r.identity)) in
    let known : has u.lifecycle.state allowed_transitions ≡ true =
      rw r.state (target-known s.lifecycle.state target r.allowed) in
    rw ((option_beq_iff u.schema_version (some schema_v1)).1 version) (
      rw ((option_beq_iff u.selection_id (some (derive_selection_id digests u))).1 named)
        (rw known refl))
