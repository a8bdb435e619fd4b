-- ===== src/Selection/Runs.antt =====
-- Runs of transitions of ingestion/src/retail_ingestion/readiness/selection.py, and their length.
use retail_intelligence.Selection.Lifecycle.{IsAllowed, transition-IsRecorded}
use retail_intelligence.Selection.Defs.{SelectionError, Selection, Digests, transition}
use retail_intelligence.Base.Result.{Result, ◌>>=◌, >>=-eq-ok, ok-injective, ok}
use retail_intelligence.Base.Equality.{nat_eq, string_eq, ◌==◌, pair_eq, option_eq}
use retail_intelligence.Base.{
  ℕ, ◌+◌, ◌≤◌, ◌<◌, String, ◌≡◌, ap, inl, inr, Option, List, [], ◌∷◌, arith, if◌then◌else◌, length,
}

pub record Request : Type 0 where
  pub target : String
  pub actor : String
  pub reason : String
  pub reason_code : Option String

-- transitions one after another, each from the record that the one before it gave
unfoldable pub transition_all : Digests → List Request → Selection → Result SelectionError Selection
transition_all digests [] s = ok s
transition_all digests (r ∷ rs) s = do
  next ← transition digests s r.target r.actor r.reason r.reason_code
  transition_all digests rs next

-- how many steps may still follow
unfoldable steps_left : String → ℕ
steps_left state =
    if state == "candidate"
    then 3
    else if state == "approved"
    then 2
    else if state == "active"
    then 1
    else 0

steps_left-decreases :
    (current target : String) → IsAllowed current target → steps_left target < steps_left current
unfolding steps_left
steps_left-decreases current target (inl (c, inl e)) = rw c (rw e (omega arith))
steps_left-decreases current target (inl (c, inr e)) = rw c (rw e (omega arith))
steps_left-decreases current target (inr (inl (c, inl e))) = rw c (rw e (omega arith))
steps_left-decreases current target (inr (inl (c, inr e))) = rw c (rw e (omega arith))
steps_left-decreases current target (inr (inr (c, e))) = rw c (rw e (omega arith))

steps_left-bound : (state : String) → steps_left state ≤ 3
unfolding steps_left
steps_left-bound state = ground arith

transition_all-steps_left :
    (digests : Digests) (rs : List Request) (s : Selection) {u : Selection}
    → transition_all digests rs s ≡ ok u
    → length rs + steps_left u.lifecycle.state ≤ steps_left s.lifecycle.state
unfolding transition_all
transition_all-steps_left digests [] s {u} e =
    let same : s ≡ u = ok-injective e in rw same (omega arith)
transition_all-steps_left digests (r ∷ rs) s {u} e =
    let (next, step, later) =
      >>=-eq-ok (transition digests s r.target r.actor r.reason r.reason_code) _ e in
    let recorded = transition-IsRecorded digests s r.target r.actor r.reason r.reason_code step in
    let fewer = steps_left-decreases s.lifecycle.state r.target recorded.allowed in
    let rest = transition_all-steps_left digests rs next later in
    let at : steps_left next.lifecycle.state ≡ steps_left r.target = ap steps_left recorded.state in
    omega arith

-- Every run of transitions that succeeds has at most three steps, from whatever state it starts.
pub transition_all-bounded :
    (digests : Digests) (rs : List Request) (s : Selection) {u : Selection}
    → transition_all digests rs s ≡ ok u
    → length rs ≤ 3
transition_all-bounded digests rs s e =
    let steps = transition_all-steps_left digests rs s e in
    let bound = steps_left-bound s.lifecycle.state in omega arith
