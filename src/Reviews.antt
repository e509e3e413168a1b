-- ===== src/Reviews.antt =====
-- The review of a document version: backend/src/lawyer_agent/domain/document_review.py, with
-- `ReviewStatus` of backend/src/lawyer_agent/domain/matter_documents.py.
pub mod Approval
use lawyer_agent.Prelude.{
  Bool, true, false, not, Option, none, some, List, [], ◌∷◌, String, is_blank, Result, ok, err,
  guard, ◌>>=◌,
}

pub data ReviewStatus : Type 0 where
  draft pending_review changes_requested approved rejected : ReviewStatus

pub data ReviewDecision : Type 0 where
  submit approve reject request_changes : ReviewDecision

-- What is raised: a transition that is not allowed, whose message names the status and the decision,
-- or a decision that lacks its reason.
pub data ReviewError : Type 0 where
  invalid_review_transition : ReviewDecision → Option ReviewStatus → ReviewError
  invalid_review_decision : ReviewDecision → ReviewError

-- `review_target_status`
unfoldable pub review_target_status :
    Option ReviewStatus → ReviewDecision → Result ReviewError ReviewStatus
review_target_status none ReviewDecision.submit = ok ReviewStatus.pending_review
review_target_status (some ReviewStatus.draft) ReviewDecision.submit =
    ok ReviewStatus.pending_review
review_target_status (some ReviewStatus.changes_requested) ReviewDecision.submit =
    ok ReviewStatus.pending_review
review_target_status (some ReviewStatus.pending_review) ReviewDecision.approve =
    ok ReviewStatus.approved
review_target_status (some ReviewStatus.pending_review) ReviewDecision.reject =
    ok ReviewStatus.rejected
review_target_status (some ReviewStatus.pending_review) ReviewDecision.request_changes =
    ok ReviewStatus.changes_requested
review_target_status current decision = err (invalid_review_transition decision current)

abbrev pub needs_reason : ReviewDecision → Bool
needs_reason ReviewDecision.reject = true
needs_reason ReviewDecision.request_changes = true
needs_reason _ = false

abbrev pub is_given : Option String → Bool
is_given none = false
is_given (some reason) = not (is_blank reason)

-- `require_review_reason`
unfoldable pub require_review_reason :
    ReviewDecision → Option String → Result ReviewError (Unit {0})
require_review_reason decision reason =
    elim (needs_reason decision) as (λ x. Result ReviewError (Unit {0})) [
      | true ↦ guard (is_given reason) (invalid_review_decision decision)
      | false ↦ ok tt
    ]

-- The status after a history of decisions, the latest first.
unfoldable pub review_after : List ReviewDecision → Result ReviewError (Option ReviewStatus)
unfolding review_target_status
review_after [] = ok none
review_after (decision ∷ earlier) = review_after earlier >>= λ current.
    review_target_status current decision >>= λ target. ok (some target)
