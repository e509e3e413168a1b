-- ===== src/Reviews/Approval.antt =====
-- How a version comes to be approved.
use lawyer_agent.Prelude.{
  ◌≡◌, sym, ◌∙◌, ◌≢◌, Option, some, List, [], ◌∷◌, ok, bind-eq-ok, arith, ok-inside,
}
use lawyer_agent.Reviews.{ReviewStatus, ReviewDecision, review_target_status, review_after}

-- Only a submission leads to the pending status, and only the approval of a pending version approves.
to_pending :
    (current : Option ReviewStatus) (d : ReviewDecision)
    → review_target_status current d ≡ ok ReviewStatus.pending_review
    → d ≡ ReviewDecision.submit
unfolding review_target_status
to_pending current d e = ground arith

to_approved :
    (current : Option ReviewStatus) (d : ReviewDecision)
    → review_target_status current d ≡ ok ReviewStatus.approved
    → (d ≡ ReviewDecision.approve) × (current ≡ some ReviewStatus.pending_review)
unfolding review_target_status
to_approved current d e = ground arith

from_approved :
    (d : ReviewDecision) (target : ReviewStatus)
    → review_target_status (some ReviewStatus.approved) d ≢ ok target
unfolding review_target_status
from_approved d target = ground arith

review_after-last :
    (d : ReviewDecision) (ds : List ReviewDecision) (s : ReviewStatus)
    → review_after (d ∷ ds) ≡ ok (some s)
    → (current : Option ReviewStatus) × (review_after ds ≡ ok current)
      × (review_target_status current d ≡ ok s)
unfolding review_after
review_after-last d ds s e =
    let (current, before, e1) = bind-eq-ok (review_after ds) _ e in
    let (target, at, e2) = bind-eq-ok (review_target_status current d) _ e1 in (current, before, cc)

pending-submitted :
    (ds : List ReviewDecision)
    → review_after ds ≡ ok (some ReviewStatus.pending_review)
    → (earlier : List ReviewDecision) × (ds ≡ ReviewDecision.submit ∷ earlier)
unfolding review_after
pending-submitted [] e = ground arith
pending-submitted (d ∷ ds) e =
    let (current, _, at) = review_after-last d ds ReviewStatus.pending_review e in
    let submitted = to_pending current d at in (ds, cc)

-- When a history of review decisions leaves a version approved, its last two decisions are a
-- submission and then the approval, and no further decision is accepted.
pub review_after-approved :
    (ds : List ReviewDecision)
    → review_after ds ≡ ok (some ReviewStatus.approved)
    → ((earlier : List ReviewDecision) × (ds
          ≡ ReviewDecision.approve ∷ ReviewDecision.submit ∷ earlier))
      × ((d : ReviewDecision) (s : Option ReviewStatus) → review_after (d ∷ ds) ≢ ok s)
unfolding review_after
review_after-approved [] e = ground arith
review_after-approved (d ∷ ds) e =
    let (current, before, at) = review_after-last d ds ReviewStatus.approved e in
    let (is_approve, was_pending) = to_approved current d at in
    let (earlier, submitted) = pending-submitted ds (rw was_pending at before) in
    (
      (earlier, cc),
      λ d' s f.
          let (current', before', f1) = bind-eq-ok (review_after (d ∷ ds)) _ f in
          let (target, at', _) = bind-eq-ok (review_target_status current' d') _ f1 in
          let now_approved = ok-inside current' (some ReviewStatus.approved) (sym before' ∙ e) in
          from_approved d' target (rw now_approved at at'),
    )
