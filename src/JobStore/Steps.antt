-- ===== src/JobStore/Steps.antt =====
-- What one statement does to the row of a job.
use lawyer_agent.Prelude.{ℕ, ◌+◌, ◌≤◌, ◌≡◌, refl, ◌⊎◌, inl, true, String, arith, ok}
use lawyer_agent.Common.{Uuid}
use lawyer_agent.AiJobs.Status.{require_transition}
use lawyer_agent.AiJobs.Requests.{ClaimJobRequest, FencedHeartbeat, FencedFinalizeSuccess}
use lawyer_agent.JobStore.Rows.{JobRow, IsConsistent}
use lawyer_agent.JobStore.Claiming.{is_claimable, claimed_row}
use lawyer_agent.JobStore.Jobs.{
  may_heartbeat, extended_row, may_finalize, succeeded_row, is_unstarted, failed_row, cancelled_row,
}

-- A write to one row: the status moves along an allowed transition or stays, the version goes up by
-- one, what was submitted stays, and the table's CHECK constraints are kept.
pub record IsWrite (r r' : JobRow) : Type 0 where
  pub legal : (r'.status ≡ r.status) ⊎ (require_transition r.status r'.status ≡ ok tt)
  pub counted : r'.version ≡ r.version + 1
  pub same_submission : r'.submission ≡ r.submission
  pub keeps_constraints : IsConsistent r → IsConsistent r'

pub claim-IsWrite :
    (q : ClaimJobRequest) (s e : ℕ) (r : JobRow)
    → is_claimable q s r ≡ true
    → q.attempt_no ≤ r.max_attempts
    → IsWrite r (claimed_row q s e r)
unfolding is_claimable claimed_row require_transition
claim-IsWrite q s e r h cap = record {
  legal = ground arith;
  counted = refl;
  same_submission = refl;
  keeps_constraints = λ c. ground arith;
}

pub heartbeat-IsWrite :
    (q : FencedHeartbeat) (e n : ℕ) (r : JobRow)
    → may_heartbeat q r ≡ true
    → IsWrite r (extended_row e n r)
unfolding may_heartbeat extended_row
heartbeat-IsWrite q e n r h = record {
  legal = inl refl;
  counted = refl;
  same_submission = refl;
  keeps_constraints = λ c. ground arith;
}

pub finalize-IsWrite :
    (q : FencedFinalizeSuccess) (n : ℕ) (r : JobRow)
    → may_finalize q r ≡ true
    → IsWrite r (succeeded_row q n r)
unfolding may_finalize succeeded_row require_transition
finalize-IsWrite q n r h = record {
  legal = ground arith;
  counted = refl;
  same_submission = refl;
  keeps_constraints = λ c. ground arith;
}

pub fail-IsWrite :
    (tenant job : Uuid) (c code : String) (n : ℕ) (r : JobRow)
    → is_unstarted tenant job r ≡ true
    → IsWrite r (failed_row c code n r)
unfolding is_unstarted failed_row require_transition
fail-IsWrite tenant job c code n r h = record {
  legal = ground arith;
  counted = refl;
  same_submission = refl;
  keeps_constraints = λ k. ground arith;
}

pub cancel-IsWrite :
    (tenant job : Uuid) (n : ℕ) (r : JobRow)
    → is_unstarted tenant job r ≡ true
    → IsWrite r (cancelled_row n r)
unfolding is_unstarted cancelled_row require_transition
cancel-IsWrite tenant job n r h = record {
  legal = ground arith;
  counted = refl;
  same_submission = refl;
  keeps_constraints = λ k. ground arith;
}
