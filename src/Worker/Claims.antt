-- ===== src/Worker/Claims.antt =====
-- What a claim adds to the attempts.
use mathlib.Core.Path.{subst}
use lawyer_agent.Prelude.{
  ok-pair, ℕ, ◌≡◌, refl, sym, ap, inl, inr, List, [], ◌∷◌, ◌++◌, ◌==◌, ok, bind-eq-ok, Bool-cases,
  arith,
}
use lawyer_agent.Common.{DateTime}
use lawyer_agent.AiJobs.Requests.{ClaimJobRequest}
use lawyer_agent.JobStore.Tables.{find, update_where}
use lawyer_agent.JobStore.Rows.{AttemptRow, naive}
use lawyer_agent.JobStore.Claiming.{
  JobTables, ClaimOutcome, claim_at, claim_due_job, is_claimable, claimed_row, read_claimed,
  new_attempt, job_key,
}

-- What an outcome of the claim adds to the attempts.
abbrev pub started : ClaimJobRequest → ClaimOutcome → List AttemptRow
started q (ClaimOutcome.claimed found) = new_attempt q q.started_at.instant ∷ []
started q ClaimOutcome.rejected = []

pub append_nil : (as' : List AttemptRow) → as' ++ [] ≡ as'
append_nil [] = refl
append_nil (x ∷ xs) = ap (λ l. x ∷ l) (append_nil xs)

naive-instant : (t : DateTime) (n : ℕ) → naive t ≡ ok n → n ≡ t.instant
unfolding naive
naive-instant t n e = ground arith

claim_at-attempts :
    (q : ClaimJobRequest) (e : ℕ) (t t' : JobTables) (c : ClaimOutcome)
    → claim_at q q.started_at.instant e t ≡ ok (c, t')
    → t'.attempts ≡ t.attempts ++ started q c
unfolding claim_at
claim_at-attempts q e t t' c h =
    elim (Bool-cases (
      (update_where (is_claimable q q.started_at.instant) (claimed_row q q.started_at.instant e)
        t.jobs).1
      == 1)) [
        | inl one ↦
            let (found, _, h1) =
              bind-eq-ok
                (read_claimed q (
                  find job_key q.job_id
                    (update_where (is_claimable q q.started_at.instant)
                      (claimed_row q q.started_at.instant e) t.jobs).0))
                _ (rw one at h) in
            let (same, after) = ok-pair _ _ c t' h1 in rw (← after, ← same) refl
        | inr other ↦
            let (same, after) = ok-pair _ _ c t' (rw other at h) in
            rw (← after, ← same) (sym (append_nil t.attempts))
      ]

pub claim_due_job-attempts :
    (q : ClaimJobRequest) (t t' : JobTables) (c : ClaimOutcome)
    → claim_due_job q t ≡ ok (c, t')
    → t'.attempts ≡ t.attempts ++ started q c
unfolding claim_due_job
claim_due_job-attempts q t t' c h =
    let (n, at, h1) = bind-eq-ok (naive q.started_at) _ h in
    let (e, _, h2) = bind-eq-ok (naive q.lease_expires_at) _ h1 in
    claim_at-attempts q e t t' c
      (subst (λ m. claim_at q m e t ≡ ok (c, t')) (naive-instant q.started_at n at) h2)
