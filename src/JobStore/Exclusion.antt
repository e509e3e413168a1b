-- ===== src/JobStore/Exclusion.antt =====
-- The leases on one job exclude one another.
use mathlib.Core.Path.{subst}
use lawyer_agent.Prelude.{
  ℕ, ◌≡◌, refl, sym, ap, ◌≢◌, inl, inr, true, false, some, ◌∙◌, ◌==◌, arith, ok, String, Result,
  ◌>>=◌, bind-eq-ok, String, Result, bind-eq-ok, ◌>>=◌, Bool-cases,
}
use lawyer_agent.Common.{is_utc}
use lawyer_agent.AiJobs.Status.{status_in, lease_holding_statuses}
use lawyer_agent.AiJobs.Requests.{ClaimJobRequest, ClaimedExecution}
use lawyer_agent.JobStore.Tables.{
  find, update_where, find-update_where, Unique, count-update_where, update_where-idle,
  update_where-Unique, update_where-Unique,
}
use lawyer_agent.JobStore.Rows.{JobRow, naive}
use lawyer_agent.JobStore.Claiming.{
  JobTables, job_key, claim_due_job, claim_at, is_claimable, claimed_row, ClaimOutcome,
  read_claimed,
}
use lawyer_agent.JobStore.Commits.{is_claimable-key}
use lawyer_agent.JobStore.Fencing.{matched_one}
use lawyer_agent.JobStore.Commits.{is_claimable-key}

claim_at-busy :
    (q : ClaimJobRequest) (s e : ℕ) (t : JobTables) (r : JobRow)
    → Unique job_key t.jobs
    → find job_key q.job_id t.jobs ≡ some r
    → status_in r.status lease_holding_statuses ≡ true
    → claim_at q s e t ≡ ok (ClaimOutcome.rejected, t)
unfolding claim_at
claim_at-busy q s e t r u found held =
    rw
      (update_where-idle job_key (is_claimable q s) (claimed_row q s e) t.jobs (
        count-update_where job_key (is_claimable q s) (claimed_row q s e) q.job_id t.jobs
          (is_claimable-key q s) u
        ∙ rw (found, missed) refl))
      refl
  where
    missed : is_claimable q s r ≡ false
    missed = unfold is_claimable in ground arith

rejected_not_claimed :
    {c : ClaimedExecution} {t t' : JobTables}
    → ◌≢◌ {A = Result String (ClaimOutcome × JobTables)}
        (ok (ClaimOutcome.rejected, t))
        (ok (ClaimOutcome.claimed c, t'))
rejected_not_claimed e = cc

-- A claim that succeeded has left its row running, under the lease that it asked for.
claim_at-claimed :
    (q : ClaimJobRequest) (s e : ℕ) (t t' : JobTables) (c : ClaimedExecution)
    → Unique job_key t.jobs
    → claim_at q s e t ≡ ok (ClaimOutcome.claimed c, t')
    → (r : JobRow) × (find job_key q.job_id t.jobs ≡ some r)
      × (is_claimable q s r ≡ true)
      × (t'.jobs ≡ (update_where (is_claimable q s) (claimed_row q s e) t.jobs).0)
unfolding claim_at
claim_at-claimed q s e t t' c u h =
    elim (Bool-cases ((update_where (is_claimable q s) (claimed_row q s e) t.jobs).1 == 1)) [
      | inl one ↦
          let (r, found, test) = matched_one (is_claimable q s) (find job_key q.job_id t.jobs) (
            rw
              (← count-update_where job_key (is_claimable q s) (claimed_row q s e) q.job_id t.jobs
                (is_claimable-key q s) u)
              one) in
          let (_, _, done) =
            bind-eq-ok
              (read_claimed q (
                find job_key q.job_id
                  (update_where (is_claimable q s) (claimed_row q s e) t.jobs).0))
              _ (rw one at h) in
          (r, found, test, cc)
      | inr other ↦ absurd (rejected_not_claimed (rw other at h))
    ]

module _ (q : ClaimJobRequest) (s e : ℕ) (t t' : JobTables) where
  claimed_unique :
      Unique job_key t.jobs
      → t'.jobs ≡ (update_where (is_claimable q s) (claimed_row q s e) t.jobs).0
      → Unique job_key t'.jobs
  claimed_unique u jobs = subst (Unique job_key) (sym jobs) (
      update_where-Unique job_key (is_claimable q s) (claimed_row q s e) t.jobs
        (unfold claimed_row in λ r. refl) u)

  claimed_found :
      (r : JobRow)
      → find job_key q.job_id t.jobs ≡ some r
      → is_claimable q s r ≡ true
      → t'.jobs ≡ (update_where (is_claimable q s) (claimed_row q s e) t.jobs).0
      → find job_key q.job_id t'.jobs ≡ some (claimed_row q s e r)
  claimed_found r found test jobs =
      ap (find job_key q.job_id) jobs
      ∙ find-update_where job_key (is_claimable q s) (claimed_row q s e) q.job_id t.jobs
          (unfold claimed_row in λ x. refl)
      ∙ rw (found, test) refl

claim_due_job-inverts :
    (q : ClaimJobRequest) (t : JobTables) (out : ClaimOutcome × JobTables)
    → claim_due_job q t ≡ ok out
    → (s : ℕ) × (e : ℕ) × (claim_at q s e t ≡ ok out)
unfolding claim_due_job
claim_due_job-inverts q t out h =
    let (s, _, h') =
      bind-eq-ok (naive q.started_at) (λ s. naive q.lease_expires_at >>= λ e. claim_at q s e t) h in
    let (e, _, done) = bind-eq-ok (naive q.lease_expires_at) (λ e. claim_at q s e t) h' in
    (s, e, done)

claim_due_job-at :
    (q : ClaimJobRequest) (t : JobTables)
    → is_utc q.started_at ≡ true
    → is_utc q.lease_expires_at ≡ true
    → claim_due_job q t ≡ claim_at q q.started_at.instant q.lease_expires_at.instant t
unfolding claim_due_job
claim_due_job-at q t us ue = rw (us, ue) refl

-- With a unique primary key, a claim that succeeded shuts out the next claim of the job, by whatever
-- worker and under whatever lease: if its times are at UTC, it is rejected and changes nothing.
pub claim_due_job_excludes :
    (q q' : ClaimJobRequest) (t t' : JobTables) (c : ClaimedExecution)
    → Unique job_key t.jobs
    → claim_due_job q t ≡ ok (ClaimOutcome.claimed c, t')
    → q'.job_id ≡ q.job_id
    → is_utc q'.started_at ≡ true
    → is_utc q'.lease_expires_at ≡ true
    → claim_due_job q' t' ≡ ok (ClaimOutcome.rejected, t')
claim_due_job_excludes q q' t t' c u h same us ue =
    let (s, e, done) = claim_due_job-inverts q t (ClaimOutcome.claimed c, t') h in
    let (r, found, test, jobs) = claim_at-claimed q s e t t' c u done in
    claim_due_job-at q' t' us ue
    ∙ claim_at-busy q' q'.started_at.instant q'.lease_expires_at.instant t' (claimed_row q s e r)
        (claimed_unique q s e t t' u jobs) (rw same (claimed_found q s e t t' r found test jobs))
        (unfold claimed_row in refl)
