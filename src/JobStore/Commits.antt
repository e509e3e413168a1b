-- ===== src/JobStore/Commits.antt =====
-- Every call of the store commits one proper UPDATE of the job table, or leaves it as it was.
use mathlib.Core.Path.{subst}
use lawyer_agent.Prelude.{
  ℕ, ◌≤◌, ◌≡◌, refl, inl, inr, Bool, true, false, Option, none, some, List, ◌∙◌, String, arith,
  Result, ok, err, Bool-cases, ◌==◌, ◌>>=◌, bind-eq-ok,
}
use lawyer_agent.Common.{Uuid, DateTime}
use lawyer_agent.AiJobs.Records.{check_job, check_uuid7}
use lawyer_agent.AiJobs.Validity.{check_job-ok}
use lawyer_agent.AiJobs.Requests.{
  ClaimJobRequest, FencedHeartbeat, FencedFinalizeSuccess, ClaimedExecution,
  check_claimed_execution,
}
use lawyer_agent.JobStore.Tables.{
  hits, Unique, count-update_where, update_where-idle, find, update_where, find-update_where,
}
use lawyer_agent.JobStore.Rows.{JobRow, job_of_row, naive}
use lawyer_agent.JobStore.Claiming.{
  JobTables, job_key, ClaimOutcome, claim_due_job, is_claimable, claimed_row, read_claimed,
  execution, claim_at,
}
use lawyer_agent.JobStore.Jobs.{
  heartbeat, finalize_success, fail_job_without_attempt, cancel_claimable_job, may_heartbeat,
  extended_row, may_finalize, succeeded_row, is_unstarted, failed_row, cancelled_row, update_jobs,
  finalize_at,
}
use lawyer_agent.JobStore.Ops.{Call, claims, heartbeats, finalizes, fails, cancels, committed, step}
use lawyer_agent.JobStore.Steps.{
  IsWrite, claim-IsWrite, heartbeat-IsWrite, finalize-IsWrite, fail-IsWrite, cancel-IsWrite,
}

-- What a call leaves: the jobs as they were, or after one UPDATE whose rows are written properly.
pub data IsCommit (t t' : JobTables) : Type 0 where
  unchanged : t'.jobs ≡ t.jobs → IsCommit t t'
  updated :
      (test : JobRow → Bool) (change : JobRow → JobRow)
      → ((r : JobRow) → job_key (change r) ≡ job_key r)
      → ((r : JobRow)
          → find job_key (job_key r) t.jobs ≡ some r
          → test r ≡ true
          → IsWrite r (change r))
      → t'.jobs ≡ (update_where test change t.jobs).0
      → IsCommit t t'

-- What holds of the tables before, and after the step that follows `m`, holds after the transaction.
committed-bind :
    {A B : Type 0} (P : JobTables → Type 0) (f : A → Result String (B × JobTables)) (t : JobTables)
    → P t
    → ((a : A) → P (committed (f a) t))
    → (m : Result String A) → P (committed (m >>= f) t)
committed-bind P f t h k (ok a) = k a
committed-bind P f t h k (err e) = h

-- The row that a successful claim reads back has passed the checks of its constructor.
attempts_checked :
    (r : JobRow) → check_job (job_of_row r) ≡ ok tt → r.current_attempt_no ≤ r.max_attempts
attempts_checked r e = unfold job_of_row in ((check_job-ok (job_of_row r)).0 e).attempts

abbrev read_rest : ClaimJobRequest → JobRow → Result String ClaimedExecution
read_rest q r =
    check_claimed_execution (execution q (job_of_row r)) >>= λ _. ok (execution q (job_of_row r))

-- The claimed row, if the claim reads it back.
read_claimed-checked :
    (q : ClaimJobRequest) (r : JobRow) {c : ClaimedExecution}
    → read_claimed q (some r) ≡ ok c
    → check_job (job_of_row r) ≡ ok tt
unfolding read_claimed
read_claimed-checked q r e = (bind-eq-ok (check_job (job_of_row r)) (λ _. read_rest q r) e).1

-- A claim that reads its row back has an attempt number within the job's limit.
claim_capped :
    (q : ClaimJobRequest) (s e : ℕ) (rs : List JobRow) (r : JobRow) {c : ClaimedExecution}
    → find job_key q.job_id rs ≡ some r
    → is_claimable q s r ≡ true
    → read_claimed q
        (find job_key q.job_id (update_where (is_claimable q s) (claimed_row q s e) rs).0)
      ≡ ok c
    → q.attempt_no ≤ r.max_attempts
unfolding claimed_row
claim_capped q s e rs r {c} found claimable done =
    attempts_checked (claimed_row q s e r)
      (read_claimed-checked q (claimed_row q s e r) (subst (λ o. read_claimed q o ≡ ok c) row done))
  where
    row :
        find job_key q.job_id (update_where (is_claimable q s) (claimed_row q s e) rs).0
        ≡ some (claimed_row q s e r)
    row =
        find-update_where job_key (is_claimable q s) (claimed_row q s e) q.job_id rs (λ x. refl)
        ∙ rw (found, claimable) refl

pub is_claimable-key :
    (q : ClaimJobRequest) (s : ℕ) (r : JobRow) → is_claimable q s r ≡ true → job_key r ≡ q.job_id
unfolding is_claimable
is_claimable-key q s r h = ground arith

-- With a unique key, a count other than one is zero.
none_matched :
    {Row : Type 0} (test : Row → Bool) (o : Option Row)
    → (hits test o == 1) ≡ false
    → hits test o ≡ 0
none_matched test none h = refl
none_matched test (some r) h = ground arith

module _ (t : JobTables) where
  start : IsCommit t t
  start = unchanged refl

  -- A transaction that converts one timestamp and runs one statement.
  one_statement :
      (test : JobRow → Bool) (change : ℕ → JobRow → JobRow)
      → ((n : ℕ) (r : JobRow) → job_key (change n r) ≡ job_key r)
      → ((n : ℕ) (r : JobRow) → test r ≡ true → IsWrite r (change n r))
      → (m : Result String ℕ)
      → IsCommit t (committed (m >>= λ n. ok (update_jobs test (change n) t)) t)
  one_statement test change keeps writes =
      committed-bind (IsCommit t) (λ n. ok (update_jobs test (change n) t)) t start
        (λ n. unfold update_jobs in updated test (change n) (keeps n) (λ r _. writes n r) refl)

  heartbeat-IsCommit : (q : FencedHeartbeat) → IsCommit t (committed (heartbeat q t) t)
  unfolding heartbeat
  heartbeat-IsCommit q =
      committed-bind (IsCommit t)
        (λ e. naive q.heartbeat_at >>= λ n. ok (update_jobs (may_heartbeat q) (extended_row e n) t))
        t start
        (λ e.
          one_statement (may_heartbeat q) (extended_row e) (λ n r. refl) (heartbeat-IsWrite q e)
            (naive q.heartbeat_at))
        (naive q.lease_expires_at)

  -- A transaction that checks two identifiers first.
  after_checks :
      {A : Type 0} (a b : Result String (Unit {0})) (rest : Result String (A × JobTables))
      → IsCommit t (committed rest t)
      → IsCommit t (committed (a >>= λ _. b >>= λ _. rest) t)
  after_checks a b rest h =
      committed-bind (IsCommit t) (λ _. b >>= λ _. rest) t start
        (λ _. committed-bind (IsCommit t) (λ _. rest) t start (λ _. h) b) a

  fail-IsCommit :
      (tenant job : Uuid) (c code : String) (now : DateTime)
      → IsCommit t (committed (fail_job_without_attempt tenant job c code now t) t)
  unfolding fail_job_without_attempt
  fail-IsCommit tenant job c code now =
      after_checks (check_uuid7 "fail job tenant_id" tenant) (check_uuid7 "fail job job_id" job)
        (naive now >>= λ n. ok (update_jobs (is_unstarted tenant job) (failed_row c code n) t))
        (one_statement (is_unstarted tenant job) (failed_row c code) (λ n r. refl)
          (fail-IsWrite tenant job c code) (naive now))

  cancel-IsCommit :
      (tenant job : Uuid) (now : DateTime)
      → IsCommit t (committed (cancel_claimable_job tenant job now t) t)
  unfolding cancel_claimable_job
  cancel-IsCommit tenant job now =
      after_checks (check_uuid7 "cancel job tenant_id" tenant) (check_uuid7 "cancel job job_id" job)
        (naive now >>= λ n. ok (update_jobs (is_unstarted tenant job) (cancelled_row n) t))
        (one_statement (is_unstarted tenant job) cancelled_row (λ n r. refl)
          (cancel-IsWrite tenant job) (naive now))

  pub finalize_at-jobs :
      (q : FencedFinalizeSuccess) (n : ℕ)
      → (finalize_at q n t).1.jobs ≡ (update_where (may_finalize q) (succeeded_row q n) t.jobs).0
  unfolding finalize_at
  finalize_at-jobs q n = ground arith

  finalize-IsCommit : (q : FencedFinalizeSuccess) → IsCommit t (committed (finalize_success q t) t)
  unfolding finalize_success
  finalize-IsCommit q =
      committed-bind (IsCommit t) (λ n. ok (finalize_at q n t)) t start
        (λ n.
          updated (may_finalize q) (succeeded_row q n) (λ r. refl) (λ r _. finalize-IsWrite q n r)
            (finalize_at-jobs q n))
        (naive q.now)

  after_read :
      (m : Result String ClaimedExecution) (after : JobTables)
      → ((c : ClaimedExecution) → m ≡ ok c → IsCommit t after)
      → IsCommit t (committed (m >>= λ c. ok (ClaimOutcome.claimed c, after)) t)
  after_read (ok c) after h = h c refl
  after_read (err e) after h = start

  claim_at-IsCommit :
      (q : ClaimJobRequest) (s e : ℕ)
      → Unique job_key t.jobs
      → IsCommit t (committed (claim_at q s e t) t)
  unfolding claim_at
  claim_at-IsCommit q s e u = elim (Bool-cases ((update_where test change t.jobs).1 == 1)) [
    | inl one ↦ rw one (
        after_read (read_claimed q (find job_key q.job_id (update_where test change t.jobs).0)) _
          (λ c done. updated test change (λ r. refl) (writes c done) refl))
    | inr other ↦
        rw
          (update_where-idle job_key test change t.jobs
            (counted ∙ none_matched test (find job_key q.job_id t.jobs) (rw counted at other)))
          start
  ]
    where
      test : JobRow → Bool
      test = is_claimable q s

      change : JobRow → JobRow
      change = claimed_row q s e

      writes :
          (c : ClaimedExecution)
          → read_claimed q (find job_key q.job_id (update_where test change t.jobs).0) ≡ ok c
          → (r : JobRow) → find job_key (job_key r) t.jobs ≡ some r
          → test r ≡ true
          → IsWrite r (change r)
      writes c done r found h = claim-IsWrite q s e r h (
          claim_capped q s e t.jobs r
            (subst (λ k. find job_key k t.jobs ≡ some r) (is_claimable-key q s r h) found) h done)

      counted : (update_where test change t.jobs).1 ≡ hits test (find job_key q.job_id t.jobs)
      counted = count-update_where job_key test change q.job_id t.jobs (is_claimable-key q s) u

  claim-IsCommit :
      (q : ClaimJobRequest) → Unique job_key t.jobs → IsCommit t (committed (claim_due_job q t) t)
  unfolding claim_due_job
  claim-IsCommit q u =
      committed-bind (IsCommit t) (λ s. naive q.lease_expires_at >>= λ e. claim_at q s e t) t start
        (λ s.
          committed-bind (IsCommit t) (λ e. claim_at q s e t) t start
            (λ e. claim_at-IsCommit q s e u) (naive q.lease_expires_at))
        (naive q.started_at)

-- Any call, from tables with unique keys.
pub step-IsCommit : (c : Call) (t : JobTables) → Unique job_key t.jobs → IsCommit t (step c t)
unfolding step
step-IsCommit (claims q) t u = claim-IsCommit t q u
step-IsCommit (heartbeats q) t u = heartbeat-IsCommit t q
step-IsCommit (finalizes q) t u = finalize-IsCommit t q
step-IsCommit (fails tenant job c code now) t u = fail-IsCommit t tenant job c code now
step-IsCommit (cancels tenant job now) t u = cancel-IsCommit t tenant job now
