-- ===== src/JobStore/Claiming.antt =====
-- `claim_due_job` of `SqlAlchemyAIJobRepository`
-- (infrastructure/persistence/repositories/ai_jobs.py).
use lawyer_agent.Prelude.{
  ℕ, ◌+◌, Bool, false, ◌&&◌, Option, none, some, List, [], ◌∷◌, ◌++◌, String, is_none, none_or, leb,
  ltb, ◌==◌, if◌then◌else◌, Result, ok, err, ◌>>=◌, ◌>>◌,
}
use lawyer_agent.Common.{Uuid}
use lawyer_agent.AiJobs.Status.{AiJobStatus, status_in}
use lawyer_agent.AiJobs.Records.{AiJob, check_job}
use lawyer_agent.AiJobs.Requests.{ClaimJobRequest, ClaimedExecution, check_claimed_execution}
use lawyer_agent.JobStore.Tables.{find, update_where}
use lawyer_agent.JobStore.Rows.{JobRow, AttemptRow, AttemptStatus, naive, job_of_row}

pub record JobTables : Type 0 where
  pub jobs : List JobRow
  pub attempts : List AttemptRow

abbrev pub job_key : JobRow → Uuid
job_key r = r.id

-- `AIJobModel.tenant_id == tenant_id, AIJobModel.id == job_id`
abbrev pub is_job : Uuid → Uuid → JobRow → Bool
is_job tenant_id job_id r = r.tenant_id == tenant_id && r.id == job_id

abbrev pub claimable_statuses : List AiJobStatus
claimable_statuses = AiJobStatus.queued ∷ AiJobStatus.retry_scheduled ∷ []

-- `column == value`, which a NULL does not meet.
abbrev pub column_is : Option ℕ → ℕ → Bool
column_is none v = false
column_is (some c) v = c == v

-- The WHERE of `claim_due_job`.
unfoldable pub is_claimable : ClaimJobRequest → ℕ → JobRow → Bool
is_claimable request started_at r =
    is_job request.tenant_id request.job_id r
    && status_in r.status claimable_statuses
    && is_none r.lease_owner
    && ltb started_at r.expires_at
    && none_or (λ next. leb next started_at) r.next_attempt_at

unfoldable pub claimed_row : ClaimJobRequest → ℕ → ℕ → JobRow → JobRow
claimed_row request started_at lease_expires_at r = record r {
  status = AiJobStatus.running;
  current_attempt_no = request.attempt_no;
  lease_owner = some request.worker_instance_ref;
  lease_token = some request.lease_token;
  lease_fence = some request.lease_fence;
  lease_expires_at = some lease_expires_at;
  started_at = some started_at;
  version = r.version + 1;
  updated_at = started_at;
}

abbrev pub new_attempt : ClaimJobRequest → ℕ → AttemptRow
new_attempt request started_at = record {
  id = request.attempt_id;
  tenant_id = request.tenant_id;
  job_id = request.job_id;
  attempt_no = request.attempt_no;
  status = AttemptStatus.claimed;
  trigger_message_id = request.trigger_message_id;
  worker_instance_ref = request.worker_instance_ref;
  lease_token = request.lease_token;
  lease_fence = request.lease_fence;
  handler_code = request.handler_code;
  handler_version = request.handler_version;
  started_at = started_at;
  finished_at = none;
  version = 1;
}

pub data ClaimOutcome : Type 0 where
  claimed : ClaimedExecution → ClaimOutcome
  rejected : ClaimOutcome

abbrev pub execution : ClaimJobRequest → AiJob → ClaimedExecution
execution request job = record {
  job = job;
  attempt_id = request.attempt_id;
  attempt_no = request.attempt_no;
  lease_token = request.lease_token;
  lease_fence = request.lease_fence;
  trigger_message_id = request.trigger_message_id;
  worker_instance_ref = request.worker_instance_ref;
  lease_expires_at = request.lease_expires_at;
}

-- The end of `claim_due_job`: the claimed row is read again, as a job that its constructor checks.
unfoldable pub read_claimed : ClaimJobRequest → Option JobRow → Result String ClaimedExecution
read_claimed request none = err "claimed job disappeared"
read_claimed request (some r) = do
  check_job (job_of_row r)
  check_claimed_execution (execution request (job_of_row r))
  ok (execution request (job_of_row r))

-- `claim_due_job` with its times converted.
unfoldable pub claim_at :
    ClaimJobRequest → ℕ → ℕ → JobTables → Result String (ClaimOutcome × JobTables)
unfolding is_claimable claimed_row read_claimed
claim_at request started_at lease_expires_at tables =
    let (jobs, rowcount) =
      update_where (is_claimable request started_at)
        (claimed_row request started_at lease_expires_at) tables.jobs in
    let attempts = tables.attempts ++ new_attempt request started_at ∷ [] in
    if rowcount == 1
    then (do
      found ← read_claimed request (find job_key request.job_id jobs)
      ok (ClaimOutcome.claimed found, record { jobs = jobs; attempts = attempts }))
    else ok (ClaimOutcome.rejected, record tables { jobs = jobs })

unfoldable pub claim_due_job :
    ClaimJobRequest → JobTables → Result String (ClaimOutcome × JobTables)
unfolding naive claim_at
claim_due_job request tables = do
  started_at ← naive request.started_at
  lease_expires_at ← naive request.lease_expires_at
  claim_at request started_at lease_expires_at tables
