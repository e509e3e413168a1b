-- ===== src/JobStore/Jobs.antt =====
-- The statements of `SqlAlchemyAIJobRepository` on a job after its claim: heartbeat, finalize, fail
-- and cancel. What raises rolls its transaction back, so an error carries no tables.
use lawyer_agent.Prelude.{
  ℕ, ◌+◌, Bool, true, false, ◌&&◌, none, some, String, is_none, ◌==◌, if◌then◌else◌, Result, ok,
  ◌>>=◌, ◌>>◌,
}
use lawyer_agent.Common.{Uuid, DateTime}
use lawyer_agent.AiJobs.Status.{AiJobStatus, lease_holding_statuses, status_in, same_status}
use lawyer_agent.AiJobs.Records.{check_uuid7}
use lawyer_agent.AiJobs.Requests.{FencedHeartbeat, FencedFinalizeSuccess}
use lawyer_agent.JobStore.Tables.{update_where}
use lawyer_agent.JobStore.Rows.{JobRow, AttemptRow, AttemptStatus, naive}
use lawyer_agent.JobStore.Claiming.{JobTables, is_job, claimable_statuses, column_is}

-- The WHERE of the fenced statements, without the status.
unfoldable pub is_fenced : Uuid → Uuid → Uuid → ℕ → ℕ → JobRow → Bool
is_fenced tenant_id job_id lease_token lease_fence expected_version r =
    is_job tenant_id job_id r
    && column_is r.lease_token lease_token
    && column_is r.lease_fence lease_fence
    && r.version == expected_version

unfoldable pub may_heartbeat : FencedHeartbeat → JobRow → Bool
unfolding is_fenced
may_heartbeat request r =
    is_fenced request.tenant_id request.job_id request.lease_token request.lease_fence
      request.expected_version r
    && status_in r.status lease_holding_statuses

unfoldable pub extended_row : ℕ → ℕ → JobRow → JobRow
extended_row lease_expires_at heartbeat_at r = record r {
  lease_expires_at = some lease_expires_at;
  version = r.version + 1;
  updated_at = heartbeat_at;
}

-- A statement on `ai_jobs` alone, which reports whether it changed one row.
unfoldable pub update_jobs : (JobRow → Bool) → (JobRow → JobRow) → JobTables → Bool × JobTables
update_jobs test change tables =
    let (jobs, rowcount) = update_where test change tables.jobs in
    (rowcount == 1, record tables { jobs = jobs })

unfoldable pub heartbeat : FencedHeartbeat → JobTables → Result String (Bool × JobTables)
unfolding naive may_heartbeat extended_row update_jobs
heartbeat request tables = do
  lease_expires_at ← naive request.lease_expires_at
  heartbeat_at ← naive request.heartbeat_at
  ok (update_jobs (may_heartbeat request) (extended_row lease_expires_at heartbeat_at) tables)

unfoldable pub may_finalize : FencedFinalizeSuccess → JobRow → Bool
unfolding is_fenced
may_finalize request r =
    is_fenced request.tenant_id request.job_id request.lease_token request.lease_fence
      request.expected_version r
    && same_status r.status AiJobStatus.running

unfoldable pub succeeded_row : FencedFinalizeSuccess → ℕ → JobRow → JobRow
succeeded_row request now r = record r {
  status = AiJobStatus.succeeded;
  result_json = some request.result;
  completed_at = some now;
  lease_owner = none;
  lease_token = none;
  lease_fence = none;
  lease_expires_at = none;
  next_attempt_at = none;
  version = r.version + 1;
  updated_at = now;
}

abbrev is_claimed : AttemptStatus → Bool
is_claimed AttemptStatus.claimed = true
is_claimed AttemptStatus.succeeded = false

unfoldable pub is_open_attempt : FencedFinalizeSuccess → AttemptRow → Bool
is_open_attempt request a =
    a.tenant_id == request.tenant_id
    && a.job_id == request.job_id
    && a.lease_fence == request.lease_fence
    && is_claimed a.status

abbrev pub closed_attempt : ℕ → AttemptRow → AttemptRow
closed_attempt now a = record a {
  status = AttemptStatus.succeeded;
  finished_at = some now;
  version = a.version + 1;
}

-- `finalize_success` with its time converted: the attempt is closed only with the job.
unfoldable pub finalize_at : FencedFinalizeSuccess → ℕ → JobTables → Bool × JobTables
unfolding may_finalize succeeded_row is_open_attempt
finalize_at request now tables =
    let (jobs, rowcount) =
      update_where (may_finalize request) (succeeded_row request now) tables.jobs in
    let attempts =
      (update_where (is_open_attempt request) (closed_attempt now) tables.attempts).0 in
    if rowcount == 1
    then (true, record { jobs = jobs; attempts = attempts })
    else (false, record tables { jobs = jobs })

unfoldable pub finalize_success :
    FencedFinalizeSuccess → JobTables → Result String (Bool × JobTables)
unfolding naive finalize_at
finalize_success request tables = do now ← naive request.now; ok (finalize_at request now tables)

-- The WHERE of `fail_job_without_attempt` and `cancel_claimable_job`.
unfoldable pub is_unstarted : Uuid → Uuid → JobRow → Bool
is_unstarted tenant_id job_id r =
    is_job tenant_id job_id r
    && status_in r.status claimable_statuses
    && is_none r.lease_owner
    && is_none r.lease_token

unfoldable pub failed_row : String → String → ℕ → JobRow → JobRow
failed_row failure_class failure_code now r = record r {
  status = AiJobStatus.failed;
  failure_class = some failure_class;
  failure_code = some failure_code;
  completed_at = some now;
  next_attempt_at = none;
  version = r.version + 1;
  updated_at = now;
}

unfoldable pub fail_job_without_attempt :
    Uuid → Uuid → String → String → DateTime → JobTables → Result String (Bool × JobTables)
unfolding naive check_uuid7 update_jobs is_unstarted failed_row
fail_job_without_attempt tenant_id job_id failure_class failure_code now tables = do
  check_uuid7 "fail job tenant_id" tenant_id
  check_uuid7 "fail job job_id" job_id
  at ← naive now
  ok (update_jobs (is_unstarted tenant_id job_id) (failed_row failure_class failure_code at) tables)

unfoldable pub cancelled_row : ℕ → JobRow → JobRow
cancelled_row now r = record r {
  status = AiJobStatus.cancelled;
  completed_at = some now;
  next_attempt_at = none;
  version = r.version + 1;
  updated_at = now;
}

unfoldable pub cancel_claimable_job :
    Uuid → Uuid → DateTime → JobTables → Result String (Bool × JobTables)
unfolding naive check_uuid7 update_jobs is_unstarted cancelled_row
cancel_claimable_job tenant_id job_id now tables = do
  check_uuid7 "cancel job tenant_id" tenant_id
  check_uuid7 "cancel job job_id" job_id
  at ← naive now
  ok (update_jobs (is_unstarted tenant_id job_id) (cancelled_row at) tables)
