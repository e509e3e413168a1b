-- ===== src/JobStore/Rows.antt =====
-- Rows of `ai_jobs` and `ai_job_attempts` (infrastructure/persistence/models/ai_jobs.py), and the
-- conversions to and from the domain's job. The database keeps naive timestamps: microseconds at UTC.
use lawyer_agent.Prelude.{
  ℕ, ◌+◌, ◌≤◌, ◌<◌, ◌≡◌, ◌≢◌, true, false, Option, none, some, String, Result, ok, guard, ◌>>=◌,
  ◌>>◌,
}
use lawyer_agent.Common.{Uuid, DateTime, is_utc, at_utc}
use lawyer_agent.AiJobs.Status.{
  AiJobStatus, terminal_job_statuses, lease_holding_statuses, status_in,
}
use lawyer_agent.AiJobs.Timing.{max_job_lifetime}
use lawyer_agent.AiJobs.Records.{Submission, AiJob}

-- `AIJobModel`
pub record JobRow : Type 0 where
  pub submission : Submission
  pub open submission use *
  pub status : AiJobStatus
  pub current_attempt_no : ℕ
  pub submitted_at : ℕ
  pub expires_at : ℕ
  pub version : ℕ
  pub next_attempt_at : Option ℕ
  pub lease_owner : Option String
  pub lease_token : Option Uuid
  pub lease_fence : Option ℕ
  pub lease_expires_at : Option ℕ
  pub cancel_requested_at : Option ℕ
  pub cancel_requested_by_user_id : Option Uuid
  pub cancel_reason_code : Option String
  pub result_json : Option String
  pub failure_class : Option String
  pub failure_code : Option String
  pub started_at : Option ℕ
  pub completed_at : Option ℕ
  pub updated_at : ℕ

pub data AttemptStatus : Type 0 where
  claimed succeeded : AttemptStatus

-- `AIJobAttemptModel`
pub record AttemptRow : Type 0 where
  pub id : Uuid
  pub tenant_id : Uuid
  pub job_id : Uuid
  pub attempt_no : ℕ
  pub status : AttemptStatus
  pub trigger_message_id : Uuid
  pub worker_instance_ref : String
  pub lease_token : Uuid
  pub lease_fence : ℕ
  pub handler_code : String
  pub handler_version : String
  pub started_at : ℕ
  pub finished_at : Option ℕ
  pub version : ℕ

-- `_naive`
unfoldable pub naive : DateTime → Result String ℕ
naive t = do guard (is_utc t) "database timestamp must be UTC-aware"; ok t.instant

-- `_aware` of a naive value; `_aware_optional`
abbrev pub aware : ℕ → DateTime
aware = at_utc

abbrev pub aware_optional : Option ℕ → Option DateTime
aware_optional none = none
aware_optional (some n) = some (aware n)

-- `_naive_optional`
unfoldable pub naive_optional : Option DateTime → Result String (Option ℕ)
unfolding naive
naive_optional none = ok none
naive_optional (some t) = naive t >>= λ n. ok (some n)

-- `_job`, before the checks of the constructor.
unfoldable pub job_of_row : JobRow → AiJob
job_of_row r = record {
  submission = r.submission;
  status = r.status;
  current_attempt_no = r.current_attempt_no;
  submitted_at = aware r.submitted_at;
  expires_at = aware r.expires_at;
  version = r.version;
  next_attempt_at = aware_optional r.next_attempt_at;
  lease_owner = r.lease_owner;
  lease_token = r.lease_token;
  lease_fence = r.lease_fence;
  lease_expires_at = aware_optional r.lease_expires_at;
  cancel_requested_at = aware_optional r.cancel_requested_at;
  cancel_requested_by_user_id = r.cancel_requested_by_user_id;
  cancel_reason_code = r.cancel_reason_code;
  result_json = r.result_json;
  failure_class = r.failure_class;
  failure_code = r.failure_code;
  started_at = aware_optional r.started_at;
  completed_at = aware_optional r.completed_at;
}

-- `_job_model`; the database sets `updated_at` to the time of the insert.
unfoldable pub row_of_job : ℕ → AiJob → Result String JobRow
unfolding naive naive_optional
row_of_job inserted_at j = do
  submitted_at ← naive j.submitted_at
  expires_at ← naive j.expires_at
  next_attempt_at ← naive_optional j.next_attempt_at
  lease_expires_at ← naive_optional j.lease_expires_at
  cancel_requested_at ← naive_optional j.cancel_requested_at
  started_at ← naive_optional j.started_at
  completed_at ← naive_optional j.completed_at
  ok (record {
    submission = j.submission;
    status = j.status;
    current_attempt_no = j.current_attempt_no;
    submitted_at = submitted_at;
    expires_at = expires_at;
    version = j.version;
    next_attempt_at = next_attempt_at;
    lease_owner = j.lease_owner;
    lease_token = j.lease_token;
    lease_fence = j.lease_fence;
    lease_expires_at = lease_expires_at;
    cancel_requested_at = cancel_requested_at;
    cancel_requested_by_user_id = j.cancel_requested_by_user_id;
    cancel_reason_code = j.cancel_reason_code;
    result_json = j.result_json;
    failure_class = j.failure_class;
    failure_code = j.failure_code;
    started_at = started_at;
    completed_at = completed_at;
    updated_at = inserted_at;
  })

-- The CHECK constraints of the table `ai_jobs`.
pub record IsConsistent (r : JobRow) : Type 0 where
  pub max_attempts_low : 1 ≤ r.max_attempts
  pub max_attempts_high : r.max_attempts ≤ 10
  pub attempts_capped : r.current_attempt_no ≤ r.max_attempts
  pub lease_held :
      status_in r.status lease_holding_statuses ≡ true
      → (r.lease_owner ≢ none)
        × (r.lease_token ≢ none)
        × (r.lease_fence ≢ none)
        × (r.lease_expires_at ≢ none)
  pub lease_free :
      status_in r.status lease_holding_statuses ≡ false
      → (r.lease_owner ≡ none)
        × (r.lease_token ≡ none)
        × (r.lease_fence ≡ none)
        × (r.lease_expires_at ≡ none)
  pub terminal_closed :
      status_in r.status terminal_job_statuses ≡ true
      → (r.completed_at ≢ none) × (r.next_attempt_at ≡ none)
  pub live_open : status_in r.status terminal_job_statuses ≡ false → r.completed_at ≡ none
  pub lifetime_positive : r.submitted_at < r.expires_at
  pub lifetime_bounded : r.expires_at ≤ r.submitted_at + max_job_lifetime
