-- ===== src/AiJobs/Requests.antt =====
-- The requests of the job store with the checks of their `__post_init__` (domain/ai_jobs.py).
use lawyer_agent.Prelude.{ℕ, [], ◌∷◌, String, ltb, guard, ◌>>◌}
use lawyer_agent.Common.{Uuid, DateTime, require_all_uuid7, require_utc, require_positive_int}
use lawyer_agent.AiJobs.Records.{Check, AiJob, require_nonempty}

pub record ClaimJobRequest : Type 0 where
  pub tenant_id : Uuid
  pub job_id : Uuid
  pub worker_instance_ref : String
  pub lease_token : Uuid
  pub lease_fence : ℕ
  pub attempt_id : Uuid
  pub attempt_no : ℕ
  pub trigger_message_id : Uuid
  pub handler_code : String
  pub handler_version : String
  pub started_at : DateTime
  pub lease_expires_at : DateTime

unfoldable pub check_claim_request : ClaimJobRequest → Check
unfolding require_all_uuid7 require_positive_int require_utc
check_claim_request r = do
  require_all_uuid7 (
      (r.tenant_id, "claim tenant_id")
      ∷ (r.job_id, "claim job_id")
      ∷ (r.lease_token, "claim lease_token")
      ∷ (r.attempt_id, "claim attempt_id")
      ∷ (r.trigger_message_id, "claim trigger_message_id")
      ∷ [])
  require_nonempty r.worker_instance_ref "claim worker instance ref is invalid"
  require_positive_int r.lease_fence "claim lease_fence"
  require_positive_int r.attempt_no "claim attempt_no"
  require_nonempty r.handler_code "claim handler code is invalid"
  require_nonempty r.handler_version "claim handler version is invalid"
  require_utc r.started_at "claim started_at"
  require_utc r.lease_expires_at "claim lease_expires_at"
  guard (ltb r.started_at.instant r.lease_expires_at.instant)
      "claim lease expiry must be after start"

pub record ClaimedExecution : Type 0 where
  pub job : AiJob
  pub attempt_id : Uuid
  pub attempt_no : ℕ
  pub lease_token : Uuid
  pub lease_fence : ℕ
  pub trigger_message_id : Uuid
  pub worker_instance_ref : String
  pub lease_expires_at : DateTime

unfoldable pub check_claimed_execution : ClaimedExecution → Check
unfolding require_all_uuid7 require_positive_int require_utc
check_claimed_execution c = do
  require_all_uuid7 (
      (c.attempt_id, "claimed attempt_id")
      ∷ (c.lease_token, "claimed lease_token")
      ∷ (c.trigger_message_id, "claimed trigger_message_id")
      ∷ [])
  require_positive_int c.attempt_no "claimed attempt_no"
  require_positive_int c.lease_fence "claimed lease_fence"
  require_utc c.lease_expires_at "claimed lease_expires_at"

pub record FencedHeartbeat : Type 0 where
  pub tenant_id : Uuid
  pub job_id : Uuid
  pub lease_token : Uuid
  pub lease_fence : ℕ
  pub expected_version : ℕ
  pub heartbeat_at : DateTime
  pub lease_expires_at : DateTime

unfoldable pub check_heartbeat : FencedHeartbeat → Check
unfolding require_all_uuid7 require_positive_int require_utc
check_heartbeat r = do
  require_all_uuid7 (
      (r.tenant_id, "heartbeat tenant_id")
      ∷ (r.job_id, "heartbeat job_id")
      ∷ (r.lease_token, "heartbeat lease_token")
      ∷ [])
  require_positive_int r.lease_fence "heartbeat lease_fence"
  require_positive_int r.expected_version "heartbeat expected_version"
  require_utc r.heartbeat_at "heartbeat heartbeat_at"
  require_utc r.lease_expires_at "heartbeat lease_expires_at"
  guard (ltb r.heartbeat_at.instant r.lease_expires_at.instant)
      "heartbeat lease expiry must be after heartbeat time"

pub record FencedFinalizeSuccess : Type 0 where
  pub tenant_id : Uuid
  pub job_id : Uuid
  pub lease_token : Uuid
  pub lease_fence : ℕ
  pub expected_version : ℕ
  pub result : String
  pub now : DateTime

unfoldable pub check_finalize : FencedFinalizeSuccess → Check
unfolding require_all_uuid7 require_positive_int require_utc
check_finalize r = do
  require_all_uuid7 (
      (r.tenant_id, "finalize tenant_id")
      ∷ (r.job_id, "finalize job_id")
      ∷ (r.lease_token, "finalize lease_token")
      ∷ [])
  require_positive_int r.lease_fence "finalize lease_fence"
  require_positive_int r.expected_version "finalize expected_version"
  require_utc r.now "finalize now"
