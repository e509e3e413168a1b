-- ===== src/Examples/Data.antt =====
-- One tenant, one member, one job, and the requests on it.
use lawyer_agent.Prelude.{ℕ, ◌+◌, ◌*◌, ◌^◌, true, false, none, List, [], ◌∷◌}
use lawyer_agent.Common.{Uuid, at_utc}
use lawyer_agent.Tenancy.{Membership, MembershipStatus, MemberType}
use lawyer_agent.AiJobs.Status.{AiJobStatus}
use lawyer_agent.AiJobs.Scope.{JobScopeCode, scope_of}
use lawyer_agent.AiJobs.Timing.{seconds}
use lawyer_agent.AiJobs.Records.{AiJob, AiJobPermission, JobExecutionGrant, Submission}
use lawyer_agent.AiJobs.Requests.{ClaimJobRequest, FencedFinalizeSuccess}
use lawyer_agent.AiJobs.Policy.{JobAuthoritySnapshot}
use lawyer_agent.JobStore.Rows.{JobRow, job_of_row}
use lawyer_agent.JobStore.Claiming.{JobTables}

-- A UUIDv7 with a small number in its random part.
abbrev pub uuid : ℕ → Uuid
uuid n = 7 * 2 ^ 76 + 2 * 2 ^ 62 + n

abbrev pub bytes_32 : List ℕ
bytes_32 =
    1 ∷ 2 ∷ 3 ∷ 4 ∷ 5 ∷ 6 ∷ 7 ∷ 8 ∷ 1 ∷ 2 ∷ 3 ∷ 4 ∷ 5 ∷ 6 ∷ 7 ∷ 8 ∷ 1 ∷ 2 ∷ 3 ∷ 4 ∷ 5 ∷ 6 ∷ 7 ∷ 8
    ∷ 1 ∷ 2 ∷ 3 ∷ 4 ∷ 5 ∷ 6 ∷ 7 ∷ 8 ∷ []

abbrev pub submission : Submission
submission = record {
  id = uuid 1;
  tenant_id = uuid 2;
  handler_code = "contract_review";
  handler_version = "v1";
  input_schema_version = "v1";
  input_json = "{}";
  input_fingerprint = bytes_32;
  created_by_user_id = uuid 3;
  created_by_membership_id = uuid 4;
  created_by_session_id = uuid 5;
  actor_snapshot_json = "{}";
  policy_version_at_submit = "ai-job-policy-v1";
  correlation_id = uuid 6;
  max_attempts = 3;
  idempotency_record_id = uuid 11;
}

abbrev pub queued_row : JobRow
queued_row = record {
  submission = submission;
  status = AiJobStatus.queued;
  current_attempt_no = 0;
  submitted_at = seconds 100;
  expires_at = seconds 3700;
  version = 1;
  next_attempt_at = none;
  lease_owner = none;
  lease_token = none;
  lease_fence = none;
  lease_expires_at = none;
  cancel_requested_at = none;
  cancel_requested_by_user_id = none;
  cancel_reason_code = none;
  result_json = none;
  failure_class = none;
  failure_code = none;
  started_at = none;
  completed_at = none;
  updated_at = seconds 100;
}

abbrev pub tables : JobTables
tables = record { jobs = queued_row ∷ []; attempts = [] }

abbrev pub claim : ClaimJobRequest
claim = record {
  tenant_id = uuid 2;
  job_id = uuid 1;
  worker_instance_ref = "worker";
  lease_token = uuid 7;
  lease_fence = 1;
  attempt_id = uuid 8;
  attempt_no = 1;
  trigger_message_id = uuid 9;
  handler_code = "contract_review";
  handler_version = "v1";
  started_at = at_utc (seconds 200);
  lease_expires_at = at_utc (seconds 260);
}

abbrev pub rival : ClaimJobRequest
rival = record claim { worker_instance_ref = "other"; lease_token = uuid 17; attempt_id = uuid 18 }

abbrev pub finalize : FencedFinalizeSuccess
finalize = record {
  tenant_id = uuid 2;
  job_id = uuid 1;
  lease_token = uuid 7;
  lease_fence = 1;
  expected_version = 2;
  result = "{}";
  now = at_utc (seconds 230);
}

abbrev pub grant : JobExecutionGrant
grant = record {
  id = uuid 10;
  tenant_id = uuid 2;
  job_id = uuid 1;
  user_id = uuid 3;
  membership_id = uuid 4;
  permission_code = AiJobPermission.create;
  auth_version_at_submit = 1;
  authz_version_at_submit = 1;
  policy_version = "ai-job-policy-v1";
  job_scope_manifest_version = "ai-job-scope-v1";
  job_scope_code = JobScopeCode.owner_shared;
  issued_at = at_utc (seconds 100);
  revoked_at = none;
  revocation_reason_code = none;
  version = 1;
}

abbrev pub membership : Membership
membership = record {
  id = uuid 4;
  tenant_id = uuid 2;
  user_id = uuid 3;
  department_id = none;
  member_type = MemberType.internal;
  status = MembershipStatus.active;
  valid_from = at_utc (seconds 10);
  valid_until = none;
  authz_version = 1;
  version = 1;
}

abbrev pub authority_of : AiJob → JobAuthoritySnapshot
authority_of job = record {
  job = job;
  grant = grant;
  user_active = true;
  tenant_active = true;
  membership = membership;
  role_codes = "assistant" ∷ [];
  permission_codes = "ai_job.create" ∷ [];
  auth_version = 1;
  authz_version = 1;
  resolved_scope = scope_of true true false;
  resolved_scope_code = JobScopeCode.owner_shared;
  granted_scope = scope_of true true false;
  unknown_or_mixed_role_codes = false;
}

unfoldable pub authority : JobAuthoritySnapshot
unfolding job_of_row
authority = authority_of (job_of_row queued_row)
