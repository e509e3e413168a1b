-- ===== src/JobService/Graphs.antt =====
-- The job, the grant and the outbox message that `AIJobService.create` builds
-- (application/ai_job_service.py). The JSON columns' texts are written by the database driver.
use lawyer_agent.Prelude.{ℕ, ◌+◌, none, String, Result, ok, ◌>>◌}
use lawyer_agent.Common.{Uuid, DateTime}
use lawyer_agent.AiJobs.Status.{AiJobStatus}
use lawyer_agent.AiJobs.Timing.{seconds}
use lawyer_agent.AiJobs.Scope.{JobScopeCode}
use lawyer_agent.AiJobs.Records.{
  AiJob, check_job, AiJobPermission, JobExecutionGrant, check_grant, NewAiJobOutbox,
  check_new_outbox, NewAiJobGraph, check_job_graph,
}
use lawyer_agent.AiJobs.Policy.{job_policy_version, job_scope_manifest_version}
use lawyer_agent.JobService.Commands.{CreateAiJobCommand, Draws, input_fingerprint}

-- The texts of `{"scenario": ..., "work_units": ...}` and of the actor's snapshot.
module _ (input_json : String → ℕ → String) (actor_json : CreateAiJobCommand → String) where
  unfoldable pub new_job : Draws → CreateAiJobCommand → Uuid → DateTime → AiJob
  new_job d c record_id now = record {
    submission = record {
      id = d.job_id;
      tenant_id = c.tenant_id;
      handler_code = c.kind;
      handler_version = "v1";
      input_schema_version = "synthetic-input-v1";
      input_json = input_json c.scenario c.work_units;
      input_fingerprint = input_fingerprint;
      created_by_user_id = c.user_id;
      created_by_membership_id = c.membership_id;
      created_by_session_id = c.session_id;
      actor_snapshot_json = actor_json c;
      policy_version_at_submit = job_policy_version;
      max_attempts = 4;
      idempotency_record_id = record_id;
      correlation_id = d.correlation_id;
    };
    status = AiJobStatus.queued;
    current_attempt_no = 0;
    submitted_at = now;
    expires_at = record now { instant = now.instant + seconds 3600 };
    version = 1;
    next_attempt_at = none;
    lease_owner = none;
    lease_token = none;
    lease_fence = none;
    lease_expires_at = none;
    cancel_requested_at = none;
    cancel_requested_by_user_id = none;
    cancel_reason_code = none;
    result_json = none;
    failure_class = none;
    failure_code = none;
    started_at = none;
    completed_at = none;
  }

  unfoldable pub new_grant : Draws → CreateAiJobCommand → DateTime → JobExecutionGrant
  new_grant d c now = record {
    id = d.grant_id;
    tenant_id = c.tenant_id;
    job_id = d.job_id;
    user_id = c.user_id;
    membership_id = c.membership_id;
    permission_code = AiJobPermission.create;
    auth_version_at_submit = c.auth_version;
    authz_version_at_submit = c.authz_version;
    policy_version = job_policy_version;
    job_scope_manifest_version = job_scope_manifest_version;
    job_scope_code = JobScopeCode.owner_shared;
    issued_at = now;
    revoked_at = none;
    revocation_reason_code = none;
    version = 1;
  }

  unfoldable pub new_outbox : Draws → CreateAiJobCommand → DateTime → NewAiJobOutbox
  new_outbox d c now = record {
    id = d.outbox_id;
    tenant_id = c.tenant_id;
    job_id = d.job_id;
    dispatch_generation = 1;
    envelope_generation = 1;
    max_envelope_generations = 4;
    event_type = "ai_job.execute_requested";
    routing_key = "ai.job.execute";
    schema_version = 1;
    available_at = now;
  }

  abbrev pub graph_of : Draws → CreateAiJobCommand → Uuid → DateTime → NewAiJobGraph
  graph_of d c record_id now = record {
    job = new_job d c record_id now;
    grant = new_grant d c now;
    outbox = new_outbox d c now;
  }

  -- The graph, with the checks of the constructors in their order.
  unfoldable pub new_graph :
      Draws → CreateAiJobCommand → Uuid → DateTime → Result String NewAiJobGraph
  unfolding new_job new_grant new_outbox check_job check_grant check_new_outbox check_job_graph
  new_graph d c record_id now = do
    check_job (new_job d c record_id now)
    check_grant (new_grant d c now)
    check_new_outbox (new_outbox d c now)
    check_job_graph (graph_of d c record_id now)
    ok (graph_of d c record_id now)
