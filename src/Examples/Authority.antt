-- ===== src/Examples/Authority.antt =====
-- A delivery under the authority that the loader reads from the tables.
use lawyer_agent.Prelude.{refl, true, none, [], ◌∷◌}
use lawyer_agent.Common.{at_utc}
use lawyer_agent.Tenancy.{MembershipStatus, MemberType}
use lawyer_agent.AiJobs.Timing.{seconds}
use lawyer_agent.AiJobs.Scope.{JobScopeCode, known_scopes, role_scope, scope_code, merge_scopes}
use lawyer_agent.AiJobs.Records.{
  AiJobPermission, check_job, check_job_identifiers, check_job_numbers, check_job_times,
}
use lawyer_agent.AiJobs.Requests.{check_claimed_execution}
use lawyer_agent.Worker.{WorkerStore, accept_delivery}
use lawyer_agent.Worker.Deliveries.{after}
use lawyer_agent.JobService.Authority.{AuthorityTables, load}
use lawyer_agent.JobService.Granted.{authority_port, IsGranted, accept_delivery-IsGranted}
use lawyer_agent.Examples.Data.{uuid, tables}
use lawyer_agent.Examples.Deliveries.{envelope_digest, nonce_digest, delivery, store}

-- The same authority as rows, which the loader reads.
abbrev authority_tables : AuthorityTables
authority_tables = record {
  users = record { id = uuid 3; active = true; auth_version = 1 } ∷ [];
  tenants = record { id = uuid 2; active = true } ∷ [];
  memberships =
      record {
        id = uuid 4;
        tenant_id = uuid 2;
        user_id = uuid 3;
        department_id = none;
        member_type = MemberType.internal;
        status = MembershipStatus.active;
        valid_from = seconds 10;
        valid_until = none;
        authz_version = 1;
        version = 1;
      }
      ∷ [];
  grants =
      record {
        id = uuid 10;
        tenant_id = uuid 2;
        job_id = uuid 1;
        user_id = uuid 3;
        membership_id = uuid 4;
        permission_code = AiJobPermission.create;
        auth_version_at_submit = 1;
        authz_version_at_submit = 1;
        policy_version = "ai-job-policy-v1";
        job_scope_manifest_version = "ai-job-scope-v1";
        job_scope_code = JobScopeCode.owner_shared;
        issued_at = seconds 100;
        revoked_at = none;
        revocation_reason_code = none;
        version = 1;
      }
      ∷ [];
  roles = record {
    roles = record { tenant_id = uuid 2; id = uuid 20; code = "assistant"; active = true } ∷ [];
    assignments =
        record { tenant_id = uuid 2; tenant_role_id = uuid 20; membership_id = uuid 4 } ∷ [];
    role_permissions =
        record { tenant_id = uuid 2; tenant_role_id = uuid 20; permission_id = uuid 21 } ∷ [];
    permissions = record { id = uuid 21; code = "ai_job.create"; active = true } ∷ [];
  };
}

abbrev store_loaded : WorkerStore
unfolding accept_delivery load check_job check_job_identifiers check_job_numbers check_job_times
    check_claimed_execution
store_loaded =
    after
      (accept_delivery envelope_digest nonce_digest (authority_port authority_tables) "worker" 60
        delivery store)
      store

accept_delivery-IsGranted_example :
    IsGranted authority_tables (uuid 2) (uuid 1) tables (at_utc (seconds 200))
unfolding accept_delivery store_loaded load check_job check_job_identifiers check_job_numbers
    check_job_times check_claimed_execution known_scopes role_scope scope_code merge_scopes
accept_delivery-IsGranted_example =
    accept_delivery-IsGranted envelope_digest nonce_digest authority_tables "worker" 60 delivery
      store store_loaded refl
