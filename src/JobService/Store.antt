-- ===== src/JobService/Store.antt =====
-- The rows of one submission: `get`, `add_job_graph` and `get_access` of SqlAlchemyAIJobRepository
-- (infrastructure/persistence/repositories/ai_jobs.py).
use lawyer_agent.Prelude.{
  ℕ, Bool, not, ◌&&◌, ◌||◌, Option, none, some, String, List, [], ◌∷◌, ◌++◌, any, ◌==◌, Result, ok,
  guard, ◌>>=◌, ◌>>◌, check_optional,
}
use lawyer_agent.Common.{Uuid}
use lawyer_agent.Authz.Request.{TenantContext}
use lawyer_agent.AiJobs.Scope.{JobScopeCode}
use lawyer_agent.AiJobs.Records.{
  AiJob, check_job, check_uuid7, AiJobPermission, JobAccess, check_access, NewAiJobGraph,
}
use lawyer_agent.JobStore.Rows.{JobRow, naive, aware_optional, job_of_row, row_of_job}
use lawyer_agent.JobStore.Claiming.{JobTables, is_job}
use lawyer_agent.JobStore.Lookup.{first}
use lawyer_agent.JobStore.Messages.{OutboxRow, OutboxStatus}

-- `AIJobExecutionGrantModel`
pub record GrantRow : Type 0 where
  pub id : Uuid
  pub tenant_id : Uuid
  pub job_id : Uuid
  pub user_id : Uuid
  pub membership_id : Uuid
  pub permission_code : AiJobPermission
  pub auth_version_at_submit : ℕ
  pub authz_version_at_submit : ℕ
  pub policy_version : String
  pub job_scope_manifest_version : String
  pub job_scope_code : JobScopeCode
  pub issued_at : ℕ
  pub revoked_at : Option ℕ
  pub revocation_reason_code : Option String
  pub version : ℕ

-- The columns of `AIJobOutboxModel` that the statements on the outbox do not read, with its row.
pub record OutboxEntry : Type 0 where
  pub row : OutboxRow
  pub dispatch_generation : ℕ
  pub envelope_generation : ℕ
  pub max_envelope_generations : ℕ
  pub event_type : String

-- `AIJobAccessGrantModel`
pub record AccessRow : Type 0 where
  pub tenant_id : Uuid
  pub job_id : Uuid
  pub membership_id : Uuid
  pub access_level : String
  pub generation : ℕ
  pub revoked_at : Option ℕ

pub record GraphTables : Type 0 where
  pub tables : JobTables
  pub grants : List GrantRow
  pub outbox : List OutboxEntry

-- `_require_context`
unfoldable pub require_context : TenantContext → Result String (Unit {0})
unfolding check_uuid7
require_context c = do
  check_uuid7 "tenant context tenant_id" c.tenant_id
  check_optional (check_uuid7 "tenant context membership_id") c.membership_id
  check_optional (check_uuid7 "tenant context membership_user_id") c.membership_user_id

-- `_job` with the checks of the constructor.
unfoldable pub read_job : Option JobRow → Result String (Option AiJob)
unfolding job_of_row check_job
read_job none = ok none
read_job (some r) = do check_job (job_of_row r); ok (some (job_of_row r))

-- `get`; a lock does not change what is read.
unfoldable pub get : TenantContext → Uuid → List JobRow → Result String (Option AiJob)
unfolding require_context check_uuid7 read_job
get context job_id jobs = do
  require_context context
  check_uuid7 "job_id" job_id
  read_job (first (is_job context.tenant_id job_id) jobs)

abbrev grant_row : NewAiJobGraph → ℕ → GrantRow
grant_row g issued_at = record {
  id = g.grant.id;
  tenant_id = g.grant.tenant_id;
  job_id = g.grant.job_id;
  user_id = g.grant.user_id;
  membership_id = g.grant.membership_id;
  permission_code = g.grant.permission_code;
  auth_version_at_submit = g.grant.auth_version_at_submit;
  authz_version_at_submit = g.grant.authz_version_at_submit;
  policy_version = g.grant.policy_version;
  job_scope_manifest_version = g.grant.job_scope_manifest_version;
  job_scope_code = g.grant.job_scope_code;
  issued_at = issued_at;
  revoked_at = none;
  revocation_reason_code = none;
  version = 1;
}

abbrev outbox_entry : NewAiJobGraph → ℕ → OutboxEntry
outbox_entry g available_at = record {
  row = record {
    id = g.outbox.id;
    tenant_id = g.outbox.tenant_id;
    job_id = g.outbox.job_id;
    routing_key = g.outbox.routing_key;
    schema_version = g.outbox.schema_version;
    correlation_id = some g.job.correlation_id;
    available_at = available_at;
    message_id = none;
    nonce = none;
    issued_at = none;
    signature = none;
    envelope_digest = none;
    status = OutboxStatus.pending;
    claim_owner = none;
    claim_token = none;
    claim_fence = none;
    claim_expires_at = none;
    publish_attempt_count = 0;
    max_publish_attempts = 8;
    last_error_code = none;
    published_at = none;
    confirmed_at = none;
    version = 1;
  };
  dispatch_generation = g.outbox.dispatch_generation;
  envelope_generation = g.outbox.envelope_generation;
  max_envelope_generations = g.outbox.max_envelope_generations;
  event_type = g.outbox.event_type;
}

abbrev pub has_job : Uuid → List JobRow → Bool
has_job job_id jobs = any (λ r. r.id == job_id) jobs

-- A grant with the id, or for the job, of a new one.
abbrev grant_clashes : NewAiJobGraph → GrantRow → Bool
grant_clashes g r =
    r.id == g.grant.id || (r.tenant_id == g.grant.tenant_id && r.job_id == g.grant.job_id)

abbrev outbox_clashes : NewAiJobGraph → OutboxEntry → Bool
outbox_clashes g o =
    o.row.id == g.outbox.id
    || (o.row.tenant_id == g.outbox.tenant_id
        && o.row.job_id == g.outbox.job_id
        && o.dispatch_generation == g.outbox.dispatch_generation
        && o.envelope_generation == g.outbox.envelope_generation)

-- The rows that follow the job's, after it is flushed.
unfoldable pub add_grant_and_outbox :
    NewAiJobGraph → GraphTables → Result String (GrantRow × OutboxEntry)
unfolding naive
add_grant_and_outbox g store = do
  issued_at ← naive g.grant.issued_at
  available_at ← naive g.outbox.available_at
  guard (not (any (grant_clashes g) store.grants)) "duplicate key"
  guard (not (any (outbox_clashes g) store.outbox)) "duplicate key"
  ok (grant_row g issued_at, outbox_entry g available_at)

-- `add_job_graph`, with the database's clock; a row that breaks a unique key raises.
unfoldable pub add_job_graph : ℕ → NewAiJobGraph → GraphTables → Result String GraphTables
unfolding row_of_job add_grant_and_outbox
add_job_graph clock g store = do
  job ← row_of_job clock g.job
  guard (not (has_job job.id store.tables.jobs)) "duplicate key"
  (grant, entry) ← add_grant_and_outbox g store
  ok (record {
    tables = record store.tables { jobs = store.tables.jobs ++ job ∷ [] };
    grants = store.grants ++ grant ∷ [];
    outbox = store.outbox ++ entry ∷ [];
  })

-- `_access`, with the checks of the constructor.
unfoldable pub read_access : Option AccessRow → Result String (Option JobAccess)
unfolding check_access
read_access none = ok none
read_access (some r) = do
  let access : JobAccess = record {
    tenant_id = r.tenant_id;
    job_id = r.job_id;
    membership_id = r.membership_id;
    access_level = r.access_level;
    generation = r.generation;
    revoked_at = aware_optional r.revoked_at;
  }
  check_access access
  ok (some access)

unfoldable pub get_access :
    TenantContext → Uuid → Uuid → List AccessRow → Result String (Option JobAccess)
unfolding require_context check_uuid7 read_access
get_access context job_id membership_id rows = do
  require_context context
  check_uuid7 "job_id" job_id
  check_uuid7 "membership_id" membership_id
  read_access (
      first
        (λ r.
          r.tenant_id == context.tenant_id
          && r.job_id == job_id
          && r.membership_id == membership_id)
        rows)
