-- ===== src/JobService/Commands.antt =====
-- `CreateAIJobCommand` and `AIJobService` of application/ai_job_service.py: `create`, `get` and
-- `cancel`, each in one unit of work, which an exception rolls back.
use lawyer_agent.Prelude.{
  ℕ, ◌-◌, Bool, true, false, not, ◌&&◌, none, some, String, List, [], ◌∷◌, ◌++◌, is_empty, str_eq,
  has_text, leb, Result, ok, err, guard, ◌>>◌,
}
use lawyer_agent.Common.{Uuid, DateTime, require_all_uuid7}
use lawyer_agent.Tenancy.{TenantStatus, MembershipStatus}
use lawyer_agent.Authz.Request.{TenantContext, AuthorizationScope, ConfidentialityLevel}
use lawyer_agent.AiJobs.Timing.{seconds}
use lawyer_agent.Idempotency.Types.{IdempotencyError, IdempotencyScope, membership}
use lawyer_agent.Idempotency.Table.{IdempotencyRow}
use lawyer_agent.Idempotency.Payload.{
  IdempotencyFingerprintPayload, text, integer, member_of, no_members,
}
use lawyer_agent.Idempotency.Service.{IdempotencyRequest}
use lawyer_agent.JobService.Roles.{RoleTables}
use lawyer_agent.JobService.Store.{GraphTables}

pub record CreateAiJobCommand : Type 0 where
  pub tenant_id : Uuid
  pub membership_id : Uuid
  pub user_id : Uuid
  pub session_id : Uuid
  pub auth_version : ℕ
  pub authz_version : ℕ
  pub idempotency_key : String
  pub kind : String
  pub scenario : String
  pub work_units : ℕ

abbrev pub scenarios : List String
scenarios = "success" ∷ "retry_once" ∷ "permanent_failure" ∷ "wait_for_cancel" ∷ []

-- `CreateAIJobCommand.__post_init__`
unfoldable pub check_command : CreateAiJobCommand → Result String (Unit {0})
unfolding require_all_uuid7
check_command c = do
  require_all_uuid7 (
      (c.tenant_id, "command tenant_id")
      ∷ (c.membership_id, "command membership_id")
      ∷ (c.user_id, "command user_id")
      ∷ (c.session_id, "command session_id")
      ∷ [])
  guard (not (is_empty c.idempotency_key)) "idempotency key must be non-empty text"
  guard (str_eq c.kind "synthetic.v1") "only the synthetic handler is currently available"
  guard (has_text c.scenario scenarios) "unknown synthetic scenario"
  guard (leb 1 c.work_units && leb c.work_units 10) "work units must be between 1 and 10"

-- The entity tag is kept as its code points.
pub record AcceptedAiJob : Type 0 where
  pub job_id : Uuid
  pub tenant_id : Uuid
  pub etag : List ℕ
  pub replayed : Bool

-- The exceptions of the service, and those of what it calls.
pub data AiJobServiceError : Type 0 where
  access_denied not_found : AiJobServiceError
  idempotency : IdempotencyError → AiJobServiceError
  raised : String → AiJobServiceError

abbrev pub from_idempotency {ℓ} :
    {A : Type ℓ} → Result IdempotencyError A → Result AiJobServiceError A
from_idempotency (ok a) = ok a
from_idempotency (err e) = err (idempotency e)

abbrev pub from_value {ℓ} : {A : Type ℓ} → Result String A → Result AiJobServiceError A
from_value (ok a) = ok a
from_value (err e) = err (raised e)

-- The tables that a unit of work commits.
pub record ServiceStore : Type 0 where
  pub graph : GraphTables
  pub keys : List IdempotencyRow
  pub roles : RoleTables

-- What the service draws: the ids of `new_uuid7` and the database's clock.
pub record Draws : Type 0 where
  pub record_id : Uuid
  pub job_id : Uuid
  pub correlation_id : Uuid
  pub grant_id : Uuid
  pub outbox_id : Uuid
  pub clock : ℕ

-- `AuthorizationScope(allow_tenant_wide=True)`
abbrev tenant_wide_scope : AuthorizationScope
tenant_wide_scope = record {
  department_ids = [];
  allow_tenant_wide = true;
  allow_owned = false;
  allow_shared = false;
  allow_matter_team = false;
  allow_class = false;
  allow_client_delegation = false;
  maximum_confidentiality = ConfidentialityLevel.restricted;
  unrecognized_scope_codes = [];
}

-- `_job_context`; a time in the first minute of the calendar raises.
unfoldable pub job_context : CreateAiJobCommand → DateTime → Result String TenantContext
job_context c now = do
  guard (leb (seconds 60) now.instant) "date value out of range"
  ok (record {
    tenant_id = c.tenant_id;
    membership_id = some c.membership_id;
    membership_user_id = some c.user_id;
    department_id = none;
    tenant_status = TenantStatus.active;
    membership_status = some MembershipStatus.active;
    valid_from = some (record now { instant = now.instant - seconds 60 });
    valid_until = none;
    authz_version = some c.authz_version;
    session_authz_version = some c.authz_version;
    scope = tenant_wide_scope;
  })

abbrev pub job_scope : CreateAiJobCommand → IdempotencyScope
job_scope c = record {
  scope_type = membership;
  scope_id = c.membership_id;
  tenant_id = some c.tenant_id;
}

-- The body of the request: every field is a business path.
abbrev pub job_payload : CreateAiJobCommand → IdempotencyFingerprintPayload
job_payload c = record {
  values = member_of "kind" (text c.kind) (
      member_of "scenario" (text c.scenario)
        (member_of "work_units" (integer false c.work_units) no_members));
  business_paths = ("kind" ∷ []) ∷ ("scenario" ∷ []) ∷ ("work_units" ∷ []) ∷ [];
  secret_paths = [];
}

abbrev pub job_request : CreateAiJobCommand → IdempotencyRequest
job_request c = record {
  key = c.idempotency_key;
  method = "POST";
  canonical_route = "/api/v1/tenants/{tenant_id}/ai-jobs";
  body = job_payload c;
}

abbrev fingerprint_byte : List ℕ
fingerprint_byte = 105 ∷ 105 ∷ 105 ∷ 105 ∷ 105 ∷ 105 ∷ 105 ∷ 105 ∷ []

-- `b"i" * 32`
abbrev pub input_fingerprint : List ℕ
input_fingerprint = fingerprint_byte ++ fingerprint_byte ++ fingerprint_byte ++ fingerprint_byte
