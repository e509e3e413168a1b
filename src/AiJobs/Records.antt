-- ===== src/AiJobs/Records.antt =====
-- The records of domain/ai_jobs.py with the checks of their `__post_init__`. A field's type stands
-- for its `isinstance` check; a JSON mapping is kept as its serialised text, which no check reads.
use lawyer_agent.Prelude.{
  ℕ, Bool, true, false, not, ◌&&◌, Option, List, [], ◌∷◌, String, is_none, is_empty, str_eq, leb,
  ◌==◌, Result, ok, guard, check_optional, ◌>>=◌, ◌>>◌, length,
}
use lawyer_agent.Common.{
  Uuid, DateTime, require_uuid7, require_all_uuid7, require_utc, require_positive_int,
}
use lawyer_agent.AiJobs.Status.{AiJobStatus}
use lawyer_agent.AiJobs.Timing.{max_attempts_limit}
use lawyer_agent.AiJobs.Scope.{JobScopeCode}

pub data AiJobPermission : Type 0 where
  create read cancel : AiJobPermission

-- A check of one value that may raise `ValueError`.
abbrev pub Check : Type 0
Check = Result String (Unit {0})

-- `if not text: raise ValueError(message)`
abbrev pub require_nonempty : String → String → Check
require_nonempty text message = guard (not (is_empty text)) message

pub record ActorSnapshot : Type 0 where
  pub user_id : Uuid
  pub membership_id : Uuid
  pub session_id : Uuid
  pub auth_version_at_submit : ℕ
  pub authz_version_at_submit : ℕ
  pub role_codes_at_submit : List String
  pub permission_codes_at_submit : List String
  pub policy_version_at_submit : String
  pub authenticated_at : DateTime
  pub submitted_at : DateTime

unfoldable pub check_actor_snapshot : ActorSnapshot → Check
unfolding require_all_uuid7 require_positive_int require_utc
check_actor_snapshot a = do
  require_all_uuid7 (
      (a.user_id, "actor user_id")
      ∷ (a.membership_id, "actor membership_id")
      ∷ (a.session_id, "actor session_id")
      ∷ [])
  require_positive_int a.auth_version_at_submit "auth_version_at_submit"
  require_positive_int a.authz_version_at_submit "authz_version_at_submit"
  require_nonempty a.policy_version_at_submit "actor snapshot policy version is invalid"
  require_utc a.authenticated_at "authenticated_at"
  require_utc a.submitted_at "submitted_at"

pub record JobExecutionGrant : Type 0 where
  pub id : Uuid
  pub tenant_id : Uuid
  pub job_id : Uuid
  pub user_id : Uuid
  pub membership_id : Uuid
  pub permission_code : AiJobPermission
  pub auth_version_at_submit : ℕ
  pub authz_version_at_submit : ℕ
  pub policy_version : String
  pub job_scope_manifest_version : String
  pub job_scope_code : JobScopeCode
  pub issued_at : DateTime
  pub revoked_at : Option DateTime
  pub revocation_reason_code : Option String
  pub version : ℕ

abbrev pub is_create : AiJobPermission → Bool
is_create AiJobPermission.create = true
is_create _ = false

abbrev pub same_bool : Bool → Bool → Bool
same_bool true b = b
same_bool false b = not b

unfoldable pub check_grant : JobExecutionGrant → Check
unfolding require_all_uuid7 require_positive_int require_utc
check_grant g = do
  require_all_uuid7 (
      (g.id, "grant id")
      ∷ (g.tenant_id, "grant tenant_id")
      ∷ (g.job_id, "grant job_id")
      ∷ (g.user_id, "grant user_id")
      ∷ (g.membership_id, "grant membership_id")
      ∷ [])
  guard (is_create g.permission_code) "durable grant permission code must be ai_job.create"
  require_positive_int g.auth_version_at_submit "grant auth_version_at_submit"
  require_positive_int g.authz_version_at_submit "grant authz_version_at_submit"
  require_nonempty g.policy_version "grant policy version is invalid"
  require_nonempty g.job_scope_manifest_version "grant job scope manifest version is invalid"
  require_utc g.issued_at "grant issued_at"
  require_positive_int g.version "grant version"
  check_optional (λ t. require_utc t "grant revoked_at") g.revoked_at
  guard (same_bool (is_none g.revoked_at) (is_none g.revocation_reason_code))
      "grant revocation timestamp and reason must be set together"

-- The fields of a job that are set when it is submitted and that no operation writes.
pub record Submission : Type 0 where
  pub id : Uuid
  pub tenant_id : Uuid
  pub handler_code : String
  pub handler_version : String
  pub input_schema_version : String
  pub input_json : String
  pub input_fingerprint : List ℕ
  pub created_by_user_id : Uuid
  pub created_by_membership_id : Uuid
  pub created_by_session_id : Uuid
  pub actor_snapshot_json : String
  pub policy_version_at_submit : String
  pub max_attempts : ℕ
  pub idempotency_record_id : Uuid
  pub correlation_id : Uuid

-- `AIJob`, with the enumerations of one member (visibility, risk class, release state) left out.
pub record AiJob : Type 0 where
  pub submission : Submission
  pub open submission use *
  pub status : AiJobStatus
  pub current_attempt_no : ℕ
  pub submitted_at : DateTime
  pub expires_at : DateTime
  pub version : ℕ
  pub next_attempt_at : Option DateTime
  pub lease_owner : Option String
  pub lease_token : Option Uuid
  pub lease_fence : Option ℕ
  pub lease_expires_at : Option DateTime
  pub cancel_requested_at : Option DateTime
  pub cancel_requested_by_user_id : Option Uuid
  pub cancel_reason_code : Option String
  pub result_json : Option String
  pub failure_class : Option String
  pub failure_code : Option String
  pub started_at : Option DateTime
  pub completed_at : Option DateTime

unfoldable pub check_uuid7 : String → Uuid → Check
unfolding require_uuid7
check_uuid7 field n = require_uuid7 n field >>= λ _. ok tt

abbrev pub job_identifiers : AiJob → List (Uuid × String)
job_identifiers j =
    (j.id, "job id")
    ∷ (j.tenant_id, "job tenant_id")
    ∷ (j.created_by_user_id, "job created_by_user_id")
    ∷ (j.created_by_membership_id, "job created_by_membership_id")
    ∷ (j.created_by_session_id, "job created_by_session_id")
    ∷ (j.idempotency_record_id, "job idempotency_record_id")
    ∷ (j.correlation_id, "job correlation_id")
    ∷ []

unfoldable pub check_job_identifiers : AiJob → Check
unfolding require_all_uuid7 check_uuid7
check_job_identifiers j = do
  require_all_uuid7 (job_identifiers j)
  check_optional (check_uuid7 "job lease_token") j.lease_token
  check_optional (check_uuid7 "job cancel_requested_by_user_id") j.cancel_requested_by_user_id

unfoldable pub check_job_numbers : AiJob → Check
unfolding require_positive_int
check_job_numbers j = do
  guard (length j.input_fingerprint == 32) "job input fingerprint must be 32 bytes"
  require_positive_int j.version "job version"
  require_positive_int j.max_attempts "job max_attempts"
  guard (leb j.max_attempts max_attempts_limit) "job max_attempts exceeds the limit"
  guard (leb j.current_attempt_no j.max_attempts) "job current_attempt_no is out of range"

abbrev utc_named : String → DateTime → Check
utc_named name t = require_utc t name

unfoldable pub check_job_times : AiJob → Check
unfolding require_utc
check_job_times j = do
  require_utc j.submitted_at "job submitted_at"
  require_utc j.expires_at "job expires_at"
  check_optional (utc_named "job next_attempt_at") j.next_attempt_at
  check_optional (utc_named "job lease_expires_at") j.lease_expires_at
  check_optional (utc_named "job cancel_requested_at") j.cancel_requested_at
  check_optional (utc_named "job started_at") j.started_at
  check_optional (utc_named "job completed_at") j.completed_at

-- `AIJob.__post_init__`
unfoldable pub check_job : AiJob → Check
check_job j = do check_job_identifiers j; check_job_numbers j; check_job_times j

pub record JobAccess : Type 0 where
  pub tenant_id : Uuid
  pub job_id : Uuid
  pub membership_id : Uuid
  pub access_level : String
  pub generation : ℕ
  pub revoked_at : Option DateTime

unfoldable pub check_access : JobAccess → Check
unfolding require_all_uuid7 require_positive_int require_utc
check_access a = do
  require_all_uuid7 (
      (a.tenant_id, "access tenant_id")
      ∷ (a.job_id, "access job_id")
      ∷ (a.membership_id, "access membership_id")
      ∷ [])
  guard (str_eq a.access_level "read") "job access level must be read"
  require_positive_int a.generation "access generation"
  check_optional (λ t. require_utc t "access revoked_at") a.revoked_at

-- `JobAccess.active`
abbrev pub is_active_access : JobAccess → Bool
is_active_access a = is_none a.revoked_at

pub record NewAiJobOutbox : Type 0 where
  pub id : Uuid
  pub tenant_id : Uuid
  pub job_id : Uuid
  pub dispatch_generation : ℕ
  pub envelope_generation : ℕ
  pub max_envelope_generations : ℕ
  pub event_type : String
  pub routing_key : String
  pub schema_version : ℕ
  pub available_at : DateTime

unfoldable pub check_new_outbox : NewAiJobOutbox → Check
unfolding require_all_uuid7 require_positive_int require_utc
check_new_outbox o = do
  require_all_uuid7
      ((o.id, "outbox id") ∷ (o.tenant_id, "outbox tenant_id") ∷ (o.job_id, "outbox job_id") ∷ [])
  require_positive_int o.dispatch_generation "outbox dispatch_generation"
  require_positive_int o.envelope_generation "outbox envelope_generation"
  require_positive_int o.max_envelope_generations "outbox max_envelope_generations"
  guard (leb o.envelope_generation o.max_envelope_generations)
      "outbox envelope generation exceeds its cap"
  require_nonempty o.event_type "outbox event type is invalid"
  require_nonempty o.routing_key "outbox routing key is invalid"
  require_positive_int o.schema_version "outbox schema_version"
  require_utc o.available_at "outbox available_at"

pub record NewAiJobGraph : Type 0 where
  pub job : AiJob
  pub grant : JobExecutionGrant
  pub outbox : NewAiJobOutbox

unfoldable pub check_job_graph : NewAiJobGraph → Check
check_job_graph g =
    guard
      (g.job.tenant_id == g.grant.tenant_id
        && g.job.tenant_id == g.outbox.tenant_id
        && g.job.id == g.grant.job_id
        && g.job.id == g.outbox.job_id)
      "job graph parts must reference the same tenant and job"
