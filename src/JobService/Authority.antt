-- ===== src/JobService/Authority.antt =====
-- `SqlAlchemyAIJobAuthorityLoader.load` (infrastructure/persistence/repositories/ai_jobs.py): the
-- durable authority of a job, reloaded from the tables.
use lawyer_agent.Prelude.{
  ℕ, Bool, ◌&&◌, Option, none, some, String, List, map, ◌==◌, Result, ok, err, ◌>>=◌, ◌>>◌,
}
use lawyer_agent.Common.{Uuid}
use lawyer_agent.Tenancy.{Membership, MembershipStatus, MemberType, check_membership}
use lawyer_agent.AiJobs.Scope.{JobAuthorizationScope, JobScopeCode, scope_from_code, resolve_scope}
use lawyer_agent.AiJobs.Records.{check_uuid7, check_job, JobExecutionGrant, check_grant}
use lawyer_agent.AiJobs.Policy.{JobAuthoritySnapshot}
use lawyer_agent.JobStore.Rows.{JobRow, aware, aware_optional, job_of_row}
use lawyer_agent.JobStore.Claiming.{JobTables, is_job}
use lawyer_agent.JobStore.Lookup.{first}
use lawyer_agent.JobService.Roles.{RoleTables, role_rows, granted_codes}
use lawyer_agent.JobService.Store.{GrantRow}

-- `UserModel` and `TenantModel`, as far as the loader reads them.
pub record UserRow : Type 0 where
  pub id : Uuid
  pub active : Bool
  pub auth_version : ℕ

pub record TenantRow : Type 0 where
  pub id : Uuid
  pub active : Bool

-- `TenantMembershipModel`
pub record MembershipRow : Type 0 where
  pub id : Uuid
  pub tenant_id : Uuid
  pub user_id : Uuid
  pub department_id : Option Uuid
  pub member_type : MemberType
  pub status : MembershipStatus
  pub valid_from : ℕ
  pub valid_until : Option ℕ
  pub authz_version : ℕ
  pub version : ℕ

pub record AuthorityTables : Type 0 where
  pub users : List UserRow
  pub tenants : List TenantRow
  pub memberships : List MembershipRow
  pub grants : List GrantRow
  pub roles : RoleTables

-- What the loader raises: `JobAuthorityUnavailable` with its reason, or another exception.
pub data LoadError : Type 0 where
  unavailable raised : String → LoadError

abbrev pub raising {ℓ} : {A : Type ℓ} → Result String A → Result LoadError A
raising (ok a) = ok a
raising (err e) = err (raised e)

abbrev pub available {ℓ} : {A : Type ℓ} → String → Option A → Result LoadError A
available reason none = err (unavailable reason)
available reason (some a) = ok a

-- `_grant`
unfoldable pub grant_of_row : GrantRow → JobExecutionGrant
grant_of_row r = record {
  id = r.id;
  tenant_id = r.tenant_id;
  job_id = r.job_id;
  user_id = r.user_id;
  membership_id = r.membership_id;
  permission_code = r.permission_code;
  auth_version_at_submit = r.auth_version_at_submit;
  authz_version_at_submit = r.authz_version_at_submit;
  policy_version = r.policy_version;
  job_scope_manifest_version = r.job_scope_manifest_version;
  job_scope_code = r.job_scope_code;
  issued_at = aware r.issued_at;
  revoked_at = aware_optional r.revoked_at;
  revocation_reason_code = r.revocation_reason_code;
  version = r.version;
}

-- `_membership`
unfoldable pub membership_of_row : MembershipRow → Membership
membership_of_row r = record {
  id = r.id;
  tenant_id = r.tenant_id;
  user_id = r.user_id;
  department_id = r.department_id;
  member_type = r.member_type;
  status = r.status;
  valid_from = aware r.valid_from;
  valid_until = aware_optional r.valid_until;
  authz_version = r.authz_version;
  version = r.version;
}

abbrev pub is_grant : Uuid → Uuid → GrantRow → Bool
is_grant tenant_id job_id r = r.tenant_id == tenant_id && r.job_id == job_id

abbrev pub is_membership : Uuid → Uuid → MembershipRow → Bool
is_membership tenant_id membership_id r = r.tenant_id == tenant_id && r.id == membership_id

-- `frozenset(row[0] for row in role_rows)`
abbrev pub codes_of_roles : List (String × Option String) → List String
codes_of_roles rows = map (λ r. r.0) rows

abbrev pub snapshot_of :
    AuthorityTables
    → Uuid
    → JobRow
    → GrantRow
    → UserRow
    → TenantRow
    → MembershipRow
    → JobAuthorizationScope × JobScopeCode × Bool
    → JobAuthoritySnapshot
snapshot_of tables tenant_id job grant user tenant membership (scope, code, unknown_or_mixed) =
    let rows = role_rows tables.roles tenant_id grant.membership_id in
    record {
      job = job_of_row job;
      grant = grant_of_row grant;
      user_active = user.active;
      tenant_active = tenant.active;
      membership = membership_of_row membership;
      role_codes = codes_of_roles rows;
      permission_codes = granted_codes rows;
      auth_version = user.auth_version;
      authz_version = membership.authz_version;
      resolved_scope = scope;
      resolved_scope_code = code;
      granted_scope = scope_from_code grant.job_scope_code;
      unknown_or_mixed_role_codes = unknown_or_mixed;
    }

-- The snapshot of the rows that were found, with the checks of the constructors.
unfoldable pub snapshot :
    AuthorityTables
    → Uuid
    → JobRow
    → GrantRow
    → UserRow
    → TenantRow
    → MembershipRow
    → Result String JobAuthoritySnapshot
unfolding role_rows resolve_scope check_job check_grant check_membership job_of_row grant_of_row
    membership_of_row scope_from_code
snapshot tables tenant_id job grant user tenant membership = do
  resolved ← resolve_scope (codes_of_roles (role_rows tables.roles tenant_id grant.membership_id))
  check_job (job_of_row job)
  check_grant (grant_of_row grant)
  check_membership (membership_of_row membership)
  ok (snapshot_of tables tenant_id job grant user tenant membership resolved)

-- `load`; a lock does not change what is read.
unfoldable pub load :
    AuthorityTables → Uuid → Uuid → JobTables → Result LoadError JobAuthoritySnapshot
unfolding check_uuid7 snapshot
load tables tenant_id job_id store = do
  raising (check_uuid7 "authority tenant_id" tenant_id)
  raising (check_uuid7 "authority job_id" job_id)
  job ← available "job_unavailable" (first (is_job tenant_id job_id) store.jobs)
  grant ← available "grant_unavailable" (first (is_grant tenant_id job_id) tables.grants)
  user ← available "authority_unavailable" (first (λ u. u.id == grant.user_id) tables.users)
  tenant ← available "authority_unavailable" (first (λ t. t.id == tenant_id) tables.tenants)
  membership ←
      available "authority_unavailable"
        (first (is_membership tenant_id grant.membership_id) tables.memberships)
  raising (snapshot tables tenant_id job grant user tenant membership)
