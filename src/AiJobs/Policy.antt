-- ===== src/AiJobs/Policy.antt =====
-- The durable grant policy: whether a job may still run on the authority it was submitted under
-- (`JobAuthoritySnapshot` and `DurableGrantPolicy` of application/ai_jobs.py).
use lawyer_agent.Prelude.{
  ℕ, Bool, true, false, not, ◌&&◌, List, [], ◌∷◌, String, is_none, none_or, has_text, str_eq, ltb,
  leb, ◌==◌, if◌then◌else◌,
}
use lawyer_agent.Common.{DateTime}
use lawyer_agent.Tenancy.{Membership, is_active_status}
use lawyer_agent.AiJobs.Scope.{JobAuthorizationScope, JobScopeCode}
use lawyer_agent.AiJobs.Records.{AiJob, JobExecutionGrant, is_create, same_bool}

pub record JobAuthoritySnapshot : Type 0 where
  pub job : AiJob
  pub grant : JobExecutionGrant
  pub user_active : Bool
  pub tenant_active : Bool
  pub membership : Membership
  pub role_codes : List String
  pub permission_codes : List String
  pub auth_version : ℕ
  pub authz_version : ℕ
  pub resolved_scope : JobAuthorizationScope
  pub resolved_scope_code : JobScopeCode
  pub granted_scope : JobAuthorizationScope
  pub unknown_or_mixed_role_codes : Bool

pub record JobAuthorizationDecision : Type 0 where
  pub allowed : Bool
  pub reason_code : String

-- `membership_active_at`
unfoldable pub membership_active_at : JobAuthoritySnapshot → DateTime → Bool
membership_active_at s now =
    is_active_status s.membership.status
    && leb s.membership.valid_from.instant now.instant
    && none_or (λ until. ltb now.instant until.instant) s.membership.valid_until

abbrev pub job_policy_version : String
job_policy_version = "ai-job-policy-v1"

abbrev pub job_scope_manifest_version : String
job_scope_manifest_version = "ai-job-scope-v1"

abbrev pub same_code : JobScopeCode → JobScopeCode → Bool
same_code JobScopeCode.owner_shared JobScopeCode.owner_shared = true
same_code JobScopeCode.tenant_wide JobScopeCode.tenant_wide = true
same_code _ _ = false

abbrev pub same_scope : JobAuthorizationScope → JobAuthorizationScope → Bool
same_scope a b =
    same_bool a.owner b.owner
    && same_bool a.shared b.shared
    && same_bool a.tenant_wide b.tenant_wide

-- The tuple `checks` of `authorize`.
unfoldable pub grant_checks : JobAuthoritySnapshot → DateTime → List (Bool × String)
unfolding membership_active_at
grant_checks s now =
    (s.job.tenant_id == s.grant.tenant_id, "grant_tenant_mismatch")
    ∷ (s.job.id == s.grant.job_id, "grant_job_mismatch")
    ∷ (s.job.created_by_user_id == s.grant.user_id, "grant_owner_mismatch")
    ∷ (s.job.created_by_membership_id == s.grant.membership_id, "grant_membership_mismatch")
    ∷ (ltb now.instant s.job.expires_at.instant, "job_expired")
    ∷ (is_none s.grant.revoked_at, "grant_revoked")
    ∷ (s.user_active, "user_inactive")
    ∷ (s.tenant_active, "tenant_inactive")
    ∷ (membership_active_at s now, "membership_inactive")
    ∷ (s.membership.user_id == s.grant.user_id, "membership_user_mismatch")
    ∷ (s.membership.tenant_id == s.grant.tenant_id, "membership_tenant_mismatch")
    ∷ (s.grant.auth_version_at_submit == s.auth_version, "auth_version_changed")
    ∷ (s.grant.authz_version_at_submit == s.authz_version, "authz_version_changed")
    ∷ (is_create s.grant.permission_code, "grant_permission_invalid")
    ∷ (str_eq s.grant.policy_version job_policy_version, "grant_policy_version_mismatch")
    ∷ (
      str_eq s.grant.job_scope_manifest_version job_scope_manifest_version,
      "grant_manifest_version_mismatch",
    )
    ∷ (same_code s.grant.job_scope_code s.resolved_scope_code, "grant_scope_code_mismatch")
    ∷ (has_text "ai_job.create" s.permission_codes, "permission_denied")
    ∷ (not s.unknown_or_mixed_role_codes, "unknown_role")
    ∷ (same_scope s.resolved_scope s.granted_scope, "scope_mismatch")
    ∷ []

-- The loop over the checks: the first that fails decides.
unfoldable pub first_failure : List (Bool × String) → JobAuthorizationDecision
first_failure [] = record { allowed = true; reason_code = "allowed" }
first_failure ((passed, reason) ∷ rest) =
    let next = first_failure rest in
    if passed then next else record { allowed = false; reason_code = reason }

-- `DurableGrantPolicy.authorize`
unfoldable pub authorize : JobAuthoritySnapshot → DateTime → JobAuthorizationDecision
unfolding grant_checks first_failure
authorize s now = first_failure (grant_checks s now)
