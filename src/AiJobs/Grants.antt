-- ===== src/AiJobs/Grants.antt =====
-- What the durable grant policy allows.
use lawyer_agent.Prelude.{
  ◌≤◌, ◌<◌, ◌≡◌, refl, ◌↔◌, Bool, true, false, Option, none, some, List, [], ◌∷◌, String, has_text,
  arith, All, eq_iff, none_or, ltb,
}
use lawyer_agent.Common.{DateTime}
use lawyer_agent.Tenancy.{MembershipStatus}
use lawyer_agent.AiJobs.Records.{AiJobPermission}
use lawyer_agent.AiJobs.Policy.{
  JobAuthoritySnapshot, grant_checks, first_failure, authorize, job_policy_version,
  job_scope_manifest_version,
}

-- The job is bound to its grant, the grant to the member who submitted it, and nothing of the
-- authority has changed since.
pub record IsAuthorized (s : JobAuthoritySnapshot) (now : DateTime) : Type 0 where
  pub same_tenant : s.job.tenant_id ≡ s.grant.tenant_id
  pub same_job : s.job.id ≡ s.grant.job_id
  pub same_user : s.job.created_by_user_id ≡ s.grant.user_id
  pub same_membership : s.job.created_by_membership_id ≡ s.grant.membership_id
  pub not_expired : now.instant < s.job.expires_at.instant
  pub not_revoked : s.grant.revoked_at ≡ none
  pub user_active : s.user_active ≡ true
  pub tenant_active : s.tenant_active ≡ true
  pub member_active : s.membership.status ≡ MembershipStatus.active
  pub member_since : s.membership.valid_from.instant ≤ now.instant
  pub member_until : (t : DateTime) → s.membership.valid_until ≡ some t → now.instant < t.instant
  pub member_user : s.membership.user_id ≡ s.grant.user_id
  pub member_tenant : s.membership.tenant_id ≡ s.grant.tenant_id
  pub auth_version : s.grant.auth_version_at_submit ≡ s.auth_version
  pub authz_version : s.grant.authz_version_at_submit ≡ s.authz_version
  pub may_create : s.grant.permission_code ≡ AiJobPermission.create
  pub policy_version : s.grant.policy_version ≡ job_policy_version
  pub manifest_version : s.grant.job_scope_manifest_version ≡ job_scope_manifest_version
  pub scope_code : s.grant.job_scope_code ≡ s.resolved_scope_code
  pub permission : has_text "ai_job.create" s.permission_codes ≡ true
  pub roles_known : s.unknown_or_mixed_role_codes ≡ false
  pub same_scope : s.resolved_scope ≡ s.granted_scope

first_failure-allowed :
    (l : List (Bool × String)) → ((first_failure l).allowed ≡ true) ↔ All (λ c. c.0 ≡ true) l
unfolding first_failure
first_failure-allowed [] = (λ _. tt, λ _. refl)
first_failure-allowed ((true, reason) ∷ l) =
    (λ e. (refl, (first_failure-allowed l).0 e), λ h. (first_failure-allowed l).1 h.1)
first_failure-allowed ((false, reason) ∷ l) = (λ e. cc, λ h. cc)

module _ (s : JobAuthoritySnapshot) (now : DateTime) where
  passed-IsAuthorized : All (λ c. c.0 ≡ true) (grant_checks s now) → IsAuthorized s now
  unfolding grant_checks
  passed-IsAuthorized h = ground (
    arith,
    eq_iff s.grant.policy_version job_policy_version,
    eq_iff s.grant.job_scope_manifest_version job_scope_manifest_version,
  )

  within :
      (o : Option DateTime)
      → ((t : DateTime) → o ≡ some t → now.instant < t.instant)
      → none_or (λ until. ltb now.instant until.instant) o ≡ true
  within none h = refl
  within (some t) h = ground (arith, h t refl)

  IsAuthorized-passed : IsAuthorized s now → All (λ c. c.0 ≡ true) (grant_checks s now)
  unfolding grant_checks
  IsAuthorized-passed h = ground (
    arith,
    eq_iff s.grant.policy_version job_policy_version,
    eq_iff s.grant.job_scope_manifest_version job_scope_manifest_version,
    within s.membership.valid_until h.member_until,
  )

-- A job may run exactly when it belongs to its grant, the grant to the membership that created it,
-- the job has not expired, the grant is not revoked, the user, the tenant and the membership are
-- active at the time, and versions, permission, roles and scope are those of the submission.
pub authorize-allowed :
    (s : JobAuthoritySnapshot) (now : DateTime)
    → ((authorize s now).allowed ≡ true) ↔ IsAuthorized s now
unfolding authorize
authorize-allowed s now = (
  λ e. passed-IsAuthorized s now ((first_failure-allowed (grant_checks s now)).0 e),
  λ h. (first_failure-allowed (grant_checks s now)).1 (IsAuthorized-passed s now h),
)
