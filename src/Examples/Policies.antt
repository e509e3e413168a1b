-- ===== src/Examples/Policies.antt =====
-- The policies on one member of one tenant.
use lawyer_agent.Prelude.{
  ◌≡◌, ◌↔◌, ◌⊎◌, refl, Bool, true, false, ◌||◌, none, some, List, [], ◌∷◌, String, any, ok,
}
use lawyer_agent.Common.{at_utc, is_uuid7}
use lawyer_agent.Tenancy.{TenantStatus, MembershipStatus}
use lawyer_agent.AiJobs.Timing.{seconds}
use lawyer_agent.AiJobs.Scope.{
  JobAuthorizationScope, JobScopeCode, scope_of, resolve_scope, scope_from_code, no_roles,
  is_unknown_role,
}
use lawyer_agent.AiJobs.Scopes.{resolve_scope_total}
use lawyer_agent.AiJobs.Policy.{authorize}
use lawyer_agent.AiJobs.Grants.{IsAuthorized, authorize-allowed}
use lawyer_agent.Authz.Request.{
  Action, Principal, PrincipalAudience, TenantContext, ResourceAttributes, ResourceAccessPath,
  ResourceState, ConfidentialityLevel, audit_required,
}
use lawyer_agent.Authz.Policy.{decide}
use lawyer_agent.Authz.Decisions.{IsPermitted, decide-allowed, decide-audited}
use lawyer_agent.Examples.Data.{uuid, authority}

authorize-allowed_example :
    ((authorize authority (at_utc (seconds 200))).allowed ≡ true)
    ↔ IsAuthorized authority (at_utc (seconds 200))
authorize-allowed_example = authorize-allowed authority (at_utc (seconds 200))

abbrev mixed_roles : List String
mixed_roles = "assistant" ∷ "student" ∷ []

resolve_scope_total_example :
    (scope : JobAuthorizationScope) × (code : JobScopeCode) × (unknown : Bool) × (resolve_scope
        mixed_roles
      ≡ ok (scope, code, unknown))
    × (unknown ≡ (no_roles mixed_roles || any is_unknown_role mixed_roles))
    × ((scope ≡ scope_from_code code) ⊎ ((scope ≡ scope_of false false false) × (unknown ≡ true)))
resolve_scope_total_example = resolve_scope_total mixed_roles

abbrev principal : Principal
principal = record {
  user_id = uuid 3;
  session_id = uuid 5;
  audience = PrincipalAudience.tenant;
  tenant_id = some (uuid 2);
  membership_id = some (uuid 4);
  user_status = "active";
  session_valid = true;
  auth_version = 1;
  session_auth_version = 1;
  permissions = "department.read" ∷ [];
  role_codes = "assistant" ∷ [];
  authenticated_at = at_utc (seconds 50);
}

abbrev context : TenantContext
context = record {
  tenant_id = uuid 2;
  membership_id = some (uuid 4);
  membership_user_id = some (uuid 3);
  department_id = none;
  tenant_status = TenantStatus.active;
  membership_status = some MembershipStatus.active;
  valid_from = some (at_utc (seconds 10));
  valid_until = none;
  authz_version = some 1;
  session_authz_version = some 1;
  scope = record {
    department_ids = uuid 20 ∷ [];
    allow_tenant_wide = false;
    allow_owned = true;
    allow_shared = false;
    allow_matter_team = false;
    allow_class = false;
    allow_client_delegation = false;
    maximum_confidentiality = ConfidentialityLevel.internal;
    unrecognized_scope_codes = [];
  };
}

abbrev resource : ResourceAttributes
resource = record {
  tenant_id = uuid 2;
  state = ResourceState.active;
  access_paths = ResourceAccessPath.department ∷ [];
  department_id = some (uuid 20);
  owner_user_id = none;
  shared_with_membership_ids = [];
  matter_team_membership_ids = [];
  class_membership_ids = [];
  delegated_client_membership_ids = [];
  confidentiality = ConfidentialityLevel.internal;
  approval_status = none;
  unrecognized_fields = [];
}

permitted :
    (decide principal context Action.department_read resource (at_utc (seconds 60))).allowed ≡ true
unfolding decide is_uuid7
permitted = refl

decide-allowed_example :
    ((decide principal context Action.department_read resource (at_utc (seconds 60))).allowed
      ≡ true)
    ↔ IsPermitted principal context Action.department_read resource (at_utc (seconds 60))
decide-allowed_example =
    decide-allowed principal context Action.department_read resource (at_utc (seconds 60))

decide-audited_example :
    (decide principal context Action.department_read resource (at_utc (seconds 60))).audit_required
    ≡ false
unfolding decide audit_required is_uuid7
decide-audited_example =
    decide-audited principal context Action.department_read resource (at_utc (seconds 60))
