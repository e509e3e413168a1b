-- ===== src/Authz/Request.antt =====
-- What a decision is about: actions, principals, contexts and resources.
use lawyer_agent.Prelude.{ℕ, Bool, true, false, Option, List, [], ◌∷◌, String}
use lawyer_agent.Common.{Uuid, DateTime}
use lawyer_agent.Tenancy.{TenantStatus, MembershipStatus}

pub data Action : Type 0 where
  tenant_read tenant_update department_read department_manage membership_read membership_invite
        membership_update membership_revoke role_read role_assign external_service_enable
        tenant_application_read tenant_application_review platform_admin_bootstrap :
      Action

-- `action.value`
unfoldable pub action_value : Action → String
action_value Action.tenant_read = "tenant.read"
action_value Action.tenant_update = "tenant.update"
action_value Action.department_read = "department.read"
action_value Action.department_manage = "department.manage"
action_value Action.membership_read = "membership.read"
action_value Action.membership_invite = "membership.invite"
action_value Action.membership_update = "membership.update"
action_value Action.membership_revoke = "membership.revoke"
action_value Action.role_read = "role.read"
action_value Action.role_assign = "role.assign"
action_value Action.external_service_enable = "external_service.enable"
action_value Action.tenant_application_read = "tenant_application.read"
action_value Action.tenant_application_review = "tenant_application.review"
action_value Action.platform_admin_bootstrap = "platform_admin.bootstrap"

-- `action in _PLATFORM_ACTIONS`
abbrev pub is_platform_action : Action → Bool
is_platform_action Action.tenant_application_read = true
is_platform_action Action.tenant_application_review = true
is_platform_action Action.platform_admin_bootstrap = true
is_platform_action _ = false

abbrev pub is_external_service_enable : Action → Bool
is_external_service_enable Action.external_service_enable = true
is_external_service_enable _ = false

-- `Action.audit_required`: the members of `_AUDITED_ACTIONS`.
unfoldable pub audit_required : Action → Bool
audit_required Action.tenant_read = false
audit_required Action.department_read = false
audit_required Action.membership_read = false
audit_required Action.role_read = false
audit_required _ = true

-- `_KNOWN_PERMISSION_CODES`
abbrev pub known_permission_codes : List String
known_permission_codes =
    "tenant.read" ∷ "tenant.update" ∷ "department.read" ∷ "department.manage" ∷ "membership.read"
    ∷ "membership.invite" ∷ "membership.update" ∷ "membership.revoke" ∷ "role.read" ∷ "role.assign"
    ∷ "external_service.enable" ∷ "tenant_application.read" ∷ "tenant_application.review"
    ∷ "platform_admin.bootstrap" ∷ []

-- `_KNOWN_ROLE_CODES`
abbrev pub known_role_codes : List String
known_role_codes =
    "tenant_owner" ∷ "tenant_admin" ∷ "department_admin" ∷ "lawyer_or_legal" ∷ "assistant"
    ∷ "teacher" ∷ "student" ∷ "external_client" ∷ "super_admin" ∷ "security_auditor"
    ∷ "operations_support" ∷ "content_operator" ∷ []

pub data PrincipalAudience : Type 0 where
  tenant platform : PrincipalAudience

abbrev pub is_tenant_audience : PrincipalAudience → Bool
is_tenant_audience PrincipalAudience.tenant = true
is_tenant_audience PrincipalAudience.platform = false

pub data ResourceAccessPath : Type 0 where
  department owner shared matter_team class client_delegation : ResourceAccessPath

pub data ResourceState : Type 0 where
  active draft pending_review approved disabled deleted revoked closed : ResourceState

-- `state in _TERMINAL_RESOURCE_STATES`
abbrev pub is_terminal_state : ResourceState → Bool
is_terminal_state ResourceState.disabled = true
is_terminal_state ResourceState.deleted = true
is_terminal_state ResourceState.revoked = true
is_terminal_state ResourceState.closed = true
is_terminal_state _ = false

pub data ConfidentialityLevel : Type 0 where
  public internal confidential restricted : ConfidentialityLevel

-- `_CONFIDENTIALITY_RANK`
abbrev pub confidentiality_rank : ConfidentialityLevel → ℕ
confidentiality_rank ConfidentialityLevel.public = 0
confidentiality_rank ConfidentialityLevel.internal = 1
confidentiality_rank ConfidentialityLevel.confidential = 2
confidentiality_rank ConfidentialityLevel.restricted = 3

pub record AuthorizationScope : Type 0 where
  pub department_ids : List Uuid
  pub allow_tenant_wide : Bool
  pub allow_owned : Bool
  pub allow_shared : Bool
  pub allow_matter_team : Bool
  pub allow_class : Bool
  pub allow_client_delegation : Bool
  pub maximum_confidentiality : ConfidentialityLevel
  pub unrecognized_scope_codes : List String

pub record TenantContext : Type 0 where
  pub tenant_id : Uuid
  pub membership_id : Option Uuid
  pub membership_user_id : Option Uuid
  pub department_id : Option Uuid
  pub tenant_status : TenantStatus
  pub membership_status : Option MembershipStatus
  pub valid_from : Option DateTime
  pub valid_until : Option DateTime
  pub authz_version : Option ℕ
  pub session_authz_version : Option ℕ
  pub scope : AuthorizationScope

pub record Principal : Type 0 where
  pub user_id : Uuid
  pub session_id : Uuid
  pub audience : PrincipalAudience
  pub tenant_id : Option Uuid
  pub membership_id : Option Uuid
  pub user_status : String
  pub session_valid : Bool
  pub auth_version : ℕ
  pub session_auth_version : ℕ
  pub permissions : List String
  pub role_codes : List String
  pub authenticated_at : DateTime

pub record ResourceAttributes : Type 0 where
  pub tenant_id : Uuid
  pub state : ResourceState
  pub access_paths : List ResourceAccessPath
  pub department_id : Option Uuid
  pub owner_user_id : Option Uuid
  pub shared_with_membership_ids : List Uuid
  pub matter_team_membership_ids : List Uuid
  pub class_membership_ids : List Uuid
  pub delegated_client_membership_ids : List Uuid
  pub confidentiality : ConfidentialityLevel
  pub approval_status : Option String
  pub unrecognized_fields : List String

pub record AuthorizationDecision : Type 0 where
  pub allowed : Bool
  pub reason_code : String
  pub policy_version : String
  pub audit_required : Bool
