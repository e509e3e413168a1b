-- ===== src/Authz/Reasons.antt =====
-- The reasons to deny, each a check that returns the code of its reason or none.
use lawyer_agent.Prelude.{
  ℕ, Bool, true, false, not, ◌&&◌, ◌||◌, Option, none, some, List, [], ◌∷◌, String, ◌==◌, leb, ltb,
  any, all, member, is_none, none_or, has_text, str_eq, if◌then◌else◌, Result, ok, err, guard, ◌>>◌,
}
use lawyer_agent.Common.{Uuid, DateTime, is_uuid7, is_utc}
use lawyer_agent.Tenancy.{TenantStatus, MembershipStatus, is_active_status}
use lawyer_agent.Authz.Request.{
  Action, Principal, PrincipalAudience, TenantContext, ResourceAttributes, ResourceAccessPath,
  action_value, is_platform_action, is_external_service_enable, is_tenant_audience,
  is_terminal_state, confidentiality_rank, known_permission_codes, known_role_codes,
}

-- `if not test: return reason`, with `None` at the end.
abbrev pub reason_unless : Bool → String → Option String
reason_unless true reason = none
reason_unless false reason = some reason

-- The first of two checks that finds a reason.
infixr 4 ◌or_else◌
abbrev pub ◌or_else◌ : Option String → Option String → Option String
some reason or_else next = some reason
none or_else next = next

-- `is_uuid7(value)` of a value that may be missing.
abbrev pub some_uuid7 : Option Uuid → Bool
some_uuid7 none = false
some_uuid7 (some n) = is_uuid7 n

-- `_positive_int(value)` of a value that may be missing.
abbrev pub some_positive : Option ℕ → Bool
some_positive none = false
some_positive (some n) = leb 1 n

-- `left == right` of values that may be missing.
abbrev pub same_value : Option ℕ → Option ℕ → Bool
same_value none none = true
same_value (some a) (some b) = a == b
same_value _ _ = false

abbrev pub none_left {ℓ} : {A : Type ℓ} → List A → Bool
none_left [] = true
none_left (_ ∷ _) = false

-- `value in values` of a value that may be missing.
abbrev pub some_member : Option Uuid → List Uuid → Bool
some_member none values = false
some_member (some n) values = member n values

-- `_identity_reason`
unfoldable pub identity_reason : Principal → Option String
identity_reason p =
    reason_unless (is_uuid7 p.user_id && str_eq p.user_status "active" && is_utc p.authenticated_at)
      "identity_invalid"

-- `_session_reason`
unfoldable pub session_reason : Principal → TenantContext → DateTime → Option String
session_reason p c now =
    reason_unless
      (is_uuid7 p.session_id
        && p.session_valid
        && leb 1 p.auth_version
        && leb 1 p.session_auth_version
        && p.auth_version == p.session_auth_version
        && is_utc now)
      "session_invalid"
    or_else reason_unless
        (not (is_tenant_audience p.audience)
          || (some_positive c.authz_version
              && some_positive c.session_authz_version
              && same_value c.authz_version c.session_authz_version))
        "session_invalid"

-- The branches of `_tenant_match_reason` by audience.
unfoldable pub audience_matches : Principal → TenantContext → Action → Bool
audience_matches p c action = elim p.audience [
  | PrincipalAudience.tenant ↦
      not (is_platform_action action)
      && some_uuid7 p.tenant_id
      && some_uuid7 p.membership_id
      && some_uuid7 c.membership_id
      && some_uuid7 c.membership_user_id
      && same_value p.tenant_id (some c.tenant_id)
      && same_value p.membership_id c.membership_id
      && same_value c.membership_user_id (some p.user_id)
  | PrincipalAudience.platform ↦
      is_platform_action action
      && is_none p.tenant_id
      && is_none p.membership_id
      && is_none c.membership_id
      && is_none c.membership_user_id
      && is_none c.department_id
      && is_none c.membership_status
      && is_none c.valid_from
      && is_none c.valid_until
      && is_none c.authz_version
      && is_none c.session_authz_version
]

-- `_tenant_match_reason`
unfoldable pub tenant_match_reason :
    Principal → TenantContext → Action → ResourceAttributes → Option String
unfolding audience_matches
tenant_match_reason p c action r =
    reason_unless
      (is_uuid7 c.tenant_id
        && none_or is_uuid7 c.department_id
        && is_uuid7 r.tenant_id
        && r.tenant_id == c.tenant_id)
      "tenant_mismatch"
    or_else reason_unless (audience_matches p c action) "tenant_mismatch"

-- `_tenant_status_reason`
unfoldable pub tenant_status_reason : TenantContext → Action → Option String
tenant_status_reason c action = elim c.tenant_status [
  | TenantStatus.active ↦ none
  | TenantStatus.pending_verification ↦
      reason_unless (not (is_external_service_enable action)) "tenant_status_denied"
  | _ ↦ some "tenant_status_denied"
]

abbrev is_active_member : Option MembershipStatus → Bool
is_active_member none = false
is_active_member (some s) = is_active_status s

-- The end of the membership: `raise ValueError` when it is not in UTC.
unfoldable pub expiry_reason : Option DateTime → DateTime → Result String (Option String)
expiry_reason none now = ok none
expiry_reason (some until) now = do
  guard (is_utc until) "invalid membership timestamp"
  ok (reason_unless (ltb now.instant until.instant) "membership_expired")

unfoldable pub validity_reason : TenantContext → DateTime → Result String (Option String)
unfolding expiry_reason
validity_reason c now = elim c.valid_from [
  | none ↦ err "invalid membership timestamp"
  | some from ↦
      guard (is_utc from) "invalid membership timestamp"
      >> (if leb from.instant now.instant
          then expiry_reason c.valid_until now
          else ok (some "membership_not_yet_valid"))
]

-- `_membership_reason`
unfoldable pub membership_reason :
    Principal → TenantContext → DateTime → Result String (Option String)
unfolding validity_reason
membership_reason p c now =
    let validity = validity_reason c now in
    if not (is_tenant_audience p.audience)
    then ok none
    else (if is_active_member c.membership_status
        then validity
        else ok (some "membership_inactive"))

abbrev pub is_known_permission : String → Bool
is_known_permission code = has_text code known_permission_codes

abbrev pub is_known_role : String → Bool
is_known_role code = has_text code known_role_codes

-- `_permission_reason`
unfoldable pub permission_reason : Principal → Action → Option String
unfolding action_value
permission_reason p action =
    reason_unless (all is_known_permission p.permissions) "unknown_permission"
    or_else reason_unless (all is_known_role p.role_codes) "unknown_role"
    or_else reason_unless (has_text (action_value action) p.permissions) "permission_denied"

abbrev pub approval_statuses : List String
approval_statuses = "draft" ∷ "pending_review" ∷ "changes_requested" ∷ "approved" ∷ "rejected" ∷ []

abbrev is_approval_status : String → Bool
is_approval_status status = has_text status approval_statuses

-- `_valid_resource_attributes`
unfoldable pub valid_resource_attributes : ResourceAttributes → Bool
valid_resource_attributes r =
    none_or is_uuid7 r.department_id
    && none_or is_uuid7 r.owner_user_id
    && all is_uuid7 r.shared_with_membership_ids
    && all is_uuid7 r.matter_team_membership_ids
    && all is_uuid7 r.class_membership_ids
    && all is_uuid7 r.delegated_client_membership_ids
    && none_or is_approval_status r.approval_status

-- The entry of `checks` under a path.
unfoldable pub path_check :
    Principal → TenantContext → ResourceAttributes → ResourceAccessPath → Bool
path_check p c r ResourceAccessPath.department = some_member r.department_id c.scope.department_ids
path_check p c r ResourceAccessPath.owner =
    c.scope.allow_owned && same_value r.owner_user_id (some p.user_id)
path_check p c r ResourceAccessPath.shared =
    c.scope.allow_shared && some_member c.membership_id r.shared_with_membership_ids
path_check p c r ResourceAccessPath.matter_team =
    c.scope.allow_matter_team && some_member c.membership_id r.matter_team_membership_ids
path_check p c r ResourceAccessPath.class =
    c.scope.allow_class && some_member c.membership_id r.class_membership_ids
path_check p c r ResourceAccessPath.client_delegation =
    c.scope.allow_client_delegation && some_member c.membership_id r.delegated_client_membership_ids

-- `_scope_reason`
unfoldable pub scope_reason : Principal → TenantContext → ResourceAttributes → Option String
unfolding valid_resource_attributes path_check
scope_reason p c r =
    reason_unless (none_left c.scope.unrecognized_scope_codes) "unknown_scope"
    or_else reason_unless (none_left r.unrecognized_fields) "unknown_resource_attributes"
    or_else reason_unless (valid_resource_attributes r) "unknown_resource_attributes"
    or_else reason_unless (all is_uuid7 c.scope.department_ids) "unknown_scope"
    or_else reason_unless
        (leb (confidentiality_rank r.confidentiality)
          (confidentiality_rank c.scope.maximum_confidentiality))
        "resource_scope_denied"
    or_else reason_unless
        (not (is_tenant_audience p.audience)
          || c.scope.allow_tenant_wide
          || any (path_check p c r) r.access_paths)
        "resource_scope_denied"

-- `_resource_state_reason`
unfoldable pub resource_state_reason : ResourceAttributes → Option String
resource_state_reason r = reason_unless (not (is_terminal_state r.state)) "resource_state_denied"
