-- ===== src/Authz/Permits.antt =====
-- What the policy permits, check by check.
use lawyer_agent.Prelude.{
  ℕ, ◌≤◌, ◌<◌, ◌≡◌, refl, ◌↔◌, ◌⊎◌, ◌≢◌, Bool, true, false, Option, none, some, String, has_text,
  arith, all, any, none_or, eq_iff, ok,
}
use lawyer_agent.Common.{Uuid, DateTime, is_uuid7, is_utc}
use lawyer_agent.Tenancy.{TenantStatus, MembershipStatus}
use lawyer_agent.Authz.Request.{
  Action, Principal, PrincipalAudience, TenantContext, ResourceAttributes, is_platform_action,
  confidentiality_rank, action_value,
}
use lawyer_agent.Authz.Reasons.{
  reason_unless, ◌or_else◌, identity_reason, session_reason, tenant_match_reason,
  tenant_status_reason, membership_reason, permission_reason, scope_reason, audience_matches,
  validity_reason, expiry_reason, valid_resource_attributes, path_check, none_left,
  is_known_permission, is_known_role,
}

-- An active user whose session is valid and current.
pub record IsIdentified (p : Principal) : Type 0 where
  pub user_known : is_uuid7 p.user_id ≡ true
  pub user_active : p.user_status ≡ "active"
  pub authenticated_utc : is_utc p.authenticated_at ≡ true

pub record IsCurrent (p : Principal) (c : TenantContext) (now : DateTime) : Type 0 where
  pub session_known : is_uuid7 p.session_id ≡ true
  pub session_valid : p.session_valid ≡ true
  pub auth_positive : 1 ≤ p.auth_version
  pub auth_current : p.session_auth_version ≡ p.auth_version
  pub now_utc : is_utc now ≡ true
  pub authz_current :
      p.audience ≡ PrincipalAudience.tenant
      → (v : ℕ) × (1 ≤ v) × (c.authz_version ≡ some v) × (c.session_authz_version ≡ some v)

-- The resource is in the context's tenant, and so is the principal, under the context's membership;
-- a principal of the platform has no tenant, and acts on the platform alone.
pub record IsMatched (p : Principal) (c : TenantContext) (action : Action) (r : ResourceAttributes)
    : Type 0 where
  pub tenant_known : is_uuid7 c.tenant_id ≡ true
  pub department_known : none_or is_uuid7 c.department_id ≡ true
  pub same_tenant : r.tenant_id ≡ c.tenant_id
  pub tenant_side :
      p.audience ≡ PrincipalAudience.tenant
      → (is_platform_action action ≡ false)
        × (p.tenant_id ≡ some c.tenant_id)
        × (c.membership_user_id ≡ some p.user_id)
        × (is_uuid7 p.user_id ≡ true)
        × ((m : Uuid) × (is_uuid7 m ≡ true)
            × (p.membership_id ≡ some m)
            × (c.membership_id ≡ some m))
  pub platform_side :
      p.audience ≡ PrincipalAudience.platform
      → (is_platform_action action ≡ true)
        × (p.tenant_id ≡ none)
        × (p.membership_id ≡ none)
        × (c.membership_id ≡ none)
        × (c.membership_user_id ≡ none)
        × (c.department_id ≡ none)
        × (c.membership_status ≡ none)
        × (c.valid_from ≡ none)
        × (c.valid_until ≡ none)
        × (c.authz_version ≡ none)
        × (c.session_authz_version ≡ none)

abbrev pub IsOpen : TenantContext → Action → Type 0
IsOpen c action =
    (c.tenant_status ≡ TenantStatus.active)
    ⊎ ((c.tenant_status ≡ TenantStatus.pending_verification)
        × (action ≢ Action.external_service_enable))

-- The principal's membership is active at the time.
abbrev pub IsMember : Principal → TenantContext → DateTime → Type 0
IsMember p c now =
    p.audience ≡ PrincipalAudience.tenant
    → (c.membership_status ≡ some MembershipStatus.active)
      × ((from : DateTime) × (c.valid_from ≡ some from)
          × (is_utc from ≡ true)
          × (from.instant ≤ now.instant))
      × ((until : DateTime)
          → c.valid_until ≡ some until
          → (is_utc until ≡ true) × (now.instant < until.instant))

pub record IsGranted (p : Principal) (action : Action) : Type 0 where
  pub permissions_known : all is_known_permission p.permissions ≡ true
  pub roles_known : all is_known_role p.role_codes ≡ true
  pub granted : has_text (action_value action) p.permissions ≡ true

-- The resource is well-formed, no more confidential than the scope allows, and within its reach.
pub record IsReached (p : Principal) (c : TenantContext) (r : ResourceAttributes) : Type 0 where
  pub scope_known : none_left c.scope.unrecognized_scope_codes ≡ true
  pub fields_known : none_left r.unrecognized_fields ≡ true
  pub attributes_valid : valid_resource_attributes r ≡ true
  pub departments_known : all is_uuid7 c.scope.department_ids ≡ true
  pub confidentiality :
      confidentiality_rank r.confidentiality ≤ confidentiality_rank c.scope.maximum_confidentiality
  pub reached :
      p.audience ≡ PrincipalAudience.tenant
      → (c.scope.allow_tenant_wide ≡ true) ⊎ (any (path_check p c r) r.access_paths ≡ true)

unless_none : (b : Bool) (reason : String) → (reason_unless b reason ≡ none) ↔ (b ≡ true)
unless_none true reason = (λ e. refl, λ e. refl)
unless_none false reason = (λ e. cc, λ e. cc)

pub or_else-none : (a b : Option String) → ((a or_else b) ≡ none) ↔ ((a ≡ none) × (b ≡ none))
or_else-none none b = (λ e. (refl, e), λ (p, e). e)
or_else-none (some r) b = (λ e. cc, λ (p, e). cc)

pub identity_reason-none : (p : Principal) → (identity_reason p ≡ none) ↔ IsIdentified p
unfolding identity_reason
identity_reason-none p = ground (arith, eq_iff p.user_status "active")

pub session_reason-none :
    (p : Principal) (c : TenantContext) (now : DateTime)
    → (session_reason p c now ≡ none) ↔ IsCurrent p c now
unfolding session_reason
session_reason-none p c now = ground arith

pub tenant_match_reason-none :
    (p : Principal) (c : TenantContext) (action : Action) (r : ResourceAttributes)
    → IsIdentified p
    → (tenant_match_reason p c action r ≡ none) ↔ IsMatched p c action r
unfolding tenant_match_reason audience_matches
tenant_match_reason-none p c action r known = ground arith

pub tenant_status_reason-none :
    (c : TenantContext) (action : Action) → (tenant_status_reason c action ≡ none) ↔ IsOpen c action
unfolding tenant_status_reason
tenant_status_reason-none c action = ground arith

-- A membership without an end, or with one that is yet to come.
abbrev Lasts : Option DateTime → DateTime → Type 0
Lasts o now =
    (until : DateTime) → o ≡ some until → (is_utc until ≡ true) × (now.instant < until.instant)

expiry_reason-none :
    (o : Option DateTime) (now : DateTime) → (expiry_reason o now ≡ ok none) ↔ Lasts o now
unfolding expiry_reason
expiry_reason-none none now = (λ e until f. cc, λ h. refl)
expiry_reason-none (some until) now =
    (λ e u f. ground (arith, e, f), λ h. ground (arith, h until refl))

pub membership_reason-none :
    (p : Principal) (c : TenantContext) (now : DateTime)
    → (membership_reason p c now ≡ ok none) ↔ IsMember p c now
unfolding membership_reason validity_reason
membership_reason-none p c now = (
  λ e t. (
    ground (arith, e, t),
    ground (arith, e, t),
    (expiry_reason-none c.valid_until now).0 (ground (arith, e, t)),
  ),
  λ h.
      elim p.audience as (λ a. p.audience ≡ a → membership_reason p c now ≡ ok none) [
        | PrincipalAudience.platform ↦ λ a. ground (arith, a)
        | PrincipalAudience.tenant ↦ λ a.
            let (active, since, last) = h a in
            ground (arith, a, active, since, (expiry_reason-none c.valid_until now).1 last)
      ]
        refl,
)

pub permission_reason-none :
    (p : Principal) (action : Action) → (permission_reason p action ≡ none) ↔ IsGranted p action
unfolding permission_reason
permission_reason-none p action = ground arith

pub scope_reason-none :
    (p : Principal) (c : TenantContext) (r : ResourceAttributes)
    → (scope_reason p c r ≡ none) ↔ IsReached p c r
unfolding scope_reason
scope_reason-none p c r = ground arith
