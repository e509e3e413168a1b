-- ===== src/Tenancy.antt =====
-- Tenants, memberships and the context of a request: backend/src/lawyer_agent/domain/tenancy.py.
use lawyer_agent.Prelude.{
  ℕ, Bool, true, false, not, Option, String, is_blank, text_length, leb, ltb, Result, guard,
  check_optional, ◌>>◌, ◌||◌, has_text, [], ◌∷◌,
}
use lawyer_agent.Common.{Uuid, DateTime, is_utc, is_uuid7}

pub data TenantStatus : Type 0 where
  pending_verification active suspended closed : TenantStatus

pub data DepartmentStatus : Type 0 where
  active disabled : DepartmentStatus

pub data MembershipStatus : Type 0 where
  invited active suspended revoked : MembershipStatus

pub data MemberType : Type 0 where
  owner internal student external_client : MemberType

-- `context.membership_status is MembershipStatus.ACTIVE`, for a status that may be missing.
abbrev pub is_active_status : MembershipStatus → Bool
is_active_status MembershipStatus.active = true
is_active_status _ = false

-- `_require_uuid7`, `_require_utc`, `_require_version`, `_require_text`
unfoldable pub need_uuid7 : Uuid → Result String (Unit {0})
need_uuid7 n = guard (is_uuid7 n) "identifier must be an RFC 9562 UUIDv7"

unfoldable pub need_utc : DateTime → Result String (Unit {0})
need_utc t = guard (is_utc t) "timestamp must be UTC-aware"

unfoldable pub need_version : ℕ → Result String (Unit {0})
need_version n = guard (leb 1 n) "version must be a positive integer"

unfoldable pub need_text : String → String → Result String (Unit {0})
need_text text message = guard (not (is_blank text || ltb 255 (text_length text))) message

pub record Tenant : Type 0 where
  pub id : Uuid
  pub name : String
  pub normalized_name : String
  pub tenant_type : String
  pub status : TenantStatus
  pub version : ℕ
  pub created_by_user_id : Uuid
  pub review_status : String

unfoldable pub check_tenant : Tenant → Result String (Unit {0})
unfolding need_uuid7 need_text need_version
check_tenant t = do
  need_uuid7 t.id
  need_text t.name "tenant name is invalid"
  need_text t.normalized_name "normalized tenant name is invalid"
  guard (has_text t.tenant_type ("law_firm" ∷ "enterprise" ∷ "university" ∷ []))
      "unknown tenant type"
  need_version t.version
  need_uuid7 t.created_by_user_id
  guard (has_text t.review_status ("pending" ∷ "approved" ∷ "rejected" ∷ []))
      "unknown tenant review status"

pub record Department : Type 0 where
  pub id : Uuid
  pub tenant_id : Uuid
  pub parent_id : Option Uuid
  pub name : String
  pub status : DepartmentStatus
  pub version : ℕ

unfoldable pub check_department : Department → Result String (Unit {0})
unfolding need_uuid7 need_text need_version
check_department d = do
  need_uuid7 d.id
  need_uuid7 d.tenant_id
  check_optional need_uuid7 d.parent_id
  need_text d.name "department name is invalid"
  need_version d.version

pub record Membership : Type 0 where
  pub id : Uuid
  pub tenant_id : Uuid
  pub user_id : Uuid
  pub department_id : Option Uuid
  pub member_type : MemberType
  pub status : MembershipStatus
  pub valid_from : DateTime
  pub valid_until : Option DateTime
  pub authz_version : ℕ
  pub version : ℕ

-- The check of `valid_until` against `valid_from`.
abbrev pub check_window : DateTime → DateTime → Result String (Unit {0})
check_window valid_from valid_until = do
  need_utc valid_until
  guard (ltb valid_from.instant valid_until.instant) "membership validity window is invalid"

unfoldable pub check_membership : Membership → Result String (Unit {0})
unfolding need_uuid7 need_utc need_version
check_membership m = do
  need_uuid7 m.id
  need_uuid7 m.tenant_id
  need_uuid7 m.user_id
  check_optional need_uuid7 m.department_id
  need_utc m.valid_from
  check_optional (check_window m.valid_from) m.valid_until
  need_version m.authz_version
  need_version m.version
