-- ===== src/JobService/Roles.antt =====
-- The joins over the role tables: `lookup_membership_permissions` and the query of
-- `SqlAlchemyAIJobAuthorityLoader.load` (infrastructure/persistence/repositories/ai_jobs.py).
use lawyer_agent.Prelude.{
  Bool, ◌&&◌, Option, none, some, String, List, [], ◌∷◌, ◌++◌, map, keep, ◌==◌, Result, ok, ◌>>◌,
}
use lawyer_agent.Common.{Uuid}
use lawyer_agent.AiJobs.Records.{check_uuid7}

-- `TenantRoleModel`
pub record RoleRow : Type 0 where
  pub tenant_id : Uuid
  pub id : Uuid
  pub code : String
  pub active : Bool

-- `MembershipRoleAssignmentModel`
pub record AssignmentRow : Type 0 where
  pub tenant_id : Uuid
  pub tenant_role_id : Uuid
  pub membership_id : Uuid

-- `TenantRolePermissionModel`
pub record RolePermissionRow : Type 0 where
  pub tenant_id : Uuid
  pub tenant_role_id : Uuid
  pub permission_id : Uuid

-- `PermissionModel`
pub record PermissionRow : Type 0 where
  pub id : Uuid
  pub code : String
  pub active : Bool

pub record RoleTables : Type 0 where
  pub roles : List RoleRow
  pub assignments : List AssignmentRow
  pub role_permissions : List RolePermissionRow
  pub permissions : List PermissionRow

abbrev pub concat_map {ℓ κ} : {A : Type ℓ} {B : Type κ} → (A → List B) → List A → List B
concat_map f [] = []
concat_map f (x ∷ xs) = f x ++ concat_map f xs

-- An outer join: the row without a partner stays.
abbrev pub or_none {ℓ} : {A : Type ℓ} → List A → List (Option A)
or_none [] = none ∷ []
or_none (x ∷ xs) = some x ∷ map some xs

abbrev pub code_of : Option PermissionRow → Option String
code_of none = none
code_of (some q) = some q.code

-- The active permission of a role's permission, by an outer join.
abbrev pub permission_codes_of :
    List PermissionRow → Option RolePermissionRow → List (Option String)
permission_codes_of permissions none = none ∷ []
permission_codes_of permissions (some p) =
    map code_of (or_none (keep (λ q. q.id == p.permission_id && q.active) permissions))

abbrev pub is_assignment : RoleRow → Uuid → AssignmentRow → Bool
is_assignment role membership_id a =
    a.tenant_id == role.tenant_id && a.tenant_role_id == role.id && a.membership_id == membership_id

abbrev pub is_permission_of : RoleRow → RolePermissionRow → Bool
is_permission_of role p = p.tenant_id == role.tenant_id && p.tenant_role_id == role.id

-- The rows of one role: its code with each of its active permissions, or alone.
abbrev pub rows_of_role : RoleTables → Uuid → RoleRow → List (String × Option String)
rows_of_role tables membership_id role =
    concat_map
      (λ a.
        concat_map (λ p. map (λ code. (role.code, code)) (permission_codes_of tables.permissions p))
          (or_none (keep (is_permission_of role) tables.role_permissions)))
      (keep (is_assignment role membership_id) tables.assignments)

-- SELECT role and permission codes of a membership, through the active roles of its tenant.
unfoldable pub role_rows : RoleTables → Uuid → Uuid → List (String × Option String)
role_rows tables tenant_id membership_id =
    concat_map (rows_of_role tables membership_id)
      (keep (λ r. r.tenant_id == tenant_id && r.active) tables.roles)

-- `frozenset(row[1] for row in role_rows if row[1] is not None)`
abbrev pub granted_codes : List (String × Option String) → List String
granted_codes [] = []
granted_codes ((role, none) ∷ rows) = granted_codes rows
granted_codes ((role, some code) ∷ rows) = code ∷ granted_codes rows

unfoldable pub lookup_membership_permissions :
    Uuid → Uuid → RoleTables → Result String (List String)
unfolding check_uuid7 role_rows
lookup_membership_permissions tenant_id membership_id tables = do
  check_uuid7 "membership tenant_id" tenant_id
  check_uuid7 "membership id" membership_id
  ok (granted_codes (role_rows tables tenant_id membership_id))
