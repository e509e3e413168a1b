-- ===== src/JobService/Permissions.antt =====
-- What it takes of the role tables that a membership has a permission: the joins of
-- `SqlAlchemyAIJobAuthorityLoader.load` (infrastructure/persistence/repositories/ai_jobs.py).
use mathlib.Core.Path.{subst}
use mathlib.Core.List.{Memᴰ as Mem}
use lawyer_agent.Prelude.{
  ◌≡◌, refl, sym, ap, ◌∙◌, ◌⊎◌, inl, inr, Bool, true, ◌&&◌, Option, none, some, String, List, [],
  ◌∷◌, ◌++◌, map, keep, ◌==◌, arith, Bool-cases, str_eq, eq_iff, has_text,
}
use lawyer_agent.Common.{Uuid}
use lawyer_agent.JobStore.Lookup.{some-inside}
use lawyer_agent.JobService.Roles.{
  RoleRow, AssignmentRow, RolePermissionRow, PermissionRow, RoleTables, role_rows, granted_codes,
  concat_map, or_none, code_of, permission_codes_of, is_assignment, is_permission_of, rows_of_role,
}

-- An active role of the tenant, assigned to the membership, and an active permission of that role.
pub record IsPermitted (tables : RoleTables) (tenant_id membership_id : Uuid) (code : String)
    : Type 0 where
  pub role : RoleRow
  pub role_stands : Mem role tables.roles
  pub role_tenant : role.tenant_id ≡ tenant_id
  pub role_active : role.active ≡ true
  pub assignment : AssignmentRow
  pub assigned : Mem assignment tables.assignments
  pub assigned_tenant : assignment.tenant_id ≡ tenant_id
  pub assigned_role : assignment.tenant_role_id ≡ role.id
  pub assigned_membership : assignment.membership_id ≡ membership_id
  pub entry : RolePermissionRow
  pub entered : Mem entry tables.role_permissions
  pub entry_tenant : entry.tenant_id ≡ tenant_id
  pub entry_role : entry.tenant_role_id ≡ role.id
  pub permission : PermissionRow
  pub permission_stands : Mem permission tables.permissions
  pub permission_entry : permission.id ≡ entry.permission_id
  pub permission_active : permission.active ≡ true
  pub permission_code : permission.code ≡ code

Mem-nil {ℓ κ} : {A : Type ℓ} {P : Type κ} (a : A) → Mem a [] → P
Mem-nil a m = elim m [ ]

Mem-cons {ℓ} : {A : Type ℓ} (a x : A) (xs : List A) → Mem a (x ∷ xs) → (a ≡ x) ⊎ Mem a xs
Mem-cons a x xs (Mem.head e) = inl e
Mem-cons a x xs (Mem.tail m) = inr m

Mem-append {ℓ} : {A : Type ℓ} (a : A) (xs ys : List A) → Mem a (xs ++ ys) → Mem a xs ⊎ Mem a ys
Mem-append a [] ys m = inr m
Mem-append a (x ∷ xs) ys (Mem.head e) = inl (Mem.head e)
Mem-append a (x ∷ xs) ys (Mem.tail m) = elim (Mem-append a xs ys m) [
  | inl l ↦ inl (Mem.tail l)
  | inr r ↦ inr r
]

keep-Mem {ℓ} :
    {A : Type ℓ} (test : A → Bool) (xs : List A) (a : A)
    → Mem a (keep test xs)
    → Mem a xs × (test a ≡ true)
keep-Mem test [] a m = Mem-nil a m
keep-Mem test (x ∷ xs) a m = elim (Bool-cases (test x)) [
  | inl t ↦ elim (Mem-cons a x (keep test xs) (rw t at m)) [
    | inl e ↦ (Mem.head e, ap test e ∙ t)
    | inr l ↦ let (there, holds) = keep-Mem test xs a l in (Mem.tail there, holds)
  ]
  | inr f ↦ let (there, holds) = keep-Mem test xs a (rw f at m) in (Mem.tail there, holds)
]

map-Mem {ℓ κ} :
    {A : Type ℓ} {B : Type κ} (f : A → B) (xs : List A) (b : B)
    → Mem b (map f xs)
    → (a : A) × Mem a xs × (b ≡ f a)
map-Mem f [] b m = Mem-nil b m
map-Mem f (x ∷ xs) b (Mem.head e) = (x, Mem.head refl, e)
map-Mem f (x ∷ xs) b (Mem.tail m) = let (a, there, e) = map-Mem f xs b m in (a, Mem.tail there, e)

concat_map-Mem {ℓ κ} :
    {A : Type ℓ} {B : Type κ} (f : A → List B) (xs : List A) (b : B)
    → Mem b (concat_map f xs)
    → (a : A) × Mem a xs × Mem b (f a)
concat_map-Mem f [] b m = Mem-nil b m
concat_map-Mem f (x ∷ xs) b m = elim (Mem-append b (f x) (concat_map f xs) m) [
  | inl l ↦ (x, Mem.head refl, l)
  | inr r ↦ let (a, there, e) = concat_map-Mem f xs b r in (a, Mem.tail there, e)
]

or_none-Mem {ℓ} : {A : Type ℓ} (xs : List A) (a : A) → Mem (some a) (or_none xs) → Mem a xs
or_none-Mem [] a (Mem.head e) = cc
or_none-Mem [] a (Mem.tail m) = Mem-nil (some a) m
or_none-Mem (x ∷ xs) a (Mem.head e) = Mem.head (some-inside a x e)
or_none-Mem (x ∷ xs) a (Mem.tail m) =
    let (y, there, e) = map-Mem some xs (some a) m in
    Mem.tail (subst (λ z. Mem z xs) (sym (some-inside a y e)) there)

-- A code that was granted stands in a row of the query.
granted_codes-Mem :
    (code : String) (rows : List (String × Option String))
    → has_text code (granted_codes rows) ≡ true
    → (row : String × Option String) × Mem row rows × (row.1 ≡ some code)
granted_codes-Mem code [] h = cc
granted_codes-Mem code ((role, none) ∷ rows) h =
    let (row, there, e) = granted_codes-Mem code rows h in (row, Mem.tail there, e)
granted_codes-Mem code ((role, some c) ∷ rows) h = elim (Bool-cases (str_eq c code)) [
  | inl t ↦ ((role, some c), Mem.head refl, ap some ((eq_iff c code).0 t))
  | inr f ↦
      let (row, there, e) = granted_codes-Mem code rows (rw f at h) in (row, Mem.tail there, e)
]

coded :
    (o : Option PermissionRow) (code : String)
    → some code ≡ code_of o
    → (q : PermissionRow) × (o ≡ some q) × (q.code ≡ code)
coded none code e = cc
coded (some q) code e = (q, refl, sym (some-inside code q.code e))

-- A row with a permission comes from an entry of the role and an active permission.
permission_codes_of-Mem :
    (permissions : List PermissionRow) (o : Option RolePermissionRow) (code : String)
    → Mem (some code) (permission_codes_of permissions o)
    → (p : RolePermissionRow) × (o ≡ some p)
      × (q : PermissionRow) × Mem q permissions
      × ((q.id == p.permission_id && q.active) ≡ true)
      × (q.code ≡ code)
permission_codes_of-Mem permissions none code (Mem.head e) = cc
permission_codes_of-Mem permissions none code (Mem.tail m) = Mem-nil (some code) m
permission_codes_of-Mem permissions (some p) code m =
    let (o, there, e) =
      map-Mem code_of (or_none (keep (λ q. q.id == p.permission_id && q.active) permissions))
        (some code) m in
    let (q, is, named) = coded o code e in
    let (stands, active) =
      keep-Mem (λ q. q.id == p.permission_id && q.active) permissions q
        (or_none-Mem (keep (λ q. q.id == p.permission_id && q.active) permissions) q (
          subst (λ x. Mem x (or_none (keep (λ q. q.id == p.permission_id && q.active) permissions)))
            is there)) in
    (p, refl, q, stands, active, named)

pub granted-IsPermitted :
    (tables : RoleTables) (tenant_id membership_id : Uuid) (code : String)
    → has_text code (granted_codes (role_rows tables tenant_id membership_id)) ≡ true
    → IsPermitted tables tenant_id membership_id code
unfolding role_rows
granted-IsPermitted tables tenant_id membership_id code h =
    let (row, there, named) = granted_codes-Mem code _ h in
    let (role, in_active, in_role) =
      concat_map-Mem (rows_of_role tables membership_id)
        (keep (λ r. r.tenant_id == tenant_id && r.active) tables.roles) row there in
    let (role_stands, active) =
      keep-Mem (λ r. r.tenant_id == tenant_id && r.active) tables.roles role in_active in
    let (assignment, in_assigned, in_entries) =
      concat_map-Mem
        (λ a.
          concat_map (λ p. map (λ c. (role.code, c)) (permission_codes_of tables.permissions p))
            (or_none (keep (is_permission_of role) tables.role_permissions)))
        (keep (is_assignment role membership_id) tables.assignments) row in_role in
    let (assigned, is_assigned) =
      keep-Mem (is_assignment role membership_id) tables.assignments assignment in_assigned in
    let (o, in_outer, in_codes) =
      concat_map-Mem (λ p. map (λ c. (role.code, c)) (permission_codes_of tables.permissions p))
        (or_none (keep (is_permission_of role) tables.role_permissions)) row in_entries in
    let (c, in_permissions, pair) =
      map-Mem (λ c. (role.code, c)) (permission_codes_of tables.permissions o) row in_codes in
    let coded_by : c ≡ some code = sym (ap (λ x. x.1) pair) ∙ named in
    let (entry, is_entry, permission, stands, of_entry, is_code) =
      permission_codes_of-Mem tables.permissions o code
        (subst (λ x. Mem x (permission_codes_of tables.permissions o)) coded_by in_permissions) in
    let (entered, is_entered) = keep-Mem (is_permission_of role) tables.role_permissions entry (
      or_none-Mem (keep (is_permission_of role) tables.role_permissions) entry (
        subst (λ x. Mem x (or_none (keep (is_permission_of role) tables.role_permissions))) is_entry
          in_outer)) in
    record {
      role = role;
      role_stands = role_stands;
      role_tenant = ground arith;
      role_active = ground arith;
      assignment = assignment;
      assigned = assigned;
      assigned_tenant = ground arith;
      assigned_role = ground arith;
      assigned_membership = ground arith;
      entry = entry;
      entered = entered;
      entry_tenant = ground arith;
      entry_role = ground arith;
      permission = permission;
      permission_stands = stands;
      permission_entry = ground arith;
      permission_active = ground arith;
      permission_code = is_code;
    }
