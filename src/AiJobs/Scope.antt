-- ===== src/AiJobs/Scope.antt =====
-- Which jobs a role may reach (domain/ai_jobs.py, application/ai_jobs.py, and `_resolve_scope` of
-- infrastructure/persistence/repositories/ai_jobs.py).
use lawyer_agent.Prelude.{
  Bool, true, false, not, ◌&&◌, ◌||◌, Option, none, some, List, [], ◌∷◌, String, any, is_none,
  has_text, str_eq, Result, ok, err, guard, ◌>>=◌, ◌>>◌, if◌then◌else◌,
}

pub data JobScopeCode : Type 0 where
  owner_shared tenant_wide : JobScopeCode

pub record JobAuthorizationScope : Type 0 where
  pub owner : Bool
  pub shared : Bool
  pub tenant_wide : Bool

abbrev pub scope_of : Bool → Bool → Bool → JobAuthorizationScope
scope_of o s t = record { owner = o; shared = s; tenant_wide = t }

-- `JobAuthorizationScope.scope_code`
unfoldable pub scope_code : JobAuthorizationScope → Result String JobScopeCode
scope_code scope =
    if scope.tenant_wide
    then (if scope.owner && scope.shared
        then ok JobScopeCode.tenant_wide
        else err "tenant-wide scope requires owner and shared access")
    else (if scope.owner && scope.shared
        then ok JobScopeCode.owner_shared
        else err "job authorization scope has no supported mapping")

-- `JOB_SCOPE_BY_ROLE`
abbrev pub job_scope_by_role : List (String × JobAuthorizationScope)
job_scope_by_role =
    ("tenant_owner", scope_of true true true)
    ∷ ("tenant_admin", scope_of true true true)
    ∷ ("department_admin", scope_of true true false)
    ∷ ("lawyer_or_legal", scope_of true true false)
    ∷ ("assistant", scope_of true true false)
    ∷ ("teacher", scope_of true true false)
    ∷ []

-- `JOB_SCOPE_BY_ROLE.get(role)`
abbrev pub scope_lookup :
    String → List (String × JobAuthorizationScope) → Option JobAuthorizationScope
scope_lookup role [] = none
scope_lookup role ((name, scope) ∷ rest) =
    if str_eq name role then some scope else scope_lookup role rest

unfoldable pub role_scope : String → Option JobAuthorizationScope
role_scope role = scope_lookup role job_scope_by_role

unfoldable pub scope_from_code : JobScopeCode → JobAuthorizationScope
scope_from_code JobScopeCode.tenant_wide = scope_of true true true
scope_from_code JobScopeCode.owner_shared = scope_of true true false

-- `[JOB_SCOPE_BY_ROLE[role] for role in role_codes if role in JOB_SCOPE_BY_ROLE]`
unfoldable pub known_scopes : List String → List JobAuthorizationScope
known_scopes [] = []
known_scopes (role ∷ roles) =
    let rest = known_scopes roles in elim (role_scope role) [ some s ↦ s ∷ rest | none ↦ rest ]

-- The union of the scopes, field by field.
unfoldable pub merge_scopes : List JobAuthorizationScope → JobAuthorizationScope
merge_scopes scopes = record {
  owner = any (λ s. s.owner) scopes;
  shared = any (λ s. s.shared) scopes;
  tenant_wide = any (λ s. s.tenant_wide) scopes;
}

abbrev pub is_unknown_role : String → Bool
is_unknown_role role = is_none (role_scope role)

abbrev pub no_roles : List String → Bool
no_roles [] = true
no_roles (_ ∷ _) = false

-- `JobAuthorizationResolver.resolve`; the denial carries its reason code.
unfoldable pub resolve : List String → List String → String → Result String JobAuthorizationScope
resolve permissions role_codes permission = do
  guard (has_text permission permissions) "permission_denied"
  guard (not (no_roles role_codes || any is_unknown_role role_codes)) "job_scope_unmapped"
  ok (merge_scopes (known_scopes role_codes))

-- The two returns of `_resolve_scope`.
unfoldable pub resolve_known :
    List JobAuthorizationScope → Bool → Result String (JobAuthorizationScope × JobScopeCode × Bool)
resolve_known [] unknown_or_mixed =
    ok (scope_of false false false, JobScopeCode.owner_shared, unknown_or_mixed)
resolve_known (s ∷ rest) unknown_or_mixed = do
  code ← scope_code (merge_scopes (s ∷ rest))
  ok (merge_scopes (s ∷ rest), code, unknown_or_mixed)

-- `_resolve_scope`: the scope, its code, and whether some role is unknown or none is given.
unfoldable pub resolve_scope :
    List String → Result String (JobAuthorizationScope × JobScopeCode × Bool)
unfolding resolve_known
resolve_scope role_codes =
    resolve_known (known_scopes role_codes) (no_roles role_codes || any is_unknown_role role_codes)
