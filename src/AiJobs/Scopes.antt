-- ===== src/AiJobs/Scopes.antt =====
-- Resolved scopes are those that the scope codes stand for.
use lawyer_agent.Prelude.{
  ◌≡◌, refl, sym, ◌⊎◌, inl, inr, Bool, true, false, ◌||◌, Option, none, some, List, [], ◌∷◌, String,
  any, All, str_eq, ok, Bool-cases, arith,
}
use lawyer_agent.AiJobs.Scope.{
  JobAuthorizationScope, JobScopeCode, scope_of, scope_code, scope_from_code, role_scope,
  known_scopes, scope_lookup, merge_scopes, resolve_known, resolve_scope, is_unknown_role, no_roles,
  job_scope_by_role,
}

-- The scopes of the table give access to owned and shared jobs.
abbrev Reaches : JobAuthorizationScope → Type 0
Reaches s = (s.owner ≡ true) × (s.shared ≡ true)

abbrev FoundReaches : Option JobAuthorizationScope → Type 0
FoundReaches none = Unit
FoundReaches (some s) = Reaches s

scope_lookup-Reaches :
    (role : String) (l : List (String × JobAuthorizationScope))
    → All (λ e. Reaches e.1) l
    → FoundReaches (scope_lookup role l)
scope_lookup-Reaches role [] h = tt
scope_lookup-Reaches role ((name, s) ∷ l) h = elim (Bool-cases (str_eq name role)) [
  | inl e ↦ rw e h.0
  | inr e ↦ rw e (scope_lookup-Reaches role l h.1)
]

role_scope-Reaches : (role : String) → FoundReaches (role_scope role)
unfolding role_scope
role_scope-Reaches role = scope_lookup-Reaches role job_scope_by_role (ground arith)

add_known :
    (o : Option JobAuthorizationScope) (l : List JobAuthorizationScope)
    → FoundReaches o
    → All Reaches l
    → All Reaches (elim o as (λ x. List JobAuthorizationScope) [ some s ↦ s ∷ l | none ↦ l ])
add_known none l h k = k
add_known (some s) l h k = (h, k)

known_scopes-Reaches : (roles : List String) → All Reaches (known_scopes roles)
unfolding known_scopes
known_scopes-Reaches [] = tt
known_scopes-Reaches (role ∷ roles) =
    add_known (role_scope role) (known_scopes roles) (role_scope-Reaches role)
      (known_scopes-Reaches roles)

-- A union of table scopes is the scope that its own code stands for.
merge_scopes-code :
    (s : JobAuthorizationScope) (rest : List JobAuthorizationScope)
    → All Reaches (s ∷ rest)
    → (code : JobScopeCode) × (scope_code (merge_scopes (s ∷ rest)) ≡ ok code)
      × (scope_from_code code ≡ merge_scopes (s ∷ rest))
unfolding scope_code merge_scopes scope_from_code
merge_scopes-code s rest h = elim (Bool-cases (s.tenant_wide || any (λ r. r.tenant_wide) rest)) [
  | inl wide ↦ (JobScopeCode.tenant_wide, ground arith, ground arith)
  | inr narrow ↦ (JobScopeCode.owner_shared, ground arith, ground arith)
]

abbrev Resolves : List JobAuthorizationScope → Bool → Type 0
Resolves l flag =
    (scope : JobAuthorizationScope) × (code : JobScopeCode) × (unknown : Bool) × (resolve_known l
        flag
      ≡ ok (scope, code, unknown))
    × (unknown ≡ flag)
    × ((scope ≡ scope_from_code code) ⊎ ((scope ≡ scope_of false false false) × (unknown ≡ true)))

resolve_known_total :
    (l : List JobAuthorizationScope) (flag : Bool)
    → All Reaches l
    → (l ≡ [] → flag ≡ true)
    → Resolves l flag
unfolding resolve_known
resolve_known_total [] flag h e =
    (scope_of false false false, JobScopeCode.owner_shared, flag, refl, refl, inr (refl, e refl))
resolve_known_total (s ∷ rest) flag h e =
    let (code, p, q) = merge_scopes-code s rest h in
    (merge_scopes (s ∷ rest), code, flag, rw p, refl, inl (sym q))

unknown_if_none :
    (roles : List String)
    → known_scopes roles ≡ []
    → no_roles roles || any is_unknown_role roles ≡ true
unfolding known_scopes
unknown_if_none [] e = refl
unknown_if_none (role ∷ roles) e = ground arith

-- `_resolve_scope` never raises, and its flag says that a role is unknown or none is given. Its
-- scope is the one that the returned code stands for, or it gives no access and the flag is set.
pub resolve_scope_total :
    (roles : List String)
    → (scope : JobAuthorizationScope) × (code : JobScopeCode) × (unknown : Bool) × (resolve_scope
          roles
        ≡ ok (scope, code, unknown))
      × (unknown ≡ (no_roles roles || any is_unknown_role roles))
      × ((scope ≡ scope_from_code code) ⊎ ((scope ≡ scope_of false false false) × (unknown ≡ true)))
unfolding resolve_scope
resolve_scope_total roles =
    resolve_known_total (known_scopes roles) (no_roles roles || any is_unknown_role roles)
      (known_scopes-Reaches roles) (unknown_if_none roles)
