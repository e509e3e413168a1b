-- ===== src/JobService/Granted.antt =====
-- The worker on the authority loader: what the tables hold when an attempt starts
-- (`SqlAlchemyAIJobAuthorityLoader.load` of infrastructure/persistence/repositories/ai_jobs.py under
-- application/ai_job_runtime.py).
use mathlib.Core.Path.{subst}
use lawyer_agent.Prelude.{
  ℕ, ◌<◌, ◌≡◌, refl, sym, ap, Bool, true, Option, none, some, String, List, ◌==◌, Result, ok, err,
  bind-eq-ok, ok-inside, err-not-ok,
}
use lawyer_agent.Common.{Uuid, DateTime}
use lawyer_agent.Tenancy.{MembershipStatus, check_membership}
use lawyer_agent.AiJobs.Scope.{JobAuthorizationScope, JobScopeCode, resolve_scope}
use lawyer_agent.AiJobs.Records.{check_uuid7, check_job, check_grant}
use lawyer_agent.AiJobs.Policy.{JobAuthoritySnapshot}
use lawyer_agent.AiJobs.Grants.{IsAuthorized}
use lawyer_agent.JobStore.Lookup.{first}
use lawyer_agent.JobStore.Rows.{JobRow, job_of_row, aware_optional}
use lawyer_agent.JobStore.Claiming.{JobTables, is_job}
use lawyer_agent.JobStore.Messages.{Envelope}
use lawyer_agent.Worker.{Delivery, DeliveryDecision, WorkerStore, accept_delivery}
use lawyer_agent.Worker.Attempts.{accept_delivery_claims}
use lawyer_agent.JobService.Roles.{role_rows}
use lawyer_agent.JobService.Permissions.{IsPermitted, granted-IsPermitted}
use lawyer_agent.JobService.Store.{GrantRow}
use lawyer_agent.JobService.Authority.{
  UserRow, TenantRow, MembershipRow, AuthorityTables, LoadError, unavailable, raised, raising,
  available, grant_of_row, membership_of_row, is_grant, is_membership, codes_of_roles, snapshot,
  snapshot_of, load,
}

-- The loader as the worker's port: any exception ends the delivery.
abbrev pub port_result : Result LoadError JobAuthoritySnapshot → Result String JobAuthoritySnapshot
port_result (ok a) = ok a
port_result (err (unavailable reason)) = err reason
port_result (err (raised message)) = err message

abbrev pub authority_port :
    AuthorityTables → Uuid → Uuid → JobTables → Result String JobAuthoritySnapshot
authority_port tables tenant_id job_id store = port_result (load tables tenant_id job_id store)

-- The rows of one snapshot.
pub record IsLoaded (tables : AuthorityTables) (tenant_id job_id : Uuid) (store : JobTables)
    (a : JobAuthoritySnapshot) : Type 0 where
  pub job : JobRow
  pub job_found : first (is_job tenant_id job_id) store.jobs ≡ some job
  pub grant : GrantRow
  pub grant_found : first (is_grant tenant_id job_id) tables.grants ≡ some grant
  pub user : UserRow
  pub user_found : first (λ u. u.id == grant.user_id) tables.users ≡ some user
  pub tenant : TenantRow
  pub tenant_found : first (λ t. t.id == tenant_id) tables.tenants ≡ some tenant
  pub membership : MembershipRow
  pub membership_found :
      first (is_membership tenant_id grant.membership_id) tables.memberships ≡ some membership
  pub is_snapshot : snapshot tables tenant_id job grant user tenant membership ≡ ok a

available-some {ℓ} :
    {A : Type ℓ} (reason : String) (o : Option A) (a : A) → available reason o ≡ ok a → o ≡ some a
available-some reason none a e = cc
available-some reason (some x) a e = cc

raising-ok {ℓ} : {A : Type ℓ} (m : Result String A) (a : A) → raising m ≡ ok a → m ≡ ok a
raising-ok (ok x) a e = cc
raising-ok (err x) a e = cc

load-IsLoaded :
    (tables : AuthorityTables) (tenant_id job_id : Uuid) (store : JobTables)
    (a : JobAuthoritySnapshot)
    → load tables tenant_id job_id store ≡ ok a
    → IsLoaded tables tenant_id job_id store a
unfolding load
load-IsLoaded tables tenant_id job_id store a e =
    let (_, e1, h1) = bind-eq-ok (raising (check_uuid7 "authority tenant_id" tenant_id)) _ e in
    let (_, e2, h2) = bind-eq-ok (raising (check_uuid7 "authority job_id" job_id)) _ h1 in
    let (job, e3, h3) =
      bind-eq-ok (available "job_unavailable" (first (is_job tenant_id job_id) store.jobs)) _ h2 in
    let (grant, e4, h4) =
      bind-eq-ok (available "grant_unavailable" (first (is_grant tenant_id job_id) tables.grants)) _
        h3 in
    let (user, e5, h5) =
      bind-eq-ok
        (available "authority_unavailable" (first (λ u. u.id == grant.user_id) tables.users)) _
        h4 in
    let (tenant, e6, h6) =
      bind-eq-ok (available "authority_unavailable" (first (λ t. t.id == tenant_id) tables.tenants))
        _ h5 in
    let (membership, e7, h7) =
      bind-eq-ok
        (available "authority_unavailable"
          (first (is_membership tenant_id grant.membership_id) tables.memberships))
        _ h6 in
    record {
      job = job;
      job_found = available-some _ _ _ e3;
      grant = grant;
      grant_found = available-some _ _ _ e4;
      user = user;
      user_found = available-some _ _ _ e5;
      tenant = tenant;
      tenant_found = available-some _ _ _ e6;
      membership = membership;
      membership_found = available-some _ _ _ e7;
      is_snapshot = raising-ok _ _ h7;
    }

-- What the rows of an authorized snapshot say.
pub record IsGranted (tables : AuthorityTables) (tenant_id job_id : Uuid) (store : JobTables)
    (now : DateTime) : Type 0 where
  pub job : JobRow
  pub job_found : first (is_job tenant_id job_id) store.jobs ≡ some job
  pub not_expired : now.instant < job.expires_at
  pub grant : GrantRow
  pub grant_found : first (is_grant tenant_id job_id) tables.grants ≡ some grant
  pub not_revoked : grant.revoked_at ≡ none
  pub user : UserRow
  pub user_found : first (λ u. u.id == grant.user_id) tables.users ≡ some user
  pub user_active : user.active ≡ true
  pub same_auth : grant.auth_version_at_submit ≡ user.auth_version
  pub tenant : TenantRow
  pub tenant_found : first (λ t. t.id == tenant_id) tables.tenants ≡ some tenant
  pub tenant_active : tenant.active ≡ true
  pub membership : MembershipRow
  pub membership_found :
      first (is_membership tenant_id grant.membership_id) tables.memberships ≡ some membership
  pub membership_active : membership.status ≡ MembershipStatus.active
  pub same_authz : grant.authz_version_at_submit ≡ membership.authz_version
  pub permitted : IsPermitted tables.roles tenant_id grant.membership_id "ai_job.create"

snapshot-is :
    (tables : AuthorityTables) (tenant_id : Uuid) (job : JobRow) (grant : GrantRow) (user : UserRow)
    (tenant : TenantRow) (membership : MembershipRow) (a : JobAuthoritySnapshot)
    → snapshot tables tenant_id job grant user tenant membership ≡ ok a
    → (resolved : JobAuthorizationScope × JobScopeCode × Bool) × (a
        ≡ snapshot_of tables tenant_id job grant user tenant membership resolved)
unfolding snapshot
snapshot-is tables tenant_id job grant user tenant membership a e =
    let (resolved, e1, h1) =
      bind-eq-ok
        (resolve_scope (codes_of_roles (role_rows tables.roles tenant_id grant.membership_id))) _
        e in
    let (_, e2, h2) = bind-eq-ok (check_job (job_of_row job)) _ h1 in
    let (_, e3, h3) = bind-eq-ok (check_grant (grant_of_row grant)) _ h2 in
    let (_, e4, h4) =
      bind-eq-ok (check_membership (membership_of_row membership))
        (λ _. ok (snapshot_of tables tenant_id job grant user tenant membership resolved)) h3 in
    (resolved, sym (ok-inside _ a h4))

unset : (o : Option ℕ) → aware_optional o ≡ none → o ≡ none
unset none e = refl
unset (some n) e = cc

module _ (tables : AuthorityTables) (tenant_id job_id : Uuid) (store : JobTables)
    (a : JobAuthoritySnapshot) (now : DateTime) where
  loaded-IsGranted :
      (l : IsLoaded tables tenant_id job_id store a)
      → (resolved : JobAuthorizationScope × JobScopeCode × Bool)
      → IsAuthorized
          (snapshot_of tables tenant_id l.job l.grant l.user l.tenant l.membership resolved)
          now
      → IsGranted tables tenant_id job_id store now
  unfolding job_of_row grant_of_row membership_of_row
  loaded-IsGranted l resolved may = record {
    job = l.job;
    job_found = l.job_found;
    not_expired = may.not_expired;
    grant = l.grant;
    grant_found = l.grant_found;
    not_revoked = unset l.grant.revoked_at may.not_revoked;
    user = l.user;
    user_found = l.user_found;
    user_active = may.user_active;
    same_auth = may.auth_version;
    tenant = l.tenant;
    tenant_found = l.tenant_found;
    tenant_active = may.tenant_active;
    membership = l.membership;
    membership_found = l.membership_found;
    membership_active = may.member_active;
    same_authz = may.authz_version;
    permitted =
        granted-IsPermitted tables.roles tenant_id l.grant.membership_id "ai_job.create"
          may.permission;
  }

port-load :
    (r : Result LoadError JobAuthoritySnapshot) (a : JobAuthoritySnapshot)
    → port_result r ≡ ok a
    → r ≡ ok a
port-load (ok x) a e = ap ok (ok-inside x a e)
port-load (err (unavailable reason)) a e = absurd (err-not-ok _ a e)
port-load (err (raised message)) a e = absurd (err-not-ok _ a e)

module _ (envelope_digest : Envelope → List ℕ) (nonce_digest : String → List ℕ)
    (tables : AuthorityTables) (worker : String) (lease : ℕ) where
  -- When the worker on the authority loader acknowledges a delivery as claimed, the tables hold the
  -- job, which has not expired, its grant, which is not revoked, an active user and membership whose
  -- authorization versions are those of the grant, the active tenant, and rows that permit it: an
  -- active role of the tenant, its assignment to the membership, and its entry for an active
  -- permission to create jobs.
  pub accept_delivery-IsGranted :
      (d : Delivery) (s s' : WorkerStore)
      → accept_delivery envelope_digest nonce_digest (authority_port tables) worker lease d s
        ≡ ok (DeliveryDecision.ack_claimed, s')
      → IsGranted tables d.tenant_id d.job_id s.tables d.now
  accept_delivery-IsGranted d s s' h =
      let (a, loaded, may, _) =
        accept_delivery_claims envelope_digest nonce_digest (authority_port tables) worker lease d s
          s' h in
      let l =
        load-IsLoaded tables d.tenant_id d.job_id s.tables a
          (port-load (load tables d.tenant_id d.job_id s.tables) a loaded) in
      let (resolved, is) =
        snapshot-is tables d.tenant_id l.job l.grant l.user l.tenant l.membership a l.is_snapshot in
      loaded-IsGranted tables d.tenant_id d.job_id s.tables a d.now l resolved
        (subst (λ x. IsAuthorized x d.now) is may)
