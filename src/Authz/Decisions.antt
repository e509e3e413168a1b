-- ===== src/Authz/Decisions.antt =====
-- What the decisions of the policy come to.
use lawyer_agent.Prelude.{
  ◌≡◌, refl, ◌↔◌, Bool, true, false, Option, none, some, String, arith, Result, ok, err, ◌>>=◌,
}
use lawyer_agent.Common.{DateTime}
use lawyer_agent.Authz.Request.{
  Action, Principal, TenantContext, ResourceAttributes, AuthorizationDecision, is_terminal_state,
  audit_required,
}
use lawyer_agent.Authz.Reasons.{
  ◌or_else◌, identity_reason, session_reason, tenant_match_reason, membership_reason,
  permission_reason, scope_reason, resource_state_reason,
}
use lawyer_agent.Authz.Policy.{
  decide, decide_or_raise, early_reason, late_reason, deny, decision_of,
}
use lawyer_agent.Authz.Permits.{
  IsIdentified, IsCurrent, IsMatched, IsOpen, IsMember, IsGranted, IsReached, or_else-none,
  identity_reason-none, session_reason-none, tenant_match_reason-none, tenant_status_reason-none,
  membership_reason-none, permission_reason-none, scope_reason-none,
}

-- What a principal must meet to act on a resource at a time.
pub record IsPermitted (p : Principal) (c : TenantContext) (action : Action)
    (r : ResourceAttributes) (now : DateTime) : Type 0 where
  pub identified : IsIdentified p
  pub current : IsCurrent p c now
  pub matched : IsMatched p c action r
  pub open_tenant : IsOpen c action
  pub a_member : IsMember p c now
  pub granted : IsGranted p action
  pub reached : IsReached p c r
  pub live : is_terminal_state r.state ≡ false

-- The decision by what the checks find.
abbrev decided :
    Action → Option String → Result String (Option String) → Option String → AuthorizationDecision
decided action (some reason) member late = deny reason
decided action none (err e) late = deny "policy_error"
decided action none (ok (some reason)) late = deny reason
decided action none (ok none) late = decision_of action late

handled-decided :
    (action : Action) (early : Option String) (member : Result String (Option String))
    (late : Option String)
    → elim (elim early as (λ x. Result String AuthorizationDecision) [
      | some reason ↦ ok (deny reason)
      | none ↦ member >>= λ found. ok (decision_of action (found or_else late))
    ])
        as (λ x. AuthorizationDecision) [ ok decision ↦ decision | err _ ↦ deny "policy_error" ]
      ≡ decided action early member late
handled-decided action (some reason) member late = refl
handled-decided action none (err x) late = refl
handled-decided action none (ok (some reason)) late = refl
handled-decided action none (ok none) late = refl

decided-allowed :
    (action : Action) (early : Option String) (member : Result String (Option String))
    (late : Option String)
    → ((decided action early member late).allowed ≡ true)
      ↔ ((early ≡ none) × (member ≡ ok none) × (late ≡ none))
decided-allowed action (some reason) member late = (λ e. cc, λ (a, b, d). cc)
decided-allowed action none (err x) late = (λ e. cc, λ (a, b, d). cc)
decided-allowed action none (ok (some reason)) late = (λ e. cc, λ (a, b, d). cc)
decided-allowed action none (ok none) (some reason) = (λ e. cc, λ (a, b, d). cc)
decided-allowed action none (ok none) none = (λ e. (refl, refl, refl), λ h. refl)

decided-audited :
    (action : Action) (early : Option String) (member : Result String (Option String))
    (late : Option String)
    → (decided action early member late).audit_required
      ≡ elim (decided action early member late).allowed as (λ b. Bool) [
        | true ↦ audit_required action
        | false ↦ true
      ]
decided-audited action (some reason) member late = refl
decided-audited action none (err x) late = refl
decided-audited action none (ok (some reason)) late = refl
decided-audited action none (ok none) (some reason) = refl
decided-audited action none (ok none) none = refl

module _ (p : Principal) (c : TenantContext) (action : Action) (r : ResourceAttributes)
    (now : DateTime) where
  early_reason-none :
      (early_reason p c action r now ≡ none)
      ↔ (IsIdentified p × IsCurrent p c now × IsMatched p c action r × IsOpen c action)
  unfolding early_reason
  early_reason-none = (
    λ e.
        let (i, e1) = (or_else-none (identity_reason p) _).0 e in
        let (s, e2) = (or_else-none (session_reason p c now) _).0 e1 in
        let (m, t) = (or_else-none (tenant_match_reason p c action r) _).0 e2 in
        let known = (identity_reason-none p).0 i in
        (
          known,
          (session_reason-none p c now).0 s,
          (tenant_match_reason-none p c action r known).0 m,
          (tenant_status_reason-none c action).0 t,
        ),
    λ (i, s, m, t). (or_else-none (identity_reason p) _).1 (
      (identity_reason-none p).1 i,
      (or_else-none (session_reason p c now) _).1 (
        (session_reason-none p c now).1 s,
        (or_else-none (tenant_match_reason p c action r) _).1 (
          (tenant_match_reason-none p c action r i).1 m,
          (tenant_status_reason-none c action).1 t,
        ),
      ),
    ),
  )

  resource_state_reason-none :
      (resource_state_reason r ≡ none) ↔ (is_terminal_state r.state ≡ false)
  unfolding resource_state_reason
  resource_state_reason-none = ground arith

  late_reason-none :
      (late_reason p c action r ≡ none)
      ↔ (IsGranted p action × IsReached p c r × (is_terminal_state r.state ≡ false))
  unfolding late_reason
  late_reason-none = (
    λ e.
        let (g, e1) = (or_else-none (permission_reason p action) _).0 e in
        let (s, l) = (or_else-none (scope_reason p c r) _).0 e1 in
        (
          (permission_reason-none p action).0 g,
          (scope_reason-none p c r).0 s,
          resource_state_reason-none.0 l,
        ),
    λ (g, s, l). (or_else-none (permission_reason p action) _).1 (
      (permission_reason-none p action).1 g,
      (or_else-none (scope_reason p c r) _).1
          ((scope_reason-none p c r).1 s, resource_state_reason-none.1 l),
    ),
  )

  decide-decided :
      decide p c action r now
      ≡ decided action
          (early_reason p c action r now)
          (membership_reason p c now)
          (late_reason p c action r)
  unfolding decide decide_or_raise
  decide-decided =
      handled-decided action (early_reason p c action r now) (membership_reason p c now)
        (late_reason p c action r)

  decide-none : ((decide p c action r now).allowed ≡ true) ↔ (
      (early_reason p c action r now ≡ none)
      × (membership_reason p c now ≡ ok none)
      × (late_reason p c action r ≡ none))
  decide-none = rw decide-decided (
      decided-allowed action (early_reason p c action r now) (membership_reason p c now)
        (late_reason p c action r))

  -- The policy allows an action exactly when the principal is an active user with a current session,
  -- the resource is in the tenant of the context, the principal acts in that tenant under its own
  -- membership or, on a platform action, for the platform, the tenant is open to the action, the
  -- membership is active at the time, the action is among the principal's permissions, the scope
  -- reaches the resource and its confidentiality, and the resource is not in a terminal state.
  pub decide-allowed : ((decide p c action r now).allowed ≡ true) ↔ IsPermitted p c action r now
  decide-allowed = (
    λ e.
        let (early, member, late) = decide-none.0 e in
        let (i, s, m, t) = early_reason-none.0 early in
        let (g, reach, l) = late_reason-none.0 late in
        record {
          identified = i;
          current = s;
          matched = m;
          open_tenant = t;
          a_member = (membership_reason-none p c now).0 member;
          granted = g;
          reached = reach;
          live = l;
        },
    λ h. decide-none.1 (
      early_reason-none.1 (h.identified, h.current, h.matched, h.open_tenant),
      (membership_reason-none p c now).1 h.a_member,
      late_reason-none.1 (h.granted, h.reached, h.live),
    ),
  )

  -- Every denial is audited, and an allowed action exactly when the action requires it.
  pub decide-audited :
      (decide p c action r now).audit_required
      ≡ elim (decide p c action r now).allowed as (λ b. Bool) [
        | true ↦ audit_required action
        | false ↦ true
      ]
  decide-audited = rw decide-decided (
      decided-audited action (early_reason p c action r now) (membership_reason p c now)
        (late_reason p c action r))
