-- ===== src/Authz/Policy.antt =====
-- `PolicyEngine.decide`.
use lawyer_agent.Prelude.{true, false, Option, none, some, String, Result, ok, err, ◌>>=◌}
use lawyer_agent.Common.{DateTime}
use lawyer_agent.Authz.Request.{
  Action, Principal, TenantContext, ResourceAttributes, AuthorizationDecision, audit_required,
}
use lawyer_agent.Authz.Reasons.{
  identity_reason, session_reason, tenant_match_reason, tenant_status_reason, membership_reason,
  permission_reason, scope_reason, resource_state_reason, ◌or_else◌,
}

-- `POLICY_VERSION`
abbrev pub policy_version : String
policy_version = "identity-authz-v1"

-- `_deny`
abbrev pub deny : String → AuthorizationDecision
deny reason_code = record {
  allowed = false;
  reason_code = reason_code;
  policy_version = policy_version;
  audit_required = true;
}

abbrev pub allow : Action → AuthorizationDecision
allow action = record {
  allowed = true;
  reason_code = "allowed";
  policy_version = policy_version;
  audit_required = audit_required action;
}

abbrev pub decision_of : Action → Option String → AuthorizationDecision
decision_of action (some reason) = deny reason
decision_of action none = allow action

-- The checks before the membership's, and those after it.
unfoldable pub early_reason :
    Principal → TenantContext → Action → ResourceAttributes → DateTime → Option String
unfolding identity_reason session_reason tenant_match_reason tenant_status_reason
early_reason p c action r now =
    identity_reason p
    or_else session_reason p c now
    or_else tenant_match_reason p c action r
    or_else tenant_status_reason c action

unfoldable pub late_reason : Principal → TenantContext → Action → ResourceAttributes → Option String
unfolding permission_reason scope_reason resource_state_reason
late_reason p c action r =
    permission_reason p action or_else scope_reason p c r or_else resource_state_reason r

-- `_decide`: an error is an exception that a check raised.
unfoldable pub decide_or_raise :
    Principal
    → TenantContext
    → Action
    → ResourceAttributes
    → DateTime
    → Result String AuthorizationDecision
unfolding early_reason membership_reason late_reason
decide_or_raise p c action r now = elim (early_reason p c action r now) [
  | some reason ↦ ok (deny reason)
  | none ↦ membership_reason p c now >>= λ found.
      ok (decision_of action (found or_else late_reason p c action r))
]

-- `decide`: `except Exception` denies.
unfoldable pub decide :
    Principal → TenantContext → Action → ResourceAttributes → DateTime → AuthorizationDecision
unfolding decide_or_raise
decide p c action r now = elim (decide_or_raise p c action r now) [
  | ok decision ↦ decision
  | err _ ↦ deny "policy_error"
]
