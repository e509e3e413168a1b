-- ===== src/Idempotency/Firsts.antt =====
-- What a reservation without a result leaves behind (application/idempotency.py: `reserve`).
use mathlib.Core.Path.{subst}
use lawyer_agent.Prelude.{
  ℕ, ◌+◌, ◌≡◌, ◌≢◌, refl, sym, ◌∙◌, inl, inr, true, Option, none, some, List, String, arith, leb,
  Bool-cases, Option-cases, ok, guard, same_option, ok-pair, bind-eq-ok, err-not-ok,
}
use lawyer_agent.Common.{Uuid, DateTime}
use lawyer_agent.JobStore.Inbox.{same_bytes}
use lawyer_agent.Idempotency.Types.{
  IdempotencyError, StoredIdempotencyRecord, IdempotencyStatus, reserved, completed, failed,
  IdempotencyReservation, IdempotencyResultReference,
}
use lawyer_agent.Idempotency.Table.{IdempotencyRow, find_slot}
use lawyer_agent.Idempotency.Repository.{restart, restarted_row}
use lawyer_agent.Idempotency.Service.{complete, reservation, resume, recover}
use lawyer_agent.Idempotency.Keys.{
  Holder, running, Reserve, reserve_call, complete_call, call_slot, claim, repeats,
}
use lawyer_agent.Idempotency.Sound.{IsTable, holder_of, view, step}
use lawyer_agent.Idempotency.Acquiring.{stored_of, result_of}
use lawyer_agent.Idempotency.Outcomes.{reserve_of, reserve-vacant, reserve-taken, taken_outcome}
use lawyer_agent.Idempotency.Reserving.{may_take}
use lawyer_agent.Idempotency.Views.{claim-taken}
use lawyer_agent.Idempotency.Claimed.{and-left}
use lawyer_agent.Idempotency.Guarantees.{IsRequest}

abbrev pub claimant : Reserve → Uuid → Holder
claimant c record_id = record {
  record_id = record_id;
  tenant_id = c.scope.tenant_id;
  fingerprint = c.prepared.request_fingerprint;
}

-- A recovered row's reservation.
pub recover-reservation :
    (message : String) (allowed : List IdempotencyStatus) (before : Option DateTime)
    (expires_at : DateTime) (stored : StoredIdempotencyRecord) (fingerprint : List ℕ)
    (rows rows' : List IdempotencyRow) (r : IdempotencyReservation)
    → recover message allowed before expires_at stored fingerprint rows ≡ ok (r, rows')
    → r ≡ reservation stored.id fingerprint none
recover-reservation message allowed before expires_at stored fingerprint rows rows' r e =
    let ((restarted, rows1), m, e1) =
      bind-eq-ok
        (restart stored.id stored.request_fingerprint fingerprint allowed before expires_at rows) _
        e in
    let (t, g, e2) = bind-eq-ok (guard restarted (IdempotencyError.state message)) _ e1 in
    sym (ok-pair _ _ _ _ e2).0

pub replay-not-first :
    (r : IdempotencyReservation) (record_id : Uuid) (fingerprint : List ℕ)
    (result : IdempotencyResultReference)
    → reservation record_id fingerprint (some result) ≡ r
    → r.replay ≢ none
replay-not-first r record_id fingerprint result e first = cc

-- Only a row that may be taken over gives a reservation without a result.
pub resume-first :
    (c : Reserve) (r0 : IdempotencyRow) (st : IdempotencyStatus)
    (held : Option IdempotencyResultReference) (rows rows' : List IdempotencyRow)
    (r : IdempotencyReservation)
    → resume c.ttl c.now (stored_of r0) c.prepared.request_fingerprint st held rows ≡ ok (r, rows')
    → r.replay ≡ none
    → (may_take c r0 st ≡ true) × (r ≡ reservation r0.id c.prepared.request_fingerprint none)
resume-first c r0 completed none rows rows' r e first = cc
resume-first c r0 completed (some result) rows rows' r e first =
    absurd
      (replay-not-first r r0.id c.prepared.request_fingerprint result (ok-pair _ _ _ _ e).0 first)
resume-first c r0 failed held rows rows' r e first =
    (refl, recover-reservation _ _ _ _ (stored_of r0) _ rows rows' r e)
resume-first c r0 reserved held rows rows' r e first =
    elim (Bool-cases (leb r0.expires_at c.now.instant)) [
      | inl expired ↦
          (expired, recover-reservation _ _ _ _ (stored_of r0) _ rows rows' r (rw expired at e))
      | inr live ↦ absurd (err-not-ok _ _ (rw live at e))
    ]

pub taken-first :
    (c : Reserve) (rows rows' : List IdempotencyRow) (r0 : IdempotencyRow)
    (r : IdempotencyReservation)
    → taken_outcome c rows r0 ≡ ok (r, rows')
    → r.replay ≡ none
    → (repeats c (holder_of r0) ≡ true)
      × (may_take c r0 r0.status ≡ true)
      × (r ≡ reservation r0.id c.prepared.request_fingerprint none)
taken-first c rows rows' r0 r e first =
    elim (Bool-cases (same_option r0.tenant_id c.scope.tenant_id)) [
      | inr other ↦ absurd (err-not-ok _ _ (rw other at e))
      | inl tenant ↦
          elim (Bool-cases (same_bytes r0.request_fingerprint c.prepared.request_fingerprint)) [
            | inr other ↦ absurd (err-not-ok _ _ (rw (tenant, other) at e))
            | inl same ↦
                let (may, is) =
                  resume-first c r0 r0.status (result_of r0.status r0.result_type r0.result_id) rows
                    rows' r (rw (tenant, same) at e) first in
                (rw (tenant, same) refl, may, is)
          ]
    ]

abbrev pub Claims : Reserve → List IdempotencyRow → IdempotencyReservation → Type 0
Claims c rows r =
    (r ≡ reservation r.record_id c.prepared.request_fingerprint none)
    × (claim c (view (call_slot c) rows) ≡ running (claimant c r.record_id) (c.now.instant + c.ttl))

pub same_option→eq : (a b : Option ℕ) → same_option a b ≡ true → a ≡ b
same_option→eq none none e = refl
same_option→eq none (some b) e = cc
same_option→eq (some a) none e = cc
same_option→eq (some a) (some b) e = ground arith

pub repeats-tenant :
    (c : Reserve) (h : Holder) → repeats c h ≡ true → h.tenant_id ≡ c.scope.tenant_id
repeats-tenant c h again = same_option→eq h.tenant_id c.scope.tenant_id (and-left _ _ again)

-- The state that a reservation without a result leaves its key in.
pub first-claim :
    (c : Reserve) (rows rows' : List IdempotencyRow) (r : IdempotencyReservation)
    → IsTable rows
    → IsRequest c rows
    → reserve_of c rows ≡ ok (r, rows')
    → r.replay ≡ none
    → Claims c rows r
unfolding view claim restarted_row
first-claim c rows rows' r table q e first = elim (Option-cases (find_slot (call_slot c) rows)) [
  | inl vacant ↦
      subst (Claims c rows)
        (ok-pair _ _ _ _
          (sym (reserve-vacant c rows q.utc q.operation q.call q.fresh vacant) ∙ e)).0
        (refl, rw vacant refl)
  | inr (r0, found) ↦
      let (again, may, is) =
        taken-first c rows rows' r0 r
          (sym (reserve-taken c rows q.utc q.operation q.call q.fresh r0 table found) ∙ e) first in
      subst (Claims c rows) (sym is) (
        refl,
        rw found (
            sym (claim-taken c r0 r0.status again may)
            ∙ rw (repeats-tenant c (holder_of r0) again) refl),
      )
]

pub reserve-step :
    (c : Reserve) (rows rows' : List IdempotencyRow) (r : IdempotencyReservation)
    → reserve_of c rows ≡ ok (r, rows')
    → step (reserve_call c) rows ≡ rows'
unfolding step
reserve-step c rows rows' r e = rw e refl

pub complete-step :
    (r : IdempotencyReservation) (result : IdempotencyResultReference) (now : DateTime)
    (rows rows' : List IdempotencyRow)
    → complete r result now rows ≡ ok rows'
    → step (complete_call r result now) rows ≡ rows'
unfolding step
complete-step r result now rows rows' e = rw e refl
