-- ===== src/Idempotency/Once.antt =====
-- A request that is reserved and completed is answered from its record ever after
-- (application/idempotency.py: `reserve`, `complete`).
use mathlib.Core.Path.{subst}
use lawyer_agent.Prelude.{
  ℕ, ◌+◌, ◌≡◌, refl, sym, ap, ◌∙◌, inl, inr, true, Option, none, some, List, Bool-cases,
  Result-cases, Result, ok, err-not-ok,
}
use lawyer_agent.Common.{Uuid, DateTime, is_utc}
use lawyer_agent.Idempotency.Types.{
  IdempotencyError, IdempotencyReservation, IdempotencyResultReference, check_result,
}
use lawyer_agent.Idempotency.Slots.{Slot, same_slot_refl, same_bytes_refl, ==_refl}
use lawyer_agent.Idempotency.Table.{IdempotencyRow, serialize_result_type}
use lawyer_agent.Idempotency.Repository.{complete_record}
use lawyer_agent.Idempotency.Service.{complete, reservation, require_utc_now}
use lawyer_agent.Idempotency.Keys.{
  running, finished, Reserve, Call, reserve_call, complete_call, call_slot, advance, serializes,
}
use lawyer_agent.Idempotency.Sound.{IsTable, view, run, AreCalls}
use lawyer_agent.Idempotency.Acquiring.{same_option_refl}
use lawyer_agent.Idempotency.Outcomes.{reserve_of}
use lawyer_agent.Idempotency.Refinement.{step-refines}
use lawyer_agent.Idempotency.Guarantees.{IsRequest, answer, finished-Replays}
use lawyer_agent.Idempotency.Invariant.{step-IsTable}
use lawyer_agent.Idempotency.Firsts.{claimant, first-claim, reserve-step, complete-step}

-- A reservation without a result runs its key.
first-running :
    (c : Reserve) (rows rows' : List IdempotencyRow) (r : IdempotencyReservation)
    → IsTable rows
    → IsRequest c rows
    → reserve_of c rows ≡ ok (r, rows')
    → r.replay ≡ none
    → view (call_slot c) rows' ≡ running (claimant c r.record_id) (c.now.instant + c.ttl)
unfolding advance
first-running c rows rows' r table q e first =
    ap (view (call_slot c)) (sym (reserve-step c rows rows' r e))
    ∙ step-refines (call_slot c) (reserve_call c) rows table q.call q.fresh
    ∙ rw (q.utc, q.operation, same_slot_refl (call_slot c))
        (first-claim c rows rows' r table q e first).1

-- A completion that succeeds has a UTC time and a result that can be written.
completable :
    (record_id : Uuid) (fingerprint : List ℕ) (result : IdempotencyResultReference) (now : DateTime)
    (rows rows' : List IdempotencyRow)
    → complete (reservation record_id fingerprint none) result now rows ≡ ok rows'
    → (is_utc now ≡ true) × (serializes (serialize_result_type result) ≡ true)
unfolding complete require_utc_now complete_record
completable record_id fingerprint result now rows rows' e = elim (Bool-cases (is_utc now)) [
  | inr zone ↦ absurd (err-not-ok _ _ (rw zone at e))
  | inl utc ↦ elim (Result-cases (serialize_result_type result)) [
    | inr (x, large) ↦ absurd (err-not-ok _ _ (rw (utc, large) at e))
    | inl (w, written) ↦ (utc, rw written refl)
  ]
]

-- Completion finishes the key that its reservation runs.
complete-finishes :
    (s : Slot) (record_id : Uuid) (tenant_id : Option Uuid) (fingerprint : List ℕ) (until : ℕ)
    (result : IdempotencyResultReference) (now : DateTime) (rows rows' : List IdempotencyRow)
    → IsTable rows
    → check_result result ≡ ok tt
    → complete (reservation record_id fingerprint none) result now rows ≡ ok rows'
    → view s rows
      ≡ running
          (record { record_id = record_id; tenant_id = tenant_id; fingerprint = fingerprint })
          until
    → view s rows'
      ≡ finished
          (record { record_id = record_id; tenant_id = tenant_id; fingerprint = fingerprint })
          result
unfolding advance
complete-finishes s record_id tenant_id fingerprint until result now rows rows' table checked e v =
    let (utc, written) = completable record_id fingerprint result now rows rows' e in
    ap (view s)
      (sym (complete-step (reservation record_id fingerprint none) result now rows rows' e))
    ∙ step-refines s (complete_call (reservation record_id fingerprint none) result now) rows table
        checked tt
    ∙ rw (utc, written, v, ==_refl record_id, same_bytes_refl fingerprint) refl

-- The same request again.
pub record IsRepeat (c d : Reserve) : Type 0 where
  pub same_scope : d.scope ≡ c.scope
  pub same_operation : d.operation ≡ c.operation
  pub same_prepared : d.prepared ≡ c.prepared

own-answer :
    (c d : Reserve) (record_id : Uuid)
    (otherwise : Result IdempotencyError (IdempotencyReservation × List IdempotencyRow))
    → IsRepeat c d
    → answer d (claimant c record_id) otherwise ≡ otherwise
own-answer c d record_id otherwise same =
    rw
      (
        same.same_scope,
        same.same_prepared,
        same_option_refl c.scope.tenant_id,
        same_bytes_refl c.prepared.request_fingerprint,
      )
      refl

same-call_slot : (c d : Reserve) → IsRepeat c d → call_slot d ≡ call_slot c
same-call_slot c d same = rw (same.same_scope, same.same_operation, same.same_prepared) refl

-- What a reservation without a replay and its completion leave of the key.
pub reserve-complete-finishes :
    (c : Reserve) (rows rows1 rows2 : List IdempotencyRow) (r : IdempotencyReservation)
    (result : IdempotencyResultReference) (now : DateTime)
    → IsTable rows
    → IsRequest c rows
    → reserve_of c rows ≡ ok (r, rows1)
    → r.replay ≡ none
    → check_result result ≡ ok tt
    → complete r result now rows1 ≡ ok rows2
    → IsTable rows2 × (view (call_slot c) rows2 ≡ finished (claimant c r.record_id) result)
reserve-complete-finishes c rows rows1 rows2 r result now table q e first checked done =
    let table1 : IsTable rows1 =
      subst IsTable (reserve-step c rows rows1 r e)
        (step-IsTable (reserve_call c) rows table q.call q.fresh) in
    (
      subst IsTable (complete-step r result now rows1 rows2 done)
          (step-IsTable (complete_call r result now) rows1 table1 checked tt),
      complete-finishes (call_slot c) r.record_id c.scope.tenant_id c.prepared.request_fingerprint
          (c.now.instant + c.ttl) result now rows1 rows2 table1 checked
          (subst (λ x. complete x result now rows1 ≡ ok rows2)
            (first-claim c rows rows1 r table q e first).0 done)
          (first-running c rows rows1 r table q e first),
    )

-- On a sound table of keys, let a request be reserved without a replay and then completed with a
-- checked result. After any calls of the service, the same request in the same scope, at a UTC time
-- and with a fresh record id, is answered with that result and leaves the table as it is.
pub reserve-complete-Replays :
    (c d : Reserve) (cs : List Call) (rows rows1 rows2 : List IdempotencyRow)
    (r : IdempotencyReservation) (result : IdempotencyResultReference) (now : DateTime)
    → IsTable rows
    → IsRequest c rows
    → reserve_of c rows ≡ ok (r, rows1)
    → r.replay ≡ none
    → check_result result ≡ ok tt
    → complete r result now rows1 ≡ ok rows2
    → AreCalls cs rows2
    → IsRepeat c d
    → IsRequest d (run cs rows2)
    → reserve_of d (run cs rows2)
      ≡ ok (reservation r.record_id d.prepared.request_fingerprint (some result), run cs rows2)
reserve-complete-Replays c d cs rows rows1 rows2 r result now table q e first checked done calls
      same p =
    let (table2, finishes) =
      reserve-complete-finishes c rows rows1 rows2 r result now table q e first checked done in
    finished-Replays d cs rows2 (claimant c r.record_id) result table2 calls p (
      subst (λ s. view s rows2 ≡ finished (claimant c r.record_id) result)
        (sym (same-call_slot c d same)) finishes)
    ∙ own-answer c d r.record_id _ same
