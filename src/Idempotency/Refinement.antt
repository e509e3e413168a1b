-- ===== src/Idempotency/Refinement.antt =====
-- The service on its table implements the life of each key by itself
-- (application/idempotency.py on infrastructure/persistence/repositories/idempotency.py).
use lawyer_agent.Prelude.{
  ℕ, ◌≡◌, refl, sym, inl, inr, true, false, ◌&&◌, Option, none, some, List, arith, Bool-cases,
  Result-cases, ◌==◌, ok,
}
use lawyer_agent.Common.{Uuid, DateTime, is_utc}
use lawyer_agent.JobStore.Inbox.{same_bytes}
use lawyer_agent.JobStore.Tables.{changed}
use lawyer_agent.Idempotency.Types.{
  IdempotencyStatus, reserved, completed, failed, IdempotencyReservation,
  IdempotencyResultReference,
}
use lawyer_agent.Idempotency.Slots.{Slot}
use lawyer_agent.Idempotency.Table.{
  StoredResultType, IdempotencyRow, find_slot, serialize_result_type,
}
use lawyer_agent.Idempotency.Repository.{is_open, completed_record, failed_record, is_same_status}
use lawyer_agent.Idempotency.Service.{is_replay}
use lawyer_agent.Idempotency.Keys.{
  Holder, KeyState, finished, broken, Call, reserve_call, complete_call, fail_call, settle, advance,
}
use lawyer_agent.Idempotency.Sound.{
  IsTable, holder_of, view, view_row, view_status, view_result, step, IsCall, IsFresh,
}
use lawyer_agent.Idempotency.Decoding.{decoded-serialize}
use lawyer_agent.Idempotency.Settling.{
  step_complete, step-fail, step-replay_complete, step-zone_complete, step-large_complete,
  step-replay-fail, step-zone-fail,
}
use lawyer_agent.Idempotency.Views.{view-update_where, KeepsSlot}
use lawyer_agent.Idempotency.Claimed.{reserve-refines}

-- A settled call closes the row that its reservation holds open, and no other.
not_open :
    (r : IdempotencyReservation) (x : IdempotencyRow)
    → is_same_status x.status reserved ≡ false
    → is_open r.record_id r.request_fingerprint x ≡ false
unfolding is_open
not_open r x e = ground arith

open_row :
    (r : IdempotencyReservation) (x : IdempotencyRow)
    → is_same_status x.status reserved ≡ true
    → is_open r.record_id r.request_fingerprint x
      ≡ (x.id == r.record_id && same_bytes x.request_fingerprint r.request_fingerprint)
unfolding is_open
open_row r x e = ground arith

module _ (r : IdempotencyReservation) (outcome : Holder → KeyState)
    (change : IdempotencyRow → IdempotencyRow)
    (gives : (x : IdempotencyRow) → view_row (some (change x)) ≡ outcome (holder_of x)) where
  settle-closed :
      (x : IdempotencyRow) (type_ : Option StoredResultType) (result_id : Option Uuid)
      → settle r outcome (view_result (holder_of x) type_ result_id)
        ≡ view_result (holder_of x) type_ result_id
  settle-closed x none result_id = refl
  settle-closed x (some t) none = refl
  settle-closed x (some t) (some i) = refl

  settle-status :
      (x : IdempotencyRow) (s : IdempotencyStatus)
      → x.status ≡ s
      → view_row (changed (is_open r.record_id r.request_fingerprint) change (some x))
        ≡ settle r outcome (view_status s x)
  settle-status x completed e =
      rw (not_open r x (rw e refl), e) (sym (settle-closed x x.result_type x.result_id))
  settle-status x failed e = rw (not_open r x (rw e refl), e) refl
  settle-status x reserved e =
      rw (open_row r x (rw e refl))
        (elim (Bool-cases
          (x.id == r.record_id && same_bytes x.request_fingerprint r.request_fingerprint)) [
            | inl held ↦ rw held (gives x)
            | inr other ↦ rw (other, e) refl
          ])

  settle-view :
      (o : Option IdempotencyRow)
      → view_row (changed (is_open r.record_id r.request_fingerprint) change o)
        ≡ settle r outcome (view_row o)
  settle-view none = refl
  settle-view (some x) = settle-status x x.status refl

completed_record-KeepsSlot :
    (w : StoredResultType) (result_id : Uuid) (now : ℕ)
    → KeepsSlot (completed_record w result_id now)
unfolding completed_record
completed_record-KeepsSlot w result_id now x = refl

completed_record-gives :
    (w : StoredResultType) (result : IdempotencyResultReference) (now : ℕ)
    → serialize_result_type result ≡ ok w
    → (x : IdempotencyRow)
    → view_row (some (completed_record w result.result_id now x)) ≡ finished (holder_of x) result
unfolding completed_record
completed_record-gives w result now written x = rw (decoded-serialize result w written) refl

failed_record-KeepsSlot : (now : ℕ) → KeepsSlot (failed_record now)
unfolding failed_record
failed_record-KeepsSlot now x = refl

failed_record-gives :
    (now : ℕ) (x : IdempotencyRow) → view_row (some (failed_record now x)) ≡ broken (holder_of x)
unfolding failed_record
failed_record-gives now x = refl

complete-refines :
    (s : Slot) (r : IdempotencyReservation) (result : IdempotencyResultReference) (now : DateTime)
    (rows : List IdempotencyRow)
    → IsTable rows
    → view s (step (complete_call r result now) rows)
      ≡ advance s (complete_call r result now) (view s rows)
unfolding advance view
complete-refines s r result now rows table = elim (Bool-cases (is_replay r)) [
  | inl replay ↦ rw (step-replay_complete r now rows result replay, advance, replay) refl
  | inr first_run ↦ elim (Bool-cases (is_utc now)) [
    | inr zone ↦
        rw (step-zone_complete r now rows result first_run zone, advance, first_run, zone) refl
    | inl utc ↦ elim (Result-cases (serialize_result_type result)) [
      | inr (e, large) ↦
          rw
            (
              step-large_complete r now rows result first_run utc e large,
              advance,
              first_run,
              utc,
              large,
            )
            refl
      | inl (w, written) ↦
          rw
            (
              step_complete r result now w rows table first_run utc written,
              view-update_where s (is_open r.record_id r.request_fingerprint)
                  (completed_record w result.result_id now.instant) rows
                  (completed_record-KeepsSlot w result.result_id now.instant),
              advance,
              first_run,
              utc,
              written,
            )
            (settle-view r (λ h. finished h result)
              (completed_record w result.result_id now.instant)
              (completed_record-gives w result now.instant written) (find_slot s rows))
    ]
  ]
]

fail-refines :
    (s : Slot) (r : IdempotencyReservation) (now : DateTime) (rows : List IdempotencyRow)
    → IsTable rows
    → view s (step (fail_call r now) rows) ≡ advance s (fail_call r now) (view s rows)
unfolding advance view
fail-refines s r now rows table = elim (Bool-cases (is_replay r)) [
  | inl replay ↦ rw (step-replay-fail r now rows replay, advance, replay) refl
  | inr first_run ↦ elim (Bool-cases (is_utc now)) [
    | inr zone ↦ rw (step-zone-fail r now rows first_run zone, advance, first_run, zone) refl
    | inl utc ↦
        rw
          (
            step-fail r now rows table first_run utc,
            view-update_where s (is_open r.record_id r.request_fingerprint)
                (failed_record now.instant) rows (failed_record-KeepsSlot now.instant),
            advance,
            first_run,
            utc,
          )
          (settle-view r broken (failed_record now.instant) (failed_record-gives now.instant)
            (find_slot s rows))
  ]
]

pub step-refines :
    (s : Slot) (c : Call) (rows : List IdempotencyRow)
    → IsTable rows
    → IsCall c
    → IsFresh c rows
    → view s (step c rows) ≡ advance s c (view s rows)
step-refines s (reserve_call c) rows table call fresh = reserve-refines s c rows table call fresh
step-refines s (complete_call r result now) rows table call fresh =
    complete-refines s r result now rows table
step-refines s (fail_call r now) rows table call fresh = fail-refines s r now rows table
