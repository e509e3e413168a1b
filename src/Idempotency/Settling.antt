-- ===== src/Idempotency/Settling.antt =====
-- What `complete` and `fail` do to a table of sound rows (application/idempotency.py).
use lawyer_agent.Prelude.{
  ℕ, ◌≡◌, refl, ◌∙◌, ◌⊎◌, inl, inr, Bool, true, false, Option, none, some, List, arith, ok, err,
  guard, ◌>>◌, ◌==◌,
}
use lawyer_agent.Common.{Uuid, DateTime, is_utc}
use lawyer_agent.JobStore.Rows.{naive}
use lawyer_agent.JobStore.Tables.{
  find, hits, Unique, update_where, count-update_where, update_where-idle,
}
use lawyer_agent.Idempotency.Types.{
  IdempotencyError, IdempotencyReservation, IdempotencyResultReference,
}
use lawyer_agent.Idempotency.Table.{
  StoredResultType, IdempotencyRow, row_key, serialize_result_type,
}
use lawyer_agent.Idempotency.Repository.{
  complete_record, fail_record, is_open, completed_record, failed_record,
}
use lawyer_agent.Idempotency.Service.{is_replay, complete, fail, require_utc_now}
use lawyer_agent.Idempotency.Keys.{complete_call, fail_call}
use lawyer_agent.Idempotency.Sound.{IsTable, kept_after, step}

pub is_open-id :
    (id : Uuid) (fingerprint : List ℕ) (r : IdempotencyRow)
    → is_open id fingerprint r ≡ true
    → r.id ≡ id
unfolding is_open
is_open-id id fingerprint r e = ground arith

hits-cases :
    (test : IdempotencyRow → Bool) (o : Option IdempotencyRow)
    → (hits test o ≡ 0) ⊎ (hits test o ≡ 1)
hits-cases test none = inl refl
hits-cases test (some r) = ground arith

-- A guarded UPDATE of one row: with no row it changes nothing, so the exception loses nothing.
module _ (id : Uuid) (test : IdempotencyRow → Bool) (change : IdempotencyRow → IdempotencyRow)
    (rows : List IdempotencyRow) where
  abbrev updated : List IdempotencyRow × ℕ
  updated = update_where test change rows

  guarded-update :
      (message : IdempotencyError)
      → ((r : IdempotencyRow) → test r ≡ true → r.id ≡ id)
      → Unique row_key rows
      → kept_after rows (guard (updated.1 == 1) message >> ok updated.0) ≡ updated.0
  guarded-update message targets unique = elim (hits-cases test (find row_key id rows)) [
    | inl e ↦
        rw
          (update_where-idle row_key test change rows
            (count-update_where row_key test change id rows targets unique ∙ e))
          refl
    | inr e ↦ rw (count-update_where row_key test change id rows targets unique, e) refl
  ]

naive-utc : (t : DateTime) → is_utc t ≡ true → naive t ≡ ok t.instant
unfolding naive
naive-utc t utc = rw utc refl

-- `complete` marks the row that its reservation still holds.
pub step_complete :
    (r : IdempotencyReservation) (result : IdempotencyResultReference) (now : DateTime)
    (w : StoredResultType) (rows : List IdempotencyRow)
    → IsTable rows
    → is_replay r ≡ false
    → is_utc now ≡ true
    → serialize_result_type result ≡ ok w
    → step (complete_call r result now) rows
      ≡ (update_where
          (is_open r.record_id r.request_fingerprint)
          (completed_record w result.result_id now.instant)
          rows).0
unfolding step complete complete_record require_utc_now
step_complete r result now w rows table replay utc written =
    rw (replay, utc, written, naive-utc now utc)
      (guarded-update r.record_id (is_open r.record_id r.request_fingerprint)
        (completed_record w result.result_id now.instant) rows
        (IdempotencyError.state "idempotency reservation is no longer completable")
        (is_open-id r.record_id r.request_fingerprint) table.unique)

pub step-fail :
    (r : IdempotencyReservation) (now : DateTime) (rows : List IdempotencyRow)
    → IsTable rows
    → is_replay r ≡ false
    → is_utc now ≡ true
    → step (fail_call r now) rows
      ≡ (update_where
          (is_open r.record_id r.request_fingerprint)
          (failed_record now.instant)
          rows).0
unfolding step fail fail_record require_utc_now
step-fail r now rows table replay utc =
    rw (replay, utc, naive-utc now utc)
      (guarded-update r.record_id (is_open r.record_id r.request_fingerprint)
        (failed_record now.instant) rows
        (IdempotencyError.state "idempotency reservation is no longer fail-able")
        (is_open-id r.record_id r.request_fingerprint) table.unique)

-- Calls that raise before their UPDATE.
module _ (r : IdempotencyReservation) (now : DateTime) (rows : List IdempotencyRow) where
  pub step-replay_complete :
      (result : IdempotencyResultReference)
      → is_replay r ≡ true
      → step (complete_call r result now) rows ≡ rows
  unfolding step complete
  step-replay_complete result replay = rw replay refl

  pub step-replay-fail : is_replay r ≡ true → step (fail_call r now) rows ≡ rows
  unfolding step fail
  step-replay-fail replay = rw replay refl

  pub step-zone_complete :
      (result : IdempotencyResultReference)
      → is_replay r ≡ false
      → is_utc now ≡ false
      → step (complete_call r result now) rows ≡ rows
  unfolding step complete require_utc_now
  step-zone_complete result replay zone = rw (replay, zone) refl

  pub step-zone-fail : is_replay r ≡ false → is_utc now ≡ false → step (fail_call r now) rows ≡ rows
  unfolding step fail require_utc_now
  step-zone-fail replay zone = rw (replay, zone) refl

  pub step-large_complete :
      (result : IdempotencyResultReference)
      → is_replay r ≡ false
      → is_utc now ≡ true
      → (e : IdempotencyError) → serialize_result_type result ≡ err e
      → step (complete_call r result now) rows ≡ rows
  unfolding step complete complete_record require_utc_now
  step-large_complete result replay utc e large = rw (replay, utc, large) refl
