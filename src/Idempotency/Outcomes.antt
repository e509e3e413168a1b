-- ===== src/Idempotency/Outcomes.antt =====
-- What `reserve` answers on a new row and on a row that is there
-- (application/idempotency.py).
use lawyer_agent.Prelude.{
  ◌+◌, ◌≡◌, refl, true, none, some, List, [], ◌∷◌, ◌++◌, codes, Bool-cases, inl, inr, Result, ok,
  err, same_option, if◌then◌else◌,
}
use lawyer_agent.Common.{is_utc}
use lawyer_agent.JobStore.Inbox.{same_bytes}
use lawyer_agent.JobStore.Tables.{find}
use lawyer_agent.Idempotency.Types.{
  IdempotencyError, NewIdempotencyRecord, is_code, IdempotencyReservation,
}
use lawyer_agent.Idempotency.Table.{IdempotencyRow, row_key, find_slot, new_row}
use lawyer_agent.Idempotency.Service.{
  candidate, resume, reservation, reserve_prepared, require_utc_now, require_operation,
}
use lawyer_agent.Idempotency.Keys.{Reserve, reserve_call, call_slot}
use lawyer_agent.Idempotency.Sound.{IsTable, IsCall}
use lawyer_agent.Idempotency.Acquiring.{stored_of, result_of, acquire-vacant, acquire-taken}

abbrev pub candidate_of : Reserve → NewIdempotencyRecord
candidate_of c = candidate c.ttl c.new_id c.scope c.operation c.prepared c.now

-- `reserve` after `prepare`, for a call.
abbrev pub reserve_of :
    Reserve
    → List IdempotencyRow
    → Result IdempotencyError (IdempotencyReservation × List IdempotencyRow)
reserve_of c rows =
    reserve_prepared c.ttl c.new_id c.clock c.scope c.operation c.prepared c.now rows

abbrev pub claiming_row : Reserve → IdempotencyRow
claiming_row c = new_row (candidate_of c) (c.now.instant + c.ttl) c.clock

-- The outcome on a row that another call inserted.
abbrev pub taken_outcome :
    Reserve
    → List IdempotencyRow
    → IdempotencyRow
    → Result IdempotencyError (IdempotencyReservation × List IdempotencyRow)
taken_outcome c rows r =
    if same_option r.tenant_id c.scope.tenant_id
    then (if same_bytes r.request_fingerprint c.prepared.request_fingerprint
        then resume c.ttl c.now (stored_of r) c.prepared.request_fingerprint r.status
            (result_of r.status r.result_type r.result_id) rows
        else err IdempotencyError.conflict)
    else err (IdempotencyError.state "idempotency scope collision")

module _ (c : Reserve) (rows : List IdempotencyRow) (utc : is_utc c.now ≡ true)
    (operation : is_code 127 (codes c.operation) ≡ true) (call : IsCall (reserve_call c))
    (fresh : find row_key c.new_id rows ≡ none) where
  -- A vacant slot.
  pub reserve-vacant :
      find_slot (call_slot c) rows ≡ none
      → reserve_of c rows
        ≡ ok (reservation c.new_id c.prepared.request_fingerprint none, rows ++ claiming_row c ∷ [])
  unfolding reserve_prepared require_utc_now require_operation
  reserve-vacant vacant =
      rw
        (
          utc,
          operation,
          acquire-vacant c.clock (c.now.instant + c.ttl) (candidate_of c) rows refl fresh vacant
              call.0 call.1 call.2,
        )
        refl

  -- A slot that another call has taken.
  pub reserve-taken :
      (r : IdempotencyRow)
      → IsTable rows
      → find_slot (call_slot c) rows ≡ some r
      → reserve_of c rows ≡ taken_outcome c rows r
  unfolding reserve_prepared require_utc_now require_operation
  reserve-taken r table found =
      rw
        (
          utc,
          operation,
          acquire-taken c.clock (c.now.instant + c.ttl) (candidate_of c) rows r table fresh found
              refl,
        )
        (elim (Bool-cases (same_option r.tenant_id c.scope.tenant_id)) [
          | inr e ↦ rw e refl
          | inl e ↦
              elim (Bool-cases (same_bytes r.request_fingerprint c.prepared.request_fingerprint)) [
                | inl f ↦ rw (e, f) refl
                | inr f ↦ rw (e, f) refl
              ]
        ])
