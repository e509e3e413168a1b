-- ===== src/Idempotency/Invariant.antt =====
-- Every call of the service keeps the table of keys sound
-- (application/idempotency.py on infrastructure/persistence/repositories/idempotency.py).
use lawyer_agent.Prelude.{
  ℕ, ◌≡◌, refl, inl, inr, Bool, true, ◌&&◌, List, [], ◌∷◌, Bool-cases, Option-cases, Result-cases,
  ok, codes, length,
}
use lawyer_agent.Common.{Uuid, DateTime, is_utc}
use lawyer_agent.JobStore.Tables.{update_where, update_where-Unique}
use lawyer_agent.JobStore.Lookup.{append-Unique, All-append, All-update_where}
use lawyer_agent.Idempotency.Types.{
  IdempotencyReservation, IdempotencyResultReference, is_code, check_result,
}
use lawyer_agent.Idempotency.Slots.{Slot}
use lawyer_agent.Idempotency.Table.{
  StoredResultType, IdempotencyRow, row_key, find_slot, serialize_result_type,
}
use lawyer_agent.Idempotency.Repository.{restarted_row, is_open, completed_record, failed_record}
use lawyer_agent.Idempotency.Service.{is_replay}
use lawyer_agent.Idempotency.Keys.{
  Reserve, Call, reserve_call, complete_call, fail_call, call_slot, repeats, life,
}
use lawyer_agent.Idempotency.Sound.{
  IsSound, IsTable, holder_of, view, step, run, IsCall, IsFresh, AreCalls,
}
use lawyer_agent.Idempotency.Acquiring.{new_row-IsSound}
use lawyer_agent.Idempotency.Outcomes.{candidate_of, claiming_row}
use lawyer_agent.Idempotency.Reserving.{
  may_take, take_test, take_change, step-vacant, step-taken, step-refused,
}
use lawyer_agent.Idempotency.Settling.{
  step_complete, step-fail, step-replay_complete, step-zone_complete, step-large_complete,
  step-replay-fail, step-zone-fail,
}
use lawyer_agent.Idempotency.Claimed.{and-left, and-right}
use lawyer_agent.Idempotency.Refinement.{step-refines}

-- An UPDATE that keeps every row sound, and its key.
module _ (test : IdempotencyRow → Bool) (change : IdempotencyRow → IdempotencyRow)
    (keeps : (r : IdempotencyRow) → (change r).id ≡ r.id)
    (sound : (r : IdempotencyRow) → IsSound r → IsSound (change r)) where
  update_where-IsTable :
      (rows : List IdempotencyRow) → IsTable rows → IsTable (update_where test change rows).0
  update_where-IsTable rows table = record {
    sound = All-update_where IsSound test change rows sound table.sound;
    unique = update_where-Unique row_key test change rows keeps table.unique;
  }

restarted_row-IsSound :
    (fingerprint : List ℕ) (expires_at : ℕ) (r : IdempotencyRow)
    → length fingerprint ≡ 32
    → IsSound r
    → IsSound (restarted_row fingerprint expires_at r)
unfolding restarted_row
restarted_row-IsSound fingerprint expires_at r size s = record {
  key_length = s.key_length;
  fingerprint_length = size;
  scope_checked = s.scope_checked;
  result_matches = (refl, refl);
}

completed_record-IsSound :
    (result : IdempotencyResultReference) (w : StoredResultType) (now : ℕ) (r : IdempotencyRow)
    → check_result result ≡ ok tt
    → serialize_result_type result ≡ ok w
    → IsSound r
    → IsSound (completed_record w result.result_id now r)
unfolding completed_record
completed_record-IsSound result w now r checked written s = record {
  key_length = s.key_length;
  fingerprint_length = s.fingerprint_length;
  scope_checked = s.scope_checked;
  result_matches = (result, checked, w, written, refl, refl);
}

failed_record-IsSound : (now : ℕ) (r : IdempotencyRow) → IsSound r → IsSound (failed_record now r)
unfolding failed_record
failed_record-IsSound now r s = record {
  key_length = s.key_length;
  fingerprint_length = s.fingerprint_length;
  scope_checked = s.scope_checked;
  result_matches = (refl, refl);
}

restarted_row-id :
    (fingerprint : List ℕ) (at : ℕ) (r : IdempotencyRow)
    → (restarted_row fingerprint at r).id ≡ r.id
unfolding restarted_row
restarted_row-id fingerprint at r = refl

completed_record-id :
    (w : StoredResultType) (i : Uuid) (now : ℕ) (r : IdempotencyRow)
    → (completed_record w i now r).id ≡ r.id
unfolding completed_record
completed_record-id w i now r = refl

failed_record-id : (now : ℕ) (r : IdempotencyRow) → (failed_record now r).id ≡ r.id
unfolding failed_record
failed_record-id now r = refl

reserve-IsTable :
    (c : Reserve) (rows : List IdempotencyRow)
    → IsTable rows
    → IsCall (reserve_call c)
    → IsFresh (reserve_call c) rows
    → IsTable (step (reserve_call c) rows)
reserve-IsTable c rows table call fresh =
    elim (Bool-cases (is_utc c.now && is_code 127 (codes c.operation))) [
      | inr bad ↦ rw (step-refused c rows bad) table
      | inl good ↦
          let utc : is_utc c.now ≡ true = and-left _ _ good in
          let operation : is_code 127 (codes c.operation) ≡ true = and-right _ _ good in
          elim (Option-cases (find_slot (call_slot c) rows)) [
            | inl vacant ↦ rw (step-vacant c rows utc operation call fresh table vacant) (record {
              sound =
                  All-append IsSound rows (claiming_row c) table.sound
                    (new_row-IsSound c.clock _ (candidate_of c) rows call.0 call.1 call.2);
              unique = append-Unique row_key rows (claiming_row c) table.unique fresh;
            })
            | inr (r, found) ↦
                rw (step-taken c rows utc operation call fresh table r found)
                  (elim (Bool-cases (repeats c (holder_of r) && may_take c r r.status)) [
                    | inr kept ↦ rw kept table
                    | inl taken ↦ rw taken (
                        update_where-IsTable (take_test c r) (take_change c)
                          (restarted_row-id c.prepared.request_fingerprint _)
                          (λ x. restarted_row-IsSound c.prepared.request_fingerprint _ x call.2)
                          rows table)
                  ])
          ]
    ]

complete-IsTable :
    (r : IdempotencyReservation) (result : IdempotencyResultReference) (now : DateTime)
    (rows : List IdempotencyRow)
    → IsTable rows
    → check_result result ≡ ok tt
    → IsTable (step (complete_call r result now) rows)
complete-IsTable r result now rows table checked = elim (Bool-cases (is_replay r)) [
  | inl replay ↦ rw (step-replay_complete r now rows result replay) table
  | inr first_run ↦ elim (Bool-cases (is_utc now)) [
    | inr zone ↦ rw (step-zone_complete r now rows result first_run zone) table
    | inl utc ↦ elim (Result-cases (serialize_result_type result)) [
      | inr (e, large) ↦ rw (step-large_complete r now rows result first_run utc e large) table
      | inl (w, written) ↦ rw (step_complete r result now w rows table first_run utc written) (
          update_where-IsTable (is_open r.record_id r.request_fingerprint)
            (completed_record w result.result_id now.instant)
            (completed_record-id w result.result_id now.instant)
            (λ x. completed_record-IsSound result w now.instant x checked written) rows table)
    ]
  ]
]

fail-IsTable :
    (r : IdempotencyReservation) (now : DateTime) (rows : List IdempotencyRow)
    → IsTable rows
    → IsTable (step (fail_call r now) rows)
fail-IsTable r now rows table = elim (Bool-cases (is_replay r)) [
  | inl replay ↦ rw (step-replay-fail r now rows replay) table
  | inr first_run ↦ elim (Bool-cases (is_utc now)) [
    | inr zone ↦ rw (step-zone-fail r now rows first_run zone) table
    | inl utc ↦ rw (step-fail r now rows table first_run utc) (
        update_where-IsTable (is_open r.record_id r.request_fingerprint) (failed_record now.instant)
          (failed_record-id now.instant) (failed_record-IsSound now.instant) rows table)
  ]
]

pub step-IsTable :
    (c : Call) (rows : List IdempotencyRow)
    → IsTable rows
    → IsCall c
    → IsFresh c rows
    → IsTable (step c rows)
step-IsTable (reserve_call c) rows table call fresh = reserve-IsTable c rows table call fresh
step-IsTable (complete_call r result now) rows table call fresh =
    complete-IsTable r result now rows table call
step-IsTable (fail_call r now) rows table call fresh = fail-IsTable r now rows table

-- Any calls of reserve, complete and fail, with fresh record ids and checked values, keep a table
-- sound: its ids are unique, both digests of each row have 32 bytes, each scope passes its check, a
-- completed row holds a checked result as it was written and the other rows hold none.
pub run-IsTable :
    (cs : List Call) (rows : List IdempotencyRow)
    → IsTable rows
    → AreCalls cs rows
    → IsTable (run cs rows)
unfolding run
run-IsTable [] rows table calls = table
run-IsTable (c ∷ cs) rows table calls =
    run-IsTable cs (step c rows) (step-IsTable c rows table calls.0 calls.1) calls.2

-- Whatever calls of reserve, complete and fail run on a sound table, with fresh record ids and
-- checked values, the state of every slot afterwards is the one that the life of that key alone
-- gives from its state before: free, running, finished or failed, with its holder, its expiry and
-- its result.
pub run-refines-life :
    (s : Slot) (cs : List Call) (rows : List IdempotencyRow)
    → IsTable rows
    → AreCalls cs rows
    → view s (run cs rows) ≡ life s cs (view s rows)
unfolding run life
run-refines-life s [] rows table calls = refl
run-refines-life s (c ∷ cs) rows table calls =
    rw
      (
        run-refines-life s cs (step c rows) (step-IsTable c rows table calls.0 calls.1) calls.2,
        step-refines s c rows table calls.0 calls.1,
      )
      refl
