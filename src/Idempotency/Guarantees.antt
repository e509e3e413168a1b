-- ===== src/Idempotency/Guarantees.antt =====
-- What a client of `IdempotencyService` relies on (application/idempotency.py): a finished request is
-- replayed, a running one excludes others, and a failed or expired one is recovered.
use mathlib.Core.Path.{subst}
use lawyer_agent.Prelude.{
  ℕ, ◌≡◌, ◌≢◌, refl, ap, ◌∙◌, inl, inr, true, Option, none, some, List, [], ◌∷◌, arith,
  Option-cases, if◌then◌else◌, Result, ok, err, codes, same_option,
}
use lawyer_agent.Common.{Uuid, DateTime, is_utc}
use lawyer_agent.JobStore.Inbox.{same_bytes}
use lawyer_agent.JobStore.Tables.{find}
use lawyer_agent.Idempotency.Types.{
  IdempotencyError, StoredIdempotencyRecord, IdempotencyStatus, reserved, completed, failed,
  IdempotencyReservation, IdempotencyResultReference, is_code,
}
use lawyer_agent.Idempotency.Slots.{Slot}
use lawyer_agent.Idempotency.Table.{StoredResultType, IdempotencyRow, row_key, find_slot}
use lawyer_agent.Idempotency.Service.{reservation, resume}
use lawyer_agent.Idempotency.Keys.{
  Holder, free, finished, Reserve, Call, reserve_call, complete_call, fail_call, call_slot, claim,
  advance, life,
}
use lawyer_agent.Idempotency.Sound.{
  decoded, IsTable, holder_of, view, view_status, view_result, run, IsCall, AreCalls,
}
use lawyer_agent.Idempotency.Acquiring.{stored_of, result_of}
use lawyer_agent.Idempotency.Outcomes.{reserve_of, reserve-taken}
use lawyer_agent.Idempotency.Invariant.{run-IsTable, run-refines-life}

-- A finished key stays finished.
advance-finished :
    (s : Slot) (c : Call) (h : Holder) (result : IdempotencyResultReference)
    → advance s c (finished h result) ≡ finished h result
unfolding advance claim
advance-finished s (reserve_call c) h result = ground arith
advance-finished s (complete_call r other now) h result = ground arith
advance-finished s (fail_call r now) h result = ground arith

life-finished :
    (s : Slot) (cs : List Call) (h : Holder) (result : IdempotencyResultReference)
    → life s cs (finished h result) ≡ finished h result
unfolding life
life-finished s [] h result = refl
life-finished s (c ∷ cs) h result = rw (advance-finished s c h result) (life-finished s cs h result)

-- The row of a finished key.
pub record IsFinished (s : Slot) (rows : List IdempotencyRow) (h : Holder)
    (result : IdempotencyResultReference) : Type 0 where
  pub row : IdempotencyRow
  pub found : find_slot s rows ≡ some row
  pub holder : holder_of row ≡ h
  pub is_completed : row.status ≡ completed
  pub holds : result_of row.status row.result_type row.result_id ≡ some result

finished-inside :
    (h h' : Holder) (a b : IdempotencyResultReference)
    → finished h a ≡ finished h' b
    → (h ≡ h') × (a ≡ b)
finished-inside h h' a b e = (cc, cc)

view_result-finished :
    (h0 h : Holder) (t : Option StoredResultType) (i : Option Uuid)
    (result : IdempotencyResultReference)
    → view_result h0 t i ≡ finished h result
    → (h0 ≡ h) × (result_of completed t i ≡ some result)
view_result-finished h0 h none i result e = cc
view_result-finished h0 h (some t) none result e = cc
view_result-finished h0 h (some t) (some i) result e =
    let (same, held) = finished-inside h0 h (decoded t i) result e in (same, ap some held)

view_status-finished :
    (r : IdempotencyRow) (st : IdempotencyStatus) (h : Holder) (result : IdempotencyResultReference)
    → view_status st r ≡ finished h result
    → (holder_of r ≡ h) × (st ≡ completed) × (result_of st r.result_type r.result_id ≡ some result)
view_status-finished r reserved h result e = cc
view_status-finished r failed h result e = cc
view_status-finished r completed h result e =
    let (same, held) = view_result-finished (holder_of r) h r.result_type r.result_id result e in
    (same, refl, held)

free-not-finished : (h : Holder) (result : IdempotencyResultReference) → free ≢ finished h result
free-not-finished h result e = cc

finished-IsFinished :
    (s : Slot) (rows : List IdempotencyRow) (h : Holder) (result : IdempotencyResultReference)
    → view s rows ≡ finished h result
    → IsFinished s rows h result
unfolding view
finished-IsFinished s rows h result v = elim (Option-cases (find_slot s rows)) [
  | inl vacant ↦ absurd (free-not-finished h result (rw vacant at v))
  | inr (r, found) ↦
      let (same, done, held) = view_status-finished r r.status h result (rw found at v) in
      record { row = r; found = found; holder = same; is_completed = done; holds = held }
]

-- A request in a taken slot: another tenant's and another request are refused.
abbrev pub answer :
    Reserve
    → Holder
    → Result IdempotencyError (IdempotencyReservation × List IdempotencyRow)
    → Result IdempotencyError (IdempotencyReservation × List IdempotencyRow)
answer c h otherwise =
    if same_option h.tenant_id c.scope.tenant_id
    then (if same_bytes h.fingerprint c.prepared.request_fingerprint
        then otherwise
        else err IdempotencyError.conflict)
    else err (IdempotencyError.state "idempotency scope collision")

-- A call whose time and operation are in form, on a table where its id is fresh.
pub record IsRequest (c : Reserve) (rows : List IdempotencyRow) : Type 0 where
  pub utc : is_utc c.now ≡ true
  pub operation : is_code 127 (codes c.operation) ≡ true
  pub call : IsCall (reserve_call c)
  pub fresh : find row_key c.new_id rows ≡ none

resume-completed :
    (ttl : ℕ) (now : DateTime) (stored : StoredIdempotencyRecord) (fingerprint : List ℕ)
    (rows : List IdempotencyRow) (st : IdempotencyStatus) (held : Option IdempotencyResultReference)
    (result : IdempotencyResultReference)
    → st ≡ completed
    → held ≡ some result
    → resume ttl now stored fingerprint st held rows
      ≡ ok (reservation stored.id fingerprint (some result), rows)
resume-completed ttl now stored fingerprint rows st held result e f = rw (e, f) refl

finished-answer :
    (c : Reserve) (rows : List IdempotencyRow) (h : Holder) (result : IdempotencyResultReference)
    → IsTable rows
    → IsRequest c rows
    → view (call_slot c) rows ≡ finished h result
    → reserve_of c rows
      ≡ answer c h (ok (reservation h.record_id c.prepared.request_fingerprint (some result), rows))
finished-answer c rows h result table request v =
    let f = finished-IsFinished (call_slot c) rows h result v in
    subst
      (λ h'.
        reserve_of c rows
        ≡ answer c h'
            (ok (reservation h'.record_id c.prepared.request_fingerprint (some result), rows)))
      f.holder
      (reserve-taken c rows request.utc request.operation request.call request.fresh f.row table
          f.found
        ∙ ap (answer c (holder_of f.row)) (
            resume-completed c.ttl c.now (stored_of f.row) c.prepared.request_fingerprint rows
              f.row.status (result_of f.row.status f.row.result_type f.row.result_id) result
              f.is_completed f.holds))

-- On a sound table, a finished key answers a request in its slot, after any calls and with a fresh
-- record id and a UTC time: of its holder's tenant and with its fingerprint by the result, with
-- another fingerprint by a conflict, of another tenant by a scope collision. The table is left as it
-- is.
pub finished-Replays :
    (c : Reserve) (cs : List Call) (rows : List IdempotencyRow) (h : Holder)
    (result : IdempotencyResultReference)
    → IsTable rows
    → AreCalls cs rows
    → IsRequest c (run cs rows)
    → view (call_slot c) rows ≡ finished h result
    → reserve_of c (run cs rows)
      ≡ answer c h
          (ok (reservation h.record_id c.prepared.request_fingerprint (some result), run cs rows))
finished-Replays c cs rows h result table calls request v =
    finished-answer c (run cs rows) h result (run-IsTable cs rows table calls) request (
      run-refines-life (call_slot c) cs rows table calls
      ∙ ap (life (call_slot c) cs) v
      ∙ life-finished (call_slot c) cs h result)
