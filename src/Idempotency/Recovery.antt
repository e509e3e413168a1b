-- ===== src/Idempotency/Recovery.antt =====
-- A running key excludes other requests until it expires, and an expired or failed one is recovered
-- by its own request (application/idempotency.py: `reserve`).
use mathlib.Core.Path.{subst}
use lawyer_agent.Prelude.{
  ℕ, ◌+◌, ◌≤◌, ◌<◌, ◌≡◌, refl, sym, ap, ◌∙◌, inl, inr, true, false, ◌&&◌, Option, none, some, List,
  [], ◌∷◌, arith, leb, Option-cases, All, ◌==◌, Result, ok, err,
}
use lawyer_agent.JobStore.Inbox.{same_bytes}
use lawyer_agent.JobStore.Lookup.{first-All}
use lawyer_agent.Idempotency.Types.{
  IdempotencyError, IdempotencyStatus, reserved, failed, IdempotencyReservation,
  IdempotencyResultReference,
}
use lawyer_agent.Idempotency.Slots.{Slot, same_slot, same_slot_refl}
use lawyer_agent.Idempotency.Table.{IdempotencyRow, slot_of, find_slot}
use lawyer_agent.Idempotency.Service.{reservation, resume}
use lawyer_agent.Idempotency.Keys.{
  Holder, KeyState, running, broken, Reserve, Call, reserve_call, complete_call, fail_call,
  call_slot, claim, repeats, advance, life,
}
use lawyer_agent.Idempotency.Sound.{IsTable, IsSound, holder_of, view, run, AreCalls}
use lawyer_agent.Idempotency.Acquiring.{stored_of, result_of}
use lawyer_agent.Idempotency.Outcomes.{reserve_of, reserve-taken}
use lawyer_agent.Idempotency.Reserving.{may_take, resume-take, taken_over}
use lawyer_agent.Idempotency.Views.{view-taken_over}
use lawyer_agent.Idempotency.Guarantees.{IsRequest, answer}
use lawyer_agent.Idempotency.Decoding.{le→leb}
use lawyer_agent.Idempotency.Invariant.{run-IsTable, run-refines-life}
use lawyer_agent.Idempotency.Held.{
  IsHeld, free-not-running, free-not-broken, view_status-running, view_status-broken,
}

running-row :
    (s : Slot) (rows : List IdempotencyRow) (h : Holder) (until : ℕ)
    → view s rows ≡ running h until
    → (f : IsHeld s rows h reserved) × (f.row.expires_at ≡ until)
unfolding view
running-row s rows h until v = elim (Option-cases (find_slot s rows)) [
  | inl vacant ↦ absurd (free-not-running h until (rw vacant at v))
  | inr (r, found) ↦
      let (same, st, at) = view_status-running r r.status h until (rw found at v) in
      (record { row = r; found = found; holder = same; status = st }, at)
]

broken-row :
    (s : Slot) (rows : List IdempotencyRow) (h : Holder)
    → IsTable rows
    → view s rows ≡ broken h
    → IsHeld s rows h failed
unfolding view
broken-row s rows h table v = elim (Option-cases (find_slot s rows)) [
  | inl vacant ↦ absurd (free-not-broken h (rw vacant at v))
  | inr (r, found) ↦
      let sound = first-All (λ x. same_slot (slot_of x) s) IsSound rows r table.sound found in
      let (same, st) = view_status-broken r r.status h sound.result_matches (rw found at v) in
      record { row = r; found = found; holder = same; status = st }
]

resume-busy :
    (c : Reserve) (r : IdempotencyRow) (st : IdempotencyStatus)
    (held : Option IdempotencyResultReference) (rows : List IdempotencyRow)
    → st ≡ reserved
    → leb r.expires_at c.now.instant ≡ false
    → resume c.ttl c.now (stored_of r) c.prepared.request_fingerprint st held rows
      ≡ err IdempotencyError.in_progress
resume-busy c r st held rows e live = rw (e, live) refl

lt→not-leb : (a b : ℕ) → b < a → leb a b ≡ false
lt→not-leb a b h = ground arith

running-answer :
    (c : Reserve) (rows : List IdempotencyRow) (h : Holder) (until : ℕ)
    → IsTable rows
    → IsRequest c rows
    → view (call_slot c) rows ≡ running h until
    → c.now.instant < until
    → reserve_of c rows ≡ answer c h (err IdempotencyError.in_progress)
running-answer c rows h until table q v early =
    let (f, at) = running-row (call_slot c) rows h until v in
    subst (λ h'. reserve_of c rows ≡ answer c h' (err IdempotencyError.in_progress)) f.holder
      (reserve-taken c rows q.utc q.operation q.call q.fresh f.row table f.found
        ∙ ap (answer c (holder_of f.row)) (
            resume-busy c f.row f.row.status
              (result_of f.row.status f.row.result_type f.row.result_id) rows f.status
              (lt→not-leb f.row.expires_at c.now.instant (rw at early))))

-- A call that leaves a running key to its holder: it comes before the expiry, or settles another.
abbrev pub LeavesRunning : Holder → ℕ → Call → Type 0
LeavesRunning h until (reserve_call c) = c.now.instant < until
LeavesRunning h until (complete_call r result now) =
    (h.record_id == r.record_id && same_bytes h.fingerprint r.request_fingerprint) ≡ false
LeavesRunning h until (fail_call r now) =
    (h.record_id == r.record_id && same_bytes h.fingerprint r.request_fingerprint) ≡ false

advance-running :
    (s : Slot) (c : Call) (h : Holder) (until : ℕ)
    → LeavesRunning h until c
    → advance s c (running h until) ≡ running h until
unfolding advance claim
advance-running s (reserve_call c) h until leaves = ground arith
advance-running s (complete_call r result now) h until leaves = ground arith
advance-running s (fail_call r now) h until leaves = ground arith

life-running :
    (s : Slot) (cs : List Call) (h : Holder) (until : ℕ)
    → All (LeavesRunning h until) cs
    → life s cs (running h until) ≡ running h until
unfolding life
life-running s [] h until leaves = refl
life-running s (c ∷ cs) h until leaves =
    rw (advance-running s c h until leaves.0) (life-running s cs h until leaves.1)

-- On a sound table, let a key be running until some time, and let calls follow that come before that
-- time or settle other reservations. A request in the slot before that time is refused: of the
-- holder's tenant with the holder's fingerprint as in progress, of that tenant with another
-- fingerprint as a conflict, of another tenant as a scope collision.
pub running-Excludes :
    (c : Reserve) (cs : List Call) (rows : List IdempotencyRow) (h : Holder) (until : ℕ)
    → IsTable rows
    → AreCalls cs rows
    → view (call_slot c) rows ≡ running h until
    → All (LeavesRunning h until) cs
    → IsRequest c (run cs rows)
    → c.now.instant < until
    → reserve_of c (run cs rows) ≡ answer c h (err IdempotencyError.in_progress)
running-Excludes c cs rows h until table calls v leaves q early =
    running-answer c (run cs rows) h until (run-IsTable cs rows table calls) q
      (run-refines-life (call_slot c) cs rows table calls
        ∙ ap (life (call_slot c) cs) v
        ∙ life-running (call_slot c) cs h until leaves)
      early

-- A key that its own request may take over at a time.
pub data IsRecoverable (now : ℕ) (h : Holder) : KeyState → Type 0 where
  expired : {until : ℕ} → until ≤ now → IsRecoverable now h (running h until)
  failed_before : IsRecoverable now h (broken h)

-- The row of a recoverable key may be taken over.
recoverable-row :
    (c : Reserve) (rows : List IdempotencyRow) (h : Holder) (k : KeyState)
    → IsTable rows
    → IsRecoverable c.now.instant h k
    → view (call_slot c) rows ≡ k
    → (r : IdempotencyRow) × (find_slot (call_slot c) rows ≡ some r)
      × (holder_of r ≡ h)
      × (may_take c r r.status ≡ true)
recoverable-row c rows h _ table (expired {until} late) v =
    let (f, at) = running-row (call_slot c) rows h until v in
    (f.row, f.found, f.holder, rw (f.status, at, le→leb until c.now.instant late) refl)
recoverable-row c rows h _ table failed_before v =
    let f = broken-row (call_slot c) rows h table v in (f.row, f.found, f.holder, rw f.status refl)

recoverable-claim :
    (c : Reserve) (h : Holder) (k : KeyState)
    → IsRecoverable c.now.instant h k
    → repeats c h ≡ true
    → claim c k ≡ running h (c.now.instant + c.ttl)
unfolding claim
recoverable-claim c h _ (expired {until} late) again =
    rw (again, le→leb until c.now.instant late) refl
recoverable-claim c h _ failed_before again = rw again refl

-- What a recovery gives.
abbrev pub Recovered : Reserve → List IdempotencyRow → Holder → KeyState → Type 0
Recovered c rows h k =
    (rows' : List IdempotencyRow) × (reserve_of c rows
      ≡ ok (reservation h.record_id c.prepared.request_fingerprint none, rows'))
    × (view (call_slot c) rows' ≡ k)

own-row :
    (c : Reserve) (r : IdempotencyRow)
    → repeats c (holder_of r) ≡ true
    → (otherwise : Result IdempotencyError (IdempotencyReservation × List IdempotencyRow))
    → answer c (holder_of r) otherwise ≡ otherwise
own-row c r again otherwise = ground arith

row-recovers :
    (c : Reserve) (rows : List IdempotencyRow) (r : IdempotencyRow)
    → IsTable rows
    → IsRequest c rows
    → find_slot (call_slot c) rows ≡ some r
    → may_take c r r.status ≡ true
    → repeats c (holder_of r) ≡ true
    → Recovered c rows (holder_of r) (claim c (view (call_slot c) rows))
row-recovers c rows r table q found may again = (
  taken_over c r rows,
  reserve-taken c rows q.utc q.operation q.call q.fresh r table found
      ∙ ap (answer c (holder_of r)) (resume-take c rows r q.utc table found may)
      ∙ own-row c r again _,
  rw (view-taken_over (call_slot c) c rows r table found again may, same_slot_refl (call_slot c))
      refl,
)

-- On a sound table, when a key has failed, or ran until a time that is not after now, a request that
-- repeats its holder's, at a UTC time and with a fresh record id, is reserved under the same record
-- without a replay, and the key then runs until now plus the time to live.
pub reserve-Recovers :
    (c : Reserve) (rows : List IdempotencyRow) (h : Holder)
    → IsTable rows
    → IsRequest c rows
    → IsRecoverable c.now.instant h (view (call_slot c) rows)
    → repeats c h ≡ true
    → Recovered c rows h (running h (c.now.instant + c.ttl))
reserve-Recovers c rows h table q recoverable again =
    let (r, found, holder, may) =
      recoverable-row c rows h (view (call_slot c) rows) table recoverable refl in
    subst (Recovered c rows h) (recoverable-claim c h (view (call_slot c) rows) recoverable again) (
      subst (λ h'. Recovered c rows h' (claim c (view (call_slot c) rows))) holder
        (row-recovers c rows r table q found may
          (subst (λ h'. repeats c h' ≡ true) (sym holder) again)))
