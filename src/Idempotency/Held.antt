-- ===== src/Idempotency/Held.antt =====
-- The states that a held key shows (application/idempotency.py).
use lawyer_agent.Prelude.{ℕ, ◌≡◌, ◌≢◌, refl, Option, none, some, List}
use lawyer_agent.Common.{Uuid}
use lawyer_agent.Idempotency.Types.{
  IdempotencyStatus, reserved, completed, failed, IdempotencyResultReference,
}
use lawyer_agent.Idempotency.Slots.{Slot}
use lawyer_agent.Idempotency.Table.{StoredResultType, IdempotencyRow, find_slot}
use lawyer_agent.Idempotency.Keys.{Holder, free, running, finished, broken}
use lawyer_agent.Idempotency.Sound.{HasResult, holder_of, view_status, view_result}

-- The row of a key that some request holds.
pub record IsHeld (s : Slot) (rows : List IdempotencyRow) (h : Holder) (st : IdempotencyStatus)
    : Type 0 where
  pub row : IdempotencyRow
  pub found : find_slot s rows ≡ some row
  pub holder : holder_of row ≡ h
  pub status : row.status ≡ st

pub running-inside : (h h' : Holder) (m n : ℕ) → running h m ≡ running h' n → (h ≡ h') × (m ≡ n)
running-inside h h' m n e = (cc, cc)

pub broken-inside : (h h' : Holder) → broken h ≡ broken h' → h ≡ h'
broken-inside h h' e = cc

pub finished-not-broken :
    (h h' : Holder) (result : IdempotencyResultReference) → finished h result ≢ broken h'
finished-not-broken h h' result e = cc

pub free-not-running : (h : Holder) (until : ℕ) → free ≢ running h until
free-not-running h until e = cc

pub free-not-broken : (h : Holder) → free ≢ broken h
free-not-broken h e = cc

pub view_result-not-running :
    (h h' : Holder) (until : ℕ) (t : Option StoredResultType) (i : Option Uuid)
    → view_result h t i ≢ running h' until
view_result-not-running h h' until none i e = cc
view_result-not-running h h' until (some t) none e = cc
view_result-not-running h h' until (some t) (some i) e = cc

pub view_status-running :
    (r : IdempotencyRow) (st : IdempotencyStatus) (h : Holder) (until : ℕ)
    → view_status st r ≡ running h until
    → (holder_of r ≡ h) × (st ≡ reserved) × (r.expires_at ≡ until)
view_status-running r reserved h until e =
    let (same, at) = running-inside (holder_of r) h r.expires_at until e in (same, refl, at)
view_status-running r failed h until e = cc
view_status-running r completed h until e =
    absurd (view_result-not-running (holder_of r) h until r.result_type r.result_id e)

pub view_status-broken :
    (r : IdempotencyRow) (st : IdempotencyStatus) (h : Holder)
    → HasResult st r.result_type r.result_id
    → view_status st r ≡ broken h
    → (holder_of r ≡ h) × (st ≡ failed)
view_status-broken r reserved h has e = cc
view_status-broken r failed h has e = (broken-inside (holder_of r) h e, refl)
view_status-broken r completed h (result, checked, w, written, t, i) e =
    absurd (finished-not-broken (holder_of r) h _ (rw (t, i) at e))

-- The row that a state of a slot shows.
