-- ===== src/Idempotency/Keys.antt =====
-- One idempotency key on its own: the abstract life of a slot, which forgets the table, the row's
-- encoding, its version and its clock (application/idempotency.py, `IdempotencyService`).
use lawyer_agent.Prelude.{
  ℕ, ◌+◌, Bool, true, false, ◌&&◌, Option, String, List, [], ◌∷◌, codes, leb, ◌==◌, same_option,
  if◌then◌else◌, Result, ok, err,
}
use lawyer_agent.Common.{Uuid, DateTime, is_utc}
use lawyer_agent.JobStore.Inbox.{same_bytes}
use lawyer_agent.Idempotency.Types.{
  IdempotencyScope, IdempotencyResultReference, IdempotencyReservation, PreparedIdempotencyRequest,
  is_code,
}
use lawyer_agent.Idempotency.Slots.{Slot, same_slot}
use lawyer_agent.Idempotency.Table.{serialize_result_type}
use lawyer_agent.Idempotency.Service.{is_replay}

-- Who holds a key: the record, its tenant and the request's fingerprint.
pub record Holder : Type 0 where
  pub record_id : Uuid
  pub tenant_id : Option Uuid
  pub fingerprint : List ℕ

pub data KeyState : Type 0 where
  free : KeyState
  running : Holder → ℕ → KeyState
  finished : Holder → IdempotencyResultReference → KeyState
  broken : Holder → KeyState

-- The calls of the service, a request after `prepare`.
pub record Reserve : Type 0 where
  pub ttl : ℕ
  pub new_id : Uuid
  pub clock : ℕ
  pub scope : IdempotencyScope
  pub operation : String
  pub prepared : PreparedIdempotencyRequest
  pub now : DateTime

pub data Call : Type 0 where
  reserve_call : Reserve → Call
  complete_call : IdempotencyReservation → IdempotencyResultReference → DateTime → Call
  fail_call : IdempotencyReservation → DateTime → Call

abbrev pub call_slot : Reserve → Slot
call_slot c = record {
  scope_type = c.scope.scope_type;
  scope_id = c.scope.scope_id;
  operation = c.operation;
  key_hash = c.prepared.key_hash;
}

abbrev pub serializes {ℓ κ} : {E : Type ℓ} {A : Type κ} → Result E A → Bool
serializes (ok _) = true
serializes (err _) = false

-- A request of the same tenant with the same fingerprint.
abbrev pub repeats : Reserve → Holder → Bool
repeats c h =
    same_option h.tenant_id c.scope.tenant_id
    && same_bytes h.fingerprint c.prepared.request_fingerprint

-- A request claims a free key, and takes over the key of its own failed or expired attempt.
unfoldable pub claim : Reserve → KeyState → KeyState
claim c free =
    running
      (record {
        record_id = c.new_id;
        tenant_id = c.scope.tenant_id;
        fingerprint = c.prepared.request_fingerprint;
      })
      (c.now.instant + c.ttl)
claim c (running h until) =
    if repeats c h && leb until c.now.instant
    then running h (c.now.instant + c.ttl)
    else running h until
claim c (finished h result) = finished h result
claim c (broken h) = if repeats c h then running h (c.now.instant + c.ttl) else broken h

-- The holder of a running key settles it.
abbrev pub settle : IdempotencyReservation → (Holder → KeyState) → KeyState → KeyState
settle r outcome free = free
settle r outcome (running h until) =
    if h.record_id == r.record_id && same_bytes h.fingerprint r.request_fingerprint
    then outcome h
    else running h until
settle r outcome (finished h result) = finished h result
settle r outcome (broken h) = broken h

-- What one call does to the state of a slot.
unfoldable pub advance : Slot → Call → KeyState → KeyState
unfolding same_slot claim serialize_result_type
advance s (reserve_call c) k =
    if is_utc c.now && is_code 127 (codes c.operation) && same_slot (call_slot c) s
    then claim c k
    else k
advance s (complete_call r result now) k =
    if is_replay r
    then k
    else if is_utc now && serializes (serialize_result_type result)
    then settle r (λ h. finished h result) k
    else k
advance s (fail_call r now) k =
    if is_replay r then k else if is_utc now then settle r broken k else k

unfoldable pub life : Slot → List Call → KeyState → KeyState
unfolding advance
life s [] k = k
life s (c ∷ cs) k = life s cs (advance s c k)
