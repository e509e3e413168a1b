-- ===== src/JobStore/Inbox.antt =====
-- The inbox of the workers: `inbox_row`, `insert_inbox_accepted`, `complete_inbox_terminal` and
-- `bind_inbox_processing` of infrastructure/persistence/repositories/ai_jobs.py.
use lawyer_agent.Prelude.{
  ℕ, Bool, true, false, not, ◌&&◌, ◌||◌, Option, none, some, List, [], ◌∷◌, ◌++◌, String, is_none,
  any, length, ◌==◌, if◌then◌else◌, Result, ok, guard, ◌>>=◌, ◌>>◌,
}
use lawyer_agent.Common.{Uuid, DateTime}
use lawyer_agent.AiJobs.Status.{InboxStatus}
use lawyer_agent.AiJobs.Records.{check_uuid7}
use lawyer_agent.JobStore.Tables.{update_where}
use lawyer_agent.JobStore.Rows.{naive}

-- `AIJobInboxModel`
pub record InboxRow : Type 0 where
  pub id : Uuid
  pub tenant_id : Uuid
  pub message_id : Uuid
  pub job_id : Uuid
  pub envelope_digest : List ℕ
  pub nonce_digest : List ℕ
  pub status : InboxStatus
  pub first_received_at : ℕ
  pub last_received_at : ℕ
  pub delivery_count : ℕ
  pub handling_attempt_id : Option Uuid
  pub handling_fence : Option ℕ
  pub completed_at : Option ℕ
  pub rejection_code : Option String

abbrev pub inbox_key : InboxRow → Uuid
inbox_key r = r.id

abbrev pub same_bytes : List ℕ → List ℕ → Bool
same_bytes [] [] = true
same_bytes (x ∷ xs) (y ∷ ys) = x == y && same_bytes xs ys
same_bytes _ _ = false

-- SELECT by the unique pair of tenant and message.
abbrev pub find_message : Uuid → Uuid → List InboxRow → Option InboxRow
find_message tenant message [] = none
find_message tenant message (r ∷ rs) =
    if r.tenant_id == tenant && r.message_id == message
    then some r
    else find_message tenant message rs

unfoldable pub inbox_row : Uuid → Uuid → List InboxRow → Result String (Option InboxRow)
unfolding check_uuid7
inbox_row tenant_id message_id rows = do
  check_uuid7 "inbox tenant_id" tenant_id
  check_uuid7 "inbox message_id" message_id
  ok (find_message tenant_id message_id rows)

-- A row that breaks one of the table's unique keys: its id, its message or its nonce.
abbrev pub clashes : InboxRow → InboxRow → Bool
clashes new old =
    old.id == new.id
    || (old.tenant_id == new.tenant_id && old.message_id == new.message_id)
    || (old.tenant_id == new.tenant_id && same_bytes old.nonce_digest new.nonce_digest)

-- The row of a message that was not seen before.
abbrev pub accepted_row : Uuid → Uuid → Uuid → Uuid → List ℕ → List ℕ → ℕ → InboxRow
accepted_row inbox_id tenant_id message_id job_id envelope_digest nonce_digest at = record {
  id = inbox_id;
  tenant_id = tenant_id;
  message_id = message_id;
  job_id = job_id;
  envelope_digest = envelope_digest;
  nonce_digest = nonce_digest;
  status = InboxStatus.accepted;
  first_received_at = at;
  last_received_at = at;
  delivery_count = 1;
  handling_attempt_id = none;
  handling_fence = none;
  completed_at = none;
  rejection_code = none;
}

unfoldable pub insert_inbox_accepted :
    Uuid
    → Uuid
    → Uuid
    → Uuid
    → List ℕ
    → List ℕ
    → DateTime
    → List InboxRow
    → Result String (List InboxRow)
unfolding naive check_uuid7
insert_inbox_accepted inbox_id tenant_id message_id job_id envelope_digest nonce_digest now rows =
    do
      check_uuid7 "inbox id" inbox_id
      check_uuid7 "inbox tenant_id" tenant_id
      check_uuid7 "inbox message_id" message_id
      check_uuid7 "inbox job_id" job_id
      guard (length envelope_digest == 32) "inbox envelope digest must be 32 bytes"
      guard (length nonce_digest == 32) "inbox nonce digest must be 32 bytes"
      at ← naive now
      let row = accepted_row inbox_id tenant_id message_id job_id envelope_digest nonce_digest at
      guard (not (any (clashes row) rows)) "duplicate key"
      ok (rows ++ row ∷ [])

abbrev is_accepted : InboxStatus → Bool
is_accepted InboxStatus.accepted = true
is_accepted _ = false

abbrev is_processing : InboxStatus → Bool
is_processing InboxStatus.processing = true
is_processing _ = false

unfoldable pub may_complete : Uuid → InboxRow → Bool
may_complete inbox_id r =
    r.id == inbox_id
    && is_none r.handling_attempt_id
    && is_none r.handling_fence
    && (is_accepted r.status || is_processing r.status)

unfoldable pub completed_row : Option String → ℕ → InboxRow → InboxRow
completed_row rejection_code now r = record r {
  status = InboxStatus.completed;
  completed_at = some now;
  rejection_code = rejection_code;
}

unfoldable pub complete_inbox_terminal :
    Uuid → Option String → DateTime → List InboxRow → Result String (Bool × List InboxRow)
unfolding naive check_uuid7 may_complete completed_row
complete_inbox_terminal inbox_id rejection_code now rows = do
  check_uuid7 "inbox id" inbox_id
  at ← naive now
  let (rows', rowcount) =
      update_where (may_complete inbox_id) (completed_row rejection_code at) rows
  ok (rowcount == 1, rows')

unfoldable pub may_bind : Uuid → InboxRow → Bool
may_bind inbox_id r =
    r.id == inbox_id
    && is_none r.handling_attempt_id
    && is_none r.handling_fence
    && is_accepted r.status

unfoldable pub bound_row : Uuid → ℕ → ℕ → InboxRow → InboxRow
bound_row attempt_id lease_fence now r = record r {
  status = InboxStatus.processing;
  handling_attempt_id = some attempt_id;
  handling_fence = some lease_fence;
  last_received_at = now;
}

unfoldable pub bind_inbox_processing :
    Uuid → Uuid → ℕ → DateTime → List InboxRow → Result String (Bool × List InboxRow)
unfolding naive check_uuid7 may_bind bound_row
bind_inbox_processing inbox_id attempt_id lease_fence now rows = do
  check_uuid7 "inbox id" inbox_id
  check_uuid7 "attempt id" attempt_id
  at ← naive now
  let (rows', rowcount) =
      update_where (may_bind inbox_id) (bound_row attempt_id lease_fence at) rows
  ok (rowcount == 1, rows')
