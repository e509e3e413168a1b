-- ===== src/Examples/Deliveries.antt =====
-- The outbox, and the worker's deliveries of one message.
use lawyer_agent.Prelude.{
  err, true, ◌+◌, ℕ, ◌≡◌, refl, Bool, false, none, some, List, [], ◌∷◌, ◌++◌, String, Result, ok,
}
use lawyer_agent.Common.{Uuid, at_utc}
use lawyer_agent.AiJobs.Timing.{seconds}
use lawyer_agent.AiJobs.Policy.{JobAuthoritySnapshot}
use lawyer_agent.AiJobs.Grants.{IsAuthorized}
use lawyer_agent.JobStore.Claiming.{JobTables, new_attempt}
use lawyer_agent.JobStore.Messages.{
  OutboxRow, OutboxStatus, ClaimedOutbox, ClaimCandidate, Envelope, PublisherErrorCode,
}
use lawyer_agent.JobStore.Outbox.{claim_outbox_batch}
use lawyer_agent.JobStore.Settlements.{Settlement, settle}
use lawyer_agent.JobStore.Publishing.{PublishReceipt}
use lawyer_agent.JobStore.Superseding.{superseded_claim}
use lawyer_agent.JobStore.Settling.{OutboxCall, outbox_run, settle_once}
use lawyer_agent.Worker.{Delivery, DeliveryDecision, WorkerStore, accept_delivery, claim_request}
use lawyer_agent.Worker.Deliveries.{accept_all, accept_delivery_once, after}
use lawyer_agent.Worker.Attempts.{accept_delivery_claims, accept_delivery_idle}
use lawyer_agent.AiJobs.Records.{
  check_job, check_job_identifiers, check_job_numbers, check_job_times,
}
use lawyer_agent.AiJobs.Requests.{check_claimed_execution}
use lawyer_agent.Examples.Data.{uuid, bytes_32, tables, grant, authority}

abbrev envelope : Envelope
envelope = record {
  schema_version = 1;
  message_id = uuid 9;
  job_id = uuid 1;
  tenant_id = uuid 2;
  correlation_id = uuid 6;
  issued_at = at_utc (seconds 150);
  nonce = "bm9uY2U";
  signature = "c2ln";
}

abbrev publishing_row : OutboxRow
publishing_row = record {
  id = uuid 12;
  tenant_id = uuid 2;
  job_id = uuid 1;
  routing_key = "ai.jobs";
  schema_version = 1;
  correlation_id = some (uuid 6);
  available_at = seconds 100;
  message_id = some (uuid 9);
  nonce = some "bm9uY2U";
  issued_at = some (seconds 150);
  signature = some "c2ln";
  envelope_digest = some bytes_32;
  status = OutboxStatus.publishing;
  claim_owner = some "publisher";
  claim_token = some (uuid 13);
  claim_fence = some 1;
  claim_expires_at = some (seconds 180);
  publish_attempt_count = 1;
  max_publish_attempts = 5;
  last_error_code = none;
  published_at = none;
  confirmed_at = none;
  version = 2;
}

abbrev outbox_claim : ClaimedOutbox
outbox_claim = record {
  id = uuid 12;
  tenant_id = uuid 2;
  job_id = uuid 1;
  routing_key = "ai.jobs";
  envelope = envelope;
  envelope_digest = bytes_32;
  claim_token = uuid 13;
  claim_fence = 1;
  version = 2;
  publish_attempt_count = 1;
  max_publish_attempts = 5;
}

abbrev factory : ClaimCandidate → Envelope
factory c = envelope

abbrev pub envelope_digest : Envelope → List ℕ
envelope_digest e = bytes_32

abbrev new_token : Uuid → Uuid
new_token id = uuid 14

abbrev none_locked : Uuid → Bool
none_locked id = false

abbrev gave_up : Settlement
gave_up = Settlement.gives_up PublisherErrorCode.rabbit_timeout (at_utc (seconds 160))

abbrev confirmed : Settlement
confirmed = Settlement.confirms (at_utc (seconds 170))

-- The row is released, claimed again by another publisher, and confirmed too late by the first.
abbrev released_rows : List OutboxRow
unfolding outbox_run
released_rows =
    outbox_run factory envelope_digest new_token none_locked
      (OutboxCall.settles outbox_claim gave_up ∷ []) (publishing_row ∷ [])

abbrev next_claims : List OutboxCall
next_claims = OutboxCall.claims (at_utc (seconds 166)) (at_utc (seconds 196)) "publisher" 10 ∷ []

settle_once_example :
    settle outbox_claim confirmed
      (outbox_run factory envelope_digest new_token none_locked next_claims released_rows)
    ≡ ok (false, outbox_run factory envelope_digest new_token none_locked next_claims released_rows)
unfolding settle outbox_run
settle_once_example =
    settle_once factory envelope_digest new_token none_locked outbox_claim gave_up confirmed
      (publishing_row ∷ []) released_rows next_claims (refl, tt) refl refl

abbrev pub nonce_digest : String → List ℕ
nonce_digest nonce = bytes_32

abbrev load : Uuid → Uuid → JobTables → Result String JobAuthoritySnapshot
load tenant_id job_id _ = ok authority

abbrev pub delivery : Delivery
delivery = record {
  tenant_id = uuid 2;
  message_id = uuid 9;
  job_id = uuid 1;
  envelope = envelope;
  now = at_utc (seconds 200);
  inbox_id = uuid 15;
  lease_token = uuid 7;
  attempt_id = uuid 8;
}

abbrev redelivery : Delivery
redelivery = record delivery { now = at_utc (seconds 210); inbox_id = uuid 16 }

abbrev pub store : WorkerStore
store = record { inbox = []; tables = tables }

abbrev store_after : WorkerStore
unfolding accept_delivery authority
store_after =
    after (accept_delivery envelope_digest nonce_digest load "worker" 60 delivery store) store

accept_delivery_once_example :
    accept_delivery envelope_digest nonce_digest load "worker" 60 redelivery
      (accept_all envelope_digest nonce_digest load "worker" 60 (delivery ∷ []) store_after)
    ≡ ok (
      DeliveryDecision.ack_duplicate,
      accept_all envelope_digest nonce_digest load "worker" 60 (delivery ∷ []) store_after,
    )
unfolding accept_delivery store_after authority check_job check_job_identifiers check_job_numbers
    check_job_times check_claimed_execution
accept_delivery_once_example =
    accept_delivery_once envelope_digest nonce_digest load "worker" 60 delivery redelivery
      (delivery ∷ []) store store_after DeliveryDecision.ack_claimed refl refl refl refl

accept_delivery_claims_example :
    (a : JobAuthoritySnapshot) × (load (uuid 2) (uuid 1) tables ≡ ok a)
    × IsAuthorized a (at_utc (seconds 200))
    × (store_after.tables.attempts
        ≡ []
          ++ new_attempt
              (claim_request envelope_digest nonce_digest load "worker" 60 delivery a)
              (seconds 200)
            ∷ [])
unfolding accept_delivery store_after authority check_job check_job_identifiers check_job_numbers
    check_job_times check_claimed_execution
accept_delivery_claims_example =
    accept_delivery_claims envelope_digest nonce_digest load "worker" 60 delivery store store_after
      refl

-- The grant was revoked before the first delivery.
abbrev load_revoked : Uuid → Uuid → JobTables → Result String JobAuthoritySnapshot
load_revoked tenant_id job_id _ = ok (record authority {
  grant = record grant {
    revoked_at = some (at_utc (seconds 190));
    revocation_reason_code = some "member_removed";
  };
})

abbrev denied_store : WorkerStore
unfolding accept_delivery authority
denied_store =
    after (accept_delivery envelope_digest nonce_digest load_revoked "worker" 60 delivery store)
      store

accept_delivery_idle_example : denied_store.tables.attempts ≡ []
unfolding accept_delivery denied_store authority
accept_delivery_idle_example =
    accept_delivery_idle envelope_digest nonce_digest load_revoked "worker" 60 delivery store
      denied_store DeliveryDecision.ack_terminal refl (λ e. cc)

-- A message that waits in the outbox, and a broker that confirms it.
abbrev waiting_row : OutboxRow
waiting_row = record publishing_row {
  status = OutboxStatus.pending;
  claim_owner = none;
  claim_token = none;
  claim_fence = none;
  claim_expires_at = none;
}

abbrev confirming : Envelope → String → PublishReceipt
confirming e routing_key = record { confirmed = true; error_code = none }

-- The claim ran out and another publisher claimed the row before the first one confirmed it.
abbrev batch_at : ℕ → List OutboxRow → List OutboxRow × List ClaimedOutbox
unfolding claim_outbox_batch
batch_at now rows = batch_of (
    claim_outbox_batch factory envelope_digest new_token none_locked (at_utc now)
      (at_utc (now + seconds 30)) "publisher" 10 rows)
  where
    batch_of :
        Result String (List OutboxRow × List ClaimedOutbox) → List OutboxRow × List ClaimedOutbox
    batch_of (ok b) = b
    batch_of (err e) = ([], [])

abbrev no_claim : ClaimedOutbox
no_claim = record outbox_claim { version = 0 }

abbrev first_claim_of : List ClaimedOutbox → ClaimedOutbox
first_claim_of [] = no_claim
first_claim_of (c ∷ _) = c

abbrev first_batch : List OutboxRow × List ClaimedOutbox
unfolding batch_at
first_batch = batch_at (seconds 160) (waiting_row ∷ [])

abbrev second_batch : List OutboxRow × List ClaimedOutbox
unfolding batch_at first_batch
second_batch = batch_at (seconds 200) first_batch.0

superseded_claim_example :
    settle (first_claim_of first_batch.1) confirmed second_batch.0 ≡ ok (false, second_batch.0)
unfolding settle outbox_run claim_outbox_batch first_batch second_batch batch_at
superseded_claim_example =
    superseded_claim factory envelope_digest new_token none_locked (uuid 12)
      (first_claim_of first_batch.1) (first_claim_of second_batch.1) confirmed (waiting_row ∷ [])
      first_batch.0 second_batch.0 first_batch.1 second_batch.1 (at_utc (seconds 160))
      (at_utc (seconds 190)) (at_utc (seconds 200)) (at_utc (seconds 230)) "publisher" "publisher"
      10 10 [] [] (refl, tt) refl refl refl refl refl
