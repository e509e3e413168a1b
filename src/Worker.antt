-- ===== src/Worker.antt =====
-- The worker's acceptance of a delivery: `AIJobWorkerService.accept_delivery` of
-- backend/src/lawyer_agent/application/ai_job_runtime.py. One delivery is one transaction over the
-- inbox and the job tables.
pub mod Record
pub mod Deliveries
pub mod Claims
pub mod Attempts
use lawyer_agent.Prelude.{
  ℕ, ◌+◌, ◌*◌, ◌≡◌, Bool, true, false, ◌||◌, Option, none, some, List, [], ◌∷◌, String, or_zero,
  if◌then◌else◌, Result, ok, err, ◌>>=◌, ◌>>◌,
}
use lawyer_agent.Common.{Uuid, DateTime}
use lawyer_agent.AiJobs.Status.{AiJobStatus, status_in}
use lawyer_agent.AiJobs.Timing.{seconds}
use lawyer_agent.AiJobs.Requests.{ClaimJobRequest, ClaimedExecution, check_claim_request}
use lawyer_agent.AiJobs.Policy.{JobAuthoritySnapshot, JobAuthorizationDecision, authorize}
use lawyer_agent.JobStore.Claiming.{JobTables, ClaimOutcome, claim_due_job, claimable_statuses}
use lawyer_agent.JobStore.Jobs.{fail_job_without_attempt}
use lawyer_agent.JobStore.Messages.{Envelope}
use lawyer_agent.JobStore.Inbox.{
  InboxRow, same_bytes, inbox_row, insert_inbox_accepted, complete_inbox_terminal,
  bind_inbox_processing,
}

pub data DeliveryDecision : Type 0 where
  ack_duplicate ack_terminal ack_claimed reject_no_requeue : DeliveryDecision

pub record WorkerStore : Type 0 where
  pub inbox : List InboxRow
  pub tables : JobTables

-- The arguments of `accept_delivery` and the identifiers that it draws.
pub record Delivery : Type 0 where
  pub tenant_id : Uuid
  pub message_id : Uuid
  pub job_id : Uuid
  pub envelope : Envelope
  pub now : DateTime
  pub inbox_id : Uuid
  pub lease_token : Uuid
  pub attempt_id : Uuid

abbrev pub later : DateTime → ℕ → DateTime
later t duration = record t { instant = t.instant + duration }

-- The digests, the port that loads the authority, and the settings of the service.
module _ (envelope_digest : Envelope → List ℕ) (nonce_digest : String → List ℕ)
    (load : Uuid → Uuid → JobTables → Result String JobAuthoritySnapshot)
    (worker_instance_ref : String) (lease_seconds : ℕ) where
  abbrev pub claim_request : Delivery → JobAuthoritySnapshot → ClaimJobRequest
  claim_request d authority = record {
    tenant_id = d.tenant_id;
    job_id = d.job_id;
    worker_instance_ref = worker_instance_ref;
    lease_token = d.lease_token;
    lease_fence = or_zero authority.job.lease_fence + 1;
    attempt_id = d.attempt_id;
    attempt_no = authority.job.current_attempt_no + 1;
    trigger_message_id = d.message_id;
    handler_code = authority.job.handler_code;
    handler_version = authority.job.handler_version;
    started_at = d.now;
    lease_expires_at = later d.now (seconds lease_seconds);
  }

  -- The branch of a grant that is denied.
  unfoldable pub deny_delivery :
      Delivery
      → JobAuthoritySnapshot
      → String
      → WorkerStore
      → Result String (DeliveryDecision × WorkerStore)
  unfolding complete_inbox_terminal fail_job_without_attempt
  deny_delivery d authority reason_code s = do
    (_, inbox) ← complete_inbox_terminal d.inbox_id (some reason_code) d.now s.inbox
    let failing =
        fail_job_without_attempt d.tenant_id d.job_id "authorization" reason_code d.now s.tables
    (_, tables) ←
        (if status_in authority.job.status claimable_statuses
          then failing
          else ok (false, s.tables))
    ok (DeliveryDecision.ack_terminal, record { inbox = inbox; tables = tables })

  -- What follows the claim.
  unfoldable pub settle_delivery :
      Delivery → ClaimOutcome → WorkerStore → Result String (DeliveryDecision × WorkerStore)
  unfolding complete_inbox_terminal bind_inbox_processing
  settle_delivery d ClaimOutcome.rejected s =
      complete_inbox_terminal d.inbox_id (some "job_not_claimable") d.now s.inbox >>= λ (_, inbox).
      ok (DeliveryDecision.ack_terminal, record s { inbox = inbox })
  settle_delivery d (ClaimOutcome.claimed found) s =
      bind_inbox_processing d.inbox_id found.attempt_id found.lease_fence d.now s.inbox
      >>= λ (_, inbox). ok (DeliveryDecision.ack_claimed, record s { inbox = inbox })

  -- The branch of a grant that is allowed.
  unfoldable pub claim_delivery :
      Delivery → JobAuthoritySnapshot → WorkerStore → Result String (DeliveryDecision × WorkerStore)
  unfolding check_claim_request claim_due_job settle_delivery
  claim_delivery d authority s = do
    check_claim_request (claim_request d authority)
    (outcome, tables) ← claim_due_job (claim_request d authority) s.tables
    settle_delivery d outcome (record s { tables = tables })

  -- The first delivery of a message.
  unfoldable pub accept_first :
      Delivery → WorkerStore → Result String (DeliveryDecision × WorkerStore)
  unfolding insert_inbox_accepted authorize deny_delivery claim_delivery
  accept_first d s = do
    inbox ←
        insert_inbox_accepted d.inbox_id d.tenant_id d.message_id d.job_id
          (envelope_digest d.envelope) (nonce_digest d.envelope.nonce) d.now s.inbox
    authority ← load d.tenant_id d.job_id s.tables
    let decision = authorize authority d.now
    let recorded : WorkerStore = record s { inbox = inbox }
    (if decision.allowed
        then claim_delivery d authority recorded
        else deny_delivery d authority decision.reason_code recorded)

  abbrev pub accept_again : Delivery → InboxRow → DeliveryDecision
  accept_again d existing =
      if same_bytes existing.envelope_digest (envelope_digest d.envelope)
      then DeliveryDecision.ack_duplicate
      else DeliveryDecision.reject_no_requeue

  unfoldable pub accept_delivery :
      Delivery → WorkerStore → Result String (DeliveryDecision × WorkerStore)
  unfolding inbox_row accept_first
  accept_delivery d s = do
    existing ← inbox_row d.tenant_id d.message_id s.inbox
    elim existing [ some r ↦ ok (accept_again d r, s) | none ↦ accept_first d s ]
