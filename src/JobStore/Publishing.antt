-- ===== src/JobStore/Publishing.antt =====
-- `OutboxPublisherService.publish_batch` of backend/src/lawyer_agent/application/ai_job_runtime.py. The
-- broker is the function that answers a message with its receipt. Each operation of the outbox
-- commits by itself (infrastructure/persistence/outbox_claim.py); no other publisher acts between two
-- operations of the batch.
use lawyer_agent.Prelude.{
  ℕ, ◌+◌, Bool, true, false, Option, none, some, List, [], ◌∷◌, String, length, if◌then◌else◌,
  Result, ok, err, ◌>>=◌,
}
use lawyer_agent.Common.{Uuid, DateTime}
use lawyer_agent.AiJobs.Timing.{seconds}
use lawyer_agent.JobStore.Messages.{
  OutboxRow, ClaimedOutbox, ClaimCandidate, Envelope, PublisherErrorCode,
}
use lawyer_agent.JobStore.Outbox.{claim_outbox_batch, mark_published, release_or_block}

pub record PublishReceipt : Type 0 where
  pub confirmed : Bool
  pub error_code : Option PublisherErrorCode

pub record PublishBatchResult : Type 0 where
  pub claimed : ℕ
  pub published : ℕ
  pub failed : ℕ

-- `receipt.error_code or PublisherErrorCode.RABBIT_TIMEOUT`
abbrev pub error_or_timeout : Option PublisherErrorCode → PublisherErrorCode
error_or_timeout none = PublisherErrorCode.rabbit_timeout
error_or_timeout (some error_code) = error_code

-- What an operation answers, and the rows that it has committed.
abbrev pub Committed : Type 0 → Type 0
Committed A = Result String A × List OutboxRow

-- Each operation of the outbox is a transaction of its own: one that raises changes nothing.
abbrev pub in_transaction :
    {A : Type 0} → Result String (A × List OutboxRow) → List OutboxRow → Committed A
in_transaction (ok (a, rows')) rows = (ok a, rows')
in_transaction (err e) rows = (err e, rows)

-- An error ends the batch, with the rows committed before it.
abbrev pub and_then :
    {A B : Type 0} → Committed A → (A → List OutboxRow → Committed B) → Committed B
and_then (ok a, rows) f = f a rows
and_then (err e, rows) f = (err e, rows)

-- The `else` branch: the claim is given up, and the message counts as failed.
unfoldable pub give_up : PublishReceipt → ClaimedOutbox → DateTime → List OutboxRow → Committed Bool
unfolding release_or_block
give_up receipt claim now rows =
    and_then
      (in_transaction (release_or_block claim (error_or_timeout receipt.error_code) now rows) rows)
      (λ _ rows'. (ok false, rows'))

-- The branches, by whether the outbox has marked the row.
unfoldable pub after_marking :
    Bool → PublishReceipt → ClaimedOutbox → DateTime → List OutboxRow → Committed Bool
unfolding give_up
after_marking true receipt claim now rows = (ok true, rows)
after_marking false receipt claim now rows = give_up receipt claim now rows

-- One turn of the loop: whether the message counts as published, and the rows. `and` asks the outbox
-- only for a confirmed receipt.
unfoldable pub publish_one :
    PublishReceipt → ClaimedOutbox → DateTime → List OutboxRow → Committed Bool
unfolding mark_published after_marking
publish_one receipt claim now rows =
    and_then
      (if receipt.confirmed
        then in_transaction (mark_published claim now rows) rows
        else (ok false, rows))
      (λ marked rows'. after_marking marked receipt claim now rows')

abbrev pub counted : Bool → ℕ × ℕ → ℕ × ℕ
counted true (published, failed) = (published + 1, failed)
counted false (published, failed) = (published, failed + 1)

module _ (publish : Envelope → String → PublishReceipt) where
  -- The loop over the claims, with the counts of published and failed messages.
  unfoldable pub publish_claims : List ClaimedOutbox → DateTime → List OutboxRow → Committed (ℕ × ℕ)
  unfolding publish_one
  publish_claims [] now rows = (ok (0, 0), rows)
  publish_claims (claim ∷ claims) now rows =
      and_then (publish_one (publish claim.envelope claim.routing_key) claim now rows)
        (λ published rows'.
          and_then (publish_claims claims now rows')
            (λ counts rows''. (ok (counted published counts), rows'')))

  abbrev pub batch_result : List ClaimedOutbox → ℕ × ℕ → PublishBatchResult
  batch_result claims (published, failed) = record {
    claimed = length claims;
    published = published;
    failed = failed;
  }

  module _ (factory : ClaimCandidate → Envelope) (digest : Envelope → List ℕ)
      (new_token : Uuid → Uuid) (locked : Uuid → Bool) where
    -- The claim of the batch, as a transaction.
    abbrev pub claim_batch : DateTime → ℕ → List OutboxRow → Committed (List ClaimedOutbox)
    claim_batch now limit rows =
        in_transaction
          (claim_outbox_batch factory digest new_token locked now
              (record now { instant = now.instant + seconds 30 }) "publisher" limit rows
            >>= λ (rows', claims). ok (claims, rows'))
          rows

    unfoldable pub publish_batch : DateTime → ℕ → List OutboxRow → Committed PublishBatchResult
    unfolding claim_outbox_batch publish_claims
    publish_batch now limit rows = and_then (claim_batch now limit rows) (λ claims rows'.
        and_then (publish_claims claims now rows')
          (λ counts rows''. (ok (batch_result claims counts), rows'')))
