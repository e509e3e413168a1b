-- ===== src/JobStore/Batches.antt =====
-- What a batch leaves of its claims.
use lawyer_agent.Prelude.{
  ℕ, ◌+◌, ◌≡◌, Bool, none, some, List, [], ◌∷◌, String, length, All, ok, if◌then◌else◌,
}
use lawyer_agent.Common.{Uuid, DateTime}
use lawyer_agent.AiJobs.Timing.{seconds}
use lawyer_agent.JobStore.Tables.{find}
use lawyer_agent.JobStore.Messages.{OutboxRow, ClaimedOutbox, ClaimCandidate, Envelope, outbox_key}
use lawyer_agent.JobStore.Outbox.{claim_outbox_batch}
use lawyer_agent.JobStore.Holding.{claim_key}
use lawyer_agent.JobStore.Publishing.{
  PublishReceipt, PublishBatchResult, publish_claims, publish_batch,
}
use lawyer_agent.JobStore.Turns.{outcome}

module _ (publish : Envelope → String → PublishReceipt) where
  abbrev pub receipt_of : ClaimedOutbox → PublishReceipt
  receipt_of c = publish c.envelope c.routing_key

  -- How many messages the broker confirms.
  abbrev pub confirmed_count : List ClaimedOutbox → ℕ
  confirmed_count [] = 0
  confirmed_count (c ∷ cs) =
      let n = confirmed_count cs in if (receipt_of c).confirmed then n + 1 else n

  -- The row of the claim has the status that the receipt gives it.
  pub record IsSettled (rows : List OutboxRow) (c : ClaimedOutbox) : Type 0 where
    pub row : OutboxRow
    pub found : find outbox_key c.id rows ≡ some row
    pub status : row.status ≡ outcome (receipt_of c) c

  -- What the loop returns and leaves.
  record IsLooped (claims : List ClaimedOutbox) (now : DateTime) (rows : List OutboxRow)
      : Type 0 where
    counts : ℕ × ℕ
    rows' : List OutboxRow
    returns : publish_claims publish claims now rows ≡ (ok counts, rows')
    published : counts.0 ≡ confirmed_count claims
    total : counts.0 + counts.1 ≡ length claims
    settled : All (IsSettled rows') claims
    others :
        (j : Uuid)
        → find claim_key j claims ≡ none
        → find outbox_key j rows' ≡ find outbox_key j rows

  module _ (factory : ClaimCandidate → Envelope) (digest : Envelope → List ℕ)
      (new_token : Uuid → Uuid) (locked : Uuid → Bool) (now : DateTime) (limit : ℕ)
      (rows : List OutboxRow) where
    -- A batch that was claimed, and settled by the receipts.
    pub record IsPublished : Type 0 where
      pub claims : List ClaimedOutbox
      pub mid : List OutboxRow
      pub claimed :
          claim_outbox_batch factory digest new_token locked now
            (record now { instant = now.instant + seconds 30 })
            "publisher"
            limit
            rows
          ≡ ok (mid, claims)
      pub result : PublishBatchResult
      pub rows' : List OutboxRow
      pub returns :
          publish_batch publish factory digest new_token locked now limit rows ≡ (ok result, rows')
      pub all_claimed : result.claimed ≡ length claims
      pub all_confirmed : result.published ≡ confirmed_count claims
      pub all_counted : result.published + result.failed ≡ result.claimed
      pub all_settled : All (IsSettled rows') claims
