-- ===== src/JobStore/Outbox.antt =====
-- The transactional outbox: `claim_outbox_batch`, `mark_published` and `release_or_block` of
-- infrastructure/persistence/repositories/ai_jobs.py, on `ai_job_outbox`. The envelope factory, the
-- digest and the random claim tokens are arguments. The table stands in the order of its key.
use lawyer_agent.Prelude.{
  ℕ, zero, suc, ◌+◌, Bool, not, ◌&&◌, ◌||◌, Option, none, some, List, [], ◌∷◌, String, or_zero, leb,
  ◌==◌, if◌then◌else◌, Result, ok, err, ◌>>=◌,
}
use lawyer_agent.Common.{Uuid, DateTime}
use lawyer_agent.JobStore.Tables.{update_where}
use lawyer_agent.JobStore.Rows.{naive, aware}
use lawyer_agent.JobStore.Claiming.{column_is}
use lawyer_agent.AiJobs.Timing.{seconds}
use lawyer_agent.JobStore.Messages.{
  OutboxStatus, is_pending, is_publishing, PublisherErrorCode, Envelope, ClaimCandidate, OutboxRow,
  ClaimedOutbox, before,
}

-- The WHERE of the SELECT in `claim_outbox_batch`.
unfoldable pub is_due : ℕ → OutboxRow → Bool
is_due now r =
    (is_pending r.status && leb r.available_at now)
    || (is_publishing r.status && before r.claim_expires_at now)

-- `if value is None: raise RuntimeError(...)` of `_claimed_outbox`.
abbrev need : {A : Type 0} → Option A → Result String A
need none = err "claimed outbox envelope is incomplete"
need (some a) = ok a

-- `_claimed_outbox`
unfoldable pub claimed_outbox : OutboxRow → Result String ClaimedOutbox
claimed_outbox r = do
  message_id ← need r.message_id
  correlation_id ← need r.correlation_id
  nonce ← need r.nonce
  signature ← need r.signature
  issued_at ← need r.issued_at
  claim_token ← need r.claim_token
  claim_fence ← need r.claim_fence
  envelope_digest ← need r.envelope_digest
  ok (record {
    id = r.id;
    tenant_id = r.tenant_id;
    job_id = r.job_id;
    routing_key = r.routing_key;
    envelope = record {
      schema_version = r.schema_version;
      message_id = message_id;
      job_id = r.job_id;
      tenant_id = r.tenant_id;
      correlation_id = correlation_id;
      issued_at = aware issued_at;
      nonce = nonce;
      signature = signature;
    };
    envelope_digest = envelope_digest;
    claim_token = claim_token;
    claim_fence = claim_fence;
    version = r.version;
    publish_attempt_count = r.publish_attempt_count;
    max_publish_attempts = r.max_publish_attempts;
  })

module _ (factory : ClaimCandidate → Envelope) (digest : Envelope → List ℕ)
    (new_token : Uuid → Uuid) (locked : Uuid → Bool) where
  -- A row without a message gets its envelope when it is first claimed.
  unfoldable pub with_envelope : OutboxRow → Result String OutboxRow
  unfolding naive
  with_envelope r = elim r.message_id [
    | some _ ↦ ok r
    | none ↦ elim r.correlation_id [
      | none ↦ err "outbox row is missing its correlation id"
      | some c ↦
          let envelope = factory (record {
            tenant_id = r.tenant_id;
            job_id = r.job_id;
            correlation_id = c;
            schema_version = r.schema_version;
          }) in
          naive envelope.issued_at >>= λ issued_at. ok (record r {
            message_id = some envelope.message_id;
            nonce = some envelope.nonce;
            issued_at = some issued_at;
            signature = some envelope.signature;
            envelope_digest = some (digest envelope);
          })
    ]
  ]

  -- The assignments of the loop; the claim token is drawn anew for each row.
  unfoldable pub claim_row : ℕ → String → OutboxRow → OutboxRow
  claim_row claim_expires_at worker_ref r = record r {
    status = OutboxStatus.publishing;
    claim_owner = some worker_ref;
    claim_token = some (new_token r.id);
    claim_fence = some (or_zero r.claim_fence + 1);
    claim_expires_at = some claim_expires_at;
    publish_attempt_count = r.publish_attempt_count + 1;
    version = r.version + 1;
  }

  -- SELECT ... WHERE due ORDER BY id LIMIT limit FOR UPDATE SKIP LOCKED, and the loop over its rows.
  unfoldable pub claim_rows :
      ℕ → ℕ → String → ℕ → List OutboxRow → Result String (List OutboxRow × List ClaimedOutbox)
  unfolding is_due with_envelope claim_row claimed_outbox
  claim_rows now claim_expires_at worker_ref limit [] = ok ([], [])
  claim_rows now claim_expires_at worker_ref zero (r ∷ rs) = ok (r ∷ rs, [])
  claim_rows now claim_expires_at worker_ref (suc limit) (r ∷ rs) =
      let pass = claim_rows now claim_expires_at worker_ref (suc limit) rs >>= λ (rows, claims).
      ok (r ∷ rows, claims) in
      let take = with_envelope r >>= λ filled.
      claimed_outbox (claim_row claim_expires_at worker_ref filled) >>= λ claim.
      claim_rows now claim_expires_at worker_ref limit rs >>= λ (rows, claims).
      ok (claim_row claim_expires_at worker_ref filled ∷ rows, claim ∷ claims) in
      if is_due now r && not (locked r.id) then take else pass

  unfoldable pub claim_outbox_batch :
      DateTime
      → DateTime
      → String
      → ℕ
      → List OutboxRow
      → Result String (List OutboxRow × List ClaimedOutbox)
  unfolding naive claim_rows
  claim_outbox_batch now claim_expires_at worker_ref limit rows = do
    at ← naive now
    expires ← naive claim_expires_at
    claim_rows at expires worker_ref limit rows

-- The WHERE of `mark_published` and `release_or_block`.
unfoldable pub is_held : ClaimedOutbox → OutboxRow → Bool
is_held claim r =
    r.id == claim.id
    && column_is r.claim_token claim.claim_token
    && column_is r.claim_fence claim.claim_fence
    && r.version == claim.version
    && is_publishing r.status

unfoldable pub published_row : ℕ → OutboxRow → OutboxRow
published_row now r = record r {
  status = OutboxStatus.published;
  published_at = some now;
  confirmed_at = some now;
  version = r.version + 1;
}

unfoldable pub mark_published :
    ClaimedOutbox → DateTime → List OutboxRow → Result String (Bool × List OutboxRow)
unfolding naive is_held published_row
mark_published claim now rows = do
  at ← naive now
  let (rows', rowcount) = update_where (is_held claim) (published_row at) rows
  ok (rowcount == 1, rows')

unfoldable pub blocked_row : PublisherErrorCode → OutboxRow → OutboxRow
blocked_row error_code r = record r {
  status = OutboxStatus.blocked;
  last_error_code = some error_code;
  claim_owner = none;
  claim_token = none;
  claim_fence = none;
  claim_expires_at = none;
  version = r.version + 1;
}

unfoldable pub released_row : PublisherErrorCode → ℕ → OutboxRow → OutboxRow
released_row error_code available_at r = record r {
  status = OutboxStatus.pending;
  last_error_code = some error_code;
  claim_owner = none;
  claim_token = none;
  claim_fence = none;
  claim_expires_at = none;
  available_at = available_at;
  version = r.version + 1;
}

unfoldable pub release_or_block :
    ClaimedOutbox
    → PublisherErrorCode
    → DateTime
    → List OutboxRow
    → Result String (Bool × List OutboxRow)
unfolding naive is_held blocked_row released_row
release_or_block claim error_code now rows =
    if leb claim.max_publish_attempts claim.publish_attempt_count
    then (let (rows', rowcount) = update_where (is_held claim) (blocked_row error_code) rows in
        ok (rowcount == 1, rows'))
    else (naive now >>= λ at.
        let (rows', rowcount) =
          update_where (is_held claim) (released_row error_code (at + seconds 5)) rows in
        ok (rowcount == 1, rows'))
