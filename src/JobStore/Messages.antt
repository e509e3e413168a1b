-- ===== src/JobStore/Messages.antt =====
-- The outbox: its rows (infrastructure/persistence/models/ai_jobs.py), envelopes and claims
-- (application/ai_job_runtime.py, infrastructure/messaging/envelope.py).
use lawyer_agent.Prelude.{ℕ, Bool, true, false, Option, none, some, List, String, ltb}
use lawyer_agent.Common.{Uuid, DateTime}

pub data OutboxStatus : Type 0 where
  pending publishing published blocked superseded : OutboxStatus

abbrev pub is_pending : OutboxStatus → Bool
is_pending OutboxStatus.pending = true
is_pending _ = false

abbrev pub is_publishing : OutboxStatus → Bool
is_publishing OutboxStatus.publishing = true
is_publishing _ = false

pub data PublisherErrorCode : Type 0 where
  rabbit_unroutable rabbit_nack rabbit_timeout rabbit_channel_closed rabbit_connection_lost
        publish_exhausted :
      PublisherErrorCode

-- The fields of `AIJobEnvelope` (infrastructure/messaging/envelope.py).
pub record Envelope : Type 0 where
  pub schema_version : ℕ
  pub message_id : Uuid
  pub job_id : Uuid
  pub tenant_id : Uuid
  pub correlation_id : Uuid
  pub issued_at : DateTime
  pub nonce : String
  pub signature : String

pub record ClaimCandidate : Type 0 where
  pub tenant_id : Uuid
  pub job_id : Uuid
  pub correlation_id : Uuid
  pub schema_version : ℕ

-- `AIJobOutboxModel`
pub record OutboxRow : Type 0 where
  pub id : Uuid
  pub tenant_id : Uuid
  pub job_id : Uuid
  pub routing_key : String
  pub schema_version : ℕ
  pub correlation_id : Option Uuid
  pub available_at : ℕ
  pub message_id : Option Uuid
  pub nonce : Option String
  pub issued_at : Option ℕ
  pub signature : Option String
  pub envelope_digest : Option (List ℕ)
  pub status : OutboxStatus
  pub claim_owner : Option String
  pub claim_token : Option Uuid
  pub claim_fence : Option ℕ
  pub claim_expires_at : Option ℕ
  pub publish_attempt_count : ℕ
  pub max_publish_attempts : ℕ
  pub last_error_code : Option PublisherErrorCode
  pub published_at : Option ℕ
  pub confirmed_at : Option ℕ
  pub version : ℕ

pub record ClaimedOutbox : Type 0 where
  pub id : Uuid
  pub tenant_id : Uuid
  pub job_id : Uuid
  pub routing_key : String
  pub envelope : Envelope
  pub envelope_digest : List ℕ
  pub claim_token : Uuid
  pub claim_fence : ℕ
  pub version : ℕ
  pub publish_attempt_count : ℕ
  pub max_publish_attempts : ℕ

abbrev pub outbox_key : OutboxRow → Uuid
outbox_key r = r.id

abbrev pub before : Option ℕ → ℕ → Bool
before none now = false
before (some t) now = ltb t now
