-- ===== src/AiJobs/Status.antt =====
-- Statuses of a job and the transitions between them (domain/ai_jobs.py).
use lawyer_agent.Prelude.{ℕ, Bool, ◌&&◌, List, [], ◌∷◌, ◌==◌, any, Result, ok, err, if◌then◌else◌}

pub data AiJobStatus : Type 0 where
  queued running retry_scheduled cancel_requested succeeded failed cancelled : AiJobStatus

pub data PublicAiJobStatus : Type 0 where
  queued running succeeded failed cancelled waiting_review : PublicAiJobStatus

pub data InboxStatus : Type 0 where
  accepted processing completed rejected : InboxStatus

-- The position of a member in its enumeration, by which members are compared.
abbrev pub position : AiJobStatus → ℕ
position AiJobStatus.queued = 0
position AiJobStatus.running = 1
position AiJobStatus.retry_scheduled = 2
position AiJobStatus.cancel_requested = 3
position AiJobStatus.succeeded = 4
position AiJobStatus.failed = 5
position AiJobStatus.cancelled = 6

abbrev pub same_status : AiJobStatus → AiJobStatus → Bool
same_status s t = position s == position t

abbrev pub status_in : AiJobStatus → List AiJobStatus → Bool
status_in s ts = any (same_status s) ts

abbrev pub allowed_transitions : List (AiJobStatus × AiJobStatus)
allowed_transitions =
    (AiJobStatus.queued, AiJobStatus.running)
    ∷ (AiJobStatus.queued, AiJobStatus.cancelled)
    ∷ (AiJobStatus.queued, AiJobStatus.failed)
    ∷ (AiJobStatus.running, AiJobStatus.succeeded)
    ∷ (AiJobStatus.running, AiJobStatus.retry_scheduled)
    ∷ (AiJobStatus.running, AiJobStatus.failed)
    ∷ (AiJobStatus.running, AiJobStatus.cancel_requested)
    ∷ (AiJobStatus.cancel_requested, AiJobStatus.cancelled)
    ∷ (AiJobStatus.retry_scheduled, AiJobStatus.running)
    ∷ (AiJobStatus.retry_scheduled, AiJobStatus.cancelled)
    ∷ (AiJobStatus.retry_scheduled, AiJobStatus.failed)
    ∷ []

abbrev pub terminal_job_statuses : List AiJobStatus
terminal_job_statuses = AiJobStatus.succeeded ∷ AiJobStatus.failed ∷ AiJobStatus.cancelled ∷ []

abbrev pub lease_holding_statuses : List AiJobStatus
lease_holding_statuses = AiJobStatus.running ∷ AiJobStatus.cancel_requested ∷ []

-- `InvalidJobTransition`
pub record InvalidJobTransition : Type 0 where
  pub source : AiJobStatus
  pub target : AiJobStatus

-- `(source, target) in ALLOWED_TRANSITIONS`
abbrev pub is_allowed : AiJobStatus → AiJobStatus → Bool
is_allowed source target =
    any (λ edge. same_status source edge.0 && same_status target edge.1) allowed_transitions

unfoldable pub require_transition :
    AiJobStatus → AiJobStatus → Result InvalidJobTransition (Unit {0})
require_transition source target =
    if is_allowed source target then ok tt else err (record { source = source; target = target })

-- `_PUBLIC_STATUS_MAP[status]`
unfoldable pub to_public_status : AiJobStatus → PublicAiJobStatus
to_public_status AiJobStatus.queued = PublicAiJobStatus.queued
to_public_status AiJobStatus.retry_scheduled = PublicAiJobStatus.queued
to_public_status AiJobStatus.running = PublicAiJobStatus.running
to_public_status AiJobStatus.cancel_requested = PublicAiJobStatus.running
to_public_status AiJobStatus.succeeded = PublicAiJobStatus.succeeded
to_public_status AiJobStatus.failed = PublicAiJobStatus.failed
to_public_status AiJobStatus.cancelled = PublicAiJobStatus.cancelled
