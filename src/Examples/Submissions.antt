-- ===== src/Examples/Submissions.antt =====
-- A member submits a job twice.
use lawyer_agent.Prelude.{
  ℕ, zero, suc, ◌+◌, ◌≡◌, refl, ap, true, false, none, some, String, List, [], ◌∷◌, length, Result,
  ok,
}
use lawyer_agent.Common.{at_utc}
use lawyer_agent.Authz.Request.{TenantContext, ConfidentialityLevel}
use lawyer_agent.Tenancy.{TenantStatus, MembershipStatus}
use lawyer_agent.AiJobs.Timing.{seconds}
use lawyer_agent.AiJobs.Records.{AiJob, check_job_identifiers, check_job_numbers, check_job_times}
use lawyer_agent.Idempotency.Sound.{run}
use lawyer_agent.Idempotency.Service.{IdempotencyService}
use lawyer_agent.JobService.Roles.{RoleTables}
use lawyer_agent.JobService.Store.{get, require_context}
use lawyer_agent.JobService.Commands.{
  CreateAiJobCommand, AcceptedAiJob, AiJobServiceError, ServiceStore, Draws, job_context,
}
use lawyer_agent.JobService.Graphs.{new_job}
use lawyer_agent.JobService.Creating.{create, version_etag}
use lawyer_agent.JobService.Replays.{create-Replays}
use lawyer_agent.JobService.Submitted.{IsAccepted, create-get_job}
use lawyer_agent.Examples.Data.{uuid}

abbrev roles : RoleTables
roles = record {
  roles = record { tenant_id = uuid 2; id = uuid 20; code = "assistant"; active = true } ∷ [];
  assignments =
      record { tenant_id = uuid 2; tenant_role_id = uuid 20; membership_id = uuid 4 } ∷ [];
  role_permissions =
      record { tenant_id = uuid 2; tenant_role_id = uuid 20; permission_id = uuid 21 } ∷ [];
  permissions = record { id = uuid 21; code = "ai_job.create"; active = true } ∷ [];
}

abbrev replicated : ℕ → ℕ → List ℕ
replicated zero b = []
replicated (suc n) b = b ∷ replicated n b

abbrev hmac : List ℕ → List ℕ → List ℕ
hmac key message = replicated 32 (length message)

abbrev sha : List ℕ → List ℕ
sha message = replicated 32 (length message)

length-replicated : (n b : ℕ) → length (replicated n b) ≡ n
length-replicated zero b = refl
length-replicated (suc n) b = ap suc (length-replicated n b)

length-hmac : (key message : List ℕ) → length (hmac key message) ≡ 32
length-hmac key message = length-replicated 32 (length message)

length-sha : (message : List ℕ) → length (sha message) ≡ 32
length-sha message = length-replicated 32 (length message)

abbrev input_json : String → ℕ → String
input_json scenario work_units = "{}"

abbrev actor_json : CreateAiJobCommand → String
actor_json c = "{}"

abbrev service : IdempotencyService
service = record { key_hash_secret = replicated 32 7; ttl = seconds 86400 }

abbrev draws : ℕ → Draws
draws n = record {
  record_id = uuid (n + 0);
  job_id = uuid (n + 1);
  correlation_id = uuid (n + 2);
  grant_id = uuid (n + 3);
  outbox_id = uuid (n + 4);
  clock = n;
}

abbrev command : CreateAiJobCommand
command = record {
  tenant_id = uuid 2;
  membership_id = uuid 4;
  user_id = uuid 3;
  session_id = uuid 5;
  auth_version = 1;
  authz_version = 1;
  idempotency_key = "0123456789abcdef";
  kind = "synthetic.v1";
  scenario = "success";
  work_units = 2;
}

abbrev empty_store : ServiceStore
empty_store = record {
  graph = record { tables = record { jobs = []; attempts = [] }; grants = []; outbox = [] };
  keys = [];
  roles = roles;
}

abbrev submitted : Result AiJobServiceError (AcceptedAiJob × ServiceStore)
submitted =
    create hmac sha input_json actor_json service (draws 100) command (at_utc (seconds 100))
      empty_store

abbrev store_of : Result AiJobServiceError (AcceptedAiJob × ServiceStore) → ServiceStore
store_of (ok (accepted, store)) = store
store_of _ = empty_store

abbrev first_accepted : AcceptedAiJob
first_accepted = record {
  job_id = uuid 101;
  tenant_id = uuid 2;
  etag = 34 ∷ 123 ∷ 49 ∷ 125 ∷ 34 ∷ [];
  replayed = false;
}

abbrev first_store : ServiceStore
unfolding create check_job_identifiers check_job_numbers check_job_times
first_store = store_of submitted

submits : submitted ≡ ok (first_accepted, store_of submitted)
unfolding create check_job_identifiers check_job_numbers check_job_times
submits = refl

abbrev context : TenantContext
context = record {
  tenant_id = uuid 2;
  membership_id = some (uuid 4);
  membership_user_id = some (uuid 3);
  department_id = none;
  tenant_status = TenantStatus.active;
  membership_status = some MembershipStatus.active;
  valid_from = some (at_utc (seconds 140));
  valid_until = none;
  authz_version = some 1;
  session_authz_version = some 1;
  scope = record {
    department_ids = [];
    allow_tenant_wide = true;
    allow_owned = false;
    allow_shared = false;
    allow_matter_team = false;
    allow_class = false;
    allow_client_delegation = false;
    maximum_confidentiality = ConfidentialityLevel.restricted;
    unrecognized_scope_codes = [];
  };
}

create-get_job_example :
    IsAccepted hmac sha input_json actor_json service
      (draws 100)
      command
      (at_utc (seconds 100))
      empty_store
      first_store
      first_accepted
      context
unfolding create first_store check_job_identifiers check_job_numbers check_job_times require_context
create-get_job_example =
    create-get_job hmac sha input_json actor_json service (draws 100) command (at_utc (seconds 100))
      empty_store first_store first_accepted context (λ key message. length-hmac key message)
      (λ message. length-sha message) (record { sound = tt; unique = tt }) refl refl refl refl refl
      refl

abbrev job : AiJob
job = new_job input_json actor_json (draws 100) command (uuid 100) (at_utc (seconds 100))

create-Replays_example :
    create hmac sha input_json actor_json service
      (draws 200)
      command
      (at_utc (seconds 200))
      first_store
    ≡ ok (
      record { job_id = uuid 101; tenant_id = uuid 2; etag = version_etag 1; replayed = true },
      first_store,
    )
unfolding create first_store check_job_identifiers check_job_numbers check_job_times job_context
    new_job get run
create-Replays_example =
    create-Replays hmac sha (λ key message. length-hmac key message) (λ message. length-sha message)
      input_json actor_json service (draws 100) (draws 200) command (at_utc (seconds 100))
      (at_utc (seconds 200)) empty_store first_store first_store first_accepted [] job
      (record { sound = tt; unique = tt }) refl refl refl refl
      (record {
        same_keys = refl;
        calls = tt;
        utc = refl;
        fresh = refl;
        permissions = "ai_job.create" ∷ [];
        looked_up = refl;
        permitted = refl;
        context = context;
        in_context = refl;
        readable = refl;
      })
