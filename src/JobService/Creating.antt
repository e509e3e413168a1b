-- ===== src/JobService/Creating.antt =====
-- `AIJobService.create`, `get` and `cancel` of application/ai_job_service.py.
use lawyer_agent.Prelude.{
  ℕ, true, false, Option, none, some, String, List, [], ◌∷◌, ◌++◌, has_text, Result, ok, err, guard,
  ◌>>=◌, ◌>>◌,
}
use lawyer_agent.Common.{Uuid, DateTime}
use lawyer_agent.Authz.Request.{TenantContext}
use lawyer_agent.AiJobs.Records.{AiJob}
use lawyer_agent.JobStore.Jobs.{cancel_claimable_job}
use lawyer_agent.Idempotency.Types.{
  IdempotencyReservation, IdempotencyResultReference, check_scope, check_result,
}
use lawyer_agent.Idempotency.Payload.{check_payload}
use lawyer_agent.Idempotency.Canonical.{digits}
use lawyer_agent.Idempotency.Service.{IdempotencyService, reserve, complete}
use lawyer_agent.JobService.Roles.{lookup_membership_permissions}
use lawyer_agent.JobService.Store.{get, add_job_graph}
use lawyer_agent.JobService.Commands.{
  CreateAiJobCommand, AcceptedAiJob, AiJobServiceError, access_denied, not_found, from_idempotency,
  from_value, ServiceStore, Draws, job_context, job_scope, job_payload, job_request,
}
use lawyer_agent.JobService.Graphs.{new_graph}

abbrev pub found {ℓ} : {A : Type ℓ} → Option A → Result AiJobServiceError A
found none = err not_found
found (some a) = ok a

abbrev quoted : List ℕ → List ℕ
quoted text = 34 ∷ text ++ 34 ∷ []

-- The literal '"{1}"' of a new job, which no format fills in.
abbrev pub new_etag : List ℕ
new_etag = 34 ∷ 123 ∷ 49 ∷ 125 ∷ 34 ∷ []

abbrev pub version_etag : ℕ → List ℕ
version_etag version = quoted (digits version)

-- The branch of `create` for a request that was completed before.
unfoldable pub replay_job :
    CreateAiJobCommand
    → IdempotencyResultReference
    → DateTime
    → ServiceStore
    → Result AiJobServiceError AcceptedAiJob
unfolding job_context get
replay_job c result now store = do
  context ← from_value (job_context c now)
  o ← from_value (get context result.result_id store.graph.tables.jobs)
  job ← found o
  ok (record {
    job_id = job.id;
    tenant_id = c.tenant_id;
    etag = version_etag job.version;
    replayed = true;
  })

abbrev pub job_result : Uuid → IdempotencyResultReference
job_result job_id = record {
  result_type = "ai_job.job";
  result_id = job_id;
  mutation_effect = none;
  cache_authz_version = none;
}

abbrev pub accepted_new : CreateAiJobCommand → Uuid → AcceptedAiJob
accepted_new c job_id = record {
  job_id = job_id;
  tenant_id = c.tenant_id;
  etag = new_etag;
  replayed = false;
}

-- The texts of the JSON columns, which the database driver writes.
module _ (input_json : String → ℕ → String) (actor_json : CreateAiJobCommand → String) where
  -- The branch of `create` for a request that is new.
  unfoldable pub submit_job :
      Draws
      → CreateAiJobCommand
      → IdempotencyReservation
      → DateTime
      → ServiceStore
      → Result AiJobServiceError (AcceptedAiJob × ServiceStore)
  unfolding new_graph add_job_graph check_result complete
  submit_job d c reservation now store = do
    graph ← from_value (new_graph input_json actor_json d c reservation.record_id now)
    tables ← from_value (add_job_graph d.clock graph store.graph)
    from_value (check_result (job_result d.job_id))
    keys ← from_idempotency (complete reservation (job_result d.job_id) now store.keys)
    ok (accepted_new c d.job_id, record store { graph = tables; keys = keys })

  abbrev pub answer_request :
      Draws
      → CreateAiJobCommand
      → IdempotencyReservation
      → Option IdempotencyResultReference
      → DateTime
      → ServiceStore
      → Result AiJobServiceError (AcceptedAiJob × ServiceStore)
  answer_request d c reservation (some result) now store =
      replay_job c result now store >>= λ accepted. ok (accepted, store)
  answer_request d c reservation none now store = submit_job d c reservation now store

-- The two digests of the standard library.
module _ (hmac_sha256 : List ℕ → List ℕ → List ℕ) (sha256 : List ℕ → List ℕ)
    (input_json : String → ℕ → String) (actor_json : CreateAiJobCommand → String) where
  -- `create`
  unfoldable pub create :
      IdempotencyService
      → Draws
      → CreateAiJobCommand
      → DateTime
      → ServiceStore
      → Result AiJobServiceError (AcceptedAiJob × ServiceStore)
  unfolding lookup_membership_permissions check_scope check_payload reserve replay_job submit_job
  create self d c now store = do
    permissions ← from_value (lookup_membership_permissions c.tenant_id c.membership_id store.roles)
    guard (has_text "ai_job.create" permissions) access_denied
    from_value (check_scope (job_scope c))
    from_idempotency (check_payload (job_payload c))
    (reservation, keys) ← from_idempotency (
        reserve hmac_sha256 sha256 self d.record_id d.clock (job_scope c) "ai_job.create"
          (job_request c) now store.keys)
    answer_request input_json actor_json d c reservation reservation.replay now
        (record store { keys = keys })

-- `get`
unfoldable pub get_job : TenantContext → Uuid → ServiceStore → Result AiJobServiceError AiJob
unfolding get
get_job context job_id store = do
  o ← from_value (get context job_id store.graph.tables.jobs)
  found o

-- `cancel`
unfoldable pub cancel :
    TenantContext → Uuid → DateTime → ServiceStore → Result AiJobServiceError ServiceStore
unfolding cancel_claimable_job
cancel context job_id now store = do
  (cancelled, tables) ←
      from_value (cancel_claimable_job context.tenant_id job_id now store.graph.tables)
  guard cancelled not_found
  ok (record store { graph = record store.graph { tables = tables } })
