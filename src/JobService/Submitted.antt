-- ===== src/JobService/Submitted.antt =====
-- A new job is read back as it was built (application/ai_job_service.py: `create`, then `get`).
use mathlib.Core.Path.{subst}
use lawyer_agent.Prelude.{
  ℕ, ◌≡◌, refl, sym, ap, ◌∙◌, true, false, Option, none, some, String, List, length, ok, bind-eq-ok,
  ok-inside, err-not-ok, Bool-cases, inl, inr,
}
use lawyer_agent.Common.{Uuid, DateTime, is_utc, is_uuid7, require_uuid7}
use lawyer_agent.Authz.Request.{TenantContext}
use lawyer_agent.AiJobs.Records.{
  AiJob, check_job, check_uuid7, check_grant, check_new_outbox, check_job_graph, NewAiJobGraph,
}
use lawyer_agent.JobStore.Lookup.{first}
use lawyer_agent.JobStore.Rows.{JobRow, job_of_row}
use lawyer_agent.JobStore.Claiming.{is_job}
use lawyer_agent.Idempotency.Types.{check_result, PreparedIdempotencyRequest}
use lawyer_agent.Idempotency.Table.{row_key}
use lawyer_agent.Idempotency.Keys.{finished, call_slot}
use lawyer_agent.Idempotency.Sound.{IsTable, view}
use lawyer_agent.Idempotency.Firsts.{claimant}
use lawyer_agent.Idempotency.Once.{reserve-complete-finishes}
use lawyer_agent.JobStore.Tables.{find}
use lawyer_agent.JobService.Replays.{submission_call, prepare-lengths}
use lawyer_agent.Idempotency.Service.{IdempotencyService, prepare}
use lawyer_agent.JobService.Store.{get, require_context, read_job}
use lawyer_agent.JobService.Commands.{
  CreateAiJobCommand, AcceptedAiJob, ServiceStore, Draws, job_request,
}
use lawyer_agent.JobService.Graphs.{new_job, new_grant, new_outbox, graph_of, new_graph}
use lawyer_agent.JobService.Creating.{create, get_job, job_result}
use lawyer_agent.JobService.Created.{IsSubmitted, create-IsSubmitted}
use lawyer_agent.JobService.Reading.{add_job_graph-first}

read_job-first :
    (o : Option JobRow) (r : JobRow) (j : AiJob)
    → o ≡ some r
    → job_of_row r ≡ j
    → check_job j ≡ ok tt
    → read_job o ≡ ok (some j)
unfolding read_job
read_job-first o r j e same checked = rw (e, same, checked) refl

result-uuid7 : (i : Uuid) → check_result (job_result i) ≡ ok tt → check_uuid7 "job_id" i ≡ ok tt
unfolding check_result check_uuid7 require_uuid7
result-uuid7 i e = elim (Bool-cases (is_uuid7 i)) [
  | inl valid ↦ rw valid refl
  | inr bad ↦ absurd (err-not-ok _ tt (rw bad at e))
]

get_job-read :
    (context : TenantContext) (tenant_id i : Uuid) (store : ServiceStore) (j : AiJob)
    → context.tenant_id ≡ tenant_id
    → require_context context ≡ ok tt
    → check_uuid7 "job_id" i ≡ ok tt
    → read_job (first (is_job tenant_id i) store.graph.tables.jobs) ≡ ok (some j)
    → get_job context i store ≡ ok j
unfolding get_job get
get_job-read context tenant_id i store j tenant allowed valid read =
    rw (allowed, valid, tenant, read) refl

module _ (input_json : String → ℕ → String) (actor_json : CreateAiJobCommand → String) where
  -- What a graph that was built holds.
  new_graph-job :
      (d : Draws) (c : CreateAiJobCommand) (record_id : Uuid) (now : DateTime) (g : NewAiJobGraph)
      → new_graph input_json actor_json d c record_id now ≡ ok g
      → (check_job (new_job input_json actor_json d c record_id now) ≡ ok tt)
        × (g.job ≡ new_job input_json actor_json d c record_id now)
  unfolding new_graph
  new_graph-job d c record_id now g e =
      let (_, e1, h1) =
        bind-eq-ok (check_job (new_job input_json actor_json d c record_id now)) _ e in
      let (_, e2, h2) = bind-eq-ok (check_grant (new_grant input_json actor_json d c now)) _ h1 in
      let (_, e3, h3) =
        bind-eq-ok (check_new_outbox (new_outbox input_json actor_json d c now)) _ h2 in
      let graph = graph_of input_json actor_json d c record_id now in
      let (_, e4, h4) = bind-eq-ok (check_job_graph graph) (λ _. ok graph) h3 in
      (e1, ap (λ x. x.job) (sym (ok-inside graph g h4)))

module _ (hmac_sha256 : List ℕ → List ℕ → List ℕ) (sha256 : List ℕ → List ℕ)
    (input_json : String → ℕ → String) (actor_json : CreateAiJobCommand → String)
    (self : IdempotencyService) (d : Draws) (c : CreateAiJobCommand) (now : DateTime)
    (store store1 : ServiceStore) (accepted : AcceptedAiJob) (context : TenantContext) where
  -- The job under the accepted id was built from the command and a record, and this record holds the
  -- request's key, which it answers by the job.
  pub record IsAccepted : Type 0 where
    pub record_id : Uuid
    pub prepared : PreparedIdempotencyRequest
    pub is_prepared : prepare hmac_sha256 sha256 self (job_request c) ≡ ok prepared
    pub key :
        view (call_slot (submission_call self d c now prepared)) store1.keys
        ≡ finished
            (claimant (submission_call self d c now prepared) record_id)
            (job_result accepted.job_id)
    pub readable :
        get_job context accepted.job_id store1
        ≡ ok (new_job input_json actor_json d c record_id now)

  submitted-get_job :
      (s : IsSubmitted hmac_sha256 sha256 input_json actor_json self d c now store store1 accepted)
      → context.tenant_id ≡ c.tenant_id
      → require_context context ≡ ok tt
      → get_job context accepted.job_id store1
        ≡ ok (new_job input_json actor_json d c s.held.record_id now)
  unfolding new_job
  submitted-get_job s tenant allowed =
      let (checked, built) =
        new_graph-job input_json actor_json d c s.held.record_id now s.graph s.built in
      let (r, same, at) = add_job_graph-first d.clock s.graph store.graph s.tables s.added in
      let read =
        read_job-first (first (is_job s.graph.job.tenant_id s.graph.job.id) s.tables.tables.jobs) r
          (new_job input_json actor_json d c s.held.record_id now) at (same ∙ built) checked in
      subst
        (λ a.
          get_job context a.job_id store1
          ≡ ok (new_job input_json actor_json d c s.held.record_id now))
        (sym s.is_accepted)
        (get_job-read context c.tenant_id d.job_id store1
          (new_job input_json actor_json d c s.held.record_id now) tenant allowed
          (result-uuid7 d.job_id s.result_checked)
          (subst
            (λ x.
              read_job (first (is_job c.tenant_id d.job_id) x.graph.tables.jobs)
              ≡ ok (some (new_job input_json actor_json d c s.held.record_id now)))
            (sym s.is_store)
            (subst
              (λ j.
                read_job (first (is_job j.tenant_id j.id) s.tables.tables.jobs)
                ≡ ok (some (new_job input_json actor_json d c s.held.record_id now)))
              built read)))

  module _ (hmac_length : (key message : List ℕ) → length (hmac_sha256 key message) ≡ 32)
      (sha_length : (message : List ℕ) → length (sha256 message) ≡ 32) where
    -- Suppose a submission made a job at a UTC time, on a table of keys that is sound and where its
    -- record id was fresh, with digests of 32 bytes. Then a reader of its tenant, with a valid
    -- context, gets under the accepted id the job that was built from the command with one record
    -- id, and the slot of the request's key is finished by the record of that id, with the request's
    -- tenant and fingerprint and the accepted job as its result.
    pub create-get_job :
        IsTable store.keys
        → is_utc now ≡ true
        → find row_key d.record_id store.keys ≡ none
        → create hmac_sha256 sha256 input_json actor_json self d c now store ≡ ok (accepted, store1)
        → accepted.replayed ≡ false
        → context.tenant_id ≡ c.tenant_id
        → require_context context ≡ ok tt
        → IsAccepted
    create-get_job table utc fresh h new tenant allowed =
        let s =
          create-IsSubmitted hmac_sha256 sha256 input_json actor_json self d c now store store1
            accepted h new in
        let (key, print) =
          prepare-lengths hmac_sha256 sha256 hmac_length sha_length self (job_request c) s.prepared
            s.is_prepared in
        let request = submission_call self d c now s.prepared in
        let (_, finishes) =
          reserve-complete-finishes request store.keys s.keys s.keys' s.held (job_result d.job_id)
            now table
            (record {
              utc = utc;
              operation = refl;
              call = (s.scope_checked, key, print);
              fresh = fresh;
            })
            s.reserved s.is_first s.result_checked s.completed in
        record {
          record_id = s.held.record_id;
          prepared = s.prepared;
          is_prepared = s.is_prepared;
          key =
              subst
                (λ x.
                  view (call_slot request) x.keys
                  ≡ finished (claimant request s.held.record_id) (job_result accepted.job_id))
                (sym s.is_store)
                (subst
                  (λ a.
                    view (call_slot request) s.keys'
                    ≡ finished (claimant request s.held.record_id) (job_result a.job_id))
                  (sym s.is_accepted) finishes);
          readable = submitted-get_job s tenant allowed;
        }
