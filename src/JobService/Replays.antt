-- ===== src/JobService/Replays.antt =====
-- A submission that is sent again makes no second job (application/ai_job_service.py on
-- application/idempotency.py).
use mathlib.Core.Path.{subst}
use lawyer_agent.Prelude.{
  ℕ, ◌≡◌, ◌≢◌, refl, sym, ap, ◌∙◌, true, false, Option, none, some, String, List, codes, has_text,
  length, arith, Result, ok, guard, ◌>>◌, bind-eq-ok, ok-inside,
}
use lawyer_agent.Common.{Uuid, DateTime, is_utc}
use lawyer_agent.Authz.Request.{TenantContext}
use lawyer_agent.AiJobs.Records.{AiJob, check_job, check_uuid7}
use lawyer_agent.JobStore.Tables.{find}
use lawyer_agent.JobStore.Lookup.{first, first-holds}
use lawyer_agent.JobStore.Rows.{JobRow, job_of_row}
use lawyer_agent.JobStore.Claiming.{is_job}
use lawyer_agent.Idempotency.Types.{IdempotencyError, PreparedIdempotencyRequest}
use lawyer_agent.Idempotency.Table.{row_key}
use lawyer_agent.Idempotency.Payload.{canonical_business_values, object}
use lawyer_agent.Idempotency.Canonical.{canonical_json}
use lawyer_agent.Idempotency.Routes.{canonical_method, canonical_route}
use lawyer_agent.Idempotency.Service.{
  IdempotencyService, IdempotencyRequest, prepare, reserve, is_key, reservation,
}
use lawyer_agent.Idempotency.Keys.{Reserve, Call}
use lawyer_agent.Idempotency.Sound.{IsTable, run, AreCalls}
use lawyer_agent.Idempotency.Outcomes.{reserve_of}
use lawyer_agent.Idempotency.Once.{reserve-complete-Replays}
use lawyer_agent.JobService.Roles.{lookup_membership_permissions}
use lawyer_agent.JobService.Store.{get, require_context, read_job}
use lawyer_agent.JobService.Commands.{
  CreateAiJobCommand, AcceptedAiJob, ServiceStore, Draws, job_scope, job_context, job_request,
}
use lawyer_agent.JobService.Creating.{create, replay_job, job_result, version_etag}
use lawyer_agent.JobService.Created.{IsSubmitted, create-IsSubmitted}

some-inside-ok :
    (a b : AiJob) → ◌≡◌ {A = Result String (Option AiJob)} (ok (some a)) (ok (some b)) → a ≡ b
some-inside-ok a b e = cc

none-not-some-ok : (b : AiJob) → ◌≢◌ {A = Result String (Option AiJob)} (ok none) (ok (some b))
none-not-some-ok b e = cc

-- The row of a job that was read.
pub read_job-row :
    (o : Option JobRow) (job : AiJob)
    → read_job o ≡ ok (some job)
    → (r : JobRow) × (o ≡ some r) × (check_job (job_of_row r) ≡ ok tt) × (job ≡ job_of_row r)
unfolding read_job
read_job-row none job e = absurd (none-not-some-ok job e)
read_job-row (some r) job e =
    let (_, c, h) = bind-eq-ok (check_job (job_of_row r)) (λ _. ok (some (job_of_row r))) e in
    (r, refl, c, sym (some-inside-ok _ _ h))

row-id : (r : JobRow) (job : AiJob) → job ≡ job_of_row r → job.id ≡ r.id
unfolding job_of_row
row-id r job e = ap (λ j. j.id) e

is_job-id :
    (tenant_id job_id : Uuid) (r : JobRow) → is_job tenant_id job_id r ≡ true → r.id ≡ job_id
is_job-id tenant_id job_id r e = ground arith

-- What is read under an id has that id.
pub get-id :
    (context : TenantContext) (job_id : Uuid) (jobs : List JobRow) (job : AiJob)
    → get context job_id jobs ≡ ok (some job)
    → job.id ≡ job_id
unfolding get
get-id context job_id jobs job e =
    let (_, e1, h1) =
      bind-eq-ok (require_context context)
        (λ _.
          check_uuid7 "job_id" job_id >> read_job (first (is_job context.tenant_id job_id) jobs))
        e in
    let (_, e2, h2) =
      bind-eq-ok (check_uuid7 "job_id" job_id)
        (λ _. read_job (first (is_job context.tenant_id job_id) jobs)) h1 in
    let (r, found, checked, is) =
      read_job-row (first (is_job context.tenant_id job_id) jobs) job h2 in
    row-id r job is
    ∙ is_job-id context.tenant_id job_id r
        (first-holds (is_job context.tenant_id job_id) jobs r found)

-- The reservation of a submission, as a call on the table of keys.
abbrev pub submission_call :
    IdempotencyService
    → Draws
    → CreateAiJobCommand
    → DateTime
    → PreparedIdempotencyRequest
    → Reserve
submission_call self draws c at prepared = record {
  ttl = self.ttl;
  new_id = draws.record_id;
  clock = draws.clock;
  scope = job_scope c;
  operation = "ai_job.create";
  prepared = prepared;
  now = at;
}

module _ (hmac_sha256 : List ℕ → List ℕ → List ℕ) (sha256 : List ℕ → List ℕ)
    (hmac_length : (key message : List ℕ) → length (hmac_sha256 key message) ≡ 32)
    (sha_length : (message : List ℕ) → length (sha256 message) ≡ 32) where
  pub prepare-lengths :
      (self : IdempotencyService) (q : IdempotencyRequest) (p : PreparedIdempotencyRequest)
      → prepare hmac_sha256 sha256 self q ≡ ok p
      → (length p.key_hash ≡ 32) × (length p.request_fingerprint ≡ 32)
  unfolding prepare
  prepare-lengths self q p e =
      let (_, e1, h1) =
        bind-eq-ok
          (guard (is_key (codes q.key))
            (IdempotencyError.invalid_key "idempotency key must be 16-128 safe ASCII characters"))
          _ e in
      let (method, e2, h2) = bind-eq-ok (canonical_method q.method) _ h1 in
      let (route, e3, h3) = bind-eq-ok (canonical_route q.canonical_route) _ h2 in
      let (values, e4, h4) = bind-eq-ok (canonical_business_values q.body) _ h3 in
      let (body, e5, h5) = bind-eq-ok (canonical_json (object values)) _ h4 in
      (
        ap (λ x. length x.key_hash) (sym (ok-inside _ _ h5)) ∙ hmac_length _ _,
        ap (λ x. length x.request_fingerprint) (sym (ok-inside _ _ h5)) ∙ sha_length _,
      )

  module _ (input_json : String → ℕ → String) (actor_json : CreateAiJobCommand → String)
      (self : IdempotencyService) (d d' : Draws) (c : CreateAiJobCommand) (now now' : DateTime)
      (store store1 store2 : ServiceStore) (accepted : AcceptedAiJob) where
    -- The reservations of the two submissions.
    abbrev call_of : Draws → DateTime → PreparedIdempotencyRequest → Reserve
    call_of draws at prepared = submission_call self draws c at prepared

    -- The later submission is made in a store with the same keys, but for other calls on them, where
    -- its own new id is fresh, its member is still permitted, and the job can be read.
    pub record IsAskedAgain (cs : List Call) (job : AiJob) : Type 0 where
      pub same_keys : store2.keys ≡ run cs store1.keys
      pub calls : AreCalls cs store1.keys
      pub utc : is_utc now' ≡ true
      pub fresh : find row_key d'.record_id store2.keys ≡ none
      pub permissions : List String
      pub looked_up :
          lookup_membership_permissions c.tenant_id c.membership_id store2.roles ≡ ok permissions
      pub permitted : has_text "ai_job.create" permissions ≡ true
      pub context : TenantContext
      pub in_context : job_context c now' ≡ ok context
      pub readable : get context accepted.job_id store2.graph.tables.jobs ≡ ok (some job)

    again-reserved :
        (cs : List Call) (job : AiJob)
        → IsTable store.keys
        → is_utc now ≡ true
        → find row_key d.record_id store.keys ≡ none
        → IsAskedAgain cs job
        → (s : IsSubmitted hmac_sha256 sha256 input_json actor_json self d c now store store1
            accepted)
        → reserve_of (call_of d' now' s.prepared) store2.keys
          ≡ ok (
            reservation s.held.record_id s.prepared.request_fingerprint
                (some (job_result d.job_id)),
            store2.keys,
          )
    again-reserved cs job table utc fresh again s =
        let (key, print) = prepare-lengths self (job_request c) s.prepared s.is_prepared in
        let keys_are : run cs s.keys' ≡ store2.keys =
          sym (again.same_keys ∙ ap (λ x. run cs x.keys) s.is_store) in
        subst
          (λ keys.
            reserve_of (call_of d' now' s.prepared) keys
            ≡ ok (
              reservation s.held.record_id s.prepared.request_fingerprint
                  (some (job_result d.job_id)),
              keys,
            ))
          keys_are
          (reserve-complete-Replays (call_of d now s.prepared) (call_of d' now' s.prepared) cs
            store.keys s.keys s.keys' s.held (job_result d.job_id) now table
            (record {
              utc = utc;
              operation = refl;
              call = (s.scope_checked, key, print);
              fresh = fresh;
            })
            s.reserved s.is_first s.result_checked s.completed
            (subst (λ x. AreCalls cs x.keys) s.is_store again.calls)
            (record { same_scope = refl; same_operation = refl; same_prepared = refl })
            (record {
              utc = again.utc;
              operation = refl;
              call = (s.scope_checked, key, print);
              fresh =
                  subst (λ keys. find row_key d'.record_id keys ≡ none) (sym keys_are) again.fresh;
            }))

    -- Suppose a submission made a job, on a table of keys that is sound and where its record id was
    -- fresh, with digests of 32 bytes. After any calls of the idempotency service on the keys, the
    -- same command is sent again at a UTC time, with a fresh record id, while its member still has
    -- the permission and the job is still readable in the tenant. Then it succeeds as a replay with
    -- the id of the first job and the version of the job as its entity tag, and it changes no table.
    pub create-Replays :
        (cs : List Call) (job : AiJob)
        → IsTable store.keys
        → is_utc now ≡ true
        → find row_key d.record_id store.keys ≡ none
        → create hmac_sha256 sha256 input_json actor_json self d c now store ≡ ok (accepted, store1)
        → accepted.replayed ≡ false
        → IsAskedAgain cs job
        → create hmac_sha256 sha256 input_json actor_json self d' c now' store2
          ≡ ok (
            record {
              job_id = accepted.job_id;
              tenant_id = c.tenant_id;
              etag = version_etag job.version;
              replayed = true;
            },
            store2,
          )
    unfolding create reserve replay_job
    create-Replays cs job table utc fresh h new again =
        let s =
          create-IsSubmitted hmac_sha256 sha256 input_json actor_json self d c now store store1
            accepted h new in
        rw
          (
            again.looked_up,
            again.permitted,
            s.scope_checked,
            s.is_prepared,
            again-reserved cs job table utc fresh again s,
            again.in_context,
            subst (λ i. get again.context i store2.graph.tables.jobs ≡ ok (some job))
                (ap (λ a. a.job_id) s.is_accepted) again.readable,
            get-id again.context accepted.job_id store2.graph.tables.jobs job again.readable,
          )
          refl
