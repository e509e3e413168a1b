-- ===== src/JobService/Created.antt =====
-- What a call of `AIJobService.create` that made a job went through
-- (application/ai_job_service.py).
use lawyer_agent.Prelude.{
  ℕ, ◌≡◌, ◌≢◌, refl, sym, ap, ◌∙◌, Bool, true, false, Option, none, some, String, List, has_text,
  Result, ok, err, guard, ◌>>=◌, bind-eq-ok, ok-pair, ok-inside,
}
use lawyer_agent.Common.{DateTime}
use lawyer_agent.AiJobs.Records.{NewAiJobGraph}
use lawyer_agent.Idempotency.Types.{
  IdempotencyReservation, IdempotencyResultReference, PreparedIdempotencyRequest, check_scope,
  check_result, IdempotencyError,
}
use lawyer_agent.Idempotency.Table.{IdempotencyRow}
use lawyer_agent.Idempotency.Payload.{check_payload}
use lawyer_agent.Idempotency.Service.{
  IdempotencyService, prepare, reserve, reserve_prepared, complete,
}
use lawyer_agent.JobService.Roles.{lookup_membership_permissions}
use lawyer_agent.JobService.Store.{GraphTables, get, add_job_graph}
use lawyer_agent.JobService.Commands.{
  CreateAiJobCommand, AcceptedAiJob, AiJobServiceError, access_denied, from_idempotency, from_value,
  ServiceStore, Draws, job_scope, job_payload, job_request, job_context,
}
use lawyer_agent.JobService.Graphs.{new_graph}
use lawyer_agent.JobService.Creating.{
  create, replay_job, submit_job, answer_request, job_result, accepted_new, found,
}

pub from_value-ok {ℓ} : {A : Type ℓ} (m : Result String A) (a : A) → from_value m ≡ ok a → m ≡ ok a
from_value-ok (ok x) a e = cc
from_value-ok (err x) a e = cc

pub from_idempotency-ok {ℓ} :
    {A : Type ℓ} (m : Result IdempotencyError A) (a : A) → from_idempotency m ≡ ok a → m ≡ ok a
from_idempotency-ok (ok x) a e = cc
from_idempotency-ok (err x) a e = cc

true-not-false : ◌≢◌ {A = Bool} true false
true-not-false e = cc

-- A replay says so.
replay_job-replayed :
    (c : CreateAiJobCommand) (result : IdempotencyResultReference) (now : DateTime)
    (store : ServiceStore) (accepted : AcceptedAiJob)
    → replay_job c result now store ≡ ok accepted
    → accepted.replayed ≡ true
unfolding replay_job
replay_job-replayed c result now store accepted h =
    let (context, e1, h1) = bind-eq-ok (from_value (job_context c now)) _ h in
    let (o, e2, h2) =
      bind-eq-ok (from_value (get context result.result_id store.graph.tables.jobs)) _ h1 in
    let (job, e3, h3) = bind-eq-ok (found o) _ h2 in ap (λ a. a.replayed) (sym (ok-inside _ _ h3))

module _ (hmac_sha256 : List ℕ → List ℕ → List ℕ) (sha256 : List ℕ → List ℕ)
    (input_json : String → ℕ → String) (actor_json : CreateAiJobCommand → String) where
  -- The steps of a submission.
  pub record IsSubmitted (self : IdempotencyService) (d : Draws) (c : CreateAiJobCommand)
      (now : DateTime) (store store' : ServiceStore) (accepted : AcceptedAiJob) : Type 0 where
    pub permissions : List String
    pub looked_up :
        lookup_membership_permissions c.tenant_id c.membership_id store.roles ≡ ok permissions
    pub permitted : guard (has_text "ai_job.create" permissions) access_denied ≡ ok tt
    pub scope_checked : check_scope (job_scope c) ≡ ok tt
    pub payload_checked : check_payload (job_payload c) ≡ ok tt
    pub prepared : PreparedIdempotencyRequest
    pub is_prepared : prepare hmac_sha256 sha256 self (job_request c) ≡ ok prepared
    pub held : IdempotencyReservation
    pub keys : List IdempotencyRow
    pub reserved :
        reserve_prepared self.ttl d.record_id d.clock
          (job_scope c)
          "ai_job.create"
          prepared
          now
          store.keys
        ≡ ok (held, keys)
    pub is_first : held.replay ≡ none
    pub graph : NewAiJobGraph
    pub built : new_graph input_json actor_json d c held.record_id now ≡ ok graph
    pub tables : GraphTables
    pub added : add_job_graph d.clock graph store.graph ≡ ok tables
    pub result_checked : check_result (job_result d.job_id) ≡ ok tt
    pub keys' : List IdempotencyRow
    pub completed : complete held (job_result d.job_id) now keys ≡ ok keys'
    pub is_accepted : accepted ≡ accepted_new c d.job_id
    pub is_store : store' ≡ record { graph = tables; keys = keys'; roles = store.roles }

  -- A submission answers the request that is not a replay.
  answer-first :
      (d : Draws) (c : CreateAiJobCommand) (held : IdempotencyReservation)
      (o : Option IdempotencyResultReference) (now : DateTime) (store store' : ServiceStore)
      (accepted : AcceptedAiJob)
      → answer_request input_json actor_json d c held o now store ≡ ok (accepted, store')
      → accepted.replayed ≡ false
      → (o ≡ none) × (submit_job input_json actor_json d c held now store ≡ ok (accepted, store'))
  answer-first d c held none now store store' accepted h new = (refl, h)
  answer-first d c held (some result) now store store' accepted h new =
      let (accepted', e, h') = bind-eq-ok (replay_job c result now store) _ h in
      absurd (
        true-not-false (
          sym (replay_job-replayed c result now store accepted' e)
          ∙ ap (λ a. a.replayed) (ok-pair _ _ _ _ h').0
          ∙ new))

  -- What `create` does after its reservation.
  abbrev reserved_then :
      Draws
      → CreateAiJobCommand
      → DateTime
      → ServiceStore
      → IdempotencyReservation × List IdempotencyRow
      → Result AiJobServiceError (AcceptedAiJob × ServiceStore)
  reserved_then d c now store (held, keys) =
      answer_request input_json actor_json d c held held.replay now (record store { keys = keys })

  pub create-IsSubmitted :
      (self : IdempotencyService) (d : Draws) (c : CreateAiJobCommand) (now : DateTime)
      (store store' : ServiceStore) (accepted : AcceptedAiJob)
      → create hmac_sha256 sha256 input_json actor_json self d c now store ≡ ok (accepted, store')
      → accepted.replayed ≡ false
      → IsSubmitted self d c now store store' accepted
  unfolding create reserve submit_job
  create-IsSubmitted self d c now store store' accepted h new =
      let (permissions, e1, h1) =
        bind-eq-ok
          (from_value (lookup_membership_permissions c.tenant_id c.membership_id store.roles)) _
          h in
      let (_, e2, h2) =
        bind-eq-ok (guard (has_text "ai_job.create" permissions) access_denied) _ h1 in
      let (_, e3, h3) = bind-eq-ok (from_value (check_scope (job_scope c))) _ h2 in
      let (_, e4, h4) =
        bind-eq-ok (from_idempotency (check_payload (job_payload c)))
          (λ _.
            from_idempotency (
              reserve hmac_sha256 sha256 self d.record_id d.clock (job_scope c) "ai_job.create"
                (job_request c) now store.keys)
            >>= reserved_then d c now store)
          h3 in
      let ((held, keys), e5, h5) =
        bind-eq-ok
          (from_idempotency (
            reserve hmac_sha256 sha256 self d.record_id d.clock (job_scope c) "ai_job.create"
              (job_request c) now store.keys))
          (reserved_then d c now store) h4 in
      let (prepared, p, r) =
        bind-eq-ok (prepare hmac_sha256 sha256 self (job_request c)) _
          (from_idempotency-ok _ _ e5) in
      let (first, submitted) =
        answer-first d c held held.replay now (record store { keys = keys }) store' accepted h5
          new in
      let (graph, e6, h6) =
        bind-eq-ok (from_value (new_graph input_json actor_json d c held.record_id now)) _
          submitted in
      let (tables, e7, h7) =
        bind-eq-ok (from_value (add_job_graph d.clock graph store.graph)) _ h6 in
      let (_, e8, h8) = bind-eq-ok (from_value (check_result (job_result d.job_id))) _ h7 in
      let (keys', e9, h9) =
        bind-eq-ok (from_idempotency (complete held (job_result d.job_id) now keys)) _ h8 in
      let (same, after) = ok-pair _ _ _ _ h9 in
      record {
        permissions = permissions;
        looked_up = from_value-ok _ _ e1;
        permitted = e2;
        scope_checked = from_value-ok _ _ e3;
        payload_checked = from_idempotency-ok _ _ e4;
        prepared = prepared;
        is_prepared = p;
        held = held;
        keys = keys;
        reserved = r;
        is_first = first;
        graph = graph;
        built = from_value-ok _ _ e6;
        tables = tables;
        added = from_value-ok _ _ e7;
        result_checked = from_value-ok _ _ e8;
        keys' = keys';
        completed = from_idempotency-ok _ _ e9;
        is_accepted = sym same;
        is_store = sym after;
      }
