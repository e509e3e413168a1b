-- ===== src/JobService/Reading.antt =====
-- A job is read as it was submitted (`_job_model` and `_job` of
-- infrastructure/persistence/repositories/ai_jobs.py, `create` and `get` of
-- application/ai_job_service.py).
use mathlib.Core.Path.{subst}
use lawyer_agent.Prelude.{
  ℕ, ◌≡◌, refl, sym, ap, ◌∙◌, Bool, true, false, not, Option, none, some, String, List, [], ◌∷◌,
  ◌++◌, arith, ok, guard, ◌>>=◌, bind-eq-ok, ok-inside, err-not-ok,
}
use lawyer_agent.Common.{Uuid, DateTime, Zone, at_utc}
use lawyer_agent.JobStore.Lookup.{first, first-append-none}
use lawyer_agent.AiJobs.Records.{AiJob}
use lawyer_agent.AiJobs.Records.{NewAiJobGraph}
use lawyer_agent.JobStore.Claiming.{is_job}
use lawyer_agent.JobService.Store.{
  GraphTables, has_job, add_job_graph, add_grant_and_outbox, GrantRow, OutboxEntry,
}
use lawyer_agent.JobStore.Rows.{
  JobRow, naive, naive_optional, aware, aware_optional, job_of_row, row_of_job,
}

zoned-aware :
    (z : Zone) (i n : ℕ)
    → naive (record { zone = z; instant = i }) ≡ ok n
    → aware n ≡ record { zone = z; instant = i }
unfolding naive
zoned-aware Zone.utc i n e = ap at_utc (sym (ok-inside i n e))
zoned-aware Zone.naive i n e = absurd (err-not-ok _ n e)
zoned-aware Zone.offset i n e = absurd (err-not-ok _ n e)

naive-aware : (t : DateTime) (n : ℕ) → naive t ≡ ok n → aware n ≡ t
naive-aware t n e = zoned-aware t.zone t.instant n e

naive_optional-aware :
    (o : Option DateTime) (n : Option ℕ) → naive_optional o ≡ ok n → aware_optional n ≡ o
unfolding naive_optional
naive_optional-aware none n e = ap aware_optional (sym (ok-inside none n e))
naive_optional-aware (some t) n e =
    let (m, f, h) = bind-eq-ok (naive t) _ e in
    ap aware_optional (sym (ok-inside _ n h)) ∙ ap some (naive-aware t m f)

pub job_of_row-row_of_job :
    (clock : ℕ) (j : AiJob) (r : JobRow) → row_of_job clock j ≡ ok r → job_of_row r ≡ j
unfolding row_of_job job_of_row
job_of_row-row_of_job clock j r e =
    let (a, ea, h1) = bind-eq-ok (naive j.submitted_at) _ e in
    let (b, eb, h2) = bind-eq-ok (naive j.expires_at) _ h1 in
    let (n, en, h3) = bind-eq-ok (naive_optional j.next_attempt_at) _ h2 in
    let (l, el, h4) = bind-eq-ok (naive_optional j.lease_expires_at) _ h3 in
    let (k, ek, h5) = bind-eq-ok (naive_optional j.cancel_requested_at) _ h4 in
    let (s, es, h6) = bind-eq-ok (naive_optional j.started_at) _ h5 in
    let (f, ef, h7) = bind-eq-ok (naive_optional j.completed_at) _ h6 in
    ap job_of_row (sym (ok-inside _ r h7))
    ∙ rw
        (
          naive-aware j.submitted_at a ea,
          naive-aware j.expires_at b eb,
          naive_optional-aware j.next_attempt_at n en,
          naive_optional-aware j.lease_expires_at l el,
          naive_optional-aware j.cancel_requested_at k ek,
          naive_optional-aware j.started_at s es,
          naive_optional-aware j.completed_at f ef,
        )
        refl

absent-first :
    (tenant_id job_id : Uuid) (rs : List JobRow)
    → has_job job_id rs ≡ false
    → first (is_job tenant_id job_id) rs ≡ none
absent-first tenant_id job_id [] e = refl
absent-first tenant_id job_id (r ∷ rs) e = ground (arith, absent-first tenant_id job_id rs)

is_job_refl : (r : JobRow) → is_job r.tenant_id r.id r ≡ true
is_job_refl r = ground arith

not-true : (b : Bool) (message : String) → guard (not b) message ≡ ok tt → b ≡ false
not-true b message e = ground arith

abbrev with_rows : GraphTables → JobRow → GrantRow × OutboxEntry → GraphTables
with_rows store r (grant, entry) = record {
  tables = record store.tables { jobs = store.tables.jobs ++ r ∷ [] };
  grants = store.grants ++ grant ∷ [];
  outbox = store.outbox ++ entry ∷ [];
}

-- The row of a job that was added to the tables.
pub add_job_graph-first :
    (clock : ℕ) (g : NewAiJobGraph) (store tables : GraphTables)
    → add_job_graph clock g store ≡ ok tables
    → (r : JobRow) × (job_of_row r ≡ g.job)
      × (first (is_job g.job.tenant_id g.job.id) tables.tables.jobs ≡ some r)
unfolding add_job_graph job_of_row
add_job_graph-first clock g store tables e =
    let (r, er, h1) = bind-eq-ok (row_of_job clock g.job) _ e in
    let (_, e2, h2) =
      bind-eq-ok (guard (not (has_job r.id store.tables.jobs)) "duplicate key")
        (λ _. add_grant_and_outbox g store >>= λ rows. ok (with_rows store r rows)) h1 in
    let (rows, e3, h3) =
      bind-eq-ok (add_grant_and_outbox g store) (λ rows. ok (with_rows store r rows)) h2 in
    let same = job_of_row-row_of_job clock g.job r er in
    (
      r,
      same,
      subst (λ j. first (is_job j.tenant_id j.id) tables.tables.jobs ≡ some r) same
          (subst (λ t. first (is_job r.tenant_id r.id) t.tables.jobs ≡ some r) (ok-inside _ _ h3)
            (first-append-none (is_job r.tenant_id r.id) store.tables.jobs r
                (absent-first r.tenant_id r.id store.tables.jobs (not-true _ _ e2))
              ∙ rw (is_job_refl r) refl)),
    )
