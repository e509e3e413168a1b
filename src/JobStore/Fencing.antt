-- ===== src/JobStore/Fencing.antt =====
-- A fenced request takes effect at most once.
use mathlib.Core.Path.{subst}
use lawyer_agent.Prelude.{
  ℕ, ◌+◌, ◌<◌, ◌≡◌, refl, sym, ap, inl, inr, Bool, true, false, Option, none, some, List, ◌∙◌, ◌==◌,
  arith, ok, String, Result, ◌>>=◌, bind-eq-ok, Bool-cases,
}
use lawyer_agent.AiJobs.Requests.{FencedFinalizeSuccess}
use lawyer_agent.JobStore.Tables.{
  find, hits, update_where, find-update_where, Unique, count-update_where, update_where-idle,
  update_where-Unique,
}
use lawyer_agent.JobStore.Rows.{JobRow, naive}
use lawyer_agent.JobStore.Claiming.{JobTables, job_key}
use lawyer_agent.JobStore.Jobs.{finalize_success, finalize_at, may_finalize, succeeded_row}
use lawyer_agent.JobStore.Ops.{Call, run}
use lawyer_agent.JobStore.Commits.{finalize_at-jobs}
use lawyer_agent.JobStore.History.{run-IsLater, run-Unique}

may_finalize-key :
    (q : FencedFinalizeSuccess) (r : JobRow) → may_finalize q r ≡ true → job_key r ≡ q.job_id
unfolding may_finalize
may_finalize-key q r h = ground arith

may_finalize-version :
    (q : FencedFinalizeSuccess) (r : JobRow)
    → may_finalize q r ≡ true
    → r.version ≡ q.expected_version
unfolding may_finalize
may_finalize-version q r h = ground arith

-- The row that was matched, when the count is one.
pub matched_one :
    (test : JobRow → Bool) (o : Option JobRow)
    → (hits test o == 1) ≡ true
    → (r : JobRow) × (o ≡ some r) × (test r ≡ true)
matched_one test none h = cc
matched_one test (some r) h = (r, refl, ground arith)

module _ (q : FencedFinalizeSuccess) (n : ℕ) (t : JobTables) (u : Unique job_key t.jobs) where
  finalize_at-counted :
      (update_where (may_finalize q) (succeeded_row q n) t.jobs).1
      ≡ hits (may_finalize q) (find job_key q.job_id t.jobs)
  finalize_at-counted =
      count-update_where job_key (may_finalize q) (succeeded_row q n) q.job_id t.jobs
        (may_finalize-key q) u

  finalize_at-reports :
      (finalize_at q n t).0 ≡ ((update_where (may_finalize q) (succeeded_row q n) t.jobs).1 == 1)
  unfolding finalize_at
  finalize_at-reports = ground arith

  -- A finalization that reports success has raised the version that it named.
  finalize_at-true :
      (finalize_at q n t).0 ≡ true
      → (r : JobRow) × (find job_key q.job_id (finalize_at q n t).1.jobs ≡ some r)
        × (r.version ≡ q.expected_version + 1)
  unfolding succeeded_row
  finalize_at-true h =
      let (r, found, test) =
        matched_one (may_finalize q) (find job_key q.job_id t.jobs)
          (rw (← finalize_at-counted, ← finalize_at-reports) h) in
      (
        succeeded_row q n r,
        rw
            (
              finalize_at-jobs t q n,
              find-update_where job_key (may_finalize q) (succeeded_row q n) q.job_id t.jobs
                  (λ x. refl),
              found,
              test,
            )
            refl,
        ap (λ (v : ℕ). v + 1) (may_finalize-version q r test),
      )

  -- One that names an older version changes nothing.
  finalize_at-stale :
      (r : JobRow)
      → find job_key q.job_id t.jobs ≡ some r
      → q.expected_version < r.version
      → finalize_at q n t ≡ (false, t)
  unfolding finalize_at
  finalize_at-stale r found older =
      rw
        (update_where-idle job_key (may_finalize q) (succeeded_row q n) t.jobs
          (finalize_at-counted ∙ rw (found, missed) refl))
        refl
    where
      missed : may_finalize q r ≡ false
      missed = elim (Bool-cases (may_finalize q r)) [
        | inl yes' ↦ absurd (omega (arith, may_finalize-version q r yes'))
        | inr no' ↦ no'
      ]

finalize_at-Unique :
    (q : FencedFinalizeSuccess) (n : ℕ) (t : JobTables)
    → Unique job_key t.jobs
    → Unique job_key (finalize_at q n t).1.jobs
finalize_at-Unique q n t u = subst (Unique job_key) (sym (finalize_at-jobs t q n)) (
    update_where-Unique job_key (may_finalize q) (succeeded_row q n) t.jobs
      (unfold succeeded_row in λ r. refl) u)

finalize_success-at :
    (q : FencedFinalizeSuccess) (t : JobTables) (n : ℕ)
    → naive q.now ≡ ok n
    → finalize_success q t ≡ ok (finalize_at q n t)
unfolding finalize_success
finalize_success-at q t n e = ap (λ (m : Result String ℕ). m >>= λ k. ok (finalize_at q k t)) e

finalize_success-inverts :
    (q : FencedFinalizeSuccess) (t t' : JobTables) (b : Bool)
    → finalize_success q t ≡ ok (b, t')
    → (n : ℕ) × (naive q.now ≡ ok n) × (finalize_at q n t ≡ (b, t'))
unfolding finalize_success
finalize_success-inverts q t t' b h =
    let (n, e, f) = bind-eq-ok (naive q.now) (λ n. ok (finalize_at q n t)) h in (n, e, cc)

-- With a unique primary key, a finalization reports success at most once: whatever calls come after
-- one that did, the same request reports failure and changes nothing.
pub finalize_success_once :
    (q : FencedFinalizeSuccess) (t t' : JobTables) (cs : List Call)
    → Unique job_key t.jobs
    → finalize_success q t ≡ ok (true, t')
    → finalize_success q (run cs t') ≡ ok (false, run cs t')
finalize_success_once q t t' cs u h =
    let (n, at, done) = finalize_success-inverts q t t' true h in
    let (r, found, version) = finalize_at-true q n t u (ap (λ (p : Bool × JobTables). p.0) done) in
    let jobs = ap (λ (p : Bool × JobTables). p.1.jobs) done in
    let u' : Unique job_key t'.jobs = subst (Unique job_key) jobs (finalize_at-Unique q n t u) in
    let (r', found', later) =
      run-IsLater cs t' q.job_id r u' (subst (λ l. find job_key q.job_id l ≡ some r) jobs found) in
    finalize_success-at q (run cs t') n at
    ∙ ap ok (
        finalize_at-stale q n (run cs t') (run-Unique cs t' u') r' found'
          (omega (arith, version, later.no_older)))
