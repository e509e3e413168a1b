-- ===== src/JobStore/History.antt =====
-- What any sequence of calls does to the row of a job.
use mathlib.Core.Path.{subst}
use lawyer_agent.Prelude.{
  ◌≤◌, ◌≡◌, refl, sym, ◌⊎◌, inl, inr, Bool, true, Option, none, some, List, [], ◌∷◌, ◌∙◌, arith, ok,
  Bool-cases,
}
use lawyer_agent.Common.{Uuid}
use lawyer_agent.AiJobs.Status.{AiJobStatus, require_transition}
use lawyer_agent.AiJobs.Lifecycle.{Walk, here, next}
use lawyer_agent.JobStore.Tables.{
  find, find-key, changed, find-update_where, Unique, update_where-Unique,
}
use lawyer_agent.JobStore.Rows.{JobRow, IsConsistent}
use lawyer_agent.JobStore.Claiming.{JobTables, job_key}
use lawyer_agent.JobStore.Ops.{Call, step, run}
use lawyer_agent.JobStore.Steps.{IsWrite}
use lawyer_agent.JobStore.Commits.{IsCommit, unchanged, updated, step-IsCommit}

-- One statement on the row under a key: it is absent, kept, or written once.
pub data Evolves : Option JobRow → Option JobRow → Type 0 where
  absent : Evolves none none
  kept : {r : JobRow} → Evolves (some r) (some r)
  written : {r r' : JobRow} → IsWrite r r' → Evolves (some r) (some r')

Evolves-refl : (o : Option JobRow) → Evolves o o
Evolves-refl none = absent
Evolves-refl (some r) = kept

Evolves-changed :
    (test : JobRow → Bool) (change : JobRow → JobRow) (o : Option JobRow)
    → ((r : JobRow) → o ≡ some r → test r ≡ true → IsWrite r (change r))
    → Evolves o (changed test change o)
Evolves-changed test change none h = absent
Evolves-changed test change (some r) h = elim (Bool-cases (test r)) [
  | inl e ↦ rw e (written (h r refl e))
  | inr e ↦ rw e kept
]

-- Every statement keeps the primary key, so it acts under each key by itself.
commit-Evolves :
    (j : Uuid) (t t' : JobTables)
    → IsCommit t t'
    → Evolves (find job_key j t.jobs) (find job_key j t'.jobs)
commit-Evolves j t t' (unchanged e) = rw e (Evolves-refl (find job_key j t.jobs))
commit-Evolves j t t' (updated test change keeps writes e) =
    rw (e, find-update_where job_key test change j t.jobs keeps)
      (Evolves-changed test change (find job_key j t.jobs) (λ r found. writes r (
        subst (λ k. find job_key k t.jobs ≡ some r) (sym (find-key job_key j t.jobs r found))
          found)))

commit-Unique : (t t' : JobTables) → IsCommit t t' → Unique job_key t.jobs → Unique job_key t'.jobs
commit-Unique t t' (unchanged e) u = rw e u
commit-Unique t t' (updated test change keeps writes e) u =
    rw e (update_where-Unique job_key test change t.jobs keeps u)

-- Where a row has come in any number of statements: along allowed transitions, with its submission
-- and the table's constraints kept, and a version that tells its contents.
pub record IsLater (r r' : JobRow) : Type 0 where
  pub walked : Walk r.status r'.status
  pub same_submission : r'.submission ≡ r.submission
  pub no_older : r.version ≤ r'.version
  pub same_version : r'.version ≡ r.version → r' ≡ r
  pub keeps_constraints : IsConsistent r → IsConsistent r'

IsLater-refl : (r : JobRow) → IsLater r r
IsLater-refl r = record {
  walked = here;
  same_submission = refl;
  no_older = omega arith;
  same_version = λ _. refl;
  keeps_constraints = λ c. c;
}

Walk-extends :
    {a b c : AiJobStatus} → Walk a b → (c ≡ b) ⊎ (require_transition b c ≡ ok tt) → Walk a c
Walk-extends w (inl e) = subst (Walk _) (sym e) w
Walk-extends w (inr h) = next w h

IsLater-write : {a b c : JobRow} → IsLater a b → IsWrite b c → IsLater a c
IsLater-write l w = record {
  walked = Walk-extends l.walked w.legal;
  same_submission = w.same_submission ∙ l.same_submission;
  no_older = omega (arith, l.no_older, w.counted);
  same_version = λ e. absurd (omega (arith, l.no_older, w.counted));
  keeps_constraints = λ c. w.keeps_constraints (l.keeps_constraints c);
}

-- One more statement after any number.
IsLater-row :
    {a b : JobRow} {o : Option JobRow}
    → IsLater a b
    → Evolves (some b) o
    → (c : JobRow) × (o ≡ some c) × IsLater a c
IsLater-row {b = b} l kept = (b, refl, l)
IsLater-row l (written {r' = c} w) = (c, refl, IsLater-write l w)

run_from :
    (cs : List Call) (t : JobTables) (j : Uuid) (a b : JobRow)
    → Unique job_key t.jobs
    → find job_key j t.jobs ≡ some b
    → IsLater a b
    → (c : JobRow) × (find job_key j (run cs t).jobs ≡ some c) × IsLater a c
unfolding run
run_from [] t j a b u found l = (b, found, l)
run_from (c ∷ cs) t j a b u found l =
    let commit = step-IsCommit c t u in
    let (b', found', l') = IsLater-row l (
      subst (λ o. Evolves o (find job_key j (step c t).jobs)) found
        (commit-Evolves j t (step c t) commit)) in
    run_from cs (step c t) j a b' (commit-Unique t (step c t) commit u) found' l'

-- With a unique primary key, after any sequence of claims, heartbeats, finalizations, failures and
-- cancellations, a job's row is still there. Its status was reached along allowed transitions, what
-- was submitted is unchanged, the table's CHECK constraints still hold if they held, the version has
-- not fallen, and if the version is the same then so is the whole row.
pub run-IsLater :
    (cs : List Call) (t : JobTables) (j : Uuid) (r : JobRow)
    → Unique job_key t.jobs
    → find job_key j t.jobs ≡ some r
    → (r' : JobRow) × (find job_key j (run cs t).jobs ≡ some r') × IsLater r r'
run-IsLater cs t j r u found = run_from cs t j r r u found (IsLater-refl r)

pub run-Unique :
    (cs : List Call) (t : JobTables) → Unique job_key t.jobs → Unique job_key (run cs t).jobs
unfolding run
run-Unique [] t u = u
run-Unique (c ∷ cs) t u =
    run-Unique cs (step c t) (commit-Unique t (step c t) (step-IsCommit c t u) u)
