-- ===== src/Examples/Jobs.antt =====
-- The job store on one job: claimed, finalized, and refused afterwards.
use lawyer_agent.Prelude.{
  ◌+◌, ◌*◌, ◌/◌, ◌%◌, ◌^◌, ◌≤◌, ◌<◌, ◌≡◌, refl, ◌↔◌, true, false, some, List, [], ◌∷◌, ok, err,
  arith,
}
use lawyer_agent.Common.{Uuid, at_utc, is_uuid7, new_uuid7}
use lawyer_agent.Common.Uuid7.{new_uuid7-is_uuid7}
use lawyer_agent.AiJobs.Status.{AiJobStatus, require_transition}
use lawyer_agent.AiJobs.Lifecycle.{here, next, IsGuided, Walk-IsGuided}
use lawyer_agent.AiJobs.Timing.{
  seconds, validate_runtime_timing, validate_runtime_timing-ok, validate_job_lifetime,
  validate_job_lifetime-ok,
}
use lawyer_agent.AiJobs.Records.{
  check_job, check_job_identifiers, check_job_numbers, check_job_times,
}
use lawyer_agent.AiJobs.Requests.{check_claimed_execution, ClaimedExecution}
use lawyer_agent.JobStore.Tables.{find, Unique}
use lawyer_agent.JobStore.Rows.{JobRow, job_of_row}
use lawyer_agent.JobStore.Claiming.{
  JobTables, ClaimOutcome, job_key, claim_due_job, execution, claimed_row,
}
use lawyer_agent.JobStore.Jobs.{finalize_success}
use lawyer_agent.JobStore.Ops.{Call, claims, finalizes, cancels, step, run}
use lawyer_agent.JobStore.History.{IsLater, run-IsLater}
use lawyer_agent.JobStore.Fencing.{finalize_success_once}
use lawyer_agent.JobStore.Exclusion.{claim_due_job_excludes}
use lawyer_agent.Examples.Data.{uuid, tables, queued_row, claim, rival, finalize}

abbrev tables_Unique : Unique job_key tables.jobs
tables_Unique = (refl, tt)

abbrev history : List Call
history = claims claim ∷ finalizes finalize ∷ cancels (uuid 2) (uuid 1) (at_utc (seconds 300)) ∷ []

run-IsLater_example :
    (r' : JobRow) × (find job_key (uuid 1) (run history tables).jobs ≡ some r')
    × IsLater queued_row r'
run-IsLater_example = run-IsLater history tables (uuid 1) queued_row tables_Unique refl

-- The tables after the claim.
abbrev claimed_tables : JobTables
unfolding run step claim_due_job
claimed_tables = run (claims claim ∷ []) tables

abbrev finalized_tables : JobTables
unfolding run step finalize_success
finalized_tables = run (finalizes finalize ∷ []) claimed_tables

finalize_success_once_example :
    finalize_success finalize (run history finalized_tables)
    ≡ ok (false, run history finalized_tables)
unfolding run step claim_due_job finalize_success check_job check_job_identifiers job_of_row
    check_job_numbers check_job_times check_claimed_execution
finalize_success_once_example =
    finalize_success_once finalize claimed_tables finalized_tables history (refl, tt) refl

abbrev claimed_execution : ClaimedExecution
unfolding job_of_row claimed_row
claimed_execution =
    execution claim (job_of_row (claimed_row claim (seconds 200) (seconds 260) queued_row))

claim_due_job_excludes_example :
    claim_due_job rival claimed_tables ≡ ok (ClaimOutcome.rejected, claimed_tables)
unfolding run step claim_due_job finalize_success check_job check_job_identifiers job_of_row
    check_job_numbers check_job_times check_claimed_execution
claim_due_job_excludes_example =
    claim_due_job_excludes claim rival tables claimed_tables claimed_execution (refl, tt) refl refl
      refl refl

Walk-IsGuided_example : IsGuided AiJobStatus.queued AiJobStatus.succeeded
unfolding require_transition
Walk-IsGuided_example =
    Walk-IsGuided AiJobStatus.queued AiJobStatus.succeeded
      (next {t = AiJobStatus.running} (next {t = AiJobStatus.queued} here refl) refl)

validate_runtime_timing-ok_example : (validate_runtime_timing (seconds 60) (seconds 20) ≡ ok tt) ↔ (
    (0 < seconds 20)
    × (2 * seconds 20 < seconds 60)
    × ((seconds 60 % 4 ≡ 1) → 2 * seconds 20 + 1 < seconds 60))
validate_runtime_timing-ok_example = validate_runtime_timing-ok (seconds 60) (seconds 20)

validate_job_lifetime-ok_example :
    (validate_job_lifetime (at_utc (seconds 100)) (at_utc (seconds 3700)) ≡ ok tt) ↔ (
      (true ≡ true)
      × (true ≡ true)
      × (seconds 100 < seconds 3700)
      × (seconds 3700 ≤ seconds 100 + 24 * 3600 * 1000000))
validate_job_lifetime-ok_example =
    validate_job_lifetime-ok (at_utc (seconds 100)) (at_utc (seconds 3700))

new_uuid7-is_uuid7_example :
    ((5 < 2 ^ 48)
      → (n : Uuid) × (new_uuid7 5 6 7 ≡ ok n)
        × (is_uuid7 n ≡ true)
        × (n / 2 ^ 80 ≡ 5)
        × (n < 2 ^ 128))
    × ((2 ^ 48 ≤ 5) → new_uuid7 5 6 7 ≡ err "UUIDv7 timestamp out of range")
new_uuid7-is_uuid7_example = new_uuid7-is_uuid7 5 6 7 (omega arith) (omega arith)
