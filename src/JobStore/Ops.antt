-- ===== src/JobStore/Ops.antt =====
-- The calls that clients make on the job tables, one transaction each, and any sequence of them.
use lawyer_agent.Prelude.{List, [], ◌∷◌, String, Result, ok, err}
use lawyer_agent.Common.{Uuid, DateTime}
use lawyer_agent.AiJobs.Requests.{ClaimJobRequest, FencedHeartbeat, FencedFinalizeSuccess}
use lawyer_agent.JobStore.Claiming.{JobTables, claim_due_job}
use lawyer_agent.JobStore.Jobs.{
  heartbeat, finalize_success, fail_job_without_attempt, cancel_claimable_job,
}

pub data Call : Type 0 where
  claims : ClaimJobRequest → Call
  heartbeats : FencedHeartbeat → Call
  finalizes : FencedFinalizeSuccess → Call
  fails : Uuid → Uuid → String → String → DateTime → Call
  cancels : Uuid → Uuid → DateTime → Call

-- A transaction commits its tables, or raises and leaves them as they were.
abbrev pub committed : {A : Type 0} → Result String (A × JobTables) → JobTables → JobTables
committed (ok (_, after)) before = after
committed (err _) before = before

unfoldable pub step : Call → JobTables → JobTables
step (claims r) t = committed (claim_due_job r t) t
step (heartbeats r) t = committed (heartbeat r t) t
step (finalizes r) t = committed (finalize_success r t) t
step (fails tenant job c code now) t =
    committed (fail_job_without_attempt tenant job c code now t) t
step (cancels tenant job now) t = committed (cancel_claimable_job tenant job now t) t

unfoldable pub run : List Call → JobTables → JobTables
run [] t = t
run (c ∷ cs) t = run cs (step c t)
