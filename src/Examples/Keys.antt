-- ===== src/Examples/Keys.antt =====
-- One idempotency key: reserved, completed and asked again.
use lawyer_agent.Prelude.{ℕ, zero, suc, ◌≡◌, refl, none, some, List, [], ◌∷◌, codes, ok, err, arith}
use lawyer_agent.Common.{Uuid, at_utc}
use lawyer_agent.AiJobs.Timing.{seconds}
use lawyer_agent.Idempotency.Types.{
  IdempotencyError, IdempotencyScope, membership, IdempotencyResultReference,
  IdempotencyMutationEffect, IdempotencyReservation, check_scope, check_result,
}
use lawyer_agent.Idempotency.Table.{
  StoredResultType, IdempotencyRow, acquire, stored_record, serialize_result_type,
}
use lawyer_agent.Idempotency.Repository.{complete_record}
use lawyer_agent.Idempotency.Service.{reservation, reserve_prepared, complete}
use lawyer_agent.Idempotency.Keys.{
  running, Reserve, Call, reserve_call, complete_call, call_slot, life,
}
use lawyer_agent.Idempotency.Sound.{IsTable, view, run, step, decoded}
use lawyer_agent.Idempotency.Outcomes.{reserve_of}
use lawyer_agent.Idempotency.Decoding.{serialize-short}
use lawyer_agent.Idempotency.Invariant.{run-IsTable, run-refines-life}
use lawyer_agent.Idempotency.Guarantees.{IsRequest, answer, finished-Replays}
use lawyer_agent.Idempotency.Firsts.{claimant}
use lawyer_agent.Idempotency.Once.{reserve-complete-Replays}
use lawyer_agent.Idempotency.Recovery.{running-Excludes, reserve-Recovers, Recovered, expired}
use lawyer_agent.Examples.Data.{uuid}

abbrev replicated : ℕ → ℕ → List ℕ
replicated zero b = []
replicated (suc n) b = b ∷ replicated n b

abbrev digest : ℕ → List ℕ
digest b = replicated 32 b

abbrev key_scope : IdempotencyScope
key_scope = record { scope_type = membership; scope_id = uuid 3; tenant_id = some (uuid 2) }

abbrev asked : Uuid → ℕ → Reserve
asked id at = record {
  ttl = seconds 86400;
  new_id = id;
  clock = at;
  scope = key_scope;
  operation = "ai_job.create";
  prepared = record {
    key_hash = digest 1;
    request_fingerprint = digest 2;
    canonical_method = codes "POST";
    canonical_route = codes "/api/v1/tenants";
  };
  now = at_utc at;
}

abbrev first_request : Reserve
first_request = asked (uuid 100) (seconds 100)

abbrev second_request : Reserve
second_request = asked (uuid 101) (seconds 200)

abbrev late_request : Reserve
late_request = asked (uuid 102) (seconds 90000)

abbrev written_result : IdempotencyResultReference
written_result = record {
  result_type = "ai_job.job";
  result_id = uuid 1;
  mutation_effect = none;
  cache_authz_version = none;
}

abbrev effect_result : IdempotencyResultReference
effect_result = record written_result {
  mutation_effect = some IdempotencyMutationEffect.changed;
  cache_authz_version = some 17;
}

abbrev held : IdempotencyReservation
held = reservation (uuid 100) (digest 2) none

abbrev reserved_rows : List IdempotencyRow
unfolding step reserve_prepared acquire stored_record
reserved_rows = step (reserve_call first_request) []

abbrev completed_rows : List IdempotencyRow
unfolding step reserve_prepared acquire stored_record complete complete_record
completed_rows = step (complete_call held written_result (at_utc (seconds 150))) reserved_rows

no_rows : IsTable []
no_rows = record { sound = tt; unique = tt }

serialize-short_example : (w : StoredResultType) × (serialize_result_type effect_result ≡ ok w)
unfolding check_result
serialize-short_example = serialize-short effect_result refl (omega arith)

run-IsTable_example : IsTable (run (reserve_call first_request ∷ []) [])
unfolding check_scope
run-IsTable_example =
    run-IsTable (reserve_call first_request ∷ []) [] no_rows ((refl, refl, refl), refl, tt)

run-refines-life_example :
    view (call_slot first_request) (run (reserve_call first_request ∷ []) [])
    ≡ life
        (call_slot first_request)
        (reserve_call first_request ∷ [])
        (view (call_slot first_request) [])
unfolding check_scope
run-refines-life_example =
    run-refines-life (call_slot first_request) (reserve_call first_request ∷ []) [] no_rows
      ((refl, refl, refl), refl, tt)

reserved-IsTable : IsTable reserved_rows
unfolding check_scope reserve_prepared step acquire stored_record run
reserved-IsTable = run-IsTable_example

abbrev first_calls : List Call
first_calls =
    reserve_call first_request ∷ complete_call held written_result (at_utc (seconds 150)) ∷ []

completed-IsTable : IsTable completed_rows
unfolding check_scope reserve_prepared step acquire stored_record run complete complete_record
    check_result
completed-IsTable = run-IsTable first_calls [] no_rows ((refl, refl, refl), refl, (refl, tt, tt))

-- A second request whose id is fresh in a table with one row.
IsRequest-second : IsRequest second_request completed_rows
unfolding check_scope completed_rows
IsRequest-second = record { utc = refl; operation = refl; call = (refl, refl, refl); fresh = refl }

reserve-complete-Replays_example :
    reserve_of second_request completed_rows
    ≡ ok (reservation (uuid 100) (digest 2) (some written_result), completed_rows)
unfolding check_scope check_result reserve_prepared acquire stored_record complete complete_record
    step run
reserve-complete-Replays_example =
    reserve-complete-Replays first_request second_request [] [] reserved_rows completed_rows held
      written_result (at_utc (seconds 150)) no_rows
      (record { utc = refl; operation = refl; call = (refl, refl, refl); fresh = refl }) refl refl
      refl refl tt (record { same_scope = refl; same_operation = refl; same_prepared = refl })
      IsRequest-second

finished-Replays_example :
    reserve_of second_request completed_rows
    ≡ answer second_request
        (claimant first_request (uuid 100))
        (ok (reservation (uuid 100) (digest 2) (some written_result), completed_rows))
unfolding view decoded run step reserve_prepared acquire stored_record complete complete_record
finished-Replays_example =
    finished-Replays second_request [] completed_rows (claimant first_request (uuid 100))
      written_result completed-IsTable tt IsRequest-second refl

running-Excludes_example :
    reserve_of second_request reserved_rows
    ≡ answer second_request (claimant first_request (uuid 100)) (err IdempotencyError.in_progress)
unfolding view decoded run step reserve_prepared acquire stored_record check_scope
running-Excludes_example =
    running-Excludes second_request [] reserved_rows (claimant first_request (uuid 100))
      (seconds 86500) reserved-IsTable tt refl tt
      (record { utc = refl; operation = refl; call = (refl, refl, refl); fresh = refl })
      (omega arith)

reserve-Recovers_example :
    Recovered late_request reserved_rows
      (claimant first_request (uuid 100))
      (running (claimant first_request (uuid 100)) (seconds 176400))
unfolding view decoded run step reserve_prepared acquire stored_record check_scope
reserve-Recovers_example =
    reserve-Recovers late_request reserved_rows (claimant first_request (uuid 100)) reserved-IsTable
      (record { utc = refl; operation = refl; call = (refl, refl, refl); fresh = refl })
      (expired {until = seconds 86500} (omega arith)) refl
