-- ===== src/Idempotency/Repository.antt =====
-- The updates of SqlAlchemyIdempotencyRepository
-- (infrastructure/persistence/repositories/idempotency.py): `restart`, `complete` and `fail`, each
-- one UPDATE that is guarded by the row's id, status and fingerprint and reports its row count.
use lawyer_agent.Prelude.{
  ℕ, ◌+◌, Bool, true, false, not, ◌&&◌, Option, none, some, List, [], ◌∷◌, any, leb, ◌==◌, Result,
  ok, guard, ◌>>=◌, ◌>>◌, none_or,
}
use lawyer_agent.Common.{Uuid, DateTime}
use lawyer_agent.JobStore.Inbox.{same_bytes}
use lawyer_agent.JobStore.Rows.{naive}
use lawyer_agent.JobStore.Tables.{update_where}
use lawyer_agent.Idempotency.Types.{
  IdempotencyError, IdempotencyStatus, reserved, completed, failed, IdempotencyResultReference,
  value_error,
}
use lawyer_agent.Idempotency.Table.{IdempotencyRow, StoredResultType, serialize_result_type}

abbrev pub is_same_status : IdempotencyStatus → IdempotencyStatus → Bool
is_same_status reserved reserved = true
is_same_status completed completed = true
is_same_status failed failed = true
is_same_status _ _ = false

abbrev naive_bound : Option DateTime → Result IdempotencyError (Option ℕ)
naive_bound none = ok none
naive_bound (some t) = value_error (naive t) >>= λ n. ok (some n)

abbrev is_empty_list {ℓ} : {A : Type ℓ} → List A → Bool
is_empty_list [] = true
is_empty_list (_ ∷ _) = false

unfoldable pub may_restart :
    Uuid → List ℕ → List IdempotencyStatus → Option ℕ → IdempotencyRow → Bool
may_restart record_id old allowed expired_before r =
    r.id == record_id
    && same_bytes r.request_fingerprint old
    && any (is_same_status r.status) allowed
    && none_or (leb r.expires_at) expired_before

unfoldable pub restarted_row : List ℕ → ℕ → IdempotencyRow → IdempotencyRow
restarted_row new expires_at r = record r {
  request_fingerprint = new;
  status = reserved;
  result_type = none;
  result_id = none;
  expires_at = expires_at;
  version = r.version + 1;
}

unfoldable pub restart :
    Uuid
    → List ℕ
    → List ℕ
    → List IdempotencyStatus
    → Option DateTime
    → DateTime
    → List IdempotencyRow
    → Result IdempotencyError (Bool × List IdempotencyRow)
unfolding naive may_restart restarted_row
restart record_id old new allowed expired_before expires_at rows = do
  guard (not (is_empty_list allowed))
      (IdempotencyError.invalid_value "idempotency restart statuses must be strongly typed")
  before ← naive_bound expired_before
  at ← value_error (naive expires_at)
  let (rows', rowcount) =
      update_where (may_restart record_id old allowed before) (restarted_row new at) rows
  ok (rowcount == 1, rows')

-- The guard that `complete` and `fail` share.
unfoldable pub is_open : Uuid → List ℕ → IdempotencyRow → Bool
is_open record_id fingerprint r =
    r.id == record_id
    && is_same_status r.status reserved
    && same_bytes r.request_fingerprint fingerprint

unfoldable pub completed_record : StoredResultType → Uuid → ℕ → IdempotencyRow → IdempotencyRow
completed_record type_ result_id now r = record r {
  status = completed;
  result_type = some type_;
  result_id = some result_id;
  version = r.version + 1;
  updated_at = now;
}

unfoldable pub complete_record :
    Uuid
    → List ℕ
    → IdempotencyResultReference
    → DateTime
    → List IdempotencyRow
    → Result IdempotencyError (Bool × List IdempotencyRow)
unfolding naive is_open completed_record serialize_result_type
complete_record record_id fingerprint result now rows = do
  type_ ← serialize_result_type result
  at ← value_error (naive now)
  let (rows', rowcount) =
      update_where (is_open record_id fingerprint) (completed_record type_ result.result_id at) rows
  ok (rowcount == 1, rows')

unfoldable pub failed_record : ℕ → IdempotencyRow → IdempotencyRow
failed_record now r = record r {
  status = failed;
  result_type = none;
  result_id = none;
  version = r.version + 1;
  updated_at = now;
}

unfoldable pub fail_record :
    Uuid
    → List ℕ
    → DateTime
    → List IdempotencyRow
    → Result IdempotencyError (Bool × List IdempotencyRow)
unfolding naive is_open failed_record
fail_record record_id fingerprint now rows = do
  at ← value_error (naive now)
  let (rows', rowcount) = update_where (is_open record_id fingerprint) (failed_record at) rows
  ok (rowcount == 1, rows')
