-- ===== src/Idempotency/Sound.antt =====
-- Sound rows of `idempotency_records`, what they say of their key, and the calls on the table
-- (application/idempotency.py and its repository).
use lawyer_agent.Prelude.{◌≡◌, Option, none, some, List, [], ◌∷◌, length, All, Result, ok, err}
use lawyer_agent.Common.{Uuid}
use lawyer_agent.JobStore.Tables.{find, Unique}
use lawyer_agent.Idempotency.Types.{
  IdempotencyStatus, reserved, completed, failed, IdempotencyResultReference, check_scope,
  check_result,
}
use lawyer_agent.Idempotency.Slots.{Slot}
use lawyer_agent.Idempotency.Table.{
  StoredResultType, plain, metadata, IdempotencyRow, row_key, row_scope, serialize_result_type,
  find_slot,
}
use lawyer_agent.Idempotency.Service.{reserve_prepared, complete, fail}
use lawyer_agent.Idempotency.Keys.{
  Holder, KeyState, free, running, finished, broken, Call, reserve_call, complete_call, fail_call,
}

-- The reference that the columns hold.
unfoldable pub decoded : StoredResultType → Uuid → IdempotencyResultReference
decoded (plain type_) result_id = record {
  result_type = type_;
  result_id = result_id;
  mutation_effect = none;
  cache_authz_version = none;
}
decoded (metadata cache effect type_) result_id = record {
  result_type = type_;
  result_id = result_id;
  mutation_effect = effect;
  cache_authz_version = cache;
}

-- The result columns: empty before completion, and a valid reference as it was written after it.
abbrev pub HasResult : IdempotencyStatus → Option StoredResultType → Option Uuid → Type 0
HasResult completed type_ result_id =
    (result : IdempotencyResultReference) × (check_result result ≡ ok tt)
    × (written : StoredResultType) × (serialize_result_type result ≡ ok written)
    × (type_ ≡ some written)
    × (result_id ≡ some result.result_id)
HasResult _ type_ result_id = (type_ ≡ none) × (result_id ≡ none)

pub record IsSound (r : IdempotencyRow) : Type 0 where
  pub key_length : length r.key_hash ≡ 32
  pub fingerprint_length : length r.request_fingerprint ≡ 32
  pub scope_checked : check_scope (row_scope r) ≡ ok tt
  pub result_matches : HasResult r.status r.result_type r.result_id

pub record IsTable (rows : List IdempotencyRow) : Type 0 where
  pub sound : All IsSound rows
  pub unique : Unique row_key rows

abbrev pub holder_of : IdempotencyRow → Holder
holder_of r = record {
  record_id = r.id;
  tenant_id = r.tenant_id;
  fingerprint = r.request_fingerprint;
}

abbrev pub view_result : Holder → Option StoredResultType → Option Uuid → KeyState
view_result h (some type_) (some result_id) = finished h (decoded type_ result_id)
view_result h _ _ = broken h

abbrev pub view_status : IdempotencyStatus → IdempotencyRow → KeyState
view_status reserved r = running (holder_of r) r.expires_at
view_status completed r = view_result (holder_of r) r.result_type r.result_id
view_status failed r = broken (holder_of r)

abbrev pub view_row : Option IdempotencyRow → KeyState
view_row none = free
view_row (some r) = view_status r.status r

-- The state of a slot in a table.
unfoldable pub view : Slot → List IdempotencyRow → KeyState
unfolding decoded
view s rows = view_row (find_slot s rows)

abbrev pub kept_after {ℓ} :
    {E : Type ℓ} → List IdempotencyRow → Result E (List IdempotencyRow) → List IdempotencyRow
kept_after rows (ok rows') = rows'
kept_after rows (err e) = rows

abbrev pub kept_pair {ℓ κ} :
    {E : Type ℓ} {A : Type κ}
    → List IdempotencyRow
    → Result E (A × List IdempotencyRow)
    → List IdempotencyRow
kept_pair rows (ok (a, rows')) = rows'
kept_pair rows (err e) = rows

-- One call in a transaction of its own, which an exception rolls back.
unfoldable pub step : Call → List IdempotencyRow → List IdempotencyRow
unfolding reserve_prepared complete fail
step (reserve_call c) rows =
    kept_pair rows
      (reserve_prepared c.ttl c.new_id c.clock c.scope c.operation c.prepared c.now rows)
step (complete_call r result now) rows = kept_after rows (complete r result now rows)
step (fail_call r now) rows = kept_after rows (fail r now rows)

unfoldable pub run : List Call → List IdempotencyRow → List IdempotencyRow
unfolding step
run [] rows = rows
run (c ∷ cs) rows = run cs (step c rows)

-- A call with the values that the service's own checks and digests give.
abbrev pub IsCall : Call → Type 0
IsCall (reserve_call c) =
    (check_scope c.scope ≡ ok tt)
    × (length c.prepared.key_hash ≡ 32)
    × (length c.prepared.request_fingerprint ≡ 32)
IsCall (complete_call r result now) = check_result result ≡ ok tt
IsCall (fail_call r now) = Unit

-- A fresh id is in no row.
abbrev pub IsFresh : Call → List IdempotencyRow → Type 0
IsFresh (reserve_call c) rows = find row_key c.new_id rows ≡ none
IsFresh _ rows = Unit

-- Well-formed calls, whose ids are fresh when their turn comes.
abbrev pub AreCalls : List Call → List IdempotencyRow → Type 0
AreCalls [] rows = Unit
AreCalls (c ∷ cs) rows = IsCall c × IsFresh c rows × AreCalls cs (step c rows)
