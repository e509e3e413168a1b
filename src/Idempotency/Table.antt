-- ===== src/Idempotency/Table.antt =====
-- `idempotency_records` and the statements of SqlAlchemyIdempotencyRepository
-- (infrastructure/persistence/repositories/idempotency.py). The text of a result's metadata is kept
-- as the object that `json.dumps` wrote and `json.loads` reads.
use lawyer_agent.Prelude.{
  ℕ, ◌+◌, ◌/◌, zero, suc, Bool, true, false, ◌&&◌, ◌||◌, Option, none, some, String, List, [], ◌∷◌,
  ◌++◌, any, length, codes, leb, ltb, ◌==◌, if◌then◌else◌, Result, ok, err, guard, ◌>>=◌, ◌>>◌,
  same_option,
}
use lawyer_agent.Common.{Uuid, at_utc}
use lawyer_agent.JobStore.Rows.{naive}
use lawyer_agent.JobStore.Lookup.{first}
use lawyer_agent.Idempotency.Types.{
  IdempotencyError, IdempotencyStatus, reserved, IdempotencyMutationEffect, IdempotencyScopeType,
  IdempotencyScope, IdempotencyResultReference, NewIdempotencyRecord, StoredIdempotencyRecord,
  AcquiredIdempotencyRecord, check_scope, check_result, value_error,
}
use lawyer_agent.Idempotency.Slots.{Slot, same_slot, same_scope_type}

-- The column `result_type`: the type itself, or the metadata object {"a", "e", "t"} as JSON.
pub data StoredResultType : Type 0 where
  plain : String → StoredResultType
  metadata : Option ℕ → Option IdempotencyMutationEffect → String → StoredResultType

-- `IdempotencyRecordModel`
pub record IdempotencyRow : Type 0 where
  pub id : Uuid
  pub tenant_id : Option Uuid
  pub scope_type : IdempotencyScopeType
  pub scope_id : Uuid
  pub operation : String
  pub key_hash : List ℕ
  pub request_fingerprint : List ℕ
  pub status : IdempotencyStatus
  pub result_type : Option StoredResultType
  pub result_id : Option Uuid
  pub expires_at : ℕ
  pub version : ℕ
  pub updated_at : ℕ

abbrev pub row_key : IdempotencyRow → Uuid
row_key r = r.id

abbrev pub slot_of : IdempotencyRow → Slot
slot_of r = record {
  scope_type = r.scope_type;
  scope_id = r.scope_id;
  operation = r.operation;
  key_hash = r.key_hash;
}

abbrev pub slot_of_new : NewIdempotencyRecord → Slot
slot_of_new c = record {
  scope_type = c.scope.scope_type;
  scope_id = c.scope.scope_id;
  operation = c.operation;
  key_hash = c.key_hash;
}

-- The number of characters of `str(n)`; each turn divides by ten, so that n + 1 turns are enough.
abbrev pub decimal_length : ℕ → ℕ → ℕ
decimal_length zero n = 0
decimal_length (suc fuel) n = elim (ltb n 10) [
  | true ↦ 1
  | false ↦ suc (decimal_length fuel (n / 10))
]

abbrev pub cache_length : Option ℕ → ℕ
cache_length none = 4
cache_length (some version) = decimal_length (suc version) version

-- The number of characters that `ensure_ascii` writes for one: an escape of two, `\uXXXX`, or a pair.
unfoldable pub ascii_length : ℕ → ℕ
ascii_length c =
    if c == 34 || c == 92 || (leb 8 c && leb c 10) || c == 12 || c == 13
    then 2
    else if leb 32 c && leb c 126
    then 1
    else if leb c 0xffff
    then 6
    else 12

abbrev pub ascii_lengths : List ℕ → ℕ
ascii_lengths [] = 0
ascii_lengths (c ∷ cs) = ascii_length c + ascii_lengths cs

abbrev pub effect_length : Option IdempotencyMutationEffect → ℕ
effect_length none = 4
effect_length (some IdempotencyMutationEffect.changed) = 9
effect_length (some IdempotencyMutationEffect.no_change) = 11

-- `len(encoded)` of {"a":...,"e":...,"t":"..."}.
abbrev pub encoded_length : Option ℕ → Option IdempotencyMutationEffect → String → ℕ
encoded_length cache effect type_ =
    5 + cache_length cache + 5 + effect_length effect + 5 + (ascii_lengths (codes type_) + 2) + 1

abbrev pub encode_metadata :
    Option ℕ → Option IdempotencyMutationEffect → String → Result IdempotencyError StoredResultType
encode_metadata none none type_ = ok (plain type_)
encode_metadata cache effect type_ = do
  guard (leb (encoded_length cache effect type_) 64)
      (IdempotencyError.state "idempotency result metadata is too large")
  ok (metadata cache effect type_)

-- `_serialize_result_type`
unfoldable pub serialize_result_type :
    IdempotencyResultReference → Result IdempotencyError StoredResultType
unfolding ascii_length
serialize_result_type r = encode_metadata r.cache_authz_version r.mutation_effect r.result_type

-- `value.startswith("{")`
abbrev pub opens_brace : List ℕ → Bool
opens_brace [] = false
opens_brace (c ∷ _) = c == 123

abbrev reference :
    String
    → Uuid
    → Option IdempotencyMutationEffect
    → Option ℕ
    → Result String IdempotencyResultReference
reference type_ result_id effect cache = do
  let result : IdempotencyResultReference = record {
    result_type = type_;
    result_id = result_id;
    mutation_effect = effect;
    cache_authz_version = cache;
  }
  check_result result
  ok result

abbrev state_error {ℓ} : {A : Type ℓ} → String → Result String A → Result IdempotencyError A
state_error message (ok a) = ok a
state_error message (err _) = err (IdempotencyError.state message)

-- `_deserialize_result_type`
unfoldable pub deserialize_result_type :
    StoredResultType → Uuid → Result IdempotencyError IdempotencyResultReference
unfolding check_result
deserialize_result_type (plain type_) result_id =
    if opens_brace (codes type_)
    then err (IdempotencyError.state "idempotency result metadata is invalid")
    else value_error (reference type_ result_id none none)
deserialize_result_type (metadata cache effect type_) result_id =
    state_error "idempotency result metadata is invalid" (reference type_ result_id effect cache)

abbrev pub stored_result :
    Option StoredResultType
    → Option Uuid
    → Result IdempotencyError (Option IdempotencyResultReference)
stored_result none none = ok none
stored_result (some type_) (some result_id) =
    deserialize_result_type type_ result_id >>= λ r. ok (some r)
stored_result _ _ = err (IdempotencyError.state "idempotency result reference is incomplete")

abbrev pub row_scope : IdempotencyRow → IdempotencyScope
row_scope m = record { scope_type = m.scope_type; scope_id = m.scope_id; tenant_id = m.tenant_id }

-- `_stored`
unfoldable pub stored_record : IdempotencyRow → Result IdempotencyError StoredIdempotencyRecord
unfolding check_scope deserialize_result_type
stored_record m = do
  result ← stored_result m.result_type m.result_id
  guard (length m.key_hash == 32 && length m.request_fingerprint == 32)
      (IdempotencyError.state "idempotency digests have invalid lengths")
  value_error (check_scope (row_scope m))
  ok (record {
    id = m.id;
    scope = row_scope m;
    operation = m.operation;
    key_hash = m.key_hash;
    request_fingerprint = m.request_fingerprint;
    status = m.status;
    result = result;
    expires_at = at_utc m.expires_at;
  })

-- SELECT by the unique key.
abbrev pub find_slot : Slot → List IdempotencyRow → Option IdempotencyRow
find_slot s rows = first (λ r. same_slot (slot_of r) s) rows

-- The row that INSERT writes.
abbrev pub new_row : NewIdempotencyRecord → ℕ → ℕ → IdempotencyRow
new_row c expires_at at = record {
  id = c.id;
  tenant_id = c.scope.tenant_id;
  scope_type = c.scope.scope_type;
  scope_id = c.scope.scope_id;
  operation = c.operation;
  key_hash = c.key_hash;
  request_fingerprint = c.request_fingerprint;
  status = reserved;
  result_type = none;
  result_id = none;
  expires_at = expires_at;
  version = 1;
  updated_at = at;
}

-- A row with the candidate's id or slot: INSERT then changes nothing.
abbrev pub occupies : NewIdempotencyRecord → IdempotencyRow → Bool
occupies c r = r.id == c.id || same_slot (slot_of r) (slot_of_new c)

abbrev pub is_same_scope : IdempotencyScope → IdempotencyScope → Bool
is_same_scope a b =
    same_scope_type a.scope_type b.scope_type
    && a.scope_id == b.scope_id
    && same_option a.tenant_id b.tenant_id

-- INSERT ... ON DUPLICATE KEY UPDATE id = id.
abbrev pub insert_candidate :
    NewIdempotencyRecord → ℕ → ℕ → List IdempotencyRow → List IdempotencyRow
insert_candidate c expires_at clock rows =
    if any (occupies c) rows then rows else rows ++ new_row c expires_at clock ∷ []

abbrev pub acquired_from :
    NewIdempotencyRecord → Option IdempotencyRow → Result IdempotencyError AcquiredIdempotencyRecord
acquired_from c none =
    err (IdempotencyError.state "idempotency record disappeared during reservation")
acquired_from c (some m) = do
  stored ← stored_record m
  guard (is_same_scope stored.scope c.scope) (IdempotencyError.state "idempotency scope collision")
  ok (record { stored = stored; inserted = m.id == c.id })

-- `acquire`; the database's clock gives `updated_at` of a new row.
unfoldable pub acquire :
    ℕ
    → NewIdempotencyRecord
    → List IdempotencyRow
    → Result IdempotencyError (AcquiredIdempotencyRecord × List IdempotencyRow)
unfolding naive same_slot stored_record
acquire clock c rows = do
  expires_at ← value_error (naive c.expires_at)
  let rows' = insert_candidate c expires_at clock rows
  acquired ← acquired_from c (find_slot (slot_of_new c) rows')
  ok (acquired, rows')
