-- ===== src/Idempotency/Types.antt =====
-- Idempotency keys: the enums, errors and records of application/idempotency.py.
use Prim.Native.String.{◌++◌ as str_append}
use lawyer_agent.Prelude.{
  ℕ, ◌-◌, ◌^◌, Bool, false, ◌&&◌, ◌||◌, Option, none, some, String, List, [], ◌∷◌, codes, all,
  length, leb, ◌==◌, Result, ok, err, guard, ◌>>=◌, ◌>>◌, check_optional,
}
use lawyer_agent.Common.{Uuid, DateTime, require_uuid7}

-- The exceptions that the service raises, with their messages.
pub data IdempotencyError : Type 0 where
  invalid_key invalid_request state invalid_value : String → IdempotencyError
  conflict in_progress : IdempotencyError

-- `raise ValueError(...)` of what the service calls.
abbrev pub value_error {ℓ} : {A : Type ℓ} → Result String A → Result IdempotencyError A
value_error (ok a) = ok a
value_error (err e) = err (invalid_value e)

pub data IdempotencyScopeType : Type 0 where
  user membership platform : IdempotencyScopeType

pub data IdempotencyStatus : Type 0 where
  reserved completed failed : IdempotencyStatus

pub data IdempotencyMutationEffect : Type 0 where
  changed no_change : IdempotencyMutationEffect

pub record IdempotencyScope : Type 0 where
  pub scope_type : IdempotencyScopeType
  pub scope_id : Uuid
  pub tenant_id : Option Uuid

-- `require_uuid7(value, field=field)` of a value that may be `None`.
abbrev require_some_uuid7 : Option Uuid → String → Result String (Unit {0})
require_some_uuid7 none field = err (str_append field " must be an RFC 9562 UUIDv7")
require_some_uuid7 (some n) field = do n' ← require_uuid7 n field; ok tt

abbrev check_scope_tenant : IdempotencyScopeType → Option Uuid → Result String (Unit {0})
check_scope_tenant membership tenant_id = require_some_uuid7 tenant_id "idempotency tenant_id"
check_scope_tenant _ none = ok tt
check_scope_tenant _ (some _) = err "only membership idempotency scopes carry tenant_id"

-- `IdempotencyScope.__post_init__`
unfoldable pub check_scope : IdempotencyScope → Result String (Unit {0})
unfolding require_uuid7
check_scope s = do
  n ← require_uuid7 s.scope_id "idempotency scope_id"
  check_scope_tenant s.scope_type s.tenant_id

pub record IdempotencyResultReference : Type 0 where
  pub result_type : String
  pub result_id : Uuid
  pub mutation_effect : Option IdempotencyMutationEffect
  pub cache_authz_version : Option ℕ

abbrev pub is_lower : ℕ → Bool
is_lower c = leb 97 c && leb c 122

abbrev pub is_upper : ℕ → Bool
is_upper c = leb 65 c && leb c 90

abbrev pub is_digit : ℕ → Bool
is_digit c = leb 48 c && leb c 57

-- `[a-z0-9_.:-]`
abbrev pub is_code_char : ℕ → Bool
is_code_char c = is_lower c || is_digit c || c == 95 || c == 46 || c == 58 || c == 45

-- `[a-z][a-z0-9_.:-]{0,n}`
abbrev pub is_code : ℕ → List ℕ → Bool
is_code n [] = false
is_code n (c ∷ cs) = is_lower c && leb (length cs) n && all is_code_char cs

-- `1 <= version <= (1 << 31) - 1`
abbrev pub check_cache_version : ℕ → Result String (Unit {0})
check_cache_version version =
    guard (leb 1 version && leb version (2 ^ 31 - 1)) "idempotency cache authz version is invalid"

-- `IdempotencyResultReference.__post_init__`
unfoldable pub check_result : IdempotencyResultReference → Result String (Unit {0})
unfolding require_uuid7
check_result r = do
  guard (is_code 63 (codes r.result_type)) "idempotency result type is invalid"
  n ← require_uuid7 r.result_id "idempotency result_id"
  check_optional check_cache_version r.cache_authz_version

pub record NewIdempotencyRecord : Type 0 where
  pub id : Uuid
  pub scope : IdempotencyScope
  pub operation : String
  pub key_hash : List ℕ
  pub request_fingerprint : List ℕ
  pub expires_at : DateTime

pub record StoredIdempotencyRecord : Type 0 where
  pub id : Uuid
  pub scope : IdempotencyScope
  pub operation : String
  pub key_hash : List ℕ
  pub request_fingerprint : List ℕ
  pub status : IdempotencyStatus
  pub result : Option IdempotencyResultReference
  pub expires_at : DateTime

pub record AcquiredIdempotencyRecord : Type 0 where
  pub stored : StoredIdempotencyRecord
  pub inserted : Bool

pub record IdempotencyReservation : Type 0 where
  pub record_id : Uuid
  pub request_fingerprint : List ℕ
  pub replay : Option IdempotencyResultReference

pub record PreparedIdempotencyRequest : Type 0 where
  pub key_hash : List ℕ
  pub request_fingerprint : List ℕ
  pub canonical_method : List ℕ
  pub canonical_route : List ℕ
