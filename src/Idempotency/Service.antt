-- ===== src/Idempotency/Service.antt =====
-- `IdempotencyService` of application/idempotency.py: `prepare`, `reserve`, `complete` and `fail`.
use lawyer_agent.Prelude.{
  ℕ, ◌+◌, ◌*◌, Bool, not, ◌&&◌, ◌||◌, Option, none, some, String, List, [], ◌∷◌, ◌++◌, codes, any,
  all, length, is_none, leb, ◌==◌, if◌then◌else◌, Result, ok, err, guard, ◌>>=◌, ◌>>◌,
}
use lawyer_agent.Common.{Uuid, DateTime, is_utc, at_utc}
use lawyer_agent.AiJobs.Timing.{seconds}
use lawyer_agent.JobStore.Inbox.{same_bytes}
use lawyer_agent.Idempotency.Types.{
  IdempotencyError, IdempotencyStatus, reserved, completed, failed, IdempotencyScope,
  IdempotencyResultReference, NewIdempotencyRecord, StoredIdempotencyRecord, IdempotencyReservation,
  PreparedIdempotencyRequest, is_lower, is_upper, is_digit, is_code,
}
use lawyer_agent.Idempotency.Table.{IdempotencyRow, acquire}
use lawyer_agent.Idempotency.Repository.{restart, complete_record, fail_record}
use lawyer_agent.Idempotency.Payload.{
  IdempotencyFingerprintPayload, canonical_business_values, object,
}
use lawyer_agent.Idempotency.Canonical.{canonical_json}
use lawyer_agent.Idempotency.Routes.{canonical_method, canonical_route}

pub record IdempotencyRequest : Type 0 where
  pub key : String
  pub method : String
  pub canonical_route : String
  pub body : IdempotencyFingerprintPayload

pub record IdempotencyService : Type 0 where
  pub key_hash_secret : List ℕ
  pub ttl : ℕ

-- `IdempotencyService.__init__`
unfoldable pub check_service : IdempotencyService → Result IdempotencyError (Unit {0})
check_service s = do
  guard (leb 32 (length s.key_hash_secret))
      (IdempotencyError.invalid_value "idempotency key hash secret must contain at least 32 bytes")
  guard (leb (seconds 60) s.ttl && leb s.ttl (seconds (7 * 86400)))
      (IdempotencyError.invalid_value "idempotency TTL must be between one minute and seven days")

-- `[A-Za-z0-9._~:-]{16,128}`
unfoldable pub is_key : List ℕ → Bool
is_key cs =
    leb 16 (length cs)
    && leb (length cs) 128
    && all (λ c. is_lower c || is_upper c || is_digit c || any (λ d. d == c) (codes "._~:-")) cs

-- The two digests of the standard library.
module _ (hmac_sha256 : List ℕ → List ℕ → List ℕ) (sha256 : List ℕ → List ℕ) where
  unfoldable pub prepare :
      IdempotencyService → IdempotencyRequest → Result IdempotencyError PreparedIdempotencyRequest
  unfolding is_key canonical_method canonical_route canonical_business_values canonical_json
  prepare self request = do
    guard (is_key (codes request.key))
        (IdempotencyError.invalid_key "idempotency key must be 16-128 safe ASCII characters")
    method ← canonical_method request.method
    route ← canonical_route request.canonical_route
    values ← canonical_business_values request.body
    body ← canonical_json (object values)
    ok (record {
      key_hash =
          hmac_sha256 self.key_hash_secret (codes "idempotency-key:v1:" ++ codes request.key);
      request_fingerprint =
          sha256 (codes "idempotency-request:v1:" ++ method ++ 10 ∷ route ++ 10 ∷ body);
      canonical_method = method;
      canonical_route = route;
    })

-- `_require_utc` of application/idempotency.py.
unfoldable pub require_utc_now : DateTime → Result IdempotencyError DateTime
require_utc_now t = do
  guard (is_utc t) (IdempotencyError.invalid_value "idempotency time must be UTC-aware")
  ok t

-- `_require_operation`
unfoldable pub require_operation : String → Result IdempotencyError (Unit {0})
require_operation operation =
    guard (is_code 127 (codes operation))
      (IdempotencyError.invalid_value "idempotency operation is invalid")

abbrev pub reservation : Uuid → List ℕ → Option IdempotencyResultReference → IdempotencyReservation
reservation record_id fingerprint replay = record {
  record_id = record_id;
  request_fingerprint = fingerprint;
  replay = replay;
}

-- A row that is taken over after a failure or an expiry.
abbrev pub recover :
    String
    → List IdempotencyStatus
    → Option DateTime
    → DateTime
    → StoredIdempotencyRecord
    → List ℕ
    → List IdempotencyRow
    → Result IdempotencyError (IdempotencyReservation × List IdempotencyRow)
recover message allowed expired_before expires_at stored fingerprint rows = do
  (restarted, rows') ←
      restart stored.id stored.request_fingerprint fingerprint allowed expired_before expires_at
        rows
  guard restarted (IdempotencyError.state message)
  ok (reservation stored.id fingerprint none, rows')

-- What `reserve` does with a row that it did not insert and whose fingerprint is the request's.
abbrev pub resume :
    ℕ
    → DateTime
    → StoredIdempotencyRecord
    → List ℕ
    → IdempotencyStatus
    → Option IdempotencyResultReference
    → List IdempotencyRow
    → Result IdempotencyError (IdempotencyReservation × List IdempotencyRow)
resume ttl now stored fingerprint completed none rows =
    err (IdempotencyError.state "completed idempotency record has no result")
resume ttl now stored fingerprint completed (some result) rows =
    ok (reservation stored.id fingerprint (some result), rows)
resume ttl now stored fingerprint failed result rows =
    recover "failed idempotency record could not be recovered" (failed ∷ []) none
      (at_utc (now.instant + ttl)) stored fingerprint rows
resume ttl now stored fingerprint reserved result rows =
    if leb stored.expires_at.instant now.instant
    then recover "expired idempotency record could not be recovered" (reserved ∷ []) (some now)
        (at_utc (now.instant + ttl)) stored fingerprint rows
    else err IdempotencyError.in_progress

abbrev pub candidate :
    ℕ
    → Uuid
    → IdempotencyScope
    → String
    → PreparedIdempotencyRequest
    → DateTime
    → NewIdempotencyRecord
candidate ttl new_id scope operation prepared now = record {
  id = new_id;
  scope = scope;
  operation = operation;
  key_hash = prepared.key_hash;
  request_fingerprint = prepared.request_fingerprint;
  expires_at = at_utc (now.instant + ttl);
}

-- The part of `reserve` after `prepare`, with the candidate's fresh id and the database's clock.
unfoldable pub reserve_prepared :
    ℕ
    → Uuid
    → ℕ
    → IdempotencyScope
    → String
    → PreparedIdempotencyRequest
    → DateTime
    → List IdempotencyRow
    → Result IdempotencyError (IdempotencyReservation × List IdempotencyRow)
unfolding require_utc_now require_operation acquire restart
reserve_prepared ttl new_id clock scope operation prepared now rows = do
  effective_now ← require_utc_now now
  require_operation operation
  (acquired, rows') ←
      acquire clock (candidate ttl new_id scope operation prepared effective_now) rows
  let stored = acquired.stored
  (if acquired.inserted
      then ok (reservation stored.id prepared.request_fingerprint none, rows')
      else if not (same_bytes stored.request_fingerprint prepared.request_fingerprint)
      then err IdempotencyError.conflict
      else resume ttl effective_now stored prepared.request_fingerprint stored.status stored.result
          rows')

module _ (hmac_sha256 : List ℕ → List ℕ → List ℕ) (sha256 : List ℕ → List ℕ) where
  unfoldable pub reserve :
      IdempotencyService
      → Uuid
      → ℕ
      → IdempotencyScope
      → String
      → IdempotencyRequest
      → DateTime
      → List IdempotencyRow
      → Result IdempotencyError (IdempotencyReservation × List IdempotencyRow)
  unfolding prepare reserve_prepared
  reserve self new_id clock scope operation request now rows = do
    prepared ← prepare hmac_sha256 sha256 self request
    reserve_prepared self.ttl new_id clock scope operation prepared now rows

-- `is_replay`
abbrev pub is_replay : IdempotencyReservation → Bool
is_replay r = not (is_none r.replay)

unfoldable pub complete :
    IdempotencyReservation
    → IdempotencyResultReference
    → DateTime
    → List IdempotencyRow
    → Result IdempotencyError (List IdempotencyRow)
unfolding require_utc_now complete_record
complete r result now rows = do
  guard (not (is_replay r))
      (IdempotencyError.state "a replay reservation cannot be completed again")
  at ← require_utc_now now
  (changed, rows') ← complete_record r.record_id r.request_fingerprint result at rows
  guard changed (IdempotencyError.state "idempotency reservation is no longer completable")
  ok rows'

unfoldable pub fail :
    IdempotencyReservation
    → DateTime
    → List IdempotencyRow
    → Result IdempotencyError (List IdempotencyRow)
unfolding require_utc_now fail_record
fail r now rows = do
  guard (not (is_replay r)) (IdempotencyError.state "a replay reservation cannot fail")
  at ← require_utc_now now
  (changed, rows') ← fail_record r.record_id r.request_fingerprint at rows
  guard changed (IdempotencyError.state "idempotency reservation is no longer fail-able")
  ok rows'
