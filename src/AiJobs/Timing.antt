-- ===== src/AiJobs/Timing.antt =====
-- Retry delays and time windows of a job (domain/ai_jobs.py). A `timedelta` is a number of
-- microseconds.
use lawyer_agent.Prelude.{
  ℕ, zero, suc, ◌+◌, ◌-◌, ◌*◌, ◌/◌, ◌%◌, ◌≤◌, ◌<◌, min, ◌≡◌, ◌↔◌, true, ◌&&◌, List, [], ◌∷◌, arith,
  ltb, leb, ◌==◌, if◌then◌else◌, Result, ok, guard, ◌>>◌, length, String,
}
use lawyer_agent.Common.{DateTime, is_utc, require_utc}

abbrev pub max_attempts_limit : ℕ
max_attempts_limit = 10

abbrev pub retry_bucket_seconds : List ℕ
retry_bucket_seconds = 5 ∷ 30 ∷ 120 ∷ []

abbrev pub seconds : ℕ → ℕ
seconds n = n * 1000000

abbrev pub max_job_lifetime : ℕ
max_job_lifetime = seconds (24 * 3600)

abbrev pub default_lease_seconds : ℕ
default_lease_seconds = 60

-- `values[index]`, with the index in range.
abbrev pub get_or : List ℕ → ℕ → ℕ → ℕ
get_or [] i d = d
get_or (x ∷ xs) zero d = x
get_or (x ∷ xs) (suc i) d = get_or xs i d

unfoldable pub retry_delay_seconds : ℕ → Result String ℕ
retry_delay_seconds attempt_no = do
  guard (leb 1 attempt_no) "attempt number must be a positive integer"
  ok (get_or retry_bucket_seconds (min (attempt_no - 1) (length retry_bucket_seconds - 1)) 0)

-- `delta / 2` of a `timedelta`: the microseconds are rounded half to even.
unfoldable pub half_timedelta : ℕ → ℕ
half_timedelta n = if n % 2 == 1 && n / 2 % 2 == 1 then n / 2 + 1 else n / 2

unfoldable pub validate_runtime_timing : ℕ → ℕ → Result String (Unit {0})
unfolding half_timedelta
validate_runtime_timing lease heartbeat = do
  guard (ltb 0 lease) "lease must be a positive duration"
  guard (ltb 0 heartbeat) "heartbeat must be a positive duration"
  guard (ltb heartbeat (half_timedelta lease)) "heartbeat must be less than half the lease"

unfoldable pub validate_job_lifetime : DateTime → DateTime → Result String (Unit {0})
unfolding require_utc
validate_job_lifetime submitted_at expires_at = do
  require_utc submitted_at "submitted_at"
  require_utc expires_at "expires_at"
  guard (ltb submitted_at.instant expires_at.instant) "job expires_at must be after submitted_at"
  guard (leb (expires_at.instant - submitted_at.instant) max_job_lifetime)
      "job lifetime must not exceed 24 hours"

-- A lease and a heartbeat are accepted only if two heartbeats fit within the lease, and all such
-- pairs are accepted but those of a lease of 4k+1 microseconds whose heartbeat takes 2k.
pub validate_runtime_timing-ok :
    (lease heartbeat : ℕ)
    → (validate_runtime_timing lease heartbeat ≡ ok tt)
      ↔ ((0 < heartbeat) × (2 * heartbeat < lease) × ((lease % 4 ≡ 1) → 2 * heartbeat + 1 < lease))
unfolding validate_runtime_timing
validate_runtime_timing-ok lease heartbeat = ground arith

-- A lifetime is accepted exactly when both ends are at UTC, the end is later, and they are at most
-- 24 hours apart.
pub validate_job_lifetime-ok :
    (s e : DateTime)
    → (validate_job_lifetime s e ≡ ok tt) ↔ (
        (is_utc s ≡ true)
        × (is_utc e ≡ true)
        × (s.instant < e.instant)
        × (e.instant ≤ s.instant + 24 * 3600 * 1000000))
unfolding validate_job_lifetime
validate_job_lifetime-ok s e = ground arith
