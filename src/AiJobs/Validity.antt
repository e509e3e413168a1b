-- ===== src/AiJobs/Validity.antt =====
-- The checks of the job's constructor accept exactly the well-formed jobs.
use lawyer_agent.Prelude.{
  ◌≤◌, ◌≡◌, refl, ◌↔◌, true, Bool, Option, none, some, List, [], ◌∷◌, String, All, arith, length,
  ok, err, check_optional, ◌>>◌,
}
use lawyer_agent.Common.{Uuid, is_uuid7, is_utc, require_all_uuid7, require_uuid7}
use lawyer_agent.AiJobs.Records.{
  AiJob, Check, check_job, check_job_identifiers, check_job_numbers, check_job_times, check_uuid7,
  job_identifiers,
}

-- An optional value that has the property if it is there.
abbrev pub IfSet : {A : Type 0} → (A → Bool) → Option A → Type 0
IfSet test none = Unit
IfSet test (some a) = test a ≡ true

abbrev pub AllUuid7 : List (Uuid × String) → Type 0
AllUuid7 = All (λ e. is_uuid7 e.0 ≡ true)

pub record IsValidJob (j : AiJob) : Type 0 where
  pub identifiers : AllUuid7 (job_identifiers j)
  pub token : IfSet is_uuid7 j.lease_token
  pub canceller : IfSet is_uuid7 j.cancel_requested_by_user_id
  pub fingerprint : length j.input_fingerprint ≡ 32
  pub versioned : 1 ≤ j.version
  pub some_attempt : 1 ≤ j.max_attempts
  pub few_attempts : j.max_attempts ≤ 10
  pub attempts : j.current_attempt_no ≤ j.max_attempts
  pub submitted : is_utc j.submitted_at ≡ true
  pub expires : is_utc j.expires_at ≡ true
  pub next_attempt : IfSet is_utc j.next_attempt_at
  pub lease : IfSet is_utc j.lease_expires_at
  pub cancel : IfSet is_utc j.cancel_requested_at
  pub started : IfSet is_utc j.started_at
  pub completed : IfSet is_utc j.completed_at

-- A sequence of checks passes exactly when both parts do.
passes_both :
    {A B : Type 0} (m k : Check)
    → ((m ≡ ok tt) ↔ A)
    → ((k ≡ ok tt) ↔ B)
    → ((m >> k) ≡ ok tt) ↔ (A × B)
passes_both (ok u) k a b = (λ h. (a.0 refl, b.0 h), λ h. b.1 h.1)
passes_both (err e) k a b = (λ h. cc, λ h. cc (a.1 h.0))

require_all_uuid7-ok : (l : List (Uuid × String)) → (require_all_uuid7 l ≡ ok tt) ↔ AllUuid7 l
unfolding require_all_uuid7 require_uuid7
require_all_uuid7-ok [] = (λ _. tt, λ _. refl)
require_all_uuid7-ok ((n, f) ∷ l) =
    ground (arith, (require_all_uuid7-ok l).0, (require_all_uuid7-ok l).1)

check_uuid7-ok :
    (f : String) (o : Option Uuid) → (check_optional (check_uuid7 f) o ≡ ok tt) ↔ IfSet is_uuid7 o
unfolding check_uuid7 require_uuid7
check_uuid7-ok f none = (λ _. tt, λ _. refl)
check_uuid7-ok f (some n) = ground arith

abbrev Identified : AiJob → Type 0
Identified j =
    AllUuid7 (job_identifiers j)
    × (IfSet is_uuid7 j.lease_token × IfSet is_uuid7 j.cancel_requested_by_user_id)

abbrev Counted : AiJob → Type 0
Counted j =
    (length j.input_fingerprint ≡ 32)
    × (1 ≤ j.version)
    × (1 ≤ j.max_attempts)
    × (j.max_attempts ≤ 10)
    × (j.current_attempt_no ≤ j.max_attempts)

abbrev Timed : AiJob → Type 0
Timed j =
    (is_utc j.submitted_at ≡ true)
    × (is_utc j.expires_at ≡ true)
    × IfSet is_utc j.next_attempt_at
    × IfSet is_utc j.lease_expires_at
    × IfSet is_utc j.cancel_requested_at
    × IfSet is_utc j.started_at
    × IfSet is_utc j.completed_at

check_job_numbers-ok : (j : AiJob) → (check_job_numbers j ≡ ok tt) ↔ Counted j
unfolding check_job_numbers
check_job_numbers-ok j = ground arith

check_job_times-ok : (j : AiJob) → (check_job_times j ≡ ok tt) ↔ Timed j
unfolding check_job_times
check_job_times-ok j = ground arith

check_job_identifiers-ok : (j : AiJob) → (check_job_identifiers j ≡ ok tt) ↔ Identified j
unfolding check_job_identifiers
check_job_identifiers-ok j =
    passes_both (require_all_uuid7 (job_identifiers j)) (token >> canceller)
      (require_all_uuid7-ok (job_identifiers j))
      (passes_both token canceller (check_uuid7-ok "job lease_token" j.lease_token)
        (check_uuid7-ok "job cancel_requested_by_user_id" j.cancel_requested_by_user_id))
  where
    token : Check
    token = check_optional (check_uuid7 "job lease_token") j.lease_token

    canceller : Check
    canceller =
        check_optional (check_uuid7 "job cancel_requested_by_user_id") j.cancel_requested_by_user_id

pub check_job-ok : (j : AiJob) → (check_job j ≡ ok tt) ↔ IsValidJob j
unfolding check_job
check_job-ok j = (λ e. gather (parts.0 e), λ v. parts.1 (spread v))
  where
    parts :
        ((check_job_identifiers j >> (check_job_numbers j >> check_job_times j)) ≡ ok tt)
        ↔ (Identified j × (Counted j × Timed j))
    parts =
        passes_both (check_job_identifiers j) (check_job_numbers j >> check_job_times j)
          (check_job_identifiers-ok j)
          (passes_both (check_job_numbers j) (check_job_times j) (check_job_numbers-ok j)
            (check_job_times-ok j))

    gather : Identified j × (Counted j × Timed j) → IsValidJob j
    gather ((a, (b, c)), ((f, v, m, x, n), (s, e, na, l, cr, st, co))) = record {
      identifiers = a;
      token = b;
      canceller = c;
      fingerprint = f;
      versioned = v;
      some_attempt = m;
      few_attempts = x;
      attempts = n;
      submitted = s;
      expires = e;
      next_attempt = na;
      lease = l;
      cancel = cr;
      started = st;
      completed = co;
    }

    spread : IsValidJob j → Identified j × (Counted j × Timed j)
    spread v = (
      (v.identifiers, (v.token, v.canceller)),
      (
        (v.fingerprint, v.versioned, v.some_attempt, v.few_attempts, v.attempts),
        (v.submitted, v.expires, v.next_attempt, v.lease, v.cancel, v.started, v.completed),
      ),
    )
