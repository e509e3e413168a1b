-- ===== src/Idempotency/Reserving.antt =====
-- What `reserve` does to a table of sound rows (application/idempotency.py).
use lawyer_agent.Prelude.{
  ℕ, ◌+◌, ◌≡◌, refl, Bool, true, false, ◌&&◌, Option, none, some, List, [], ◌∷◌, ◌++◌, codes, arith,
  Bool-cases, inl, inr, ok, leb, same_option, if◌then◌else◌,
}
use lawyer_agent.Common.{is_utc}
use lawyer_agent.JobStore.Inbox.{same_bytes}
use lawyer_agent.JobStore.Rows.{naive}
use lawyer_agent.JobStore.Tables.{find, update_where, count-update_where}
use lawyer_agent.JobStore.Lookup.{find-first}
use lawyer_agent.Idempotency.Types.{
  IdempotencyStatus, reserved, completed, failed, is_code, IdempotencyResultReference,
}
use lawyer_agent.Idempotency.Slots.{same_slot, same_bytes_refl}
use lawyer_agent.Idempotency.Table.{IdempotencyRow, row_key, slot_of, find_slot}
use lawyer_agent.Idempotency.Repository.{restart, may_restart, restarted_row, is_same_status}
use lawyer_agent.Idempotency.Service.{
  resume, reservation, reserve_prepared, require_utc_now, require_operation,
}
use lawyer_agent.Idempotency.Keys.{Reserve, reserve_call, call_slot, repeats}
use lawyer_agent.Idempotency.Sound.{IsTable, IsCall, holder_of, step, kept_pair}
use lawyer_agent.Idempotency.Acquiring.{stored_of, result_of}
use lawyer_agent.Idempotency.Outcomes.{claiming_row, reserve-vacant, reserve-taken}

-- Whether a request may take over a row: never a completed one, a failed one always, a reserved one
-- after its expiry.
abbrev pub may_take : Reserve → IdempotencyRow → IdempotencyStatus → Bool
may_take c r completed = false
may_take c r failed = true
may_take c r reserved = leb r.expires_at c.now.instant

abbrev expiry_bound : Reserve → IdempotencyStatus → Option ℕ
expiry_bound c reserved = some c.now.instant
expiry_bound c _ = none

-- The guard and the change of the UPDATE that takes a row over.
abbrev pub take_test : Reserve → IdempotencyRow → IdempotencyRow → Bool
take_test c r = may_restart r.id r.request_fingerprint (r.status ∷ []) (expiry_bound c r.status)

abbrev pub take_change : Reserve → IdempotencyRow → IdempotencyRow
take_change c = restarted_row c.prepared.request_fingerprint (c.now.instant + c.ttl)

abbrev pub taken_over : Reserve → IdempotencyRow → List IdempotencyRow → List IdempotencyRow
taken_over c r rows = (update_where (take_test c r) (take_change c) rows).0

is_same_status_refl : (s : IdempotencyStatus) → is_same_status s s ≡ true
is_same_status_refl reserved = refl
is_same_status_refl completed = refl
is_same_status_refl failed = refl

pub take_test_self :
    (c : Reserve) (r : IdempotencyRow) → may_take c r r.status ≡ true → take_test c r r ≡ true
unfolding may_restart
take_test_self c r may =
    ground (arith, is_same_status_refl r.status, same_bytes_refl r.request_fingerprint)

pub take_test-id : (c : Reserve) (r x : IdempotencyRow) → take_test c r x ≡ true → x.id ≡ r.id
unfolding may_restart
take_test-id c r x e = ground arith

-- The row count of the UPDATE that takes a row over.
taken_over-count :
    (c : Reserve) (rows : List IdempotencyRow) (r : IdempotencyRow)
    → IsTable rows
    → find_slot (call_slot c) rows ≡ some r
    → may_take c r r.status ≡ true
    → (update_where (take_test c r) (take_change c) rows).1 ≡ 1
taken_over-count c rows r table found may =
    rw
      (
        count-update_where row_key (take_test c r) (take_change c) r.id rows (take_test-id c r)
            table.unique,
        find-first row_key (λ x. same_slot (slot_of x) (call_slot c)) rows r table.unique found,
        take_test_self c r may,
      )
      refl

resume-status :
    (c : Reserve) (rows : List IdempotencyRow) (r : IdempotencyRow) (s : IdempotencyStatus)
    (result : Option IdempotencyResultReference)
    → is_utc c.now ≡ true
    → may_take c r s ≡ true
    → (update_where
        (may_restart r.id r.request_fingerprint (s ∷ []) (expiry_bound c s))
        (take_change c)
        rows).1
      ≡ 1
    → resume c.ttl c.now (stored_of r) c.prepared.request_fingerprint s result rows
      ≡ ok (
        reservation r.id c.prepared.request_fingerprint none,
        (update_where
            (may_restart r.id r.request_fingerprint (s ∷ []) (expiry_bound c s))
            (take_change c)
            rows).0,
      )
unfolding restart naive
resume-status c rows r completed result utc may count = cc
resume-status c rows r failed result utc may count = rw count refl
resume-status c rows r reserved result utc may count = rw (may, utc, count) refl

-- A row that may be taken over is.
pub resume-take :
    (c : Reserve) (rows : List IdempotencyRow) (r : IdempotencyRow)
    → is_utc c.now ≡ true
    → IsTable rows
    → find_slot (call_slot c) rows ≡ some r
    → may_take c r r.status ≡ true
    → resume c.ttl c.now
        (stored_of r)
        c.prepared.request_fingerprint
        r.status
        (result_of r.status r.result_type r.result_id)
        rows
      ≡ ok (reservation r.id c.prepared.request_fingerprint none, taken_over c r rows)
resume-take c rows r utc table found may =
    resume-status c rows r r.status (result_of r.status r.result_type r.result_id) utc may
      (taken_over-count c rows r table found may)

resume-kept :
    (c : Reserve) (rows : List IdempotencyRow) (r : IdempotencyRow) (s : IdempotencyStatus)
    (result : Option IdempotencyResultReference)
    → may_take c r s ≡ false
    → kept_pair rows (resume c.ttl c.now (stored_of r) c.prepared.request_fingerprint s result rows)
      ≡ rows
resume-kept c rows r completed none may = refl
resume-kept c rows r completed (some result) may = refl
resume-kept c rows r failed result may = cc
resume-kept c rows r reserved result may = rw may refl

module _ (c : Reserve) (rows : List IdempotencyRow) (utc : is_utc c.now ≡ true)
    (operation : is_code 127 (codes c.operation) ≡ true) (call : IsCall (reserve_call c))
    (fresh : find row_key c.new_id rows ≡ none) (table : IsTable rows) where
  pub step-vacant :
      find_slot (call_slot c) rows ≡ none → step (reserve_call c) rows ≡ rows ++ claiming_row c ∷ []
  unfolding step
  step-vacant vacant = rw (reserve-vacant c rows utc operation call fresh vacant) refl

  -- A slot that is taken changes hands only to a request that repeats the holder's.
  pub step-taken :
      (r : IdempotencyRow)
      → find_slot (call_slot c) rows ≡ some r
      → step (reserve_call c) rows
        ≡ (if repeats c (holder_of r) && may_take c r r.status then taken_over c r rows else rows)
  unfolding step
  step-taken r found =
      rw (reserve-taken c rows utc operation call fresh r table found)
        (elim (Bool-cases (same_option r.tenant_id c.scope.tenant_id)) [
          | inr e ↦ rw e refl
          | inl e ↦
              elim (Bool-cases (same_bytes r.request_fingerprint c.prepared.request_fingerprint)) [
                | inr f ↦ rw (e, f) refl
                | inl f ↦ elim (Bool-cases (may_take c r r.status)) [
                  | inl g ↦ rw (e, f, g, resume-take c rows r utc table found g) refl
                  | inr g ↦
                      rw
                        (
                          e,
                          f,
                          g,
                          resume-kept c rows r r.status
                              (result_of r.status r.result_type r.result_id) g,
                        )
                        refl
                ]
              ]
        ])

-- A time that is not UTC and an operation that is no code are refused.
pub step-refused :
    (c : Reserve) (rows : List IdempotencyRow)
    → (is_utc c.now && is_code 127 (codes c.operation)) ≡ false
    → step (reserve_call c) rows ≡ rows
unfolding step reserve_prepared require_utc_now require_operation
step-refused c rows e = elim (Bool-cases (is_utc c.now)) [
  | inr f ↦ rw f refl
  | inl f ↦ elim (Bool-cases (is_code 127 (codes c.operation))) [
    | inl g ↦ absurd (ground arith)
    | inr g ↦ rw (f, g) refl
  ]
]
