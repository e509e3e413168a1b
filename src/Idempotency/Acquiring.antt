-- ===== src/Idempotency/Acquiring.antt =====
-- What `acquire` gives on a table of sound rows
-- (infrastructure/persistence/repositories/idempotency.py).
use lawyer_agent.Prelude.{
  ℕ, ◌≡◌, refl, true, false, Option, none, some, List, [], ◌∷◌, ◌++◌, length, arith, Bool-cases,
  inl, inr, Result, ok, err, ◌==◌, same_option, if◌then◌else◌,
}
use lawyer_agent.Common.{Uuid, at_utc}
use lawyer_agent.JobStore.Tables.{find}
use lawyer_agent.JobStore.Lookup.{
  first-holds, first-All, first-append-none, any-clash, any-taken, find-first,
}
use lawyer_agent.JobStore.Rows.{naive}
use lawyer_agent.Idempotency.Types.{
  IdempotencyError, IdempotencyStatus, reserved, completed, failed, IdempotencyResultReference,
  StoredIdempotencyRecord, AcquiredIdempotencyRecord, NewIdempotencyRecord, check_scope,
  IdempotencyScope,
}
use lawyer_agent.Idempotency.Slots.{same_slot, ==_refl, same_slot_refl, same_scope_type_refl}
use lawyer_agent.Idempotency.Table.{
  StoredResultType, IdempotencyRow, row_key, slot_of, slot_of_new, row_scope, stored_result,
  stored_record, find_slot, new_row, acquired_from, acquire, is_same_scope,
}
use lawyer_agent.Idempotency.Sound.{decoded, HasResult, IsSound, IsTable}
use lawyer_agent.Idempotency.Decoding.{decoded-serialize, deserialize-serialize}

-- The record that a sound row holds.
abbrev pub result_of :
    IdempotencyStatus → Option StoredResultType → Option Uuid → Option IdempotencyResultReference
result_of completed (some type_) (some result_id) = some (decoded type_ result_id)
result_of _ _ _ = none

abbrev pub stored_of : IdempotencyRow → StoredIdempotencyRecord
stored_of m = record {
  id = m.id;
  scope = row_scope m;
  operation = m.operation;
  key_hash = m.key_hash;
  request_fingerprint = m.request_fingerprint;
  status = m.status;
  result = result_of m.status m.result_type m.result_id;
  expires_at = at_utc m.expires_at;
}

stored_result-HasResult :
    (status : IdempotencyStatus) (type_ : Option StoredResultType) (result_id : Option Uuid)
    → HasResult status type_ result_id
    → stored_result type_ result_id ≡ ok (result_of status type_ result_id)
stored_result-HasResult reserved type_ result_id (t, i) = rw (t, i) refl
stored_result-HasResult failed type_ result_id (t, i) = rw (t, i) refl
stored_result-HasResult completed type_ result_id (r, c, w, s, t, i) =
    rw (t, i, deserialize-serialize r w c s, decoded-serialize r w s) refl

pub stored_record_sound : (m : IdempotencyRow) → IsSound m → stored_record m ≡ ok (stored_of m)
unfolding stored_record
stored_record_sound m s =
    rw
      (
        stored_result-HasResult m.status m.result_type m.result_id s.result_matches,
        s.key_length,
        s.fingerprint_length,
        s.scope_checked,
      )
      refl

pub same_option_refl : (o : Option ℕ) → same_option o o ≡ true
same_option_refl none = refl
same_option_refl (some n) = ground arith

is_same_scope_refl : (s : IdempotencyScope) → is_same_scope s s ≡ true
is_same_scope_refl s =
    ground (arith, same_scope_type_refl s.scope_type, same_option_refl s.tenant_id)

-- A row in the slot of a candidate has its scope, but for the tenant.
is_same_scope-slot :
    (r : IdempotencyRow) (c : NewIdempotencyRecord)
    → same_slot (slot_of r) (slot_of_new c) ≡ true
    → is_same_scope (row_scope r) c.scope ≡ same_option r.tenant_id c.scope.tenant_id
unfolding same_slot
is_same_scope-slot r c e = ground arith

module _ (clock at : ℕ) (c : NewIdempotencyRecord) (rows : List IdempotencyRow) where
  abbrev pub new_acquired : AcquiredIdempotencyRecord
  new_acquired = record { stored = stored_of (new_row c at clock); inserted = true }

  found-new :
      find_slot (slot_of_new c) rows ≡ none
      → find_slot (slot_of_new c) (rows ++ new_row c at clock ∷ []) ≡ some (new_row c at clock)
  found-new vacant =
      rw
        (
          first-append-none (λ r. same_slot (slot_of r) (slot_of_new c)) rows (new_row c at clock)
              vacant,
          same_slot_refl (slot_of_new c),
        )
        refl

  pub new_row-IsSound :
      check_scope c.scope ≡ ok tt
      → length c.key_hash ≡ 32
      → length c.request_fingerprint ≡ 32
      → IsSound (new_row c at clock)
  new_row-IsSound scope key fingerprint = record {
    key_length = key;
    fingerprint_length = fingerprint;
    scope_checked = scope;
    result_matches = (refl, refl);
  }

  new_row-acquired :
      check_scope c.scope ≡ ok tt
      → length c.key_hash ≡ 32
      → length c.request_fingerprint ≡ 32
      → acquired_from c (some (new_row c at clock)) ≡ ok new_acquired
  new_row-acquired scope key fingerprint =
      rw
        (
          stored_record_sound (new_row c at clock) (new_row-IsSound scope key fingerprint),
          is_same_scope_refl c.scope,
          ==_refl c.id,
        )
        refl

  -- A vacant slot is taken by the candidate.
  pub acquire-vacant :
      c.expires_at ≡ at_utc at
      → find row_key c.id rows ≡ none
      → find_slot (slot_of_new c) rows ≡ none
      → check_scope c.scope ≡ ok tt
      → length c.key_hash ≡ 32
      → length c.request_fingerprint ≡ 32
      → acquire clock c rows ≡ ok (new_acquired, rows ++ new_row c at clock ∷ [])
  unfolding acquire naive
  acquire-vacant t fresh vacant scope key fingerprint =
      rw
        (
          t,
          any-clash row_key c.id (λ r. same_slot (slot_of r) (slot_of_new c)) rows fresh vacant,
          found-new vacant,
          new_row-acquired scope key fingerprint,
        )
        refl

module _ (clock at : ℕ) (c : NewIdempotencyRecord) (rows : List IdempotencyRow) (r : IdempotencyRow)
    (table : IsTable rows) (fresh : find row_key c.id rows ≡ none)
    (found : find_slot (slot_of_new c) rows ≡ some r) where
  abbrev pub old_acquired : AcquiredIdempotencyRecord
  old_acquired = record { stored = stored_of r; inserted = false }

  -- The candidate's fresh id is not the row's.
  fresh-other : (r.id == c.id) ≡ false
  fresh-other = ground (
    arith,
    find-first row_key (λ x. same_slot (slot_of x) (slot_of_new c)) rows r table.unique found,
    fresh,
  )

  abbrev pub found_acquired :
      Result IdempotencyError (AcquiredIdempotencyRecord × List IdempotencyRow)
  found_acquired =
      if same_option r.tenant_id c.scope.tenant_id
      then ok (old_acquired, rows)
      else err (IdempotencyError.state "idempotency scope collision")

  -- A slot that is taken keeps its row, which another tenant does not get.
  pub acquire-taken : c.expires_at ≡ at_utc at → acquire clock c rows ≡ found_acquired
  unfolding acquire naive
  acquire-taken t =
      rw
        (
          t,
          any-taken row_key c.id (λ x. same_slot (slot_of x) (slot_of_new c)) rows r found,
          found,
          stored_record_sound r (
              first-All (λ x. same_slot (slot_of x) (slot_of_new c)) IsSound rows r table.sound
                found),
          is_same_scope-slot r c
              (first-holds (λ x. same_slot (slot_of x) (slot_of_new c)) rows r found),
          fresh-other,
        )
        (elim (Bool-cases (same_option r.tenant_id c.scope.tenant_id)) [
          | inl e ↦ rw e refl
          | inr e ↦ rw e refl
        ])
