-- ===== src/Idempotency/Claimed.antt =====
-- `reserve` on its table follows the life of each key (application/idempotency.py).
use lawyer_agent.Prelude.{
  ◌≡◌, refl, sym, inl, inr, Bool, true, false, ◌&&◌, none, some, List, arith, Bool-cases,
  Option-cases, if◌then◌else◌, codes,
}
use lawyer_agent.Common.{is_utc}
use lawyer_agent.JobStore.Tables.{find}
use lawyer_agent.JobStore.Lookup.{first-All}
use lawyer_agent.Idempotency.Types.{IdempotencyStatus, reserved, completed, failed, is_code}
use lawyer_agent.Idempotency.Slots.{Slot, same_slot, same_slot→eq, same_slot_refl}
use lawyer_agent.Idempotency.Table.{IdempotencyRow, row_key, slot_of, find_slot}
use lawyer_agent.Idempotency.Keys.{
  KeyState, Reserve, reserve_call, call_slot, claim, repeats, advance,
}
use lawyer_agent.Idempotency.Sound.{
  HasResult, IsSound, IsTable, holder_of, view, view_status, step, IsCall,
}
use lawyer_agent.Idempotency.Reserving.{may_take, step-vacant, step-taken, step-refused}
use lawyer_agent.Idempotency.Views.{view-claimed, view-taken_over}

pub and-left : (a b : Bool) → (a && b) ≡ true → a ≡ true
and-left a b e = ground arith

pub and-right : (a b : Bool) → (a && b) ≡ true → b ≡ true
and-right a b e = ground arith

pub after-true : {a b : Bool} → a ≡ true → (a && b) ≡ false → b ≡ false
after-true {a} {b} e f = ground arith

-- A call that takes nothing over leaves the key as it is.
pub claim-kept :
    (c : Reserve) (r : IdempotencyRow) (s : IdempotencyStatus)
    → HasResult s r.result_type r.result_id
    → (repeats c (holder_of r) && may_take c r s) ≡ false
    → claim c (view_status s r) ≡ view_status s r
unfolding claim
claim-kept c r completed (result, checked, w, written, t, i) e = rw (t, i) refl
claim-kept c r failed h e = ground arith
claim-kept c r reserved h e = ground arith

pub kept-slot :
    (s : Slot) (c : Reserve) (rows : List IdempotencyRow) (r : IdempotencyRow)
    → IsTable rows
    → find_slot (call_slot c) rows ≡ some r
    → (repeats c (holder_of r) && may_take c r r.status) ≡ false
    → view s rows ≡ (if same_slot (call_slot c) s then claim c (view s rows) else view s rows)
unfolding view
kept-slot s c rows r table found kept = elim (Bool-cases (same_slot (call_slot c) s)) [
  | inr e ↦ rw e refl
  | inl e ↦ rw (sym (same_slot→eq (call_slot c) s e)) (
      rw (found, same_slot_refl (call_slot c))
        (sym (
          claim-kept c r r.status
            (first-All (λ x. same_slot (slot_of x) (call_slot c)) IsSound rows r table.sound
              found).result_matches
            kept)))
]

pub refused-advance :
    (s : Slot) (c : Reserve) (k : KeyState)
    → (is_utc c.now && is_code 127 (codes c.operation)) ≡ false
    → advance s (reserve_call c) k ≡ k
unfolding advance
refused-advance s c k bad = elim (Bool-cases (is_utc c.now)) [
  | inr zone ↦ rw zone refl
  | inl utc ↦ rw (utc, after-true utc bad) refl
]

pub reserve-refines :
    (s : Slot) (c : Reserve) (rows : List IdempotencyRow)
    → IsTable rows
    → IsCall (reserve_call c)
    → find row_key c.new_id rows ≡ none
    → view s (step (reserve_call c) rows) ≡ advance s (reserve_call c) (view s rows)
unfolding advance
reserve-refines s c rows table call fresh =
    elim (Bool-cases (is_utc c.now && is_code 127 (codes c.operation))) [
      | inr bad ↦ rw (step-refused c rows bad) (sym (refused-advance s c (view s rows) bad))
      | inl good ↦
          let utc : is_utc c.now ≡ true = and-left _ _ good in
          let operation : is_code 127 (codes c.operation) ≡ true = and-right _ _ good in
          elim (Option-cases (find_slot (call_slot c) rows)) [
            | inl vacant ↦
                rw
                  (
                    step-vacant c rows utc operation call fresh table vacant,
                    advance,
                    utc,
                    operation,
                  )
                  (view-claimed s c rows vacant)
            | inr (r, found) ↦
                rw
                  (
                    step-taken c rows utc operation call fresh table r found,
                    advance,
                    utc,
                    operation,
                  )
                  (elim (Bool-cases (repeats c (holder_of r) && may_take c r r.status)) [
                    | inr kept ↦ rw kept (kept-slot s c rows r table found kept)
                    | inl taken ↦ rw taken (
                        view-taken_over s c rows r table found (and-left _ _ taken)
                          (and-right _ _ taken))
                  ])
          ]
    ]
