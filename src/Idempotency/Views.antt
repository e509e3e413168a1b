-- ===== src/Idempotency/Views.antt =====
-- How the statements on `idempotency_records` change the state of each slot
-- (infrastructure/persistence/repositories/idempotency.py).
use lawyer_agent.Prelude.{
  ◌≡◌, refl, ◌≢◌, sym, ap, ◌∙◌, inl, inr, Bool, true, false, none, some, List, [], ◌∷◌, ◌++◌, arith,
  Bool-cases, Option-cases, if◌then◌else◌,
}
use lawyer_agent.JobStore.Tables.{find, changed, Unique, update_where}
use lawyer_agent.JobStore.Lookup.{
  first-update_where, first-append-none, first-append-some, find-first, first-holds, some-inside,
}
use lawyer_agent.Idempotency.Types.{IdempotencyStatus, reserved, completed, failed}
use lawyer_agent.Idempotency.Slots.{Slot, same_slot, same_slot_refl, same_slot→eq, same_bytes→eq}
use lawyer_agent.Idempotency.Table.{IdempotencyRow, row_key, slot_of, find_slot}
use lawyer_agent.Idempotency.Repository.{restarted_row}
use lawyer_agent.Idempotency.Keys.{Holder, Reserve, call_slot, claim, repeats}
use lawyer_agent.Idempotency.Sound.{IsTable, holder_of, view, view_row, view_status}
use lawyer_agent.Idempotency.Outcomes.{claiming_row}
use lawyer_agent.Idempotency.Reserving.{
  may_take, take_test, take_test-id, take_test_self, take_change, taken_over,
}

-- An UPDATE that keeps the slots acts on the row of each slot by itself.
abbrev pub KeepsSlot : (IdempotencyRow → IdempotencyRow) → Type 0
KeepsSlot change = (r : IdempotencyRow) → slot_of (change r) ≡ slot_of r

pub view-update_where :
    (s : Slot) (test : IdempotencyRow → Bool) (change : IdempotencyRow → IdempotencyRow)
    (rows : List IdempotencyRow)
    → KeepsSlot change
    → view s (update_where test change rows).0 ≡ view_row (changed test change (find_slot s rows))
unfolding view
view-update_where s test change rows keeps =
    rw (first-update_where (λ r. same_slot (slot_of r) s) test change rows (λ r. rw (keeps r) refl))
      refl

-- INSERT into a vacant slot.
pub view-claimed :
    (s : Slot) (c : Reserve) (rows : List IdempotencyRow)
    → find_slot (call_slot c) rows ≡ none
    → view s (rows ++ claiming_row c ∷ [])
      ≡ (if same_slot (call_slot c) s then claim c (view s rows) else view s rows)
unfolding view claim
view-claimed s c rows vacant = elim (Bool-cases (same_slot (call_slot c) s)) [
  | inl e ↦ rw (sym (same_slot→eq (call_slot c) s e)) (
      rw
        (
          first-append-none (λ r. same_slot (slot_of r) (call_slot c)) rows (claiming_row c) vacant,
          vacant,
          same_slot_refl (call_slot c),
        )
        refl)
  | inr e ↦ elim (Option-cases (find_slot s rows)) [
    | inl none_here ↦
        rw
          (
            first-append-none (λ x. same_slot (slot_of x) s) rows (claiming_row c) none_here,
            e,
            none_here,
          )
          refl
    | inr (r, here) ↦
        rw (first-append-some (λ x. same_slot (slot_of x) s) rows (claiming_row c) r here, e, here)
          refl
  ]
]

differ_refl : (a b : Slot) → same_slot a a ≡ true → same_slot a b ≡ false → a ≢ b
differ_refl a b same e p = cc

slots-differ : (a b : Slot) → same_slot a b ≡ false → a ≢ b
slots-differ a b = differ_refl a b (same_slot_refl a)

-- The row of another slot does not have the id.
pub other-slot :
    (s t : Slot) (rows : List IdempotencyRow) (r x : IdempotencyRow)
    → Unique row_key rows
    → find_slot s rows ≡ some r
    → find_slot t rows ≡ some x
    → x.id ≡ r.id
    → s ≡ t
other-slot s t rows r x unique found_r found_x e =
    let here =
      same_slot→eq (slot_of r) s (first-holds (λ y. same_slot (slot_of y) s) rows r found_r) in
    let there =
      same_slot→eq (slot_of x) t (first-holds (λ y. same_slot (slot_of y) t) rows x found_x) in
    let by_r = find-first row_key (λ y. same_slot (slot_of y) s) rows r unique found_r in
    let by_x = find-first row_key (λ y. same_slot (slot_of y) t) rows x unique found_x in
    sym here
    ∙ ap slot_of (some-inside r x (sym by_r ∙ ap (λ k. find row_key k rows) (sym e) ∙ by_x))
    ∙ there

repeats-fingerprint :
    (c : Reserve) (h : Holder) → repeats c h ≡ true → h.fingerprint ≡ c.prepared.request_fingerprint
repeats-fingerprint c h again =
    ground (arith, same_bytes→eq h.fingerprint c.prepared.request_fingerprint)

-- The row that a request takes over is in the state that the request claims.
pub claim-taken :
    (c : Reserve) (r : IdempotencyRow) (s : IdempotencyStatus)
    → repeats c (holder_of r) ≡ true
    → may_take c r s ≡ true
    → view_row (some (take_change c r)) ≡ claim c (view_status s r)
unfolding claim restarted_row
claim-taken c r completed again may = cc
claim-taken c r failed again may = rw (again, repeats-fingerprint c (holder_of r) again) refl
claim-taken c r reserved again may = rw (again, may, repeats-fingerprint c (holder_of r) again) refl

module _ (s : Slot) (c : Reserve) (rows : List IdempotencyRow) (r : IdempotencyRow)
    (table : IsTable rows) (found : find_slot (call_slot c) rows ≡ some r)
    (again : repeats c (holder_of r) ≡ true) (may : may_take c r r.status ≡ true) where
  take_change-KeepsSlot : KeepsSlot (take_change c)
  unfolding restarted_row
  take_change-KeepsSlot x = refl

  -- A row that is taken over stays in its slot and with its holder.
  pub view-taken_over :
      view s (taken_over c r rows)
      ≡ (if same_slot (call_slot c) s then claim c (view s rows) else view s rows)
  unfolding view
  view-taken_over =
      rw (view-update_where s (take_test c r) (take_change c) rows take_change-KeepsSlot)
        (elim (Bool-cases (same_slot (call_slot c) s)) [
          | inl e ↦ rw (sym (same_slot→eq (call_slot c) s e)) (
              rw (found, take_test_self c r may, same_slot_refl (call_slot c))
                (claim-taken c r r.status again may))
          | inr e ↦ elim (Option-cases (find_slot s rows)) [
            | inl none_here ↦ rw (none_here, e) refl
            | inr (x, here) ↦ elim (Bool-cases (take_test c r x)) [
              | inr kept ↦ rw (here, kept, e) refl
              | inl taken ↦ absurd (
                  slots-differ (call_slot c) s e (
                    other-slot (call_slot c) s rows r x table.unique found here
                      (take_test-id c r x taken)))
            ]
          ]
        ])
