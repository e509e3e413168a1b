-- ===== src/Worker/Record.antt =====
-- Which messages the inbox has on record, and what the statements on it do to the record.
use lawyer_agent.Prelude.{
  ok-pair, ok-inside, ℕ, ◌≡◌, refl, Bool, not, Option, none, some, List, [], ◌∷◌, ◌++◌, String,
  ◌==◌, ok, bind-eq-ok, arith, any, guard, length,
}
use lawyer_agent.Common.{Uuid, DateTime}
use lawyer_agent.AiJobs.Records.{check_uuid7}
use lawyer_agent.JobStore.Tables.{update_where}
use lawyer_agent.JobStore.Inbox.{
  InboxRow, accepted_row, find_message, insert_inbox_accepted, complete_inbox_terminal,
  bind_inbox_processing, may_complete, completed_row, may_bind, bound_row, clashes,
}
use lawyer_agent.JobStore.Rows.{naive}

abbrev pub digest_of : Option InboxRow → Option (List ℕ)
digest_of none = none
digest_of (some r) = some r.envelope_digest

-- The digest under which a message is on record.
abbrev pub recorded : Uuid → Uuid → List InboxRow → Option (List ℕ)
recorded tenant message rows = digest_of (find_message tenant message rows)

module _ (tenant message : Uuid) where
  recorded-update :
      (test : InboxRow → Bool) (change : InboxRow → InboxRow) (rows : List InboxRow)
      → ((r : InboxRow)
          → ((change r).tenant_id ≡ r.tenant_id)
            × ((change r).message_id ≡ r.message_id)
            × ((change r).envelope_digest ≡ r.envelope_digest))
      → recorded tenant message (update_where test change rows).0 ≡ recorded tenant message rows
  recorded-update test change [] keeps = refl
  recorded-update test change (x ∷ xs) keeps =
      ground (arith, recorded-update test change xs keeps, (keeps x).0, (keeps x).1, (keeps x).2)

  recorded-append :
      (rows : List InboxRow) (row : InboxRow)
      → find_message tenant message rows ≡ none
      → row.tenant_id ≡ tenant
      → row.message_id ≡ message
      → recorded tenant message (rows ++ row ∷ []) ≡ some row.envelope_digest
  recorded-append [] row e t m = ground (arith, t, m)
  recorded-append (x ∷ xs) row e t m = ground (arith, recorded-append xs row, e, t, m)

  -- A row of another message leaves the record alone.
  recorded-kept :
      (rows : List InboxRow) (row : InboxRow) (digest : List ℕ)
      → recorded tenant message rows ≡ some digest
      → recorded tenant message (rows ++ row ∷ []) ≡ some digest
  recorded-kept [] row digest e = cc
  recorded-kept (x ∷ xs) row digest e = ground (arith, recorded-kept xs row digest, e)

  insert-inverts :
      (id job t m : Uuid) (digest nonce : List ℕ) (now : DateTime) (rows rows' : List InboxRow)
      → insert_inbox_accepted id t m job digest nonce now rows ≡ ok rows'
      → (n : ℕ) × (rows ++ accepted_row id t m job digest nonce n ∷ [] ≡ rows')
  unfolding insert_inbox_accepted
  insert-inverts id job t m digest nonce now rows rows' h =
      let (_, _, h1) = bind-eq-ok (check_uuid7 "inbox id" id) _ h in
      let (_, _, h2) = bind-eq-ok (check_uuid7 "inbox tenant_id" t) _ h1 in
      let (_, _, h3) = bind-eq-ok (check_uuid7 "inbox message_id" m) _ h2 in
      let (_, _, h4) = bind-eq-ok (check_uuid7 "inbox job_id" job) _ h3 in
      let (_, _, h5) =
        bind-eq-ok (guard (length digest == 32) "inbox envelope digest must be 32 bytes") _ h4 in
      let (_, _, h6) =
        bind-eq-ok (guard (length nonce == 32) "inbox nonce digest must be 32 bytes") _ h5 in
      let (n, _, h7) = bind-eq-ok (naive now) _ h6 in
      let row = accepted_row id t m job digest nonce n in
      let (_, _, h8) = bind-eq-ok (guard (not (any (clashes row) rows)) "duplicate key") _ h7 in
      (n, ok-inside (rows ++ row ∷ []) rows' h8)

  -- The insert puts its message on record, and leaves those that are.
  pub insert-recorded :
      (id job : Uuid) (digest nonce : List ℕ) (now : DateTime) (rows rows' : List InboxRow)
      → find_message tenant message rows ≡ none
      → insert_inbox_accepted id tenant message job digest nonce now rows ≡ ok rows'
      → recorded tenant message rows' ≡ some digest
  insert-recorded id job digest nonce now rows rows' e h =
      let (n, after) = insert-inverts id job tenant message digest nonce now rows rows' h in
      rw (← after)
        (recorded-append rows (accepted_row id tenant message job digest nonce n) e refl refl)

  pub insert-kept :
      (id job t m : Uuid) (digest nonce known : List ℕ) (now : DateTime)
      (rows rows' : List InboxRow)
      → recorded tenant message rows ≡ some known
      → insert_inbox_accepted id t m job digest nonce now rows ≡ ok rows'
      → recorded tenant message rows' ≡ some known
  insert-kept id job t m digest nonce known now rows rows' e h =
      let (n, after) = insert-inverts id job t m digest nonce now rows rows' h in
      rw (← after) (recorded-kept rows (accepted_row id t m job digest nonce n) known e)

  pub complete-recorded :
      (id : Uuid) (code : Option String) (now : DateTime) (rows rows' : List InboxRow) (b : Bool)
      → complete_inbox_terminal id code now rows ≡ ok (b, rows')
      → recorded tenant message rows' ≡ recorded tenant message rows
  unfolding complete_inbox_terminal completed_row
  complete-recorded id code now rows rows' b h =
      let (_, _, h1) = bind-eq-ok (check_uuid7 "inbox id" id) _ h in
      let (n, _, h2) = bind-eq-ok (naive now) _ h1 in
      rw (← (ok-pair _ _ b rows' h2).1)
        (recorded-update (may_complete id) (completed_row code n) rows (λ r. (refl, refl, refl)))

  pub bind-recorded :
      (id attempt : Uuid) (fence : ℕ) (now : DateTime) (rows rows' : List InboxRow) (b : Bool)
      → bind_inbox_processing id attempt fence now rows ≡ ok (b, rows')
      → recorded tenant message rows' ≡ recorded tenant message rows
  unfolding bind_inbox_processing bound_row
  bind-recorded id attempt fence now rows rows' b h =
      let (_, _, h1) = bind-eq-ok (check_uuid7 "inbox id" id) _ h in
      let (_, _, h2) = bind-eq-ok (check_uuid7 "attempt id" attempt) _ h1 in
      let (n, _, h3) = bind-eq-ok (naive now) _ h2 in
      rw (← (ok-pair _ _ b rows' h3).1)
        (recorded-update (may_bind id) (bound_row attempt fence n) rows (λ r. (refl, refl, refl)))
