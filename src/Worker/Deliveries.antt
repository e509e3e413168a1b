-- ===== src/Worker/Deliveries.antt =====
-- The deduplication of deliveries by the inbox.
use lawyer_agent.Prelude.{
  ok-pair, ok-inside, ℕ, ◌≡◌, refl, ◌∙◌, Bool, true, false, Option, none, some, List, [], ◌∷◌,
  String, if◌then◌else◌, Result, ok, err, bind-eq-ok,
}
use lawyer_agent.Common.{Uuid}
use lawyer_agent.AiJobs.Status.{status_in}
use lawyer_agent.AiJobs.Records.{check_uuid7}
use lawyer_agent.AiJobs.Requests.{check_claim_request}
use lawyer_agent.AiJobs.Policy.{JobAuthoritySnapshot, authorize}
use lawyer_agent.JobStore.Claiming.{JobTables, ClaimOutcome, claim_due_job, claimable_statuses}
use lawyer_agent.JobStore.Jobs.{fail_job_without_attempt}
use lawyer_agent.JobStore.Messages.{Envelope}
use lawyer_agent.JobStore.Inbox.{
  InboxRow, same_bytes, find_message, inbox_row, insert_inbox_accepted, complete_inbox_terminal,
  bind_inbox_processing,
}
use lawyer_agent.Worker.Record.{
  recorded, digest_of, insert-recorded, insert-kept, complete-recorded, bind-recorded,
}
use lawyer_agent.Worker.{
  Delivery, DeliveryDecision, WorkerStore, accept_delivery, accept_first, accept_again,
  claim_delivery, deny_delivery, settle_delivery, claim_request,
}

-- What a transaction leaves: the new store, or the old one when it raised.
abbrev pub after : Result String (DeliveryDecision × WorkerStore) → WorkerStore → WorkerStore
after (ok p) s = p.1
after (err e) s = s

module _ (envelope_digest : Envelope → List ℕ) (nonce_digest : String → List ℕ)
    (load : Uuid → Uuid → JobTables → Result String JobAuthoritySnapshot) (worker : String)
    (lease : ℕ) where
  deny-recorded :
      (t m : Uuid) (d : Delivery) (a : JobAuthoritySnapshot) (code : String) (s s' : WorkerStore)
      (o : DeliveryDecision)
      → deny_delivery envelope_digest nonce_digest load worker lease d a code s ≡ ok (o, s')
      → recorded t m s'.inbox ≡ recorded t m s.inbox
  unfolding deny_delivery
  deny-recorded t m d a code s s' o h =
      let ((b, inbox), c, h1) =
        bind-eq-ok (complete_inbox_terminal d.inbox_id (some code) d.now s.inbox) _ h in
      let (p, _, h2) =
        bind-eq-ok
          (if status_in a.job.status claimable_statuses
            then fail_job_without_attempt d.tenant_id d.job_id "authorization" code d.now s.tables
            else ok (false, s.tables))
          _ h1 in
      rw (← (ok-pair _ _ o s' h2).1)
        (complete-recorded t m d.inbox_id (some code) d.now s.inbox inbox b c)

  settle-recorded :
      (t m : Uuid) (d : Delivery) (c : ClaimOutcome) (s s' : WorkerStore) (o : DeliveryDecision)
      → settle_delivery envelope_digest nonce_digest load worker lease d c s ≡ ok (o, s')
      → recorded t m s'.inbox ≡ recorded t m s.inbox
  unfolding settle_delivery
  settle-recorded t m d ClaimOutcome.rejected s s' o h =
      let ((b, inbox), c, h1) =
        bind-eq-ok (complete_inbox_terminal d.inbox_id (some "job_not_claimable") d.now s.inbox) _
          h in
      rw (← (ok-pair _ _ o s' h1).1) (complete-recorded t m d.inbox_id _ d.now s.inbox inbox b c)
  settle-recorded t m d (ClaimOutcome.claimed found) s s' o h =
      let ((b, inbox), c, h1) =
        bind-eq-ok
          (bind_inbox_processing d.inbox_id found.attempt_id found.lease_fence d.now s.inbox) _ h in
      rw (← (ok-pair _ _ o s' h1).1)
        (bind-recorded t m d.inbox_id found.attempt_id found.lease_fence d.now s.inbox inbox b c)

  claim-recorded :
      (t m : Uuid) (d : Delivery) (a : JobAuthoritySnapshot) (s s' : WorkerStore)
      (o : DeliveryDecision)
      → claim_delivery envelope_digest nonce_digest load worker lease d a s ≡ ok (o, s')
      → recorded t m s'.inbox ≡ recorded t m s.inbox
  unfolding claim_delivery
  claim-recorded t m d a s s' o h =
      let q = claim_request envelope_digest nonce_digest load worker lease d a in
      let (_, _, h1) = bind-eq-ok (check_claim_request q) _ h in
      let ((c, tables), _, h2) = bind-eq-ok (claim_due_job q s.tables) _ h1 in
      settle-recorded t m d c (record s { tables = tables }) s' o h2

  branches-recorded :
      (t m : Uuid) (d : Delivery) (s s' : WorkerStore) (o : DeliveryDecision)
      (a : JobAuthoritySnapshot) (allowed : Bool) (code : String)
      → (if allowed
          then claim_delivery envelope_digest nonce_digest load worker lease d a s
          else deny_delivery envelope_digest nonce_digest load worker lease d a code s)
        ≡ ok (o, s')
      → recorded t m s'.inbox ≡ recorded t m s.inbox
  branches-recorded t m d s s' o a true code = claim-recorded t m d a s s' o
  branches-recorded t m d s s' o a false code = deny-recorded t m d a code s s' o

  -- What the first delivery of a message does to the record of any message.
  first-inverts :
      (t m : Uuid) (d : Delivery) (s s' : WorkerStore) (o : DeliveryDecision)
      → accept_first envelope_digest nonce_digest load worker lease d s ≡ ok (o, s')
      → (inbox : List InboxRow) × (insert_inbox_accepted d.inbox_id d.tenant_id d.message_id
            d.job_id
            (envelope_digest d.envelope)
            (nonce_digest d.envelope.nonce)
            d.now
            s.inbox
          ≡ ok inbox)
        × (recorded t m s'.inbox ≡ recorded t m inbox)
  unfolding accept_first
  first-inverts t m d s s' o h =
      let (inbox, i, h1) =
        bind-eq-ok
          (insert_inbox_accepted d.inbox_id d.tenant_id d.message_id d.job_id
            (envelope_digest d.envelope) (nonce_digest d.envelope.nonce) d.now s.inbox)
          _ h in
      let (a, _, h2) = bind-eq-ok (load d.tenant_id d.job_id s.tables) _ h1 in
      (
        inbox,
        i,
        branches-recorded t m d (record s { inbox = inbox }) s' o a (authorize a d.now).allowed
            (authorize a d.now).reason_code h2,
      )

  -- A delivery that was handled has its message on record, under the digest of its own envelope or
  -- of the one that came first.
  pub accept-inverts :
      (d : Delivery) (s s' : WorkerStore) (o : DeliveryDecision)
      → accept_delivery envelope_digest nonce_digest load worker lease d s ≡ ok (o, s')
      → (check_uuid7 "inbox tenant_id" d.tenant_id ≡ ok tt)
        × (check_uuid7 "inbox message_id" d.message_id ≡ ok tt)
        × (elim (find_message d.tenant_id d.message_id s.inbox) [
          | some r ↦ ok (accept_again envelope_digest nonce_digest load worker lease d r, s)
          | none ↦ accept_first envelope_digest nonce_digest load worker lease d s
        ]
            ≡ ok (o, s'))
  unfolding accept_delivery inbox_row
  accept-inverts d s s' o h =
      let (found, f, h1) = bind-eq-ok (inbox_row d.tenant_id d.message_id s.inbox) _ h in
      let (_, c1, f1) = bind-eq-ok (check_uuid7 "inbox tenant_id" d.tenant_id) _ f in
      let (_, c2, f2) = bind-eq-ok (check_uuid7 "inbox message_id" d.message_id) _ f1 in
      (c1, c2, rw (ok-inside _ found f2) h1)

  -- A store whose inbox has a message on record keeps it, whatever is delivered.
  accept-kept :
      (t m : Uuid) (known : List ℕ) (d : Delivery) (s s' : WorkerStore) (o : DeliveryDecision)
      → recorded t m s.inbox ≡ some known
      → accept_delivery envelope_digest nonce_digest load worker lease d s ≡ ok (o, s')
      → recorded t m s'.inbox ≡ some known
  accept-kept t m known d s s' o e h =
      go (find_message d.tenant_id d.message_id s.inbox) (accept-inverts d s s' o h).2
    where
      go :
          (found : Option InboxRow)
          → elim found [
            | some r ↦ ok (accept_again envelope_digest nonce_digest load worker lease d r, s)
            | none ↦ accept_first envelope_digest nonce_digest load worker lease d s
          ]
            ≡ ok (o, s')
          → recorded t m s'.inbox ≡ some known
      go (some r) h' = rw (← (ok-pair _ s o s' h').1) e
      go none h' =
          let (inbox, i, r) = first-inverts t m d s s' o h' in
          r
          ∙ insert-kept t m d.inbox_id d.job_id d.tenant_id d.message_id
              (envelope_digest d.envelope) (nonce_digest d.envelope.nonce) known d.now s.inbox inbox
              e i

  -- The first delivery of a message puts it on record.
  accept-recorded :
      (d : Delivery) (s s' : WorkerStore) (o : DeliveryDecision)
      → find_message d.tenant_id d.message_id s.inbox ≡ none
      → accept_delivery envelope_digest nonce_digest load worker lease d s ≡ ok (o, s')
      → recorded d.tenant_id d.message_id s'.inbox ≡ some (envelope_digest d.envelope)
  accept-recorded d s s' o absent h =
      let (inbox, i, r) =
        first-inverts d.tenant_id d.message_id d s s' o
          (rw absent at (accept-inverts d s s' o h).2) in
      r
      ∙ insert-recorded d.tenant_id d.message_id d.inbox_id d.job_id (envelope_digest d.envelope)
          (nonce_digest d.envelope.nonce) d.now s.inbox inbox absent i

  -- Deliveries one after the other; one that raises is rolled back.
  unfoldable pub accept_all : List Delivery → WorkerStore → WorkerStore
  unfolding accept_delivery
  accept_all [] s = s
  accept_all (d ∷ ds) s =
      accept_all ds (after (accept_delivery envelope_digest nonce_digest load worker lease d s) s)

  accept-kept-after :
      (t m : Uuid) (known : List ℕ) (d : Delivery) (s : WorkerStore)
      (r : Result String (DeliveryDecision × WorkerStore))
      → accept_delivery envelope_digest nonce_digest load worker lease d s ≡ r
      → recorded t m s.inbox ≡ some known
      → recorded t m (after r s).inbox ≡ some known
  accept-kept-after t m known d s (ok (o, s')) h e = accept-kept t m known d s s' o e h
  accept-kept-after t m known d s (err x) h e = e

  accept_all-kept :
      (t m : Uuid) (known : List ℕ) (ds : List Delivery) (s : WorkerStore)
      → recorded t m s.inbox ≡ some known
      → recorded t m (accept_all ds s).inbox ≡ some known
  unfolding accept_all
  accept_all-kept t m known [] s e = e
  accept_all-kept t m known (d ∷ ds) s e = accept_all-kept t m known ds _ (
      accept-kept-after t m known d s
        (accept_delivery envelope_digest nonce_digest load worker lease d s) refl e)

  -- A delivery whose message is on record changes nothing.
  accept-known :
      (d : Delivery) (s : WorkerStore) (known : List ℕ)
      → check_uuid7 "inbox tenant_id" d.tenant_id ≡ ok tt
      → check_uuid7 "inbox message_id" d.message_id ≡ ok tt
      → recorded d.tenant_id d.message_id s.inbox ≡ some known
      → accept_delivery envelope_digest nonce_digest load worker lease d s
        ≡ ok (
          if same_bytes known (envelope_digest d.envelope)
              then DeliveryDecision.ack_duplicate
              else DeliveryDecision.reject_no_requeue,
          s,
        )
  unfolding accept_delivery inbox_row
  accept-known d s known c1 c2 e =
      rw (c1, c2) (go (find_message d.tenant_id d.message_id s.inbox) e)
    where
      go :
          (found : Option InboxRow)
          → digest_of found ≡ some known
          → elim found [
            | some r ↦ ok (accept_again envelope_digest nonce_digest load worker lease d r, s)
            | none ↦ accept_first envelope_digest nonce_digest load worker lease d s
          ]
            ≡ ok (
              if same_bytes known (envelope_digest d.envelope)
                  then DeliveryDecision.ack_duplicate
                  else DeliveryDecision.reject_no_requeue,
              s,
            )
      go (some r) f = cc
      go none f = cc

  -- A message is handled once: when its first delivery was handled, then after any deliveries, of
  -- any messages, another delivery of it changes nothing, and is acknowledged as a duplicate when
  -- its envelope has the digest of the first one, else rejected.
  pub accept_delivery_once :
      (d d' : Delivery) (ds : List Delivery) (s s' : WorkerStore) (o : DeliveryDecision)
      → find_message d.tenant_id d.message_id s.inbox ≡ none
      → accept_delivery envelope_digest nonce_digest load worker lease d s ≡ ok (o, s')
      → d'.tenant_id ≡ d.tenant_id
      → d'.message_id ≡ d.message_id
      → accept_delivery envelope_digest nonce_digest load worker lease d' (accept_all ds s')
        ≡ ok (
          if same_bytes (envelope_digest d.envelope) (envelope_digest d'.envelope)
              then DeliveryDecision.ack_duplicate
              else DeliveryDecision.reject_no_requeue,
          accept_all ds s',
        )
  accept_delivery_once d d' ds s s' o absent h t m =
      let (c1, c2, _) = accept-inverts d s s' o h in
      accept-known d' (accept_all ds s') (envelope_digest d.envelope) (rw t c1) (rw m c2) (
        rw (t, m)
          (accept_all-kept d.tenant_id d.message_id (envelope_digest d.envelope) ds s'
            (accept-recorded d s s' o absent h)))
