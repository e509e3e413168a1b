-- ===== src/Worker/Attempts.antt =====
-- Which deliveries start an attempt.
use lawyer_agent.Prelude.{
  ok-pair, ℕ, ◌≡◌, refl, sym, ap, ◌∙◌, ◌≢◌, Bool, true, false, Option, none, some, List, [], ◌∷◌,
  ◌++◌, String, if◌then◌else◌, Result, ok, bind-eq-ok, arith,
}
use lawyer_agent.Common.{Uuid}
use lawyer_agent.AiJobs.Status.{status_in}
use lawyer_agent.AiJobs.Records.{check_uuid7}
use lawyer_agent.AiJobs.Requests.{ClaimJobRequest, check_claim_request}
use lawyer_agent.AiJobs.Policy.{JobAuthoritySnapshot, authorize}
use lawyer_agent.AiJobs.Grants.{IsAuthorized, authorize-allowed}
use lawyer_agent.JobStore.Rows.{AttemptRow, naive}
use lawyer_agent.JobStore.Claiming.{
  JobTables, ClaimOutcome, claim_due_job, new_attempt, claimable_statuses,
}
use lawyer_agent.JobStore.Jobs.{fail_job_without_attempt, update_jobs}
use lawyer_agent.JobStore.Messages.{Envelope}
use lawyer_agent.JobStore.Inbox.{
  InboxRow, find_message, insert_inbox_accepted, complete_inbox_terminal, bind_inbox_processing,
}
use lawyer_agent.Worker.Deliveries.{accept-inverts}
use lawyer_agent.Worker.{
  Delivery, DeliveryDecision, WorkerStore, accept_delivery, accept_first, accept_again,
  claim_delivery, deny_delivery, settle_delivery, claim_request,
}
use lawyer_agent.Worker.Claims.{started, append_nil, claim_due_job-attempts}

-- A job is started by the policy's leave alone.
abbrev Attempted :
    DeliveryDecision → JobAuthoritySnapshot → ClaimJobRequest → Delivery → List AttemptRow → Type 0
Attempted DeliveryDecision.ack_claimed a q d added =
    IsAuthorized a d.now × (added ≡ new_attempt q d.now.instant ∷ [])
Attempted _ a q d added = added ≡ []

module _ (envelope_digest : Envelope → List ℕ) (nonce_digest : String → List ℕ)
    (load : Uuid → Uuid → JobTables → Result String JobAuthoritySnapshot) (worker : String)
    (lease : ℕ) where
  deny-attempts :
      (d : Delivery) (a : JobAuthoritySnapshot) (code : String) (s s' : WorkerStore)
      (o : DeliveryDecision)
      → deny_delivery envelope_digest nonce_digest load worker lease d a code s ≡ ok (o, s')
      → (o ≡ DeliveryDecision.ack_terminal) × (s'.tables.attempts ≡ s.tables.attempts)
  unfolding deny_delivery fail_job_without_attempt update_jobs
  deny-attempts d a code s s' o h =
      let ((b, inbox), c, h1) =
        bind-eq-ok (complete_inbox_terminal d.inbox_id (some code) d.now s.inbox) _ h in
      let ((b', tables), f, h2) =
        bind-eq-ok
          (if status_in a.job.status claimable_statuses
            then fail_job_without_attempt d.tenant_id d.job_id "authorization" code d.now s.tables
            else ok (false, s.tables))
          _ h1 in
      let (same, after) = ok-pair _ _ o s' h2 in
      (sym same, rw (← after) (failed (status_in a.job.status claimable_statuses) tables b' f))
    where
      failed :
          (b : Bool) (tables : JobTables) (b' : Bool)
          → (if b
              then fail_job_without_attempt d.tenant_id d.job_id "authorization" code d.now s.tables
              else ok (false, s.tables))
            ≡ ok (b', tables)
          → tables.attempts ≡ s.tables.attempts
      failed true tables b' e =
          let (_, _, e1) = bind-eq-ok (check_uuid7 "fail job tenant_id" d.tenant_id) _ e in
          let (_, _, e2) = bind-eq-ok (check_uuid7 "fail job job_id" d.job_id) _ e1 in
          let (n, _, e3) = bind-eq-ok (naive d.now) _ e2 in rw (← (ok-pair _ _ b' tables e3).1) refl
      failed false tables b' e = rw (← (ok-pair false s.tables b' tables e).1) refl

  -- After a claim, the delivery is acknowledged by its outcome.
  settle-attempts :
      (d : Delivery) (a : JobAuthoritySnapshot) (c : ClaimOutcome) (s s' : WorkerStore)
      (o : DeliveryDecision)
      → IsAuthorized a d.now
      → settle_delivery envelope_digest nonce_digest load worker lease d c s ≡ ok (o, s')
      → (s'.tables.attempts ≡ s.tables.attempts)
        × Attempted o a
            (claim_request envelope_digest nonce_digest load worker lease d a)
            d
            (started (claim_request envelope_digest nonce_digest load worker lease d a) c)
  unfolding settle_delivery
  settle-attempts d a ClaimOutcome.rejected s s' o may h =
      let (p, _, h1) =
        bind-eq-ok (complete_inbox_terminal d.inbox_id (some "job_not_claimable") d.now s.inbox) _
          h in
      let (same, after) = ok-pair _ _ o s' h1 in (rw (← after) refl, rw (← same) refl)
  settle-attempts d a (ClaimOutcome.claimed found) s s' o may h =
      let (p, _, h1) =
        bind-eq-ok
          (bind_inbox_processing d.inbox_id found.attempt_id found.lease_fence d.now s.inbox) _ h in
      let (same, after) = ok-pair _ _ o s' h1 in (rw (← after) refl, rw (← same) (may, refl))

  -- What a delivery adds to the attempts under an authority.
  abbrev Adds :
      Delivery → JobAuthoritySnapshot → WorkerStore → DeliveryDecision → WorkerStore → Type 0
  Adds d a s o s' =
      (added : List AttemptRow) × (s'.tables.attempts ≡ s.tables.attempts ++ added)
      × Attempted o a (claim_request envelope_digest nonce_digest load worker lease d a) d added

  claim-attempts :
      (d : Delivery) (a : JobAuthoritySnapshot) (s s' : WorkerStore) (o : DeliveryDecision)
      → IsAuthorized a d.now
      → claim_delivery envelope_digest nonce_digest load worker lease d a s ≡ ok (o, s')
      → Adds d a s o s'
  unfolding claim_delivery
  claim-attempts d a s s' o may h =
      let q = claim_request envelope_digest nonce_digest load worker lease d a in
      let (_, _, h1) = bind-eq-ok (check_claim_request q) _ h in
      let ((c, tables), e, h2) = bind-eq-ok (claim_due_job q s.tables) _ h1 in
      let (kept, attempted) = settle-attempts d a c (record s { tables = tables }) s' o may h2 in
      (started q c, kept ∙ claim_due_job-attempts q s.tables tables c e, attempted)

  branches-attempts :
      (d : Delivery) (a : JobAuthoritySnapshot) (s s' : WorkerStore) (o : DeliveryDecision)
      (allowed : Bool) (code : String)
      → (authorize a d.now).allowed ≡ allowed
      → (if allowed
          then claim_delivery envelope_digest nonce_digest load worker lease d a s
          else deny_delivery envelope_digest nonce_digest load worker lease d a code s)
        ≡ ok (o, s')
      → Adds d a s o s'
  branches-attempts d a s s' o true code allowed h =
      claim-attempts d a s s' o ((authorize-allowed a d.now).0 allowed) h
  branches-attempts d a s s' o false code denied h =
      let (same, kept) = deny-attempts d a code s s' o h in
      ([], kept ∙ sym (append_nil s.tables.attempts), rw same refl)

  -- What the first delivery of a message adds to the attempts.
  accept_first-attempts :
      (d : Delivery) (s s' : WorkerStore) (o : DeliveryDecision)
      → accept_first envelope_digest nonce_digest load worker lease d s ≡ ok (o, s')
      → (a : JobAuthoritySnapshot) × (load d.tenant_id d.job_id s.tables ≡ ok a) × Adds d a s o s'
  unfolding accept_first
  accept_first-attempts d s s' o h =
      let (inbox, _, h1) =
        bind-eq-ok
          (insert_inbox_accepted d.inbox_id d.tenant_id d.message_id d.job_id
            (envelope_digest d.envelope) (nonce_digest d.envelope.nonce) d.now s.inbox)
          _ h in
      let (a, loaded, h2) = bind-eq-ok (load d.tenant_id d.job_id s.tables) _ h1 in
      (
        a,
        loaded,
        branches-attempts d a (record s { inbox = inbox }) s' o (authorize a d.now).allowed
            (authorize a d.now).reason_code refl h2,
      )

  again-unclaimed :
      (d : Delivery) (r : InboxRow)
      → accept_again envelope_digest nonce_digest load worker lease d r
        ≢ DeliveryDecision.ack_claimed
  again-unclaimed d r = ground arith

  -- A delivery that is acknowledged as claimed was allowed by the durable grant policy, on the
  -- authority that was loaded and at the time of the delivery, and has appended one attempt: the
  -- authority's next, under the lease of the delivery.
  pub accept_delivery_claims :
      (d : Delivery) (s s' : WorkerStore)
      → accept_delivery envelope_digest nonce_digest load worker lease d s
        ≡ ok (DeliveryDecision.ack_claimed, s')
      → (a : JobAuthoritySnapshot) × (load d.tenant_id d.job_id s.tables ≡ ok a)
        × IsAuthorized a d.now
        × (s'.tables.attempts
            ≡ s.tables.attempts
              ++ new_attempt
                  (claim_request envelope_digest nonce_digest load worker lease d a)
                  d.now.instant
                ∷ [])
  accept_delivery_claims d s s' h =
      go (find_message d.tenant_id d.message_id s.inbox)
        (accept-inverts envelope_digest nonce_digest load worker lease d s s' _ h).2
    where
      go :
          (found : Option InboxRow)
          → elim found [
            | some r ↦ ok (accept_again envelope_digest nonce_digest load worker lease d r, s)
            | none ↦ accept_first envelope_digest nonce_digest load worker lease d s
          ]
            ≡ ok (DeliveryDecision.ack_claimed, s')
          → (a : JobAuthoritySnapshot) × (load d.tenant_id d.job_id s.tables ≡ ok a)
            × IsAuthorized a d.now
            × (s'.tables.attempts
                ≡ s.tables.attempts
                  ++ new_attempt
                      (claim_request envelope_digest nonce_digest load worker lease d a)
                      d.now.instant
                    ∷ [])
      go (some r) e = absurd (again-unclaimed d r (ok-pair _ s _ s' e).0)
      go none e =
          let (a, loaded, (added, appended, (may, one))) = accept_first-attempts d s s' _ e in
          (a, loaded, may, appended ∙ ap (λ l. s.tables.attempts ++ l) one)

  unclaimed-adds_none :
      (o : DeliveryDecision) (a : JobAuthoritySnapshot) (q : ClaimJobRequest) (d : Delivery)
      (added : List AttemptRow)
      → o ≢ DeliveryDecision.ack_claimed
      → Attempted o a q d added
      → added ≡ []
  unclaimed-adds_none DeliveryDecision.ack_claimed a q d added other h = absurd (other refl)
  unclaimed-adds_none DeliveryDecision.ack_duplicate a q d added other h = h
  unclaimed-adds_none DeliveryDecision.ack_terminal a q d added other h = h
  unclaimed-adds_none DeliveryDecision.reject_no_requeue a q d added other h = h

  -- A delivery that was handled with any decision but claimed starts no attempt: the attempts stay
  -- as they were.
  pub accept_delivery_idle :
      (d : Delivery) (s s' : WorkerStore) (o : DeliveryDecision)
      → accept_delivery envelope_digest nonce_digest load worker lease d s ≡ ok (o, s')
      → o ≢ DeliveryDecision.ack_claimed
      → s'.tables.attempts ≡ s.tables.attempts
  accept_delivery_idle d s s' o h other =
      go (find_message d.tenant_id d.message_id s.inbox)
        (accept-inverts envelope_digest nonce_digest load worker lease d s s' o h).2
    where
      go :
          (found : Option InboxRow)
          → elim found [
            | some r ↦ ok (accept_again envelope_digest nonce_digest load worker lease d r, s)
            | none ↦ accept_first envelope_digest nonce_digest load worker lease d s
          ]
            ≡ ok (o, s')
          → s'.tables.attempts ≡ s.tables.attempts
      go (some r) e = rw (← (ok-pair _ s o s' e).1) refl
      go none e =
          let (a, _, (added, appended, attempted)) = accept_first-attempts d s s' o e in
          appended
          ∙ ap (λ l. s.tables.attempts ++ l)
              (unclaimed-adds_none o a
                (claim_request envelope_digest nonce_digest load worker lease d a) d added other
                attempted)
          ∙ append_nil s.tables.attempts
