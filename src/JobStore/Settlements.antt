-- ===== src/JobStore/Settlements.antt =====
-- The two ways in which a publisher ends its claim on an outbox row, and what the statements on the
-- outbox do to the versions of its rows.
use mathlib.Core.Path.{subst}
use lawyer_agent.Prelude.{
  ℕ, zero, suc, ◌+◌, ◌≤◌, ◌<◌, ◌≡◌, refl, inl, inr, Bool, true, not, ◌&&◌, List, [], ◌∷◌, ◌==◌,
  arith, String, Result, ok, bind-eq-ok, leb, Bool-cases, if◌then◌else◌,
}
use lawyer_agent.Common.{Uuid, DateTime, is_utc}
use lawyer_agent.AiJobs.Timing.{seconds}
use lawyer_agent.JobStore.Tables.{update_where}
use lawyer_agent.JobStore.Rows.{naive}
use lawyer_agent.JobStore.Messages.{
  OutboxRow, ClaimedOutbox, ClaimCandidate, Envelope, PublisherErrorCode, outbox_key,
}
use lawyer_agent.JobStore.Outbox.{
  is_due, with_envelope, claim_row, claim_rows, claimed_outbox, is_held, mark_published,
  published_row, release_or_block, released_row, blocked_row,
}

-- Row by row, a table has kept its keys and no version has fallen.
abbrev pub NoOlder : List OutboxRow → List OutboxRow → Type 0
NoOlder [] [] = Unit
NoOlder (x ∷ xs) (y ∷ ys) = (outbox_key y ≡ outbox_key x) × (x.version ≤ y.version) × NoOlder xs ys
NoOlder _ _ = ⊥

pub NoOlder-refl : (rows : List OutboxRow) → NoOlder rows rows
NoOlder-refl [] = tt
NoOlder-refl (x ∷ xs) = (refl, omega arith, NoOlder-refl xs)

pub update_where-NoOlder :
    (test : OutboxRow → Bool) (change : OutboxRow → OutboxRow) (rows : List OutboxRow)
    → ((r : OutboxRow) → outbox_key (change r) ≡ outbox_key r)
    → ((r : OutboxRow) → r.version ≤ (change r).version)
    → NoOlder rows (update_where test change rows).0
update_where-NoOlder test change [] key v = tt
update_where-NoOlder test change (x ∷ xs) key v =
    let rest = update_where-NoOlder test change xs key v in
    elim (Bool-cases (test x)) [
      | inl yes' ↦ rw yes' (key x, v x, rest)
      | inr no' ↦ rw no' (refl, omega arith, rest)
    ]

-- What a statement returns next to the rows says nothing about them.
ok-rows :
    {A : Type 0} (xs rows : List OutboxRow) (a a' : A)
    → ◌≡◌ {A = Result String (List OutboxRow × A)} (ok (xs, a)) (ok (rows, a'))
    → xs ≡ rows
ok-rows xs rows a a' e = cc

-- How a publisher ends its claim: the message was confirmed, or it was not.
pub data Settlement : Type 0 where
  confirms : DateTime → Settlement
  gives_up : PublisherErrorCode → DateTime → Settlement

abbrev pub settled_at : Settlement → DateTime
settled_at (confirms now) = now
settled_at (gives_up error_code now) = now

unfoldable pub settle :
    ClaimedOutbox → Settlement → List OutboxRow → Result String (Bool × List OutboxRow)
unfolding mark_published release_or_block
settle claim (confirms now) rows = mark_published claim now rows
settle claim (gives_up error_code now) rows = release_or_block claim error_code now rows

unfoldable pub settled_row : ClaimedOutbox → Settlement → OutboxRow → OutboxRow
unfolding published_row blocked_row released_row
settled_row claim (confirms now) r = published_row now.instant r
settled_row claim (gives_up error_code now) r =
    if leb claim.max_publish_attempts claim.publish_attempt_count
    then blocked_row error_code r
    else released_row error_code (now.instant + seconds 5) r

module _ (claim : ClaimedOutbox) where
  -- A row that the claim no longer holds.
  abbrev pub IsStale : OutboxRow → Type 0
  IsStale r = r.id ≡ claim.id → claim.version < r.version

  pub settled_row-keeps :
      (s : Settlement) (r : OutboxRow)
      → (outbox_key (settled_row claim s r) ≡ outbox_key r)
        × ((settled_row claim s r).version ≡ r.version + 1)
  unfolding settled_row published_row blocked_row released_row
  settled_row-keeps (confirms now) r = (refl, refl)
  settled_row-keeps (gives_up error_code now) r = ground arith

  pub settle-inverts :
      (s : Settlement) (rows rows' : List OutboxRow) (b : Bool)
      → settle claim s rows ≡ ok (b, rows')
      → ((update_where (is_held claim) (settled_row claim s) rows).0 ≡ rows')
        × (((update_where (is_held claim) (settled_row claim s) rows).1 == 1) ≡ b)
  unfolding settle settled_row mark_published release_or_block naive
  settle-inverts (confirms now) rows rows' b e = ground arith
  settle-inverts (gives_up error_code now) rows rows' b e = ground arith

  pub settle-runs :
      (s : Settlement) (rows : List OutboxRow)
      → is_utc (settled_at s) ≡ true
      → settle claim s rows
        ≡ ok (
          (update_where (is_held claim) (settled_row claim s) rows).1 == 1,
          (update_where (is_held claim) (settled_row claim s) rows).0,
        )
  unfolding settle settled_row mark_published release_or_block naive
  settle-runs (confirms now) rows e = ground arith
  settle-runs (gives_up error_code now) rows e = ground arith

module _ (factory : ClaimCandidate → Envelope) (digest : Envelope → List ℕ)
    (new_token : Uuid → Uuid) (locked : Uuid → Bool) where
  pub filled_keeps :
      (r r' : OutboxRow)
      → with_envelope factory digest new_token locked r ≡ ok r'
      → (outbox_key r' ≡ outbox_key r) × (r'.version ≡ r.version)
  unfolding with_envelope naive
  filled_keeps r r' e = ground arith

  pub claim_rows-NoOlder :
      (now expires : ℕ) (worker : String) (limit : ℕ) (rs rows : List OutboxRow)
      (claims : List ClaimedOutbox)
      → claim_rows factory digest new_token locked now expires worker limit rs ≡ ok (rows, claims)
      → NoOlder rs rows
  unfolding claim_rows claim_row
  claim_rows-NoOlder now expires worker limit [] rows claims e =
      subst (NoOlder []) (ok-rows [] rows [] claims e) (NoOlder-refl [])
  claim_rows-NoOlder now expires worker zero (r ∷ rs) rows claims e =
      subst (NoOlder (r ∷ rs)) (ok-rows (r ∷ rs) rows [] claims e) (NoOlder-refl (r ∷ rs))
  claim_rows-NoOlder now expires worker (suc limit) (r ∷ rs) rows claims e =
      elim (Bool-cases (is_due now r && not (locked r.id))) [
        | inl due ↦
            let (filled, f, e1) =
              bind-eq-ok (with_envelope factory digest new_token locked r) _ (rw due at e) in
            let (claim, c, e2) =
              bind-eq-ok
                (claimed_outbox (claim_row factory digest new_token locked expires worker filled)) _
                e1 in
            let (rest, l, e3) =
              bind-eq-ok (claim_rows factory digest new_token locked now expires worker limit rs) _
                e2 in
            let keeps = filled_keeps r filled f in
            let row = claim_row factory digest new_token locked expires worker filled in
            subst (NoOlder (r ∷ rs)) (ok-rows (row ∷ rest.0) rows (claim ∷ rest.1) claims e3) (
              keeps.0,
              omega (arith, keeps.1),
              claim_rows-NoOlder now expires worker limit rs rest.0 rest.1 l,
            )
        | inr not_due ↦
            let (rest, l, e3) =
              bind-eq-ok
                (claim_rows factory digest new_token locked now expires worker (suc limit) rs) _
                (rw not_due at e) in
            subst (NoOlder (r ∷ rs)) (ok-rows (r ∷ rest.0) rows rest.1 claims e3) (
              refl,
              omega arith,
              claim_rows-NoOlder now expires worker (suc limit) rs rest.0 rest.1 l,
            )
      ]
