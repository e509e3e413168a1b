-- ===== src/JobStore/Superseding.antt =====
-- A claim on an outbox row that another publisher has claimed again after it ran out.
use mathlib.Core.Path.{subst}
use lawyer_agent.Prelude.{
  ℕ, zero, suc, ◌≤◌, ◌<◌, ◌≡◌, refl, sym, ◌∙◌, inl, inr, Bool, true, false, not, ◌&&◌, none, some,
  List, [], ◌∷◌, String, arith, ◌==◌, All, ok, bind-eq-ok, Bool-cases, ok-pair, ==_iff,
}
use lawyer_agent.Common.{Uuid, DateTime, is_utc}
use lawyer_agent.JobStore.Tables.{find, Unique, update_where-idle}
use lawyer_agent.JobStore.Lookup.{some-inside}
use lawyer_agent.JobStore.Rows.{naive}
use lawyer_agent.JobStore.Messages.{OutboxRow, ClaimedOutbox, ClaimCandidate, Envelope, outbox_key}
use lawyer_agent.JobStore.Outbox.{
  is_due, with_envelope, claim_row, claim_rows, claimed_outbox, claim_outbox_batch, is_held,
}
use lawyer_agent.JobStore.Settlements.{
  NoOlder, Settlement, settle, settled_at, settled_row, settle-runs, IsStale, filled_keeps,
}
use lawyer_agent.JobStore.Holding.{
  claim_key, IsHeld, claim_rows-IsClaimed, claimed_outbox-held, NoOlder-Unique,
}
use lawyer_agent.JobStore.Settling.{
  OutboxCall, outbox_run, outbox_step, outbox_step-NoOlder, outbox_run-IsStale, IsStale-uncounted,
  held-version,
}

-- A row that is not older than a claim on it.
abbrev NotBefore : ClaimedOutbox → OutboxRow → Type 0
NotBefore claim r = r.id ≡ claim.id → claim.version ≤ r.version

NotBefore-NoOlder :
    (claim : ClaimedOutbox) (xs ys : List OutboxRow)
    → NoOlder xs ys
    → All (NotBefore claim) xs
    → All (NotBefore claim) ys
NotBefore-NoOlder claim [] [] n h = tt
NotBefore-NoOlder claim [] (y ∷ ys) n h = absurd n
NotBefore-NoOlder claim (x ∷ xs) [] n h = absurd n
NotBefore-NoOlder claim (x ∷ xs) (y ∷ ys) (key, v, n) (h, hs) =
    (λ e. omega (arith, h (sym key ∙ e), v), NotBefore-NoOlder claim xs ys n hs)

-- A key that stands under no row.
absent-under {κ} :
    (P : OutboxRow → Type κ) (k : Uuid) (rows : List OutboxRow)
    → find outbox_key k rows ≡ none
    → All (λ r. r.id ≡ k → P r) rows
absent-under P k [] e = tt
absent-under P k (x ∷ xs) e =
    (λ key. ground (arith, e, key), absent-under P k xs (ground (arith, e)))

-- What holds of the row that is found under a unique key holds of every row under that key.
under_each {κ} :
    (P : OutboxRow → Type κ) (k : Uuid) (rows : List OutboxRow) (row : OutboxRow)
    → Unique outbox_key rows
    → find outbox_key k rows ≡ some row
    → P row
    → All (λ r. r.id ≡ k → P r) rows
under_each P k [] row u e p = tt
under_each P k (x ∷ xs) row u e p = elim (Bool-cases (x.id == k)) [
  | inl t ↦ (
    λ _. subst P (sym (some-inside x row (rw t at e))) p,
    absent-under P k xs (subst (λ j. find outbox_key j xs ≡ none) ((==_iff x.id k).0 t) u.0),
  )
  | inr f ↦ (λ key. ground (arith, f, key), under_each P k xs row u.1 (rw f at e) p)
]

claim-under :
    (k : Uuid) (claims : List ClaimedOutbox) (c : ClaimedOutbox) (rows : List OutboxRow)
    → find claim_key k claims ≡ some c
    → All (IsHeld rows) claims
    → IsHeld rows c × (c.id ≡ k)
claim-under k [] c rows e h = cc
claim-under k (x ∷ xs) c rows e (h, hs) = elim (Bool-cases (x.id == k)) [
  | inl t ↦
      subst (λ z. IsHeld rows z × (z.id ≡ k)) (some-inside x c (rw t at e)) (h, (==_iff x.id k).0 t)
  | inr f ↦ claim-under k xs c rows (rw f at e) hs
]

-- The row of a claim that was just made is not older than the claim.
claimed-NotBefore :
    (rows : List OutboxRow) (c : ClaimedOutbox)
    → Unique outbox_key rows
    → IsHeld rows c
    → All (NotBefore c) rows
claimed-NotBefore rows c u h =
    under_each (λ r. c.version ≤ r.version) c.id rows h.row u h.found
      (omega (arith, held-version c h.row h.held))

module _ (factory : ClaimCandidate → Envelope) (digest : Envelope → List ℕ)
    (new_token : Uuid → Uuid) (locked : Uuid → Bool) where
  -- A claim that is made later is newer.
  claim_rows-newer :
      (claim : ClaimedOutbox) (now expires : ℕ) (worker : String) (limit : ℕ)
      (rs rows : List OutboxRow) (claims : List ClaimedOutbox)
      → All (NotBefore claim) rs
      → claim_rows factory digest new_token locked now expires worker limit rs ≡ ok (rows, claims)
      → All (λ c. c.id ≡ claim.id → claim.version < c.version) claims
  unfolding claim_rows
  claim_rows-newer claim now expires worker limit [] rows claims h e =
      subst (All (λ c. c.id ≡ claim.id → claim.version < c.version)) (ok-pair [] [] rows claims e).1
        tt
  claim_rows-newer claim now expires worker zero (r ∷ rs) rows claims h e =
      subst (All (λ c. c.id ≡ claim.id → claim.version < c.version))
        (ok-pair (r ∷ rs) [] rows claims e).1 tt
  claim_rows-newer claim now expires worker (suc limit) (r ∷ rs) rows claims (h, hs) e =
      elim (Bool-cases (is_due now r && not (locked r.id))) [
        | inl due ↦
            let (filled, f, e1) =
              bind-eq-ok (with_envelope factory digest new_token locked r) _ (rw due at e) in
            let row = claim_row factory digest new_token locked expires worker filled in
            let (c, made, e2) = bind-eq-ok (claimed_outbox row) _ e1 in
            let (rest, l, e3) =
              bind-eq-ok (claim_rows factory digest new_token locked now expires worker limit rs) _
                e2 in
            let (id_kept, version_kept) = filled_keeps factory digest new_token locked r filled f in
            let (_, key, version) =
              claimed_outbox-held factory digest new_token locked expires worker filled c made in
            subst (All (λ d. d.id ≡ claim.id → claim.version < d.version))
              (ok-pair (row ∷ rest.0) (c ∷ rest.1) rows claims e3).1
              (
                λ same. omega (arith, h (sym id_kept ∙ sym key ∙ same), version, version_kept),
                claim_rows-newer claim now expires worker limit rs rest.0 rest.1 hs l,
              )
        | inr not_due ↦
            let (rest, l, e3) =
              bind-eq-ok
                (claim_rows factory digest new_token locked now expires worker (suc limit) rs) _
                (rw not_due at e) in
            subst (All (λ d. d.id ≡ claim.id → claim.version < d.version))
              (ok-pair (r ∷ rest.0) rest.1 rows claims e3).1
              (claim_rows-newer claim now expires worker (suc limit) rs rest.0 rest.1 hs l)
      ]

  newer-under :
      (k v : ℕ) (claims : List ClaimedOutbox) (c : ClaimedOutbox)
      → find claim_key k claims ≡ some c
      → All (λ d. d.id ≡ k → v < d.version) claims
      → v < c.version
  newer-under k v [] c e h = cc
  newer-under k v (x ∷ xs) c e (h, hs) = elim (Bool-cases (x.id == k)) [
    | inl t ↦ subst (λ z. v < z.version) (some-inside x c (rw t at e)) (h ((==_iff x.id k).0 t))
    | inr f ↦ newer-under k v xs c (rw f at e) hs
  ]

  -- What the outbox keeps of a claim, through any calls.
  outbox_run-keeps :
      (claim : ClaimedOutbox) (cs : List OutboxCall) (rows : List OutboxRow)
      → Unique outbox_key rows
      → All (NotBefore claim) rows
      → Unique outbox_key (outbox_run factory digest new_token locked cs rows)
        × All (NotBefore claim) (outbox_run factory digest new_token locked cs rows)
  unfolding outbox_run
  outbox_run-keeps claim [] rows u h = (u, h)
  outbox_run-keeps claim (c ∷ cs) rows u h =
      let next = outbox_step factory digest new_token locked c rows in
      let older = outbox_step-NoOlder factory digest new_token locked c rows in
      outbox_run-keeps claim cs next (NoOlder-Unique rows next older u)
        (NotBefore-NoOlder claim rows next older h)

  -- A batch, with its times converted.
  claim_outbox_batch-rows :
      (now expires : DateTime) (worker : String) (limit : ℕ) (rows mid : List OutboxRow)
      (claims : List ClaimedOutbox)
      → claim_outbox_batch factory digest new_token locked now expires worker limit rows
        ≡ ok (mid, claims)
      → claim_rows factory digest new_token locked now.instant expires.instant worker limit rows
        ≡ ok (mid, claims)
  unfolding claim_outbox_batch naive
  claim_outbox_batch-rows now expires worker limit rows mid claims e = ground arith

  -- With a unique primary key, let a batch claim a row of the outbox and, after any batches and
  -- settlements, a later batch claim that row again. Whatever happens then, a settlement of the
  -- first claim at a UTC time, as published or as given up, reports failure and changes no row.
  pub superseded_claim :
      (k : Uuid) (claim claim' : ClaimedOutbox) (s : Settlement) (rows mid end : List OutboxRow)
      (claims claims' : List ClaimedOutbox) (now expires now' expires' : DateTime)
      (worker worker' : String) (limit limit' : ℕ) (cs cs' : List OutboxCall)
      → Unique outbox_key rows
      → claim_outbox_batch factory digest new_token locked now expires worker limit rows
        ≡ ok (mid, claims)
      → find claim_key k claims ≡ some claim
      → claim_outbox_batch factory digest new_token locked now' expires' worker' limit'
          (outbox_run factory digest new_token locked cs mid)
        ≡ ok (end, claims')
      → find claim_key k claims' ≡ some claim'
      → is_utc (settled_at s) ≡ true
      → settle claim s (outbox_run factory digest new_token locked cs' end)
        ≡ ok (false, outbox_run factory digest new_token locked cs' end)
  superseded_claim k claim claim' s rows mid end claims claims' now expires now' expires' worker
        worker' limit limit' cs cs' u first has again has' utc =
      let first_rows = claim_outbox_batch-rows now expires worker limit rows mid claims first in
      let made =
        claim_rows-IsClaimed factory digest new_token locked now.instant expires.instant worker
          limit rows mid claims u first_rows in
      let (held, key) = claim-under k claims claim mid has made.all_held in
      let later = outbox_run factory digest new_token locked cs mid in
      let (u', not_before) =
        outbox_run-keeps claim cs mid made.unique (claimed-NotBefore mid claim made.unique held) in
      let again_rows =
        claim_outbox_batch-rows now' expires' worker' limit' later end claims' again in
      let made' =
        claim_rows-IsClaimed factory digest new_token locked now'.instant expires'.instant worker'
          limit' later end claims' u' again_rows in
      let (held', key') = claim-under k claims' claim' end has' made'.all_held in
      let newer = newer-under k claim.version claims' claim' has' (
        subst (λ j. All (λ d. d.id ≡ j → claim.version < d.version) claims') key
          (claim_rows-newer claim now'.instant expires'.instant worker' limit' later end claims'
            not_before again_rows)) in
      let stale : All (IsStale claim) end =
        subst (λ j. All (λ r. r.id ≡ j → claim.version < r.version) end) (key' ∙ sym key)
          (under_each (λ r. claim.version < r.version) claim'.id end held'.row made'.unique
            held'.found (omega (arith, newer, held-version claim' held'.row held'.held))) in
      let final = outbox_run factory digest new_token locked cs' end in
      let uncounted =
        IsStale-uncounted claim (settled_row claim s) final
          (outbox_run-IsStale factory digest new_token locked claim cs' end stale) in
      settle-runs claim s final utc
      ∙ rw (update_where-idle outbox_key (is_held claim) (settled_row claim s) final uncounted) refl
