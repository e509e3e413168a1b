-- ===== src/JobStore/Settling.antt =====
-- Sequences of transactions on the outbox, and the claims that they leave behind.
use mathlib.Core.Path.{subst}
use lawyer_agent.Prelude.{
  ℕ, ◌≡◌, refl, sym, ◌∙◌, inl, inr, Bool, true, false, none, List, [], ◌∷◌, ◌==◌, arith, String,
  Result, ok, err, bind-eq-ok, All, Bool-cases,
}
use lawyer_agent.Common.{Uuid, DateTime, is_utc}
use lawyer_agent.JobStore.Tables.{find, update_where, Unique, update_where-idle}
use lawyer_agent.JobStore.Rows.{naive}
use lawyer_agent.JobStore.Messages.{OutboxRow, ClaimedOutbox, ClaimCandidate, Envelope, outbox_key}
use lawyer_agent.JobStore.Outbox.{claim_outbox_batch, is_held}
use lawyer_agent.JobStore.Settlements.{
  Settlement, settle, NoOlder, NoOlder-refl, update_where-NoOlder, settled_at, settled_row, IsStale,
  settled_row-keeps, settle-inverts, settle-runs, claim_rows-NoOlder,
}

-- What may happen to the outbox: a publisher claims a batch, or settles a claim.
pub data OutboxCall : Type 0 where
  claims : DateTime → DateTime → String → ℕ → OutboxCall
  settles : ClaimedOutbox → Settlement → OutboxCall

-- What a transaction leaves: the new rows, or the old ones when it raised.
abbrev kept {ℓ} :
    {A : Type ℓ} → (A → List OutboxRow) → Result String A → List OutboxRow → List OutboxRow
kept rows_of (ok a) rows = rows_of a
kept rows_of (err e) rows = rows

-- Every row that shares the claim's id has moved past the version that the claim names.
IsStale-NoOlder :
    (claim : ClaimedOutbox) (xs ys : List OutboxRow)
    → NoOlder xs ys
    → All (IsStale claim) xs
    → All (IsStale claim) ys
IsStale-NoOlder claim [] [] n h = tt
IsStale-NoOlder claim [] (y ∷ ys) n h = absurd n
IsStale-NoOlder claim (x ∷ xs) [] n h = absurd n
IsStale-NoOlder claim (x ∷ xs) (y ∷ ys) (key, v, n) (h, hs) =
    (λ e. omega (arith, h (sym key ∙ e), v), IsStale-NoOlder claim xs ys n hs)

-- Such a table has no row that the claim holds.
pub IsStale-uncounted :
    (claim : ClaimedOutbox) (change : OutboxRow → OutboxRow) (xs : List OutboxRow)
    → All (IsStale claim) xs
    → (update_where (is_held claim) change xs).1 ≡ 0
unfolding is_held
IsStale-uncounted claim change [] h = refl
IsStale-uncounted claim change (x ∷ xs) (h, hs) =
    ground (arith, h, IsStale-uncounted claim change xs hs)

pub absent-IsStale :
    (claim : ClaimedOutbox) (xs : List OutboxRow)
    → find outbox_key claim.id xs ≡ none
    → All (IsStale claim) xs
absent-IsStale claim [] e = tt
absent-IsStale claim (x ∷ xs) e =
    (λ key. ground (arith, e, key), absent-IsStale claim xs (ground (arith, e)))

pub held-id : (claim : ClaimedOutbox) (r : OutboxRow) → is_held claim r ≡ true → r.id ≡ claim.id
unfolding is_held
held-id claim r h = ground arith

pub held-version :
    (claim : ClaimedOutbox) (r : OutboxRow) → is_held claim r ≡ true → r.version ≡ claim.version
unfolding is_held
held-version claim r h = ground arith

uncounted-not-one : (n : ℕ) → n ≡ 0 → (n == 1) ≡ true → ⊥
uncounted-not-one n e h = ground arith

-- A settlement that changed a row has moved it past the claim's version.
settled-IsStale :
    (claim : ClaimedOutbox) (s : Settlement) (xs : List OutboxRow)
    → Unique outbox_key xs
    → ((update_where (is_held claim) (settled_row claim s) xs).1 == 1) ≡ true
    → All (IsStale claim) (update_where (is_held claim) (settled_row claim s) xs).0
settled-IsStale claim s [] u h = tt
settled-IsStale claim s (x ∷ xs) u h = elim (Bool-cases (is_held claim x)) [
  | inl held ↦ rw held (
    λ e. omega (arith, (settled_row-keeps claim s x).1, held-version claim x held),
    IsStale-NoOlder claim xs _
        (update_where-NoOlder (is_held claim) (settled_row claim s) xs
          (λ r. (settled_row-keeps claim s r).0)
          (λ r. omega (arith, (settled_row-keeps claim s r).1)))
        (absent-IsStale claim xs
          (subst (λ k. find outbox_key k xs ≡ none) (held-id claim x held) u.0)),
  )
  | inr not_held ↦ rw not_held (
    λ e. absurd (
        uncounted-not-one (update_where (is_held claim) (settled_row claim s) xs).1
          (IsStale-uncounted claim (settled_row claim s) xs
            (absent-IsStale claim xs (subst (λ k. find outbox_key k xs ≡ none) e u.0)))
          (rw not_held at h)),
    settled-IsStale claim s xs u.1 (rw not_held at h),
  )
]

module _ (factory : ClaimCandidate → Envelope) (digest : Envelope → List ℕ)
    (new_token : Uuid → Uuid) (locked : Uuid → Bool) where
  -- One transaction on the outbox.
  unfoldable pub outbox_step : OutboxCall → List OutboxRow → List OutboxRow
  unfolding claim_outbox_batch settle
  outbox_step (claims now expires worker limit) rows =
      kept (λ p. p.0)
        (claim_outbox_batch factory digest new_token locked now expires worker limit rows) rows
  outbox_step (settles claim s) rows = kept (λ p. p.1) (settle claim s rows) rows

  unfoldable pub outbox_run : List OutboxCall → List OutboxRow → List OutboxRow
  unfolding outbox_step
  outbox_run [] rows = rows
  outbox_run (c ∷ cs) rows = outbox_run cs (outbox_step c rows)

  kept-NoOlder :
      {A : Type 0} (rows_of : A → List OutboxRow) (m : Result String A) (rows : List OutboxRow)
      → ((a : A) → m ≡ ok a → NoOlder rows (rows_of a))
      → NoOlder rows (kept rows_of m rows)
  kept-NoOlder rows_of (ok a) rows h = h a refl
  kept-NoOlder rows_of (err e) rows h = NoOlder-refl rows

  pub outbox_step-NoOlder :
      (c : OutboxCall) (rows : List OutboxRow) → NoOlder rows (outbox_step c rows)
  unfolding outbox_step claim_outbox_batch
  outbox_step-NoOlder (claims now expires worker limit) rows =
      kept-NoOlder (λ p. p.0)
        (claim_outbox_batch factory digest new_token locked now expires worker limit rows) rows
        (λ (rows', out) e.
          let (n, _, e1) = bind-eq-ok (naive now) _ e in
          let (n', _, e2) = bind-eq-ok (naive expires) _ e1 in
          claim_rows-NoOlder factory digest new_token locked n n' worker limit rows rows' out e2)
  outbox_step-NoOlder (settles claim s) rows =
      kept-NoOlder (λ p. p.1) (settle claim s rows) rows
        (λ (b, rows') e. subst (NoOlder rows) (settle-inverts claim s rows rows' b e).0 (
          update_where-NoOlder (is_held claim) (settled_row claim s) rows
            (λ r. (settled_row-keeps claim s r).0)
            (λ r. omega (arith, (settled_row-keeps claim s r).1))))

  pub outbox_run-IsStale :
      (claim : ClaimedOutbox) (cs : List OutboxCall) (rows : List OutboxRow)
      → All (IsStale claim) rows
      → All (IsStale claim) (outbox_run cs rows)
  unfolding outbox_run
  outbox_run-IsStale claim [] rows h = h
  outbox_run-IsStale claim (c ∷ cs) rows h =
      outbox_run-IsStale claim cs (outbox_step c rows)
        (IsStale-NoOlder claim rows (outbox_step c rows) (outbox_step-NoOlder c rows) h)

  -- With a unique primary key, a claim on an outbox row is settled at most once, as published or as
  -- given up: after a settlement that took effect, and whatever batches are claimed and claims
  -- settled then, any settlement of the same claim at a UTC time reports failure and changes no row.
  pub settle_once :
      (claim : ClaimedOutbox) (s s' : Settlement) (rows rows' : List OutboxRow)
      (cs : List OutboxCall)
      → Unique outbox_key rows
      → settle claim s rows ≡ ok (true, rows')
      → is_utc (settled_at s') ≡ true
      → settle claim s' (outbox_run cs rows') ≡ ok (false, outbox_run cs rows')
  settle_once claim s s' rows rows' cs u e utc =
      let (after, one) = settle-inverts claim s rows rows' true e in
      let stale =
        outbox_run-IsStale claim cs rows'
          (subst (All (IsStale claim)) after (settled-IsStale claim s rows u one)) in
      settle-runs claim s' (outbox_run cs rows') utc
      ∙ rw
          (update_where-idle outbox_key (is_held claim) (settled_row claim s') (outbox_run cs rows')
            (IsStale-uncounted claim (settled_row claim s') (outbox_run cs rows') stale))
          refl
