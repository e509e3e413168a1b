-- ===== src/JobStore/Holding.antt =====
-- What a claimed batch holds: each claim names one row of the table, as that row stands.
use mathlib.Core.Path.{subst}
use lawyer_agent.Prelude.{
  ℕ, zero, suc, ◌+◌, ◌≡◌, refl, sym, inl, inr, Bool, true, not, ◌&&◌, none, some, List, [], ◌∷◌,
  String, arith, ◌==◌, All, ok, bind-eq-ok, Bool-cases, ok-pair,
}
use lawyer_agent.Common.{Uuid}
use lawyer_agent.JobStore.Tables.{find, Unique}
use lawyer_agent.JobStore.Messages.{OutboxRow, ClaimedOutbox, ClaimCandidate, Envelope, outbox_key}
use lawyer_agent.JobStore.Outbox.{
  is_due, with_envelope, claim_row, claim_rows, claimed_outbox, is_held,
}
use lawyer_agent.JobStore.Settlements.{NoOlder, claim_rows-NoOlder, filled_keeps}

abbrev pub claim_key : ClaimedOutbox → Uuid
claim_key c = c.id

-- The claim names a row as it stands.
pub record IsHeld (rows : List OutboxRow) (c : ClaimedOutbox) : Type 0 where
  pub row : OutboxRow
  pub found : find outbox_key c.id rows ≡ some row
  pub held : is_held c row ≡ true

pub NoOlder-none :
    (k : ℕ) (xs ys : List OutboxRow)
    → NoOlder xs ys
    → find outbox_key k xs ≡ none
    → find outbox_key k ys ≡ none
NoOlder-none k [] [] n e = refl
NoOlder-none k [] (y ∷ ys) n e = absurd n
NoOlder-none k (x ∷ xs) [] n e = absurd n
NoOlder-none k (x ∷ xs) (y ∷ ys) (key, _, n) e = ground (arith, key, e, NoOlder-none k xs ys n)

pub NoOlder-Unique :
    (xs ys : List OutboxRow) → NoOlder xs ys → Unique outbox_key xs → Unique outbox_key ys
NoOlder-Unique [] [] n u = tt
NoOlder-Unique [] (y ∷ ys) n u = absurd n
NoOlder-Unique (x ∷ xs) [] n u = absurd n
NoOlder-Unique (x ∷ xs) (y ∷ ys) (key, _, n) (fresh, u) = (
  NoOlder-none y.id xs ys n (subst (λ k. find outbox_key k xs ≡ none) (sym key) fresh),
  NoOlder-Unique xs ys n u,
)

-- A claim that is read off a row that is being published holds it.
pub claimed_outbox-held :
    (factory : ClaimCandidate → Envelope) (digest : Envelope → List ℕ) (new_token : Uuid → Uuid)
    (locked : Uuid → Bool) (expires : ℕ) (worker : String) (r : OutboxRow) (c : ClaimedOutbox)
    → claimed_outbox (claim_row factory digest new_token locked expires worker r) ≡ ok c
    → (is_held c (claim_row factory digest new_token locked expires worker r) ≡ true)
      × (c.id ≡ r.id)
      × (c.version ≡ r.version + 1)
unfolding claimed_outbox claim_row is_held
claimed_outbox-held factory digest new_token locked expires worker r c e = ground arith

found-fresh :
    (j k : Uuid) (rows : List OutboxRow) (row : OutboxRow)
    → (j == k) ≡ true
    → find outbox_key k rows ≡ some row
    → find outbox_key j rows ≡ none
    → ⊥
found-fresh j k rows row t e f = ground arith

-- A row under another key is found behind a new first row.
IsHeld-behind :
    (r : OutboxRow) (rows : List OutboxRow) (claims : List ClaimedOutbox)
    → find outbox_key r.id rows ≡ none
    → All (IsHeld rows) claims
    → All (IsHeld (r ∷ rows)) claims × (find claim_key r.id claims ≡ none)
IsHeld-behind r rows [] fresh h = (tt, refl)
IsHeld-behind r rows (c ∷ cs) fresh (h, hs) =
    let (later, none_there) = IsHeld-behind r rows cs fresh hs in
    elim (Bool-cases (r.id == c.id)) [
      | inl t ↦ absurd (found-fresh r.id c.id rows h.row t h.found fresh)
      | inr f ↦ (
        (record { row = h.row; found = rw f h.found; held = h.held }, later),
        ground (arith, f, none_there),
      )
    ]

-- What a batch that was claimed leaves: unique keys, one claim for a row, and each claim held.
pub record IsClaimed (rows : List OutboxRow) (claims : List ClaimedOutbox) : Type 0 where
  pub unique : Unique outbox_key rows
  pub distinct_claims : Unique claim_key claims
  pub all_held : All (IsHeld rows) claims

IsClaimed-behind :
    (r : OutboxRow) (rows : List OutboxRow) (claims : List ClaimedOutbox)
    → find outbox_key r.id rows ≡ none
    → IsClaimed rows claims
    → IsClaimed (r ∷ rows) claims
IsClaimed-behind r rows claims fresh h = record {
  unique = (fresh, h.unique);
  distinct_claims = h.distinct_claims;
  all_held = (IsHeld-behind r rows claims fresh h.all_held).0;
}

IsClaimed-first :
    (r : OutboxRow) (rows : List OutboxRow) (c : ClaimedOutbox) (claims : List ClaimedOutbox)
    → find outbox_key r.id rows ≡ none
    → is_held c r ≡ true
    → c.id ≡ r.id
    → IsClaimed rows claims
    → IsClaimed (r ∷ rows) (c ∷ claims)
IsClaimed-first r rows c claims fresh held key h =
    let (later, none_there) = IsHeld-behind r rows claims fresh h.all_held in
    record {
      unique = (fresh, h.unique);
      distinct_claims =
          (subst (λ k. find claim_key k claims ≡ none) (sym key) none_there, h.distinct_claims);
      all_held = (record { row = r; found = ground (arith, key); held = held }, later);
    }

module _ (factory : ClaimCandidate → Envelope) (digest : Envelope → List ℕ)
    (new_token : Uuid → Uuid) (locked : Uuid → Bool) where
  pub claim_rows-IsClaimed :
      (now expires : ℕ) (worker : String) (limit : ℕ) (rs rows : List OutboxRow)
      (claims : List ClaimedOutbox)
      → Unique outbox_key rs
      → claim_rows factory digest new_token locked now expires worker limit rs ≡ ok (rows, claims)
      → IsClaimed rows claims
  unfolding claim_rows claim_row
  claim_rows-IsClaimed now expires worker limit [] rows claims u e =
      let (a, b) = ok-pair [] [] rows claims e in
      subst (λ x. IsClaimed x claims) a
        (subst (IsClaimed []) b (record { unique = tt; distinct_claims = tt; all_held = tt }))
  claim_rows-IsClaimed now expires worker zero (r ∷ rs) rows claims u e =
      let (a, b) = ok-pair (r ∷ rs) [] rows claims e in
      subst (λ x. IsClaimed x claims) a
        (subst (IsClaimed (r ∷ rs)) b (record { unique = u; distinct_claims = tt; all_held = tt }))
  claim_rows-IsClaimed now expires worker (suc limit) (r ∷ rs) rows claims u e =
      elim (Bool-cases (is_due now r && not (locked r.id))) [
        | inl due ↦
            let (filled, f, e1) =
              bind-eq-ok (with_envelope factory digest new_token locked r) _ (rw due at e) in
            let row = claim_row factory digest new_token locked expires worker filled in
            let (claim, c, e2) = bind-eq-ok (claimed_outbox row) _ e1 in
            let (rest, l, e3) =
              bind-eq-ok (claim_rows factory digest new_token locked now expires worker limit rs) _
                e2 in
            let (a, b) = ok-pair (row ∷ rest.0) (claim ∷ rest.1) rows claims e3 in
            let keeps = filled_keeps factory digest new_token locked r filled f in
            let (held, key, _) =
              claimed_outbox-held factory digest new_token locked expires worker filled claim c in
            let behind =
              claim_rows-NoOlder factory digest new_token locked now expires worker limit rs rest.0
                rest.1 l in
            subst (λ x. IsClaimed x claims) a
              (subst (IsClaimed (row ∷ rest.0)) b (
                IsClaimed-first row rest.0 claim rest.1
                  (NoOlder-none row.id rs rest.0 behind
                    (subst (λ k. find outbox_key k rs ≡ none) (sym keeps.0) u.0))
                  held key (claim_rows-IsClaimed now expires worker limit rs rest.0 rest.1 u.1 l)))
        | inr not_due ↦
            let (rest, l, e3) =
              bind-eq-ok
                (claim_rows factory digest new_token locked now expires worker (suc limit) rs) _
                (rw not_due at e) in
            let (a, b) = ok-pair (r ∷ rest.0) rest.1 rows claims e3 in
            let behind =
              claim_rows-NoOlder factory digest new_token locked now expires worker (suc limit) rs
                rest.0 rest.1 l in
            subst (λ x. IsClaimed x claims) a
              (subst (IsClaimed (r ∷ rest.0)) b (
                IsClaimed-behind r rest.0 rest.1 (NoOlder-none r.id rs rest.0 behind u.0)
                  (claim_rows-IsClaimed now expires worker (suc limit) rs rest.0 rest.1 u.1 l)))
      ]
