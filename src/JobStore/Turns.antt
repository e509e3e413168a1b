-- ===== src/JobStore/Turns.antt =====
-- One turn of the loop of `publish_batch` (application/ai_job_runtime.py) on a claim that is held.
use lawyer_agent.Prelude.{
  ◌≡◌, refl, ◌∙◌, true, false, Option, none, some, List, [], ◌∷◌, arith, All, ok, ◌==◌, leb,
  if◌then◌else◌,
}
use lawyer_agent.Common.{Uuid, DateTime, is_utc}
use lawyer_agent.JobStore.Tables.{
  find, find-key, changed, Unique, update_where, find-update_where, count-update_where,
  update_where-Unique,
}
use lawyer_agent.JobStore.Messages.{OutboxRow, OutboxStatus, ClaimedOutbox, outbox_key}
use lawyer_agent.JobStore.Outbox.{is_held, published_row, blocked_row, released_row}
use lawyer_agent.JobStore.Settlements.{
  Settlement, settle, settled_row, settled_row-keeps, settle-runs,
}
use lawyer_agent.JobStore.Holding.{claim_key, IsHeld}
use lawyer_agent.JobStore.Publishing.{
  PublishReceipt, publish_one, error_or_timeout, give_up, after_marking,
}

-- How a publisher settles a claim by the broker's receipt.
abbrev pub settlement : PublishReceipt → DateTime → Settlement
settlement receipt now =
    if receipt.confirmed
    then Settlement.confirms now
    else Settlement.gives_up (error_or_timeout receipt.error_code) now

pub settlement_rows : ClaimedOutbox → PublishReceipt → DateTime → List OutboxRow → List OutboxRow
settlement_rows c receipt now rows =
    (update_where (is_held c) (settled_row c (settlement receipt now)) rows).0

pub held-id : (c : ClaimedOutbox) (r : OutboxRow) → is_held c r ≡ true → outbox_key r ≡ c.id
unfolding is_held
held-id c r h = ground arith

-- The settlement of a claim that names its row changes that one row.
pub settle-held :
    (c : ClaimedOutbox) (s : Settlement) (now : DateTime) (rows : List OutboxRow)
    → Unique outbox_key rows
    → IsHeld rows c
    → is_utc now ≡ true
    → ((update_where (is_held c) (settled_row c s) rows).1 == 1) ≡ true
settle-held c s now rows u h utc =
    rw
      (
        count-update_where outbox_key (is_held c) (settled_row c s) c.id rows (λ r e. held-id c r e)
            u,
        h.found,
        h.held,
      )
      refl

pub publish_one-settles :
    (receipt : PublishReceipt) (c : ClaimedOutbox) (now : DateTime) (rows : List OutboxRow)
    → Unique outbox_key rows
    → IsHeld rows c
    → is_utc now ≡ true
    → publish_one receipt c now rows ≡ (ok receipt.confirmed, settlement_rows c receipt now rows)
unfolding publish_one after_marking give_up settlement_rows settle
publish_one-settles receipt c now rows u h utc =
    elim receipt.confirmed
        as (λ x.
          receipt.confirmed ≡ x
          → publish_one receipt c now rows
            ≡ (ok receipt.confirmed, settlement_rows c receipt now rows)) [
              | true ↦ λ t.
                  rw
                    (
                      t,
                      settle-runs c (Settlement.confirms now) rows utc,
                      settle-held c (Settlement.confirms now) now rows u h utc,
                    )
                    refl
              | false ↦ λ f.
                  rw
                    (
                      f,
                      settle-runs c (Settlement.gives_up (error_or_timeout receipt.error_code) now)
                          rows utc,
                    )
                    refl
            ]
      refl

pub settled-keeps_key :
    (c : ClaimedOutbox) (s : Settlement) (r : OutboxRow)
    → outbox_key (settled_row c s r) ≡ outbox_key r
settled-keeps_key c s r = (settled_row-keeps c s r).0

-- A row under another key stays as it is.
pub kept-row :
    (c : ClaimedOutbox) (s : Settlement) (j : Uuid) (o : Option OutboxRow)
    → (c.id == j) ≡ false
    → ((r : OutboxRow) → o ≡ some r → outbox_key r ≡ j)
    → changed (is_held c) (settled_row c s) o ≡ o
unfolding is_held
kept-row c s j none differs keys = refl
kept-row c s j (some r) differs keys = ground (arith, keys r refl)

pub settlement_rows-other :
    (c : ClaimedOutbox) (receipt : PublishReceipt) (now : DateTime) (rows : List OutboxRow)
    (j : Uuid)
    → (c.id == j) ≡ false
    → find outbox_key j (settlement_rows c receipt now rows) ≡ find outbox_key j rows
unfolding settlement_rows
settlement_rows-other c receipt now rows j differs =
    find-update_where outbox_key (is_held c) (settled_row c (settlement receipt now)) j rows
      (settled-keeps_key c (settlement receipt now))
    ∙ kept-row c (settlement receipt now) j (find outbox_key j rows) differs
        (λ r e. find-key outbox_key j rows r e)

-- The status that a receipt gives the row of its claim.
abbrev pub outcome : PublishReceipt → ClaimedOutbox → OutboxStatus
outcome receipt c =
    if receipt.confirmed
    then OutboxStatus.published
    else if leb c.max_publish_attempts c.publish_attempt_count
    then OutboxStatus.blocked
    else OutboxStatus.pending

pub settled-status :
    (c : ClaimedOutbox) (receipt : PublishReceipt) (now : DateTime) (r : OutboxRow)
    → (settled_row c (settlement receipt now) r).status ≡ outcome receipt c
unfolding settled_row published_row blocked_row released_row
settled-status c receipt now r = ground arith

pub settlement_rows-own :
    (c : ClaimedOutbox) (receipt : PublishReceipt) (now : DateTime) (rows : List OutboxRow)
    → (h : IsHeld rows c)
    → find outbox_key c.id (settlement_rows c receipt now rows)
      ≡ some (settled_row c (settlement receipt now) h.row)
unfolding settlement_rows
settlement_rows-own c receipt now rows h =
    find-update_where outbox_key (is_held c) (settled_row c (settlement receipt now)) c.id rows
      (settled-keeps_key c (settlement receipt now))
    ∙ rw (h.found, h.held) refl

pub settlement_rows-Unique :
    (c : ClaimedOutbox) (receipt : PublishReceipt) (now : DateTime) (rows : List OutboxRow)
    → Unique outbox_key rows
    → Unique outbox_key (settlement_rows c receipt now rows)
unfolding settlement_rows
settlement_rows-Unique c receipt now rows u =
    update_where-Unique outbox_key (is_held c) (settled_row c (settlement receipt now)) rows
      (settled-keeps_key c (settlement receipt now)) u

-- The other claims stay held.
pub others-IsHeld :
    (c : ClaimedOutbox) (receipt : PublishReceipt) (now : DateTime) (rows : List OutboxRow)
    (cs : List ClaimedOutbox)
    → find claim_key c.id cs ≡ none
    → All (IsHeld rows) cs
    → All (IsHeld (settlement_rows c receipt now rows)) cs
others-IsHeld c receipt now rows [] fresh h = tt
others-IsHeld c receipt now rows (d ∷ ds) fresh (h, hs) = (
  record {
    row = h.row;
    found = settlement_rows-other c receipt now rows d.id (ground (arith, fresh)) ∙ h.found;
    held = h.held;
  },
  others-IsHeld c receipt now rows ds (ground (arith, fresh)) hs,
)
