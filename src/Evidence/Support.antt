-- ===== src/Evidence/Support.antt =====
-- What a citation needs of the bundle.
use lawyer_agent.Prelude.{
  ℕ, ◌≤◌, ◌≡◌, refl, sym, ◌∙◌, ◌↔◌, ◌≢◌, true, false, Option, none, some, List, arith,
}
use lawyer_agent.Common.{Uuid}
use lawyer_agent.Evidence.Citations.{
  EvidenceItem, LegalVersionStatus, has_ended, ends_before, effect_reason, item_reason,
  citation_reason, bundle_item,
}

-- An item that took effect on a day and is in force on the target date.
pub IsInForce : ℕ → EvidenceItem → ℕ → Type 0
IsInForce effective_on item target_date =
    (effective_on ≤ target_date)
    × (has_ended item.status ≡ true → item.repealed_on ≢ none)
    × ((repealed_on : ℕ) → item.repealed_on ≡ some repealed_on → target_date ≤ repealed_on)

-- A citation of an item of the bundle that the reader may see, that is published and neither a draft
-- nor of unknown status, and that is in force on the target date.
pub record IsSupported (bundle : List EvidenceItem) (evidence_id : Uuid) (target_date : ℕ)
    : Type 0 where
  pub item : EvidenceItem
  pub in_bundle : bundle_item evidence_id bundle ≡ some item
  pub authorized : item.authorized ≡ true
  pub known : item.status ≢ LegalVersionStatus.status_unknown
  pub final : item.status ≢ LegalVersionStatus.draft
  pub published : item.published_on ≢ none
  pub effective_on : ℕ
  pub effective : item.effective_on ≡ some effective_on
  pub in_force : IsInForce effective_on item target_date

ended :
    (o : Option ℕ) (effective_on target_date : ℕ)
    → ends_before o target_date ≡ false
    → (repealed_on : ℕ) → o ≡ some repealed_on
    → target_date ≤ repealed_on
ended none effective_on target_date h r e = cc
ended (some x) effective_on target_date h r e = ground (arith, h, e)

effect_reason-IsInForce :
    (effective_on : ℕ) (item : EvidenceItem) (target_date : ℕ)
    → (effect_reason effective_on item target_date ≡ none) ↔ IsInForce effective_on item target_date
unfolding effect_reason IsInForce
effect_reason-IsInForce effective_on item target_date = (
  λ e. (
    ground (arith, e),
    λ h n. ground (arith, e, h, n),
    ended item.repealed_on effective_on target_date (ground (arith, e)),
  ),
  λ (since, end, until). go item.repealed_on refl since end until,
)
  where
    go :
        (o : Option ℕ)
        → item.repealed_on ≡ o
        → effective_on ≤ target_date
        → (has_ended item.status ≡ true → item.repealed_on ≢ none)
        → ((repealed_on : ℕ) → item.repealed_on ≡ some repealed_on → target_date ≤ repealed_on)
        → effect_reason effective_on item target_date ≡ none
    go none e since end until = ground (arith, e, since, end)
    go (some r) e since end until = ground (arith, e, since, until r e)

some-none : {A : Type 0} {a : A} → some a ≡ none → ⊥
some-none e = cc

-- What an item of the bundle needs.
abbrev IsCitable : EvidenceItem → ℕ → Type 0
IsCitable item target_date =
    (item.authorized ≡ true)
    × (item.status ≢ LegalVersionStatus.status_unknown)
    × (item.status ≢ LegalVersionStatus.draft)
    × (item.published_on ≢ none)
    × ((effective_on : ℕ) × (item.effective_on ≡ some effective_on)
        × IsInForce effective_on item target_date)

item_reason-IsCitable :
    (item : EvidenceItem) (target_date : ℕ)
    → (item_reason item target_date ≡ none) ↔ IsCitable item target_date
unfolding item_reason
item_reason-IsCitable item target_date = go item.effective_on refl
  where
    go :
        (o : Option ℕ)
        → item.effective_on ≡ o
        → (item_reason item target_date ≡ none) ↔ IsCitable item target_date
    go none e = (λ h. ground (arith, e, h), λ (_, _, _, _, (x, f, _)). cc)
    go (some x) e = (
      λ h. (
        ground (arith, e, h),
        ground (arith, e, h),
        ground (arith, e, h),
        ground (arith, e, h),
        (x, e, (effect_reason-IsInForce x item target_date).0 (ground (arith, e, h))),
      ),
      λ (a, u, d, p, (y, f, force)).
          ground (arith, e, f, a, u, d, p, (effect_reason-IsInForce y item target_date).1 force),
    )

pub citation_reason-IsSupported :
    (bundle : List EvidenceItem) (evidence_id : Uuid) (target_date : ℕ)
    → (citation_reason bundle evidence_id target_date ≡ none)
      ↔ IsSupported bundle evidence_id target_date
unfolding citation_reason
citation_reason-IsSupported bundle evidence_id target_date =
    go (bundle_item evidence_id bundle) refl
  where
    go :
        (o : Option EvidenceItem)
        → bundle_item evidence_id bundle ≡ o
        → (citation_reason bundle evidence_id target_date ≡ none)
          ↔ IsSupported bundle evidence_id target_date
    go none e = (
      λ h. absurd (some-none (rw (e, citation_reason) at h)),
      λ s. absurd (some-none (sym s.in_bundle ∙ e)),
    )
    go (some item) e = (
      λ h.
          let (a, u, d, p, (x, f, force)) =
            (item_reason-IsCitable item target_date).0 (rw (e, citation_reason) at h) in
          record {
            item = item;
            in_bundle = e;
            authorized = a;
            known = u;
            final = d;
            published = p;
            effective_on = x;
            effective = f;
            in_force = force;
          },
      λ s.
          rw (s.in_bundle, citation_reason)
            ((item_reason-IsCitable s.item target_date).1 (
              s.authorized,
              s.known,
              s.final,
              s.published,
              (s.effective_on, s.effective, s.in_force),
            )),
    )
