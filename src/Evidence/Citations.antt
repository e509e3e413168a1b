-- ===== src/Evidence/Citations.antt =====
-- `EvidenceItem`, `EvidenceBundle` and `CitationGate`.
use lawyer_agent.Prelude.{
  ℕ, Bool, true, false, not, ◌&&◌, Option, none, some, List, [], ◌∷◌, String, map, distinct,
  is_none, is_empty, ltb, ◌==◌, if◌then◌else◌, Result, ok, guard, ◌>>=◌, ◌>>◌,
}
use lawyer_agent.Common.{Uuid, require_uuid7}

pub data LegalVersionStatus : Type 0 where
  current repealed status_unknown historical draft : LegalVersionStatus

pub record EvidenceItem : Type 0 where
  pub evidence_id : Uuid
  pub instrument_title : String
  pub version_id : Uuid
  pub version_label : String
  pub status : LegalVersionStatus
  pub published_on : Option ℕ
  pub effective_on : Option ℕ
  pub repealed_on : Option ℕ
  pub provision_no : String
  pub provision_text : String
  pub source_ref : String
  pub dataset_version : String
  pub authorized : Bool

-- `EvidenceItem.__post_init__`
unfoldable pub check_evidence_item : EvidenceItem → Result String (Unit {0})
unfolding require_uuid7
check_evidence_item item = do
  _ ← require_uuid7 item.evidence_id "evidence id"
  _ ← require_uuid7 item.version_id "evidence version id"
  guard (not (is_empty item.instrument_title)) "evidence instrument title must be non-empty"
  guard (not (is_empty item.provision_no)) "evidence provision number must be non-empty"
  guard (not (is_empty item.provision_text)) "evidence provision text must be non-empty"

abbrev evidence_key : EvidenceItem → Uuid
evidence_key item = item.evidence_id

abbrev no_items : List EvidenceItem → Bool
no_items [] = true
no_items (_ ∷ _) = false

-- `EvidenceBundle.__init__`: a bundle is the list of its items.
unfoldable pub new_bundle : List EvidenceItem → Result String (List EvidenceItem)
new_bundle items = do
  guard (not (no_items items)) "an evidence bundle must not be empty"
  guard (distinct (map evidence_key items)) "evidence ids must be unique within a bundle"
  ok items

-- `self._by_id.get(evidence_id)`, whose keys are unique.
abbrev pub bundle_item : Uuid → List EvidenceItem → Option EvidenceItem
bundle_item evidence_id [] = none
bundle_item evidence_id (item ∷ items) =
    if item.evidence_id == evidence_id then some item else bundle_item evidence_id items

pub record Citation : Type 0 where
  pub claim_index : ℕ
  pub evidence_id : Uuid

pub record CitationVerdict : Type 0 where
  pub allowed : Bool
  pub reason : String
  pub claim_index : Option ℕ
  pub evidence_id : Option Uuid

abbrev is_status_unknown : LegalVersionStatus → Bool
is_status_unknown LegalVersionStatus.status_unknown = true
is_status_unknown _ = false

abbrev is_draft : LegalVersionStatus → Bool
is_draft LegalVersionStatus.draft = true
is_draft _ = false

-- `item.status in {REPEALED, HISTORICAL}`
abbrev pub has_ended : LegalVersionStatus → Bool
has_ended LegalVersionStatus.repealed = true
has_ended LegalVersionStatus.historical = true
has_ended _ = false

-- `repealed_on is not None and repealed_on < day`
abbrev pub ends_before : Option ℕ → ℕ → Bool
ends_before none day = false
ends_before (some repealed_on) day = ltb repealed_on day

-- The checks of `_verify_one` on the dates of an item that took effect.
unfoldable pub effect_reason : ℕ → EvidenceItem → ℕ → Option String
effect_reason effective_on item target_date =
    if has_ended item.status && is_none item.repealed_on
    then some "end_date_unknown"
    else (if ends_before item.repealed_on effective_on
        then some "effective_date_conflict"
        else (if ltb target_date effective_on
            then some "not_effective_on_target_date"
            else (if ends_before item.repealed_on target_date
                then some "repealed_on_target_date"
                else none)))

-- The checks of `_verify_one` on an item of the bundle: the reason to refuse it.
unfoldable pub item_reason : EvidenceItem → ℕ → Option String
unfolding effect_reason
item_reason item target_date =
    let dated = elim item.effective_on as (λ x. Option String) [
      | none ↦ some "effective_date_unknown"
      | some effective_on ↦ effect_reason effective_on item target_date
    ] in
    if not item.authorized
    then some "evidence_not_authorized"
    else (if is_status_unknown item.status
        then some "effective_status_unknown"
        else (if is_draft item.status
            then some "draft_not_effective"
            else (if is_none item.published_on then some "published_date_unknown" else dated)))

unfoldable pub citation_reason : List EvidenceItem → Uuid → ℕ → Option String
unfolding item_reason
citation_reason bundle evidence_id target_date = elim (bundle_item evidence_id bundle) [
  | none ↦ some "evidence_not_in_bundle"
  | some item ↦ item_reason item target_date
]

abbrev pub verdict_of : Citation → Option String → CitationVerdict
verdict_of citation (some reason) = record {
  allowed = false;
  reason = reason;
  claim_index = some citation.claim_index;
  evidence_id = some citation.evidence_id;
}
verdict_of citation none = record {
  allowed = true;
  reason = "allowed";
  claim_index = some citation.claim_index;
  evidence_id = some citation.evidence_id;
}

-- `CitationGate._verify_one`
unfoldable pub verify_one : List EvidenceItem → ℕ → Citation → CitationVerdict
unfolding citation_reason
verify_one bundle target_date citation =
    verdict_of citation (citation_reason bundle citation.evidence_id target_date)

-- `CitationGate.verify`
unfoldable pub verify_citations : List EvidenceItem → List Citation → ℕ → List CitationVerdict
unfolding verify_one
verify_citations bundle citations target_date = map (verify_one bundle target_date) citations
