-- ===== src/Evidence/Claims.antt =====
-- `LegalClaim` and `LegalClaimGate`, over the citation gate.
use Prim.Native.String.{◌++◌ as str_append}
use lawyer_agent.Prelude.{
  ℕ, suc, Bool, true, false, not, ◌&&◌, Option, none, some, List, [], ◌∷◌, ◌++◌, String, map, all,
  keep, distinct, is_blank, if◌then◌else◌, ◌==◌, Result, guard, ◌>>◌,
}
use lawyer_agent.Common.{Uuid, is_uuid7}
use lawyer_agent.Evidence.Citations.{EvidenceItem, Citation, CitationVerdict, verify_citations}

pub record LegalClaim : Type 0 where
  pub text : String
  pub evidence_ids : List Uuid

abbrev no_ids : List Uuid → Bool
no_ids [] = true
no_ids (_ ∷ _) = false

-- `LegalClaim.__post_init__`
unfoldable pub check_legal_claim : LegalClaim → Result String (Unit {0})
check_legal_claim claim = do
  guard (not (is_blank claim.text)) "claim text must be non-empty text"
  guard (not (no_ids claim.evidence_ids)) "claim must bind at least one evidence id"
  guard (distinct claim.evidence_ids) "claim evidence ids must be unique"
  guard (all is_uuid7 claim.evidence_ids) "claim evidence id must be a UUIDv7"

pub record LegalClaimVerdict : Type 0 where
  pub claim_index : ℕ
  pub allowed : Bool
  pub reason : String
  pub evidence_id : Option Uuid

pub record LegalClaimGateResult : Type 0 where
  pub allowed : Bool
  pub refused : Bool
  pub reason : String
  pub verdicts : List LegalClaimVerdict

abbrev pub citation_at : ℕ → Uuid → Citation
citation_at index evidence_id = record { claim_index = index; evidence_id = evidence_id }

-- The citations of the claims, numbered from `index`.
unfoldable pub citations_from : ℕ → List LegalClaim → List Citation
citations_from index [] = []
citations_from index (claim ∷ claims) =
    map (citation_at index) claim.evidence_ids ++ citations_from (suc index) claims

-- A verdict of `by_claim[index]` that is not allowed.
unfoldable pub is_blocked_at : ℕ → CitationVerdict → Bool
is_blocked_at index verdict =
    elim verdict.claim_index as (λ x. Bool) [ none ↦ false | some i ↦ i == index ]
    && not verdict.allowed

-- One turn of the loop over the claims, with the blocked verdicts of the claim.
abbrev pub claim_verdict : ℕ → List CitationVerdict → LegalClaimVerdict
claim_verdict index [] = record {
  claim_index = index;
  allowed = true;
  reason = "allowed";
  evidence_id = none;
}
claim_verdict index (first_blocked ∷ _) = record {
  claim_index = index;
  allowed = false;
  reason = first_blocked.reason;
  evidence_id = first_blocked.evidence_id;
}

unfoldable pub claim_verdicts : ℕ → List LegalClaim → List CitationVerdict → List LegalClaimVerdict
unfolding is_blocked_at
claim_verdicts index [] verdicts = []
claim_verdicts index (claim ∷ claims) verdicts =
    claim_verdict index (keep (is_blocked_at index) verdicts)
    ∷ claim_verdicts (suc index) claims verdicts

-- `overall_allowed` and `first_failure` after the loop: the reason of the first refused claim.
unfoldable pub first_refusal : List LegalClaimVerdict → Option String
first_refusal [] = none
first_refusal (verdict ∷ verdicts) =
    let later = first_refusal verdicts in if verdict.allowed then later else some verdict.reason

abbrev pub gate_result : List LegalClaimVerdict → Option String → LegalClaimGateResult
gate_result verdicts none = record {
  allowed = true;
  refused = false;
  reason = "allowed";
  verdicts = verdicts;
}
gate_result verdicts (some first_failure) = record {
  allowed = false;
  refused = true;
  reason = str_append "claim_not_supported:" first_failure;
  verdicts = verdicts;
}

-- `LegalClaimGate.verify`
unfoldable pub verify_claims : List EvidenceItem → List LegalClaim → ℕ → LegalClaimGateResult
unfolding verify_citations citations_from claim_verdicts first_refusal
verify_claims bundle [] target_date = record {
  allowed = false;
  refused = true;
  reason = "no_claims";
  verdicts = [];
}
verify_claims bundle (claim ∷ claims) target_date =
    let verdicts = verify_citations bundle (citations_from 0 (claim ∷ claims)) target_date in
    let found = claim_verdicts 0 (claim ∷ claims) verdicts in
    gate_result found (first_refusal found)
