-- ===== src/Examples/Texts.antt =====
-- Windows over a text of twelve characters, with a full stop at the sixth, and a claim on one item.
use lawyer_agent.Prelude.{Option, ok, ℕ, ◌≡◌, refl, none, some, List, [], ◌∷◌, true, ◌↔◌, ◌≢◌, All}
use lawyer_agent.Chunks.Windows.{validate_settings, window_pieces_with_offsets, Piece}
use lawyer_agent.Evidence.Citations.{EvidenceItem, LegalVersionStatus}
use lawyer_agent.Evidence.Claims.{LegalClaim, verify_claims}
use lawyer_agent.Evidence.Support.{IsSupported}
use lawyer_agent.Evidence.Publication.{verify_claims-allowed}
use lawyer_agent.Reviews.{ReviewDecision, ReviewStatus, review_after}
use lawyer_agent.Reviews.Approval.{review_after-approved}
use lawyer_agent.Examples.Data.{uuid}
use lawyer_agent.Chunks.Coverage.{Covers, window_pieces_with_offsets-Covers}

abbrev text : List ℕ
text = 1 ∷ 2 ∷ 3 ∷ 4 ∷ 5 ∷ 12290 ∷ 7 ∷ 8 ∷ 9 ∷ 10 ∷ 11 ∷ 12 ∷ []

three_windows :
    window_pieces_with_offsets 8 7 3 text
    ≡ some (
        (1 ∷ 2 ∷ 3 ∷ 4 ∷ 5 ∷ 12290 ∷ [], 0, 6)
        ∷ (5 ∷ 12290 ∷ 7 ∷ 8 ∷ 9 ∷ 10 ∷ 11 ∷ [], 4, 11)
        ∷ (9 ∷ 10 ∷ 11 ∷ 12 ∷ [], 8, 12)
        ∷ [])
unfolding window_pieces_with_offsets
three_windows = refl

window_pieces_with_offsets-Covers_example :
    (pieces : List Piece) × (window_pieces_with_offsets 8 7 3 text ≡ some pieces)
    × Covers 7 text 0 0 pieces
unfolding validate_settings
window_pieces_with_offsets-Covers_example = window_pieces_with_offsets-Covers 8 7 3 text refl

abbrev item : EvidenceItem
item = record {
  evidence_id = uuid 30;
  instrument_title = "Civil Code";
  version_id = uuid 31;
  version_label = "2020";
  status = LegalVersionStatus.current;
  published_on = some 100;
  effective_on = some 200;
  repealed_on = none;
  provision_no = "509";
  provision_text = "The parties shall perform.";
  source_ref = "npc";
  dataset_version = "v1";
  authorized = true;
}

abbrev claims : List LegalClaim
claims = record { text = "Performance is due."; evidence_ids = uuid 30 ∷ [] } ∷ []

verify_claims-allowed_example :
    ((verify_claims (item ∷ []) claims 300).allowed ≡ true)
    ↔ ((claims ≢ []) × All (λ c. All (λ id. IsSupported (item ∷ []) id 300) c.evidence_ids) claims)
verify_claims-allowed_example = verify_claims-allowed (item ∷ []) 300 claims

abbrev history : List ReviewDecision
history =
    ReviewDecision.approve ∷ ReviewDecision.submit ∷ ReviewDecision.request_changes
    ∷ ReviewDecision.submit ∷ []

review_after-approved_example :
    ((earlier : List ReviewDecision) × (history
        ≡ ReviewDecision.approve ∷ ReviewDecision.submit ∷ earlier))
    × ((d : ReviewDecision) (s : Option ReviewStatus) → review_after (d ∷ history) ≢ ok s)
unfolding review_after
review_after-approved_example = review_after-approved history refl
