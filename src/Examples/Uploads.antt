-- ===== src/Examples/Uploads.antt =====
-- A batch of two documents for the search index.
use lawyer_agent.Prelude.{ℕ, ◌≡◌, refl, Option, some, String, List, [], ◌∷◌, codes, All, ok}
use lawyer_agent.Bulk.{BulkPayload, nothing, identify, payloads, bounded_bulk_payloads}
use lawyer_agent.Bulk.Requests.{
  IsBounded, sent_bytes, sent_ids, batch_bytes, bounded_bulk_payloads-IsBounded, identify-payloads,
}

pub record Chunk : Type 0 where
  pub chunk_id : String
  pub text : List ℕ

abbrev chunk_field : String → Chunk → Option String
chunk_field field c = some c.chunk_id

-- An encoder that writes the identifier and the text as they are.
abbrev chunk_action : String → String → List ℕ
chunk_action index_name identifier = codes identifier

abbrev chunk_source : Chunk → Option (List ℕ)
chunk_source c = some c.text

abbrev chunks : List Chunk
chunks =
    record { chunk_id = "a"; text = codes "first" }
    ∷ record { chunk_id = "b"; text = codes "second" }
    ∷ []

abbrev chunk_ids : List String
chunk_ids = "a" ∷ "b" ∷ []

abbrev uploads : List BulkPayload
uploads = record { content = codes "a\nfirst\nb\nsecond\n"; document_ids = chunk_ids } ∷ []

uploaded :
    bounded_bulk_payloads chunk_field chunk_action chunk_source "index" chunks "chunk_id"
    ≡ ok uploads
unfolding bounded_bulk_payloads
uploaded = refl

identified :
    identify chunk_field chunk_action chunk_source "index" "chunk_id" [] chunks ≡ ok chunk_ids
unfolding identify
identified = refl

bounded_bulk_payloads-IsBounded_example :
    (ids : List String) × (identify chunk_field chunk_action chunk_source "index" "chunk_id" []
        chunks
      ≡ ok ids)
    × All IsBounded uploads
    × (sent_bytes uploads ≡ batch_bytes chunk_field chunk_action chunk_source "index" chunks ids)
    × (sent_ids uploads ≡ ids)
bounded_bulk_payloads-IsBounded_example =
    bounded_bulk_payloads-IsBounded chunk_field chunk_action chunk_source "index" chunks "chunk_id"
      uploads uploaded

identify-payloads_example :
    (ps : List BulkPayload) × (payloads chunk_field chunk_action chunk_source "index" nothing chunks
        chunk_ids
      ≡ ok ps)
identify-payloads_example =
    identify-payloads chunk_field chunk_action chunk_source "index" chunks "chunk_id" [] chunk_ids
      nothing identified
