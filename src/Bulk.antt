-- ===== src/Bulk.antt =====
-- `bounded_bulk_payloads` of infrastructure/search/bounded_bulk.py, which cuts a batch of documents
-- into requests of bounded size.
pub mod Requests
use lawyer_agent.Prelude.{
  ℕ, ◌+◌, ◌*◌, Bool, not, ◌&&◌, Option, none, some, String, List, [], ◌∷◌, ◌++◌, codes, length, leb,
  ltb, has_text, is_empty, if◌then◌else◌, Result, ok, err, guard, ◌>>=◌, ◌>>◌,
}

abbrev pub max_bulk_bytes : ℕ
max_bulk_bytes = 8 * 1024 * 1024

abbrev pub max_bulk_documents : ℕ
max_bulk_documents = 256

pub record BulkPayload : Type 0 where
  pub content : List ℕ
  pub document_ids : List String

-- The encoded documents that a request holds so far, with their identifiers.
pub record Current : Type 0 where
  pub content : List ℕ
  pub ids : List String

abbrev pub nothing : Current
nothing = record { content = []; ids = [] }

abbrev pub payload_of : Current → BulkPayload
payload_of c = record { content = c.content; document_ids = c.ids }

abbrev pub is_nonempty : List ℕ → Bool
is_nonempty [] = Bool.false
is_nonempty (_ ∷ _) = Bool.true

-- `action + "\n" + source + "\n"`
abbrev pub lines_of : List ℕ → Option (List ℕ) → Option (List ℕ)
lines_of action none = none
lines_of action (some source) = some (action ++ 10 ∷ (source ++ 10 ∷ []))

abbrev pub within_limit : Option (List ℕ) → Result String (List ℕ)
within_limit none = err "bulk document is not valid JSON"
within_limit (some encoded) = do
  guard (leb (length encoded) max_bulk_bytes) "bulk document exceeds the request size limit"
  ok encoded

-- The identifier of a document, if it is a text that is neither empty nor seen before.
abbrev pub new_identifier : List String → Option String → Result String String
new_identifier seen none = err "bulk document ids must be nonempty and unique"
new_identifier seen (some identifier) = do
  guard (not (is_empty identifier) && not (has_text identifier seen))
      "bulk document ids must be nonempty and unique"
  ok identifier

-- A document is of any type. `get_field` is `document.get(field)`, if that is a text; the JSON
-- encoder gives the bytes of the line that names an index and an identifier, and those of a document,
-- or it raises.
module _ {Document : Type 0} (get_field : String → Document → Option String)
    (dumps_action : String → String → List ℕ) (dumps_document : Document → Option (List ℕ)) where
  -- `_document_bytes`
  unfoldable pub document_bytes : String → Document → String → Result String (List ℕ)
  document_bytes index_name document identifier =
      within_limit (lines_of (dumps_action index_name identifier) (dumps_document document))

  -- The loop of `bounded_bulk_payloads`, with the identifiers seen so far.
  unfoldable pub identify :
      String → String → List String → List Document → Result String (List String)
  unfolding document_bytes
  identify index_name id_field seen [] = ok []
  identify index_name id_field seen (document ∷ documents) = do
    identifier ← new_identifier seen (get_field id_field document)
    _ ← document_bytes index_name document identifier
    rest ← identify index_name id_field (identifier ∷ seen) documents
    ok (identifier ∷ rest)

  -- The loop of `_payloads`: each request is yielded when the next document does not fit.
  unfoldable pub payloads :
      String → Current → List Document → List String → Result String (List BulkPayload)
  unfolding document_bytes
  payloads index_name current [] [] =
      ok (if is_nonempty current.content then payload_of current ∷ [] else [])
  payloads index_name current (document ∷ documents) (identifier ∷ identifiers) = do
    encoded ← document_bytes index_name document identifier
    (if is_nonempty current.content && ltb max_bulk_bytes (length current.content + length encoded)
        then (do
          rest ←
              payloads index_name (record { content = encoded; ids = identifier ∷ [] }) documents
                identifiers
          ok (payload_of current ∷ rest))
        else payloads index_name
            (record { content = current.content ++ encoded; ids = current.ids ++ identifier ∷ [] })
            documents identifiers)
  payloads index_name current _ _ = err "zip() arguments have different lengths"

  -- `bounded_bulk_payloads`, with all requests of its iterator.
  unfoldable pub bounded_bulk_payloads :
      String → List Document → String → Result String (List BulkPayload)
  unfolding identify payloads
  bounded_bulk_payloads index_name documents id_field = do
    guard
        (leb (length documents) max_bulk_documents
          && not (is_empty index_name)
          && not (is_empty id_field))
        "bulk batch is invalid"
    identifiers ← identify index_name id_field [] documents
    payloads index_name nothing documents identifiers
