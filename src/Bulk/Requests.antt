-- ===== src/Bulk/Requests.antt =====
-- The requests of a batch hold its documents, in order and within the limit.
use mathlib.Core.Path.{subst}
use lawyer_agent.Prelude.{
  ℕ, ◌+◌, ◌≤◌, ◌≡◌, ◌≢◌, refl, sym, ap, ◌∙◌, Bool, true, false, not, ◌&&◌, Option, none, some,
  String, List, [], ◌∷◌, ◌++◌, length, length-append, leb, ltb, is_empty, if◌then◌else◌, ok, guard,
  ◌>>=◌, All, Bool-cases, inl, inr, bind-eq-ok, ok-inside, arith,
}
use lawyer_agent.Bulk.{
  max_bulk_bytes, BulkPayload, Current, nothing, payload_of, is_nonempty, lines_of, document_bytes,
  within_limit, identify, payloads, new_identifier, max_bulk_documents, bounded_bulk_payloads,
}

-- A request is not empty and stays within the limit.
abbrev pub IsBounded : BulkPayload → Type 0
IsBounded p = (is_nonempty p.content ≡ true) × (length p.content ≤ max_bulk_bytes)

-- All requests, one after the other.
abbrev pub sent_bytes : List BulkPayload → List ℕ
sent_bytes [] = []
sent_bytes (p ∷ ps) = p.content ++ sent_bytes ps

abbrev pub sent_ids : List BulkPayload → List String
sent_ids [] = []
sent_ids (p ∷ ps) = p.document_ids ++ sent_ids ps

abbrev or_nothing : Option (List ℕ) → List ℕ
or_nothing none = []
or_nothing (some xs) = xs

++_assoc {ℓ} : {A : Type ℓ} (xs ys zs : List A) → (xs ++ ys) ++ zs ≡ xs ++ (ys ++ zs)
++_assoc [] ys zs = refl
++_assoc (x ∷ xs) ys zs = ap (λ t. x ∷ t) (++_assoc xs ys zs)

++_nil {ℓ} : {A : Type ℓ} (xs : List A) → xs ++ [] ≡ xs
++_nil [] = refl
++_nil (x ∷ xs) = ap (λ t. x ∷ t) (++_nil xs)

nonempty_append : (xs ys : List ℕ) → is_nonempty ys ≡ true → is_nonempty (xs ++ ys) ≡ true
nonempty_append [] ys e = e
nonempty_append (x ∷ xs) ys e = refl

nonempty_line : (xs ys : List ℕ) → is_nonempty (xs ++ 10 ∷ ys) ≡ true
nonempty_line [] ys = refl
nonempty_line (x ∷ xs) ys = refl

empty-nil : (xs : List ℕ) → is_nonempty xs ≡ false → xs ≡ []
empty-nil [] e = refl
empty-nil (x ∷ xs) e = cc

-- What a request under construction keeps.
IsOpen : Current → Type 0
IsOpen c = (length c.content ≤ max_bulk_bytes) × (is_nonempty c.content ≡ false → c.ids ≡ [])

fits-below :
    (n : ℕ) (u : Unit {0})
    → guard {E = String} (leb n max_bulk_bytes) "bulk document exceeds the request size limit"
      ≡ ok u
    → n ≤ max_bulk_bytes
fits-below n u h = ground arith

-- A document that has room fits.
room-fits :
    (xs ys : List ℕ)
    → length ys ≤ max_bulk_bytes
    → (is_nonempty xs && ltb max_bulk_bytes (length xs + length ys)) ≡ false
    → length (xs ++ ys) ≤ max_bulk_bytes
room-fits [] ys fits room = fits
room-fits (x ∷ xs) ys fits room = ground (arith, length-append xs ys)

true-not-false : true ≢ false
true-not-false e = cc

full-filled : (b c : Bool) → (b && c) ≡ true → b ≡ true
full-filled true c e = refl
full-filled false c e = cc

-- What a request that is closed at the end sends.
closed-sent :
    (c : Current) (ps : List BulkPayload)
    → IsOpen c
    → (if is_nonempty c.content then payload_of c ∷ [] else []) ≡ ps
    → All IsBounded ps × (sent_bytes ps ≡ c.content) × (sent_ids ps ≡ c.ids)
unfolding IsOpen
closed-sent c ps kept h = elim (Bool-cases (is_nonempty c.content)) [
  | inl t ↦
      subst (λ x. All IsBounded x × (sent_bytes x ≡ c.content) × (sent_ids x ≡ c.ids)) (rw t at h)
        (((t, kept.0), tt), ++_nil c.content, ++_nil c.ids)
  | inr f ↦
      subst (λ x. All IsBounded x × (sent_bytes x ≡ c.content) × (sent_ids x ≡ c.ids)) (rw f at h)
        (tt, sym (empty-nil c.content f), sym (kept.1 f))
]

within_limit-ok :
    (action : List ℕ) (source : Option (List ℕ)) (encoded : List ℕ)
    → within_limit (lines_of action source) ≡ ok encoded
    → (or_nothing (lines_of action source) ≡ encoded)
      × (is_nonempty encoded ≡ true)
      × (length encoded ≤ max_bulk_bytes)
within_limit-ok action none encoded h = cc
within_limit-ok action (some source) encoded h =
    let lines : List ℕ = action ++ 10 ∷ (source ++ 10 ∷ []) in
    let (_, fits, h1) =
      bind-eq-ok
        (guard (leb (length lines) max_bulk_bytes) "bulk document exceeds the request size limit") _
        h in
    let same = ok-inside lines encoded h1 in
    (
      same,
      subst (λ x. is_nonempty x ≡ true) same (nonempty_line action (source ++ 10 ∷ [])),
      subst (λ x. length x ≤ max_bulk_bytes) same (fits-below (length lines) _ fits),
    )

module _ {Document : Type 0} (get_field : String → Document → Option String)
    (dumps_action : String → String → List ℕ) (dumps_document : Document → Option (List ℕ))
    (index_name : String) where
  -- The lines of the documents under their identifiers.
  unfoldable pub batch_bytes : List Document → List String → List ℕ
  batch_bytes (d ∷ ds) (i ∷ is) =
      or_nothing (lines_of (dumps_action index_name i) (dumps_document d)) ++ batch_bytes ds is
  batch_bytes _ _ = []

  document_bytes-ok :
      (d : Document) (i : String) (encoded : List ℕ)
      → document_bytes get_field dumps_action dumps_document index_name d i ≡ ok encoded
      → (or_nothing (lines_of (dumps_action index_name i) (dumps_document d)) ≡ encoded)
        × (is_nonempty encoded ≡ true)
        × (length encoded ≤ max_bulk_bytes)
  unfolding document_bytes
  document_bytes-ok d i encoded h =
      within_limit-ok (dumps_action index_name i) (dumps_document d) encoded h

  -- The loop sends what the open request holds and then every document.
  payloads-sent :
      (docs : List Document) (ids : List String) (c : Current) (ps : List BulkPayload)
      → IsOpen c
      → payloads get_field dumps_action dumps_document index_name c docs ids ≡ ok ps
      → All IsBounded ps
        × (sent_bytes ps ≡ c.content ++ batch_bytes docs ids)
        × (sent_ids ps ≡ c.ids ++ ids)
  unfolding payloads batch_bytes IsOpen
  payloads-sent [] [] c ps kept h =
      let (sent, bytes, named) = closed-sent c ps kept (ok-inside _ ps h) in
      (sent, bytes ∙ sym (++_nil c.content), named ∙ sym (++_nil c.ids))
  payloads-sent [] (i ∷ is) c ps kept h = cc
  payloads-sent (d ∷ ds) [] c ps kept h = cc
  payloads-sent (d ∷ ds) (i ∷ is) c ps kept h =
      let (encoded, e, h1) =
        bind-eq-ok (document_bytes get_field dumps_action dumps_document index_name d i) _ h in
      let (lines, filled, fits) = document_bytes-ok d i encoded e in
      elim (Bool-cases
        (is_nonempty c.content && ltb max_bulk_bytes (length c.content + length encoded))) [
          | inl full ↦
              let next : Current = record { content = encoded; ids = i ∷ [] } in
              let (rest, r, h2) =
                bind-eq-ok (payloads get_field dumps_action dumps_document index_name next ds is) _
                  (rw full at h1) in
              let (sent, bytes, named) =
                payloads-sent ds is next rest (fits, λ e. absurd (true-not-false (sym filled ∙ e)))
                  r in
              subst
                (λ x.
                  All IsBounded x
                  × (sent_bytes x ≡ c.content ++ batch_bytes (d ∷ ds) (i ∷ is))
                  × (sent_ids x ≡ c.ids ++ i ∷ is))
                (ok-inside _ ps h2)
                (
                  ((full-filled _ _ full, kept.0), sent),
                  ap (λ x. c.content ++ x) (bytes ∙ ap (λ x. x ++ batch_bytes ds is) (sym lines)),
                  ap (λ x. c.ids ++ x) named,
                )
          | inr room ↦
              let next : Current = record {
                content = c.content ++ encoded;
                ids = c.ids ++ i ∷ [];
              } in
              let (sent, bytes, named) =
                payloads-sent ds is next ps
                  (
                    room-fits c.content encoded fits room,
                    λ e.
                        absurd
                          (true-not-false (sym (nonempty_append c.content encoded filled) ∙ e)),
                  )
                  (rw room at h1) in
              (
                sent,
                bytes
                    ∙ ++_assoc c.content encoded (batch_bytes ds is)
                    ∙ ap (λ x. c.content ++ x) (ap (λ x. x ++ batch_bytes ds is) (sym lines)),
                named ∙ ++_assoc c.ids (i ∷ []) is,
              )
        ]

  -- When a batch is cut into requests, the eager checks gave its identifiers, no request is empty or
  -- longer than the limit, and the requests one after the other are the lines of the documents, and
  -- their identifiers, in the order of the batch.
  pub bounded_bulk_payloads-IsBounded :
      (docs : List Document) (id_field : String) (ps : List BulkPayload)
      → bounded_bulk_payloads get_field dumps_action dumps_document index_name docs id_field ≡ ok ps
      → (ids : List String) × (identify get_field dumps_action dumps_document index_name id_field []
            docs
          ≡ ok ids)
        × All IsBounded ps
        × (sent_bytes ps ≡ batch_bytes docs ids)
        × (sent_ids ps ≡ ids)
  unfolding bounded_bulk_payloads IsOpen
  bounded_bulk_payloads-IsBounded docs id_field ps h =
      let (_, _, h1) =
        bind-eq-ok
          (guard
            (leb (length docs) max_bulk_documents
              && not (is_empty index_name)
              && not (is_empty id_field))
            "bulk batch is invalid")
          (λ _.
            identify get_field dumps_action dumps_document index_name id_field [] docs >>= λ ids.
            payloads get_field dumps_action dumps_document index_name nothing docs ids)
          h in
      let (ids, e, h2) =
        bind-eq-ok (identify get_field dumps_action dumps_document index_name id_field [] docs) _
          h1 in
      let (sent, bytes, named) = payloads-sent docs ids nothing ps (omega arith, λ _. refl) h2 in
      (ids, e, sent, bytes, named)

  -- When the eager checks of a batch give its identifiers, the loop that serializes the documents
  -- again ends with requests and raises no error, whatever request is open at its start.
  pub identify-payloads :
      (docs : List Document) (id_field : String) (seen ids : List String) (c : Current)
      → identify get_field dumps_action dumps_document index_name id_field seen docs ≡ ok ids
      → (ps : List BulkPayload) × (payloads get_field dumps_action dumps_document index_name c docs
            ids
          ≡ ok ps)
  unfolding identify payloads
  identify-payloads [] id_field seen [] c h = (_, refl)
  identify-payloads [] id_field seen (i ∷ is) c h = cc
  identify-payloads (d ∷ ds) id_field seen ids c h =
      let (i, n, h1) = bind-eq-ok (new_identifier seen (get_field id_field d)) _ h in
      let (encoded, e, h2) =
        bind-eq-ok (document_bytes get_field dumps_action dumps_document index_name d i) _ h1 in
      let (is, r, h3) =
        bind-eq-ok
          (identify get_field dumps_action dumps_document index_name id_field (i ∷ seen) ds) _ h2 in
      subst
        (λ x.
          (ps : List BulkPayload) × (payloads get_field dumps_action dumps_document index_name c
              (d ∷ ds) x
            ≡ ok ps))
        (ok-inside _ ids h3)
        (elim (Bool-cases
          (is_nonempty c.content && ltb max_bulk_bytes (length c.content + length encoded))) [
            | inl full ↦
                rw (e, full)
                  (let (ps, p) =
                      identify-payloads ds id_field (i ∷ seen) is
                        (record { content = encoded; ids = i ∷ [] }) r in
                    rw p (_, refl))
            | inr room ↦
                rw (e, room)
                  (identify-payloads ds id_field (i ∷ seen) is
                    (record { content = c.content ++ encoded; ids = c.ids ++ i ∷ [] }) r)
          ])
