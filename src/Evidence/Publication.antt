-- ===== src/Evidence/Publication.antt =====
-- Claims are published only on supported citations.
use lawyer_agent.Prelude.{
  ℕ, suc, ◌<◌, ◌≡◌, refl, ap, ◌↔◌, ◌≢◌, Bool, true, false, Option, none, some, List, [], ◌∷◌, ◌++◌,
  String, arith, map, keep, All,
}
use lawyer_agent.Common.{Uuid}
use lawyer_agent.Evidence.Citations.{
  EvidenceItem, CitationVerdict, verdict_of, verify_one, verify_citations, citation_reason,
}
use lawyer_agent.Evidence.Claims.{
  LegalClaim, LegalClaimVerdict, citation_at, citations_from, is_blocked_at, claim_verdict,
  claim_verdicts, first_refusal, gate_result, verify_claims,
}
use lawyer_agent.Evidence.Support.{IsSupported, citation_reason-IsSupported}

-- Every claim from an index on has no blocked verdict.
abbrev Unblocked : ℕ → List LegalClaim → List CitationVerdict → Type 0
Unblocked index [] verdicts = Unit
Unblocked index (claim ∷ claims) verdicts =
    (keep (is_blocked_at index) verdicts ≡ []) × Unblocked (suc index) claims verdicts

claim_verdict-allowed :
    (index : ℕ) (blocked : List CitationVerdict)
    → ((claim_verdict index blocked).allowed ≡ true) ↔ (blocked ≡ [])
claim_verdict-allowed index [] = (λ e. refl, λ e. refl)
claim_verdict-allowed index (v ∷ vs) = (λ e. cc, λ e. cc)

first_refusal-Unblocked :
    (index : ℕ) (claims : List LegalClaim) (verdicts : List CitationVerdict)
    → (first_refusal (claim_verdicts index claims verdicts) ≡ none)
      ↔ Unblocked index claims verdicts
unfolding first_refusal claim_verdicts
first_refusal-Unblocked index [] verdicts = (λ e. tt, λ e. refl)
first_refusal-Unblocked index (claim ∷ claims) verdicts = ground (
  arith,
  first_refusal-Unblocked (suc index) claims verdicts,
  claim_verdict-allowed index (keep (is_blocked_at index) verdicts),
)

keep-none :
    {A : Type 0} (test : A → Bool) (xs : List A)
    → (keep test xs ≡ []) ↔ All (λ x. test x ≡ false) xs
keep-none test [] = (λ e. tt, λ e. refl)
keep-none test (x ∷ xs) = ground (arith, keep-none test xs)

All-append :
    {A : Type 0} (P : A → Type 0) (xs ys : List A) → All P (xs ++ ys) ↔ (All P xs × All P ys)
All-append P [] ys = (λ h. (tt, h), λ (_, h). h)
All-append P (x ∷ xs) ys = (
  λ (p, h). let (a, b) = (All-append P xs ys).0 h in ((p, a), b),
  λ ((p, a), b). (p, (All-append P xs ys).1 (a, b)),
)

map-append : {A B : Type 0} (f : A → B) (xs ys : List A) → map f (xs ++ ys) ≡ map f xs ++ map f ys
map-append f [] ys = refl
map-append f (x ∷ xs) ys = ap (λ l. f x ∷ l) (map-append f xs ys)

-- No verdict is blocked at an index.
abbrev Free : ℕ → List CitationVerdict → Type 0
Free index = All (λ v. is_blocked_at index v ≡ false)

Unblocked-append :
    (index : ℕ) (claims : List LegalClaim) (xs ys : List CitationVerdict)
    → Unblocked index claims (xs ++ ys) ↔ (Unblocked index claims xs × Unblocked index claims ys)
Unblocked-append index [] xs ys = (λ _. (tt, tt), λ _. tt)
Unblocked-append index (c ∷ cs) xs ys = (
  λ (e, h).
      let (a, b) = (All-append _ xs ys).0 ((keep-none (is_blocked_at index) (xs ++ ys)).0 e) in
      let (u, w) = (Unblocked-append (suc index) cs xs ys).0 h in
      (
        ((keep-none (is_blocked_at index) xs).1 a, u),
        ((keep-none (is_blocked_at index) ys).1 b, w),
      ),
  λ ((e, u), (f, w)). (
    (keep-none (is_blocked_at index) (xs ++ ys)).1 (
        (All-append _ xs ys).1
          ((keep-none (is_blocked_at index) xs).0 e, (keep-none (is_blocked_at index) ys).0 f)),
    (Unblocked-append (suc index) cs xs ys).1 (u, w),
  ),
)

module _ (bundle : List EvidenceItem) (target_date : ℕ) where
  -- Every citation of a claim is supported.
  abbrev ClaimSupported : LegalClaim → Type 0
  ClaimSupported claim = All (λ id. IsSupported bundle id target_date) claim.evidence_ids

  abbrev verdicts_at : ℕ → List Uuid → List CitationVerdict
  verdicts_at index ids = map (verify_one bundle target_date) (map (citation_at index) ids)

  blocked_here :
      (index : ℕ) (id : Uuid) (o : Option String)
      → (is_blocked_at index (verdict_of (citation_at index id) o) ≡ false) ↔ (o ≡ none)
  unfolding is_blocked_at
  blocked_here index id none = (λ e. refl, λ e. ground arith)
  blocked_here index id (some reason) = (λ e. ground arith, λ e. cc)

  blocked_elsewhere :
      (i j : ℕ) (id : Uuid) (o : Option String)
      → i ≢ j
      → is_blocked_at j (verdict_of (citation_at i id) o) ≡ false
  unfolding is_blocked_at
  blocked_elsewhere i j id none ne = ground arith
  blocked_elsewhere i j id (some reason) ne = ground arith

  Free-here :
      (index : ℕ) (ids : List Uuid)
      → Free index (verdicts_at index ids) ↔ All (λ id. IsSupported bundle id target_date) ids
  unfolding verify_one
  Free-here index [] = (λ h. tt, λ h. tt)
  Free-here index (id ∷ ids) =
      let here = blocked_here index id (citation_reason bundle id target_date) in
      (
        λ (p, h). (
          (citation_reason-IsSupported bundle id target_date).0 (here.0 p),
          (Free-here index ids).0 h,
        ),
        λ (s, h). (
          here.1 ((citation_reason-IsSupported bundle id target_date).1 s),
          (Free-here index ids).1 h,
        ),
      )

  Free-elsewhere : (i j : ℕ) (ids : List Uuid) → i ≢ j → Free j (verdicts_at i ids)
  unfolding verify_one
  Free-elsewhere i j [] ne = tt
  Free-elsewhere i j (id ∷ ids) ne = (
    blocked_elsewhere i j id (citation_reason bundle id target_date) ne,
    Free-elsewhere i j ids ne,
  )

  -- The verdicts of an earlier claim block no later one, and the other way round.
  earlier-Unblocked :
      (i j : ℕ) (ids : List Uuid) (claims : List LegalClaim)
      → i < j
      → Unblocked j claims (verdicts_at i ids)
  earlier-Unblocked i j ids [] lt = tt
  earlier-Unblocked i j ids (c ∷ cs) lt = (
    (keep-none (is_blocked_at j) (verdicts_at i ids)).1
        (Free-elsewhere i j ids (λ e. omega (arith, lt, e))),
    earlier-Unblocked i (suc j) ids cs (omega (arith, lt)),
  )

  verdicts_from : ℕ → List LegalClaim → List CitationVerdict
  unfolding verify_citations citations_from
  verdicts_from index claims = verify_citations bundle (citations_from index claims) target_date

  verdicts_from-cons :
      (index : ℕ) (c : LegalClaim) (cs : List LegalClaim)
      → verdicts_from index (c ∷ cs)
        ≡ verdicts_at index c.evidence_ids ++ verdicts_from (suc index) cs
  unfolding verdicts_from
  verdicts_from-cons index c cs =
      map-append (verify_one bundle target_date) (map (citation_at index) c.evidence_ids)
        (citations_from (suc index) cs)

  later-Free : (i j : ℕ) (claims : List LegalClaim) → i < j → Free i (verdicts_from j claims)
  unfolding verdicts_from
  later-Free i j [] lt = tt
  later-Free i j (c ∷ cs) lt = rw (verdicts_from-cons j c cs) (
      (All-append _ (verdicts_at j c.evidence_ids) (verdicts_from (suc j) cs)).1 (
        Free-elsewhere j i c.evidence_ids (λ e. omega (arith, lt, e)),
        later-Free i (suc j) cs (omega (arith, lt)),
      ))

  Unblocked-ClaimSupported :
      (index : ℕ) (claims : List LegalClaim)
      → Unblocked index claims (verdicts_from index claims) ↔ All ClaimSupported claims
  Unblocked-ClaimSupported index [] = (λ h. tt, λ h. tt)
  Unblocked-ClaimSupported index (c ∷ cs) = rw (verdicts_from-cons index c cs) (
    λ h.
        let ((e, _), (_, w)) = (Unblocked-append index (c ∷ cs) here later).0 h in
        (
          (Free-here index c.evidence_ids).0 ((keep-none (is_blocked_at index) here).0 e),
          (Unblocked-ClaimSupported (suc index) cs).0 w,
        ),
    λ (s, ss). (Unblocked-append index (c ∷ cs) here later).1 (
      (
        (keep-none (is_blocked_at index) here).1 ((Free-here index c.evidence_ids).1 s),
        earlier-Unblocked index (suc index) c.evidence_ids cs (omega arith),
      ),
      (
        (keep-none (is_blocked_at index) later).1 (later-Free index (suc index) cs (omega arith)),
        (Unblocked-ClaimSupported (suc index) cs).1 ss,
      ),
    ),
  )
    where
      here : List CitationVerdict
      here = verdicts_at index c.evidence_ids

      later : List CitationVerdict
      later = verdicts_from (suc index) cs

  gate_result-allowed :
      (verdicts : List LegalClaimVerdict) (o : Option String)
      → ((gate_result verdicts o).allowed ≡ true) ↔ (o ≡ none)
  gate_result-allowed verdicts none = (λ e. refl, λ e. refl)
  gate_result-allowed verdicts (some reason) = (λ e. cc, λ e. cc)

  -- A set of legal claims is allowed exactly when it is not empty and every citation of every claim
  -- is supported: it names an item of the bundle that the reader may see, that is published and
  -- neither a draft nor of unknown status, and that has taken effect by the target date and has not
  -- ended before it, where an item that is repealed or historical must have an end.
  pub verify_claims-allowed :
      (claims : List LegalClaim)
      → ((verify_claims bundle claims target_date).allowed ≡ true) ↔ (
          (claims ≢ [])
          × All (λ c. All (λ id. IsSupported bundle id target_date) c.evidence_ids) claims)
  unfolding verify_claims verdicts_from
  verify_claims-allowed [] = (λ e. cc, λ (ne, _). absurd (ne refl))
  verify_claims-allowed (c ∷ cs) =
      let found = claim_verdicts 0 (c ∷ cs) (verdicts_from 0 (c ∷ cs)) in
      (
        λ e. (
          λ n. cc,
          (Unblocked-ClaimSupported 0 (c ∷ cs)).0 (
              (first_refusal-Unblocked 0 (c ∷ cs) (verdicts_from 0 (c ∷ cs))).0
                ((gate_result-allowed found (first_refusal found)).0 e)),
        ),
        λ (_, s). (gate_result-allowed found (first_refusal found)).1 (
            (first_refusal-Unblocked 0 (c ∷ cs) (verdicts_from 0 (c ∷ cs))).1
              ((Unblocked-ClaimSupported 0 (c ∷ cs)).1 s)),
      )
