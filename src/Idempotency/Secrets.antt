-- ===== src/Idempotency/Secrets.antt =====
-- Secrets of a request body are not in its fingerprint (application/idempotency.py:
-- `_project_explicit_paths`, `canonical_business_values`, `prepare`).
use lawyer_agent.Prelude.{
  ℕ, ◌≡◌, refl, sym, ap, ◌∙◌, true, Option, none, List, [], ◌∷◌, ◌++◌, String, Bool-cases, inl, inr,
  Result, ok, ◌>>=◌,
}
use lawyer_agent.Idempotency.Types.{IdempotencyError}
use lawyer_agent.Idempotency.Payload.{
  Json, null, opaque, boolean, integer, float, text, array, object, Members, no_members, member_of,
  JsonPath, has_path, project_explicit_paths, project_members, require_explicit_leaf,
  canonical_business_leaf, canonical_business_values, IdempotencyFingerprintPayload, classify,
  as_members,
}
use lawyer_agent.Idempotency.Service.{IdempotencyRequest, IdempotencyService, prepare}

module _ (secret : List JsonPath) where
  mutual
    -- Two bodies that differ in the leaves at secret paths only.
    pub data SameButSecrets : JsonPath → Json → Json → Type 0 where
      same_value : {path : JsonPath} {v : Json} → SameButSecrets path v v
      secret_leaf :
          {path : JsonPath} {v v' : Json}
          → has_path path secret ≡ true
          → require_explicit_leaf v ≡ ok tt
          → require_explicit_leaf v' ≡ ok tt
          → SameButSecrets path v v'
      same_object :
          {path : JsonPath} {ms ms' : Members}
          → SameMembersButSecrets path ms ms'
          → SameButSecrets path (object ms) (object ms')

    pub data SameMembersButSecrets : JsonPath → Members → Members → Type 0 where
      no_more : {path : JsonPath} → SameMembersButSecrets path no_members no_members
      one_more :
          {path : JsonPath} {key : String} {v v' : Json} {ms ms' : Members}
          → SameButSecrets (path ++ key ∷ []) v v'
          → SameMembersButSecrets path ms ms'
          → SameMembersButSecrets path (member_of key v ms) (member_of key v' ms')

classify-secret :
    (business secret : List JsonPath) (path : JsonPath) (v : Json)
    (otherwise : Result IdempotencyError (Option Json))
    → has_path path secret ≡ true
    → require_explicit_leaf v ≡ ok tt
    → classify business secret path v otherwise ≡ ok none
classify-secret business secret path v otherwise at leaf = rw (at, leaf) refl

project-secret :
    (business secret : List JsonPath) (path : JsonPath) (v : Json)
    → has_path path secret ≡ true
    → require_explicit_leaf v ≡ ok tt
    → project_explicit_paths business secret path v ≡ ok none
unfolding project_explicit_paths
project-secret business secret path null at leaf =
    classify-secret business secret path null _ at leaf
project-secret business secret path opaque at leaf =
    classify-secret business secret path opaque _ at leaf
project-secret business secret path (boolean b) at leaf =
    classify-secret business secret path (boolean b) _ at leaf
project-secret business secret path (integer s n) at leaf =
    classify-secret business secret path (integer s n) _ at leaf
project-secret business secret path (float f r) at leaf =
    classify-secret business secret path (float f r) _ at leaf
project-secret business secret path (text s) at leaf =
    classify-secret business secret path (text s) _ at leaf
project-secret business secret path (array vs) at leaf =
    classify-secret business secret path (array vs) _ at leaf
project-secret business secret path (object ms) at leaf =
    classify-secret business secret path (object ms) _ at leaf

classify-object :
    (business secret : List JsonPath) (path : JsonPath) (ms ms' : Members)
    (inner inner' : Result IdempotencyError (Option Json))
    → inner ≡ inner'
    → classify business secret path (object ms) inner
      ≡ classify business secret path (object ms') inner'
unfolding require_explicit_leaf canonical_business_leaf
classify-object business secret path ms ms' inner inner' e =
    elim (Bool-cases (has_path path secret)) [
      | inl s ↦ rw s refl
      | inr s ↦ elim (Bool-cases (has_path path business)) [
        | inl b ↦ rw (s, b) refl
        | inr b ↦ rw (s, b) e
      ]
    ]

module _ (business secret : List JsonPath) where
  mutual
    unfolding project_explicit_paths

    pub project_explicit_paths-secrets :
        (path : JsonPath) (v v' : Json)
        → SameButSecrets secret path v v'
        → project_explicit_paths business secret path v
          ≡ project_explicit_paths business secret path v'
    project_explicit_paths-secrets path v _ same_value = refl
    project_explicit_paths-secrets path v v' (secret_leaf at leaf leaf') =
        project-secret business secret path v at leaf
        ∙ sym (project-secret business secret path v' at leaf')
    project_explicit_paths-secrets path _ _ (same_object {ms = ms} {ms' = ms'} same) =
        classify-object business secret path ms ms' _ _
          (rw (project_members-secrets path ms ms' same) refl)

    project_members-secrets :
        (path : JsonPath) (ms ms' : Members)
        → SameMembersButSecrets secret path ms ms'
        → project_members business secret path ms ≡ project_members business secret path ms'
    project_members-secrets path _ _ no_more = refl
    project_members-secrets path _ _
          (one_more {key = key} {v = v} {v' = v'} {ms = ms} {ms' = ms'} same rest) =
        rw
          (
            project_explicit_paths-secrets (path ++ key ∷ []) v v' same,
            project_members-secrets path ms ms' rest,
          )
          refl

-- A payload with other secrets.
pub record HasOtherSecrets (p p' : IdempotencyFingerprintPayload) : Type 0 where
  pub same_business : p'.business_paths ≡ p.business_paths
  pub same_secret : p'.secret_paths ≡ p.secret_paths
  pub same_values : SameMembersButSecrets p.secret_paths [] p.values p'.values

projected-secrets :
    (p p' : IdempotencyFingerprintPayload)
    → HasOtherSecrets p p'
    → project_explicit_paths p'.business_paths p'.secret_paths [] (object p'.values)
      ≡ project_explicit_paths p.business_paths p.secret_paths [] (object p.values)
projected-secrets p p' other =
    rw (other.same_business, other.same_secret)
      (sym (
        project_explicit_paths-secrets p.business_paths p.secret_paths [] (object p.values)
          (object p'.values) (same_object other.same_values)))

values-secrets :
    (p p' : IdempotencyFingerprintPayload)
    → HasOtherSecrets p p'
    → canonical_business_values p' ≡ canonical_business_values p
unfolding canonical_business_values
values-secrets p p' other = ap (λ m. m >>= as_members) (projected-secrets p p' other)

-- Two requests whose bodies differ in the leaves at secret paths only, each a scalar or a list of
-- scalars, are prepared to the same key hash and fingerprint, or refused by the same error.
pub prepare-secrets :
    (hmac_sha256 : List ℕ → List ℕ → List ℕ) (sha256 : List ℕ → List ℕ) (self : IdempotencyService)
    (request : IdempotencyRequest) (body : IdempotencyFingerprintPayload)
    → HasOtherSecrets request.body body
    → prepare hmac_sha256 sha256 self (record request { body = body })
      ≡ prepare hmac_sha256 sha256 self request
unfolding prepare
prepare-secrets hmac_sha256 sha256 self request body other =
    rw (values-secrets request.body body other) refl
