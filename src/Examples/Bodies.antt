-- ===== src/Examples/Bodies.antt =====
-- A request body with a password, and the same with another.
use lawyer_agent.Prelude.{ℕ, ◌≡◌, refl, List, [], ◌∷◌}
use lawyer_agent.Idempotency.Payload.{
  Members, member_of, no_members, text, IdempotencyFingerprintPayload, canonical_business_leaf,
  require_explicit_leaf,
}
use lawyer_agent.Idempotency.Service.{IdempotencyRequest, IdempotencyService, prepare}
use lawyer_agent.Idempotency.Secrets.{prepare-secrets, same_value, secret_leaf, one_more, no_more}

abbrev hmac : List ℕ → List ℕ → List ℕ
hmac key message = message

abbrev sha : List ℕ → List ℕ
sha message = message

abbrev payload : Members → IdempotencyFingerprintPayload
payload values = record {
  values = values;
  business_paths = ("name" ∷ []) ∷ [];
  secret_paths = ("password" ∷ []) ∷ [];
}

abbrev body : IdempotencyFingerprintPayload
body = payload (member_of "name" (text "Li") (member_of "password" (text "old") no_members))

abbrev other_body : IdempotencyFingerprintPayload
other_body = payload (member_of "name" (text "Li") (member_of "password" (text "new") no_members))

abbrev request : IdempotencyRequest
request = record {
  key = "0123456789abcdef";
  method = "POST";
  canonical_route = "/api/v1/accounts";
  body = body;
}

abbrev service : IdempotencyService
service = record { key_hash_secret = []; ttl = 0 }

prepare-secrets_example :
    prepare hmac sha service (record request { body = other_body })
    ≡ prepare hmac sha service request
unfolding require_explicit_leaf canonical_business_leaf
prepare-secrets_example = prepare-secrets hmac sha service request other_body (record {
  same_business = refl;
  same_secret = refl;
  same_values = one_more same_value (one_more (secret_leaf refl refl refl) no_more);
})
