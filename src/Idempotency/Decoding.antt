-- ===== src/Idempotency/Decoding.antt =====
-- The result columns, what fits them and what is read back: `_serialize_result_type`,
-- `_deserialize_result_type` and `_stored` of infrastructure/persistence/repositories/idempotency.py.
use lawyer_agent.Prelude.{
  ℕ, zero, suc, ◌+◌, ◌/◌, ◌≤◌, ◌≡◌, refl, true, false, Option, none, some, String, List, [], ◌∷◌,
  codes, text_length, arith, ok, leb, ◌<◌, ◌*◌, all, length, check_optional,
}
use lawyer_agent.Idempotency.Types.{
  IdempotencyMutationEffect, IdempotencyResultReference, check_result, check_cache_version, is_code,
  is_code_char,
}
use lawyer_agent.Idempotency.Table.{
  StoredResultType, plain, metadata, serialize_result_type, deserialize_result_type, decimal_length,
  encoded_length, opens_brace, cache_length, ascii_length, ascii_lengths, effect_length,
  encode_metadata,
}
use lawyer_agent.Idempotency.Sound.{decoded}

code-no-brace : (cs : List ℕ) → is_code 63 cs ≡ true → opens_brace cs ≡ false
code-no-brace [] e = cc
code-no-brace (c ∷ cs) e = ground arith

pub decoded-serialize :
    (r : IdempotencyResultReference) (w : StoredResultType)
    → serialize_result_type r ≡ ok w
    → decoded w r.result_id ≡ r
unfolding serialize_result_type decoded
decoded-serialize r w e = ground arith

result-no-brace :
    (r : IdempotencyResultReference)
    → check_result r ≡ ok tt
    → opens_brace (codes r.result_type) ≡ false
unfolding check_result
result-no-brace r c = ground (arith, code-no-brace (codes r.result_type))

-- A checked result is read back as it was written, with its metadata kept as the object that the JSON
-- text encodes.
pub deserialize-serialize :
    (r : IdempotencyResultReference) (w : StoredResultType)
    → check_result r ≡ ok tt
    → serialize_result_type r ≡ ok w
    → deserialize_result_type w r.result_id ≡ ok r
unfolding serialize_result_type deserialize_result_type
deserialize-serialize r w c e = ground (arith, result-no-brace r c)

pub le→leb : (a b : ℕ) → a ≤ b → leb a b ≡ true
le→leb a b h = ground arith

-- Powers of ten.
abbrev tens : ℕ → ℕ
tens zero = 1
tens (suc k) = 10 * tens k

decimal_length-≤ : (k fuel n : ℕ) → n < tens (suc k) → decimal_length fuel n ≤ suc k
decimal_length-≤ k zero n h = omega arith
decimal_length-≤ zero (suc fuel) n h = ground arith
decimal_length-≤ (suc k) (suc fuel) n h = ground (arith, decimal_length-≤ k fuel (n / 10))

-- What the check of a result says of its type and of its version.
checked-parts :
    (r : IdempotencyResultReference)
    → check_result r ≡ ok tt
    → (is_code 63 (codes r.result_type) ≡ true)
      × (check_optional check_cache_version r.cache_authz_version ≡ ok tt)
unfolding check_result
checked-parts r c = ground arith

version-short : (v : ℕ) → check_cache_version v ≡ ok tt → v < tens 10
version-short v c = ground arith

version_length-≤ :
    (o : Option ℕ) → check_optional check_cache_version o ≡ ok tt → cache_length o ≤ 10
version_length-≤ none c = omega arith
version_length-≤ (some v) c = decimal_length-≤ 9 (suc v) v (version-short v c)

-- A checked version has at most ten digits.
cache_length-≤ :
    (r : IdempotencyResultReference)
    → check_result r ≡ ok tt
    → cache_length r.cache_authz_version ≤ 10
cache_length-≤ r c = version_length-≤ r.cache_authz_version (checked-parts r c).1

-- No character of a checked type is escaped.
code-ascii_length : (c : ℕ) → is_code_char c ≡ true → ascii_length c ≡ 1
unfolding ascii_length
code-ascii_length c h = ground arith

chars-ascii_lengths : (cs : List ℕ) → all is_code_char cs ≡ true → ascii_lengths cs ≡ length cs
chars-ascii_lengths [] h = refl
chars-ascii_lengths (c ∷ cs) h = ground (arith, code-ascii_length c, chars-ascii_lengths cs)

code-ascii_lengths : (cs : List ℕ) → is_code 63 cs ≡ true → ascii_lengths cs ≡ length cs
code-ascii_lengths [] h = refl
code-ascii_lengths (c ∷ cs) h = ground (arith, code-ascii_length c, chars-ascii_lengths cs)

effect_length-≤ : (effect : Option IdempotencyMutationEffect) → effect_length effect ≤ 11
effect_length-≤ none = omega arith
effect_length-≤ (some IdempotencyMutationEffect.changed) = omega arith
effect_length-≤ (some IdempotencyMutationEffect.no_change) = omega arith

encoded_length-≤ :
    (r : IdempotencyResultReference)
    → check_result r ≡ ok tt
    → encoded_length r.cache_authz_version r.mutation_effect r.result_type
      ≤ 39 + text_length r.result_type
encoded_length-≤ r c = omega (
  arith,
  cache_length-≤ r c,
  effect_length-≤ r.mutation_effect,
  code-ascii_lengths (codes r.result_type) (checked-parts r c).0,
)

encode_metadata-short :
    (cache : Option ℕ) (effect : Option IdempotencyMutationEffect) (type_ : String)
    → encoded_length cache effect type_ ≤ 64
    → (w : StoredResultType) × (encode_metadata cache effect type_ ≡ ok w)
encode_metadata-short none none type_ fits = (plain type_, refl)
encode_metadata-short none (some effect) type_ fits =
    (metadata none (some effect) type_, rw (le→leb _ 64 fits) refl)
encode_metadata-short (some cache) effect type_ fits =
    (metadata (some cache) effect type_, rw (le→leb _ 64 fits) refl)

-- A checked result whose type has at most 25 characters can be written whatever its mutation effect
-- and its authorization version: its JSON text has at most 64 characters.
pub serialize-short :
    (r : IdempotencyResultReference)
    → check_result r ≡ ok tt
    → text_length r.result_type ≤ 25
    → (w : StoredResultType) × (serialize_result_type r ≡ ok w)
unfolding serialize_result_type
serialize-short r c short =
    encode_metadata-short r.cache_authz_version r.mutation_effect r.result_type
      (omega (arith, encoded_length-≤ r c))
