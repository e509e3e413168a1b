-- ===== src/Common.antt =====
-- Identifiers and timestamps at the domain boundary: backend/src/lawyer_agent/domain/common.py and
-- the guards on aware datetimes and positive ints that the domain modules repeat.
pub mod Bits
pub mod Uuid7
use Prim.Native.Nat.{bit_or}
use Prim.Native.String.{◌++◌ as str_append}
use lawyer_agent.Prelude.{
  ℕ, ◌+◌, ◌*◌, ◌/◌, ◌%◌, ◌^◌, Bool, true, false, not, ◌&&◌, Option, none, some, String, ltb, leb,
  ◌==◌, Result, ok, err, guard, ◌>>=◌, ◌>>◌, List, [], ◌∷◌,
}

-- A `UUID` is the 128-bit number of its field `int`.
abbrev pub Uuid : Type 0
Uuid = ℕ

-- `value.variant == RFC_4122`: bit 63 is set and bit 62 is not.
unfoldable pub is_rfc_4122 : Uuid → Bool
is_rfc_4122 n = n / 2 ^ 63 % 2 == 1 && n / 2 ^ 62 % 2 == 0

-- `value.version`, which the standard library gives for that variant only.
unfoldable pub uuid_version : Uuid → Option ℕ
unfolding is_rfc_4122
uuid_version n = elim (is_rfc_4122 n) [ true ↦ some (n / 2 ^ 76 % 16) | false ↦ none ]

unfoldable pub is_uuid7 : Uuid → Bool
unfolding uuid_version
is_uuid7 n =
    elim (uuid_version n) [ some v ↦ v == 7 | none ↦ false ] && is_rfc_4122 n && not (n == 0)

unfoldable pub require_uuid7 : Uuid → String → Result String Uuid
unfolding is_uuid7
require_uuid7 n field = do guard (is_uuid7 n) (str_append field " must be an RFC 9562 UUIDv7"); ok n

-- `new_uuid7`, with the clock's milliseconds and the two draws of `secrets.randbits` as arguments.
unfoldable pub new_uuid7 : ℕ → ℕ → ℕ → Result String Uuid
new_uuid7 timestamp random_a random_b = do
  guard (ltb timestamp (2 ^ 48)) "UUIDv7 timestamp out of range"
  ok (
      bit_or
        (bit_or (bit_or (bit_or (timestamp * 2 ^ 80) (7 * 2 ^ 76)) (random_a * 2 ^ 64))
          (2 * 2 ^ 62))
        random_b)

-- The time zone of a `datetime`: none, UTC's offset, or another.
pub data Zone : Type 0 where
  naive utc offset : Zone

-- A `datetime`, with its instant in microseconds.
pub record DateTime : Type 0 where
  pub zone : Zone
  pub instant : ℕ

-- `value.tzinfo is not None and value.utcoffset() == UTC.utcoffset(value)`
abbrev pub is_utc_zone : Zone → Bool
is_utc_zone utc = true
is_utc_zone _ = false

abbrev pub is_utc : DateTime → Bool
is_utc t = is_utc_zone t.zone

-- `for value, name in (...): require_uuid7(value, field=name)`
unfoldable pub require_all_uuid7 : List (Uuid × String) → Result String (Unit {0})
unfolding require_uuid7
require_all_uuid7 [] = ok tt
require_all_uuid7 ((n, field) ∷ rest) = require_uuid7 n field >>= λ _. require_all_uuid7 rest

-- `_require_utc` of domain/ai_jobs.py.
unfoldable pub require_utc : DateTime → String → Result String (Unit {0})
require_utc t name = guard (is_utc t) (str_append name " must be UTC-aware")

-- `_require_positive_int` of domain/ai_jobs.py and domain/matter_documents.py.
unfoldable pub require_positive_int : ℕ → String → Result String (Unit {0})
require_positive_int n name = guard (leb 1 n) (str_append name " must be a positive integer")

-- An aware datetime at UTC.
abbrev pub at_utc : ℕ → DateTime
at_utc n = record { zone = utc; instant = n }
