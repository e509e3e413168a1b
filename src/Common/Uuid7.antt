-- ===== src/Common/Uuid7.antt =====
-- What `new_uuid7` makes, `is_uuid7` accepts.
use Prim.Native.Nat.{bit_or}
use lawyer_agent.Prelude.{ℕ, ◌+◌, ◌*◌, ◌/◌, ◌^◌, ◌<◌, ◌≤◌, ◌≡◌, refl, true, arith, ok, err}
use lawyer_agent.Common.{Uuid, is_uuid7, new_uuid7}
use lawyer_agent.Common.Bits.{bit_or_sum}

layout : ℕ → ℕ → ℕ → ℕ
layout t a b = t * 2 ^ 80 + 7 * 2 ^ 76 + a * 2 ^ 64 + 2 * 2 ^ 62 + b

-- The four fields are or-ed below one another, so the number is their sum.
fields_sum :
    (t a b : ℕ)
    → a < 2 ^ 12
    → b < 2 ^ 62
    → bit_or (bit_or (bit_or (bit_or (t * 2 ^ 80) (7 * 2 ^ 76)) (a * 2 ^ 64)) (2 * 2 ^ 62)) b
      ≡ layout t a b
unfolding layout
fields_sum t a b ha hb = rw (bit_or_sum 80 t (t * 2 ^ 80) (7 * 2 ^ 76) refl (omega arith)) (
    rw
      (bit_or_sum 76 (t * 16 + 7) (t * 2 ^ 80 + 7 * 2 ^ 76) (a * 2 ^ 64) (omega arith)
        (omega arith))
      (rw
        (bit_or_sum 64 (t * 2 ^ 16 + 7 * 2 ^ 12 + a) (t * 2 ^ 80 + 7 * 2 ^ 76 + a * 2 ^ 64)
          (2 * 2 ^ 62) (omega arith) (omega arith))
        (bit_or_sum 62 (t * 2 ^ 18 + 7 * 2 ^ 14 + a * 4 + 2)
          (t * 2 ^ 80 + 7 * 2 ^ 76 + a * 2 ^ 64 + 2 * 2 ^ 62) b (omega arith) hb)))

layout-is_uuid7 : (t a b : ℕ) → a < 2 ^ 12 → b < 2 ^ 62 → is_uuid7 (layout t a b) ≡ true
unfolding layout is_uuid7
layout-is_uuid7 t a b ha hb = ground arith

-- With draws of 12 and 62 bits: for a timestamp below 2^48, `new_uuid7` returns a 128-bit number
-- that `is_uuid7` accepts and whose top 48 bits are the timestamp; any other timestamp is refused.
pub new_uuid7-is_uuid7 :
    (t a b : ℕ)
    → a < 2 ^ 12
    → b < 2 ^ 62
    → ((t < 2 ^ 48)
        → (n : Uuid) × (new_uuid7 t a b ≡ ok n)
          × (is_uuid7 n ≡ true)
          × (n / 2 ^ 80 ≡ t)
          × (n < 2 ^ 128))
      × ((2 ^ 48 ≤ t) → new_uuid7 t a b ≡ err "UUIDv7 timestamp out of range")
unfolding new_uuid7
new_uuid7-is_uuid7 t a b ha hb = (
  λ ht. (
    layout t a b,
    ground (arith, fields_sum t a b),
    layout-is_uuid7 t a b ha hb,
    unfold layout in omega arith,
    unfold layout in omega arith,
  ),
  λ ht. ground arith,
)
