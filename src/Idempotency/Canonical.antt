-- ===== src/Idempotency/Canonical.antt =====
-- The canonical JSON text of application/idempotency.py: `json.dumps` with sorted keys, no spaces
-- and no NaN, in UTF-8.
use lawyer_agent.Prelude.{
  ℕ, zero, suc, ◌+◌, ◌/◌, ◌%◌, Bool, true, false, ◌||◌, String, List, [], ◌∷◌, ◌++◌, codes, ltb,
  ◌==◌, if◌then◌else◌, Result, ok, ◌>>=◌,
}
use lawyer_agent.Idempotency.Types.{IdempotencyError}
use lawyer_agent.Idempotency.Payload.{
  Json, null, opaque, boolean, integer, float, text, array, object, Items, no_items, item, Members,
  no_members, member_of, request_error,
}

-- The decimal digits of a number, with the number itself as the fuel of its divisions.
abbrev decimal : ℕ → ℕ → List ℕ → List ℕ
decimal zero n rest = rest
decimal (suc fuel) n rest = elim (ltb n 10) [
  | true ↦ (48 + n) ∷ rest
  | false ↦ decimal fuel (n / 10) ((48 + n % 10) ∷ rest)
]

abbrev pub digits : ℕ → List ℕ
digits n = decimal (suc n) n []

abbrev hex_digit : ℕ → ℕ
hex_digit d = if ltb d 10 then 48 + d else 87 + d

-- One character of a string literal.
unfoldable pub escape : ℕ → List ℕ
escape c =
    if c == 34 || c == 92
    then 92 ∷ c ∷ []
    else if c == 8
    then 92 ∷ 98 ∷ []
    else if c == 9
    then 92 ∷ 116 ∷ []
    else if c == 10
    then 92 ∷ 110 ∷ []
    else if c == 12
    then 92 ∷ 102 ∷ []
    else if c == 13
    then 92 ∷ 114 ∷ []
    else if ltb c 32
    then 92 ∷ 117 ∷ 48 ∷ 48 ∷ hex_digit (c / 16) ∷ hex_digit (c % 16) ∷ []
    else c ∷ []

abbrev escape_all : List ℕ → List ℕ
escape_all [] = []
escape_all (c ∷ cs) = escape c ++ escape_all cs

-- A string literal.
abbrev pub quote : String → List ℕ
quote s = 34 ∷ escape_all (codes s) ++ 34 ∷ []

-- The order of `sort_keys`: by code points.
abbrev pub sorts_before : List ℕ → List ℕ → Bool
sorts_before [] _ = true
sorts_before (x ∷ xs) [] = false
sorts_before (x ∷ xs) (y ∷ ys) = if x == y then sorts_before xs ys else ltb x y

-- The written members, in the order of their keys.
abbrev pub insert_by_key : List ℕ × List ℕ → List (List ℕ × List ℕ) → List (List ℕ × List ℕ)
insert_by_key (k, t) [] = (k, t) ∷ []
insert_by_key (k, t) ((k', t') ∷ rest) =
    let later = insert_by_key (k, t) rest in
    if sorts_before k k' then (k, t) ∷ (k', t') ∷ rest else (k', t') ∷ later

abbrev pub separated : List (List ℕ × List ℕ) → List ℕ
separated [] = []
separated ((k, t) ∷ []) = t
separated ((k, t) ∷ rest) = t ++ 44 ∷ separated rest

abbrev null_text : List ℕ
null_text = codes "null"

unfoldable mutual
  unfolding escape

  -- `json.dumps(value, ensure_ascii=False, allow_nan=False, sort_keys=True, separators=(",", ":"))`
  pub dumps : Json → Result IdempotencyError (List ℕ)
  dumps null = ok null_text
  dumps opaque = request_error "request body is not canonical JSON"
  dumps (boolean true) = ok (codes "true")
  dumps (boolean false) = ok (codes "false")
  dumps (integer false n) = ok (digits n)
  dumps (integer true n) = ok (45 ∷ digits n)
  dumps (float true repr) = ok repr
  dumps (float false repr) = request_error "request body is not canonical JSON"
  dumps (text s) = ok (quote s)
  dumps (array no_items) = ok (codes "[]")
  dumps (array (item v vs)) = do first ← dumps v; rest ← dumps_items vs; ok (91 ∷ first ++ rest)
  dumps (object members) = do
    written ← dumps_members members
    ok (123 ∷ separated written ++ 125 ∷ [])

  pub dumps_items : Items → Result IdempotencyError (List ℕ)
  dumps_items no_items = ok (93 ∷ [])
  dumps_items (item v vs) = do next ← dumps v; rest ← dumps_items vs; ok (44 ∷ next ++ rest)

  pub dumps_members : Members → Result IdempotencyError (List (List ℕ × List ℕ))
  dumps_members no_members = ok []
  dumps_members (member_of key v rest) = do
    value ← dumps v
    written ← dumps_members rest
    ok (insert_by_key (codes key, quote key ++ 58 ∷ value) written)

-- The UTF-8 bytes of a code point.
unfoldable pub utf8 : ℕ → List ℕ
utf8 c =
    if ltb c 0x80
    then c ∷ []
    else if ltb c 0x800
    then (0xc0 + c / 64) ∷ (0x80 + c % 64) ∷ []
    else if ltb c 0x10000
    then (0xe0 + c / 4096) ∷ (0x80 + c / 64 % 64) ∷ (0x80 + c % 64) ∷ []
    else (0xf0 + c / 262144) ∷ (0x80 + c / 4096 % 64) ∷ (0x80 + c / 64 % 64) ∷ (0x80 + c % 64) ∷ []

abbrev pub encode_utf8 : List ℕ → List ℕ
encode_utf8 [] = []
encode_utf8 (c ∷ cs) = utf8 c ++ encode_utf8 cs

-- `_canonical_json`
unfoldable pub canonical_json : Json → Result IdempotencyError (List ℕ)
unfolding dumps utf8
canonical_json v = do written ← dumps v; ok (encode_utf8 written)
