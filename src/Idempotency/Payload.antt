-- ===== src/Idempotency/Payload.antt =====
-- The fingerprint payload of application/idempotency.py: a JSON body with the paths that identify
-- the request and the paths that hold secrets.
use lawyer_agent.Prelude.{
  ℕ, Bool, true, false, ◌&&◌, ◌||◌, not, Option, none, some, String, List, [], ◌∷◌, ◌++◌, any, all,
  is_empty, str_eq, if◌then◌else◌, Result, ok, err, guard, ◌>>=◌, ◌>>◌,
}
use lawyer_agent.Idempotency.Types.{IdempotencyError}

mutual
  -- A value of a request body. A float has its finiteness and its `repr`; `opaque` is a value that
  -- is neither a mapping, a sequence nor a JSON scalar.
  pub data Json : Type 0 where
    null opaque : Json
    boolean : Bool → Json
    integer : Bool → ℕ → Json
    float : Bool → List ℕ → Json
    text : String → Json
    array : Items → Json
    object : Members → Json

  pub data Items : Type 0 where
    no_items : Items
    item : Json → Items → Items

  pub data Members : Type 0 where
    no_members : Members
    member_of : String → Json → Members → Members

-- `JsonPath`
abbrev pub JsonPath : Type 0
JsonPath = List String

abbrev pub same_path : JsonPath → JsonPath → Bool
same_path [] [] = true
same_path (x ∷ xs) (y ∷ ys) = str_eq x y && same_path xs ys
same_path _ _ = false

-- `path in paths`
abbrev pub has_path : JsonPath → List JsonPath → Bool
has_path p ps = any (same_path p) ps

abbrev pub request_error {ℓ} : {A : Type ℓ} → String → Result IdempotencyError A
request_error message = err (IdempotencyError.invalid_request message)

-- `_canonical_business_leaf` of a value that is neither a mapping nor a sequence.
abbrev pub scalar_leaf : Json → Result IdempotencyError Json
scalar_leaf opaque = request_error "request body must contain canonical JSON values"
scalar_leaf (array _) =
    request_error "fingerprint sequence values require an explicit safe scalar schema"
scalar_leaf (object _) = request_error "fingerprint paths must terminate at an exact scalar leaf"
scalar_leaf v = ok v

-- `isinstance(child, Mapping) or isinstance(child, Sequence)`
abbrev is_nested : Json → Bool
is_nested (array _) = true
is_nested (object _) = true
is_nested _ = false

abbrev any_nested : Items → Bool
any_nested no_items = false
any_nested (item v vs) = is_nested v || any_nested vs

abbrev item_leaves : Items → Result IdempotencyError Items
item_leaves no_items = ok no_items
item_leaves (item v vs) = do v' ← scalar_leaf v; vs' ← item_leaves vs; ok (item v' vs')

-- `_canonical_business_leaf`
unfoldable pub canonical_business_leaf : Json → Result IdempotencyError Json
canonical_business_leaf (array vs) = do
  guard (not (any_nested vs)) (
      IdempotencyError.invalid_request
        "fingerprint sequence values require an explicit safe scalar schema")
  vs' ← item_leaves vs
  ok (array vs')
canonical_business_leaf v = scalar_leaf v

-- `_require_explicit_leaf`
unfoldable pub require_explicit_leaf : Json → Result IdempotencyError (Unit {0})
unfolding canonical_business_leaf
require_explicit_leaf v = elim (canonical_business_leaf v) [
  | ok _ ↦ ok tt
  | err _ ↦ request_error "secret paths must classify exact scalar leaves"
]

-- What a value at a path that is not an inner mapping is projected to; `none` is `_OMIT`.
abbrev pub classify :
    List JsonPath
    → List JsonPath
    → JsonPath
    → Json
    → Result IdempotencyError (Option Json)
    → Result IdempotencyError (Option Json)
classify business secret path v otherwise =
    if has_path path secret
    then (require_explicit_leaf v >>= λ _. ok none)
    else if has_path path business
    then (canonical_business_leaf v >>= λ leaf. ok (some leaf))
    else otherwise

abbrev pub with_member : String → Option Json → Members → Members
with_member key none rest = rest
with_member key (some v) rest = member_of key v rest

module _ (business secret : List JsonPath) where
  unfoldable mutual
    unfolding canonical_business_leaf require_explicit_leaf

    -- `_project_explicit_paths`
    pub project_explicit_paths : JsonPath → Json → Result IdempotencyError (Option Json)
    project_explicit_paths path (object members) =
        classify business secret path (object members)
          (project_members path members >>= λ members'. ok (some (object members')))
    project_explicit_paths path v =
        classify business secret path v
          (request_error "request body contains an unclassified business or secret field")

    pub project_members : JsonPath → Members → Result IdempotencyError Members
    project_members path no_members = ok no_members
    project_members path (member_of key child rest) = do
      projected ← project_explicit_paths (path ++ key ∷ []) child
      rest' ← project_members path rest
      ok (with_member key projected rest')

-- `IdempotencyFingerprintPayload`
pub record IdempotencyFingerprintPayload : Type 0 where
  pub values : Members
  pub business_paths : List JsonPath
  pub secret_paths : List JsonPath

abbrev is_path : JsonPath → Bool
is_path [] = false
is_path (part ∷ parts) = not (is_empty part) && all (λ p. not (is_empty p)) parts

-- `_require_paths`
unfoldable pub require_paths : List JsonPath → Result IdempotencyError (Unit {0})
require_paths paths =
    guard (all is_path paths) (IdempotencyError.invalid_request "contains an invalid JSON path")

-- `len(left) < len(right) and right[:len(left)] == left`
abbrev pub is_proper_prefix : JsonPath → JsonPath → Bool
is_proper_prefix [] [] = false
is_proper_prefix [] (_ ∷ _) = true
is_proper_prefix (x ∷ xs) [] = false
is_proper_prefix (x ∷ xs) (y ∷ ys) = str_eq x y && is_proper_prefix xs ys

-- `IdempotencyFingerprintPayload.__post_init__`
unfoldable pub check_payload : IdempotencyFingerprintPayload → Result IdempotencyError (Unit {0})
unfolding require_paths
check_payload p = do
  let paths = p.business_paths ++ p.secret_paths
  require_paths p.business_paths
  require_paths p.secret_paths
  guard (not (any (λ b. has_path b p.secret_paths) p.business_paths))
      (IdempotencyError.invalid_request "fingerprint paths must not overlap")
  guard (not (any (λ left. any (is_proper_prefix left) paths) paths))
      (IdempotencyError.invalid_request "fingerprint paths must not overlap")

abbrev pub as_members : Option Json → Result IdempotencyError Members
as_members (some (object members)) = ok members
as_members _ = request_error "fingerprint payload must remain an object"

-- `canonical_business_values`
unfoldable pub canonical_business_values :
    IdempotencyFingerprintPayload → Result IdempotencyError Members
unfolding project_explicit_paths
canonical_business_values p = do
  projected ← project_explicit_paths p.business_paths p.secret_paths [] (object p.values)
  as_members projected
