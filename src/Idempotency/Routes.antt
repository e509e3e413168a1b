-- ===== src/Idempotency/Routes.antt =====
-- The canonical method and route of application/idempotency.py: `_canonical_method`,
-- `_canonical_route` and what it reads of `urlsplit`. Texts are their code points.
use lawyer_agent.Prelude.{
  ℕ, ◌-◌, Bool, true, false, not, ◌&&◌, ◌||◌, List, [], ◌∷◌, ◌++◌, String, codes, all, any, keep,
  length, leb, ◌==◌, if◌then◌else◌, Result, ok, guard, ◌>>◌,
}
use lawyer_agent.Idempotency.Types.{IdempotencyError, is_lower, is_upper, is_digit}

-- `str.upper` of one character where the result has an ASCII letter in it only; every other
-- character keeps a character that `[A-Z]` refuses.
unfoldable pub upper : ℕ → List ℕ
upper c =
    if is_lower c
    then (c - 32) ∷ []
    else if c == 0xdf
    then codes "SS"
    else if c == 0x131
    then codes "I"
    else if c == 0x17f
    then codes "S"
    else if c == 0xfb00
    then codes "FF"
    else if c == 0xfb01
    then codes "FI"
    else if c == 0xfb02
    then codes "FL"
    else if c == 0xfb03
    then codes "FFI"
    else if c == 0xfb04
    then codes "FFL"
    else if c == 0xfb05 || c == 0xfb06
    then codes "ST"
    else c ∷ []

abbrev pub upper_all : List ℕ → List ℕ
upper_all [] = []
upper_all (c ∷ cs) = upper c ++ upper_all cs

-- `_canonical_method`, for `[A-Z]{1,16}`.
unfoldable pub canonical_method : String → Result IdempotencyError (List ℕ)
unfolding upper
canonical_method value = do
  let method = upper_all (codes value)
  guard (leb 1 (length method) && leb (length method) 16 && all is_upper method)
      (IdempotencyError.invalid_request "HTTP method is invalid")
  ok method

-- `text.split(mark, 1)`, with what stands after the mark.
abbrev pub split_once : ℕ → List ℕ → List ℕ × List ℕ
split_once mark [] = ([], [])
split_once mark (c ∷ cs) =
    let (head, tail) = split_once mark cs in if c == mark then ([], cs) else (c ∷ head, tail)

-- `text.rstrip(mark)`
abbrev rstrip_onto : ℕ → ℕ → List ℕ → List ℕ
rstrip_onto mark c [] = if c == mark then [] else c ∷ []
rstrip_onto mark c (d ∷ ds) = c ∷ d ∷ ds

abbrev pub rstrip : ℕ → List ℕ → List ℕ
rstrip mark [] = []
rstrip mark (c ∷ cs) = rstrip_onto mark c (rstrip mark cs)

-- What `urlsplit` drops: leading controls and spaces, and every tab or line break.
abbrev lstrip : List ℕ → List ℕ
lstrip [] = []
lstrip (c ∷ cs) = let rest = lstrip cs in if leb c 32 then rest else c ∷ cs

abbrev cleaned : List ℕ → List ℕ
cleaned cs = keep (λ c. not (c == 9 || c == 10 || c == 13)) (lstrip cs)

abbrev is_scheme_char : ℕ → Bool
is_scheme_char c = is_lower c || is_upper c || is_digit c || c == 43 || c == 45 || c == 46

abbrev is_scheme : List ℕ → Bool
is_scheme [] = false
is_scheme (c ∷ cs) = (is_lower c || is_upper c) && all is_scheme_char cs

abbrev has_scheme : List ℕ → Bool
has_scheme cs = any (λ c. c == 58) cs && is_scheme (split_once 58 cs).0

-- The authority of a reference that starts with "//", and what stands after it.
abbrev split_netloc : List ℕ → List ℕ × List ℕ
split_netloc [] = ([], [])
split_netloc (c ∷ cs) =
    let (netloc, rest) = split_netloc cs in
    if c == 47 || c == 63 || c == 35 then ([], c ∷ cs) else (c ∷ netloc, rest)

abbrev split_authority : List ℕ → List ℕ × List ℕ
split_authority (a ∷ b ∷ cs) = if a == 47 && b == 47 then split_netloc cs else ([], a ∷ b ∷ cs)
split_authority cs = ([], cs)

-- `urlsplit(value)`: whether it has a scheme, then authority, path, query and fragment.
pub record SplitResult : Type 0 where
  pub scheme : Bool
  pub netloc : List ℕ
  pub path : List ℕ
  pub query : List ℕ
  pub fragment : List ℕ

unfoldable pub urlsplit : List ℕ → SplitResult
urlsplit value =
    let text = cleaned value in
    let (netloc, rest) = split_authority text in
    let (before, fragment) = split_once 35 rest in
    let (path, query) = split_once 63 before in
    record {
      scheme = has_scheme text;
      netloc = netloc;
      path = path;
      query = query;
      fragment = fragment;
    }

abbrev absent : List ℕ → Bool
absent [] = true
absent (_ ∷ _) = false

-- `[A-Za-z0-9._~:/{}-]`
unfoldable pub is_route_char : ℕ → Bool
is_route_char c = is_lower c || is_upper c || is_digit c || any (λ d. d == c) (codes "._~:/{}-")

abbrev or_root : List ℕ → List ℕ
or_root [] = 47 ∷ []
or_root (c ∷ cs) = c ∷ cs

-- `/[A-Za-z0-9._~:/{}-]{1,511}`
abbrev is_route : List ℕ → Bool
is_route [] = false
is_route (c ∷ cs) = c == 47 && leb 1 (length cs) && leb (length cs) 511 && all is_route_char cs

-- `_canonical_route`
unfoldable pub canonical_route : String → Result IdempotencyError (List ℕ)
unfolding urlsplit is_route_char
canonical_route value = do
  let split = urlsplit (codes value)
  guard (not split.scheme && absent split.netloc && absent split.query && absent split.fragment)
      (IdempotencyError.invalid_request "canonical route must be a path without query data")
  let route = or_root (rstrip 47 split.path)
  guard (is_route route) (IdempotencyError.invalid_request "canonical route is invalid")
  ok route
