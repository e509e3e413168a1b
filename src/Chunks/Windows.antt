-- ===== src/Chunks/Windows.antt =====
-- The loop over the windows, on fuel, and the searches that it makes.
use lawyer_agent.Prelude.{
  ℕ, zero, suc, ◌+◌, ◌-◌, max, min, not, ◌&&◌, Option, none, some, List, [], ◌∷◌, String, leb, ltb,
  ◌==◌, if◌then◌else◌, length, take, drop, Result, guard, ◌>>◌,
}

-- `_validate_settings`
unfoldable pub validate_settings : ℕ → ℕ → ℕ → Result String (Unit {0})
validate_settings max_leaf_chars window_chars overlap_chars = do
  guard (ltb 0 max_leaf_chars) "max_leaf_chars must be a positive integer"
  guard (ltb 0 window_chars) "window_chars must be a positive integer"
  guard (ltb 0 overlap_chars) "overlap_chars must be a positive integer"
  guard (ltb overlap_chars window_chars) "overlap_chars must be smaller than window_chars"
  guard (leb window_chars max_leaf_chars) "max_leaf_chars must not be smaller than window_chars"

-- `text[start:end]`
abbrev pub slice : List ℕ → ℕ → ℕ → List ℕ
slice text start end = take (end - start) (drop start text)

-- `text.rfind(marker, low, end)`, for the part of the text from position `i`; none stands for -1.
unfoldable pub rfind : ℕ → ℕ → ℕ → ℕ → List ℕ → Option ℕ
rfind marker low end i [] = none
rfind marker low end i (x ∷ xs) =
    let here = if x == marker && leb low i && ltb i end then some i else none in
    elim (rfind marker low end (i + 1) xs) [ some j ↦ some j | none ↦ here ]

-- The larger of two positions.
abbrev pub max_found : Option ℕ → Option ℕ → Option ℕ
max_found none b = b
max_found (some a) none = some a
max_found (some a) (some b) = some (max a b)

-- `max((text.rfind(marker, low, end) for marker in markers), default=-1)`
unfoldable pub last_boundary : List ℕ → ℕ → ℕ → List ℕ → Option ℕ
unfolding rfind
last_boundary [] low end text = none
last_boundary (marker ∷ markers) low end text =
    max_found (rfind marker low end 0 text) (last_boundary markers low end text)

-- `_SENTENCE_END`
abbrev pub sentence_end : List ℕ
sentence_end = 12290 ∷ 65281 ∷ 65311 ∷ 65307 ∷ 59 ∷ []

-- `if boundary >= low: end = boundary + 1`
abbrev pub cut_at : ℕ → ℕ → Option ℕ → ℕ
cut_at low end none = end
cut_at low end (some boundary) = if leb low boundary then boundary + 1 else end

-- A window's piece of the text with its offsets.
abbrev pub Piece : Type 0
Piece = List ℕ × ℕ × ℕ

-- The end of the window that starts at `start`.
unfoldable pub window_end : ℕ → ℕ → List ℕ → ℕ → ℕ
unfolding last_boundary
window_end window_chars overlap_chars text start =
    let end = min (start + window_chars) (length text) in
    let low = max (start + 1) (end - overlap_chars) in
    let cut = cut_at low end (last_boundary sentence_end low end text) in
    if ltb end (length text) then cut else end

-- The `while` loop; none stands for fuel that ran out.
unfoldable pub windows : ℕ → ℕ → ℕ → List ℕ → ℕ → Option (List Piece)
unfolding window_end
windows zero window_chars overlap_chars text start = none
windows (suc fuel) window_chars overlap_chars text start =
    let end = window_end window_chars overlap_chars text start in
    let piece : Piece = (slice text start end, start, end) in
    let rest =
      windows fuel window_chars overlap_chars text
        (max (start + (window_chars - overlap_chars)) (end - overlap_chars)) in
    if not (ltb start (length text))
    then some []
    else (if leb (length text) end
        then some (piece ∷ [])
        else elim rest [ some pieces ↦ some (piece ∷ pieces) | none ↦ none ])

-- `_window_pieces_with_offsets`, with one more unit of fuel than the text has characters.
unfoldable pub window_pieces_with_offsets : ℕ → ℕ → ℕ → List ℕ → Option (List Piece)
unfolding windows
window_pieces_with_offsets max_leaf_chars window_chars overlap_chars text =
    if leb (length text) max_leaf_chars
    then some ((text, 0, length text) ∷ [])
    else windows (suc (length text)) window_chars overlap_chars text 0
