-- ===== src/Chunks/Coverage.antt =====
-- The windows cover the text.
use lawyer_agent.Prelude.{
  ℕ, zero, suc, ◌+◌, ◌-◌, ◌≤◌, ◌<◌, max, min, ◌≡◌, refl, ap, ◌∙◌, inl, inr, true, Option, none,
  some, List, [], ◌∷◌, arith, leb, ltb, if◌then◌else◌, length, take, ok, Bool-cases,
}
use lawyer_agent.Chunks.Windows.{
  validate_settings, slice, rfind, max_found, last_boundary, sentence_end, cut_at, Piece,
  window_end, windows, window_pieces_with_offsets,
}

-- A position that was found lies in the range of the search.
abbrev Within : ℕ → ℕ → Option ℕ → Type 0
Within low end none = Unit
Within low end (some b) = (low ≤ b) × (b < end)

rfind-Within : (marker low end i : ℕ) (text : List ℕ) → Within low end (rfind marker low end i text)
unfolding rfind
rfind-Within marker low end i [] = tt
rfind-Within marker low end i (x ∷ xs) = ground (arith, rfind-Within marker low end (i + 1) xs)

max_found-Within :
    (low end : ℕ) (a b : Option ℕ)
    → Within low end a
    → Within low end b
    → Within low end (max_found a b)
max_found-Within low end none b h k = k
max_found-Within low end (some a) none h k = h
max_found-Within low end (some a) (some b) h k = omega (arith, h, k)

last_boundary-Within :
    (markers : List ℕ) (low end : ℕ) (text : List ℕ)
    → Within low end (last_boundary markers low end text)
unfolding last_boundary
last_boundary-Within [] low end text = tt
last_boundary-Within (m ∷ markers) low end text =
    max_found-Within low end (rfind m low end 0 text) (last_boundary markers low end text)
      (rfind-Within m low end 0 text) (last_boundary-Within markers low end text)

-- Where the next window starts after the last one's start, and where this one may end.
record IsWindow (window overlap total start end : ℕ) : Type 0 where
  in_text : end ≤ total
  in_window : end ≤ start + window
  forward : start < end
  overlapping : end < total → start + (window - overlap) < end

cut_at-bounds :
    (window overlap total start : ℕ) (o : Option ℕ)
    → 0 < overlap
    → overlap < window
    → start < total
    → Within (max (start + 1) (min (start + window) total - overlap)) (min (start + window) total) o
    → IsWindow window overlap total start (
        if ltb (min (start + window) total) total
        then cut_at
            (max (start + 1) (min (start + window) total - overlap))
            (min (start + window) total)
            o
        else min (start + window) total)
cut_at-bounds window overlap total start none p q r h = record {
  in_text = ground arith;
  in_window = ground arith;
  forward = ground arith;
  overlapping = ground arith;
}
cut_at-bounds window overlap total start (some b) p q r h = record {
  in_text = ground arith;
  in_window = ground arith;
  forward = ground arith;
  overlapping = ground arith;
}

-- Pieces that go on from `lo`, with the text before `hi` covered: each is the text at its offsets and
-- no longer than the limit, it starts after the one before it has started and no later than where that
-- one ended, and the last one ends with the text.
abbrev pub Covers : ℕ → List ℕ → ℕ → ℕ → List Piece → Type 0
Covers limit text lo hi [] = hi ≡ length text
Covers limit text lo hi ((piece, start, end) ∷ rest) =
    (lo ≤ start)
    × (start ≤ hi)
    × (end ≤ start + limit)
    × (end ≤ length text)
    × (piece ≡ slice text start end)
    × Covers limit text (suc start) end rest

module _ (window overlap : ℕ) (text : List ℕ) (some_overlap : 0 < overlap)
    (short : overlap < window) where
  window_end-IsWindow :
      (start : ℕ)
      → start < length text
      → IsWindow window overlap (length text) start (window_end window overlap text start)
  unfolding window_end
  window_end-IsWindow start r =
      cut_at-bounds window overlap (length text) start _ some_overlap short r
        (last_boundary-Within sentence_end _ _ text)

  windows_cover :
      (fuel start lo hi : ℕ)
      → start < length text
      → length text < start + fuel
      → lo ≤ start
      → start ≤ hi
      → (pieces : List Piece) × (windows fuel window overlap text start ≡ some pieces)
        × Covers window text lo hi pieces
  unfolding windows
  windows_cover zero start lo hi r enough l h = absurd (omega (arith, r, enough))
  windows_cover (suc fuel) start lo hi r enough l h =
      let w = window_end-IsWindow start r in
      let end = window_end window overlap text start in
      elim (Bool-cases (leb (length text) end)) [
        | inl last ↦ (
          (slice text start end, start, end) ∷ [],
          rw (last, started start r) refl,
          (l, h, w.in_window, w.in_text, refl, ground (arith, w.in_text, last)),
        )
        | inr more ↦
            let inside : end < length text = ground (arith, more) in
            let (pieces, found, covers) =
              windows_cover fuel (start + (window - overlap)) (suc start) end
                (omega (arith, w.overlapping inside, inside)) (omega (arith, enough, short))
                (omega (arith, short)) (omega (arith, w.overlapping inside)) in
            (
              (slice text start end, start, end) ∷ pieces,
              rw (more, started start r, next_start start end w.in_window, found) refl,
              (l, h, w.in_window, w.in_text, refl, covers),
            )
      ]
    where
      started : (start : ℕ) → start < length text → ltb start (length text) ≡ true
      started start r = ground (arith, r)

      next_start :
          (start end : ℕ)
          → end ≤ start + window
          → max (start + (window - overlap)) (end - overlap) ≡ start + (window - overlap)
      next_start start end b = omega (arith, short, b)

take-length : (text : List ℕ) → text ≡ take (length text) text
take-length [] = refl
take-length (x ∷ xs) = ap (λ l. x ∷ l) (take-length xs)

slice-whole : (text : List ℕ) → text ≡ slice text 0 (length text)
slice-whole text = take-length text ∙ ap (λ n. take n text) (no_less (length text))
  where
    no_less : (n : ℕ) → n ≡ n - 0
    no_less n = omega arith

-- For settings that pass their validation, the loop over the windows ends, with one more turn than
-- the text has characters as a bound. The pieces are the text at their offsets, the first starts at
-- 0, each next one starts later than the one before it and no later than that one ended, the last
-- ends with the text, and none is longer than the limit: the leaf limit for a text within it, else
-- the window.
pub window_pieces_with_offsets-Covers :
    (leaf window overlap : ℕ) (text : List ℕ)
    → validate_settings leaf window overlap ≡ ok tt
    → (pieces : List Piece) × (window_pieces_with_offsets leaf window overlap text ≡ some pieces)
      × Covers (if leb (length text) leaf then leaf else window) text 0 0 pieces
unfolding window_pieces_with_offsets validate_settings
window_pieces_with_offsets-Covers leaf window overlap text valid =
    elim (Bool-cases (leb (length text) leaf)) [
      | inl short ↦ rw short (
        (text, 0, length text) ∷ [],
        refl,
        (omega arith, omega arith, ground (arith, short), omega arith, slice-whole text, refl),
      )
      | inr long ↦ rw long (
          windows_cover window overlap text (ground (arith, valid)) (ground (arith, valid))
            (suc (length text)) 0 0 0 (ground (arith, long)) (omega arith) (omega arith)
            (omega arith))
    ]
