-- ===== src/SourceDiff/Changed.antt =====
-- What a diff says of two source files.
use lawyer_agent.Prelude.{
  ℕ, ◌≡◌, refl, sym, ap, ◌∙◌, ◌↔◌, Bool, true, false, ◌||◌, Option, none, some, List, [], ◌∷◌,
  is_none, arith, if◌then◌else◌, ok,
}
use lawyer_agent.JobStore.Lookup.{some-inside}
use lawyer_agent.Idempotency.Slots.{same_bytes→eq, same_bytes_refl}
use lawyer_agent.SourceDiff.{
  ParsedSourceArticle, SourceDiffEntry, ModifiedSourceEntry, LegalSourceDiff, with_number,
  added_entries, diff_source_articles, is_filled,
}
use lawyer_agent.SourceDiff.Placed.{
  modified_under, previous_of, current_of, removed_at, modified_at, unchanged_at,
  compare_each-Places, added_at, added_entries-with_number, diff-entries,
}
use lawyer_agent.SourceDiff.Entries.{or_else, text_of}
use lawyer_agent.SourceDiff.Indexed.{source_text, index_from-text, index_from-Distinct}

-- The texts that a diff shows for the old file and for the new one.
abbrev pub text_before : LegalSourceDiff → List ℕ → Option (List ℕ)
text_before d number = or_else (text_of (with_number number d.unchanged)) (
    or_else (text_of (previous_of (modified_under number d.modified)))
      (text_of (with_number number d.removed)))

abbrev pub text_after : LegalSourceDiff → List ℕ → Option (List ℕ)
text_after d number = or_else (text_of (with_number number d.unchanged)) (
    or_else (text_of (current_of (modified_under number d.modified)))
      (text_of (with_number number d.added)))

before_at :
    (old new : Option SourceDiffEntry)
    → or_else
        (text_of (unchanged_at old new))
        (or_else (text_of (previous_of (modified_at old new))) (text_of (removed_at old new)))
      ≡ text_of old
before_at none new = refl
before_at (some o) none = refl
before_at (some o) (some e) = ground (arith, same_bytes→eq o.full_text e.full_text)

after_at :
    (old new : Option SourceDiffEntry)
    → or_else (text_of (unchanged_at old new)) (
        or_else
          (text_of (current_of (modified_at old new)))
          (text_of (if is_none old then new else none)))
      ≡ text_of new
after_at none new = refl
after_at (some o) none = refl
after_at (some o) (some e) = ground arith

pub diff_source_articles-source_text :
    (old_articles new_articles : List ParsedSourceArticle) (d : LegalSourceDiff)
    → diff_source_articles old_articles new_articles ≡ ok d
    → (number : List ℕ)
    → (text_before d number ≡ source_text number old_articles)
      × (text_after d number ≡ source_text number new_articles)
diff_source_articles-source_text old_articles new_articles d h number =
    let (old, new, c, o, n, k, is) = diff-entries old_articles new_articles d h in
    let (removed, modified, unchanged) =
      compare_each-Places new old c (index_from-Distinct old_articles [] old o tt) k number in
    (
      rw (is, unchanged, modified, removed)
          (before_at (with_number number old) (with_number number new)
            ∙ index_from-text old_articles [] old o number),
      rw (is, unchanged, modified, added_entries-with_number old new number)
          (after_at (with_number number old) (with_number number new)
            ∙ index_from-text new_articles [] new n number),
    )

or_else-none : (a : Option (List ℕ)) → or_else a none ≡ a
or_else-none none = refl
or_else-none (some a) = refl

is_filled-false {ℓ} : {A : Type ℓ} (xs : List A) → is_filled xs ≡ false → xs ≡ []
is_filled-false [] e = refl
is_filled-false (x ∷ xs) e = cc

unfilled :
    (es : List SourceDiffEntry) → ((n : List ℕ) → with_number n es ≡ none) → is_filled es ≡ false
unfilled [] h = refl
unfilled (e ∷ es) h = ground (arith, h e.provision_no, same_bytes_refl e.provision_no)

unmodified :
    (ms : List ModifiedSourceEntry)
    → ((n : List ℕ) → modified_under n ms ≡ none)
    → is_filled ms ≡ false
unmodified [] h = refl
unmodified (m ∷ ms) h = ground (arith, h m.provision_no, same_bytes_refl m.provision_no)

-- Where the texts are the same, an entry is in none of the lists of changes.
same-kept :
    (old new : Option SourceDiffEntry)
    → text_of old ≡ text_of new
    → (removed_at old new ≡ none)
      × (modified_at old new ≡ none)
      × ((if is_none old then new else none) ≡ none)
same-kept none none e = (refl, refl, refl)
same-kept none (some n) e = cc
same-kept (some o) none e = cc
same-kept (some o) (some n) e =
    (refl, ground (arith, same_bytes_refl o.full_text, some-inside _ _ e), refl)

unchanged-same :
    (d : LegalSourceDiff) (number : List ℕ)
    → d.added ≡ []
    → d.removed ≡ []
    → d.modified ≡ []
    → text_before d number ≡ text_after d number
unchanged-same d number a r m =
    ap (or_else (text_of (with_number number d.unchanged))) (rw (a, r, m) refl)

or-false : (a b c : Bool) → (a || b || c) ≡ false → (a ≡ false) × (b ≡ false) × (c ≡ false)
or-false false false false e = (refl, refl, refl)
or-false true b c e = cc
or-false false true c e = cc
or-false false false true e = cc

diff-same :
    (old_articles new_articles : List ParsedSourceArticle) (d : LegalSourceDiff)
    → diff_source_articles old_articles new_articles ≡ ok d
    → d.changed ≡ false
    → (number : List ℕ) → source_text number old_articles ≡ source_text number new_articles
diff-same old_articles new_articles d h e number =
    let (old, new, c, o, n, k, is) = diff-entries old_articles new_articles d h in
    let (a, r, m) =
      or-false (is_filled (added_entries old new)) (is_filled c.removed) (is_filled c.modified)
        (sym (ap (λ x. x.changed) is) ∙ e) in
    let (before, after) = diff_source_articles-source_text old_articles new_articles d h number in
    sym before
    ∙ unchanged-same d number (ap (λ x. x.added) is ∙ is_filled-false _ a)
        (ap (λ x. x.removed) is ∙ is_filled-false _ r)
        (ap (λ x. x.modified) is ∙ is_filled-false _ m)
    ∙ after

diff-changed :
    (old_articles new_articles : List ParsedSourceArticle) (d : LegalSourceDiff)
    → diff_source_articles old_articles new_articles ≡ ok d
    → ((number : List ℕ) → source_text number old_articles ≡ source_text number new_articles)
    → d.changed ≡ false
diff-changed old_articles new_articles d h same =
    let (old, new, c, o, n, k, is) = diff-entries old_articles new_articles d h in
    let places = compare_each-Places new old c (index_from-Distinct old_articles [] old o tt) k in
    let kept : (number : List ℕ)
        → (removed_at (with_number number old) (with_number number new) ≡ none)
          × (modified_at (with_number number old) (with_number number new) ≡ none)
          × (added_at old number (with_number number new) ≡ none) =
      λ number. same-kept (with_number number old) (with_number number new) (
        index_from-text old_articles [] old o number
        ∙ same number
        ∙ sym (index_from-text new_articles [] new n number)) in
    ap (λ x. x.changed) is
    ∙ rw
        (
          unfilled (added_entries old new) (λ x. added_entries-with_number old new x ∙ (kept x).2),
          unfilled c.removed (λ x. (places x).0 ∙ (kept x).0),
          unmodified c.modified (λ x. (places x).1 ∙ (kept x).1),
        )
        refl

-- When two source files have a diff, it says that nothing has changed exactly when both files have
-- the same text, or none, under every number, whatever the order of the articles and their structure
-- paths.
pub diff_source_articles-changed :
    (old_articles new_articles : List ParsedSourceArticle) (d : LegalSourceDiff)
    → diff_source_articles old_articles new_articles ≡ ok d
    → (d.changed ≡ false)
      ↔ ((number : List ℕ) → source_text number old_articles ≡ source_text number new_articles)
diff_source_articles-changed old_articles new_articles d h =
    (diff-same old_articles new_articles d h, diff-changed old_articles new_articles d h)
