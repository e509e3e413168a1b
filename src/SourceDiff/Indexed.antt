-- ===== src/SourceDiff/Indexed.antt =====
-- `_index`: the entries of a file are its articles, under distinct numbers.
use mathlib.Core.Path.{subst}
use lawyer_agent.Prelude.{
  ℕ, ◌≡◌, refl, Bool, true, false, not, Option, none, some, List, [], ◌∷◌, ◌++◌, all, is_none,
  is_space, arith, if◌then◌else◌, ok, guard, bind-eq-ok, ok-inside,
}
use lawyer_agent.JobStore.Inbox.{same_bytes}
use lawyer_agent.SourceDiff.{
  ParsedSourceArticle, SourceDiffEntry, LegalSourceDiffError, strip, entry_of, with_number,
  index_from,
}
use lawyer_agent.SourceDiff.Entries.{or_else, text_of, Distinct, text_of-append, append-Distinct}

-- The text of the first article of a file under a number.
unfoldable pub source_text : List ℕ → List ParsedSourceArticle → Option (List ℕ)
source_text number [] = none
source_text number (a ∷ articles) =
    let later = source_text number articles in
    if same_bytes (strip a.provision_no) number then some a.text else later

guard-not :
    (b : Bool) (e : LegalSourceDiffError) (u : Unit {0}) → guard (not b) e ≡ ok u → b ≡ false
guard-not false e u h = refl
guard-not true e u h = cc

guard-is_none :
    (o : Option SourceDiffEntry) (e : LegalSourceDiffError) (u : Unit {0})
    → guard (is_none o) e ≡ ok u
    → o ≡ none
guard-is_none none e u h = refl
guard-is_none (some x) e u h = cc

-- An article that was indexed is not blank and has a new number.
pub index_from-fresh :
    (a : ParsedSourceArticle) (articles : List ParsedSourceArticle)
    (indexed entries : List SourceDiffEntry)
    → index_from indexed (a ∷ articles) ≡ ok entries
    → (all is_space a.provision_no ≡ false)
      × (all is_space a.text ≡ false)
      × (with_number (strip a.provision_no) indexed ≡ none)
      × (index_from (indexed ++ entry_of a ∷ []) articles ≡ ok entries)
unfolding index_from
index_from-fresh a articles indexed entries h =
    let (_, number, h1) =
      bind-eq-ok
        (guard (not (all is_space a.provision_no))
          (LegalSourceDiffError.invalid_source "provision number must be non-empty text"))
        _ h in
    let (_, text, h2) =
      bind-eq-ok
        (guard (not (all is_space a.text))
          (LegalSourceDiffError.invalid_source "article full text must be non-empty"))
        _ h1 in
    let (_, free, h3) =
      bind-eq-ok
        (guard (is_none (with_number (strip a.provision_no) indexed))
          (LegalSourceDiffError.duplicate_number (strip a.provision_no)))
        _ h2 in
    (
      guard-not _ _ _ number,
      guard-not _ _ _ text,
      guard-is_none (with_number (strip a.provision_no) indexed) _ _ free,
      h3,
    )

or_else_assoc : (a b c : Option (List ℕ)) → or_else (or_else a b) c ≡ or_else a (or_else b c)
or_else_assoc none b c = refl
or_else_assoc (some a) b c = refl

pub index_from-text :
    (articles : List ParsedSourceArticle) (indexed entries : List SourceDiffEntry)
    → index_from indexed articles ≡ ok entries
    → (number : List ℕ)
    → text_of (with_number number entries)
      ≡ or_else (text_of (with_number number indexed)) (source_text number articles)
unfolding index_from source_text
index_from-text [] indexed entries h number = ground arith
index_from-text (a ∷ articles) indexed entries h number =
    let (_, _, free, later) = index_from-fresh a articles indexed entries h in
    ground (
      arith,
      index_from-text articles (indexed ++ entry_of a ∷ []) entries later number,
      text_of-append indexed (entry_of a) number,
    )

pub index_from-Distinct :
    (articles : List ParsedSourceArticle) (indexed entries : List SourceDiffEntry)
    → index_from indexed articles ≡ ok entries
    → Distinct indexed
    → Distinct entries
unfolding index_from
index_from-Distinct [] indexed entries h d = subst Distinct (ok-inside indexed entries h) d
index_from-Distinct (a ∷ articles) indexed entries h d =
    let (_, _, free, later) = index_from-fresh a articles indexed entries h in
    index_from-Distinct articles (indexed ++ entry_of a ∷ []) entries later
      (append-Distinct indexed (entry_of a) d free)
