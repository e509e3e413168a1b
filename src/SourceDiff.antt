-- ===== src/SourceDiff.antt =====
-- `diff_source_articles` (application/legal_source_diff.py), the comparison of two parsed source
-- files. A text is its code points. The dictionary of `_index` is the list of its entries in
-- insertion order: its keys are the numbers of the entries, and `order` is the list of them.
pub mod Entries
pub mod Indexed
pub mod Placed
pub mod Accepted
pub mod Changed
use lawyer_agent.Prelude.{
  ℕ, Bool, not, ◌&&◌, ◌||◌, Option, none, some, String, List, [], ◌∷◌, ◌++◌, all, keep, is_none,
  is_space, if◌then◌else◌, Result, ok, err, guard, ◌>>=◌, ◌>>◌,
}
use lawyer_agent.JobStore.Inbox.{same_bytes}
use lawyer_agent.JobStore.Lookup.{first}

pub record ParsedSourceArticle : Type 0 where
  pub provision_no : List ℕ
  pub structure_path : List (List ℕ)
  pub text : List ℕ

pub record SourceDiffEntry : Type 0 where
  pub provision_no : List ℕ
  pub structure_path : List (List ℕ)
  pub full_text : List ℕ

pub record ModifiedSourceEntry : Type 0 where
  pub provision_no : List ℕ
  pub previous : SourceDiffEntry
  pub current : SourceDiffEntry

pub record LegalSourceDiff : Type 0 where
  pub changed : Bool
  pub added : List SourceDiffEntry
  pub removed : List SourceDiffEntry
  pub modified : List ModifiedSourceEntry
  pub unchanged : List SourceDiffEntry

pub data LegalSourceDiffError : Type 0 where
  invalid_source : String → LegalSourceDiffError
  duplicate_number : List ℕ → LegalSourceDiffError

-- `ModifiedSourceEntry.__post_init__`
unfoldable pub check_modified : ModifiedSourceEntry → Result LegalSourceDiffError (Unit {0})
check_modified m =
    guard (not (same_bytes m.previous.full_text m.current.full_text))
      (LegalSourceDiffError.invalid_source "modified source entries must differ in full text")

-- `str.strip`
abbrev strip_left : List ℕ → List ℕ
strip_left [] = []
strip_left (c ∷ cs) = let rest = strip_left cs in if is_space c then rest else c ∷ cs

abbrev strip_onto : ℕ → List ℕ → List ℕ
strip_onto c [] = if is_space c then [] else c ∷ []
strip_onto c (d ∷ ds) = c ∷ d ∷ ds

abbrev strip_right : List ℕ → List ℕ
strip_right [] = []
strip_right (c ∷ cs) = strip_onto c (strip_right cs)

unfoldable pub strip : List ℕ → List ℕ
strip cs = strip_right (strip_left cs)

abbrev pub entry_of : ParsedSourceArticle → SourceDiffEntry
entry_of a = record {
  provision_no = strip a.provision_no;
  structure_path = a.structure_path;
  full_text = a.text;
}

-- `by_number.get(number)`
abbrev pub with_number : List ℕ → List SourceDiffEntry → Option SourceDiffEntry
with_number number = first (λ e. same_bytes e.provision_no number)

-- The loop of `_index`.
unfoldable pub index_from :
    List SourceDiffEntry
    → List ParsedSourceArticle
    → Result LegalSourceDiffError (List SourceDiffEntry)
unfolding strip
index_from indexed [] = ok indexed
index_from indexed (a ∷ articles) = do
  guard (not (all is_space a.provision_no))
      (LegalSourceDiffError.invalid_source "provision number must be non-empty text")
  guard (not (all is_space a.text))
      (LegalSourceDiffError.invalid_source "article full text must be non-empty")
  guard (is_none (with_number (strip a.provision_no) indexed))
      (LegalSourceDiffError.duplicate_number (strip a.provision_no))
  index_from (indexed ++ entry_of a ∷ []) articles

-- `_index`
abbrev pub index_articles :
    List ParsedSourceArticle → Result LegalSourceDiffError (List SourceDiffEntry)
index_articles articles = index_from [] articles

-- The three lists that the loop of `diff_source_articles` fills.
pub record Changes : Type 0 where
  pub removed : List SourceDiffEntry
  pub modified : List ModifiedSourceEntry
  pub unchanged : List SourceDiffEntry

abbrev pub modification : SourceDiffEntry → SourceDiffEntry → ModifiedSourceEntry
modification o e = record { provision_no = o.provision_no; previous = o; current = e }

-- One turn of the loop, on what the later turns append.
unfoldable pub compare_one :
    SourceDiffEntry
    → Option SourceDiffEntry
    → Result LegalSourceDiffError Changes
    → Result LegalSourceDiffError Changes
unfolding check_modified
compare_one o none later = do rest ← later; ok (record rest { removed = o ∷ rest.removed })
compare_one o (some e) later =
    if not (same_bytes o.full_text e.full_text)
    then (do
      check_modified (modification o e)
      rest ← later
      ok (record rest { modified = modification o e ∷ rest.modified }))
    else (do rest ← later; ok (record rest { unchanged = e ∷ rest.unchanged }))

unfoldable pub compare_each :
    List SourceDiffEntry → List SourceDiffEntry → Result LegalSourceDiffError Changes
unfolding compare_one
compare_each new [] = ok (record { removed = []; modified = []; unchanged = [] })
compare_each new (o ∷ old) = compare_one o (with_number o.provision_no new) (compare_each new old)

abbrev pub is_filled {ℓ} : {A : Type ℓ} → List A → Bool
is_filled [] = Bool.false
is_filled (_ ∷ _) = Bool.true

abbrev pub added_entries : List SourceDiffEntry → List SourceDiffEntry → List SourceDiffEntry
added_entries old new = keep (λ e. is_none (with_number e.provision_no old)) new

abbrev pub diff_of : List SourceDiffEntry → Changes → LegalSourceDiff
diff_of added changes = record {
  changed = is_filled added || is_filled changes.removed || is_filled changes.modified;
  added = added;
  removed = changes.removed;
  modified = changes.modified;
  unchanged = changes.unchanged;
}

unfoldable pub diff_source_articles :
    List ParsedSourceArticle
    → List ParsedSourceArticle
    → Result LegalSourceDiffError LegalSourceDiff
unfolding index_from compare_each
diff_source_articles old_articles new_articles = do
  old ← index_articles old_articles
  new ← index_articles new_articles
  changes ← compare_each new old
  ok (diff_of (added_entries old new) changes)
