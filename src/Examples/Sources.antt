-- ===== src/Examples/Sources.antt =====
-- Two versions of a source file: an article is kept, one is changed, one removed and one added.
use lawyer_agent.Prelude.{ℕ, ◌≡◌, refl, ◌↔◌, true, false, List, [], ◌∷◌, codes, is_space, ok}
use lawyer_agent.SourceDiff.{
  ParsedSourceArticle, LegalSourceDiff, diff_source_articles, SourceDiffEntry,
}
use lawyer_agent.SourceDiff.Indexed.{source_text}
use lawyer_agent.SourceDiff.Changed.{diff_source_articles-changed}
use lawyer_agent.SourceDiff.Accepted.{IsSource, diff_source_articles-IsSource}

abbrev article : List ℕ → List ℕ → ParsedSourceArticle
article number text = record { provision_no = number; structure_path = []; text = text }

abbrev old_articles : List ParsedSourceArticle
old_articles =
    article (codes " 1") (codes "a")
    ∷ article (codes "2 ") (codes "b")
    ∷ article (codes "3") (codes "c")
    ∷ []

abbrev new_articles : List ParsedSourceArticle
new_articles =
    article (codes "4") (codes "d")
    ∷ article (codes "2") (codes "B")
    ∷ article (codes "1") (codes "a")
    ∷ []

abbrev entry : List ℕ → List ℕ → SourceDiffEntry
entry number text = record { provision_no = number; structure_path = []; full_text = text }

abbrev diff : LegalSourceDiff
diff = record {
  changed = true;
  added = entry (codes "4") (codes "d") ∷ [];
  removed = entry (codes "3") (codes "c") ∷ [];
  modified =
      record {
        provision_no = codes "2";
        previous = entry (codes "2") (codes "b");
        current = entry (codes "2") (codes "B");
      }
      ∷ [];
  unchanged = entry (codes "1") (codes "a") ∷ [];
}

compared : diff_source_articles old_articles new_articles ≡ ok diff
unfolding diff_source_articles is_space
compared = refl

diff_source_articles-changed_example :
    (true ≡ false)
    ↔ ((number : List ℕ) → source_text number old_articles ≡ source_text number new_articles)
diff_source_articles-changed_example =
    diff_source_articles-changed old_articles new_articles diff compared

diff_source_articles-IsSource_example :
    ((d : LegalSourceDiff) × (diff_source_articles old_articles new_articles ≡ ok d))
    ↔ (IsSource old_articles × IsSource new_articles)
diff_source_articles-IsSource_example = diff_source_articles-IsSource old_articles new_articles
