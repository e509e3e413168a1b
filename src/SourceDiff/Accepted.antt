-- ===== src/SourceDiff/Accepted.antt =====
-- Which source files can be compared.
use mathlib.Core.Path.{subst}
use lawyer_agent.Prelude.{
  ℕ, ◌≡◌, refl, ◌∙◌, ◌↔◌, ◌⊎◌, false, Option, none, some, List, [], ◌∷◌, ◌++◌, all, is_space, arith,
  ok, Bool-cases, inl, inr,
}
use lawyer_agent.JobStore.Inbox.{same_bytes}
use lawyer_agent.JobStore.Lookup.{first-append-some, first-append-none}
use lawyer_agent.Idempotency.Slots.{same_bytes→eq, same_bytes_refl}
use lawyer_agent.SourceDiff.{
  ParsedSourceArticle, SourceDiffEntry, LegalSourceDiff, Changes, strip, entry_of, with_number,
  compare_one, compare_each, diff_source_articles, index_from, check_modified,
}
use lawyer_agent.SourceDiff.Entries.{with_number-append}
use lawyer_agent.SourceDiff.Indexed.{source_text, index_from-fresh}
use lawyer_agent.SourceDiff.Placed.{diff-entries}

-- Every article has a number and a text that are not blank, and no two have the same number.
abbrev pub IsSource : List ParsedSourceArticle → Type 0
IsSource [] = Unit
IsSource (a ∷ articles) =
    (all is_space a.provision_no ≡ false)
    × (all is_space a.text ≡ false)
    × (source_text (strip a.provision_no) articles ≡ none)
    × IsSource articles

index_from-clear :
    (articles : List ParsedSourceArticle) (indexed entries : List SourceDiffEntry)
    (e : SourceDiffEntry) (number : List ℕ)
    → index_from indexed articles ≡ ok entries
    → with_number number indexed ≡ some e
    → source_text number articles ≡ none
unfolding source_text
index_from-clear [] indexed entries e number h w = refl
index_from-clear (a ∷ articles) indexed entries e number h w =
    let (_, _, free, later) = index_from-fresh a articles indexed entries h in
    elim (Bool-cases (same_bytes (strip a.provision_no) number)) [
      | inl t ↦ ground (arith, same_bytes→eq (strip a.provision_no) number, free, w)
      | inr f ↦ rw f (
          index_from-clear articles (indexed ++ entry_of a ∷ []) entries e number later
            (first-append-some (λ x. same_bytes x.provision_no number) indexed (entry_of a) e w))
    ]

index_from-IsSource :
    (articles : List ParsedSourceArticle) (indexed entries : List SourceDiffEntry)
    → index_from indexed articles ≡ ok entries
    → IsSource articles
index_from-IsSource [] indexed entries h = tt
index_from-IsSource (a ∷ articles) indexed entries h =
    let (number, text, free, later) = index_from-fresh a articles indexed entries h in
    (
      number,
      text,
      index_from-clear articles (indexed ++ entry_of a ∷ []) entries (entry_of a)
          (strip a.provision_no) later
          (first-append-none (λ x. same_bytes x.provision_no (strip a.provision_no)) indexed
              (entry_of a) free
            ∙ rw (same_bytes_refl (strip a.provision_no)) refl),
      index_from-IsSource articles (indexed ++ entry_of a ∷ []) entries later,
    )

-- The articles are new to what is indexed.
Apart : List ParsedSourceArticle → List SourceDiffEntry → Type 0
Apart articles indexed =
    (number : List ℕ) → (source_text number articles ≡ none) ⊎ (with_number number indexed ≡ none)

Apart-next :
    (a : ParsedSourceArticle) (articles : List ParsedSourceArticle) (indexed : List SourceDiffEntry)
    → source_text (strip a.provision_no) articles ≡ none
    → Apart (a ∷ articles) indexed
    → Apart articles (indexed ++ entry_of a ∷ [])
unfolding Apart source_text
Apart-next a articles indexed s apart number =
    elim (Bool-cases (same_bytes (strip a.provision_no) number)) [
      | inl t ↦ inl (
          subst (λ n. source_text n articles ≡ none) (same_bytes→eq (strip a.provision_no) number t)
            s)
      | inr f ↦ elim (apart number) [
        | inl l ↦ inl (rw f at l)
        | inr r ↦ inr (with_number-append indexed (entry_of a) number r f)
      ]
    ]

Apart-here :
    (a : ParsedSourceArticle) (articles : List ParsedSourceArticle) (indexed : List SourceDiffEntry)
    → Apart (a ∷ articles) indexed
    → with_number (strip a.provision_no) indexed ≡ none
unfolding Apart source_text
Apart-here a articles indexed apart = elim (apart (strip a.provision_no)) [
  | inl l ↦ ground (arith, same_bytes_refl (strip a.provision_no))
  | inr r ↦ r
]

index_from-total :
    (articles : List ParsedSourceArticle) (indexed : List SourceDiffEntry)
    → IsSource articles
    → Apart articles indexed
    → (entries : List SourceDiffEntry) × (index_from indexed articles ≡ ok entries)
unfolding index_from
index_from-total [] indexed s apart = (indexed, refl)
index_from-total (a ∷ articles) indexed (number, text, clear, s) apart =
    rw (number, text, Apart-here a articles indexed apart)
      (index_from-total articles (indexed ++ entry_of a ∷ []) s
        (Apart-next a articles indexed clear apart))

compare_one-total :
    (o : SourceDiffEntry) (found : Option SourceDiffEntry) (rest : Changes)
    → (c : Changes) × (compare_one o found (ok rest) ≡ ok c)
unfolding compare_one check_modified
compare_one-total o none rest = (_, refl)
compare_one-total o (some e) rest = elim (Bool-cases (same_bytes o.full_text e.full_text)) [
  | inl t ↦ rw t (_, refl)
  | inr f ↦ rw f (_, refl)
]

compare_each-total :
    (new old : List SourceDiffEntry) → (c : Changes) × (compare_each new old ≡ ok c)
unfolding compare_each
compare_each-total new [] = (_, refl)
compare_each-total new (o ∷ old) =
    let (c, e) = compare_each-total new old in
    rw e (compare_one-total o (with_number o.provision_no new) c)

-- Two source files have a diff exactly when each is well formed: no number and no text is blank, and
-- no two articles of a file have the same number once it is stripped.
pub diff_source_articles-IsSource :
    (old_articles new_articles : List ParsedSourceArticle)
    → ((d : LegalSourceDiff) × (diff_source_articles old_articles new_articles ≡ ok d))
      ↔ (IsSource old_articles × IsSource new_articles)
unfolding diff_source_articles Apart
diff_source_articles-IsSource old_articles new_articles = (
  λ (d, h).
      (let (old, new, _, o, n, _, _) = diff-entries old_articles new_articles d h in
        (index_from-IsSource old_articles [] old o, index_from-IsSource new_articles [] new n)),
  λ (so, sn).
      (let (old, o) = index_from-total old_articles [] so (λ _. inr refl) in
        let (new, n) = index_from-total new_articles [] sn (λ _. inr refl) in
        let (c, k) = compare_each-total new old in rw (o, n, k) (_, refl)),
)
