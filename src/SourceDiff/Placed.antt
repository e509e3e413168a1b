-- ===== src/SourceDiff/Placed.antt =====
-- Where the comparison puts the entries of a number.
use mathlib.Core.Path.{subst}
use lawyer_agent.Prelude.{
  ℕ, ◌≡◌, refl, sym, true, false, Option, none, some, List, [], ◌∷◌, is_none, arith, if◌then◌else◌,
  ok, err, bind-eq-ok, ok-inside, Bool-cases, inl, inr, Result,
}
use lawyer_agent.JobStore.Inbox.{same_bytes}
use lawyer_agent.JobStore.Lookup.{first, first-holds}
use lawyer_agent.Idempotency.Slots.{same_bytes→eq, same_bytes_refl}
use lawyer_agent.SourceDiff.{
  ParsedSourceArticle, SourceDiffEntry, ModifiedSourceEntry, LegalSourceDiff, LegalSourceDiffError,
  Changes, with_number, modification, compare_one, compare_each, added_entries,
  diff_source_articles, diff_of, index_articles, check_modified,
}
use lawyer_agent.SourceDiff.Entries.{Distinct}

-- The modification under a number.
abbrev pub modified_under : List ℕ → List ModifiedSourceEntry → Option ModifiedSourceEntry
modified_under number = first (λ m. same_bytes m.provision_no number)

abbrev pub previous_of : Option ModifiedSourceEntry → Option SourceDiffEntry
previous_of none = none
previous_of (some m) = some m.previous

abbrev pub current_of : Option ModifiedSourceEntry → Option SourceDiffEntry
current_of none = none
current_of (some m) = some m.current

abbrev pub removed_at : Option SourceDiffEntry → Option SourceDiffEntry → Option SourceDiffEntry
removed_at (some o) none = some o
removed_at _ _ = none

abbrev pub modified_at :
    Option SourceDiffEntry → Option SourceDiffEntry → Option ModifiedSourceEntry
modified_at (some o) (some e) =
    if same_bytes o.full_text e.full_text then none else some (modification o e)
modified_at _ _ = none

abbrev pub unchanged_at : Option SourceDiffEntry → Option SourceDiffEntry → Option SourceDiffEntry
unchanged_at (some o) (some e) = if same_bytes o.full_text e.full_text then some e else none
unchanged_at _ _ = none

abbrev pub Places : Changes → List ℕ → Option SourceDiffEntry → Option SourceDiffEntry → Type 0
Places c number old new =
    (with_number number c.removed ≡ removed_at old new)
    × (modified_under number c.modified ≡ modified_at old new)
    × (with_number number c.unchanged ≡ unchanged_at old new)

-- One turn appends its entry to one list.
abbrev turned : SourceDiffEntry → Option SourceDiffEntry → Changes → Changes
turned o none rest = record rest { removed = o ∷ rest.removed }
turned o (some e) rest =
    if same_bytes o.full_text e.full_text
    then record rest { unchanged = e ∷ rest.unchanged }
    else record rest { modified = modification o e ∷ rest.modified }

compare_one-ok :
    (o : SourceDiffEntry) (found : Option SourceDiffEntry)
    (later : Result LegalSourceDiffError Changes) (c : Changes)
    → compare_one o found later ≡ ok c
    → (rest : Changes) × (later ≡ ok rest) × (c ≡ turned o found rest)
unfolding compare_one check_modified
compare_one-ok o none (ok rest) c h = (rest, refl, sym (ok-inside _ c h))
compare_one-ok o none (err e) c h = cc
compare_one-ok o (some e) (ok rest) c h = (rest, refl, ground arith)
compare_one-ok o (some e) (err x) c h = ground arith

-- An entry that is found has the number that was asked for.
found_number :
    (number : List ℕ) (es : List SourceDiffEntry) (e : SourceDiffEntry)
    → with_number number es ≡ some e
    → e.provision_no ≡ number
found_number number es e h =
    same_bytes→eq e.provision_no number (first-holds (λ x. same_bytes x.provision_no number) es e h)

-- A turn leaves the other numbers as they are.
turned-other :
    (o : SourceDiffEntry) (here : Option SourceDiffEntry) (rest : Changes) (number : List ℕ)
    (old found : Option SourceDiffEntry)
    → ((e : SourceDiffEntry) → here ≡ some e → e.provision_no ≡ o.provision_no)
    → same_bytes o.provision_no number ≡ false
    → Places rest number old found
    → Places (turned o here rest) number old found
turned-other o none rest number old found same differs p = (rw differs p.0, p.1, p.2)
turned-other o (some e) rest number old found same differs p =
    let there : same_bytes e.provision_no number ≡ false = rw (same e refl) differs in
    elim (Bool-cases (same_bytes o.full_text e.full_text)) [
      | inl t ↦ rw (t, there) p
      | inr f ↦ rw (f, differs) p
    ]

turned-here :
    (o : SourceDiffEntry) (here : Option SourceDiffEntry) (rest : Changes)
    → ((e : SourceDiffEntry) → here ≡ some e → e.provision_no ≡ o.provision_no)
    → Places rest o.provision_no none here
    → Places (turned o here rest) o.provision_no (some o) here
turned-here o none rest same p = (rw (same_bytes_refl o.provision_no) refl, p.1, p.2)
turned-here o (some e) rest same p =
    let there : same_bytes e.provision_no o.provision_no ≡ true =
      rw (same e refl) (same_bytes_refl o.provision_no) in
    elim (Bool-cases (same_bytes o.full_text e.full_text)) [
      | inl t ↦ rw (t, there) (p.0, p.1, refl)
      | inr f ↦ rw (f, same_bytes_refl o.provision_no) (p.0, refl, p.2)
    ]

pub compare_each-Places :
    (new old : List SourceDiffEntry) (c : Changes)
    → Distinct old
    → compare_each new old ≡ ok c
    → (number : List ℕ) → Places c number (with_number number old) (with_number number new)
unfolding compare_each
compare_each-Places new [] c d h number =
    subst (λ x. Places x number none (with_number number new)) (ok-inside _ c h) (refl, refl, refl)
compare_each-Places new (o ∷ old) c d h number =
    let (rest, later, is) =
      compare_one-ok o (with_number o.provision_no new) (compare_each new old) c h in
    let same = found_number o.provision_no new in
    let earlier = compare_each-Places new old rest d.1 later in
    elim (Bool-cases (same_bytes o.provision_no number)) [
      | inl t ↦
          subst (λ n. Places c n (with_number n (o ∷ old)) (with_number n new))
            (same_bytes→eq o.provision_no number t)
            (rw (same_bytes_refl o.provision_no, is)
              (turned-here o (with_number o.provision_no new) rest same (
                subst (λ x. Places rest o.provision_no x (with_number o.provision_no new)) d.0
                  (earlier o.provision_no))))
      | inr f ↦
          rw (f, is)
            (turned-other o (with_number o.provision_no new) rest number (with_number number old)
              (with_number number new) same f (earlier number))
    ]

-- An added entry is found where the old file has none.
module _ (old : List SourceDiffEntry) where
  abbrev pub added_at : List ℕ → Option SourceDiffEntry → Option SourceDiffEntry
  added_at number found = if is_none (with_number number old) then found else none

  pub added_entries-with_number :
      (new : List SourceDiffEntry) (number : List ℕ)
      → with_number number (added_entries old new) ≡ added_at number (with_number number new)
  added_entries-with_number [] number = ground arith
  added_entries-with_number (e ∷ new) number =
      let later = added_entries-with_number new in
      elim (Bool-cases (same_bytes e.provision_no number)) [
        | inl t ↦
            subst
              (λ n.
                with_number n (added_entries old (e ∷ new)) ≡ added_at n (with_number n (e ∷ new)))
              (same_bytes→eq e.provision_no number t)
              (elim (Bool-cases (is_none (with_number e.provision_no old))) [
                | inl u ↦ rw (u, same_bytes_refl e.provision_no) refl
                | inr u ↦ rw u (rw u at (later e.provision_no))
              ])
        | inr f ↦ ground (arith, later number)
      ]

-- What a diff holds, under every number, of the entries that it compared.
pub diff-entries :
    (old_articles new_articles : List ParsedSourceArticle) (d : LegalSourceDiff)
    → diff_source_articles old_articles new_articles ≡ ok d
    → (old : List SourceDiffEntry) × (new : List SourceDiffEntry) × (c : Changes) × (index_articles
          old_articles
        ≡ ok old)
      × (index_articles new_articles ≡ ok new)
      × (compare_each new old ≡ ok c)
      × (d ≡ diff_of (added_entries old new) c)
unfolding diff_source_articles
diff-entries old_articles new_articles d h =
    let (old, o, h1) = bind-eq-ok (index_articles old_articles) _ h in
    let (new, n, h2) = bind-eq-ok (index_articles new_articles) _ h1 in
    let (c, k, h3) = bind-eq-ok (compare_each new old) _ h2 in
    (old, new, c, o, n, k, sym (ok-inside _ d h3))
