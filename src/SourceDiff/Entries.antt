-- ===== src/SourceDiff/Entries.antt =====
-- The entries of an indexed source file, found by their numbers.
use lawyer_agent.Prelude.{
  ℕ, ◌≡◌, refl, false, Option, none, some, List, [], ◌∷◌, ◌++◌, arith, if◌then◌else◌,
}
use lawyer_agent.JobStore.Inbox.{same_bytes}
use lawyer_agent.SourceDiff.{SourceDiffEntry, with_number}

-- `a` if it is there, else `b`.
abbrev pub or_else {ℓ} : {A : Type ℓ} → Option A → Option A → Option A
or_else none b = b
or_else (some a) b = some a

-- The full text of an entry that may be missing.
abbrev pub text_of : Option SourceDiffEntry → Option (List ℕ)
text_of none = none
text_of (some e) = some e.full_text

-- No two entries have the same number.
abbrev pub Distinct : List SourceDiffEntry → Type 0
Distinct [] = Unit
Distinct (e ∷ es) = (with_number e.provision_no es ≡ none) × Distinct es

pub same_bytes_sym : (xs ys : List ℕ) → same_bytes xs ys ≡ same_bytes ys xs
same_bytes_sym [] [] = refl
same_bytes_sym [] (y ∷ ys) = refl
same_bytes_sym (x ∷ xs) [] = refl
same_bytes_sym (x ∷ xs) (y ∷ ys) = ground (arith, same_bytes_sym xs ys)

pub text_of-append :
    (es : List SourceDiffEntry) (new : SourceDiffEntry) (number : List ℕ)
    → text_of (with_number number (es ++ new ∷ []))
      ≡ or_else
          (text_of (with_number number es))
          (if same_bytes new.provision_no number then some new.full_text else none)
text_of-append [] new number = ground arith
text_of-append (e ∷ es) new number = ground (arith, text_of-append es new number)

pub with_number-append :
    (es : List SourceDiffEntry) (new : SourceDiffEntry) (number : List ℕ)
    → with_number number es ≡ none
    → same_bytes new.provision_no number ≡ false
    → with_number number (es ++ new ∷ []) ≡ none
with_number-append [] new number e f = ground arith
with_number-append (x ∷ es) new number e f = ground (arith, with_number-append es new number)

pub append-Distinct :
    (es : List SourceDiffEntry) (new : SourceDiffEntry)
    → Distinct es
    → with_number new.provision_no es ≡ none
    → Distinct (es ++ new ∷ [])
append-Distinct [] new d e = (refl, tt)
append-Distinct (x ∷ es) new d e = (
  with_number-append es new x.provision_no d.0
      (ground (arith, same_bytes_sym x.provision_no new.provision_no)),
  append-Distinct es new d.1 (ground arith),
)
