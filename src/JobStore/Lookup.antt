-- ===== src/JobStore/Lookup.antt =====
-- SELECT by a condition other than the primary key, and what INSERT and UPDATE do to it.
use mathlib.Core.Path.{subst}
use lawyer_agent.Prelude.{
  All, Bool-cases, inl, inr, ℕ, ◌≡◌, refl, Bool, true, false, ◌||◌, Option, none, some, List, [],
  ◌∷◌, ◌++◌, ◌==◌, any, arith, if◌then◌else◌,
}
use lawyer_agent.JobStore.Tables.{find, Unique, changed, update_where}

-- The first row that meets a condition.
abbrev pub first {ℓ} : {Row : Type ℓ} → (Row → Bool) → List Row → Option Row
first p [] = none
first p (r ∷ rs) = if p r then some r else first p rs

pub some-inside {ℓ} : {A : Type ℓ} (a b : A) → some a ≡ some b → a ≡ b
some-inside a b e = cc

module _ {ℓ} {Row : Type ℓ} (p : Row → Bool) where
  pub first-holds : (rs : List Row) (r : Row) → first p rs ≡ some r → p r ≡ true
  first-holds [] r e = cc
  first-holds (x ∷ xs) r e = ground (arith, first-holds xs r)

  pub first-All {κ} :
      (P : Row → Type κ) (rs : List Row) (r : Row) → All P rs → first p rs ≡ some r → P r
  first-All P [] r a e = cc
  first-All P (x ∷ xs) r a e = elim (Bool-cases (p x)) [
    | inl t ↦ subst P (some-inside x r (rw t at e)) a.0
    | inr f ↦ first-All P xs r a.1 (rw f at e)
  ]

  -- An UPDATE that keeps the condition acts on the row that is found by itself.
  pub first-update_where :
      (test : Row → Bool) (change : Row → Row) (rs : List Row)
      → ((r : Row) → p (change r) ≡ p r)
      → first p (update_where test change rs).0 ≡ changed test change (first p rs)
  first-update_where test change [] keeps = refl
  first-update_where test change (r ∷ rs) keeps =
      ground (arith, first-update_where test change rs keeps, keeps r)

  pub first-append-some :
      (rs : List Row) (new r : Row) → first p rs ≡ some r → first p (rs ++ new ∷ []) ≡ some r
  first-append-some [] new r e = cc
  first-append-some (x ∷ xs) new r e = ground (arith, first-append-some xs new r)

  pub first-append-none :
      (rs : List Row) (new : Row)
      → first p rs ≡ none
      → first p (rs ++ new ∷ []) ≡ (if p new then some new else none)
  first-append-none [] new e = refl
  first-append-none (x ∷ xs) new e = ground (arith, first-append-none xs new)

module _ {ℓ} {Row : Type ℓ} (key : Row → ℕ) where
  -- The row that a condition finds is the row of its primary key.
  pub find-first :
      (p : Row → Bool) (rs : List Row) (r : Row)
      → Unique key rs
      → first p rs ≡ some r
      → find key (key r) rs ≡ some r
  find-first p [] r u e = cc
  find-first p (x ∷ xs) r u e = ground (arith, find-first p xs r u.1, u.0)

  find-append :
      (k : ℕ) (rs : List Row) (new : Row)
      → find key k rs ≡ none
      → find key k (rs ++ new ∷ []) ≡ (if key new == k then some new else none)
  find-append k [] new e = refl
  find-append k (x ∷ xs) new e = ground (arith, find-append k xs new)

  -- INSERT of a fresh primary key keeps it unique.
  pub append-Unique :
      (rs : List Row) (new : Row)
      → Unique key rs
      → find key (key new) rs ≡ none
      → Unique key (rs ++ new ∷ [])
  append-Unique [] new u e = (refl, tt)
  append-Unique (x ∷ xs) new u e =
      (ground (arith, find-append (key x) xs new u.0), append-Unique xs new u.1 (ground arith))

  pub any-clash :
      (k : ℕ) (p : Row → Bool) (rs : List Row)
      → find key k rs ≡ none
      → first p rs ≡ none
      → any (λ r. key r == k || p r) rs ≡ false
  any-clash k p [] e f = refl
  any-clash k p (x ∷ xs) e f = ground (arith, any-clash k p xs)

  pub any-taken :
      (k : ℕ) (p : Row → Bool) (rs : List Row) (r : Row)
      → first p rs ≡ some r
      → any (λ x. key x == k || p x) rs ≡ true
  any-taken k p [] r e = cc
  any-taken k p (x ∷ xs) r e = ground (arith, any-taken k p xs r)

-- What holds of every row, after INSERT and after UPDATE.
module _ {ℓ κ} {Row : Type ℓ} (P : Row → Type κ) where
  pub All-append : (rs : List Row) (new : Row) → All P rs → P new → All P (rs ++ new ∷ [])
  All-append [] new a n = (n, tt)
  All-append (x ∷ xs) new a n = (a.0, All-append xs new a.1 n)

  pub All-update_where :
      (test : Row → Bool) (change : Row → Row) (rs : List Row)
      → ((r : Row) → P r → P (change r))
      → All P rs
      → All P (update_where test change rs).0
  All-update_where test change [] keeps a = tt
  All-update_where test change (x ∷ xs) keeps a = elim (Bool-cases (test x)) [
    | inl e ↦ rw e (keeps x a.0, All-update_where test change xs keeps a.1)
    | inr e ↦ rw e (a.0, All-update_where test change xs keeps a.1)
  ]
