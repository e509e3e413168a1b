-- ===== src/JobStore/Tables.antt =====
-- A table as the list of its rows, with the statements that the repositories run on it: SELECT by
-- primary key, and UPDATE ... WHERE with its row count.
use lawyer_agent.Prelude.{
  ℕ, ◌+◌, ◌≡◌, refl, Bool, true, Option, none, some, List, [], ◌∷◌, ◌==◌, arith, if◌then◌else◌,
  Bool-cases, inl, inr,
}

module _ {ℓ} {Row : Type ℓ} (key : Row → ℕ) where
  -- The row with a primary key.
  abbrev pub find : ℕ → List Row → Option Row
  find k [] = none
  find k (r ∷ rs) = if key r == k then some r else find k rs

  -- The primary key is unique.
  abbrev pub Unique : List Row → Type ℓ
  Unique [] = Unit
  Unique (r ∷ rs) = (find (key r) rs ≡ none) × Unique rs

-- UPDATE ... SET change WHERE test, with the number of rows that the test matched.
abbrev pub update_where {ℓ} : {Row : Type ℓ} → (Row → Bool) → (Row → Row) → List Row → List Row × ℕ
update_where test change [] = ([], 0)
update_where test change (r ∷ rs) =
    let (rest, n) = update_where test change rs in
    if test r then (change r ∷ rest, n + 1) else (r ∷ rest, n)

-- What an UPDATE of the row with one key does to that row.
abbrev pub changed {ℓ} : {Row : Type ℓ} → (Row → Bool) → (Row → Row) → Option Row → Option Row
changed test change none = none
changed test change (some r) = if test r then some (change r) else some r

abbrev pub hits {ℓ} : {Row : Type ℓ} → (Row → Bool) → Option Row → ℕ
hits test none = 0
hits test (some r) = if test r then 1 else 0

module _ {ℓ} {Row : Type ℓ} (key : Row → ℕ) where
  pub find-key : (k : ℕ) (rs : List Row) (r : Row) → find key k rs ≡ some r → key r ≡ k
  find-key k [] r e = cc
  find-key k (x ∷ rs) r e = ground (arith, find-key k rs r)

module _ {ℓ} {Row : Type ℓ} (key : Row → ℕ) (test : Row → Bool) (change : Row → Row) where
  abbrev pub KeepsKey : Type ℓ
  KeepsKey = (r : Row) → key (change r) ≡ key r

  abbrev pub Targets : ℕ → Type ℓ
  Targets k = (r : Row) → test r ≡ true → key r ≡ k

  -- An UPDATE acts on the row under each key by itself.
  pub find-update_where :
      (j : ℕ) (rs : List Row)
      → KeepsKey
      → find key j (update_where test change rs).0 ≡ changed test change (find key j rs)
  find-update_where j [] keeps = refl
  find-update_where j (r ∷ rs) keeps = ground (arith, find-update_where j rs keeps, keeps r)

  -- A row that is not there is not counted.
  count-absent :
      (k : ℕ) (rs : List Row)
      → Targets k
      → find key k rs ≡ none
      → (update_where test change rs).1 ≡ 0
  count-absent k [] targets e = refl
  count-absent k (r ∷ rs) targets e = ground (arith, count-absent k rs targets, targets r)

  pub count-update_where :
      (k : ℕ) (rs : List Row)
      → Targets k
      → Unique key rs
      → (update_where test change rs).1 ≡ hits test (find key k rs)
  count-update_where k [] targets u = refl
  count-update_where k (r ∷ rs) targets u =
      ground (arith, count-update_where k rs targets u.1, targets r, count-absent k rs targets)

  -- Where no row meets the test, nothing changes.
  pub update_where-idle :
      (rs : List Row) → (update_where test change rs).1 ≡ 0 → update_where test change rs ≡ (rs, 0)
  update_where-idle [] e = refl
  update_where-idle (r ∷ rs) e = ground (arith, update_where-idle rs)

  -- An UPDATE adds no key.
  update_where-none :
      (j : ℕ) (rs : List Row)
      → KeepsKey
      → find key j rs ≡ none
      → find key j (update_where test change rs).0 ≡ none
  update_where-none j rs keeps e = rw (find-update_where j rs keeps, e) refl

  pub update_where-Unique :
      (rs : List Row) → KeepsKey → Unique key rs → Unique key (update_where test change rs).0
  update_where-Unique [] keeps u = tt
  update_where-Unique (r ∷ rs) keeps u = elim (Bool-cases (test r)) [
    | inl e ↦
        rw e
          (rw (keeps r) (update_where-none (key r) rs keeps u.0), update_where-Unique rs keeps u.1)
    | inr e ↦ rw e (update_where-none (key r) rs keeps u.0, update_where-Unique rs keeps u.1)
  ]
