-- ===== src/Sql/Sorted.antt =====
-- Rows sorted by a number that tells them apart, and sums over rows.
use trading_worker.Base.{
  ℕ, ◌+◌, ◌<◌, ◌≡◌, refl, arith, Bool, List, [], ◌∷◌, ◌++◌, ◌==◌, leb, All, Bool-cases, inl, inr,
  insert_by, sort_by,
}
use trading_worker.Sql.Rows.{All-insert_by, All-sort_by, All-imp}
use trading_worker.Sql.Distinct.{Apart, Distinct}

module _ {ℓ} {A : Type ℓ} (number : A → ℕ) where
  abbrev pub number_leb : A → A → Bool
  number_leb a b = leb (number a) (number b)

  abbrev pub same_number : A → A → Bool
  same_number a b = number a == number b

  abbrev pub Before : A → A → Type 0
  Before r u = number r < number u

  -- Each row comes later than the one before it.
  abbrev pub IsIncreasing : List A → Type 0
  IsIncreasing [] = Unit
  IsIncreasing (r ∷ rows) = All (Before r) rows × IsIncreasing rows

  insert_by-IsIncreasing :
      (row : A) (rows : List A)
      → All (Apart same_number row) rows
      → IsIncreasing rows
      → IsIncreasing (insert_by number_leb row rows)
  unfolding insert_by
  insert_by-IsIncreasing row [] h s = (tt, tt)
  insert_by-IsIncreasing row (r ∷ rows) h s = elim (Bool-cases (number_leb row r)) [
    | inl e ↦
        let first : Before row r = ground (arith, h.0) in
        rw e ((first, All-imp (Before r) (Before row) (λ u k. omega arith) rows s.0), s)
    | inr e ↦ rw e (
      All-insert_by (Before r) number_leb row rows (ground arith) s.0,
      insert_by-IsIncreasing row rows h.1 s.1,
    )
  ]

  pub sort_by-IsIncreasing :
      (rows : List A) → Distinct same_number rows → IsIncreasing (sort_by number_leb rows)
  unfolding sort_by
  sort_by-IsIncreasing [] d = tt
  sort_by-IsIncreasing (r ∷ rows) d =
      insert_by-IsIncreasing r _ (All-sort_by (Apart same_number r) number_leb rows d.0)
        (sort_by-IsIncreasing rows d.1)

module _ {ℓ} {A : Type ℓ} (number : A → ℕ) where
  abbrev pub sum_by : List A → ℕ
  sum_by [] = 0
  sum_by (r ∷ rows) = number r + sum_by rows

  pub sum_by-append : (rows others : List A) → sum_by (rows ++ others) ≡ sum_by rows + sum_by others
  sum_by-append [] others = omega arith
  sum_by-append (r ∷ rows) others = omega (arith, sum_by-append rows others)

  sum_by-insert_by :
      (le : A → A → Bool) (row : A) (rows : List A)
      → sum_by (insert_by le row rows) ≡ number row + sum_by rows
  unfolding insert_by
  sum_by-insert_by le row [] = refl
  sum_by-insert_by le row (r ∷ rows) = elim (Bool-cases (le row r)) [
    | inl e ↦ rw e
    | inr e ↦ rw e (omega (arith, sum_by-insert_by le row rows))
  ]

  pub sum_by-sort_by : (le : A → A → Bool) (rows : List A) → sum_by (sort_by le rows) ≡ sum_by rows
  unfolding sort_by
  sum_by-sort_by le [] = refl
  sum_by-sort_by le (r ∷ rows) =
      omega (arith, sum_by-insert_by le r (sort_by le rows), sum_by-sort_by le rows)
