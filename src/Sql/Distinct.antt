-- ===== src/Sql/Distinct.antt =====
-- Rows that a unique constraint keeps apart, through what SQL does to the table.
use trading_worker.Base.{
  ◌≡◌, ◌∙◌, refl, Bool, false, List, [], ◌∷◌, ◌++◌, All, Bool-cases, inl, inr, exists, filter_by,
}
use trading_worker.Sql.{update_where}
use trading_worker.Sql.Rows.{All-update_where, All-append, All-filter_by}

-- `same a b` says that the two rows have one key.
module _ {ℓ} {A : Type ℓ} (same : A → A → Bool) where
  abbrev pub Apart : A → A → Type 0
  Apart a b = same a b ≡ false

  abbrev pub Distinct : List A → Type 0
  Distinct [] = Unit
  Distinct (r ∷ rows) = All (Apart r) rows × Distinct rows

  pub Distinct-filter_by :
      (p : A → Bool) (rows : List A) → Distinct rows → Distinct (filter_by p rows)
  unfolding filter_by
  Distinct-filter_by p [] d = tt
  Distinct-filter_by p (r ∷ rows) d = elim (Bool-cases (p r)) [
    | inl e ↦
        rw e
          (All-filter_by (Apart r) (Apart r) p (λ _ _ h. h) rows d.0, Distinct-filter_by p rows d.1)
    | inr e ↦ rw e (Distinct-filter_by p rows d.1)
  ]

  -- No row has the key of the new one.
  All-Apart_of_exists :
      (row : A) (rows : List A)
      → exists (λ r. same r row) rows ≡ false
      → All (λ r. Apart r row) rows
  All-Apart_of_exists row [] h = tt
  All-Apart_of_exists row (r ∷ rows) h = elim (Bool-cases (same r row)) [
    | inl e ↦ absurd (cc (h, e))
    | inr e ↦ (e, All-Apart_of_exists row rows (cc (h, e)))
  ]

  pub Distinct-append :
      (rows : List A) (row : A)
      → Distinct rows
      → exists (λ r. same r row) rows ≡ false
      → Distinct (rows ++ row ∷ [])
  Distinct-append [] row d h = (tt, tt)
  Distinct-append (r ∷ rows) row d h =
      let (apart, others) = All-Apart_of_exists row (r ∷ rows) h in
      (
        All-append (Apart r) rows row d.0 apart,
        Distinct-append rows row d.1 (exists_of_All row rows others),
      )
    where
      exists_of_All :
          (row : A) (rows : List A)
          → All (λ r. Apart r row) rows
          → exists (λ r. same r row) rows ≡ false
      exists_of_All row [] h = refl
      exists_of_All row (r ∷ rows) h = rw h.0 (exists_of_All row rows h.1)

  -- An update that leaves the keys as they are.
  module _ (f : A → A) (keeps : (a b : A) → same (f a) b ≡ same a b)
      (keeps' : (a b : A) → same a (f b) ≡ same a b) where
    pub Distinct-update_where :
        (p : A → Bool) (rows : List A) → Distinct rows → Distinct (update_where p f rows)
    unfolding update_where
    Distinct-update_where p [] d = tt
    Distinct-update_where p (r ∷ rows) d = elim (Bool-cases (p r)) [
      | inl e ↦ rw e (
        All-update_where (Apart r) (Apart (f r)) p f (λ b _ h. keeps r (f b) ∙ keeps' r b ∙ h)
            (λ b _ h. keeps r b ∙ h) rows d.0,
        Distinct-update_where p rows d.1,
      )
      | inr e ↦ rw e (
        All-update_where (Apart r) (Apart r) p f (λ b _ h. keeps' r b ∙ h) (λ b _ h. h) rows d.0,
        Distinct-update_where p rows d.1,
      )
    ]
