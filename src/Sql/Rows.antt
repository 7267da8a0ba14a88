-- ===== src/Sql/Rows.antt =====
-- A property of every row of a table, through what SQL does to the table.
use trading_worker.Base.{
  ℕ, suc, ◌≤◌, length, ◌≡◌, refl, arith, Bool, true, false, List, [], ◌∷◌, ◌++◌, All, Bool-cases,
  inl, inr, some, exists, take, map, insert_by, sort_by, filter_by, zero, subst, if◌then◌else◌,
}
use mathlib.Core.Option
use trading_worker.Sql.{find_first, update_where}

module _ {ℓ} {A : Type ℓ} where
  pub length-take : (n : ℕ) (rows : List A) → length (take n rows) ≤ n
  length-take zero rows = omega arith
  length-take (suc n) [] = omega arith
  length-take (suc n) (r ∷ rows) = omega (arith, length-take n rows)

  pub length-map {κ} : {B : Type κ} (f : A → B) (rows : List A) → length (map f rows) ≡ length rows
  length-map f [] = refl
  length-map f (r ∷ rows) = omega (arith, length-map f rows)

module _ {ℓ κ μ} {A : Type ℓ} (P : A → Type κ) (Q : A → Type μ) where
  -- An update: what the rows become, where the condition holds and where it does not.
  pub All-update_where :
      (p : A → Bool) (f : A → A)
      → ((r : A) → p r ≡ true → P r → Q (f r))
      → ((r : A) → p r ≡ false → P r → Q r)
      → (rows : List A) → All P rows
      → All Q (update_where p f rows)
  unfolding update_where
  All-update_where p f hit miss [] h = tt
  All-update_where p f hit miss (r ∷ rows) h = elim (Bool-cases (p r)) [
    | inl e ↦ rw e (hit r e h.0, All-update_where p f hit miss rows h.1)
    | inr e ↦ rw e (miss r e h.0, All-update_where p f hit miss rows h.1)
  ]

  pub All-imp : ((r : A) → P r → Q r) → (rows : List A) → All P rows → All Q rows
  All-imp k [] h = tt
  All-imp k (r ∷ rows) h = (k r h.0, All-imp k rows h.1)

module _ {ℓ κ} {A : Type ℓ} (P : A → Type κ) where
  pub All-append : (rows : List A) (row : A) → All P rows → P row → All P (rows ++ row ∷ [])
  All-append [] row h p = (p, tt)
  All-append (r ∷ rows) row h p = (h.0, All-append rows row h.1 p)

  pub All-concat : (rows others : List A) → All P rows → All P others → All P (rows ++ others)
  All-concat [] others h k = k
  All-concat (r ∷ rows) others h k = (h.0, All-concat rows others h.1 k)

  pub All-take : (n : ℕ) (rows : List A) → All P rows → All P (take n rows)
  All-take zero rows h = tt
  All-take (suc n) [] h = tt
  All-take (suc n) (r ∷ rows) h = (h.0, All-take n rows h.1)

  pub All-insert_by :
      (le : A → A → Bool) (x : A) (rows : List A) → P x → All P rows → All P (insert_by le x rows)
  unfolding insert_by
  All-insert_by le x [] p h = (p, tt)
  All-insert_by le x (y ∷ rows) p h = elim (Bool-cases (le x y)) [
    | inl e ↦ rw e (p, h)
    | inr e ↦ rw e (h.0, All-insert_by le x rows p h.1)
  ]

  pub All-sort_by : (le : A → A → Bool) (rows : List A) → All P rows → All P (sort_by le rows)
  unfolding sort_by
  All-sort_by le [] h = tt
  All-sort_by le (x ∷ rows) h = All-insert_by le x _ h.0 (All-sort_by le rows h.1)

module _ {ℓ κ} {A : Type ℓ} (P : A → Type κ) where
  All_of_insert_by :
      (le : A → A → Bool) (x : A) (rows : List A) → All P (insert_by le x rows) → P x × All P rows
  unfolding insert_by
  All_of_insert_by le x [] h = h
  All_of_insert_by le x (y ∷ rows) h = elim (Bool-cases (le x y)) [
    | inl e ↦ subst (λ b. All P (if b then x ∷ y ∷ rows else y ∷ insert_by le x rows)) e h
    | inr e ↦
        let (first, rest) =
          subst (λ b. All P (if b then x ∷ y ∷ rows else y ∷ insert_by le x rows)) e h in
        let (p, others) = All_of_insert_by le x rows rest in (p, (first, others))
  ]

  pub All_of_sort_by : (le : A → A → Bool) (rows : List A) → All P (sort_by le rows) → All P rows
  unfolding sort_by
  All_of_sort_by le [] h = tt
  All_of_sort_by le (x ∷ rows) h =
      let (p, rest) = All_of_insert_by le x (sort_by le rows) h in (p, All_of_sort_by le rows rest)

module _ {ℓ κ μ} {A : Type ℓ} (P : A → Type κ) (Q : A → Type μ) where
  pub All-both : (rows : List A) → All P rows → All Q rows → All (λ r. P r × Q r) rows
  All-both [] h k = tt
  All-both (r ∷ rows) h k = ((h.0, k.0), All-both rows h.1 k.1)

  -- What is filtered passes the test.
  pub All-filter_by :
      (p : A → Bool)
      → ((r : A) → p r ≡ true → P r → Q r)
      → (rows : List A) → All P rows
      → All Q (filter_by p rows)
  unfolding filter_by
  All-filter_by p k [] h = tt
  All-filter_by p k (x ∷ rows) h = elim (Bool-cases (p x)) [
    | inl e ↦ rw e (k x e h.0, All-filter_by p k rows h.1)
    | inr e ↦ rw e (All-filter_by p k rows h.1)
  ]

pub All-map {ℓ κ μ} :
    {A : Type ℓ} {B : Type κ} (P : B → Type μ) (f : A → B) (rows : List A)
    → All (λ r. P (f r)) rows
    → All P (map f rows)
All-map P f [] h = tt
All-map P f (r ∷ rows) h = (h.0, All-map P f rows h.1)

pub All-always {ℓ κ} :
    {A : Type ℓ} (P : A → Type κ) → ((r : A) → P r) → (rows : List A) → All P rows
All-always P k [] = tt
All-always P k (r ∷ rows) = (k r, All-always P k rows)

-- The first row that an update finds, after the update.
pub find_first-update_where {ℓ} :
    {A : Type ℓ} (p : A → Bool) (f : A → A)
    → ((r : A) → p (f r) ≡ p r)
    → (rows : List A) → find_first p (update_where p f rows) ≡ Option.map f (find_first p rows)
unfolding find_first update_where
find_first-update_where p f keeps [] = refl
find_first-update_where p f keeps (r ∷ rows) = elim (Bool-cases (p r)) [
  | inl e ↦ rw (e, keeps r, e)
  | inr e ↦ rw (e, e) (find_first-update_where p f keeps rows)
]

-- The first row of a search after an update of other or the same rows, one that the search does not see.
pub find_first_after_update {ℓ} :
    {A : Type ℓ} (p q : A → Bool) (f : A → A)
    → ((r : A) → p (f r) ≡ p r)
    → (rows : List A) (row : A) → find_first p rows ≡ some row
    → find_first p (update_where q f rows) ≡ some (if q row then f row else row)
unfolding find_first update_where
find_first_after_update p q f keeps [] row h = absurd (cc)
find_first_after_update {A = A} p q f keeps (r ∷ rows) row h = elim (Bool-cases (p r)) [
  | inl e ↦
      let found : some r ≡ some row =
        subst (λ b. (if b then some r else find_first p rows) ≡ some row) e h in
      let same : r ≡ row = cc found in rw (keeps_if r, e, same)
  | inr e ↦
      let rest = subst (λ b. (if b then some r else find_first p rows) ≡ some row) e h in
      rw (keeps_if r, e) (find_first_after_update p q f keeps rows row rest)
]
  where
    keeps_if : (r : A) → p (if q r then f r else r) ≡ p r
    keeps_if r = elim (Bool-cases (q r)) [ inl k ↦ rw k (keeps r) | inr k ↦ rw k ]

pub find_first-append {ℓ} :
    {A : Type ℓ} (p : A → Bool) (rows : List A) (new row : A)
    → find_first p rows ≡ some row
    → find_first p (rows ++ new ∷ []) ≡ some row
unfolding find_first
find_first-append p [] new row h = absurd (cc)
find_first-append p (r ∷ rows) new row h = elim (Bool-cases (p r)) [
  | inl e ↦ rw e (subst (λ b. (if b then some r else find_first p rows) ≡ some row) e h)
  | inr e ↦ rw e (
      find_first-append p rows new row
        (subst (λ b. (if b then some r else find_first p rows) ≡ some row) e h))
]

-- A row behind others that the search does not see.
pub find_first_new {ℓ} :
    {A : Type ℓ} (p : A → Bool) (rows : List A) (new : A)
    → exists p rows ≡ false
    → p new ≡ true
    → find_first p (rows ++ new ∷ []) ≡ some new
unfolding find_first
find_first_new p [] new h k = rw k refl
find_first_new p (r ∷ rows) new h k = elim (Bool-cases (p r)) [
  | inl e ↦ absurd (cc (h, e))
  | inr e ↦ rw e (find_first_new p rows new (cc (h, e)) k)
]

pub find_first_of_exists {ℓ} :
    {A : Type ℓ} (p : A → Bool) (rows : List A)
    → exists p rows ≡ true
    → (row : A) × (find_first p rows ≡ some row)
unfolding find_first
find_first_of_exists p [] h = absurd (cc)
find_first_of_exists p (r ∷ rows) h = elim (Bool-cases (p r)) [
  | inl e ↦ rw e (r, refl)
  | inr e ↦ rw e (find_first_of_exists p rows (cc (h, e)))
]

-- What is found passes the search.
pub find_first_passes {ℓ} :
    {A : Type ℓ} (p : A → Bool) (rows : List A) (row : A)
    → find_first p rows ≡ some row
    → p row ≡ true
unfolding find_first
find_first_passes p [] row h = absurd (cc)
find_first_passes p (r ∷ rows) row h = elim (Bool-cases (p r)) [
  | inl e ↦
      let found : some r ≡ some row =
        subst (λ b. (if b then some r else find_first p rows) ≡ some row) e h in
      let same : r ≡ row = cc found in subst (λ x. p x ≡ true) same e
  | inr e ↦
      find_first_passes p rows row
        (subst (λ b. (if b then some r else find_first p rows) ≡ some row) e h)
]
