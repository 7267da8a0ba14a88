-- ===== src/Order/Ids.antt =====
-- Rows of `orders` with ids of their own, through selects and updates.
use trading_worker.Base.{
  ℕ, zero, suc, ◌≡◌, refl, arith, Bool, true, false, ◌||◌, List, [], ◌∷◌, ◌++◌, ◌==◌, take, map,
  exists, insert_by, sort_by, filter_by, All, Bool-cases, inl, inr,
}
use trading_worker.Sql.{update_where}
use trading_worker.Sql.Rows.{
  All-concat, All-imp, All-update_where, All-take, All-sort_by, All-filter_by, All-insert_by,
}
use trading_worker.Order.{Order, UniqueIds}

==-sym_false : (a b : ℕ) → (a == b) ≡ false → (b == a) ≡ false
==-sym_false a b h = ground arith

abbrev pub Differs : ℕ → Order → Type 0
Differs id x = (x.id == id) ≡ false

pub UniqueIds-take : (n : ℕ) (os : List Order) → UniqueIds os → UniqueIds (take n os)
UniqueIds-take zero os u = tt
UniqueIds-take (suc n) [] u = tt
UniqueIds-take (suc n) (o ∷ os) u = (All-take (Differs o.id) n os u.0, UniqueIds-take n os u.1)

pub UniqueIds-filter_by :
    (p : Order → Bool) (os : List Order) → UniqueIds os → UniqueIds (filter_by p os)
unfolding filter_by
UniqueIds-filter_by p [] u = tt
UniqueIds-filter_by p (o ∷ os) u = elim (Bool-cases (p o)) [
  | inl e ↦ rw e (
    All-filter_by (Differs o.id) (Differs o.id) p (λ _ _ d. d) os u.0,
    UniqueIds-filter_by p os u.1,
  )
  | inr e ↦ rw e (UniqueIds-filter_by p os u.1)
]

module _ (le : Order → Order → Bool) where
  UniqueIds-insert_by :
      (x : Order) (os : List Order)
      → All (Differs x.id) os
      → UniqueIds os
      → UniqueIds (insert_by le x os)
  unfolding insert_by
  UniqueIds-insert_by x [] d u = (tt, tt)
  UniqueIds-insert_by x (y ∷ ys) d u = elim (Bool-cases (le x y)) [
    | inl e ↦ rw e (d, u)
    | inr e ↦ rw e (
      All-insert_by (Differs y.id) le x ys (==-sym_false y.id x.id d.0) u.0,
      UniqueIds-insert_by x ys d.1 u.1,
    )
  ]

  pub UniqueIds-sort_by : (os : List Order) → UniqueIds os → UniqueIds (sort_by le os)
  unfolding sort_by
  UniqueIds-sort_by [] u = tt
  UniqueIds-sort_by (o ∷ os) u =
      UniqueIds-insert_by o (sort_by le os) (All-sort_by (Differs o.id) le os u.0)
        (UniqueIds-sort_by os u.1)

module _ (f : Order → Order) (same : (o : Order) → (f o).id ≡ o.id) where
  pub UniqueIds-map : (os : List Order) → UniqueIds os → UniqueIds (map f os)
  UniqueIds-map [] u = tt
  UniqueIds-map (o ∷ os) u = (rw (same o) (mapped o.id os u.0), UniqueIds-map os u.1)
    where
      mapped : (id : ℕ) (os : List Order) → All (Differs id) os → All (Differs id) (map f os)
      mapped id [] h = tt
      mapped id (x ∷ xs) h = (rw (same x) h.0, mapped id xs h.1)

  -- An update that keeps the ids keeps them unique.
  pub UniqueIds-update_where :
      (p : Order → Bool) (os : List Order) → UniqueIds os → UniqueIds (update_where p f os)
  unfolding update_where
  UniqueIds-update_where p [] u = tt
  UniqueIds-update_where p (x ∷ xs) u = elim (Bool-cases (p x)) [
    | inl e ↦ rw (e, same x) (kept x.id xs u.0, UniqueIds-update_where p xs u.1)
    | inr e ↦ rw e (kept x.id xs u.0, UniqueIds-update_where p xs u.1)
  ]
    where
      kept :
          (id : ℕ) (os : List Order) → All (Differs id) os → All (Differs id) (update_where p f os)
      kept id os h =
          All-update_where (Differs id) (Differs id) p f (λ r _ d. rw (same r) d) (λ r _ d. d) os h

or_false : (a b : Bool) → (a || b) ≡ false → (a ≡ false) × (b ≡ false)
or_false false false h = (refl, refl)
or_false false true h = cc
or_false true b h = cc

-- Two lists of rows with ids of their own, and no id of the first in the second.
pub UniqueIds-append :
    (os ps : List Order)
    → UniqueIds os
    → UniqueIds ps
    → All (λ x. exists (λ o. o.id == x.id) os ≡ false) ps
    → UniqueIds (os ++ ps)
UniqueIds-append [] ps u v h = v
UniqueIds-append (o ∷ os) ps u v h = (
  All-concat (Differs o.id) os ps u.0 (
      All-imp (λ x. exists (λ y. y.id == x.id) (o ∷ os) ≡ false) (Differs o.id)
        (λ x e. ==-sym_false o.id x.id (or_false _ _ e).0) ps h),
  UniqueIds-append os ps u.1 v (
      All-imp (λ x. exists (λ y. y.id == x.id) (o ∷ os) ≡ false)
        (λ x. exists (λ y. y.id == x.id) os ≡ false) (λ x e. (or_false _ _ e).1) ps h),
)
