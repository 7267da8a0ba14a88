-- ===== src/Archive/Rows/Merge.antt =====
-- `mergeRows` of chart-archive-writer.service.ts against the rows that it is given, bucket by bucket.
use trading_worker.Base.{
  ℕ, ◌≤◌, ◌<◌, ◌≡◌, ◌∙◌, refl, sym, ap, arith, Bool, true, false, List, [], ◌∷◌, Option, some, none,
  ◌==◌, if◌then◌else◌, All, Bool-cases, inl, inr, insert_by, sort_by,
}
use mathlib.Core.Path.{ap₂}
use native.Mathlib.Decide.{dec_lt}
use trading_worker.Base.Text.{coalesce_null}
use trading_worker.Sql.{find_first}
use trading_worker.Sql.Rows.{All-sort_by, All-imp}
use trading_worker.Sql.Sorted
use trading_worker.Sql.Distinct.{Apart, Distinct}
use trading_worker.Archive.Rows.{ArchivedCandleRow, bucket_leb, set_row, set_rows, merge_rows}

-- The first and the last row of a bucket.
abbrev at_bucket : ℕ → ArchivedCandleRow → Bool
at_bucket b r = r.bucket_start == b

abbrev pub row_at : ℕ → List ArchivedCandleRow → Option ArchivedCandleRow
row_at b rows = find_first (at_bucket b) rows

abbrev pub last_at : ℕ → List ArchivedCandleRow → Option ArchivedCandleRow
last_at b [] = none
last_at b (r ∷ rows) = coalesce_null (last_at b rows) (if r.bucket_start == b then some r else none)

-- Each bucket comes later than the one before it.
abbrev pub IsIncreasing : List ArchivedCandleRow → Type 0
IsIncreasing rows = Sorted.IsIncreasing (λ r. r.bucket_start) rows

abbrev Before : ArchivedCandleRow → ArchivedCandleRow → Type 0
Before r u = r.bucket_start < u.bucket_start

abbrev same_bucket : ArchivedCandleRow → ArchivedCandleRow → Bool
same_bucket a b = a.bucket_start == b.bucket_start

row_at-set_row :
    (b : ℕ) (row : ArchivedCandleRow) (rows : List ArchivedCandleRow)
    → row_at b (set_row row rows) ≡ (if row.bucket_start == b then some row else row_at b rows)
unfolding set_row find_first
row_at-set_row b row [] = refl
row_at-set_row b row (r ∷ rows) = elim (Bool-cases (r.bucket_start == row.bucket_start)) [
  | inl e ↦ rw e (ground arith)
  | inr e ↦ rw e (ground (arith, row_at-set_row b row rows))
]

row_at-set_rows :
    (b : ℕ) (incoming rows : List ArchivedCandleRow)
    → row_at b (set_rows incoming rows) ≡ coalesce_null (last_at b incoming) (row_at b rows)
unfolding set_rows
row_at-set_rows b [] rows = refl
row_at-set_rows b (r ∷ incoming) rows =
    row_at-set_rows b incoming (set_row r rows)
    ∙ rw (row_at-set_row b r rows) (regroup (last_at b incoming) (r.bucket_start == b))
  where
    regroup :
        (o : Option ArchivedCandleRow) (same : Bool)
        → coalesce_null o (if same then some r else row_at b rows)
          ≡ coalesce_null (coalesce_null o (if same then some r else none)) (row_at b rows)
    regroup none true = refl
    regroup none false = refl
    regroup (some u) same = refl

All-set_row {κ} :
    (P : ArchivedCandleRow → Type κ) (row : ArchivedCandleRow) (rows : List ArchivedCandleRow)
    → P row
    → All P rows
    → All P (set_row row rows)
unfolding set_row
All-set_row P row [] p h = (p, tt)
All-set_row P row (r ∷ rows) p h = elim (Bool-cases (r.bucket_start == row.bucket_start)) [
  | inl e ↦ rw e (p, h.1)
  | inr e ↦ rw e (h.0, All-set_row P row rows p h.1)
]

Distinct-set_row :
    (row : ArchivedCandleRow) (rows : List ArchivedCandleRow)
    → Distinct same_bucket rows
    → Distinct same_bucket (set_row row rows)
unfolding set_row
Distinct-set_row row [] d = (tt, tt)
Distinct-set_row row (r ∷ rows) d = elim (Bool-cases (r.bucket_start == row.bucket_start)) [
  | inl e ↦
      rw e
        (All-imp (Apart same_bucket r) (Apart same_bucket row) (λ u h. ground arith) rows d.0, d.1)
  | inr e ↦ rw e (All-set_row (Apart same_bucket r) row rows e d.0, Distinct-set_row row rows d.1)
]

Distinct-set_rows :
    (incoming rows : List ArchivedCandleRow)
    → Distinct same_bucket rows
    → Distinct same_bucket (set_rows incoming rows)
unfolding set_rows
Distinct-set_rows [] rows d = d
Distinct-set_rows (r ∷ incoming) rows d =
    Distinct-set_rows incoming (set_row r rows) (Distinct-set_row r rows d)

row_at-insert_by :
    (b : ℕ) (row : ArchivedCandleRow) (rows : List ArchivedCandleRow)
    → All (Apart same_bucket row) rows
    → row_at b (insert_by bucket_leb row rows)
      ≡ (if row.bucket_start == b then some row else row_at b rows)
unfolding insert_by find_first
row_at-insert_by b row [] h = refl
row_at-insert_by b row (r ∷ rows) h = elim (Bool-cases (bucket_leb row r)) [
  | inl e ↦ rw e
  | inr e ↦ rw e (ground (arith, h.0, row_at-insert_by b row rows h.1))
]

row_at-sort_by :
    (b : ℕ) (rows : List ArchivedCandleRow)
    → Distinct same_bucket rows
    → row_at b (sort_by bucket_leb rows) ≡ row_at b rows
unfolding sort_by find_first
row_at-sort_by b [] d = refl
row_at-sort_by b (r ∷ rows) d =
    row_at-insert_by b r (sort_by bucket_leb rows)
      (All-sort_by (Apart same_bucket r) bucket_leb rows d.0)
    ∙ ap (λ o. if r.bucket_start == b then some r else o) (row_at-sort_by b rows d.1)

Distinct-merged :
    (existing incoming : List ArchivedCandleRow)
    → Distinct same_bucket (set_rows incoming (set_rows existing []))
Distinct-merged existing incoming =
    Distinct-set_rows incoming (set_rows existing []) (Distinct-set_rows existing [] tt)

pub merge_rows-IsIncreasing :
    (existing incoming : List ArchivedCandleRow) → IsIncreasing (merge_rows existing incoming)
unfolding merge_rows
merge_rows-IsIncreasing existing incoming =
    Sorted.sort_by-IsIncreasing (λ r. r.bucket_start) _ (Distinct-merged existing incoming)

coalesce_null-none {ℓ} : {A : Type ℓ} (o : Option A) → coalesce_null o none ≡ o
coalesce_null-none none = refl
coalesce_null-none (some a) = refl

pub row_at-merge_rows :
    (existing incoming : List ArchivedCandleRow) (b : ℕ)
    → row_at b (merge_rows existing incoming)
      ≡ coalesce_null (last_at b incoming) (last_at b existing)
unfolding merge_rows find_first
row_at-merge_rows existing incoming b =
    row_at-sort_by b _ (Distinct-merged existing incoming)
    ∙ row_at-set_rows b incoming (set_rows existing [])
    ∙ ap (coalesce_null (last_at b incoming)) (row_at-set_rows b existing [] ∙ none_left)
  where
    none_left : coalesce_null (last_at b existing) (row_at b []) ≡ last_at b existing
    none_left = coalesce_null-none (last_at b existing)

-- `mergeRows` has one row for each bucket, in the order of the buckets: the last that came for it, and the last
-- that was there where none came.
pub merge_rows_lem :
    (existing incoming : List ArchivedCandleRow) (b : ℕ)
    → IsIncreasing (merge_rows existing incoming)
      × (row_at b (merge_rows existing incoming)
          ≡ coalesce_null (last_at b incoming) (last_at b existing))
merge_rows_lem existing incoming b =
    (merge_rows-IsIncreasing existing incoming, row_at-merge_rows existing incoming b)

-- Rows that are later have no row at the bucket.
row_at_of_later :
    (b : ℕ) (r : ArchivedCandleRow) (rows : List ArchivedCandleRow)
    → b ≤ r.bucket_start
    → All (Before r) rows
    → row_at b rows ≡ none
unfolding find_first
row_at_of_later b r [] h k = refl
row_at_of_later b r (u ∷ rows) h k =
    let e : (u.bucket_start == b) ≡ false = ground (arith, k.0) in
    rw e (row_at_of_later b r rows h k.1)

last_at_of_IsIncreasing :
    (b : ℕ) (rows : List ArchivedCandleRow) → IsIncreasing rows → last_at b rows ≡ row_at b rows
unfolding find_first
last_at_of_IsIncreasing b [] s = refl
last_at_of_IsIncreasing b (r ∷ rows) s = elim (Bool-cases (r.bucket_start == b)) [
  | inl e ↦ rw (e, last_at_of_IsIncreasing b rows s.1, row_at_of_later b r rows (ground arith) s.0)
  | inr e ↦ rw e (coalesce_null-none _ ∙ last_at_of_IsIncreasing b rows s.1)
]

module _ (r u : ArchivedCandleRow) (rows others : List ArchivedCandleRow)
    (s : IsIncreasing (r ∷ rows)) (t : IsIncreasing (u ∷ others))
    (h : (b : ℕ) → row_at b (r ∷ rows) ≡ row_at b (u ∷ others)) where
  first_eq : r ≡ u
  unfolding find_first
  first_eq = elim (dec_lt u.bucket_start r.bucket_start) [
    | yes p ↦
        absurd (
          ground (arith, h u.bucket_start, row_at_of_later u.bucket_start r rows (omega arith) s.0))
    | no p ↦
        ground (arith, h r.bucket_start, row_at_of_later r.bucket_start u others (omega arith) t.0)
  ]

  rest_eq : (b : ℕ) → row_at b rows ≡ row_at b others
  unfolding find_first
  rest_eq b =
      let e : u.bucket_start ≡ r.bucket_start = sym (ap (λ x. x.bucket_start) first_eq) in
      elim (dec_lt r.bucket_start b) [
        | yes p ↦ ground (arith, h b)
        | no p ↦
            row_at_of_later b r rows (omega arith) s.0
            ∙ sym (row_at_of_later b u others (omega arith) t.0)
      ]

-- Increasing rows are given by their row at each bucket.
rows_eq :
    (rows others : List ArchivedCandleRow)
    → IsIncreasing rows
    → IsIncreasing others
    → ((b : ℕ) → row_at b rows ≡ row_at b others)
    → rows ≡ others
unfolding find_first
rows_eq [] [] s t h = refl
rows_eq [] (u ∷ others) s t h = absurd (ground (arith, h u.bucket_start))
rows_eq (r ∷ rows) [] s t h = absurd (ground (arith, h r.bucket_start))
rows_eq (r ∷ rows) (u ∷ others) s t h =
    ap₂ ◌∷◌ (first_eq r u rows others s t h)
      (rows_eq rows others s.1 t.1 (rest_eq r u rows others s t h))

-- Rows that are merged a second time change nothing, so an archive of a symbol that is tried again leaves the
-- partition as the first time left it.
pub merge_rows_twice :
    (existing incoming : List ArchivedCandleRow)
    → merge_rows (merge_rows existing incoming) incoming ≡ merge_rows existing incoming
merge_rows_twice existing incoming =
    let once = merge_rows existing incoming in
    let s = merge_rows-IsIncreasing existing incoming in
    rows_eq (merge_rows once incoming) once (merge_rows-IsIncreasing once incoming) s (λ b.
      row_at-merge_rows once incoming b
      ∙ ap (coalesce_null (last_at b incoming))
          (last_at_of_IsIncreasing b once s ∙ row_at-merge_rows existing incoming b)
      ∙ again (last_at b incoming) (last_at b existing)
      ∙ sym (row_at-merge_rows existing incoming b))
  where
    again :
        (o p : Option ArchivedCandleRow) → coalesce_null o (coalesce_null o p) ≡ coalesce_null o p
    again none p = refl
    again (some a) p = refl
