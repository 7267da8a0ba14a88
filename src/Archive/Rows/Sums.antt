-- ===== src/Archive/Rows/Sums.antt =====
-- `aggregateRows` of chart-archive-writer.service.ts, on the rows of a group and on all groups.
use trading_worker.Base.{
  ℕ, ◌≤◌, ◌<◌, ◌≡◌, ◌∙◌, refl, arith, List, [], ◌∷◌, some, All, sort_by, insert_by, Bool-cases, inl,
  inr,
}
use trading_worker.Sql.Rows.{All-sort_by, All-imp, All-both, All_of_sort_by}
use trading_worker.Sql.Sorted.{IsIncreasing, sum_by-sort_by}
use trading_worker.Archive.Tasks.{Timeframe}
use trading_worker.Archive.Rows.{
  ArchivedCandleRow, ArchiveInput, bucket_leb, max_high, min_low, last_close, total_volume,
  combined_row, aggregate_sorted, aggregate_rows, aggregate_groups,
}
use trading_worker.Archive.Rows.Groups.{IsOrdered, Group, group_volume, Filled, Member, IsGroup}

-- A row spans the prices of another.
abbrev pub Spans : ArchivedCandleRow → ArchivedCandleRow → Type 0
Spans r u = (r.low ≤ u.low) × (u.high ≤ r.high)

max_high-bound :
    (first : ArchivedCandleRow) (rows : List ArchivedCandleRow)
    → All (λ u. u.high ≤ max_high first rows) (first ∷ rows)
max_high-bound first [] = (omega arith, tt)
max_high-bound first (r ∷ rows) =
    (omega arith, All-imp _ _ (λ u h. omega arith) (r ∷ rows) (max_high-bound r rows))

min_low-bound :
    (first : ArchivedCandleRow) (rows : List ArchivedCandleRow)
    → All (λ u. min_low first rows ≤ u.low) (first ∷ rows)
min_low-bound first [] = (omega arith, tt)
min_low-bound first (r ∷ rows) =
    (omega arith, All-imp _ _ (λ u h. omega arith) (r ∷ rows) (min_low-bound r rows))

last_close-bound :
    (first : ArchivedCandleRow) (rows : List ArchivedCandleRow)
    → All IsOrdered (first ∷ rows)
    → (min_low first rows ≤ last_close first rows) × (last_close first rows ≤ max_high first rows)
last_close-bound first [] o = (o.0.low_close, o.0.close_high)
last_close-bound first (r ∷ rows) o =
    let (low, high) = last_close-bound r rows o.1 in (omega arith, omega arith)

-- What one row derived from rows of a bucket keeps of them.
abbrev pub Sums : ℕ → List ArchivedCandleRow → ArchivedCandleRow → Type 0
Sums bucket_start rows r =
    (r.bucket_start ≡ bucket_start)
    × (r.volume ≡ total_volume rows)
    × IsOrdered r
    × All (Spans r) rows

module _ (input : ArchiveInput) (timeframe : Timeframe) where
  aggregate_sorted-Sums :
      (bucket_start : ℕ) (rows : List ArchivedCandleRow)
      → Filled rows
      → All IsOrdered rows
      → (r : ArchivedCandleRow) × (aggregate_sorted input timeframe bucket_start rows ≡ some r)
        × Sums bucket_start rows r
  unfolding aggregate_sorted combined_row
  aggregate_sorted-Sums bucket_start [] f o = absurd f
  aggregate_sorted-Sums bucket_start (first ∷ rows) f o =
      let (low_close, close_high) = last_close-bound first rows o in
      let high = max_high-bound first rows in
      let low = min_low-bound first rows in
      let low_open = o.0.low_open in
      let open_high = o.0.open_high in
      (
        combined_row input timeframe bucket_start first rows,
        refl,
        (
          refl,
          refl,
          record {
            low_open = omega arith;
            low_close = low_close;
            open_high = omega arith;
            close_high = close_high;
          },
          All-both _ _ (first ∷ rows) low high,
        ),
      )

  Filled-insert_by :
      (row : ArchivedCandleRow) (rows : List ArchivedCandleRow)
      → Filled (insert_by bucket_leb row rows)
  unfolding insert_by
  Filled-insert_by row [] = tt
  Filled-insert_by row (r ∷ rows) = elim (Bool-cases (bucket_leb row r)) [
    | inl e ↦ rw e tt
    | inr e ↦ rw e tt
  ]

  Filled-sort_by : (rows : List ArchivedCandleRow) → Filled rows → Filled (sort_by bucket_leb rows)
  unfolding sort_by
  Filled-sort_by [] f = f
  Filled-sort_by (r ∷ rows) f = Filled-insert_by r (sort_by bucket_leb rows)

  aggregate_rows-Sums :
      (bucket_start : ℕ) (rows : List ArchivedCandleRow)
      → Filled rows
      → All IsOrdered rows
      → (r : ArchivedCandleRow) × (aggregate_rows input timeframe bucket_start rows ≡ some r)
        × Sums bucket_start rows r
  unfolding aggregate_rows
  aggregate_rows-Sums bucket_start rows f o =
      let (r, e, (start, volume, ordered, spans)) =
        aggregate_sorted-Sums bucket_start (sort_by bucket_leb rows) (Filled-sort_by rows f)
          (All-sort_by IsOrdered bucket_leb rows o) in
      (
        r,
        e,
        (
          start,
          volume ∙ sum_by-sort_by (λ (u : ArchivedCandleRow). u.volume) bucket_leb rows,
          ordered,
          All_of_sort_by (Spans r) bucket_leb rows spans,
        ),
      )

  module _ (key_of start_of : ℕ → ℕ) where
    -- One derived row for each group.
    abbrev pub RowsOf : List Group → List ArchivedCandleRow → Type 0
    RowsOf [] [] = Unit
    RowsOf [] (r ∷ out) = ⊥
    RowsOf (g ∷ groups) [] = ⊥
    RowsOf (g ∷ groups) (r ∷ out) = Sums (start_of g.0) g.1 r × RowsOf groups out

    pub aggregate_groups-RowsOf :
        (groups : List Group)
        → All (IsGroup key_of) groups
        → (out : List ArchivedCandleRow) × (aggregate_groups input timeframe start_of groups
            ≡ some out)
          × RowsOf groups out
    unfolding aggregate_groups
    aggregate_groups-RowsOf [] h = ([], refl, tt)
    aggregate_groups-RowsOf ((key, rows) ∷ groups) h =
        let (r, e, sums) =
          aggregate_rows-Sums (start_of key) rows h.0.0
            (All-imp (Member key_of key) IsOrdered (λ u m. m.1) rows h.0.1) in
        let (out, f, rest) = aggregate_groups-RowsOf groups h.1 in
        (r ∷ out, rw (e, f), (sums, rest))

    pub volume-RowsOf :
        (groups : List Group) (out : List ArchivedCandleRow)
        → RowsOf groups out
        → total_volume out ≡ group_volume groups
    volume-RowsOf [] [] h = refl
    volume-RowsOf [] (r ∷ out) h = absurd h
    volume-RowsOf (g ∷ groups) [] h = absurd h
    volume-RowsOf (g ∷ groups) (r ∷ out) h =
        let e = h.0.1 in omega (arith, volume-RowsOf groups out h.1)

    pub RowsOf-All :
        (P : Group → Type 0) (Q : ArchivedCandleRow → Type 0)
        → ((g : Group) (r : ArchivedCandleRow) → P g → Sums (start_of g.0) g.1 r → Q r)
        → (groups : List Group) (out : List ArchivedCandleRow) → All P groups
        → RowsOf groups out
        → All Q out
    RowsOf-All P Q k [] [] p h = tt
    RowsOf-All P Q k [] (r ∷ out) p h = absurd h
    RowsOf-All P Q k (g ∷ groups) [] p h = absurd h
    RowsOf-All P Q k (g ∷ groups) (r ∷ out) p h =
        (k g r p.0 h.0, RowsOf-All P Q k groups out p.1 h.1)

    pub RowsOf-IsIncreasing :
        ((a b : ℕ) → a < b → start_of a < start_of b)
        → (groups : List Group) (out : List ArchivedCandleRow) → IsIncreasing (λ g. g.0) groups
        → RowsOf groups out
        → IsIncreasing (λ r. r.bucket_start) out
    RowsOf-IsIncreasing grows [] [] s h = tt
    RowsOf-IsIncreasing grows [] (r ∷ out) s h = absurd h
    RowsOf-IsIncreasing grows (g ∷ groups) [] s h = absurd h
    RowsOf-IsIncreasing grows (g ∷ groups) (r ∷ out) s h = (
      RowsOf-All (λ u. g.0 < u.0) (λ u. r.bucket_start < u.bucket_start)
          (λ u v later sums. rw (h.0.0, sums.0) (grows g.0 u.0 later)) groups out s.0 h.1,
      RowsOf-IsIncreasing grows groups out s.1 h.1,
    )
