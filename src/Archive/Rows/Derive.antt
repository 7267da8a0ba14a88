-- ===== src/Archive/Rows/Derive.antt =====
-- `deriveHourlyRows` and `deriveDailyRows` of chart-archive-writer.service.ts against the minute rows.
use trading_worker.Base.{
  ℕ, ◌<◌, ◌≡◌, ◌∙◌, arith, Bool, true, false, List, [], ◌∷◌, ◌++◌, some, ◌==◌, All, sort_by,
  Bool-cases, inl, inr, if◌then◌else◌, subst,
}
use trading_worker.Sql.{find_first}
use trading_worker.Sql.Rows.{All-sort_by, All_of_sort_by, All-imp, All-both, All-always}
use trading_worker.Sql.Sorted.{IsIncreasing, sort_by-IsIncreasing, sum_by-sort_by}
use trading_worker.Archive.Tasks.{Timeframe, one_hour, one_day}
use trading_worker.Archive.Rows.{
  ArchivedCandleRow, ArchiveInput, hour_start, kst_trade_date, kst_trade_date_start_utc,
  add_to_group, group_rows, total_volume, aggregate_groups, group_leb, derive_hourly_rows,
  derive_daily_rows,
}
use trading_worker.Archive.Rows.Merge.{row_at}
use trading_worker.Archive.Rows.Groups.{
  IsOrdered, Group, IsGroup, group_volume-group_rows, group_rows-IsGroup, group_rows-Distinct,
}
use trading_worker.Archive.Rows.Sums.{
  Spans, RowsOf, aggregate_groups-RowsOf, volume-RowsOf, RowsOf-All, RowsOf-IsIncreasing,
}

-- The row derived for the bucket of a minute row spans its prices.
abbrev pub IsCovered : (ℕ → ℕ) → List ArchivedCandleRow → ArchivedCandleRow → Type 0
IsCovered bucket_of out u =
    (r : ArchivedCandleRow) × (row_at (bucket_of u.bucket_start) out ≡ some r) × Spans r u

-- What derived rows keep of minute rows: the volume, prices in order, one row for each bucket in the order of
-- the buckets, and every minute row within the prices of the row of its bucket.
pub record IsDerived (bucket_of : ℕ → ℕ) (rows out : List ArchivedCandleRow) : Type 0 where
  pub conserved : total_volume out ≡ total_volume rows
  pub ordered : All IsOrdered out
  pub in_order : IsIncreasing (λ r. r.bucket_start) out
  pub covered : All (IsCovered bucket_of out) rows

module _ {κ} (P : ArchivedCandleRow → Type κ) where
  abbrev Members : List Group → Type κ
  Members groups = All (λ g. All P g.1) groups

  All-left :
      (rows : List ArchivedCandleRow) (u : ArchivedCandleRow)
      → All P (rows ++ u ∷ [])
      → All P rows × P u
  All-left [] u h = (tt, h.0)
  All-left (r ∷ rows) u h = let (rest, p) = All-left rows u h.1 in ((h.0, rest), p)

  Members-add_to_group :
      (key : ℕ) (u : ArchivedCandleRow) (groups : List Group)
      → Members (add_to_group key u groups)
      → P u × Members groups
  unfolding add_to_group
  Members-add_to_group key u [] h = (h.0.0, tt)
  Members-add_to_group key u ((k, rows) ∷ groups) h =
      let either = λ (b : Bool).
        Members
          (if b then (k, rows ++ u ∷ []) ∷ groups else (k, rows) ∷ add_to_group key u groups) in
      elim (Bool-cases (k == key)) [
        | inl e ↦
            let (first, others) = subst either e h in
            let (rest, p) = All-left rows u first in (p, (rest, others))
        | inr e ↦
            let (first, others) = subst either e h in
            let (p, rest) = Members-add_to_group key u groups others in (p, (first, rest))
      ]

  -- What holds of all members of the groups, holds of all rows.
  Members-group_rows :
      (key_of : ℕ → ℕ) (rows : List ArchivedCandleRow) (groups : List Group)
      → Members (group_rows key_of rows groups)
      → All P rows × Members groups
  unfolding group_rows
  Members-group_rows key_of [] groups h = (tt, h)
  Members-group_rows key_of (u ∷ rows) groups h =
      let (rest, grouped) =
        Members-group_rows key_of rows (add_to_group (key_of u.bucket_start) u groups) h in
      let (p, members) = Members-add_to_group (key_of u.bucket_start) u groups grouped in
      ((p, rest), members)

module _ (input : ArchiveInput) (timeframe : Timeframe) (key_of start_of : ℕ → ℕ)
    (grows : (a b : ℕ) → a < b → start_of a < start_of b) where
  -- The row of a group is the one at the group's bucket.
  abbrev Found : List ArchivedCandleRow → Group → Type 0
  Found out g = (r : ArchivedCandleRow) × (row_at (start_of g.0) out ≡ some r) × All (Spans r) g.1

  Found-later :
      (r : ArchivedCandleRow) (out : List ArchivedCandleRow) (g : Group)
      → r.bucket_start < start_of g.0
      → Found out g
      → Found (r ∷ out) g
  unfolding find_first
  Found-later r out g h (u, e, spans) =
      let miss : (r.bucket_start == start_of g.0) ≡ false = ground arith in (u, rw miss e, spans)

  groups-Found :
      (groups : List Group) (out : List ArchivedCandleRow)
      → IsIncreasing (λ g. g.0) groups
      → RowsOf input timeframe key_of start_of groups out
      → All (Found out) groups
  unfolding find_first
  groups-Found [] out s h = tt
  groups-Found (g ∷ groups) [] s h = absurd h
  groups-Found (g ∷ groups) (r ∷ out) s h =
      let hit : (r.bucket_start == start_of g.0) ≡ true = ground (arith, h.0.0) in
      (
        (r, rw hit, h.0.3),
        All-imp (λ u. (g.0 < u.0) × Found out u) (Found (r ∷ out))
            (λ u k. Found-later r out u (rw (h.0.0) (grows g.0 u.0 k.0)) k.1) groups
            (All-both _ _ groups s.0 (groups-Found groups out s.1 h.1)),
      )

  abbrev bucket_of : ℕ → ℕ
  bucket_of b = start_of (key_of b)

  members-IsCovered :
      (out : List ArchivedCandleRow) (g : Group)
      → IsGroup key_of g
      → Found out g
      → All (IsCovered bucket_of out) g.1
  members-IsCovered out g h (r, e, spans) =
      All-imp _ (IsCovered bucket_of out) (λ u k. (r, rw (k.0.0) e, k.1)) g.1
        (All-both _ _ g.1 h.1 spans)

  -- Rows grouped, sorted and aggregated.
  aggregate-IsDerived :
      (rows : List ArchivedCandleRow)
      → All IsOrdered rows
      → (out : List ArchivedCandleRow) × (aggregate_groups input timeframe start_of
            (sort_by group_leb (group_rows key_of rows []))
          ≡ some out)
        × IsDerived bucket_of rows out
  aggregate-IsDerived rows o =
      let grouped = group_rows key_of rows [] in
      let groups = sort_by group_leb grouped in
      let are_groups =
        All-sort_by (IsGroup key_of) group_leb grouped (group_rows-IsGroup key_of rows [] o tt) in
      let sorted =
        sort_by-IsIncreasing (λ (g : Group). g.0) grouped (group_rows-Distinct key_of rows [] tt) in
      let (out, e, derived) =
        aggregate_groups-RowsOf input timeframe key_of start_of groups are_groups in
      let members =
        All-imp (λ g. IsGroup key_of g × Found out g) (λ g. All (IsCovered bucket_of out) g.1)
          (λ g k. members-IsCovered out g k.0 k.1) groups
          (All-both _ _ groups are_groups (groups-Found groups out sorted derived)) in
      (
        out,
        e,
        record {
          conserved =
              volume-RowsOf input timeframe key_of start_of groups out derived
              ∙ sum_by-sort_by (λ (g : Group). total_volume g.1) group_leb grouped
              ∙ group_volume-group_rows key_of rows []
              ∙ omega arith;
          ordered =
              RowsOf-All input timeframe key_of start_of (λ _. Unit) IsOrdered
                (λ g r _ sums. sums.2) groups out (All-always _ (λ _. tt) groups) derived;
          in_order =
              RowsOf-IsIncreasing input timeframe key_of start_of grows groups out sorted derived;
          covered =
              (Members-group_rows (IsCovered bucket_of out) key_of rows [] (
                All_of_sort_by (λ g. All (IsCovered bucket_of out) g.1) group_leb grouped
                  members)).0;
        },
      )

-- From minute rows with their prices in order `deriveHourlyRows` throws no error, and its rows have the volume
-- of the minute rows, prices in order, one row for each hour in the order of the hours, and every minute row
-- lies within the prices of the row of its hour.
pub derive_hourly_rows-IsDerived :
    (input : ArchiveInput) (rows : List ArchivedCandleRow)
    → All IsOrdered rows
    → (out : List ArchivedCandleRow) × (derive_hourly_rows input rows ≡ some out)
      × IsDerived hour_start rows out
unfolding derive_hourly_rows
derive_hourly_rows-IsDerived input rows o =
    aggregate-IsDerived input one_hour hour_start (λ key. key) (λ a b h. h) rows o

day_start_grows : (a b : ℕ) → a < b → kst_trade_date_start_utc a < kst_trade_date_start_utc b
unfolding kst_trade_date_start_utc
day_start_grows a b h = omega arith

-- The same of `deriveDailyRows`, for the trade dates of Korea.
pub derive_daily_rows-IsDerived :
    (input : ArchiveInput) (rows : List ArchivedCandleRow)
    → All IsOrdered rows
    → (out : List ArchivedCandleRow) × (derive_daily_rows input rows ≡ some out)
      × IsDerived (λ b. kst_trade_date_start_utc (kst_trade_date b)) rows out
unfolding derive_daily_rows
derive_daily_rows-IsDerived input rows o =
    aggregate-IsDerived input one_day kst_trade_date kst_trade_date_start_utc day_start_grows rows o
