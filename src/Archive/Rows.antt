-- ===== src/Archive/Rows.antt =====
-- The rows of roles/collector/chart-archive/chart-archive-writer.service.ts: `mergeRows`, `aggregateRows`,
-- `deriveHourlyRows`, `deriveDailyRows`, `maxKstTradeDate`.
-- An instant, in milliseconds after 1970-01-02, stands for its text by `toISOString`, and the number of a day
-- for the text of a trade date; such texts order as the numbers do. Prices and volumes are whole numbers.
pub mod Merge
pub mod Groups
pub mod Sums
pub mod Derive
mod Tests
use trading_worker.Base.{
  ℕ, zero, suc, ◌+◌, ◌-◌, ◌*◌, ◌/◌, ◌%◌, min, max, Bool, true, false, List, [], ◌∷◌, ◌++◌, Option,
  some, none, leb, ltb, ◌==◌, if◌then◌else◌, sort_by, ◌>>=◌,
}
use mathlib.Core.Option
use trading_worker.Base.Text.{Text}
use trading_worker.Event.{MarketEnv}
use trading_worker.Sql.Sorted.{sum_by}
use trading_worker.Archive.Tasks.{Timeframe, one_hour, one_day}

pub data ArchiveSource : Type 0 where
  rest_archive rest_backfill derived manual_fix : ArchiveSource

pub record ArchivedCandleRow : Type 0 where
  pub provider : Text
  pub market_env : MarketEnv
  pub symbol : Text
  pub stock_id : Option ℕ
  pub timeframe : Timeframe
  pub bucket_start : ℕ
  pub open_price : ℕ
  pub high : ℕ
  pub low : ℕ
  pub close : ℕ
  pub volume : ℕ
  pub trading_value : Option ℕ
  pub source : ArchiveSource
  pub schema_version : ℕ
  pub data_revision : ℕ

-- The fields that a caller passes on.
pub record ArchiveInput : Type 0 where
  pub provider : Text
  pub market_env : MarketEnv
  pub symbol : Text
  pub stock_id : Option ℕ

abbrev pub bucket_leb : ArchivedCandleRow → ArchivedCandleRow → Bool
bucket_leb a b = leb a.bucket_start b.bucket_start

-- `byBucket.set(row.bucketStartUtc, row)`
unfoldable pub set_row : ArchivedCandleRow → List ArchivedCandleRow → List ArchivedCandleRow
set_row row [] = row ∷ []
set_row row (r ∷ rows) =
    let rest = r ∷ set_row row rows in
    if r.bucket_start == row.bucket_start then row ∷ rows else rest

unfoldable pub set_rows : List ArchivedCandleRow → List ArchivedCandleRow → List ArchivedCandleRow
unfolding set_row
set_rows [] by_bucket = by_bucket
set_rows (row ∷ rows) by_bucket = set_rows rows (set_row row by_bucket)

unfoldable pub merge_rows : List ArchivedCandleRow → List ArchivedCandleRow → List ArchivedCandleRow
unfolding set_rows sort_by
merge_rows existing incoming = sort_by bucket_leb (set_rows incoming (set_rows existing []))

abbrev pub hour_ms : ℕ
hour_ms = 3600000

abbrev pub kst_day_ms : ℕ
kst_day_ms = 86400000

abbrev pub kst_offset_ms : ℕ
kst_offset_ms = 32400000

-- `date.setUTCMinutes(0, 0, 0)`
unfoldable pub hour_start : ℕ → ℕ
hour_start bucket_start = bucket_start - bucket_start % hour_ms

unfoldable pub kst_trade_date : ℕ → ℕ
kst_trade_date bucket_start = (bucket_start + kst_offset_ms) / kst_day_ms

unfoldable pub kst_trade_date_start_utc : ℕ → ℕ
kst_trade_date_start_utc trade_date = trade_date * kst_day_ms - kst_offset_ms

-- `grouped.set(key, [...(grouped.get(key) ?? []), row])`
unfoldable pub add_to_group :
    ℕ → ArchivedCandleRow → List (ℕ × List ArchivedCandleRow) → List (ℕ × List ArchivedCandleRow)
add_to_group key row [] = (key, row ∷ []) ∷ []
add_to_group key row ((k, rows) ∷ groups) =
    let rest = (k, rows) ∷ add_to_group key row groups in
    if k == key then (k, rows ++ row ∷ []) ∷ groups else rest

module _ (key_of : ℕ → ℕ) where
  unfoldable pub group_rows :
      List ArchivedCandleRow → List (ℕ × List ArchivedCandleRow) → List (ℕ × List ArchivedCandleRow)
  unfolding add_to_group
  group_rows [] groups = groups
  group_rows (row ∷ rows) groups =
      group_rows rows (add_to_group (key_of row.bucket_start) row groups)

abbrev pub max_high : ArchivedCandleRow → List ArchivedCandleRow → ℕ
max_high first [] = first.high
max_high first (r ∷ rows) = max first.high (max_high r rows)

abbrev pub min_low : ArchivedCandleRow → List ArchivedCandleRow → ℕ
min_low first [] = first.low
min_low first (r ∷ rows) = min first.low (min_low r rows)

abbrev pub last_close : ArchivedCandleRow → List ArchivedCandleRow → ℕ
last_close first [] = first.close
last_close first (r ∷ rows) = last_close r rows

abbrev pub total_volume : List ArchivedCandleRow → ℕ
total_volume rows = sum_by (λ r. r.volume) rows

unfoldable pub combined_row :
    ArchiveInput → Timeframe → ℕ → ArchivedCandleRow → List ArchivedCandleRow → ArchivedCandleRow
combined_row input timeframe bucket_start first rows = record {
  provider = input.provider;
  market_env = input.market_env;
  symbol = input.symbol;
  stock_id = input.stock_id;
  timeframe = timeframe;
  bucket_start = bucket_start;
  open_price = first.open_price;
  high = max_high first rows;
  low = min_low first rows;
  close = last_close first rows;
  volume = total_volume (first ∷ rows);
  trading_value = none;
  source = derived;
  schema_version = 1;
  data_revision = 1;
}

-- The rows in their order; `none` is the error that `sorted[0].open` throws where there is none.
unfoldable pub aggregate_sorted :
    ArchiveInput → Timeframe → ℕ → List ArchivedCandleRow → Option ArchivedCandleRow
unfolding combined_row
aggregate_sorted input timeframe bucket_start [] = none
aggregate_sorted input timeframe bucket_start (first ∷ rows) =
    some (combined_row input timeframe bucket_start first rows)

unfoldable pub aggregate_rows :
    ArchiveInput → Timeframe → ℕ → List ArchivedCandleRow → Option ArchivedCandleRow
unfolding aggregate_sorted sort_by
aggregate_rows input timeframe bucket_start rows =
    aggregate_sorted input timeframe bucket_start (sort_by bucket_leb rows)

module _ (input : ArchiveInput) (timeframe : Timeframe) (start_of : ℕ → ℕ) where
  unfoldable pub aggregate_groups :
      List (ℕ × List ArchivedCandleRow) → Option (List ArchivedCandleRow)
  unfolding aggregate_rows
  aggregate_groups [] = some []
  aggregate_groups ((key, rows) ∷ groups) =
      aggregate_rows input timeframe (start_of key) rows >>= λ r.
      Option.map (λ out. r ∷ out) (aggregate_groups groups)

abbrev pub group_leb : ℕ × List ArchivedCandleRow → ℕ × List ArchivedCandleRow → Bool
group_leb a b = leb a.0 b.0

unfoldable pub derive_hourly_rows :
    ArchiveInput → List ArchivedCandleRow → Option (List ArchivedCandleRow)
unfolding group_rows aggregate_groups hour_start sort_by
derive_hourly_rows input rows =
    aggregate_groups input one_hour (λ key. key) (sort_by group_leb (group_rows hour_start rows []))

unfoldable pub derive_daily_rows :
    ArchiveInput → List ArchivedCandleRow → Option (List ArchivedCandleRow)
unfolding group_rows aggregate_groups kst_trade_date kst_trade_date_start_utc sort_by
derive_daily_rows input rows =
    aggregate_groups input one_day kst_trade_date_start_utc
      (sort_by group_leb (group_rows kst_trade_date rows []))

unfoldable pub max_kst_trade_date : List ArchivedCandleRow → ℕ → ℕ
unfolding kst_trade_date
max_kst_trade_date [] day = day
max_kst_trade_date (r ∷ rows) day =
    max_kst_trade_date rows
      (if ltb day (kst_trade_date r.bucket_start) then kst_trade_date r.bucket_start else day)
