-- ===== src/Archive/Rows/Tests.antt =====
-- A few rows of the archive, merged and derived.
use trading_worker.Base.{ℕ, ◌+◌, ◌≡◌, refl, arith, All, List, [], ◌∷◌, Option, some, none}
use trading_worker.Base.Text.{codes, coalesce_null}
use trading_worker.Event.{MarketEnv}
use trading_worker.Archive.Tasks.{one_minute}
use trading_worker.Archive.Rows.{
  ArchivedCandleRow, ArchiveInput, rest_archive, merge_rows, hour_start, kst_trade_date,
  kst_trade_date_start_utc, derive_hourly_rows, derive_daily_rows, max_kst_trade_date,
}
use trading_worker.Archive.Rows.Merge.{row_at, last_at, IsIncreasing, merge_rows_lem}
use trading_worker.Archive.Rows.Groups.{IsOrdered}
use trading_worker.Archive.Rows.Derive.{
  IsDerived, derive_hourly_rows-IsDerived, derive_daily_rows-IsDerived,
}

abbrev input : ArchiveInput
input = record {
  provider = codes "kiwoom";
  market_env = MarketEnv.mock;
  symbol = codes "005930";
  stock_id = none;
}

abbrev row : ℕ → ℕ → ℕ → ArchivedCandleRow
row bucket_start price volume = record {
  provider = codes "kiwoom";
  market_env = MarketEnv.mock;
  symbol = codes "005930";
  stock_id = none;
  timeframe = one_minute;
  bucket_start = bucket_start;
  open_price = price;
  high = price + 1;
  low = price;
  close = price;
  volume = volume;
  trading_value = none;
  source = rest_archive;
  schema_version = 1;
  data_revision = 1;
}

-- Two minutes of one hour, and one of the next; 2026-05-04 09:00 in Korea is the first.
abbrev rows : List ArchivedCandleRow
rows = row 1777856460000 70 2 ∷ row 1777856400000 71 1 ∷ row 1777860000000 60 4 ∷ []

abbrev figures : Option (List ArchivedCandleRow) → List (ℕ × ℕ × ℕ × ℕ)
figures none = []
figures (some []) = []
figures (some (r ∷ out)) = (r.bucket_start, r.open_price, r.high, r.volume) ∷ figures (some out)

hourly :
    figures (derive_hourly_rows input rows)
    ≡ (1777856400000, 71, 72, 3) ∷ (1777860000000, 60, 61, 4) ∷ []
unfolding derive_hourly_rows
hourly = refl

daily : figures (derive_daily_rows input rows) ≡ (1777820400000, 71, 72, 7) ∷ []
unfolding derive_daily_rows
daily = refl

abbrev late : List ArchivedCandleRow
late = row 1777856400000 75 9 ∷ []

merged :
    figures (some (merge_rows rows late))
    ≡ (1777856400000, 75, 76, 9) ∷ (1777856460000, 70, 71, 2) ∷ (1777860000000, 60, 61, 4) ∷ []
unfolding merge_rows
merged = refl

merge_rows_lem_example :
    IsIncreasing (merge_rows rows late)
    × (row_at 1777856400000 (merge_rows rows late)
        ≡ coalesce_null (last_at 1777856400000 late) (last_at 1777856400000 rows))
merge_rows_lem_example = merge_rows_lem rows late 1777856400000

row-IsOrdered : (bucket_start price volume : ℕ) → IsOrdered (row bucket_start price volume)
row-IsOrdered bucket_start price volume = record {
  low_open = omega arith;
  low_close = omega arith;
  open_high = omega arith;
  close_high = omega arith;
}

rows-IsOrdered : All IsOrdered rows
rows-IsOrdered = (row-IsOrdered _ _ _, (row-IsOrdered _ _ _, (row-IsOrdered _ _ _, tt)))

derive_hourly_rows-IsDerived_example :
    (out : List ArchivedCandleRow) × (derive_hourly_rows input rows ≡ some out)
    × IsDerived hour_start rows out
derive_hourly_rows-IsDerived_example = derive_hourly_rows-IsDerived input rows rows-IsOrdered

derive_daily_rows-IsDerived_example :
    (out : List ArchivedCandleRow) × (derive_daily_rows input rows ≡ some out)
    × IsDerived (λ b. kst_trade_date_start_utc (kst_trade_date b)) rows out
derive_daily_rows-IsDerived_example = derive_daily_rows-IsDerived input rows rows-IsOrdered

latest_day : max_kst_trade_date rows 0 ≡ 20577
unfolding max_kst_trade_date
latest_day = refl
