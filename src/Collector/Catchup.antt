-- ===== src/Collector/Catchup.antt =====
-- roles/collector/service/chart-catchup.service.ts: fetched candles are written, and the targets without any
-- are marked as empty. Of a candle only the start of its bucket is read here, `none` where it is no date. The
-- copy to the archive, whose errors are only logged, is left out. The database is up, or not, for a whole run.
pub mod Rows
pub mod Targets
mod Tests
use trading_worker.Base.{
  ℕ, zero, suc, ◌+◌, ◌*◌, ◌/◌, ◌%◌, Bool, true, false, not, ◌&&◌, List, [], ◌∷◌, Option, some, none,
  ltb, leb, if◌then◌else◌, exists, filter_by,
}
use trading_worker.Base.Text.{coalesce}
use trading_worker.Collector.EmptyRanges.{
  transient, minute_interval, day_interval, CatchupInterval, TargetRange, CatchupRequest,
  EmptyRange, EmptyReads, record_empty_range,
}

abbrev pub Bucket : Type 0
Bucket = Option ℕ

-- `isKrxContinuousSessionBucket`: from 09:00 to before 15:20 in Korea.
unfoldable pub is_krx_continuous_session_bucket : Bucket → Bool
is_krx_continuous_session_bucket none = false
is_krx_continuous_session_bucket (some start) =
    let minutes = (start + 32400000) / 60000 % 1440 in leb 540 minutes && ltb minutes 920

abbrev persistable_with : CatchupInterval → Bucket → Bool
persistable_with day_interval row = true
persistable_with minute_interval row = is_krx_continuous_session_bucket row

abbrev pub is_persistable_catchup_row : CatchupRequest → Bucket → Bool
is_persistable_catchup_row request row = persistable_with request.interval_type row

-- What `upsertClosed` answers.
pub data UpsertAnswer : Type 0 where
  wrote skipped throws : UpsertAnswer

pub record Upserted : Type 0 where
  pub written : ℕ
  pub skipped_rows : ℕ
  pub is_complete : Bool

abbrev pub count_answer : UpsertAnswer → Upserted → Upserted
count_answer wrote u = record u { written = u.written + 1 }
count_answer skipped u = record u { skipped_rows = u.skipped_rows + 1 }
count_answer throws u = record { written = 0; skipped_rows = 0; is_complete = false }

-- The rows from a place on, with the answers by their places.
unfoldable pub upsert_rows : (ℕ → UpsertAnswer) → ℕ → List Bucket → Upserted
upsert_rows answers i [] = record { written = 0; skipped_rows = 0; is_complete = true }
upsert_rows answers i (row ∷ rows) = count_answer (answers i) (upsert_rows answers (suc i) rows)

abbrev pub single_target : CatchupRequest → List TargetRange
single_target request =
    record {
      from_date = coalesce request.target_from request.from_date;
      to_date = coalesce request.target_to request.to_date;
    }
    ∷ []

abbrev pub targets_or : List TargetRange → List TargetRange → List TargetRange
targets_or [] single = single
targets_or (t ∷ targets) single = t ∷ targets

abbrev pub targets_of : CatchupRequest → List TargetRange
targets_of request = targets_or request.target_ranges (single_target request)

abbrev starts_in : ℕ → ℕ → Bucket → Bool
starts_in from to none = false
starts_in from to (some start) = leb from start && ltb start to

abbrev pub has_rows_in : ℕ → ℕ → List Bucket → Bool
has_rows_in from to rows = exists (starts_in from to) rows

-- Whether a target is marked: its dates are in order and no row is in it.
abbrev pub is_empty_target : ℕ → ℕ → List Bucket → Bool
is_empty_target from to rows = ltb from to && not (has_rows_in from to rows)

abbrev pub record_target :
    EmptyReads
    → CatchupRequest
    → List Bucket
    → Option ℕ
    → Option ℕ
    → List EmptyRange
    → Option (List EmptyRange)
record_target reads request rows none to ranges = some ranges
record_target reads request rows (some from) none ranges = some ranges
record_target reads request rows (some from) (some to) ranges =
    if is_empty_target from to rows
    then record_empty_range reads request (some from) (some to) transient ranges
    else some ranges

abbrev pub and_then :
    Option (List EmptyRange)
    → (List EmptyRange → Option (List EmptyRange))
    → Option (List EmptyRange)
and_then none k = none
and_then (some ranges) k = k ranges

-- `recordEmptyTargets`; `none` is the error that it throws.
unfoldable pub record_targets :
    EmptyReads
    → CatchupRequest
    → List Bucket
    → List TargetRange
    → List EmptyRange
    → Option (List EmptyRange)
unfolding record_empty_range
record_targets reads request rows [] ranges = some ranges
record_targets reads request rows (t ∷ targets) ranges =
    and_then (record_target reads request rows t.from_date t.to_date ranges)
      (record_targets reads request rows targets)

pub record CatchupResult : Type 0 where
  pub candles_written : ℕ
  pub candles_skipped : ℕ
  pub has_error : Bool

abbrev catchup_result : Upserted → Bool → CatchupResult
catchup_result u has_error = record {
  candles_written = u.written;
  candles_skipped = u.skipped_rows;
  has_error = has_error;
}

abbrev finish_run :
    Upserted → Option (List EmptyRange) → List EmptyRange → CatchupResult × List EmptyRange
finish_run u none ranges = (catchup_result u true, ranges)
finish_run u (some after) ranges = (catchup_result u false, after)

-- `none` for the rows is an error of the vendor.
unfoldable pub run :
    EmptyReads
    → CatchupRequest
    → Option (List Bucket)
    → (ℕ → UpsertAnswer)
    → List EmptyRange
    → CatchupResult × List EmptyRange
unfolding filter_by upsert_rows record_targets
run reads request none answers ranges =
    (record { candles_written = 0; candles_skipped = 0; has_error = true }, ranges)
run reads request (some rows) answers ranges =
    let persistable = filter_by (is_persistable_catchup_row request) rows in
    let u = upsert_rows answers 0 persistable in
    if u.is_complete
    then finish_run u (record_targets reads request persistable (targets_of request) ranges) ranges
    else (catchup_result u true, ranges)
