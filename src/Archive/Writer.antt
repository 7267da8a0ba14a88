-- ===== src/Archive/Writer.antt =====
-- roles/collector/chart-archive/chart-archive-writer.service.ts: which stocks a run takes, what it does with
-- each of them, and what it writes for one. The broker's candles, the rows in the object store and whether a
-- call of these throws are parameters; the manifest that goes with the rows is left out, and so is the lock on
-- a partition, under which its rows are read and written as one step.
pub mod Marks
pub mod Closing
mod Tests
use trading_worker.Base.{
  ℕ, zero, suc, ◌+◌, ◌-◌, ◌*◌, ◌/◌, ◌%◌, ◌^◌, Bool, true, false, not, ◌&&◌, ◌||◌, List, [], ◌∷◌,
  ◌++◌, Option, some, none, ltb, leb, ◌==◌, if◌then◌else◌, length, take, filter_by, sort_by, map,
}
use trading_worker.Base.Text.{Text}
use trading_worker.Base.TextSet.{has_text}
use trading_worker.Sql.{Returning}
use trading_worker.Archive.Tasks.{
  TaskKey, TaskTables, TaskStatus, skipped, mark_running, mark_ready, mark_failed, mark_pending,
}
use trading_worker.Archive.Rows.{ArchivedCandleRow, merge_rows}

-- `(hash * 31 + c) | 0`, as the pattern of 32 bits.
unfoldable pub hash_loop : ℕ → Text → ℕ
hash_loop hash [] = hash
hash_loop hash (c ∷ value) = hash_loop ((hash * 31 + c) % 2 ^ 32) value

-- The absolute value of the signed integer that the pattern stands for.
unfoldable pub positive_hash : Text → ℕ
unfolding hash_loop
positive_hash value =
    let hash = hash_loop 0 value in if ltb hash (2 ^ 31) then hash else 2 ^ 32 - hash

pub record SymbolShard : Type 0 where
  pub index : ℕ
  pub total : ℕ

abbrev pub in_shard : Option SymbolShard → Text → Bool
in_shard none symbol = true
in_shard (some shard) symbol =
    not (ltb 0 shard.total) || (positive_hash symbol % shard.total == shard.index)

-- An empty list of symbols is no filter, and a budget of 0 is no budget.
abbrev is_chosen : List Text → Text → Bool
is_chosen [] symbol = true
is_chosen (s ∷ symbols) symbol = has_text (s ∷ symbols) symbol

abbrev within_budget : Option ℕ → List Text → List Text
within_budget none universe = universe
within_budget (some zero) universe = universe
within_budget (some (suc n)) universe = take (suc n) universe

-- The stocks that a run takes of all listed ones.
unfoldable pub universe_of : List Text → Option SymbolShard → Option ℕ → List Text → List Text
unfolding filter_by positive_hash
universe_of symbols shard budget all_universe =
    within_budget budget (filter_by (in_shard shard) (filter_by (is_chosen symbols) all_universe))

abbrev kst_minute_of_day : ℕ → ℕ
kst_minute_of_day now = (now + 32400000) / 60000 % 1440

-- The window may go over midnight; a window that ends where it starts is the whole day.
unfoldable pub is_inside_kst_archive_window : ℕ → ℕ → ℕ → Bool
is_inside_kst_archive_window now start end_minute =
    let minutes = kst_minute_of_day now in
    if start == end_minute
    then true
    else if ltb start end_minute
    then leb start minutes && ltb minutes end_minute
    else leb start minutes || ltb minutes end_minute

pub data PartitionStatus : Type 0 where
  ready partial : PartitionStatus

-- `merged.length >= expected ? 'READY' : 'PARTIAL'`
abbrev pub partition_status : ℕ → List ArchivedCandleRow → PartitionStatus
partition_status expected merged = if leb expected (length merged) then ready else partial

-- What is written for a symbol and a trade date: the rows, their status, and whether hourly and daily rows are
-- derived from them.
pub record Written : Type 0 where
  pub rows : List ArchivedCandleRow
  pub status : PartitionStatus
  pub is_derived : Bool

abbrev is_ready : PartitionStatus → Bool
is_ready ready = true
is_ready partial = false

-- `archiveSymbol`, from the rows in the store and those fetched.
unfoldable pub archive_symbol : Bool → ℕ → List ArchivedCandleRow → List ArchivedCandleRow → Written
unfolding merge_rows
archive_symbol write_derived expected existing fetched =
    let merged = merge_rows existing fetched in
    let status = partition_status expected merged in
    record { rows = merged; status = status; is_derived = write_derived && is_ready status }

-- `archiveBackfillCandles`: nothing is written for no rows, nor, where the caller wants full partitions only,
-- for a partition that is not full.
unfoldable pub archive_backfill_candles :
    Bool → ℕ → List ArchivedCandleRow → List ArchivedCandleRow → Option Written
unfolding archive_symbol
archive_backfill_candles require_ready expected existing [] = none
archive_backfill_candles require_ready expected existing (r ∷ rows) =
    let written = archive_symbol true expected existing (r ∷ rows) in
    if require_ready && not (is_ready written.status) then none else some written

-- What the world answers while a stock is archived: whether the window is open, whether the partition is ready
-- already, and whether the archive succeeds or throws a message, as `isReadyPartition` may, too.
pub data ArchiveAnswer : Type 0 where
  archived : ArchiveAnswer
  archive_threw : Text → ArchiveAnswer

pub record StockAnswers : Type 0 where
  pub is_inside_window : Bool
  pub is_ready_partition : Bool
  pub answer : ArchiveAnswer

pub record ArchiveOptions : Type 0 where
  pub enforce_window_per_symbol : Bool
  pub skip_if_ready : Bool
  pub task_max_attempts : ℕ
  pub window_closed : Text

abbrev pub is_skipped : TaskStatus → Bool
is_skipped skipped = true
is_skipped _ = false

abbrev pub finish : ℕ → TaskKey → ArchiveAnswer → TaskTables → TaskTables
finish now key archived d = mark_ready now key d
finish now key (archive_threw message) d = mark_failed now key message d

unfoldable pub run_stock :
    Returning → ArchiveOptions → ℕ → ℕ → TaskKey → StockAnswers → TaskTables → TaskTables
unfolding mark_running mark_ready mark_failed
run_stock given o now later key a d =
    let started = mark_running given o.task_max_attempts now key d in
    if is_skipped started.0
    then started.1
    else if o.skip_if_ready && a.is_ready_partition
    then mark_ready later key started.1
    else finish later key a.answer started.1

-- One stock of `archiveTradeDate`, at the start and at the end of its archive.
unfoldable pub archive_stock :
    Returning → ArchiveOptions → ℕ → ℕ → TaskKey → StockAnswers → TaskTables → TaskTables
unfolding run_stock mark_pending
archive_stock given o now later key a d =
    if o.enforce_window_per_symbol && not a.is_inside_window
    then mark_pending now key o.window_closed d
    else run_stock given o now later key a d
