-- ===== src/Archive/Writer/Tests.antt =====
-- The writer at a few stocks.
use trading_worker.Base.{◌≡◌, refl, List, true, false, [], ◌∷◌, some, none}
use trading_worker.Base.Text.{codes}
use trading_worker.Event.{MarketEnv}
use trading_worker.Sql.{find_first, rows_only, rows_and_count}
use trading_worker.Archive.Tasks.{
  TaskStatus, skipped, ready, TaskKey, Task, TaskTables, one_minute, new_task, key_eq,
}
use trading_worker.Archive.Writer.{
  ArchiveOptions, StockAnswers, archived, archive_threw, archive_stock, positive_hash, universe_of,
  is_inside_kst_archive_window,
}
use trading_worker.Archive.Writer.Closing.{IsClosed, archive_stock-IsClosed}
use trading_worker.Archive.Writer.Marks.{task_of}

abbrev key : TaskKey
key = record {
  run_id = codes "r1";
  provider = codes "kiwoom";
  market_env = MarketEnv.mock;
  symbol = codes "005930";
  timeframe = one_minute;
  partition_key = codes "2026-05-04";
}

abbrev tables : TaskTables
tables = record { tasks = new_task 0 key ∷ []; audits = [] }

abbrev options : ArchiveOptions
options = record {
  enforce_window_per_symbol = true;
  skip_if_ready = false;
  task_max_attempts = 5;
  window_closed = codes "closed";
}

abbrev answers : StockAnswers
answers = record {
  is_inside_window = true;
  is_ready_partition = false;
  answer = archive_threw (codes "timeout");
}

task_is_there : task_of key tables ≡ some (new_task 0 key)
unfolding find_first key_eq
task_is_there = refl

archive_stock-IsClosed_example :
    (u : Task) × (task_of key (archive_stock rows_and_count options 1 2 key answers tables)
      ≡ some u)
    × IsClosed rows_and_count options answers (new_task 0 key) u
archive_stock-IsClosed_example =
    archive_stock-IsClosed options answers 1 2 key (new_task 0 key) rows_and_count tables
      task_is_there

-- A task with its five attempts used up, and an archive that would succeed.
abbrev used_up_tables : TaskTables
used_up_tables = record { tasks = record (new_task 0 key) { attempts = 5 } ∷ []; audits = [] }

abbrev succeeding : StockAnswers
succeeding = record answers { answer = archived }

abbrev statuses : List Task → List TaskStatus
statuses [] = []
statuses (t ∷ tasks) = t.status ∷ statuses tasks

skipped_if_rows :
    statuses ((archive_stock rows_only options 1 2 key succeeding used_up_tables).tasks)
    ≡ skipped ∷ []
unfolding archive_stock key_eq
skipped_if_rows = refl

tried_again_if_pair :
    statuses ((archive_stock rows_and_count options 1 2 key succeeding used_up_tables).tasks)
    ≡ ready ∷ []
unfolding archive_stock key_eq
tried_again_if_pair = refl

-- The hash of "005930" in JavaScript.
hash_005930 : positive_hash (codes "005930") ≡ 1420163585
unfolding positive_hash
hash_005930 = refl

shard_of_two :
    universe_of []
      (some (record { index = 1; total = 2 }))
      none
      (codes "005930" ∷ codes "000660" ∷ [])
    ≡ codes "005930" ∷ []
unfolding universe_of
shard_of_two = refl

-- 18:00 in Korea is in a window from 16:30 to 02:00, and 12:00 is not.
evening : is_inside_kst_archive_window 32400000 990 120 ≡ true
unfolding is_inside_kst_archive_window
evening = refl

noon : is_inside_kst_archive_window 10800000 990 120 ≡ false
unfolding is_inside_kst_archive_window
noon = refl
