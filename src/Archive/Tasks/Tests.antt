-- ===== src/Archive/Tasks/Tests.antt =====
-- The archive's tasks through a few calls.
use trading_worker.Base.{ℕ, ◌≡◌, refl, List, [], ◌∷◌}
use trading_worker.Sql.{rows_only}
use trading_worker.Base.Text.{codes}
use trading_worker.Event.{MarketEnv}
use trading_worker.Archive.Tasks.{
  TaskKey, Task, TaskTables, TaskStatus, key_eq, pending, running, skipped, one_minute,
  reset_orphaned_running_tasks,
}
use trading_worker.Archive.Tasks.State.{TaskCall, create_call, run_call, task_calls}
use trading_worker.Archive.Tasks.Keys.{IsValid, task_calls-IsValid}

abbrev key : TaskKey
key = record {
  run_id = codes "r1";
  provider = codes "kiwoom";
  market_env = MarketEnv.mock;
  symbol = codes "005930";
  timeframe = one_minute;
  partition_key = codes "2026-05-04";
}

abbrev no_tasks : TaskTables
no_tasks = record { tasks = []; audits = [] }

-- A task that is created twice, run, left alone for an hour, and reset.
abbrev calls : List TaskCall
calls = create_call 0 (key ∷ key ∷ []) ∷ run_call 1000 key ∷ []

abbrev statuses : List Task → List (TaskStatus × ℕ)
statuses [] = []
statuses (t ∷ tasks) = (t.status, t.attempts) ∷ statuses tasks

runs_once : statuses ((task_calls 5 rows_only calls no_tasks).tasks) ≡ (running, 1) ∷ []
unfolding task_calls key_eq
runs_once = refl

waits_again :
    statuses (
      (reset_orphaned_running_tasks rows_only 30 3600000
        (task_calls 5 rows_only calls no_tasks)).1.tasks)
    ≡ (pending, 1) ∷ []
unfolding task_calls reset_orphaned_running_tasks key_eq
waits_again = refl

skipped_at_limit :
    statuses (
      (task_calls 1 rows_only
        (create_call 0 (key ∷ []) ∷ run_call 1 key ∷ run_call 2 key ∷ [])
        no_tasks).tasks)
    ≡ (skipped, 1) ∷ []
unfolding task_calls key_eq
skipped_at_limit = refl

task_calls-IsValid_example : IsValid 5 ((task_calls 5 rows_only calls no_tasks).tasks)
task_calls-IsValid_example =
    task_calls-IsValid rows_only 5 calls no_tasks (record { sound = tt; distinct = tt })
