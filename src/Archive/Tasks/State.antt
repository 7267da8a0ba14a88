-- ===== src/Archive/Tasks/State.antt =====
-- The states of the archive's tasks, along every sequence of calls of chart-archive-task.repository.ts.
use trading_worker.Base.{
  ℕ, ◌-◌, ◌*◌, ◌≤◌, ◌≡◌, refl, arith, Bool, false, not, List, [], ◌∷◌, some, none, leb, exists, All,
  Bool-cases, Option-cases, ◌&&◌, inl, inr, max,
}
use trading_worker.Base.Text.{Text}
use trading_worker.Event.{MarketEnv}
use trading_worker.Sql.{is_null, update_where, Returning}
use trading_worker.Sql.Rows.{All-update_where, All-append, All-filter_by}
use trading_worker.Archive.Tasks.{
  TaskStatus, pending, running, ready, failed, skipped, TaskKey, Task, TaskTables, has_key,
  minute_ms, is_running, is_before, is_orphaned, reset, reset_orphaned_running_tasks, new_task,
  insert_task, insert_tasks, create_pending_tasks, run_or_skip, mark_running, updated_task,
  mark_ready, mark_failed, made_pending, mark_pending, is_retried, retry_failed_run, is_superseded,
  superseded, mark_superseded_stranded, is_outdated, cleanup_terminal_tasks,
}

-- What a task under a status shows: a task that waits has no start; one that runs has a start, an attempt
-- and no error; one that is over has an end.
abbrev pub Fits : TaskStatus → Task → Type 0
Fits pending t = t.started_at ≡ none
Fits running t = (is_null t.started_at ≡ false) × (1 ≤ t.attempts) × (t.error_message ≡ none)
Fits ready t = (is_null t.finished_at ≡ false) × (t.error_message ≡ none)
Fits failed t = is_null t.finished_at ≡ false
Fits skipped t = is_null t.finished_at ≡ false

-- The calls of the repository, with their instants. Every `markRunning` is given the same limit.
pub data TaskCall : Type 0 where
  reset_call : ℕ → ℕ → TaskCall
  create_call : ℕ → List TaskKey → TaskCall
  run_call : ℕ → TaskKey → TaskCall
  ready_call : ℕ → TaskKey → TaskCall
  fail_call : ℕ → TaskKey → Text → TaskCall
  wait_call : ℕ → TaskKey → Text → TaskCall
  retry_call : ℕ → Text → Text → TaskCall
  supersede_call : ℕ → Text → MarketEnv → Text → Text → TaskCall
  cleanup_call : ℕ → ℕ → TaskCall

-- A task that runs was started at the instant or later.
abbrev pub StartedSince : ℕ → TaskStatus → Task → Type 0
StartedSince instant running t = (s : ℕ) × (t.started_at ≡ some s) × (instant ≤ s)
StartedSince instant _ t = Unit

abbrev pub IsRecent : ℕ → Task → Type 0
IsRecent instant t = StartedSince instant t.status t

StartedSince-of_Fits :
    (instant : ℕ) (status : TaskStatus) (t : Task)
    → is_running status && is_before t.started_at instant ≡ false
    → Fits status t
    → StartedSince instant status t
StartedSince-of_Fits instant running t miss h = elim (Option-cases t.started_at) [
  | inl e ↦ absurd (cc)
  | inr (s, e) ↦ (s, e, ground arith)
]
StartedSince-of_Fits instant pending t miss h = tt
StartedSince-of_Fits instant ready t miss h = tt
StartedSince-of_Fits instant failed t miss h = tt
StartedSince-of_Fits instant skipped t miss h = tt

module _ (max_attempts : ℕ) where
  abbrev pub IsSound : Task → Type 0
  IsSound t = Fits t.status t × (t.attempts ≤ max_attempts)

  unfoldable pub task_call : Returning → TaskCall → TaskTables → TaskTables
  unfolding reset_orphaned_running_tasks create_pending_tasks mark_running mark_ready mark_failed
      mark_pending retry_failed_run mark_superseded_stranded cleanup_terminal_tasks
  task_call given (reset_call timeout now) d = (reset_orphaned_running_tasks given timeout now d).1
  task_call given (create_call now keys) d = create_pending_tasks now keys d
  task_call given (run_call now key) d = (mark_running given max_attempts now key d).1
  task_call given (ready_call now key) d = mark_ready now key d
  task_call given (fail_call now key message) d = mark_failed now key message d
  task_call given (wait_call now key reason) d = mark_pending now key reason d
  task_call given (retry_call now run_id actor) d = (retry_failed_run given now run_id actor d).1
  task_call given (supersede_call now provider env partition_key run_id) d =
      (mark_superseded_stranded given now provider env partition_key run_id d).1
  task_call given (cleanup_call days now) d = (cleanup_terminal_tasks given days now d).1

  unfoldable pub task_calls : Returning → List TaskCall → TaskTables → TaskTables
  unfolding task_call
  task_calls given [] d = d
  task_calls given (call ∷ calls) d = task_calls given calls (task_call given call d)

  run_or_skip-IsSound : (now : ℕ) (t : Task) → IsSound t → IsSound (run_or_skip max_attempts now t)
  unfolding run_or_skip
  run_or_skip-IsSound now t s = elim (Bool-cases (leb max_attempts t.attempts)) [
    | inl e ↦ rw e (refl, s.1)
    | inr e ↦ rw e ((refl, omega arith, refl), ground arith)
  ]

  ready-IsSound : (now : ℕ) (t : Task) → IsSound t → IsSound (updated_task now ready none false t)
  unfolding updated_task
  ready-IsSound now t s = ((refl, refl), omega arith)

  failed-IsSound :
      (now : ℕ) (message : Text) (t : Task)
      → IsSound t
      → IsSound (updated_task now failed (some message) false t)
  unfolding updated_task
  failed-IsSound now message t s = (refl, omega arith)

  -- An update of one kind keeps all tasks sound.
  updated :
      (p : Task → Bool) (f : Task → Task)
      → ((t : Task) → IsSound t → IsSound (f t))
      → (tasks : List Task) → All IsSound tasks
      → All IsSound (update_where p f tasks)
  updated p f k = All-update_where IsSound IsSound p f (λ t _ s. k t s) (λ t _ s. s)

  insert_tasks-IsSound :
      (now : ℕ) (keys : List TaskKey) (tasks : List Task)
      → All IsSound tasks
      → All IsSound (insert_tasks now keys tasks)
  unfolding insert_tasks insert_task
  insert_tasks-IsSound now [] tasks s = s
  insert_tasks-IsSound now (key ∷ keys) tasks s = elim (Bool-cases (exists (has_key key) tasks)) [
    | inl e ↦ rw e (insert_tasks-IsSound now keys tasks s)
    | inr e ↦ rw e (
        insert_tasks-IsSound now keys _
          (All-append IsSound tasks (new_task now key) s (refl, omega arith)))
  ]

  task_call-IsSound :
      (given : Returning) (call : TaskCall) (d : TaskTables)
      → All IsSound d.tasks
      → All IsSound ((task_call given call d).tasks)
  unfolding task_call
  task_call-IsSound given (reset_call timeout now) d s =
      updated (is_orphaned timeout now) (reset now) (λ t h. (refl, h.1)) d.tasks s
  task_call-IsSound given (create_call now keys) d s = insert_tasks-IsSound now keys d.tasks s
  task_call-IsSound given (run_call now key) d s =
      updated (has_key key) (run_or_skip max_attempts now) (run_or_skip-IsSound now) d.tasks s
  task_call-IsSound given (ready_call now key) d s =
      updated (has_key key) (updated_task now ready none false) (ready-IsSound now) d.tasks s
  task_call-IsSound given (fail_call now key message) d s =
      updated (has_key key) (updated_task now failed (some message) false)
        (failed-IsSound now message) d.tasks s
  task_call-IsSound given (wait_call now key reason) d s =
      updated (has_key key) (made_pending now (some reason)) (λ t h. (refl, omega arith)) d.tasks s
  task_call-IsSound given (retry_call now run_id actor) d s =
      updated (is_retried run_id) (made_pending now none) (λ t h. (refl, omega arith)) d.tasks s
  task_call-IsSound given (supersede_call now provider env partition_key run_id) d s =
      updated (is_superseded provider env partition_key run_id) (superseded now run_id)
        (λ t h. (refl, h.1)) d.tasks s
  task_call-IsSound given (cleanup_call days now) d s =
      All-filter_by IsSound IsSound (λ t. not (is_outdated (max 7 days) now t)) (λ t _ h. h) d.tasks
        s

  -- Along every sequence of calls of the repository, from tables that are sound such as empty ones: a task that
  -- waits has no start; one that runs has a start, an attempt at least and no error; one that is READY has an
  -- end and no error; one that is FAILED or SKIPPED has an end; and no task has more attempts than the limit.
  pub task_calls-IsSound :
      (given : Returning) (calls : List TaskCall) (d : TaskTables)
      → All IsSound d.tasks
      → All IsSound ((task_calls given calls d).tasks)
  unfolding task_calls
  task_calls-IsSound given [] d s = s
  task_calls-IsSound given (call ∷ calls) d s =
      task_calls-IsSound given calls (task_call given call d) (task_call-IsSound given call d s)

  -- Whatever has been called before: after a reset no task has been RUNNING since before the timeout, so one
  -- whose worker is gone is taken up again.
  pub reset_orphaned-IsRecent :
      (given : Returning) (calls : List TaskCall) (d : TaskTables) (timeout now : ℕ)
      → All IsSound d.tasks
      → All
          (IsRecent (now - timeout * minute_ms))
          ((reset_orphaned_running_tasks given timeout now (task_calls given calls d)).1.tasks)
  unfolding reset_orphaned_running_tasks
  reset_orphaned-IsRecent given calls d timeout now s =
      All-update_where IsSound (IsRecent (now - timeout * minute_ms)) (is_orphaned timeout now)
        (reset now) (λ t _ _. tt)
        (λ t miss h. StartedSince-of_Fits (now - timeout * minute_ms) t.status t miss h.0)
        (task_calls given calls d).tasks (task_calls-IsSound given calls d s)
