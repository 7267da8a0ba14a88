-- ===== src/Archive/Writer/Marks.antt =====
-- The task with a key after the statements of chart-archive-task.repository.ts that a run makes.
use trading_worker.Base.{ℕ, ◌≡◌, ◌∙◌, refl, ap, arith, false, List, Option, some, none}
use mathlib.Core.Option
use trading_worker.Base.Text.{Text}
use trading_worker.Sql.{find_first, update_where, Returning, rows_only, rows_and_count}
use trading_worker.Sql.Rows.{find_first-update_where}
use trading_worker.Archive.Tasks.{
  TaskKey, Task, TaskTables, running, ready, failed, has_key, key_eq, run_or_skip, mark_running,
  updated_task, update_task, mark_ready, mark_failed, made_pending, mark_pending,
}

-- The task with a key, which is unique.
abbrev pub task_of : TaskKey → TaskTables → Option Task
task_of key d = find_first (has_key key) d.tasks

-- A task found is found after an update of it that keeps its key.
find_first-updated :
    (key : TaskKey) (f : Task → Task) (tasks : List Task) (t : Task)
    → ((u : Task) → (f u).key ≡ u.key)
    → find_first (has_key key) tasks ≡ some t
    → find_first (has_key key) (update_where (has_key key) f tasks) ≡ some (f t)
find_first-updated key f tasks t keeps e =
    find_first-update_where (has_key key) f (λ u. ap (λ k. key_eq k key) (keeps u)) tasks
    ∙ ap (Option.map f) e

key-run_or_skip : (max_attempts now : ℕ) (t : Task) → (run_or_skip max_attempts now t).key ≡ t.key
unfolding run_or_skip
key-run_or_skip max_attempts now t = ground arith

module _ (key : TaskKey) (t : Task) (d : TaskTables) (e : task_of key d ≡ some t) where
  pub task_of-mark_pending :
      (now : ℕ) (reason : Text)
      → task_of key (mark_pending now key reason d) ≡ some (made_pending now (some reason) t)
  unfolding mark_pending
  task_of-mark_pending now reason =
      find_first-updated key (made_pending now (some reason)) d.tasks t (λ u. refl) e

  pub task_of-mark_ready :
      (now : ℕ) → task_of key (mark_ready now key d) ≡ some (updated_task now ready none false t)
  unfolding mark_ready update_task updated_task
  task_of-mark_ready now =
      find_first-updated key (updated_task now ready none false) d.tasks t (λ u. refl) e

  pub task_of-mark_failed :
      (now : ℕ) (message : Text)
      → task_of key (mark_failed now key message d)
        ≡ some (updated_task now failed (some message) false t)
  unfolding mark_failed update_task updated_task
  task_of-mark_failed now message =
      find_first-updated key (updated_task now failed (some message) false) d.tasks t (λ u. refl) e

  pub task_of-mark_running :
      (given : Returning) (max_attempts now : ℕ)
      → task_of key ((mark_running given max_attempts now key d).1)
        ≡ some (run_or_skip max_attempts now t)
  unfolding mark_running
  task_of-mark_running given max_attempts now =
      find_first-updated key (run_or_skip max_attempts now) d.tasks t
        (key-run_or_skip max_attempts now) e

  -- The status that the writer sees: the row's, or RUNNING where `query` gives a pair.
  pub status-mark_running :
      (max_attempts now : ℕ)
      → (mark_running rows_only max_attempts now key d).0 ≡ (run_or_skip max_attempts now t).status
  unfolding mark_running
  status-mark_running max_attempts now = rw e

  pub status-mark_running_pair :
      (max_attempts now : ℕ) → (mark_running rows_and_count max_attempts now key d).0 ≡ running
  unfolding mark_running
  status-mark_running_pair max_attempts now = refl
