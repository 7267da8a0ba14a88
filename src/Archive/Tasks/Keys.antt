-- ===== src/Archive/Tasks/Keys.antt =====
-- The keys of the archive's tasks, along every sequence of calls of chart-archive-task.repository.ts.
use trading_worker.Base.{
  ℕ, ◌≡◌, refl, ap, arith, Option, some, none, Bool, false, not, List, [], ◌∷◌, All, exists,
  Bool-cases, inl, inr, max,
}
use trading_worker.Sql.Distinct.{
  Distinct, Distinct-append, Distinct-filter_by, Distinct-update_where,
}
use trading_worker.Sql.{update_where, Returning}
use trading_worker.Base.Text.{Text}
use trading_worker.Archive.Tasks.{
  TaskKey, Task, TaskTables, has_key, key_eq, ready, failed, reset, new_task, insert_task,
  insert_tasks, run_or_skip, updated_task, made_pending, superseded, is_outdated, TaskStatus,
}
use trading_worker.Archive.Tasks.State.{
  IsSound, TaskCall, reset_call, create_call, run_call, ready_call, fail_call, wait_call,
  retry_call, supersede_call, cleanup_call, task_call, task_calls, task_calls-IsSound,
}

abbrev same_key : Task → Task → Bool
same_key a b = key_eq a.key b.key

updated :
    (p : Task → Bool) (f : Task → Task)
    → ((t : Task) → (f t).key ≡ t.key)
    → (tasks : List Task) → Distinct same_key tasks
    → Distinct same_key (update_where p f tasks)
updated p f keeps =
    Distinct-update_where same_key f (λ a b. ap (λ k. key_eq k b.key) (keeps a))
      (λ a b. ap (key_eq a.key) (keeps b)) p

insert_tasks-Distinct :
    (now : ℕ) (keys : List TaskKey) (tasks : List Task)
    → Distinct same_key tasks
    → Distinct same_key (insert_tasks now keys tasks)
unfolding insert_tasks insert_task
insert_tasks-Distinct now [] tasks d = d
insert_tasks-Distinct now (key ∷ keys) tasks d = elim (Bool-cases (exists (has_key key) tasks)) [
  | inl e ↦ rw e (insert_tasks-Distinct now keys tasks d)
  | inr e ↦
      rw e
        (insert_tasks-Distinct now keys _ (Distinct-append same_key tasks (new_task now key) d e))
]

key-run_or_skip : (max_attempts now : ℕ) (t : Task) → (run_or_skip max_attempts now t).key ≡ t.key
unfolding run_or_skip
key-run_or_skip max_attempts now t = ground arith

key-updated_task :
    (now : ℕ) (status : TaskStatus) (message : Option Text) (more : Bool) (t : Task)
    → (updated_task now status message more t).key ≡ t.key
unfolding updated_task
key-updated_task now status message more t = refl

task_call-Distinct :
    (given : Returning) (max_attempts : ℕ) (call : TaskCall) (d : TaskTables)
    → Distinct same_key d.tasks
    → Distinct same_key ((task_call max_attempts given call d).tasks)
unfolding task_call
task_call-Distinct given m (reset_call timeout now) d u =
    updated _ (reset now) (λ t. refl) d.tasks u
task_call-Distinct given m (create_call now keys) d u = insert_tasks-Distinct now keys d.tasks u
task_call-Distinct given m (run_call now key) d u =
    updated _ (run_or_skip m now) (key-run_or_skip m now) d.tasks u
task_call-Distinct given m (ready_call now key) d u =
    updated _ (updated_task now ready none false) (key-updated_task now ready none false) d.tasks u
task_call-Distinct given m (fail_call now key message) d u =
    updated _ (updated_task now failed (some message) false)
      (key-updated_task now failed (some message) false) d.tasks u
task_call-Distinct given m (wait_call now key reason) d u =
    updated _ (made_pending now (some reason)) (λ t. refl) d.tasks u
task_call-Distinct given m (retry_call now run_id actor) d u =
    updated _ (made_pending now none) (λ t. refl) d.tasks u
task_call-Distinct given m (supersede_call now provider env partition_key run_id) d u =
    updated _ (superseded now run_id) (λ t. refl) d.tasks u
task_call-Distinct given m (cleanup_call days now) d u =
    Distinct-filter_by same_key (λ t. not (is_outdated (max 7 days) now t)) d.tasks u

-- Sound tasks with keys of their own.
pub record IsValid (max_attempts : ℕ) (tasks : List Task) : Type 0 where
  pub sound : All (IsSound max_attempts) tasks
  pub distinct : Distinct same_key tasks

task_calls-Distinct :
    (given : Returning) (max_attempts : ℕ) (calls : List TaskCall) (d : TaskTables)
    → Distinct same_key d.tasks
    → Distinct same_key ((task_calls max_attempts given calls d).tasks)
unfolding task_calls
task_calls-Distinct given m [] d u = u
task_calls-Distinct given m (call ∷ calls) d u =
    task_calls-Distinct given m calls (task_call m given call d)
      (task_call-Distinct given m call d u)

-- Along every sequence of calls of the repository, whatever `query` gives for a RETURNING, from tables that are so at the start, such as empty ones:
-- no two tasks have one key; a task that waits has no start; one that runs has a start, an attempt at least
-- and no error; one that is READY has an end and no error; one that is FAILED or SKIPPED has an end; and no
-- task has more attempts than the limit.
pub task_calls-IsValid :
    (given : Returning) (max_attempts : ℕ) (calls : List TaskCall) (d : TaskTables)
    → IsValid max_attempts d.tasks
    → IsValid max_attempts ((task_calls max_attempts given calls d).tasks)
task_calls-IsValid given m calls d v = record {
  sound = task_calls-IsSound m given calls d v.sound;
  distinct = task_calls-Distinct given m calls d v.distinct;
}
