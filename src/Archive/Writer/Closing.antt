-- ===== src/Archive/Writer/Closing.antt =====
-- The task of a stock after `archiveTradeDate` has gone over the stock.
use trading_worker.Base.{
  ◌⊎◌, Bool, ℕ, ◌+◌, ◌≤◌, ◌<◌, ◌≡◌, ◌∙◌, refl, arith, true, false, not, ◌&&◌, Option, some, none,
  leb, Bool-cases, inl, inr,
}
use trading_worker.Base.Text.{Text}
use trading_worker.Sql.{Returning, rows_only, rows_and_count}
use trading_worker.Archive.Tasks.{
  TaskStatus, TaskKey, Task, TaskTables, pending, running, ready, failed, skipped, run_or_skip,
  mark_running, updated_task, mark_ready, made_pending,
}
use trading_worker.Archive.Writer.Marks.{
  task_of, task_of-mark_pending, task_of-mark_ready, task_of-mark_failed, task_of-mark_running,
  status-mark_running, status-mark_running_pair,
}
use trading_worker.Archive.Writer.{
  ArchiveOptions, StockAnswers, ArchiveAnswer, archived, archive_threw, finish, run_stock,
  archive_stock,
}

-- An attempt that was made: below the most attempts, and counted; or with the attempts used up, and not counted,
-- where `query` gives a pair, in which the code does not see the status SKIPPED.
abbrev pub WasMade : Returning → ArchiveOptions → Task → Task → Type 0
WasMade given o t u =
    ((t.attempts < o.task_max_attempts) × (u.attempts ≡ t.attempts + 1))
    ⊎ ((given ≡ rows_and_count) × (o.task_max_attempts ≤ t.attempts) × (u.attempts ≡ t.attempts))

-- The window is not asked for, or not closed.
abbrev pub IsOpen : ArchiveOptions → StockAnswers → Type 0
IsOpen o a = (o.enforce_window_per_symbol ≡ false) ⊎ (a.is_inside_window ≡ true)

-- The archive is run: the partition is not ready, or that does not count.
abbrev pub IsAsked : ArchiveOptions → StockAnswers → Type 0
IsAsked o a = (o.skip_if_ready ≡ false) ⊎ (a.is_ready_partition ≡ false)

-- A task after its stock, and why: the window is closed, the attempts are used up, or an attempt was made,
-- for which the partition was ready, or the archive has succeeded or thrown.
pub data IsClosed (given : Returning) (o : ArchiveOptions) (a : StockAnswers) (t u : Task)
    : Type 0 where
  window_is_closed :
      o.enforce_window_per_symbol ≡ true
      → a.is_inside_window ≡ false
      → u.status ≡ pending
      → u.attempts ≡ 0
      → IsClosed given o a t u
  used_up :
      IsOpen o a
      → given ≡ rows_only
      → o.task_max_attempts ≤ t.attempts
      → u.status ≡ skipped
      → u.attempts ≡ t.attempts
      → IsClosed given o a t u
  was_ready :
      IsOpen o a
      → WasMade given o t u
      → o.skip_if_ready ≡ true
      → a.is_ready_partition ≡ true
      → u.status ≡ ready
      → IsClosed given o a t u
  was_archived :
      IsOpen o a
      → WasMade given o t u
      → IsAsked o a
      → a.answer ≡ archived
      → u.status ≡ ready
      → IsClosed given o a t u
  has_thrown :
      (message : Text)
      → IsOpen o a
      → WasMade given o t u
      → IsAsked o a
      → a.answer ≡ archive_threw message
      → u.status ≡ failed
      → u.error_message ≡ some message
      → IsClosed given o a t u

module _ (o : ArchiveOptions) (a : StockAnswers) (now later : ℕ) (key : TaskKey) (t : Task)
    (given : Returning) where
  abbrev pub Closed : TaskTables → Type 0
  Closed d = (u : Task) × (task_of key d ≡ some u) × IsClosed given o a t u

not_both : (b c : Bool) → b && c ≡ false → (b ≡ false) ⊎ (c ≡ false)
not_both b c h = ground arith

open_if_not : (b c : Bool) → b && not c ≡ false → (b ≡ false) ⊎ (c ≡ true)
open_if_not b c h = ground arith

module _ (o : ArchiveOptions) (a : StockAnswers) (opened : IsOpen o a) (now later : ℕ)
    (key : TaskKey) (t : Task) (given : Returning) where
  abbrev begun : Task
  begun = run_or_skip o.task_max_attempts now t

  updated-WasMade :
      (status : TaskStatus) (message : Option Text)
      → WasMade given o t begun
      → WasMade given o t (updated_task later status message false begun)
  unfolding updated_task
  updated-WasMade status message (inl (left, counted)) = inl (left, omega arith)
  updated-WasMade status message (inr (pair, used, same)) = inr (pair, used, omega arith)

  finish-Closed :
      (answer : ArchiveAnswer) (d : TaskTables)
      → a.answer ≡ answer
      → IsAsked o a
      → WasMade given o t begun
      → task_of key d ≡ some begun
      → Closed o a now later key t given (finish later key answer d)
  unfolding updated_task
  finish-Closed archived d same asked made e = (
    updated_task later ready none false begun,
    task_of-mark_ready key begun d e later,
    was_archived opened (updated-WasMade ready none made) asked same refl,
  )
  finish-Closed (archive_threw message) d same asked made e = (
    updated_task later failed (some message) false begun,
    task_of-mark_failed key begun d e later message,
    has_thrown message opened (updated-WasMade failed (some message) made) asked same refl refl,
  )

  ready-Closed :
      (d : TaskTables)
      → o.skip_if_ready ≡ true
      → a.is_ready_partition ≡ true
      → WasMade given o t begun
      → task_of key d ≡ some begun
      → Closed o a now later key t given (mark_ready later key d)
  unfolding updated_task
  ready-Closed d skips is_ready made e = (
    updated_task later ready none false begun,
    task_of-mark_ready key begun d e later,
    was_ready opened (updated-WasMade ready none made) skips is_ready refl,
  )

  attempted-Closed :
      (d : TaskTables)
      → task_of key d ≡ some t
      → WasMade given o t begun
      → (mark_running given o.task_max_attempts now key d).0 ≡ running
      → Closed o a now later key t given (run_stock given o now later key a d)
  unfolding run_stock
  attempted-Closed d e made runs =
      let d' = (mark_running given o.task_max_attempts now key d).1 in
      let there = task_of-mark_running key t d e given o.task_max_attempts now in
      rw runs (elim (Bool-cases (o.skip_if_ready && a.is_ready_partition)) [
        | inl f ↦ rw f (ready-Closed d' (ground arith) (ground arith) made there)
        | inr f ↦ rw f (
            finish-Closed a.answer d' refl (not_both o.skip_if_ready a.is_ready_partition f) made
              there)
      ])

  skipped-Closed :
      (d : TaskTables)
      → task_of key d ≡ some t
      → given ≡ rows_only
      → o.task_max_attempts ≤ t.attempts
      → begun.status ≡ skipped
      → begun.attempts ≡ t.attempts
      → (mark_running given o.task_max_attempts now key d).0 ≡ skipped
      → Closed o a now later key t given (run_stock given o now later key a d)
  unfolding run_stock
  skipped-Closed d e rows used skips same seen = rw seen (
    begun,
    task_of-mark_running key t d e given o.task_max_attempts now,
    used_up opened rows used skips same,
  )

module _ (o : ArchiveOptions) (a : StockAnswers) (opened : IsOpen o a) (now later : ℕ)
    (key : TaskKey) (t : Task) where
  run_stock-Closed :
      (given : Returning) (d : TaskTables)
      → task_of key d ≡ some t
      → Closed o a now later key t given (run_stock given o now later key a d)
  unfolding run_or_skip
  run_stock-Closed rows_only d e = elim (Bool-cases (leb o.task_max_attempts t.attempts)) [
    | inl f ↦
        skipped-Closed o a opened now later key t rows_only d e refl (ground arith) (rw f) (rw f)
          (status-mark_running key t d e o.task_max_attempts now ∙ rw f)
    | inr f ↦
        attempted-Closed o a opened now later key t rows_only d e (inl (ground arith, rw f))
          (status-mark_running key t d e o.task_max_attempts now ∙ rw f)
  ]
  run_stock-Closed rows_and_count d e = elim (Bool-cases (leb o.task_max_attempts t.attempts)) [
    | inl f ↦
        attempted-Closed o a opened now later key t rows_and_count d e
          (inr (refl, ground arith, rw f))
          (status-mark_running_pair key t d e o.task_max_attempts now)
    | inr f ↦
        attempted-Closed o a opened now later key t rows_and_count d e (inl (ground arith, rw f))
          (status-mark_running_pair key t d e o.task_max_attempts now)
  ]

module _ (o : ArchiveOptions) (a : StockAnswers) (now later : ℕ) (key : TaskKey) (t : Task) where
  -- A stock's task is never left RUNNING, whether `query` gives the rows of an UPDATE … RETURNING or a pair of
  -- the rows and their number. After the stock the task is PENDING with its attempts at 0, only where the window
  -- is enforced and closed; and otherwise SKIPPED, only where its attempts were used up and `query` gives the
  -- rows; or after an attempt READY, where the partition was ready and is to be skipped if so, or the archive
  -- was run and has succeeded, and FAILED with the message where the archive has thrown. The attempt is counted
  -- once; but a task with its attempts used up is tried again, uncounted, where `query` gives the pair, and only
  -- there.
  pub archive_stock-IsClosed :
      (given : Returning) (d : TaskTables)
      → task_of key d ≡ some t
      → Closed o a now later key t given (archive_stock given o now later key a d)
  unfolding archive_stock
  archive_stock-IsClosed given d e =
      elim (Bool-cases (o.enforce_window_per_symbol && not a.is_inside_window)) [
        | inl f ↦ rw f (
          made_pending now (some o.window_closed) t,
          task_of-mark_pending key t d e now o.window_closed,
          window_is_closed (ground arith) (ground arith) refl refl,
        )
        | inr f ↦ rw f (
            run_stock-Closed o a (open_if_not o.enforce_window_per_symbol a.is_inside_window f) now
              later key t given d e)
      ]
