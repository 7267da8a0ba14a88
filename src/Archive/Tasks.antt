-- ===== src/Archive/Tasks.antt =====
-- roles/collector/chart-archive/chart-archive-task.repository.ts with its tables (schema/chart-archive.sql).
-- Each method is one statement, or one statement and its audit; `now` is the database's clock. Without a
-- database every method returns its empty value at once.
pub mod State
pub mod Keys
mod Tests
use trading_worker.Base.{
  ℕ, zero, suc, ◌+◌, ◌-◌, ◌*◌, ◌<◌, max, Bool, true, false, not, ◌&&◌, ◌||◌, List, [], ◌∷◌, ◌++◌,
  Option, some, none, ltb, leb, ◌==◌, if◌then◌else◌, length, map, take, exists, sort_by, filter_by,
  reverse,
}
use mathlib.Core.Option
use trading_worker.Base.Text.{Text, codes, text_eq}
use trading_worker.Event.{MarketEnv}
use trading_worker.Sql.{update_where, find_first, Returning, returned_length, returned_first}
use trading_worker.Base.TextSet.{text_leb, unique}

pub data TaskStatus : Type 0 where
  pending running ready failed skipped : TaskStatus

pub data Timeframe : Type 0 where
  one_minute one_hour one_day : Timeframe

-- The columns of the unique constraint.
pub record TaskKey : Type 0 where
  pub run_id : Text
  pub provider : Text
  pub market_env : MarketEnv
  pub symbol : Text
  pub timeframe : Timeframe
  pub partition_key : Text

pub record Task : Type 0 where
  pub key : TaskKey
  pub status : TaskStatus
  pub attempts : ℕ
  pub started_at : Option ℕ
  pub finished_at : Option ℕ
  pub error_message : Option Text
  pub created_at : ℕ
  pub updated_at : ℕ

pub data AuditAction : Type 0 where
  retry_failed supersede_stranded cleanup : AuditAction

pub record Audit : Type 0 where
  pub run_id : Option Text
  pub action : AuditAction
  pub actor : Text
  pub new_status : Option TaskStatus
  pub count : ℕ

pub record TaskTables : Type 0 where
  pub tasks : List Task
  pub audits : List Audit

abbrev env_code : MarketEnv → ℕ
env_code MarketEnv.mock = 0
env_code MarketEnv.production = 1

abbrev pub env_eq : MarketEnv → MarketEnv → Bool
env_eq a b = env_code a == env_code b

abbrev timeframe_code : Timeframe → ℕ
timeframe_code one_minute = 0
timeframe_code one_hour = 1
timeframe_code one_day = 2

abbrev pub timeframe_eq : Timeframe → Timeframe → Bool
timeframe_eq a b = timeframe_code a == timeframe_code b

unfoldable pub key_eq : TaskKey → TaskKey → Bool
key_eq a b =
    text_eq a.run_id b.run_id
    && text_eq a.provider b.provider
    && env_eq a.market_env b.market_env
    && text_eq a.symbol b.symbol
    && timeframe_eq a.timeframe b.timeframe
    && text_eq a.partition_key b.partition_key

abbrev pub has_key : TaskKey → Task → Bool
has_key key t = key_eq t.key key

abbrev pub is_running : TaskStatus → Bool
is_running running = true
is_running _ = false

-- `status IN ('PENDING', 'FAILED')`
abbrev pub is_open : TaskStatus → Bool
is_open pending = true
is_open failed = true
is_open _ = false

-- `status IN ('FAILED', 'SKIPPED')`
abbrev pub is_given_up : TaskStatus → Bool
is_given_up failed = true
is_given_up skipped = true
is_given_up _ = false

-- `status IN ('READY', 'FAILED', 'SKIPPED')`
abbrev pub is_over : TaskStatus → Bool
is_over ready = true
is_over failed = true
is_over skipped = true
is_over _ = false

-- A null is before nothing.
abbrev pub is_before : Option ℕ → ℕ → Bool
is_before none instant = false
is_before (some t) instant = ltb t instant

abbrev pub minute_ms : ℕ
minute_ms = 60000

abbrev pub day_ms : ℕ
day_ms = 86400000

abbrev count_where : (Task → Bool) → List Task → ℕ
count_where p tasks = length (filter_by p tasks)

abbrev pub is_orphaned : ℕ → ℕ → Task → Bool
is_orphaned timeout_minutes now t =
    is_running t.status && is_before t.started_at (now - timeout_minutes * minute_ms)

abbrev pub reset : ℕ → Task → Task
reset now t = record t { status = pending; started_at = none; updated_at = now }

unfoldable pub reset_orphaned_running_tasks : Returning → ℕ → ℕ → TaskTables → ℕ × TaskTables
unfolding update_where filter_by
reset_orphaned_running_tasks given timeout_minutes now d = (
  returned_length given (count_where (is_orphaned timeout_minutes now) d.tasks),
  record d { tasks = update_where (is_orphaned timeout_minutes now) (reset now) d.tasks },
)

-- `provider = $1 AND market_env = $2 AND timeframe = '1m' AND … AND status IN ('PENDING', 'FAILED')`
abbrev is_open_minute : Text → MarketEnv → Task → Bool
is_open_minute provider env t =
    text_eq t.key.provider provider
    && env_eq t.key.market_env env
    && timeframe_eq t.key.timeframe one_minute
    && is_open t.status

-- `SELECT DISTINCT … ORDER BY … LIMIT`; texts are compared by their codes.
unfoldable pub find_carryover_symbols : Text → MarketEnv → Text → TaskTables → List Text
unfolding filter_by unique sort_by
find_carryover_symbols provider env partition_key d = take 10000 (
    sort_by text_leb (
      unique (
        map (λ t. t.key.symbol)
          (filter_by
            (λ t. is_open_minute provider env t && text_leb t.key.partition_key partition_key)
            d.tasks))))

abbrev text_ltb : Text → Text → Bool
text_ltb a b = not (text_leb b a)

unfoldable pub find_stranded_trade_dates :
    Text → MarketEnv → Text → Option ℕ → TaskTables → List Text
unfolding filter_by unique sort_by
find_stranded_trade_dates provider env before limit d = take (Option.get_or limit 7) (
    sort_by (λ a b. text_leb b a)
      (unique (
        map (λ t. t.key.partition_key)
          (filter_by (λ t. is_open_minute provider env t && text_ltb t.key.partition_key before)
            d.tasks))))

abbrev pub new_task : ℕ → TaskKey → Task
new_task now key = record {
  key = key;
  status = pending;
  attempts = 0;
  started_at = none;
  finished_at = none;
  error_message = none;
  created_at = now;
  updated_at = now;
}

-- `INSERT … ON CONFLICT DO NOTHING`
unfoldable pub insert_task : ℕ → TaskKey → List Task → List Task
insert_task now key tasks =
    if exists (has_key key) tasks then tasks else tasks ++ new_task now key ∷ []

unfoldable pub insert_tasks : ℕ → List TaskKey → List Task → List Task
unfolding insert_task
insert_tasks now [] tasks = tasks
insert_tasks now (key ∷ keys) tasks = insert_tasks now keys (insert_task now key tasks)

unfoldable pub create_pending_tasks : ℕ → List TaskKey → TaskTables → TaskTables
unfolding insert_tasks
create_pending_tasks now keys d = record d { tasks = insert_tasks now keys d.tasks }

abbrev max_attempts_exceeded : Text
max_attempts_exceeded = codes "max attempts exceeded"

-- The row of `markRunning`: started once more, or skipped once the attempts are used up.
unfoldable pub run_or_skip : ℕ → ℕ → Task → Task
run_or_skip max_attempts now t =
    if leb max_attempts t.attempts
    then record t {
      status = skipped;
      finished_at = some now;
      error_message = some max_attempts_exceeded;
      updated_at = now;
    }
    else record t {
      status = running;
      attempts = t.attempts + 1;
      started_at = some now;
      error_message = none;
      updated_at = now;
    }

abbrev status_or_running : Option Task → TaskStatus
status_or_running none = running
status_or_running (some t) = t.status

-- With the status that `query` gives, `RUNNING` if it gives none.
unfoldable pub mark_running : Returning → ℕ → ℕ → TaskKey → TaskTables → TaskStatus × TaskTables
unfolding run_or_skip update_where find_first
mark_running given max_attempts now key d = (
  status_or_running (
      returned_first given
        (Option.map (run_or_skip max_attempts now) (find_first (has_key key) d.tasks))),
  record d { tasks = update_where (has_key key) (run_or_skip max_attempts now) d.tasks },
)

abbrev is_ready_or_failed : TaskStatus → Bool
is_ready_or_failed ready = true
is_ready_or_failed failed = true
is_ready_or_failed _ = false

-- The row of `updateTask`.
unfoldable pub updated_task : ℕ → TaskStatus → Option Text → Bool → Task → Task
updated_task now status error_message increment_attempts t = record t {
  status = status;
  attempts = t.attempts + (if increment_attempts then 1 else 0);
  started_at = if is_running status then some now else t.started_at;
  finished_at = if is_ready_or_failed status then some now else t.finished_at;
  error_message = error_message;
  updated_at = now;
}

unfoldable pub update_task : ℕ → TaskKey → TaskStatus → Option Text → Bool → TaskTables → TaskTables
unfolding updated_task update_where
update_task now key status error_message increment_attempts d = record d {
  tasks =
      update_where (has_key key) (updated_task now status error_message increment_attempts) d.tasks;
}

unfoldable pub mark_ready : ℕ → TaskKey → TaskTables → TaskTables
unfolding update_task
mark_ready now key d = update_task now key ready none false d

unfoldable pub mark_failed : ℕ → TaskKey → Text → TaskTables → TaskTables
unfolding update_task
mark_failed now key message d = update_task now key failed (some message) false d

abbrev pub made_pending : ℕ → Option Text → Task → Task
made_pending now error_message t = record t {
  status = pending;
  attempts = 0;
  started_at = none;
  finished_at = none;
  error_message = error_message;
  updated_at = now;
}

unfoldable pub mark_pending : ℕ → TaskKey → Text → TaskTables → TaskTables
unfolding update_where
mark_pending now key reason d = record d {
  tasks = update_where (has_key key) (made_pending now (some reason)) d.tasks;
}

abbrev audited : Audit → List Task → TaskTables → TaskTables
audited a tasks d = record { tasks = tasks; audits = d.audits ++ a ∷ [] }

abbrev pub is_retried : Text → Task → Bool
is_retried run_id t = text_eq t.key.run_id run_id && is_given_up t.status

unfoldable pub retry_failed_run : Returning → ℕ → Text → Text → TaskTables → ℕ × TaskTables
unfolding update_where filter_by
retry_failed_run given now run_id actor d =
    let count = returned_length given (count_where (is_retried run_id) d.tasks) in
    (
      count,
      audited
          (record {
            run_id = some run_id;
            action = retry_failed;
            actor = actor;
            new_status = some pending;
            count = count;
          })
          (update_where (is_retried run_id) (made_pending now none) d.tasks) d,
    )

abbrev pub is_superseded : Text → MarketEnv → Text → Text → Task → Bool
is_superseded provider env partition_key run_id t =
    is_open_minute provider env t
    && text_eq t.key.partition_key partition_key
    && not (text_eq t.key.run_id run_id)

abbrev pub superseded : ℕ → Text → Task → Task
superseded now run_id t = record t {
  status = skipped;
  finished_at = some now;
  error_message = some (codes "superseded by recovery run " ++ run_id);
  updated_at = now;
}

-- Audited where the length of what `query` gives is not 0.
unfoldable pub mark_superseded_stranded :
    Returning → ℕ → Text → MarketEnv → Text → Text → TaskTables → ℕ × TaskTables
unfolding update_where filter_by
mark_superseded_stranded given now provider env partition_key run_id d =
    let p = is_superseded provider env partition_key run_id in
    let count = returned_length given (count_where p d.tasks) in
    let audit : Audit = record {
      run_id = some run_id;
      action = supersede_stranded;
      actor = codes "chart-archive-recovery";
      new_status = some skipped;
      count = count;
    } in
    (
      count,
      record {
        tasks = update_where p (superseded now run_id) d.tasks;
        audits = if ltb 0 count then d.audits ++ audit ∷ [] else d.audits;
      },
    )

abbrev pub is_outdated : ℕ → ℕ → Task → Bool
is_outdated days now t = is_over t.status && ltb t.updated_at (now - days * day_ms)

-- `DELETE`; never less than a week is kept.
unfoldable pub cleanup_terminal_tasks : Returning → ℕ → ℕ → TaskTables → ℕ × TaskTables
unfolding filter_by
cleanup_terminal_tasks given older_than_days now d =
    let p = is_outdated (max 7 older_than_days) now in
    let count = returned_length given (count_where p d.tasks) in
    (
      count,
      audited
          (record {
            run_id = none;
            action = cleanup;
            actor = codes "admin";
            new_status = none;
            count = count;
          })
          (filter_by (λ t. not (p t)) d.tasks) d,
    )
