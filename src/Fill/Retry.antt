-- ===== src/Fill/Retry.antt =====
-- execution-persistence.service.ts: `retryUnmatchedFills` and its three ways to settle a row.
use trading_worker.Base.{
  ℕ, ◌+◌, Bool, true, false, List, [], ◌∷◌, Option, some, none, ◌||◌, ◌&&◌, ltb, leb, ◌==◌,
  if◌then◌else◌, length, take, sort_by, filter_by,
}
use trading_worker.Base.Text.{text_eq}
use trading_worker.Event.{OrderFilledPayload}
use trading_worker.Order.{Anomaly, side_mismatch, invalid_fill}
use trading_worker.Sql.{update_where, is_null}
use trading_worker.Fill.Db.{Db, UnmatchedFill, UnmatchedStatus, pending, resolved, dead_letter}
use trading_worker.Fill.Write.{unmatched_retry_delay_ms}
use trading_worker.Fill.Ingest.{IngestResult, ingest_execution_fill}

-- TRACKER_UNMATCHED_FILL_MAX_ATTEMPTS, its default.
abbrev pub unmatched_max_attempts : ℕ
unmatched_max_attempts = 12

abbrev pub is_pending : UnmatchedStatus → Bool
is_pending pending = true
is_pending resolved = false
is_pending dead_letter = false

-- `next_retry_at ASC`, where PostgreSQL puts NULL last; `tie` orders rows of one instant.
abbrev retry_leb : Option ℕ → Option ℕ → Bool → Bool
retry_leb none none tie = tie
retry_leb none (some n) tie = false
retry_leb (some m) none tie = true
retry_leb (some m) (some n) tie = ltb m n || ((m == n) && tie)

-- `ORDER BY next_retry_at ASC, created_at ASC`
abbrev pub retries_before : UnmatchedFill → UnmatchedFill → Bool
retries_before a b = retry_leb a.next_retry_at b.next_retry_at (leb a.created_at b.created_at)

-- `!row.nextRetryAt || row.nextRetryAt <= new Date()`
abbrev pub is_due : ℕ → Option ℕ → Bool
is_due now none = true
is_due now (some at) = leb at now

unfoldable pub due_rows : ℕ → ℕ → List UnmatchedFill → List UnmatchedFill
unfolding sort_by filter_by
due_rows now limit rows =
    filter_by (λ r. is_due now r.next_retry_at)
      (take limit (sort_by retries_before (filter_by (λ r. is_pending r.status) rows)))

pub data Settlement : Type 0 where
  resolve dead defer : Settlement

abbrev pub is_permanent : Option Anomaly → Bool
is_permanent (some side_mismatch) = true
is_permanent (some invalid_fill) = true
is_permanent _ = false

-- What becomes of a row after `attempts` attempts, the last with this result.
unfoldable pub settlement_of : ℕ → IngestResult → Settlement
settlement_of attempts r =
    if r.inserted || is_null r.anomaly
    then resolve
    else if leb unmatched_max_attempts attempts || is_permanent r.anomaly
    then dead
    else defer

unfoldable pub settle_row : ℕ → ℕ → IngestResult → Settlement → UnmatchedFill → UnmatchedFill
settle_row now attempts r resolve row = record row {
  status = resolved;
  resolved_at = some now;
  resolved_order_id = r.order_id;
  last_error = none;
}
settle_row now attempts r dead row = record row {
  status = dead_letter;
  attempts = attempts;
  next_retry_at = none;
  last_error = r.anomaly;
}
settle_row now attempts r defer row = record row {
  attempts = attempts;
  next_retry_at = some (now + unmatched_retry_delay_ms);
  last_error = r.anomaly;
}

unfoldable pub settle : ℕ → UnmatchedFill → IngestResult → Db → Db
unfolding settlement_of settle_row update_where
settle now row r db = record db {
  unmatched =
      update_where (λ u. text_eq u.external_fill_id row.external_fill_id)
        (settle_row now (row.attempts + 1) r (settlement_of (row.attempts + 1) r)) db.unmatched;
}

-- The counters, and whether the loop ran to its end: an exception leaves it, and what was settled
-- before stays settled.
pub record RetryRun : Type 0 where
  pub db : Db
  pub attempted : ℕ
  pub resolved_count : ℕ
  pub dead_lettered : ℕ
  pub finished : Bool

abbrev pub counted : Settlement → RetryRun → RetryRun
counted resolve run = record run { resolved_count = run.resolved_count + 1 }
counted dead run = record run { dead_lettered = run.dead_lettered + 1 }
counted defer run = run

module _ (null_where : Option ℕ → Bool) (now : ℕ) where
  unfoldable pub retry_loop : List UnmatchedFill → RetryRun → RetryRun
  unfolding settle
  retry_loop [] run = record run { finished = true }
  retry_loop (row ∷ rows) run =
      elim (ingest_execution_fill null_where now row.payload false run.db) [
        | none ↦ run
        | some (r, db) ↦
            retry_loop rows (
              counted (settlement_of (row.attempts + 1) r)
                (record run { db = settle now row r db }))
      ]

  unfoldable pub retry_unmatched_fills : ℕ → Db → RetryRun
  unfolding retry_loop due_rows
  retry_unmatched_fills limit db =
      let due = due_rows now limit db.unmatched in
      retry_loop due (record {
        db = db;
        attempted = length due;
        resolved_count = 0;
        dead_lettered = 0;
        finished = false;
      })

-- What the tracker does to the database over time: a report comes in from the stream
-- (`ingestFill`), or the maintenance timer runs (`retryUnmatchedFills`).
pub data TrackerCall : Type 0 where
  deliver : ℕ → OrderFilledPayload → TrackerCall
  retry : ℕ → ℕ → TrackerCall

-- A transaction that throws leaves the database as it was.
abbrev pub committed : Option (IngestResult × Db) → Db → Db
committed none db = db
committed (some (r, next)) db = next

module _ (null_where : Option ℕ → Bool) where
  unfoldable pub tracker_calls : List TrackerCall → Db → Db
  tracker_calls [] db = db
  tracker_calls (deliver now payload ∷ calls) db =
      tracker_calls calls (committed (ingest_execution_fill null_where now payload true db) db)
  tracker_calls (retry now limit ∷ calls) db =
      tracker_calls calls (retry_unmatched_fills null_where now limit db).db
