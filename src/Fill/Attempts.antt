-- ===== src/Fill/Attempts.antt =====
-- How often a fill that was put aside is tried again.
use trading_worker.Base.{
  ℕ, suc, ◌+◌, ◌≤◌, ◌<◌, ◌≡◌, ◌∙◌, ◌⊎◌, inl, inr, refl, arith, Bool, true, false, List, [], ◌∷◌,
  Option, some, none, length, take, sort_by, filter_by, All, Returns, Returns-some, Returns-imp,
  Option-cases,
}
use trading_worker.Base.Text.{Text, text_eq}
use trading_worker.Order.{Anomaly}
use trading_worker.Event.{OrderFilledPayload}
use trading_worker.Fill.Db.{insert_unmatched, Db, UnmatchedFill}
use trading_worker.Fill.Write.{unmatched_row, unmatched_retry_delay_ms}
use trading_worker.Fill.Ingest.{IngestResult, ingest_execution_fill}
use trading_worker.Base.{exists, Bool-cases}
use trading_worker.Sql.Rows.{All-append, length-take, All-update_where}
use trading_worker.Fill.Aside.{Aside, ingest-Aside}
use trading_worker.Fill.Retry.{
  unmatched_max_attempts, is_pending, Settlement, resolve, dead, defer, settlement_of, settle_row,
  settle, RetryRun, counted, retry_loop, due_rows, is_due, retries_before, TrackerCall, deliver,
  retry, committed, tracker_calls, retry_unmatched_fills,
}

-- A row that waits for another attempt has had fewer than the maximum.
abbrev pub Within : UnmatchedFill → Type 0
Within r = is_pending r.status ≡ true → r.attempts < unmatched_max_attempts

insert_unmatched-All :
    (P : UnmatchedFill → Type 0) (row : UnmatchedFill) (rows : List UnmatchedFill)
    → P row
    → All P rows
    → All P (insert_unmatched row rows)
unfolding insert_unmatched
insert_unmatched-All P row rows p h =
    elim (Bool-cases (exists (λ r. text_eq r.external_fill_id row.external_fill_id) rows)) [
      | inl e ↦ rw e h
      | inr e ↦ rw e (All-append P rows row h p)
    ]

defer-lt :
    (attempts : ℕ) (r : IngestResult)
    → settlement_of attempts r ≡ defer
    → attempts < unmatched_max_attempts
unfolding settlement_of
defer-lt attempts r h = ground arith

settle_row-Within :
    (now attempts : ℕ) (r : IngestResult) (s : Settlement)
    → settlement_of attempts r ≡ s
    → (u : UnmatchedFill) → Within u
    → Within (settle_row now attempts r s u)
unfolding settle_row
settle_row-Within now attempts r resolve e u h = λ p. cc
settle_row-Within now attempts r dead e u h = λ p. cc
settle_row-Within now attempts r defer e u h = λ p. defer-lt attempts r e

settle-Within :
    (now : ℕ) (row : UnmatchedFill) (r : IngestResult) (db : Db)
    → All Within db.unmatched
    → All Within (settle now row r db).unmatched
unfolding settle
settle-Within now row r db h =
    All-update_where Within Within (λ u. text_eq u.external_fill_id row.external_fill_id)
      (settle_row now (row.attempts + 1) r (settlement_of (row.attempts + 1) r))
      (λ u _. settle_row-Within now (row.attempts + 1) r _ refl u) (λ u _ w. w) db.unmatched h

unmatched_row-Within :
    (now : ℕ) (p : OrderFilledPayload) (id : Text) (reason : Anomaly) (retryable : Bool)
    (order_id : Option ℕ)
    → Within (unmatched_row now p id reason retryable order_id)
unfolding unmatched_row
unmatched_row-Within now p id reason retryable order_id = λ _. omega arith

-- One settled row, against the row it was: it no longer waits, or it has had one more attempt and waits
-- for the next.
abbrev pub Settled : ℕ → ℕ → UnmatchedFill → Type 0
Settled now attempts u =
    (is_pending u.status ≡ false)
    ⊎ ((u.attempts ≡ attempts)
        × (attempts < unmatched_max_attempts)
        × (u.next_retry_at ≡ some (now + unmatched_retry_delay_ms)))

-- Whatever an attempt returns, the row it was made for leaves the queue, or has its count of attempts set
-- to one more than was read, below the maximum, and its next attempt set one delay later.
pub settle_row-Settled :
    (now attempts : ℕ) (r : IngestResult) (u : UnmatchedFill)
    → Settled now
        (attempts + 1)
        (settle_row now (attempts + 1) r (settlement_of (attempts + 1) r) u)
unfolding settle_row
settle_row-Settled now attempts r u = by_settlement (settlement_of (attempts + 1) r) refl
  where
    by_settlement :
        (s : Settlement)
        → settlement_of (attempts + 1) r ≡ s
        → Settled now (attempts + 1) (settle_row now (attempts + 1) r s u)
    by_settlement resolve e = inl refl
    by_settlement dead e = inl refl
    by_settlement defer e = inr (refl, defer-lt (attempts + 1) r e, refl)

pub counted_db : (s : Settlement) (run : RetryRun) → (counted s run).db ≡ run.db
counted_db resolve run = refl
counted_db dead run = refl
counted_db defer run = refl

committed-Within :
    (m : Option (IngestResult × Db)) (db : Db)
    → All Within db.unmatched
    → Returns (λ x. All Within x.1.unmatched) m
    → All Within (committed m db).unmatched
committed-Within none db h k = h
committed-Within (some (r, next)) db h k = k

length-filter_by :
    (p : UnmatchedFill → Bool) (rows : List UnmatchedFill) → length (filter_by p rows) ≤ length rows
unfolding filter_by
length-filter_by p [] = omega arith
length-filter_by p (r ∷ rows) = ground (arith, length-filter_by p rows)

length-due_rows :
    (now limit : ℕ) (rows : List UnmatchedFill) → length (due_rows now limit rows) ≤ limit
unfolding due_rows
length-due_rows now limit rows = ground (
  arith,
  length-filter_by (λ r. is_due now r.next_retry_at)
      (take limit (sort_by retries_before (filter_by (λ r. is_pending r.status) rows))),
  length-take limit (sort_by retries_before (filter_by (λ r. is_pending r.status) rows)),
)

module _ (null_where : Option ℕ → Bool) where
  ingest-Within :
      (now : ℕ) (p : OrderFilledPayload) (store : Bool) (db : Db)
      → All Within db.unmatched
      → Returns (λ x. All Within x.1.unmatched) (ingest_execution_fill null_where now p store db)
  ingest-Within now p store db h =
      Returns-imp (Aside null_where now p db) (λ x. All Within x.1.unmatched) _ step
        (ingest-Aside null_where now p store db)
    where
      step : (x : IngestResult × Db) → Aside null_where now p db x → All Within x.1.unmatched
      step x (inl e) = rw e h
      step x (inr (id, reason, retryable, order_id, e)) = rw e (
          insert_unmatched-All Within _ db.unmatched
            (unmatched_row-Within now p id reason retryable order_id) h)

  retry_loop-Within :
      (now : ℕ) (rows : List UnmatchedFill) (run : RetryRun)
      → All Within run.db.unmatched
      → All Within (retry_loop null_where now rows run).db.unmatched
  unfolding retry_loop
  retry_loop-Within now [] run h = h
  retry_loop-Within now (row ∷ rows) run h =
      elim (Option-cases (ingest_execution_fill null_where now row.payload false run.db)) [
        | inl e ↦ rw (e, All) h
        | inr ((r, db), e) ↦
            rw (e, All)
              (retry_loop-Within now rows _ (
                rw (counted_db (settlement_of (row.attempts + 1) r) _) (
                  settle-Within now row r db (
                    Returns-some (λ x. All Within x.1.unmatched) _ (r, db) e
                      (ingest-Within now row.payload false run.db h)))))
      ]

  retry_unmatched_fills-Within :
      (now limit : ℕ) (db : Db)
      → All Within db.unmatched
      → All Within (retry_unmatched_fills null_where now limit db).db.unmatched
  unfolding retry_unmatched_fills
  retry_unmatched_fills-Within now limit db h =
      retry_loop-Within now (due_rows now limit db.unmatched) _ h

  counted-le :
      (s : Settlement) (run : RetryRun)
      → (counted s run).resolved_count + (counted s run).dead_lettered
        ≤ suc (run.resolved_count + run.dead_lettered)
  counted-le resolve run = omega arith
  counted-le dead run = omega arith
  counted-le defer run = omega arith

  retry_loop-counts :
      (now : ℕ) (rows : List UnmatchedFill) (run : RetryRun)
      → (retry_loop null_where now rows run).resolved_count
          + (retry_loop null_where now rows run).dead_lettered
        ≤ run.resolved_count + run.dead_lettered + length rows
  unfolding retry_loop
  retry_loop-counts now [] run = omega arith
  retry_loop-counts now (row ∷ rows) run =
      elim (Option-cases (ingest_execution_fill null_where now row.payload false run.db)) [
        | inl e ↦ rw (e, retry_loop) (omega arith)
        | inr ((r, db), e) ↦
            rw (e, retry_loop) omega
              (
                arith,
                retry_loop-counts now rows (
                    counted (settlement_of (row.attempts + 1) r)
                      (record run { db = settle now row r db })),
                counted-le (settlement_of (row.attempts + 1) r)
                    (record run { db = settle now row r db }),
              )
      ]

  counted_attempted : (s : Settlement) (run : RetryRun) → (counted s run).attempted ≡ run.attempted
  counted_attempted resolve run = refl
  counted_attempted dead run = refl
  counted_attempted defer run = refl

  retry_loop-attempted :
      (now : ℕ) (rows : List UnmatchedFill) (run : RetryRun)
      → (retry_loop null_where now rows run).attempted ≡ run.attempted
  unfolding retry_loop
  retry_loop-attempted now [] run = refl
  retry_loop-attempted now (row ∷ rows) run =
      elim (Option-cases (ingest_execution_fill null_where now row.payload false run.db)) [
        | inl e ↦ rw (e, retry_loop) refl
        | inr ((r, db), e) ↦
            rw (e, retry_loop)
              (retry_loop-attempted now rows (
                  counted (settlement_of (row.attempts + 1) r)
                    (record run { db = settle now row r db }))
                ∙ counted_attempted (settlement_of (row.attempts + 1) r)
                    (record run { db = settle now row r db }))
      ]

  -- A retry run attempts at most `limit` rows, and the rows that it counts as resolved or dead are at most
  -- those it attempts.
  pub retry_counts :
      (now limit : ℕ) (db : Db)
      → let run = retry_unmatched_fills null_where now limit db in
        (run.resolved_count + run.dead_lettered ≤ run.attempted) × (run.attempted ≤ limit)
  unfolding retry_unmatched_fills
  retry_counts now limit db =
      let due = due_rows now limit db.unmatched in
      let start : RetryRun = record {
        db = db;
        attempted = length due;
        resolved_count = 0;
        dead_lettered = 0;
        finished = false;
      } in
      (
        omega (arith, retry_loop-attempted now due start, retry_loop-counts now due start),
        omega (arith, retry_loop-attempted now due start, length-due_rows now limit db.unmatched),
      )

  -- Along every sequence of deliveries and retry runs, a fill that waits for another attempt has had fewer
  -- than the maximum, if this held at the start.
  pub tracker_calls-Within :
      (calls : List TrackerCall) (db : Db)
      → All Within db.unmatched
      → All Within (tracker_calls null_where calls db).unmatched
  unfolding tracker_calls
  tracker_calls-Within [] db h = h
  tracker_calls-Within (deliver now p ∷ calls) db h =
      tracker_calls-Within calls _ (committed-Within _ db h (ingest-Within now p true db h))
  tracker_calls-Within (retry now limit ∷ calls) db h =
      tracker_calls-Within calls _ (retry_unmatched_fills-Within now limit db h)
