-- ===== src/Fill/Outbox.antt =====
-- The outbox `order_fill`: execution-persistence.service.ts (`findPendingOutbox` to
-- `countOutboxPermanentFailures`, `outboxBackoffMs`) and execution.service.ts (`flushFillOutbox`). The
-- payload that an item carries is copied from its row and is left out.
use trading_worker.Base.{
  ℕ, ◌+◌, ◌-◌, ◌*◌, ◌^◌, min, Bool, true, false, not, ◌||◌, ◌&&◌, List, [], ◌∷◌, Option, some, none,
  ltb, leb, ◌==◌, length, take, map, exists, sort_by, filter_by,
}
use trading_worker.Base.Text.{Text, text_eq}
use trading_worker.Sql.{update_where, find_first, is_null}
use trading_worker.Fill.Db.{Db, OrderFillRow}

-- TRACKER_FILL_OUTBOX_MAX_ATTEMPTS, …_CLAIM_TTL_MS, …_BASE_BACKOFF_MS, …_MAX_BACKOFF_MS: the defaults.
abbrev pub outbox_max_attempts : ℕ
outbox_max_attempts = 12

abbrev pub outbox_claim_ttl_ms : ℕ
outbox_claim_ttl_ms = 60000

abbrev pub outbox_base_backoff_ms : ℕ
outbox_base_backoff_ms = 5000

abbrev pub outbox_max_backoff_ms : ℕ
outbox_max_backoff_ms = 300000

unfoldable pub outbox_backoff_ms : ℕ → ℕ
outbox_backoff_ms attempts =
    min (outbox_base_backoff_ms * 2 ^ min (attempts - 1) 6) outbox_max_backoff_ms

-- A channel is still to be served.
abbrev pub is_unpublished : OrderFillRow → Bool
is_unpublished row = is_null row.live_published_at || is_null row.stream_published_at

-- `IS NULL OR … <= :now`
abbrev pub is_past : ℕ → Option ℕ → Bool
is_past now none = true
is_past now (some at) = leb at now

-- `publishClaimedAt < now - TTL`, in integers: a claim is free again after its time to live.
abbrev pub is_unclaimed : ℕ → Option ℕ → Bool
is_unclaimed now none = true
is_unclaimed now (some at) = ltb (at + outbox_claim_ttl_ms) now

unfoldable pub is_eligible : ℕ → OrderFillRow → Bool
is_eligible now row =
    is_unpublished row && is_past now row.next_publish_at && is_unclaimed now row.publish_claimed_at

pub record PendingItem : Type 0 where
  pub id : ℕ
  pub external_fill_id : Text
  pub needs_live_publish : Bool
  pub needs_stream_publish : Bool

unfoldable pub item_of : OrderFillRow → PendingItem
item_of row = record {
  id = row.id;
  external_fill_id = row.external_fill_id;
  needs_live_publish = is_null row.live_published_at;
  needs_stream_publish = is_null row.stream_published_at;
}

-- The select: `locked` says which rows another transaction holds, which SKIP LOCKED passes over.
unfoldable pub pick_outbox : (ℕ → Bool) → ℕ → ℕ → List OrderFillRow → List OrderFillRow
unfolding sort_by filter_by is_eligible
pick_outbox locked now limit rows = take limit (
    sort_by (λ a b. leb a.created_at b.created_at)
      (filter_by (λ r. is_eligible now r && not (locked r.id)) rows))

abbrev pub has_id : List OrderFillRow → ℕ → Bool
has_id rows id = exists (λ r. r.id == id) rows

-- The update of the rows picked.
unfoldable pub claim_outbox : ℕ → List OrderFillRow → List OrderFillRow → List OrderFillRow
unfolding update_where
claim_outbox now picked =
    update_where (λ r. has_id picked r.id) (λ r. record r { publish_claimed_at = some now })

unfoldable pub find_pending_outbox : (ℕ → Bool) → ℕ → ℕ → Db → List PendingItem × Db
unfolding pick_outbox claim_outbox item_of
find_pending_outbox locked now limit db =
    let picked = pick_outbox locked now limit db.order_fills in
    (map item_of picked, record db { order_fills = claim_outbox now picked db.order_fills })

pub data Channel : Type 0 where
  live stream : Channel

abbrev pub set_published : ℕ → Channel → OrderFillRow → OrderFillRow
set_published now live row = record row { live_published_at = some now; last_publish_error = none }
set_published now stream row = record row {
  stream_published_at = some now;
  last_publish_error = none;
}

unfoldable pub mark_outbox_published : ℕ → Text → Channel → Db → Db
unfolding update_where
mark_outbox_published now external_fill_id channel db = record db {
  order_fills =
      update_where (λ r. text_eq r.external_fill_id external_fill_id) (set_published now channel)
        db.order_fills;
}

abbrev attempts_of : Option OrderFillRow → ℕ
attempts_of none = 0
attempts_of (some row) = row.publish_attempts

unfoldable pub current_outbox_attempts : Text → Db → ℕ
unfolding find_first
current_outbox_attempts external_fill_id db =
    attempts_of (find_first (λ r. text_eq r.external_fill_id external_fill_id) db.order_fills)

abbrev pub set_failed : ℕ → ℕ → Text → OrderFillRow → OrderFillRow
set_failed now backoff error row = record row {
  publish_attempts = row.publish_attempts + 1;
  publish_claimed_at = none;
  next_publish_at = some (now + backoff);
  last_publish_error = some error;
}

unfoldable pub record_outbox_publish_failure : ℕ → Text → Text → Db → Db
unfolding update_where outbox_backoff_ms current_outbox_attempts
record_outbox_publish_failure now external_fill_id error db = record db {
  order_fills =
      update_where (λ r. text_eq r.external_fill_id external_fill_id)
        (set_failed now (outbox_backoff_ms (current_outbox_attempts external_fill_id db + 1)) error)
        db.order_fills;
}

abbrev pub set_released : OrderFillRow → OrderFillRow
set_released row = record row { publish_claimed_at = none; next_publish_at = none }

unfoldable pub release_outbox_claim : Text → Db → Db
unfolding update_where
release_outbox_claim external_fill_id db = record db {
  order_fills =
      update_where (λ r. text_eq r.external_fill_id external_fill_id) set_released db.order_fills;
}

unfoldable pub count_pending_outbox : Db → ℕ
unfolding filter_by
count_pending_outbox db = length (filter_by is_unpublished db.order_fills)

unfoldable pub count_outbox_permanent_failures : Db → ℕ
unfolding filter_by
count_outbox_permanent_failures db =
    length (
      filter_by (λ r. is_unpublished r && leb outbox_max_attempts r.publish_attempts)
        db.order_fills)

-- What is written after a send: the mark, or the failure, which is thrown on.
unfoldable pub sent : ℕ → Channel → Text → Db → Option Text → Bool × Db
unfolding mark_outbox_published record_outbox_publish_failure
sent now channel external_fill_id db none =
    (true, mark_outbox_published now external_fill_id channel db)
sent now channel external_fill_id db (some error) =
    (false, record_outbox_publish_failure now external_fill_id error db)

-- A step of the `try` block after another: it runs if the first has not thrown.
abbrev pub then_do : (Db → Bool × Db) → Bool × Db → Bool × Db
then_do f (true, db) = f db
then_do f (false, db) = (false, db)

pub record FlushRun : Type 0 where
  pub db : Db
  pub attempted : ℕ
  pub published : ℕ
  pub failed : ℕ

abbrev pub flush_counted : Bool × Db → FlushRun → FlushRun
flush_counted (true, db) run = record run { db = db; published = run.published + 1 }
flush_counted (false, db) run = record run { db = db; failed = run.failed + 1 }

-- One flush. `send` is the publisher and the streams producer: the error of a send, if it fails.
module _ (send : Channel → Text → Option Text) (now : ℕ) where
  -- `publishLiveFill` and `produceFillStream`: whether they return, and the database after them.
  unfoldable pub publish : Channel → Text → Db → Bool × Db
  unfolding sent
  publish channel external_fill_id db =
      sent now channel external_fill_id db (send channel external_fill_id)

  abbrev pub publish_needed : Bool → Channel → Text → Db → Bool × Db
  publish_needed false channel external_fill_id db = (true, db)
  publish_needed true channel external_fill_id db = publish channel external_fill_id db

  unfoldable pub flush_item : PendingItem → Db → Bool × Db
  unfolding publish release_outbox_claim
  flush_item item db =
      then_do (λ d. (true, release_outbox_claim item.external_fill_id d))
        (then_do (publish_needed item.needs_stream_publish stream item.external_fill_id)
          (publish_needed item.needs_live_publish live item.external_fill_id db))

  unfoldable pub flush_loop : List PendingItem → FlushRun → FlushRun
  unfolding flush_item
  flush_loop [] run = run
  flush_loop (item ∷ items) run = flush_loop items (flush_counted (flush_item item run.db) run)

  unfoldable pub flush_fill_outbox : (ℕ → Bool) → ℕ → Db → FlushRun
  unfolding flush_loop find_pending_outbox
  flush_fill_outbox locked limit db =
      let (pending, claimed) = find_pending_outbox locked now limit db in
      flush_loop pending
        (record { db = claimed; attempted = length pending; published = 0; failed = 0 })
