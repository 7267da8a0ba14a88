-- ===== src/Fill/Delivery.antt =====
-- The two channels of an outbox row in a flush.
use trading_worker.Base.{
  ℕ, suc, ◌+◌, ◌≤◌, ◌<◌, ◌≡◌, refl, ◌∙◌, arith, Bool, true, false, List, [], ◌∷◌, Option, some,
  none, length, map, All,
}
use trading_worker.Base.Text.{Text, text_eq}
use trading_worker.Sql.{is_null}
use trading_worker.Fill.Db.{Db, OrderFillRow}
use trading_worker.Sql.Rows.{length-take, length-map, All-update_where, All-always}
use trading_worker.Fill.Outbox.{
  outbox_base_backoff_ms, outbox_backoff_ms, is_unpublished, is_eligible, PendingItem, item_of,
  pick_outbox, find_pending_outbox, Channel, live, stream, set_published, mark_outbox_published,
  current_outbox_attempts, set_failed, record_outbox_publish_failure, set_released,
  release_outbox_claim, sent, publish, publish_needed, then_do, flush_item, FlushRun, flush_counted,
  flush_loop, flush_fill_outbox,
}
use trading_worker.Fill.Backoff.{outbox_backoff_ms-bounds}

-- What a row may still lack when the flush of an item has come so far: `f` and `g` say whether the item
-- asked for the live channel and for the stream.
abbrev pub Lacks : Text → Bool → Bool → OrderFillRow → Type 0
Lacks id f g r =
    text_eq r.external_fill_id id ≡ true
    → (is_null r.live_published_at ≡ true → f ≡ true)
      × (is_null r.stream_published_at ≡ true → g ≡ true)

-- A row that no flush takes before its time.
abbrev pub PutOff : Text → ℕ → OrderFillRow → Type 0
PutOff id now r =
    text_eq r.external_fill_id id ≡ true
    → (later : ℕ) → later < now + outbox_base_backoff_ms
    → is_eligible later r ≡ false

set_failed_not_eligible :
    (now : ℕ) (r : OrderFillRow) (error : Text) (later n : ℕ)
    → later < now + outbox_base_backoff_ms
    → is_eligible later (set_failed now (outbox_backoff_ms n) error r) ≡ false
unfolding is_eligible
set_failed_not_eligible now r error later n h =
    ground (arith, (outbox_backoff_ms-bounds n n (omega arith)).0)

lacks_nothing :
    (r : OrderFillRow)
    → (is_null r.live_published_at ≡ true → false ≡ true)
      × (is_null r.stream_published_at ≡ true → false ≡ true)
    → is_unpublished r ≡ false
lacks_nothing r k = ground arith

module _ (send : Channel → Text → Option Text) (now : ℕ) (id : Text) where
  mark-live-Lacks :
      (g : Bool) (db : Db)
      → All (Lacks id true g) db.order_fills
      → All (Lacks id false g) (mark_outbox_published now id live db).order_fills
  unfolding mark_outbox_published
  mark-live-Lacks g db h =
      All-update_where (Lacks id true g) (Lacks id false g) (λ r. text_eq r.external_fill_id id)
        (set_published now live) (λ r e k t. (λ n. absurd cc, (k t).1)) (λ r e k t. absurd cc)
        db.order_fills h

  mark-stream-Lacks :
      (f : Bool) (db : Db)
      → All (Lacks id f true) db.order_fills
      → All (Lacks id f false) (mark_outbox_published now id stream db).order_fills
  unfolding mark_outbox_published
  mark-stream-Lacks f db h =
      All-update_where (Lacks id f true) (Lacks id f false) (λ r. text_eq r.external_fill_id id)
        (set_published now stream) (λ r e k t. ((k t).0, λ n. absurd cc)) (λ r e k t. absurd cc)
        db.order_fills h

  record_failure-PutOff :
      (error : Text) (db : Db)
      → All (PutOff id now) (record_outbox_publish_failure now id error db).order_fills
  unfolding record_outbox_publish_failure
  record_failure-PutOff error db =
      All-update_where {0, 0, 0} (λ _. Unit) (PutOff id now) (λ r. text_eq r.external_fill_id id)
        (set_failed now (outbox_backoff_ms (current_outbox_attempts id db + 1)) error)
        (λ r e _ t later lt.
          set_failed_not_eligible now r error later (current_outbox_attempts id db + 1) lt)
        (λ r e _ t later lt. absurd cc) db.order_fills
        (All-always (λ _. Unit) (λ _. tt) db.order_fills)

  -- After a step: what holds of the rows if it returned; if it threw, the rows of the fill are put off.
  abbrev pub After : (OrderFillRow → Type 0) → Bool × Db → Type 0
  After P (true, db) = All P db.order_fills
  After P (false, db) = All (PutOff id now) db.order_fills

  then_do-After :
      (P Q : OrderFillRow → Type 0) (f : Db → Bool × Db) (x : Bool × Db)
      → ((db : Db) → All P db.order_fills → After Q (f db))
      → After P x
      → After Q (then_do f x)
  then_do-After P Q f (true, db) k h = k db h
  then_do-After P Q f (false, db) k h = h

  sent-live-After :
      (g : Bool) (db : Db) (m : Option Text)
      → All (Lacks id true g) db.order_fills
      → After (Lacks id false g) (sent now live id db m)
  unfolding sent
  sent-live-After g db none h = mark-live-Lacks g db h
  sent-live-After g db (some error) h = record_failure-PutOff error db

  sent-stream-After :
      (f : Bool) (db : Db) (m : Option Text)
      → All (Lacks id f true) db.order_fills
      → After (Lacks id f false) (sent now stream id db m)
  unfolding sent
  sent-stream-After f db none h = mark-stream-Lacks f db h
  sent-stream-After f db (some error) h = record_failure-PutOff error db

  publish-live-After :
      (f g : Bool) (db : Db)
      → All (Lacks id f g) db.order_fills
      → After (Lacks id false g) (publish_needed send now f live id db)
  unfolding publish
  publish-live-After false g db h = h
  publish-live-After true g db h = sent-live-After g db (send live id) h

  publish-stream-After :
      (f g : Bool) (db : Db)
      → All (Lacks id f g) db.order_fills
      → After (Lacks id f false) (publish_needed send now g stream id db)
  unfolding publish
  publish-stream-After f false db h = h
  publish-stream-After f true db h = sent-stream-After f db (send stream id) h

  release-Published :
      (db : Db)
      → All (Lacks id false false) db.order_fills
      → All
          (λ r. text_eq r.external_fill_id id ≡ true → is_unpublished r ≡ false)
          (release_outbox_claim id db).order_fills
  unfolding release_outbox_claim
  release-Published db h =
      All-update_where (Lacks id false false)
        (λ r. text_eq r.external_fill_id id ≡ true → is_unpublished r ≡ false)
        (λ r. text_eq r.external_fill_id id) set_released (λ r e k t. lacks_nothing r (k e))
        (λ r e k t. lacks_nothing r (k t)) db.order_fills h

-- After one item is flushed: if the flush counts it as published, every row with its external fill id is
-- published on both channels; if it counts it as failed, no such row is taken again before the base delay
-- is over. The item must ask for each channel that such a row lacks.
pub flush_item_outcome :
    (send : Channel → Text → Option Text) (now : ℕ) (item : PendingItem) (db : Db)
    → All
        (Lacks item.external_fill_id item.needs_live_publish item.needs_stream_publish)
        db.order_fills
    → After send now item.external_fill_id
        (λ r. text_eq r.external_fill_id item.external_fill_id ≡ true → is_unpublished r ≡ false)
        (flush_item send now item db)
unfolding flush_item
flush_item_outcome send now item db h =
    let id = item.external_fill_id in
    let first = publish_needed send now item.needs_live_publish live id db in
    let second = publish_needed send now item.needs_stream_publish stream id in
    then_do-After send now id (Lacks id false false)
      (λ r. text_eq r.external_fill_id id ≡ true → is_unpublished r ≡ false)
      (λ d. (true, release_outbox_claim id d)) (then_do second first)
      (λ d k. release-Published send now id d k)
      (then_do-After send now id (Lacks id false item.needs_stream_publish) (Lacks id false false)
        second first (λ d k. publish-stream-After send now id false item.needs_stream_publish d k)
        (publish-live-After send now id item.needs_live_publish item.needs_stream_publish db h))

flush_counted-sum :
    (x : Bool × Db) (run : FlushRun)
    → ((flush_counted x run).published + (flush_counted x run).failed
        ≡ suc (run.published + run.failed))
      × ((flush_counted x run).attempted ≡ run.attempted)
flush_counted-sum (true, db) run = (omega arith, refl)
flush_counted-sum (false, db) run = (omega arith, refl)

flush_loop-sum :
    (send : Channel → Text → Option Text) (now : ℕ) (items : List PendingItem) (run : FlushRun)
    → ((flush_loop send now items run).published + (flush_loop send now items run).failed
        ≡ run.published + run.failed + length items)
      × ((flush_loop send now items run).attempted ≡ run.attempted)
unfolding flush_loop
flush_loop-sum send now [] run = (omega arith, refl)
flush_loop-sum send now (item ∷ items) run =
    let next = flush_counted (flush_item send now item run.db) run in
    let step = flush_counted-sum (flush_item send now item run.db) run in
    let rest = flush_loop-sum send now items next in
    (omega (arith, step.0, rest.0), rest.1 ∙ step.1)

length-pick_outbox :
    (locked : ℕ → Bool) (now limit : ℕ) (rows : List OrderFillRow)
    → length (pick_outbox locked now limit rows) ≤ limit
unfolding pick_outbox
length-pick_outbox locked now limit rows = length-take limit _

-- Every item taken is counted once, as published or as failed, and at most `limit` are taken.
pub flush_counts :
    (send : Channel → Text → Option Text) (now : ℕ) (locked : ℕ → Bool) (limit : ℕ) (db : Db)
    → let run = flush_fill_outbox send now locked limit db in
      (run.published + run.failed ≡ run.attempted) × (run.attempted ≤ limit)
unfolding flush_fill_outbox find_pending_outbox
flush_counts send now locked limit db =
    let picked = pick_outbox locked now limit db.order_fills in
    let sum = flush_loop-sum send now (map item_of picked) (record {
      db = (find_pending_outbox locked now limit db).1;
      attempted = length (map item_of picked);
      published = 0;
      failed = 0;
    }) in
    (
      omega (arith, sum.0, sum.1),
      omega (
        arith,
        sum.1,
        length-map item_of picked,
        length-pick_outbox locked now limit db.order_fills,
      ),
    )
