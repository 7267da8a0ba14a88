-- ===== src/Fill/Ingest.antt =====
-- execution-persistence.service.ts: `ingestExecutionFill`. The call is one transaction with the order row locked; `none` is an exception,
-- after which the database is as it was.
use trading_worker.Base.{ℕ, Bool, true, false, Option, none, some, ◌>>=◌, if◌then◌else◌}
use trading_worker.Base.Int.{ℤ, pos, leb_ℤ}
use trading_worker.Base.Text.{Text, coalesce, coalesce_null}
use trading_worker.Scaled.{text, decimal_to_scaled}
use trading_worker.Event.{OrderFilledPayload}
use trading_worker.Order.{
  Order, Anomaly, order_not_found, side_mismatch, invalid_fill, fill_clamped,
}
use trading_worker.Fill.{
  FillAggregate, matches_order_side, build_fill_aggregate, build_external_fill_id,
}
use trading_worker.Fill.Db.{Db, FillRow}
use trading_worker.Fill.Book.{Books, BookFill, apply_position_book_fill}
use mathlib.Core.Option
use trading_worker.Fill.Find.{find_order_for_fill}
use trading_worker.Fill.Write.{
  save_unmatched, fill_row, non_zero, write_tables, save_book_anomaly, has_fill,
}

pub record IngestResult : Type 0 where
  pub inserted : Bool
  pub order_id : Option ℕ
  pub anomaly : Option Anomaly
  pub external_fill_id : Text

-- The fill is not booked: with `storeUnmatched` it is put aside.
unfoldable pub refuse :
    ℕ → Bool → OrderFilledPayload → Text → Anomaly → Bool → Option ℕ → Db → IngestResult × Db
unfolding save_unmatched
refuse now store payload external_fill_id reason retryable order_id db = (
  record {
    inserted = false;
    order_id = order_id;
    anomaly = some reason;
    external_fill_id = external_fill_id;
  },
  if store then save_unmatched now payload external_fill_id reason retryable order_id db else db,
)

-- What `applyPositionBookFill` is called with.
unfoldable pub book_input : OrderFilledPayload → Order → FillAggregate → FillRow → BookFill
book_input payload order a row = record {
  order = order;
  payload = payload;
  fill_id = non_zero row.id;
  filled_at = payload.filled_at_ms;
  applied_qty = a.applied_qty;
  applied_amount = a.applied_amount;
}

-- The end of the transaction, once the position is booked.
unfoldable pub finish_fill :
    ℕ
    → OrderFilledPayload
    → Text
    → Order
    → FillAggregate
    → FillRow
    → Db
    → Option Anomaly × Books
    → IngestResult × Db
unfolding write_tables save_book_anomaly
finish_fill now payload external_fill_id order a row db (anomaly, books) = (
  record {
    inserted = true;
    order_id = some order.id;
    anomaly = coalesce_null a.anomaly anomaly;
    external_fill_id = external_fill_id;
  },
  save_book_anomaly now payload external_fill_id order.id anomaly
      (record (write_tables now payload external_fill_id order a row db) {
        position_books = books.rows;
        next_position_book_id = books.next_id;
      }),
)

-- The result for a fill that is not inserted, the tables being as they were.
abbrev pub not_inserted : Text → ℕ → Option Anomaly → Db → IngestResult × Db
not_inserted external_fill_id order_id anomaly db = (
  record {
    inserted = false;
    order_id = some order_id;
    anomaly = anomaly;
    external_fill_id = external_fill_id;
  },
  db,
)

-- `payload.externalFillId ?? buildExternalFillId(payload)`
abbrev pub external_fill_id_of : OrderFilledPayload → Option Text → Option Text
external_fill_id_of payload none = build_external_fill_id payload
external_fill_id_of payload (some id) = some id

module _ (null_where : Option ℕ → Bool) (now : ℕ) (payload : OrderFilledPayload) where
  -- The fill is new: it is written everywhere, then booked into the position.
  unfoldable pub book_fill :
      Text → Order → FillAggregate → Db → FillRow → Option (IngestResult × Db)
  unfolding finish_fill book_input
  book_fill external_fill_id order a db row =
      Option.map (finish_fill now payload external_fill_id order a row db) (
        apply_position_book_fill null_where (book_input payload order a row)
          (record { rows = db.position_books; next_id = db.next_position_book_id }))

  -- `INSERT INTO fills … ON CONFLICT DO NOTHING`, and what follows a row that was inserted.
  unfoldable pub insert_row :
      Text → Order → FillAggregate → Db → FillRow → Option (IngestResult × Db)
  unfolding book_fill
  insert_row external_fill_id order a db row =
      if has_fill external_fill_id db.fills
      then some (not_inserted external_fill_id order.id none db)
      else book_fill external_fill_id order a db row

  unfoldable pub insert_fill : Text → Order → FillAggregate → Db → Option (IngestResult × Db)
  unfolding fill_row insert_row
  insert_fill external_fill_id order a db =
      fill_row db.next_fill_id order payload external_fill_id a
      >>= insert_row external_fill_id order a db

  -- A fill of which nothing fits into the order is not inserted.
  unfoldable pub insert_positive :
      Text → Order → FillAggregate → Db → ℤ → Option (IngestResult × Db)
  unfolding insert_fill
  insert_positive external_fill_id order a db qty =
      if leb_ℤ qty (pos 0)
      then some (not_inserted external_fill_id order.id (some (coalesce a.anomaly fill_clamped)) db)
      else insert_fill external_fill_id order a db

  unfoldable pub apply_aggregate :
      Bool → Text → Order → Db → Option FillAggregate → Option (IngestResult × Db)
  unfolding insert_positive refuse
  apply_aggregate store external_fill_id order db none =
      some (refuse now store payload external_fill_id invalid_fill false (some order.id) db)
  apply_aggregate store external_fill_id order db (some a) =
      decimal_to_scaled (text a.applied_qty) 8 >>= insert_positive external_fill_id order a db

  unfoldable pub ingest_order : Bool → Text → Db → Option Order → Option (IngestResult × Db)
  unfolding apply_aggregate refuse
  ingest_order store external_fill_id db none =
      some (refuse now store payload external_fill_id order_not_found true none db)
  ingest_order store external_fill_id db (some order) =
      if matches_order_side order.order_type payload.side
      then build_fill_aggregate order payload >>= apply_aggregate store external_fill_id order db
      else some (refuse now store payload external_fill_id side_mismatch false (some order.id) db)

  -- `storeUnmatched` says whether a fill that cannot be booked is put aside.
  unfoldable pub ingest_execution_fill : Bool → Db → Option (IngestResult × Db)
  unfolding ingest_order
  ingest_execution_fill store_unmatched db = do
    external_fill_id ← external_fill_id_of payload payload.external_fill_id
    ingest_order store_unmatched external_fill_id db (find_order_for_fill payload db.orders)
