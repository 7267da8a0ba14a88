-- ===== src/Fill/Write.antt =====
-- execution-persistence.service.ts: the rows that `ingestExecutionFill` and `saveUnmatchedFill` write.
use trading_worker.Base.{
  ℕ, zero, suc, ◌+◌, Bool, false, List, [], ◌∷◌, ◌++◌, Option, none, some, ◌&&◌, ◌>>=◌, ◌==◌,
  if◌then◌else◌, exists,
}
use trading_worker.Base.Text.{Text, coalesce, coalesce_null, or_null, text_eq}
use trading_worker.Scaled.{text, decimal_to_scaled, scaled_to_decimal, multiply_scaled}
use trading_worker.Event.{OrderFilledPayload}
use trading_worker.Order.{Order, Anomaly}
use trading_worker.Fill.{FillAggregate}
use trading_worker.Sql.{update_where}
use trading_worker.Fill.Db.{
  Db, FillRow, OrderFillRow, UnmatchedFill, pending, dead_letter, env_eq, insert_unmatched,
}
use mathlib.Core.Option

-- TRACKER_UNMATCHED_FILL_RETRY_DELAY_MS, its default.
abbrev pub unmatched_retry_delay_ms : ℕ
unmatched_retry_delay_ms = 5000

unfoldable pub unmatched_row :
    ℕ → OrderFilledPayload → Text → Anomaly → Bool → Option ℕ → UnmatchedFill
unmatched_row now payload external_fill_id reason retryable order_id = record {
  external_fill_id = external_fill_id;
  provider = payload.provider;
  market_env = payload.market_env;
  account_id = payload.account_id;
  vendor_order_id = or_null payload.vendor_order_id;
  client_order_id = or_null payload.client_order_id;
  symbol = payload.symbol;
  reason = reason;
  status = if retryable then pending else dead_letter;
  attempts = 0;
  next_retry_at = if retryable then some (now + unmatched_retry_delay_ms) else none;
  resolved_order_id = order_id;
  resolved_at = none;
  last_error = some reason;
  payload = payload;
  created_at = now;
}

unfoldable pub save_unmatched : ℕ → OrderFilledPayload → Text → Anomaly → Bool → Option ℕ → Db → Db
unfolding unmatched_row insert_unmatched
save_unmatched now payload external_fill_id reason retryable order_id db = record db {
  unmatched =
      insert_unmatched (unmatched_row now payload external_fill_id reason retryable order_id)
        db.unmatched;
}

-- `orderRepo.update`: `order` is the row as it was read; the ORM stamps `updated_at`.
unfoldable pub write_fill : ℕ → OrderFilledPayload → FillAggregate → Order → Order → Order
write_fill now payload a order o = record o {
  status = a.fields.status;
  broker_order_id = some a.fields.broker_order_id;
  external_order_id = some a.fields.external_order_id;
  client_order_id = a.fields.client_order_id;
  filled_quantity = a.fields.filled_quantity;
  remaining_quantity = some a.fields.remaining_quantity;
  average_fill_price = a.fields.average_fill_price;
  filled_amount = some a.fields.filled_amount;
  accepted_at = a.fields.accepted_at;
  filled_at = a.fields.filled_at;
  raw_response = some (record {
    last_execution_fill = some payload;
    last_execution_fill_anomaly =
        coalesce_null a.anomaly
          (Option.bind order.raw_response (λ r. r.last_execution_fill_anomaly));
    rest = coalesce (Option.map (λ r. r.rest) order.raw_response) [];
  });
  updated_at = now;
}

unfoldable pub outbox_row : ℕ → ℕ → OrderFilledPayload → Text → FillAggregate → OrderFillRow
outbox_row now id payload external_fill_id a = record {
  id = id;
  provider = payload.provider;
  market_env = payload.market_env;
  account_id = payload.account_id;
  vendor_order_id = payload.vendor_order_id;
  external_fill_id = external_fill_id;
  client_order_id = or_null payload.client_order_id;
  symbol = payload.symbol;
  side = payload.side;
  filled_qty = a.applied_qty;
  filled_price = payload.filled_price;
  filled_at = payload.filled_at_ms;
  live_published_at = none;
  stream_published_at = none;
  publish_attempts = 0;
  publish_claimed_at = none;
  next_publish_at = none;
  last_publish_error = none;
  created_at = now;
}

abbrev is_same_execution : OrderFillRow → OrderFillRow → Bool
is_same_execution a b =
    text_eq a.provider b.provider
    && env_eq a.market_env b.market_env
    && text_eq a.external_fill_id b.external_fill_id

-- `INSERT … ON CONFLICT DO NOTHING` into the outbox.
unfoldable pub insert_outbox : OrderFillRow → List OrderFillRow → List OrderFillRow
insert_outbox row rows = if exists (is_same_execution row) rows then rows else rows ++ row ∷ []

unfoldable pub fill_row : ℕ → Order → OrderFilledPayload → Text → FillAggregate → Option FillRow
fill_row id order payload external_fill_id a = do
  price ← decimal_to_scaled (text payload.filled_price) 6
  qty ← decimal_to_scaled (text a.applied_qty) 8
  some (record {
    id = id;
    account_id = order.account_id;
    order_id = order.id;
    stock_id = order.stock_id;
    external_fill_id = external_fill_id;
    fill_type = payload.side;
    quantity = a.applied_qty;
    price = scaled_to_decimal price 6;
    amount = scaled_to_decimal (multiply_scaled qty 8 price 6 6) 6;
    fee_amount = none;
    tax_amount = none;
    net_amount = none;
    is_paper = order.is_paper;
    filled_at = payload.filled_at_ms;
    raw_data = payload;
  })

-- `… || null`: a fill id of 0 is no id.
abbrev pub non_zero : ℕ → Option ℕ
non_zero zero = none
non_zero (suc n) = some (suc n)

-- The tables after the fill, the order and the outbox are written. On a conflict PostgreSQL would
-- leave a gap in a sequence, which nothing reads.
unfoldable pub write_tables :
    ℕ → OrderFilledPayload → Text → Order → FillAggregate → FillRow → Db → Db
unfolding write_fill outbox_row insert_outbox update_where
write_tables now payload external_fill_id order a row db = record db {
  fills = db.fills ++ row ∷ [];
  next_fill_id = suc db.next_fill_id;
  orders = update_where (λ o. o.id == order.id) (write_fill now payload a order) db.orders;
  order_fills =
      insert_outbox (outbox_row now db.next_order_fill_id payload external_fill_id a)
        db.order_fills;
  next_order_fill_id = suc db.next_order_fill_id;
}

unfoldable pub save_book_anomaly : ℕ → OrderFilledPayload → Text → ℕ → Option Anomaly → Db → Db
unfolding save_unmatched
save_book_anomaly now payload external_fill_id order_id none db = db
save_book_anomaly now payload external_fill_id order_id (some reason) db =
    save_unmatched now payload external_fill_id reason false (some order_id) db

abbrev pub has_fill : Text → List FillRow → Bool
has_fill external_fill_id = exists (λ r. text_eq r.external_fill_id external_fill_id)
