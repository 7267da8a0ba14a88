-- ===== src/Fill/Samples.antt =====
-- A small database, an order, and reports for it.
use trading_worker.Base.{ℕ, Bool, true, false, [], ◌∷◌, Option, some, none}
use trading_worker.Base.Text.{Text, codes}
use trading_worker.Event.{MarketEnv, Side, OrderFilledPayload}
use trading_worker.Order.{Order, accepted, OrderType, OrderMethod, kiwoom}
use trading_worker.Fill.Db.{Db, OrderFillRow, PositionBook, UnmatchedFill, pending, manual}
use trading_worker.Order.{order_not_found}

abbrev pub ignores_null : Option ℕ → Bool
ignores_null user = true

-- A buy of ten, for user 5.
abbrev pub order_of : ℕ → Text → Text → Option ℕ → Order
order_of id vendor filled user = record {
  id = id;
  account_id = 1;
  decision_id = none;
  account_strategy_id = none;
  strategy_id = none;
  stock_id = 3;
  external_order_id = some vendor;
  client_order_id = none;
  requested_by_user_id = user;
  api_credential_id = some 9;
  brokerage = some kiwoom;
  market_env = some MarketEnv.mock;
  account_external_id = some (codes "A1");
  broker_order_id = some vendor;
  order_type = OrderType.buy;
  order_method = OrderMethod.limit;
  status = accepted;
  quantity = codes "10";
  filled_quantity = filled;
  remaining_quantity = some (codes "10");
  price = some (codes "100");
  average_fill_price = none;
  order_amount = none;
  filled_amount = some (codes "0");
  fee_amount = none;
  tax_amount = none;
  is_paper = false;
  requested_at = some 0;
  accepted_at = some 0;
  filled_at = none;
  cancel_requested_at = none;
  cancelled_at = none;
  failed_at = none;
  failure_reason = none;
  request_symbol = some (codes "005930");
  raw_response = none;
  created_at = 0;
  updated_at = 0;
}

abbrev pub order : Order
order = order_of 7 (codes "V1") (codes "0") (some 5)

-- A report of four at 100.
abbrev pub report_of : Text → Text → OrderFilledPayload
report_of vendor fill = record {
  provider = codes "kiwoom";
  market_env = MarketEnv.mock;
  account_id = codes "A1";
  client_order_id = [];
  vendor_order_id = vendor;
  external_fill_id = some fill;
  symbol = codes "005930";
  side = Side.buy;
  filled_qty = codes "4";
  filled_price = codes "100";
  filled_at = codes "2026-01-02";
  filled_at_ms = 5000;
}

abbrev pub report : OrderFilledPayload
report = report_of (codes "V1") (codes "F1")

abbrev pub stray_report : OrderFilledPayload
stray_report = report_of (codes "V9") (codes "F9")

abbrev pub outbox_row_of : ℕ → Text → OrderFillRow
outbox_row_of id fill = record {
  id = id;
  provider = codes "kiwoom";
  market_env = MarketEnv.mock;
  account_id = codes "A1";
  vendor_order_id = codes "V1";
  external_fill_id = fill;
  client_order_id = none;
  symbol = codes "005930";
  side = Side.buy;
  filled_qty = codes "1";
  filled_price = codes "100";
  filled_at = 0;
  live_published_at = none;
  stream_published_at = some 1;
  publish_attempts = 0;
  publish_claimed_at = none;
  next_publish_at = none;
  last_publish_error = none;
  created_at = id;
}

abbrev pub waiting_fill : UnmatchedFill
waiting_fill = record {
  external_fill_id = codes "F9";
  provider = codes "kiwoom";
  market_env = MarketEnv.mock;
  account_id = codes "A1";
  vendor_order_id = some (codes "V9");
  client_order_id = none;
  symbol = codes "005930";
  reason = order_not_found;
  status = pending;
  attempts = 2;
  next_retry_at = some 10;
  resolved_order_id = none;
  resolved_at = none;
  last_error = some order_not_found;
  payload = stray_report;
  created_at = 0;
}

abbrev pub database : Db
database = record {
  orders = order ∷ [];
  fills = [];
  next_fill_id = 1;
  order_fills = outbox_row_of 1 (codes "F1") ∷ outbox_row_of 2 (codes "F2") ∷ [];
  next_order_fill_id = 3;
  position_books = [];
  next_position_book_id = 1;
  unmatched = waiting_fill ∷ [];
}

-- A manual order that names no user, and the book that its account has already.
abbrev pub account_book : PositionBook
account_book = record {
  id = 1;
  account_id = 1;
  stock_id = 3;
  source_type = manual;
  account_strategy_id = none;
  strategy_id = none;
  requested_by_user_id = none;
  quantity = codes "2";
  average_price = codes "100";
  cost_amount = codes "200";
  realized_amount = codes "0";
  last_fill_id = none;
  last_filled_at = none;
}

abbrev pub userless : Db
userless = record database {
  orders = order_of 7 (codes "V1") (codes "0") none ∷ [];
  position_books = account_book ∷ [];
  next_position_book_id = 2;
}
