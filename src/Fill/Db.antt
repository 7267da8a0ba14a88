-- ===== src/Fill/Db.antt =====
-- The tables that the tracker's fill path reads and writes (shared/persistence/fill, order-fill,
-- position-book, unmatched-order-fill), with the unique indexes of schema/.
use trading_worker.Base.{ℕ, Bool, true, false, List, [], ◌∷◌, ◌++◌, Option, if◌then◌else◌, exists}
use trading_worker.Base.Text.{Text, text_eq}
use trading_worker.Event.{MarketEnv, Side, OrderFilledPayload}
use trading_worker.Order.{Order, Anomaly}

-- `fills`: unique by `external_fill_id`.
pub record FillRow : Type 0 where
  pub id : ℕ
  pub account_id : ℕ
  pub order_id : ℕ
  pub stock_id : ℕ
  pub external_fill_id : Text
  pub fill_type : Side
  pub quantity : Text
  pub price : Text
  pub amount : Text
  pub fee_amount : Option Text
  pub tax_amount : Option Text
  pub net_amount : Option Text
  pub is_paper : Bool
  pub filled_at : ℕ
  pub raw_data : OrderFilledPayload

-- `order_fill`: the outbox, unique by provider, market environment and external fill id.
pub record OrderFillRow : Type 0 where
  pub id : ℕ
  pub provider : Text
  pub market_env : MarketEnv
  pub account_id : Text
  pub vendor_order_id : Text
  pub external_fill_id : Text
  pub client_order_id : Option Text
  pub symbol : Text
  pub side : Side
  pub filled_qty : Text
  pub filled_price : Text
  pub filled_at : ℕ
  pub live_published_at : Option ℕ
  pub stream_published_at : Option ℕ
  pub publish_attempts : ℕ
  pub publish_claimed_at : Option ℕ
  pub next_publish_at : Option ℕ
  pub last_publish_error : Option Text
  pub created_at : ℕ

pub data SourceType : Type 0 where
  strategy manual : SourceType

pub record PositionBook : Type 0 where
  pub id : ℕ
  pub account_id : ℕ
  pub stock_id : ℕ
  pub source_type : SourceType
  pub account_strategy_id : Option ℕ
  pub strategy_id : Option ℕ
  pub requested_by_user_id : Option ℕ
  pub quantity : Text
  pub average_price : Text
  pub cost_amount : Text
  pub realized_amount : Text
  pub last_fill_id : Option ℕ
  pub last_filled_at : Option ℕ

pub data UnmatchedStatus : Type 0 where
  pending resolved dead_letter : UnmatchedStatus

-- `unmatched_order_fills`: unique by `external_fill_id`.
pub record UnmatchedFill : Type 0 where
  pub external_fill_id : Text
  pub provider : Text
  pub market_env : MarketEnv
  pub account_id : Text
  pub vendor_order_id : Option Text
  pub client_order_id : Option Text
  pub symbol : Text
  pub reason : Anomaly
  pub status : UnmatchedStatus
  pub attempts : ℕ
  pub next_retry_at : Option ℕ
  pub resolved_order_id : Option ℕ
  pub resolved_at : Option ℕ
  pub last_error : Option Anomaly
  pub payload : OrderFilledPayload
  pub created_at : ℕ

-- The sequences number the next row of their table.
pub record Db : Type 0 where
  pub orders : List Order
  pub fills : List FillRow
  pub next_fill_id : ℕ
  pub order_fills : List OrderFillRow
  pub next_order_fill_id : ℕ
  pub position_books : List PositionBook
  pub next_position_book_id : ℕ
  pub unmatched : List UnmatchedFill

abbrev pub env_eq : MarketEnv → MarketEnv → Bool
env_eq MarketEnv.mock MarketEnv.mock = true
env_eq MarketEnv.mock MarketEnv.production = false
env_eq MarketEnv.production MarketEnv.mock = false
env_eq MarketEnv.production MarketEnv.production = true

abbrev pub source_eq : SourceType → SourceType → Bool
source_eq strategy strategy = true
source_eq strategy manual = false
source_eq manual strategy = false
source_eq manual manual = true

-- `INSERT … ON CONFLICT DO NOTHING` into `unmatched_order_fills`.
unfoldable pub insert_unmatched : UnmatchedFill → List UnmatchedFill → List UnmatchedFill
insert_unmatched row rows =
    if exists (λ r. text_eq r.external_fill_id row.external_fill_id) rows
    then rows
    else rows ++ row ∷ []
