-- ===== src/Order.antt =====
-- shared/model/order/ and shared/persistence/order/order.entity.ts: a row of the `orders` table.
-- Instants are milliseconds. Decimal columns are texts, as the driver hands them over.
pub mod Store
pub mod Ids
pub mod Claims
pub mod Selects
mod Tests
use trading_worker.Base.{ℕ, ◌≡◌, arith, Bool, true, false, Option, List, [], ◌∷◌, ◌||◌, ◌==◌, All}
use trading_worker.Base.Text.{Text}
use trading_worker.Event.{MarketEnv, OrderFilledPayload}

pub data OrderStatus : Type 0 where
  created submitting requested accepted partially_filled filled : OrderStatus
  cancel_requested cancel_submitting cancelled rejected failed expired : OrderStatus

-- The marks that the fill path puts on what it cannot book cleanly.
pub data Anomaly : Type 0 where
  order_not_found side_mismatch invalid_fill fill_clamped ordered_quantity_zero : Anomaly
  terminal_fill : OrderStatus → Anomaly
  position_book_missing_sell : Anomaly

pub data OrderType : Type 0 where
  buy sell : OrderType

pub data OrderMethod : Type 0 where
  market limit stop stop_limit : OrderMethod

pub data Brokerage : Type 0 where
  kiwoom korea_invest : Brokerage

-- `order.rawResponse`: the keys that the fill path writes; `rest` stands for the other keys.
pub record RawResponse : Type 0 where
  pub last_execution_fill : Option OrderFilledPayload
  pub last_execution_fill_anomaly : Option Anomaly
  pub rest : Text

pub record Order : Type 0 where
  pub id : ℕ
  pub account_id : ℕ
  pub decision_id : Option ℕ
  pub account_strategy_id : Option ℕ
  pub strategy_id : Option ℕ
  pub stock_id : ℕ
  pub external_order_id : Option Text
  pub client_order_id : Option Text
  pub requested_by_user_id : Option ℕ
  pub api_credential_id : Option ℕ
  pub brokerage : Option Brokerage
  pub market_env : Option MarketEnv
  pub account_external_id : Option Text
  pub broker_order_id : Option Text
  pub order_type : OrderType
  pub order_method : OrderMethod
  pub status : OrderStatus
  pub quantity : Text
  pub filled_quantity : Text
  pub remaining_quantity : Option Text
  pub price : Option Text
  pub average_fill_price : Option Text
  pub order_amount : Option Text
  pub filled_amount : Option Text
  pub fee_amount : Option Text
  pub tax_amount : Option Text
  pub is_paper : Bool
  pub requested_at : Option ℕ
  pub accepted_at : Option ℕ
  pub filled_at : Option ℕ
  pub cancel_requested_at : Option ℕ
  pub cancelled_at : Option ℕ
  pub failed_at : Option ℕ
  pub failure_reason : Option Text
  -- `rawRequest?.symbol`, if it is a string.
  pub request_symbol : Option Text
  pub raw_response : Option RawResponse
  pub created_at : ℕ
  pub updated_at : ℕ

-- Ids are a primary key.
abbrev pub UniqueIds : List Order → Type 0
UniqueIds [] = Unit
UniqueIds (o ∷ os) = All (λ x. (x.id == o.id) ≡ false) os × UniqueIds os

-- The place of a status in its enumeration.
abbrev pub status_code : OrderStatus → ℕ
status_code created = 0
status_code submitting = 1
status_code requested = 2
status_code accepted = 3
status_code partially_filled = 4
status_code filled = 5
status_code cancel_requested = 6
status_code cancel_submitting = 7
status_code cancelled = 8
status_code rejected = 9
status_code failed = 10
status_code expired = 11

-- `===` on statuses.
abbrev pub status_eq : OrderStatus → OrderStatus → Bool
status_eq a b = status_code a == status_code b

unfoldable pub status_in : OrderStatus → List OrderStatus → Bool
status_in s [] = false
status_in s (t ∷ ts) = status_eq s t || status_in s ts

pub status_eq→eq : (a b : OrderStatus) → status_eq a b ≡ true → a ≡ b
status_eq→eq a b h = ground arith
