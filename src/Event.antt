-- ===== src/Event.antt =====
-- shared/event/order-filled.event.ts: an execution that the broker reports.
use trading_worker.Base.{ℕ, Option}
use trading_worker.Base.Text.{Text}

pub data MarketEnv : Type 0 where
  mock production : MarketEnv

pub data Side : Type 0 where
  buy sell : Side

-- The two numbers are given by their texts, `String(number)`, which is all that the code reads of
-- them; `filled_at_ms` is the instant that `new Date(filledAt)` reads from the text.
pub record OrderFilledPayload : Type 0 where
  pub provider : Text
  pub market_env : MarketEnv
  pub account_id : Text
  pub client_order_id : Text
  pub vendor_order_id : Text
  pub external_fill_id : Option Text
  pub symbol : Text
  pub side : Side
  pub filled_qty : Text
  pub filled_price : Text
  pub filled_at : Text
  pub filled_at_ms : ℕ
