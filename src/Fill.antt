-- ===== src/Fill.antt =====
-- roles/tracker/service/execution-persistence.service.ts: what a fill makes of its order
-- (`buildFillAggregate`, `resolveFillStatus`, `fillAnomaly`, `matchesOrderSide`,
-- `buildExternalFillId`). `none` is the SyntaxError of a malformed number.
pub mod Quantity
pub mod Status
pub mod Db
pub mod Book
pub mod Find
pub mod Write
pub mod Ingest
pub mod Samples
mod Tests
mod OutboxTests
pub mod Outcome
pub mod Once
pub mod Accounts
pub mod Ledger
pub mod Position
pub mod Aside
pub mod Retry
pub mod Attempts
pub mod Outbox
pub mod Claiming
pub mod Backoff
pub mod Delivery
use trading_worker.Base.{
  ℕ, Bool, true, false, List, [], ◌∷◌, ◌++◌, Option, none, some, ◌||◌, ◌&&◌, ◌>>=◌, if◌then◌else◌,
}
use trading_worker.Base.Int.{ℤ, pos, ◌+ℤ◌, ◌-ℤ◌, leb_ℤ, ltb_ℤ, min_big_int, max_big_int}
use trading_worker.Base.Text.{Text, codes, coalesce, coalesce_null, or_null}
use trading_worker.Scaled.{
  text, big, column, decimal_to_scaled, scaled_to_decimal, multiply_scaled, divide_scaled,
}
use trading_worker.Event.{MarketEnv, Side, OrderFilledPayload}
use trading_worker.Order.{
  Order, OrderStatus, OrderType, partially_filled, filled, cancel_requested, cancel_submitting,
  cancelled, rejected, failed, expired, Anomaly, ordered_quantity_zero, fill_clamped, terminal_fill,
}
use mathlib.Core.Option

-- The columns of the order that a fill writes.
pub record FillFields : Type 0 where
  pub status : OrderStatus
  pub broker_order_id : Text
  pub external_order_id : Text
  pub client_order_id : Option Text
  pub filled_quantity : Text
  pub remaining_quantity : Text
  pub average_fill_price : Option Text
  pub filled_amount : Text
  pub accepted_at : Option ℕ
  pub filled_at : Option ℕ

pub record FillAggregate : Type 0 where
  pub fields : FillFields
  pub anomaly : Option Anomaly
  pub applied_qty : Text
  pub applied_amount : Text

-- The scaled numbers of one fill: quantities at 8 places, prices and amounts at 6.
pub record FillNumbers : Type 0 where
  pub ordered_qty : ℤ
  pub next_filled_qty : ℤ
  pub applied_qty : ℤ
  pub applied_amount : ℤ
  pub next_filled_amount : ℤ
  pub remaining_qty : ℤ
  pub average_fill_price : Option ℤ

abbrev pub is_terminal : OrderStatus → Bool
is_terminal cancelled = true
is_terminal rejected = true
is_terminal failed = true
is_terminal expired = true
is_terminal _ = false

abbrev pub is_cancelling : OrderStatus → Bool
is_cancelling cancel_requested = true
is_cancelling cancel_submitting = true
is_cancelling _ = false

unfoldable pub resolve_fill_status : OrderStatus → ℤ → ℤ → OrderStatus
resolve_fill_status current ordered_qty remaining_qty =
    if is_terminal current
    then current
    else if leb_ℤ ordered_qty (pos 0)
    then current
    else if leb_ℤ remaining_qty (pos 0)
    then filled
    else if is_cancelling current
    then current
    else partially_filled

unfoldable pub fill_anomaly : OrderStatus → ℤ → ℤ → Option Anomaly
fill_anomaly current ordered_qty applied_qty =
    if leb_ℤ ordered_qty (pos 0)
    then some ordered_quantity_zero
    else if leb_ℤ applied_qty (pos 0)
    then some fill_clamped
    else if is_terminal current
    then some (terminal_fill current)
    else none

unfoldable pub matches_order_side : OrderType → Side → Bool
matches_order_side OrderType.buy Side.buy = true
matches_order_side OrderType.sell Side.buy = false
matches_order_side OrderType.buy Side.sell = false
matches_order_side OrderType.sell Side.sell = true

unfoldable pub fill_numbers : ℤ → ℤ → ℤ → ℤ → ℤ → FillNumbers
fill_numbers fill_qty fill_price ordered_qty previous_filled_qty previous_filled_amount =
    let next_filled_qty = min_big_int ordered_qty (previous_filled_qty +ℤ fill_qty) in
    let applied_qty = max_big_int (pos 0) (next_filled_qty -ℤ previous_filled_qty) in
    let applied_amount = multiply_scaled applied_qty 8 fill_price 6 6 in
    let next_filled_amount = previous_filled_amount +ℤ applied_amount in
    record {
      ordered_qty = ordered_qty;
      next_filled_qty = next_filled_qty;
      applied_qty = applied_qty;
      applied_amount = applied_amount;
      next_filled_amount = next_filled_amount;
      remaining_qty = max_big_int (pos 0) (ordered_qty -ℤ next_filled_qty);
      average_fill_price =
          if ltb_ℤ (pos 0) next_filled_qty
          then some (divide_scaled next_filled_amount 6 next_filled_qty 8 6)
          else none;
    }

abbrev is_terminal_fill : Option Anomaly → Bool
is_terminal_fill (some (terminal_fill s)) = true
is_terminal_fill _ = false

-- The accepted instant stays as it is on an order that was closed before the fill arrived.
abbrev next_accepted_at : Option Anomaly → Option ℕ → ℕ → Option ℕ
next_accepted_at anomaly accepted_at at =
    if is_terminal_fill anomaly then accepted_at else some (coalesce accepted_at at)

unfoldable pub aggregate_of : Order → OrderFilledPayload → FillNumbers → FillAggregate
aggregate_of order payload n =
    let anomaly = fill_anomaly order.status n.ordered_qty n.applied_qty in
    record {
      anomaly = anomaly;
      fields = record {
        status = resolve_fill_status order.status n.ordered_qty n.remaining_qty;
        broker_order_id = coalesce order.broker_order_id payload.vendor_order_id;
        external_order_id = coalesce order.external_order_id payload.vendor_order_id;
        client_order_id = coalesce_null order.client_order_id (or_null payload.client_order_id);
        filled_quantity = scaled_to_decimal n.next_filled_qty 8;
        remaining_quantity = scaled_to_decimal n.remaining_qty 8;
        average_fill_price = Option.map (λ price. scaled_to_decimal price 6) n.average_fill_price;
        filled_amount = scaled_to_decimal n.next_filled_amount 6;
        accepted_at = next_accepted_at anomaly order.accepted_at payload.filled_at_ms;
        filled_at =
            if leb_ℤ n.remaining_qty (pos 0) then some payload.filled_at_ms else order.filled_at;
      };
      applied_qty = scaled_to_decimal n.applied_qty 8;
      applied_amount = scaled_to_decimal n.applied_amount 6;
    }

-- `order.filledAmount`, or the filled quantity at the average price where it is null.
unfoldable pub filled_amount_before : Order → ℤ → Option ℤ
filled_amount_before order previous_filled_qty = elim order.filled_amount [
  | some amount ↦ decimal_to_scaled (text amount) 6
  | none ↦ do
    average ← decimal_to_scaled (column order.average_fill_price) 6
    decimal_to_scaled (big (multiply_scaled previous_filled_qty 8 average 6 6)) 6
]

unfoldable pub fill_of_order : Order → ℤ → ℤ → Option FillNumbers
fill_of_order order fill_qty fill_price = do
  quantity ← decimal_to_scaled (text order.quantity) 8
  filled_before ← decimal_to_scaled (text order.filled_quantity) 8
  let previous_filled_qty = max_big_int (pos 0) filled_before
  amount_before ← filled_amount_before order previous_filled_qty
  some (
      fill_numbers fill_qty fill_price (max_big_int (pos 0) quantity) previous_filled_qty
        (max_big_int (pos 0) amount_before))

-- The inner `none` is the `null` of an invalid fill.
unfoldable pub build_fill_aggregate : Order → OrderFilledPayload → Option (Option FillAggregate)
build_fill_aggregate order payload = do
  fill_qty ← decimal_to_scaled (text payload.filled_qty) 8
  fill_price ← decimal_to_scaled (text payload.filled_price) 6
  if leb_ℤ fill_qty (pos 0) || ltb_ℤ fill_price (pos 0)
      then some none
      else Option.map (λ n. some (aggregate_of order payload n))
          (fill_of_order order fill_qty fill_price)

abbrev env_text : MarketEnv → Text
env_text MarketEnv.mock = codes "mock"
env_text MarketEnv.production = codes "production"

-- `parts.join(':')`
join : List Text → Text
join [] = []
join (t ∷ []) = t
join (t ∷ u ∷ rest) = t ++ b':' ∷ join (u ∷ rest)

unfoldable pub build_external_fill_id : OrderFilledPayload → Option Text
unfolding join
build_external_fill_id payload = do
  qty ← decimal_to_scaled (text payload.filled_qty) 8
  price ← decimal_to_scaled (text payload.filled_price) 6
  some (
      join (
        payload.provider
        ∷ env_text payload.market_env
        ∷ payload.account_id
        ∷ payload.vendor_order_id
        ∷ payload.filled_at
        ∷ scaled_to_decimal qty 8
        ∷ scaled_to_decimal price 6
        ∷ []))
