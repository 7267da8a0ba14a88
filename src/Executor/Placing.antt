-- ===== src/Executor/Placing.antt =====
-- pickup-requested-orders.usecase.ts: `placeClaimedOrder`, `failClaimedOrder`, `toPlaceInput` and the two
-- events. Numbers of a decimal column stay the text that they are read from. An event that
-- the bus refuses is only logged, so it counts as produced.
use trading_worker.Base.{
  ℕ, Bool, true, false, List, [], ◌∷◌, ◌++◌, Option, some, none, if◌then◌else◌,
}
use trading_worker.Base.Text.{Text, codes, coalesce, text_eq, trim}
use trading_worker.Event.{Side}
use trading_worker.Order.{
  Order, OrderStatus, submitting, accepted, cancel_requested, cancel_submitting, rejected, failed,
  OrderType, OrderMethod,
}
use trading_worker.Order.Store.{update_status_from_expected, attach_broker_order_id_from_expected}
use trading_worker.Executor.{
  Failure, Answer, returns, throws, domain_error, positive_id, non_empty, account_external_id_of,
  failure_reason_of,
}
use mathlib.Core.Option

pub data PlaceType : Type 0 where
  limit market : PlaceType

pub record PlaceInput : Type 0 where
  pub account_id : Text
  pub client_order_id : Text
  pub symbol : Text
  pub side : Side
  pub type : PlaceType
  pub quantity : Text
  pub price : Option Text

abbrev pub side_of : OrderType → Side
side_of OrderType.buy = Side.buy
side_of OrderType.sell = Side.sell

abbrev pub type_of : OrderMethod → PlaceType
type_of OrderMethod.limit = limit
type_of OrderMethod.market = market
type_of OrderMethod.stop = market
type_of OrderMethod.stop_limit = market

-- `typeof rawRequest?.symbol === 'string' ? symbol.trim() : ''`
abbrev pub symbol_of : Order → Text
symbol_of order = coalesce (Option.map trim order.request_symbol) []

-- `id_text` prints a number.
unfoldable pub place_input : (ℕ → Text) → Order → Text → Text → PlaceInput
place_input id_text order account symbol = record {
  account_id = account;
  client_order_id = coalesce order.client_order_id (codes "order-" ++ id_text order.id);
  symbol = symbol;
  side = side_of order.order_type;
  type = type_of order.order_method;
  quantity = order.quantity;
  price = order.price;
}

unfoldable pub place_input_with : (ℕ → Text) → Order → Option Text → Option Text → Answer PlaceInput
unfolding place_input
place_input_with id_text order none symbol = throws (
    domain_error
      (codes
        "manual order is missing accountExternalId; refusing to send internal account id to broker")
      (codes "ORDER_ACCOUNT_EXTERNAL_ID_MISSING"))
place_input_with id_text order (some account) none =
    throws (domain_error (codes "manual order is missing symbol") (codes "ORDER_SYMBOL_MISSING"))
place_input_with id_text order (some account) (some symbol) =
    returns (place_input id_text order account symbol)

unfoldable pub to_place_input : (ℕ → Text) → Order → Answer PlaceInput
unfolding place_input_with trim account_external_id_of
to_place_input id_text order =
    place_input_with id_text order (account_external_id_of order) (non_empty (symbol_of order))

pub data OrderEvent : Type 0 where
  order_placed : ℕ → Text → OrderEvent
  order_failed : ℕ → Text → Text → OrderEvent

-- What the broker was asked, what was produced on the bus, and the table.
pub record Placed : Type 0 where
  pub calls : List PlaceInput
  pub events : List OrderEvent
  pub orders : List Order

abbrev pub error_code : Failure → Text
error_code failure = coalesce failure.code (codes "PLACE_ORDER_FAILED")

abbrev pub fail_status : Failure → OrderStatus
fail_status failure =
    if text_eq (error_code failure) (codes "VENDOR_REJECTED") then rejected else failed

abbrev pub set_failed_order : ℕ → OrderStatus → Failure → Order → Order
set_failed_order now status failure o = record o {
  status = status;
  failed_at = some now;
  failure_reason = some (failure_reason_of failure);
}

-- `publishFailed` produces nothing for an order without an external account.
abbrev pub failed_events : Order → Failure → Option Text → List OrderEvent
failed_events order failure none = []
failed_events order failure (some account) =
    order_failed order.id (error_code failure) failure.message ∷ []

abbrev pub after_fail : List PlaceInput → Order → Failure → Bool × List Order → Placed
after_fail calls order failure (false, orders) = record {
  calls = calls;
  events = [];
  orders = orders;
}
after_fail calls order failure (true, orders) = record {
  calls = calls;
  events = failed_events order failure (account_external_id_of order);
  orders = orders;
}

unfoldable pub fail_claimed_order : ℕ → List PlaceInput → Order → Failure → List Order → Placed
unfolding update_status_from_expected account_external_id_of
fail_claimed_order now calls order failure orders = after_fail calls order failure (
    update_status_from_expected now order.id (submitting ∷ [])
      (set_failed_order now (fail_status failure) failure) orders)

abbrev pub set_accepted : ℕ → Text → Order → Order
set_accepted now vendor_order_id o = record o {
  status = accepted;
  broker_order_id = some vendor_order_id;
  external_order_id = some vendor_order_id;
  accepted_at = some now;
}

unfoldable pub after_ack : ℕ → PlaceInput → Order → Text → Bool × List Order → Placed
unfolding attach_broker_order_id_from_expected
after_ack now input order vendor_order_id (true, orders) = record {
  calls = input ∷ [];
  events = order_placed order.id vendor_order_id ∷ [];
  orders = orders;
}
after_ack now input order vendor_order_id (false, orders) =
    let attached =
      attach_broker_order_id_from_expected now order.id
        (submitting ∷ cancel_requested ∷ cancel_submitting ∷ []) vendor_order_id orders in
    record { calls = input ∷ []; events = []; orders = attached.1 }

-- The broker's answer is there: `orders` is the table at that time.
unfoldable pub on_answer : ℕ → PlaceInput → Order → Answer Text → List Order → Placed
unfolding fail_claimed_order after_ack update_status_from_expected
on_answer now input order (throws failure) orders =
    fail_claimed_order now (input ∷ []) order failure orders
on_answer now input order (returns vendor_order_id) orders =
    after_ack now input order vendor_order_id (
      update_status_from_expected now order.id (submitting ∷ []) (set_accepted now vendor_order_id)
        orders)

abbrev pub missing_credential : Failure
missing_credential =
    domain_error (codes "manual order is missing apiCredentialId")
      (codes "ORDER_API_CREDENTIAL_MISSING")

-- `gateway` is the vendor's `placeOrderForAccountCredential`: its answer, with `meanwhile`, what other
-- transactions make of the table while the call is on its way.
module _ (id_text : ℕ → Text) (gateway : ℕ → ℕ → PlaceInput → Answer Text)
    (meanwhile : List Order → List Order) where
  unfoldable pub place_with : ℕ → Order → PlaceInput → Option ℕ → List Order → Placed
  unfolding on_answer fail_claimed_order
  place_with now order input none orders = fail_claimed_order now [] order missing_credential orders
  place_with now order input (some credential) orders =
      on_answer now input order (gateway order.account_id credential input) (meanwhile orders)

  unfoldable pub place_checked : ℕ → Order → Answer PlaceInput → List Order → Placed
  unfolding place_with fail_claimed_order
  place_checked now order (throws failure) orders = fail_claimed_order now [] order failure orders
  place_checked now order (returns input) orders =
      place_with now order input (positive_id order.api_credential_id) orders

  -- `processOne` once the lock has answered: `locked` is the lock's own error, if it throws.
  unfoldable pub process_one : ℕ → Order → Option Failure → List Order → Placed
  unfolding place_checked to_place_input fail_claimed_order
  process_one now order (some failure) orders = fail_claimed_order now [] order failure orders
  process_one now order none orders = place_checked now order (to_place_input id_text order) orders
